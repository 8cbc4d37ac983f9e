-- ===== src/Planner/Tests.antt =====
-- Runs of the plan tools (dare_framework/plan_v2/tools.py) on a plan of two steps.
use deterministic_agent_runt.Base.{true, false, none, some, List, [], ◌∷◌, ◌≡◌, refl}
use deterministic_agent_runt.Base.Text.{strip, empty_text}
use deterministic_agent_runt.Json.{end}
use deterministic_agent_runt.Planner.State.{
  PlanState, known, PlanStep, PlannerState, NextAction, is_terminal, state_of, get_step,
  transition_step, transition_plan, member, is_nil, pending_steps,
}
use deterministic_agent_runt.Planner.Tools.{RawStep, Reply, create_plan, revise_current_plan}
use deterministic_agent_runt.Planner.Delegation.{finish_plan, begin_delegation, end_delegation}
use deterministic_agent_runt.Planner.Progress.{finish_done_needs_all_steps}
use deterministic_agent_runt.Planner.Delegated.{delegation_completes_step}
use deterministic_agent_runt.Planner.Final.{
  PlanCall, IsClosed, run_call, run_calls, run_calls-IsClosed,
}

abbrev no_state : PlannerState
no_state = record {
  task_id = "t";
  session_id = "s";
  milestones = [];
  current_milestone_id = none;
  plan_description = empty_text;
  steps = [];
  plan_status = PlanState.todo;
  completed_step_ids = [];
  plan_success = true;
  plan_errors = [];
  plan_validated = false;
  last_verify_errors = [];
  last_remediation_summary = empty_text;
  critical_block = NextAction.no_block;
}

abbrev two_steps : List RawStep
two_steps =
    record { raw_id = "a"; raw_description = "read"; raw_params = end }
    ∷ record { raw_id = "b"; raw_description = "write"; raw_params = end }
    ∷ []

abbrev planned : PlannerState
planned = (create_plan "plan" two_steps no_state).0

created : (create_plan "plan" two_steps no_state).1 ≡ Reply.succeeded
unfolding create_plan strip
created = refl

abbrev swapped : List RawStep
swapped =
    record { raw_id = "b"; raw_description = "write"; raw_params = end }
    ∷ record { raw_id = ""; raw_description = "dropped"; raw_params = end }
    ∷ record { raw_id = " a "; raw_description = "read again"; raw_params = end }
    ∷ []

revised : (revise_current_plan none (some swapped) planned).1 ≡ Reply.succeeded
unfolding revise_current_plan create_plan strip
revised = refl

accepted : (begin_delegation (some "a") planned).1 ≡ Reply.succeeded
unfolding begin_delegation create_plan transition_step strip
accepted = refl

delegation_completes_step_example :
    let finished = end_delegation true (some "a") (begin_delegation (some "a") planned).0 in
    (s : PlanStep) × (get_step "a" planned ≡ some s)
    × (is_terminal (state_of s) ≡ false)
    × (is_terminal planned.plan_status ≡ false)
    × (finished.1 ≡ Reply.succeeded)
    × (get_step "a" finished.0 ≡ some (record s { status = known PlanState.done }))
    × (member "a" finished.0.completed_step_ids ≡ true)
delegation_completes_step_example = delegation_completes_step "a" planned refl accepted

-- a delegation without a step, or with an empty id, leaves the plan as it is
without_step : begin_delegation none planned ≡ (planned, Reply.succeeded)
unfolding begin_delegation create_plan strip
without_step = refl

empty_step : begin_delegation (some "") planned ≡ (planned, Reply.succeeded)
unfolding begin_delegation create_plan strip
empty_step = refl

-- the plan after both steps have been delegated
abbrev worked_off : PlannerState
worked_off =
    run_calls
      (PlanCall.begins (some "a")
        ∷ PlanCall.ends true (some "a")
        ∷ PlanCall.begins (some "b")
        ∷ PlanCall.ends true (some "b")
        ∷ [])
      planned

finished : (finish_plan (some PlanState.done) none worked_off).1 ≡ Reply.succeeded
unfolding finish_plan run_calls run_call begin_delegation end_delegation create_plan transition_step
    transition_plan strip
finished = refl

finish_done_needs_all_steps_example :
    (is_nil worked_off.steps ≡ false)
    × (pending_steps worked_off ≡ [])
    × ((finish_plan (some PlanState.done) none worked_off).0.plan_status ≡ PlanState.done)
finish_done_needs_all_steps_example = finish_done_needs_all_steps none worked_off finished

abbrev closed : PlannerState
closed = (finish_plan (some PlanState.done) none worked_off).0

closed-IsClosed : IsClosed PlanState.done closed
unfolding finish_plan run_calls run_call begin_delegation end_delegation create_plan transition_step
    transition_plan strip
closed-IsClosed = record { has_steps = refl; terminal = refl; status = refl }

run_calls-IsClosed_example : IsClosed PlanState.done (
    run_calls
      (PlanCall.revises none (some [])
        ∷ PlanCall.creates "new" []
        ∷ PlanCall.begins (some "a")
        ∷ [])
      closed)
run_calls-IsClosed_example =
    run_calls-IsClosed PlanState.done
      (PlanCall.revises none (some [])
        ∷ PlanCall.creates "new" []
        ∷ PlanCall.begins (some "a")
        ∷ [])
      closed closed-IsClosed
