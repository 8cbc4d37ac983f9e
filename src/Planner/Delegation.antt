-- ===== src/Planner/Delegation.antt =====
-- `FinishPlanTool.execute` and `SubAgentTool.execute` of dare_framework/plan_v2/tools.py. The run of a
-- sub-agent is code outside: the model is given what happens between the two halves of the call.
use deterministic_agent_runt.Base.{
  ℕ, zero, suc, String, Bool, true, false, not, ◌&&◌, Option, none, some, List, [], ◌∷◌,
  if◌then◌else◌,
}
use deterministic_agent_runt.Base.Text.{is_empty}
use deterministic_agent_runt.Planner.State.{
  PlanState, known, PlanStep, PlannerState, is_terminal, is_todo, is_done, is_abandoned, id_of,
  is_step_completed, is_pending, pending_steps, sync_completed_step_ids, get_step, transition_step,
  transition_plan, is_nil, format_critical_block,
}
use deterministic_agent_runt.Planner.Tools.{Reply, old_state}

-- The pending steps by their places and ids, as the list of references that `_pending_steps` returns.
unfoldable pub pending_places : List String → ℕ → List PlanStep → List (ℕ × Option String)
unfolding is_step_completed id_of
pending_places completed i [] = []
pending_places completed i (s ∷ ss) =
    let rest = pending_places completed (suc i) ss in
    if is_pending completed s then (i, id_of s) ∷ rest else rest

-- `_set_step_state` on the step at a place
unfoldable pub set_status_at : ℕ → PlanState → List PlanStep → List PlanStep
set_status_at i p [] = []
set_status_at zero p (s ∷ ss) = record s { status = known p } ∷ ss
set_status_at (suc i) p (s ∷ ss) = s ∷ set_status_at i p ss

-- The loop that abandons the pending steps. Its second value tells whether it ran to its end;
-- `transition_step` may raise, and then what was written stays.
unfoldable pub abandon_steps : List (ℕ × Option String) → PlannerState → PlannerState × Bool
unfolding transition_step set_status_at
abandon_steps [] st = (st, true)
abandon_steps ((i, none) ∷ places) st =
    abandon_steps places (record st { steps = set_status_at i PlanState.abandoned st.steps })
abandon_steps ((i, some k) ∷ places) st = elim (transition_step k PlanState.abandoned st) [
  | none ↦ (st, false)
  | some st' ↦ abandon_steps places st'
]

abbrev pub with_summary : Option String → PlannerState → PlannerState
with_summary none st = st
with_summary (some s) st = if is_empty s then st else record st { last_remediation_summary = s }

-- `execute` from the point where the loop has ended or raised
abbrev pub close_plan : Option String → PlannerState × Bool → PlannerState × Reply
close_plan summary (st, false) = (st, Reply.raised)
close_plan summary (st, true) = (format_critical_block (with_summary summary st), Reply.succeeded)

abbrev pub finish_from :
    PlanState
    → Option String
    → List (ℕ × Option String)
    → PlannerState
    → Option PlannerState
    → PlannerState × Reply
finish_from target summary places old none = (old, Reply.invalid_transition)
finish_from target summary places old (some st) =
    close_plan summary (if is_abandoned target then abandon_steps places st else (st, true))

-- `FinishPlanTool.execute`; a target that is no state at all is `none`
unfoldable pub finish_plan : Option PlanState → Option String → PlannerState → PlannerState × Reply
finish_plan none summary st = (st, Reply.invalid_target)
finish_plan (some target) summary st =
    if not (is_terminal target)
    then (st, Reply.invalid_target)
    else if is_nil st.steps
    then (st, Reply.no_plan)
    else if is_done target && not (is_nil (pending_steps st))
    then (st, Reply.pending_exist)
    else finish_from target summary (pending_places st.completed_step_ids zero st.steps) st
        (transition_plan target st)

-- the step that a delegation starts: refused, or in progress
abbrev pub start_found : Option PlanStep → String → PlannerState → PlannerState × Reply
start_found none k st = (st, Reply.unknown_step)
start_found (some s) k st =
    if is_terminal (old_state st.completed_step_ids s)
    then (st, Reply.terminal_step)
    else elim (transition_step k PlanState.in_progress st) [
      | none ↦ (st, Reply.raised)
      | some st' ↦ (
        format_critical_block (record st' {
          plan_status = if is_todo st'.plan_status then PlanState.in_progress else st'.plan_status;
        }),
        Reply.succeeded,
      )
    ]

-- the step id, if it is there and not empty
unfoldable pub named_step : Option String → Option String
named_step none = none
named_step (some k) = if is_empty k then none else some k

-- `SubAgentTool.execute` up to the run of the sub-agent; without a step id nothing is looked up
unfoldable pub begin_delegation : Option String → PlannerState → PlannerState × Reply
unfolding get_step named_step
begin_delegation step_id st =
    if is_terminal st.plan_status then (st, Reply.terminal_plan) else elim (named_step step_id) [
      | none ↦ (st, Reply.succeeded)
      | some k ↦ start_found (get_step k st) k st
    ]

-- the end of a run that has returned, where the plan has steps
abbrev pub with_progress : PlannerState → PlannerState
with_progress st = if is_nil st.steps then st else sync_completed_step_ids st

-- `SubAgentTool.execute` after the run: whether the run returned, and the step id
unfoldable pub end_delegation : Bool → Option String → PlannerState → PlannerState × Reply
unfolding named_step
end_delegation false step_id st = elim (named_step step_id) [
  | none ↦ (st, Reply.sub_agent_failed)
  | some k ↦ (format_critical_block st, Reply.sub_agent_failed)
]
end_delegation true step_id st = elim (named_step step_id) [
  | none ↦ (with_progress st, Reply.succeeded)
  | some k ↦ elim (transition_step k PlanState.done st) [
    | none ↦ (format_critical_block st, Reply.sub_agent_failed)
    | some st' ↦ (with_progress (format_critical_block st'), Reply.succeeded)
  ]
]
