-- ===== src/Agent/Session.antt =====
-- `run_session_loop` of dare_framework/agent/_internal/session_orchestrator.py, over the milestone loop. The
-- milestones are those that the task, its decomposition or its default gives; `agents` is the
-- interface of the milestone loop for each, and `interrupted` is whether `_poll_or_raise` raises.
-- The session starts with no milestone states. Times, ids and the summary are left out.
use deterministic_agent_runt.Base.{
  Bool, true, false, ◌||◌, Option, none, some, is_some, List, [], ◌∷◌, String,
}
use deterministic_agent_runt.Context.Budget.{budget_check}
use deterministic_agent_runt.Context.Memory.{Message, stm_add}
use deterministic_agent_runt.Agent.Sandbox.{PlanAttemptSandbox}
use deterministic_agent_runt.Agent.Milestone.{
  Around, MilestoneAgent, MilestoneState, MilestoneResult, LoopState, LoopEvent, AttemptEnd,
  goes_on, returns, raises, run_milestone_loop,
}

-- a milestone that was run, with its state afterwards and its result
pub record MilestoneRun (M : Type 0) : Type 0 where
  pub milestone : M
  pub state : Option MilestoneState
  pub result : MilestoneResult

-- the milestones run and the errors, or an exception
pub data SessionEnd (M : Type 0) : Type 0 where
  completed : List (MilestoneRun M) → List String → SessionEnd M
  broken_off : SessionEnd M

pub record SessionState (W : Type 0) : Type 0 where
  pub around : Around W
  pub sandbox : Option PlanAttemptSandbox
  pub trace : List LoopEvent

-- `result.errors or ["milestone failed"]`
abbrev pub or_default : List String → List String
or_default [] = "milestone failed" ∷ []
or_default (e ∷ es) = e ∷ es

abbrev pub errors_of : MilestoneResult → List String
errors_of r = or_default r.errors

abbrev pub add_run : {M : Type 0} → MilestoneRun M → SessionEnd M → SessionEnd M
add_run run (completed runs errors) = completed (run ∷ runs) errors
add_run run broken_off = broken_off

-- the branches on `result.success`, given what the rest of the milestones comes to
abbrev pub go_on : {S M : Type 0} → Bool → MilestoneRun M → S × SessionEnd M → S → S × SessionEnd M
go_on true run (st', end) st = (st', add_run run end)
go_on false run later st = (st, completed (run ∷ []) (errors_of run.result))

-- a `MilestoneState` as the session makes it
abbrev pub new_milestone_state : MilestoneState
new_milestone_state = record { attempts = 0; reflections = [] }

module _ {W Plan M : Type 0} (agents : M → MilestoneAgent W Plan)
    (interrupted : Around W → Bool) where
  abbrev pub run_one : M → SessionState W → LoopState W × AttemptEnd
  run_one m st = run_milestone_loop (agents m) (record {
    around = st.around;
    sandbox = st.sandbox;
    milestone = some new_milestone_state;
    trace = st.trace;
  })

  abbrev pub session_after : LoopState W → SessionState W
  session_after st = record { around = st.around; sandbox = st.sandbox; trace = st.trace }

  -- the rest of the loop's body, once the milestone loop has ended
  abbrev pub after_run :
      M
      → LoopState W × AttemptEnd
      → (SessionState W → SessionState W × SessionEnd M)
      → SessionState W × SessionEnd M
  after_run m (st, goes_on) later = (session_after st, broken_off)
  after_run m (st, raises) later = (session_after st, broken_off)
  after_run m (st, returns r) later =
      let run : MilestoneRun M = record { milestone = m; state = st.milestone; result = r } in
      go_on r.success run (later (session_after st)) (session_after st)

  -- the loop over the milestones
  unfoldable pub run_milestones : List M → SessionState W → SessionState W × SessionEnd M
  run_milestones [] st = (st, completed [] [])
  run_milestones (m ∷ ms) st =
      elim (is_some (budget_check st.around.context.budget) || interrupted st.around) [
        | true ↦ (st, broken_off)
        | false ↦ after_run m (run_one m st) (run_milestones ms)
      ]

  -- `run_session_loop`: the user's message is remembered first
  unfoldable pub run_session_loop :
      Message → List M → SessionState W → SessionState W × SessionEnd M
  unfolding run_milestones stm_add
  run_session_loop input ms st = run_milestones ms (record st {
    around = record { context = stm_add input st.around.context; world = st.around.world };
  })

-- `success = not errors`
abbrev pub session_success : List String → Bool
session_success [] = true
session_success (_ ∷ _) = false

-- the last output of the last result
abbrev pub last_of {ℓ} : {A : Type ℓ} → List A → Option A
last_of [] = none
last_of (a ∷ []) = some a
last_of (a ∷ b ∷ rest) = last_of (b ∷ rest)

abbrev pub last_output_of : {M : Type 0} → Option (MilestoneRun M) → Option String
last_output_of none = none
last_output_of (some run) = last_of run.result.outputs

unfoldable pub session_output : {M : Type 0} → List (MilestoneRun M) → Option String
session_output runs = last_output_of (last_of runs)
