-- ===== src/Agent/Milestone.antt =====
-- `run_milestone_loop` of dare_framework/agent/_internal/milestone_orchestrator.py. The loops below it and
-- the collaborators (`_run_plan_loop`, `_check_plan_policy`, `_run_execute_loop`, `_verify_milestone`, the
-- remediator) are the interface `MilestoneAgent`, which the source states as a Protocol: each acts on
-- the context and on the rest of the world, is given the reflections so far, and returns or raises. The
-- snapshot ids of the attempts are a function of the attempt.
mod Types
pub use Types.*
use deterministic_agent_runt.Base.{
  ℕ, zero, suc, ◌+◌, String, Bool, true, false, Option, none, some, List, [], ◌∷◌, ◌++◌, is_some,
  if◌then◌else◌,
}
use Prim.Native.String.{◌++◌ as append}
use deterministic_agent_runt.Context.Budget.{budget_check}
use deterministic_agent_runt.Context.Memory.{Context}
use deterministic_agent_runt.Agent.Sandbox.{PlanAttemptSandbox, create_snapshot, rollback, commit}

module _ {W : Type 0} where
  abbrev pub emit : List LoopEvent → LoopState W → LoopState W
  emit es st = record st { trace = st.trace ++ es }

  -- `agent._sandbox.rollback(...)` if there is a sandbox; `none` is its `KeyError`
  abbrev pub undone_in : String → Option PlanAttemptSandbox → LoopState W → Option (LoopState W)
  undone_in id none st = some st
  undone_in id (some s) st = elim (rollback st.around.context id s) [
    | none ↦ none
    | some (c, s') ↦
        some (record st {
          around = record { context = c; world = st.around.world };
          sandbox = some s';
        })
  ]

  abbrev pub undone : String → LoopState W → Option (LoopState W)
  undone id st = undone_in id st.sandbox st

  -- the branch of a plan that policy refuses
  abbrev pub refuse_with :
      String → ℕ → Option (LoopState W) → LoopState W → LoopState W × AttemptEnd
  refuse_with error n none st = (st, raises)
  refuse_with error n (some st') st = (
    emit (policy_refused error ∷ milestone_failed (some n) ∷ after_milestone false n ∷ []) st',
    returns (failure error (some (record { success = false; errors = error ∷ [] }))),
  )

  unfoldable pub refuse_plan : String → ℕ → String → LoopState W → LoopState W × AttemptEnd
  refuse_plan id n error st = refuse_with error n (undone id st) st

  -- the branch of a plan tool
  abbrev pub continued : Option (LoopState W) → LoopState W → LoopState W × AttemptEnd
  continued none st = (st, raises)
  continued (some st') st = (st', goes_on)

  unfoldable pub reflect_plan_tool : String → String → LoopState W → LoopState W × AttemptEnd
  reflect_plan_tool id name st =
      let noted : LoopState W = record st {
        milestone = add_reflection (append "plan tool encountered: " name) st.milestone;
      } in
      continued (undone id noted) noted

  -- the branch of a verified milestone
  unfoldable pub succeed :
      String → ℕ → ExecuteResult → VerifyResult → LoopState W → LoopState W × AttemptEnd
  succeed id n result v st = (
    emit (milestone_success n ∷ after_milestone true n ∷ [])
        (record st { sandbox = confirm id st.sandbox }),
    returns
        (record { success = true; outputs = result.outputs; errors = []; verify_result = some v }),
  )

  -- after the rollback of a failed attempt: the remediator's reflection
  abbrev pub reflect_on : Around W × Try String → LoopState W → LoopState W × AttemptEnd
  reflect_on (a, raised _) st = (record st { around = a }, raises)
  reflect_on (a, returned r) st =
      (record st { around = a; milestone = add_reflection r st.milestone }, goes_on)

  abbrev pub remediate_with :
      Option (VerifyResult → Action W String)
      → VerifyResult
      → Option MilestoneState
      → LoopState W
      → LoopState W × AttemptEnd
  remediate_with none v m st = (st, goes_on)
  remediate_with (some r) v none st = (st, goes_on)
  remediate_with (some r) v (some m) st = reflect_on (r v m.reflections st.around) st

  abbrev pub failed_attempt :
      Option (VerifyResult → Action W String)
      → VerifyResult
      → Option (LoopState W)
      → LoopState W
      → LoopState W × AttemptEnd
  failed_attempt r v none st = (st, raises)
  failed_attempt r v (some st') st = remediate_with r v st'.milestone st'

  unfoldable pub fail_attempt :
      Option (VerifyResult → Action W String)
      → String
      → VerifyResult
      → LoopState W
      → LoopState W × AttemptEnd
  fail_attempt r id v st = failed_attempt r v (undone id st) st

module _ {W Plan : Type 0} (agent : MilestoneAgent W Plan) where
  -- the branches on `verify_result.success`
  abbrev pub judge :
      Bool → ℕ → ExecuteResult → VerifyResult → LoopState W → LoopState W × AttemptEnd
  judge true n result v st = succeed (agent.snapshot_id n) n result v st
  judge false n result v st = fail_attempt agent.remediate (agent.snapshot_id n) v st

  abbrev pub after_verify :
      ℕ → ExecuteResult → Around W × Try VerifyResult → LoopState W → LoopState W × AttemptEnd
  after_verify n result (a, raised _) st = (record st { around = a }, raises)
  after_verify n result (a, returned v) st = judge v.success n result v (record st { around = a })

  abbrev pub after_result :
      ℕ → Option Plan → Option String → ExecuteResult → LoopState W → LoopState W × AttemptEnd
  after_result n plan (some name) result st = reflect_plan_tool (agent.snapshot_id n) name st
  after_result n plan none result st =
      after_verify n result
        (agent.verify_milestone result plan (reflections_of st.milestone) st.around) st

  abbrev pub after_execute :
      ℕ → Option Plan → Around W × Try ExecuteResult → LoopState W → LoopState W × AttemptEnd
  after_execute n plan (a, raised _) st = (record st { around = a }, raises)
  after_execute n plan (a, returned result) st =
      after_result n plan result.plan_tool result (record st { around = a })

  abbrev pub execute_plan : ℕ → Option Plan → LoopState W → LoopState W × AttemptEnd
  execute_plan n plan st =
      after_execute n plan (agent.run_execute_loop plan (reflections_of st.milestone) st.around) st

  -- an exception of the policy counts as a refusal
  abbrev pub after_policy :
      ℕ → Plan → Around W × Try (Option String) → LoopState W → LoopState W × AttemptEnd
  after_policy n plan (a, returned none) st = execute_plan n (some plan) (record st { around = a })
  after_policy n plan (a, returned (some error)) st =
      refuse_plan (agent.snapshot_id n) n error (record st { around = a })
  after_policy n plan (a, raised text) st =
      refuse_plan (agent.snapshot_id n) n (append "plan policy evaluation failed: " text)
        (record st { around = a })

  abbrev pub after_plan : ℕ → Around W × Try (Option Plan) → LoopState W → LoopState W × AttemptEnd
  after_plan n (a, raised _) st = (record st { around = a }, raises)
  after_plan n (a, returned none) st = execute_plan n none (record st { around = a })
  after_plan n (a, returned (some plan)) st =
      after_policy n plan (agent.check_plan_policy plan (reflections_of st.milestone) a)
        (record st { around = a })

  -- an attempt from the snapshot on
  abbrev pub try_plan : ℕ → LoopState W → LoopState W × AttemptEnd
  try_plan n st =
      after_plan n (agent.run_plan_loop (reflections_of st.milestone) st.around)
        (record st { sandbox = snapshot (agent.snapshot_id n) st.around.context st.sandbox })

  -- the body of the loop, attempt `n`
  unfoldable pub run_attempt : ℕ → LoopState W → LoopState W × AttemptEnd
  unfolding refuse_plan reflect_plan_tool succeed fail_attempt
  run_attempt n st =
      let begun : LoopState W = record st { milestone = begin_attempt n st.milestone } in
      if is_some (budget_check st.around.context.budget) then (begun, raises) else try_plan n begun

  -- the loop with the rounds that are left and the next attempt
  unfoldable pub run_attempts : ℕ → ℕ → LoopState W → LoopState W × AttemptEnd
  unfolding run_attempt
  run_attempts zero n st = (
    emit (milestone_failed none ∷ after_milestone false agent.max_milestone_attempts ∷ []) st,
    returns (failure "milestone failed after max attempts" none),
  )
  run_attempts (suc rounds) n st =
      let (st', end) = run_attempt n st in
      elim end [
        | goes_on ↦ run_attempts rounds (n + 1) st'
        | returns r ↦ (st', returns r)
        | raises ↦ (st', raises)
      ]

  unfoldable pub run_milestone_loop : LoopState W → LoopState W × AttemptEnd
  unfolding run_attempts
  run_milestone_loop st =
      run_attempts agent.max_milestone_attempts 1 (emit (before_milestone ∷ []) st)
