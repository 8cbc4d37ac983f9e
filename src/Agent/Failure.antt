-- ===== src/Agent/Failure.antt =====
-- A milestone that fails leaves no trace in short-term memory and no snapshot behind
-- (dare_framework/agent/_internal/milestone_orchestrator.py).
use mathlib.Core.Path.{subst}
use deterministic_agent_runt.Base.{
  ℕ, zero, suc, ◌+◌, String, Bool, true, false, Option, none, some, is_some, List, [], ◌∷◌, ◌≡◌,
  refl, ap, ◌∙◌, inl, inr, Bool-cases,
}
use deterministic_agent_runt.Base.Dict.{lookup}
use deterministic_agent_runt.Context.Budget.{budget_check}
use deterministic_agent_runt.Context.Memory.{Message}
use deterministic_agent_runt.Agent.Sandbox.{PlanAttemptSandbox}
use deterministic_agent_runt.Agent.Restore.{SameSnapshots}
use deterministic_agent_runt.Agent.Milestone.{
  Try, returned, raised, Around, ExecuteResult, VerifyResult, MilestoneAgent, LoopState,
  MilestoneResult, AttemptEnd, goes_on, returns, raises, emit, snapshot, judge, after_verify,
  after_result, after_execute, after_policy, after_plan, try_plan, run_attempt, run_attempts,
  run_milestone_loop, begin_attempt, before_milestone,
}
use deterministic_agent_runt.Agent.Attempts.{
  KeepsSandbox, Restored, Attempted, Guarded, refuse_plan-Attempted, reflect_plan_tool-Attempted,
  succeed-Attempted, LeavesMemory, fail_attempt-Attempted,
}

module _ {W Plan : Type 0} (agent : MilestoneAgent W Plan)
    (leaves : LeavesMemory agent.remediate) where
  module _ (memory : List Message) (s : PlanAttemptSandbox) (n : ℕ)
      (fresh : lookup (agent.snapshot_id n) s.snapshots ≡ none) where
    judge-Attempted :
        (b : Bool) (result : ExecuteResult) (v : VerifyResult) (st : LoopState W)
        → Guarded memory s (agent.snapshot_id n) st
        → Attempted memory s (judge agent b n result v st)
    judge-Attempted true result v st g =
        succeed-Attempted memory s (agent.snapshot_id n) fresh n result v st g
    judge-Attempted false result v st g =
        fail_attempt-Attempted memory s (agent.snapshot_id n) fresh agent.remediate v st leaves g

    after_verify-Attempted :
        (result : ExecuteResult) (o : Around W × Try VerifyResult) (st : LoopState W)
        → Guarded memory s (agent.snapshot_id n) st
        → Attempted memory s (after_verify agent n result o st)
    after_verify-Attempted result (a, raised text) st g = tt
    after_verify-Attempted result (a, returned v) st g =
        judge-Attempted v.success result v (record st { around = a }) g

    after_result-Attempted :
        (plan : Option Plan) (o : Option String) (result : ExecuteResult) (st : LoopState W)
        → Guarded memory s (agent.snapshot_id n) st
        → Attempted memory s (after_result agent n plan o result st)
    after_result-Attempted plan (some name) result st g =
        reflect_plan_tool-Attempted memory s (agent.snapshot_id n) fresh name st g
    after_result-Attempted plan none result st g = after_verify-Attempted result _ st g

    after_execute-Attempted :
        (plan : Option Plan) (o : Around W × Try ExecuteResult) (st : LoopState W)
        → Guarded memory s (agent.snapshot_id n) st
        → Attempted memory s (after_execute agent n plan o st)
    after_execute-Attempted plan (a, raised text) st g = tt
    after_execute-Attempted plan (a, returned result) st g =
        after_result-Attempted plan result.plan_tool result (record st { around = a }) g

    after_policy-Attempted :
        (plan : Plan) (o : Around W × Try (Option String)) (st : LoopState W)
        → Guarded memory s (agent.snapshot_id n) st
        → Attempted memory s (after_policy agent n plan o st)
    after_policy-Attempted plan (a, returned none) st g =
        after_execute-Attempted (some plan) _ (record st { around = a }) g
    after_policy-Attempted plan (a, returned (some error)) st g =
        refuse_plan-Attempted memory s (agent.snapshot_id n) fresh n error
          (record st { around = a }) g
    after_policy-Attempted plan (a, raised text) st g =
        refuse_plan-Attempted memory s (agent.snapshot_id n) fresh n _ (record st { around = a }) g

    after_plan-Attempted :
        (o : Around W × Try (Option Plan)) (st : LoopState W)
        → Guarded memory s (agent.snapshot_id n) st
        → Attempted memory s (after_plan agent n o st)
    after_plan-Attempted (a, raised text) st g = tt
    after_plan-Attempted (a, returned none) st g =
        after_execute-Attempted none _ (record st { around = a }) g
    after_plan-Attempted (a, returned (some plan)) st g =
        after_policy-Attempted plan _ (record st { around = a }) g

  -- a promise about the sandbox of an attempt is one about an older sandbox with the same snapshots
  Attempted-older :
      (memory : List Message) (s s' : PlanAttemptSandbox) (o : LoopState W × AttemptEnd)
      → SameSnapshots s s'
      → Attempted memory s' o
      → Attempted memory s o
  Attempted-older memory s s' (st, goes_on) same (kept, (s'', at, more)) =
      (kept, (s'', at, λ k. more k ∙ same k))
  Attempted-older memory s s' (st, returns r) same ((s'', at, more), failed) =
      ((s'', at, λ k. more k ∙ same k), failed)
  Attempted-older memory s s' (st, raises) same h = tt

  module _ (memory : List Message) (s : PlanAttemptSandbox)
      (fresh : (n : ℕ) → lookup (agent.snapshot_id n) s.snapshots ≡ none) where
    run_attempt-Attempted :
        (n : ℕ) (st : LoopState W)
        → Restored memory s st
        → Attempted memory s (run_attempt agent n st)
    unfolding run_attempt
    run_attempt-Attempted n st (kept, (s', present, same)) =
        let begun : LoopState W = record st { milestone = begin_attempt n st.milestone } in
        elim (Bool-cases (is_some (budget_check st.around.context.budget))) [
          | inl e ↦ rw e tt
          | inr e ↦ rw e (
              Attempted-older memory s s' (try_plan agent n begun) same (
                after_plan-Attempted memory s' n (same (agent.snapshot_id n) ∙ fresh n) _ _ (
                  st.around.context,
                  kept,
                  ap (snapshot (agent.snapshot_id n) st.around.context) present,
                )))
        ]

    run_attempts-Attempted :
        (rounds n : ℕ) (st : LoopState W)
        → Restored memory s st
        → Attempted memory s (run_attempts agent rounds n st)
    unfolding run_attempts
    run_attempts-Attempted zero n st (kept, sandbox) = (sandbox, λ _. kept)
    run_attempts-Attempted (suc rounds) n st restored =
        continues (run_attempt agent n st) (run_attempt-Attempted n st restored)
          (run_attempts-Attempted rounds (n + 1))
      where
        continues :
            (o : LoopState W × AttemptEnd)
            → Attempted {W = W} memory s o
            → ((st' : LoopState W)
                → Restored memory s st'
                → Attempted memory s (run_attempts agent rounds (n + 1) st'))
            → Attempted {W = W} memory s (elim o.1 [
              | goes_on ↦ run_attempts agent rounds (n + 1) o.0
              | returns r ↦ (o.0, returns r)
              | raises ↦ (o.0, raises)
            ])
        continues (st', goes_on) h later = later st' h
        continues (st', returns r) h later = h
        continues (st', raises) h later = tt

  -- If the milestone loop returns a failure, then short-term memory is what it was before the loop, and
  -- the sandbox holds the snapshots that it held before and no other. This supposes a sandbox, snapshot
  -- ids that are not in use, and a remediator that leaves short-term memory as it is.
  pub failed_milestone_restores_memory :
      (st st' : LoopState W) (s : PlanAttemptSandbox) (r : MilestoneResult)
      → st.sandbox ≡ some s
      → ((n : ℕ) → lookup (agent.snapshot_id n) s.snapshots ≡ none)
      → run_milestone_loop agent st ≡ (st', returns r)
      → r.success ≡ false
      → (st'.around.context.short_term_memory ≡ st.around.context.short_term_memory)
        × KeepsSandbox st.around.context.short_term_memory s st'
  unfolding run_milestone_loop
  failed_milestone_restores_memory st st' s r present fresh h failed =
      let memory : List Message = st.around.context.short_term_memory in
      let k = subst (Attempted memory s) h (
        run_attempts-Attempted memory s fresh agent.max_milestone_attempts 1
          (emit (before_milestone ∷ []) st) (refl, (s, present, λ i. refl))) in
      (k.1 failed, k.0)
