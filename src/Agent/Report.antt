-- ===== src/Agent/Report.antt =====
-- What the milestone loop reports (dare_framework/agent/_internal/milestone_orchestrator.py): success stands
-- on a verification, and the hook at the end hears of it.
use mathlib.Core.List.{append_assoc}
use mathlib.Core.Path.{subst}
use deterministic_agent_runt.Base.{
  ℕ, zero, suc, ◌+◌, ◌≤◌, String, Bool, true, false, Option, none, some, is_some, List, [], ◌∷◌,
  ◌++◌, ◌≡◌, refl, sym, arith, inl, inr, Bool-cases,
}
use deterministic_agent_runt.Context.Budget.{budget_check}
use deterministic_agent_runt.Agent.Milestone.{
  Try, returned, raised, Around, ExecuteResult, VerifyResult, MilestoneAgent, LoopState, LoopEvent,
  before_milestone, policy_refused, milestone_failed, milestone_success, after_milestone,
  MilestoneResult, MilestoneState, AttemptEnd, goes_on, returns, raises, emit, refuse_with,
  refuse_plan, continued, reflect_plan_tool, succeed, reflect_on, remediate_with, failed_attempt,
  fail_attempt, judge, after_verify, after_result, after_execute, after_policy, after_plan,
  run_attempt, run_attempts, run_milestone_loop, Action,
}

abbrev pub verified : Option VerifyResult → Bool
verified none = false
verified (some v) = v.success

-- the last event is the closing hook, with the result's success and an attempt of at most `max`
abbrev pub ClosesWith : ℕ → MilestoneResult → List LoopEvent → Type 0
ClosesWith max r trace =
    (earlier : List LoopEvent) × (n : ℕ) × (trace ≡ earlier ++ (after_milestone r.success n ∷ []))
    × (n ≤ max)

module _ {W : Type 0} (max : ℕ) where
  -- what a returned attempt reports
  abbrev pub Reported : LoopState W × AttemptEnd → Type 0
  Reported (st, goes_on) = Unit {0}
  Reported (st, returns r) = ClosesWith max r st.trace × (verified r.verify_result ≡ r.success)
  Reported (st, raises) = Unit {0}

  refuse_with-Reported :
      (error : String) (n : ℕ) (o : Option (LoopState W)) (st : LoopState W)
      → n ≤ max
      → Reported (refuse_with error n o st)
  refuse_with-Reported error n none st le = tt
  refuse_with-Reported error n (some st') st le = (
    (
      st'.trace ++ (policy_refused error ∷ milestone_failed (some n) ∷ []),
      n,
      sym (append_assoc st'.trace _ _),
      le,
    ),
    refl,
  )

  continued-Reported : (o : Option (LoopState W)) (st : LoopState W) → Reported (continued o st)
  continued-Reported none st = tt
  continued-Reported (some st') st = tt

  reflect_on-Reported : (o : Around W × Try String) (st : LoopState W) → Reported (reflect_on o st)
  reflect_on-Reported (a, raised text) st = tt
  reflect_on-Reported (a, returned r) st = tt

  remediate_with-Reported :
      (o : Option (VerifyResult → Action W String)) (v : VerifyResult) (m : Option MilestoneState)
      (st : LoopState W)
      → Reported (remediate_with o v m st)
  remediate_with-Reported none v m st = tt
  remediate_with-Reported (some r) v none st = tt
  remediate_with-Reported (some r) v (some m) st = reflect_on-Reported _ st

  failed_attempt-Reported :
      (r : Option (VerifyResult → Action W String)) (v : VerifyResult) (o : Option (LoopState W))
      (st : LoopState W)
      → Reported (failed_attempt r v o st)
  failed_attempt-Reported r v none st = tt
  failed_attempt-Reported r v (some st') st = remediate_with-Reported r v st'.milestone st'

module _ {W Plan : Type 0} (agent : MilestoneAgent W Plan) where
  module _ (n : ℕ) (le : n ≤ agent.max_milestone_attempts) where
    judge-Reported :
        (b : Bool) (result : ExecuteResult) (v : VerifyResult) (st : LoopState W)
        → v.success ≡ b
        → Reported agent.max_milestone_attempts (judge agent b n result v st)
    unfolding succeed fail_attempt
    judge-Reported true result v st e =
        ((st.trace ++ (milestone_success n ∷ []), n, sym (append_assoc st.trace _ _), le), e)
    judge-Reported false result v st e = failed_attempt-Reported _ agent.remediate v _ st

    after_verify-Reported :
        (result : ExecuteResult) (o : Around W × Try VerifyResult) (st : LoopState W)
        → Reported agent.max_milestone_attempts (after_verify agent n result o st)
    after_verify-Reported result (a, raised text) st = tt
    after_verify-Reported result (a, returned v) st =
        judge-Reported v.success result v (record st { around = a }) refl

    after_result-Reported :
        (plan : Option Plan) (o : Option String) (result : ExecuteResult) (st : LoopState W)
        → Reported agent.max_milestone_attempts (after_result agent n plan o result st)
    unfolding reflect_plan_tool
    after_result-Reported plan (some name) result st =
        continued-Reported agent.max_milestone_attempts _ _
    after_result-Reported plan none result st = after_verify-Reported result _ st

    after_execute-Reported :
        (plan : Option Plan) (o : Around W × Try ExecuteResult) (st : LoopState W)
        → Reported agent.max_milestone_attempts (after_execute agent n plan o st)
    after_execute-Reported plan (a, raised text) st = tt
    after_execute-Reported plan (a, returned result) st =
        after_result-Reported plan result.plan_tool result (record st { around = a })

    after_policy-Reported :
        (plan : Plan) (o : Around W × Try (Option String)) (st : LoopState W)
        → Reported agent.max_milestone_attempts (after_policy agent n plan o st)
    unfolding refuse_plan
    after_policy-Reported plan (a, returned none) st = after_execute-Reported (some plan) _ _
    after_policy-Reported plan (a, returned (some error)) st =
        refuse_with-Reported agent.max_milestone_attempts error n _ _ le
    after_policy-Reported plan (a, raised text) st =
        refuse_with-Reported agent.max_milestone_attempts _ n _ _ le

    after_plan-Reported :
        (o : Around W × Try (Option Plan)) (st : LoopState W)
        → Reported agent.max_milestone_attempts (after_plan agent n o st)
    after_plan-Reported (a, raised text) st = tt
    after_plan-Reported (a, returned none) st = after_execute-Reported none _ _
    after_plan-Reported (a, returned (some plan)) st = after_policy-Reported plan _ _

    run_attempt-Reported :
        (st : LoopState W) → Reported agent.max_milestone_attempts (run_attempt agent n st)
    unfolding run_attempt
    run_attempt-Reported st = elim (Bool-cases (is_some (budget_check st.around.context.budget))) [
      | inl e ↦ rw e tt
      | inr e ↦ rw e (after_plan-Reported _ _)
    ]

  run_attempts-Reported :
      (rounds n : ℕ) (st : LoopState W)
      → n + rounds ≤ agent.max_milestone_attempts + 1
      → Reported agent.max_milestone_attempts (run_attempts agent rounds n st)
  unfolding run_attempts
  run_attempts-Reported zero n st le = (
    (
      st.trace ++ (milestone_failed none ∷ []),
      agent.max_milestone_attempts,
      sym (append_assoc st.trace _ _),
      omega arith,
    ),
    refl,
  )
  run_attempts-Reported (suc rounds) n st le =
      continues (run_attempt agent n st) (run_attempt-Reported n (omega arith) st)
        (λ st'. run_attempts-Reported rounds (n + 1) st' (omega arith))
    where
      continues :
          (o : LoopState W × AttemptEnd)
          → Reported {W = W} agent.max_milestone_attempts o
          → ((st' : LoopState W)
              → Reported {W = W} agent.max_milestone_attempts
                  (run_attempts agent rounds (n + 1) st'))
          → Reported {W = W} agent.max_milestone_attempts (elim o.1 [
            | goes_on ↦ run_attempts agent rounds (n + 1) o.0
            | returns r ↦ (o.0, returns r)
            | raises ↦ (o.0, raises)
          ])
      continues (st', goes_on) h later = later st'
      continues (st', returns r) h later = h
      continues (st', raises) h later = tt

  -- Whenever the milestone loop returns, the result is a success exactly as its verification says, a
  -- missing verification being none, and the last thing the loop emits is the closing hook, with that
  -- same success and a number of attempts of at most the maximum.
  pub milestone_reports_verification :
      (st st' : LoopState W) (r : MilestoneResult)
      → run_milestone_loop agent st ≡ (st', returns r)
      → ClosesWith agent.max_milestone_attempts r st'.trace × (verified r.verify_result ≡ r.success)
  unfolding run_milestone_loop
  milestone_reports_verification st st' r h = subst (Reported agent.max_milestone_attempts) h (
      run_attempts-Reported agent.max_milestone_attempts 1 (emit (before_milestone ∷ []) st)
        (omega arith))
