-- ===== src/Agent/ToolEnds.antt =====
-- That the tool loop ends and what its answer reports
-- (dare_framework/agent/_internal/tool_executor.py, `run_tool_loop`).
use mathlib.Core.Path.{subst}
use deterministic_agent_runt.Base.{
  ℕ, zero, suc, ◌+◌, ◌≤◌, ◌<◌, String, Bool, true, false, ◌&&◌, Option, none, some, List, ◌≡◌, ◌≢◌,
  refl, sym, arith, inl, inr, Bool-cases, leb, if◌then◌else◌,
}
use deterministic_agent_runt.Json.{Fields}
use deterministic_agent_runt.Context.Budget.{Resource, budget_check}
use deterministic_agent_runt.Agent.Milestone.{Around}
use deterministic_agent_runt.Agent.ToolLoop.{
  HookDecision, PolicyDecision, Preflight, boundary_error, preflight, ToolResult, Invocation, gave,
  human_approval_required, failed_with, ToolAgent, ToolRequest, ToolState, ToolAnswer, RoundEnd,
  after_round, again, answers, over_budget, meets_predicate, settle_result, conclude, after_call,
  fail_call, call_tool, guard, after_preflight, after_hook, in_budget, refuse_by_hook,
  refuse_by_policy, run_round, run_rounds, run_tool_loop, start_state, start_loop, max_calls_at,
}

-- the tool succeeded and its result meets the done predicate
abbrev pub succeeded_by : Option (List String) → Option ToolResult → Bool
succeeded_by predicate none = false
succeeded_by predicate (some r) = r.success && meets_predicate predicate r

and-true : (a b : Bool) → a ≡ true → b ≡ true → true ≡ (a && b)
and-true a b p q = rw (p, q) refl

and-false : (a b : Bool) → b ≡ false → false ≡ (a && b)
and-false true b q = sym q
and-false false b q = refl

module _ {W : Type 0} (predicate : Option (List String)) (max_calls n : ℕ) where
  -- another round only below the limit, and an answer that says what its result says
  abbrev pub Ended : ToolState W × RoundEnd → Type 0
  Ended (st, again) = n < max_calls
  Ended (st, answers r) = r.success ≡ succeeded_by predicate r.result
  Ended (st, over_budget _) = Unit {0}

  conclude-Ended :
      (r : ToolResult) (st : ToolState W)
      → r.success ≡ true
      → Ended (conclude predicate max_calls n r st)
  unfolding conclude
  conclude-Ended r st ok = elim (Bool-cases (meets_predicate predicate r)) [
    | inl e ↦ rw e (and-true _ _ ok e)
    | inr e ↦ elim (Bool-cases (leb max_calls n)) [
      | inl l ↦ rw (e, l) (and-false _ _ e)
      | inr l ↦ rw (e, l) (ground (arith, l))
    ]
  ]

  settle_result-Ended :
      (b : Bool) (r : ToolResult) (st : ToolState W)
      → r.success ≡ b
      → Ended (settle_result b predicate max_calls n r st)
  settle_result-Ended true r st e = conclude-Ended r _ e
  settle_result-Ended false r st e = rw e refl

  after_call-Ended :
      (d : PolicyDecision) (o : Around W × Invocation) (st : ToolState W)
      → Ended (after_call predicate max_calls n d o st)
  unfolding fail_call
  after_call-Ended d (a, gave r) st = settle_result-Ended r.success r _ refl
  after_call-Ended d (a, human_approval_required _) st = refl
  after_call-Ended d (a, failed_with _) st = refl

module _ {W : Type 0} (agent : ToolAgent W) (request : ToolRequest) (max_calls n : ℕ) where
  abbrev RoundEnded : ToolState W × RoundEnd → Type 0
  RoundEnded o = Ended request.done_predicate max_calls n o

  guarded-Ended :
      (b : Bool) (d : PolicyDecision) (reason : Option String) (params : Fields) (force : Bool)
      (st : ToolState W)
      → RoundEnded (
          if b
          then refuse_by_policy n "fail" "SECURITY_APPROVAL_MANAGER_MISSING"
              "tool invocation requires approval but no approval manager is configured" st
          else call_tool agent request max_calls n d reason params force st)
  unfolding refuse_by_policy call_tool
  guarded-Ended true d reason params force st = refl
  guarded-Ended false d reason params force st =
      after_call-Ended request.done_predicate max_calls n d _ _

  guard-Ended :
      (d : PolicyDecision) (reason : Option String) (params : Fields) (force : Bool)
      (st : ToolState W)
      → RoundEnded (guard agent request max_calls n d reason params force st)
  unfolding refuse_by_policy
  guard-Ended PolicyDecision.deny reason params force st = refl
  guard-Ended PolicyDecision.allow reason params force st = guarded-Ended _ _ reason params force st
  guard-Ended PolicyDecision.approve_required reason params force st =
      guarded-Ended _ _ reason params force st

  after_preflight-Ended :
      (o : Around W × Preflight) (st : ToolState W)
      → RoundEnded (after_preflight agent request max_calls n o st)
  unfolding refuse_by_policy
  after_preflight-Ended (a, boundary_error code message) st = refl
  after_preflight-Ended (a, preflight d reason params) st = guard-Ended d reason params _ _

  after_hook-Ended :
      (o : Around W × HookDecision) (st : ToolState W)
      → RoundEnded (after_hook agent request max_calls n o st)
  unfolding refuse_by_hook
  after_hook-Ended (a, HookDecision.block) st = refl
  after_hook-Ended (a, HookDecision.ask) st = refl
  after_hook-Ended (a, HookDecision.allow) st = after_preflight-Ended _ _

  in_budget-Ended :
      (o : Option Resource) (st : ToolState W)
      → RoundEnded (in_budget agent request max_calls o n st)
  in_budget-Ended (some r) st = tt
  in_budget-Ended none st = after_hook-Ended _ _

  run_round-Ended : (st : ToolState W) → RoundEnded (run_round agent request max_calls n st)
  unfolding run_round
  run_round-Ended st = in_budget-Ended _ st

-- what holds of a run with fuel to spare: it ends, and more fuel gives the same
abbrev Finished : {W : Type 0} → ToolState W × RoundEnd → ToolState W × RoundEnd → Type 0
Finished more o = (o.1 ≢ again) × (more ≡ o)

module _ {W : Type 0} (agent : ToolAgent W) (request : ToolRequest) (max_calls : ℕ) where
  after_round-Finished :
      (n : ℕ) (o : ToolState W × RoundEnd) (f g : ToolState W → ToolState W × RoundEnd)
      → RoundEnded agent request max_calls n o
      → ((st : ToolState W) → n < max_calls → Finished (g st) (f st))
      → Finished (after_round o g) (after_round o f)
  after_round-Finished n (st, again) f g e later = later st e
  after_round-Finished n (st, answers r) f g e later = (λ p. cc p, refl)
  after_round-Finished n (st, over_budget r) f g e later = (λ p. cc p, refl)

  run_rounds-Finished :
      (more fuel n : ℕ) (st : ToolState W)
      → 1 ≤ fuel
      → max_calls < n + fuel
      → fuel ≤ more
      → Finished
          (run_rounds agent request max_calls more n st)
          (run_rounds agent request max_calls fuel n st)
  unfolding run_rounds
  run_rounds-Finished more zero n st pos enough le = absurd (omega (arith, pos))
  run_rounds-Finished zero (suc fuel) n st pos enough le = absurd (omega (arith, le))
  run_rounds-Finished (suc more) (suc fuel) n st pos enough le =
      after_round-Finished n (run_round agent request max_calls n st)
        (run_rounds agent request max_calls fuel (n + 1))
        (run_rounds agent request max_calls more (n + 1))
        (run_round-Ended agent request max_calls n st)
        (λ st' below.
          run_rounds-Finished more fuel (n + 1) st' (omega (arith, enough, below))
            (omega (arith, enough)) (omega (arith, le)))

  -- what an answer says
  abbrev Reported : ToolState W × RoundEnd → Type 0
  Reported (st, again) = Unit {0}
  Reported (st, answers r) = r.success ≡ succeeded_by request.done_predicate r.result
  Reported (st, over_budget _) = Unit {0}

  after_round-Reported :
      (n : ℕ) (o : ToolState W × RoundEnd) (f : ToolState W → ToolState W × RoundEnd)
      → RoundEnded agent request max_calls n o
      → ((st : ToolState W) → Reported (f st))
      → Reported (after_round o f)
  after_round-Reported n (st, again) f e later = later st
  after_round-Reported n (st, answers r) f e later = e
  after_round-Reported n (st, over_budget r) f e later = tt

  run_rounds-Reported :
      (fuel n : ℕ) (st : ToolState W) → Reported (run_rounds agent request max_calls fuel n st)
  unfolding run_rounds
  run_rounds-Reported zero n st = tt
  run_rounds-Reported (suc fuel) n st =
      after_round-Reported n _ _ (run_round-Ended agent request max_calls n st)
        (run_rounds-Reported fuel (n + 1))

module _ {W : Type 0} (agent : ToolAgent W) (request : ToolRequest) where
  start_loop-Finished :
      (o : Option Resource) (more fuel : ℕ) (a : Around W) (st : ToolState W)
      → 1 ≤ fuel
      → max_calls_at agent request a ≤ fuel
      → fuel ≤ more
      → Finished (start_loop agent request o more a st) (start_loop agent request o fuel a st)
  start_loop-Finished (some r) more fuel a st pos enough le = (λ p. cc p, refl)
  start_loop-Finished none more fuel a st pos enough le =
      run_rounds-Finished agent request _ more fuel 1 st pos (omega (arith, enough)) le

  start_loop-Reported :
      (o : Option Resource) (fuel : ℕ) (a : Around W) (st : ToolState W)
      → Reported agent request (max_calls_at agent request a) (start_loop agent request o fuel a st)
  start_loop-Reported (some r) fuel a st = tt
  start_loop-Reported none fuel a st = run_rounds-Reported agent request _ fuel 1 st

  -- With fuel for one round and for as many as the limit on calls allows, the tool loop ends, with an
  -- answer or an exceeded budget, and more fuel changes nothing, whatever the hooks, the policy and the
  -- tool do.
  pub tool_loop_ends :
      (more fuel : ℕ) (a : Around W) (evidence : Option (List String))
      → 1 ≤ fuel
      → max_calls_at agent request a ≤ fuel
      → fuel ≤ more
      → ((run_tool_loop agent request fuel a evidence).1 ≢ again)
        × (run_tool_loop agent request more a evidence
            ≡ run_tool_loop agent request fuel a evidence)
  unfolding run_tool_loop
  tool_loop_ends more fuel a evidence pos enough le =
      start_loop-Finished (budget_check a.context.budget) more fuel a
        (start_state agent request a evidence) pos enough le

  -- An answer of the tool loop reports success just when it carries a tool's result that is a success and
  -- meets the done predicate.
  tool_answer_success :
      (fuel : ℕ) (a : Around W) (evidence : Option (List String)) (st : ToolState W)
      (r : ToolAnswer)
      → run_tool_loop agent request fuel a evidence ≡ (st, answers r)
      → r.success ≡ succeeded_by request.done_predicate r.result
  unfolding run_tool_loop
  tool_answer_success fuel a evidence st r e =
      subst (Reported agent request (max_calls_at agent request a)) e
        (start_loop-Reported (budget_check a.context.budget) fuel a _)
