-- ===== src/Agent/ToolPermits.antt =====
-- That the tool is called only where its hook, the policy and the approvals allow it
-- (dare_framework/agent/_internal/tool_executor.py, `run_tool_loop`).
use deterministic_agent_runt.Base.{
  ℕ, zero, suc, ◌+◌, String, Bool, true, false, ◌&&◌, ◌||◌, not, Option, none, some, List, ◌++◌,
  ◌≡◌, refl, inl, inr, Bool-cases, leb, if◌then◌else◌, All, All-append,
}
use deterministic_agent_runt.Json.{Fields}
use deterministic_agent_runt.Context.Budget.{Resource, budget_check}
use deterministic_agent_runt.Agent.Milestone.{Around}
use deterministic_agent_runt.Agent.ToolLoop.{
  HookDecision, PolicyDecision, Preflight, boundary_error, preflight, ToolResult, Invocation, gave,
  human_approval_required, failed_with, ToolAgent, ToolRequest, ToolState, ToolEvent, policy_denied,
  invoked, tool_result, tool_error, after_tool, RoundEnd, again, answers, over_budget, after_round,
  wants_approval, not_denied, is_true, meets_predicate, settle_result, conclude, after_call,
  fail_call, call_tool, guard, after_preflight, after_hook, in_budget, refuse_by_hook,
  refuse_by_policy, run_round, run_rounds, run_tool_loop, start_loop, charge,
}

-- the decision of a preflight
abbrev pub decision_of : Preflight → Option PolicyDecision
decision_of (boundary_error _ _) = none
decision_of (preflight d _ _) = some d

-- not denied; approval is forced just where the caller or the policy wants it; and a forced approval has
-- someone to give it, unless the tool's descriptor asks for one anyway
abbrev pub Permits : ToolRequest → Bool → PolicyDecision → Bool → Type 0
Permits request has_manager d force =
    (not_denied d ≡ true)
    × (force ≡ is_true request.requires_approval_override || wants_approval d)
    × ((force && (not request.descriptor_requires_approval && not has_manager)) ≡ false)

module _ {W : Type 0} (agent : ToolAgent W) (request : ToolRequest) where
  -- a hook that allows attempt `n` and a preflight with decision `d`
  abbrev pub Decided : ℕ → PolicyDecision → Type 0
  Decided n d =
      (a : Around W) × (requires : Bool) × ((agent.before_tool n requires a).1 ≡ HookDecision.allow)
      × (decision_of (agent.evaluate_tool_security n (agent.before_tool n requires a).0).1 ≡ some d)

  -- a call of the tool in attempt `n` follows such decisions and is permitted by them
  abbrev pub Permitted : ToolEvent → Type 0
  Permitted (invoked n d force) = Decided n d × Permits request agent.has_approval_manager d force
  Permitted (policy_denied _) = Unit {0}
  Permitted (tool_result _ _) = Unit {0}
  Permitted (tool_error _ _) = Unit {0}
  Permitted (after_tool _ _ _) = Unit {0}

  abbrev pub AllPermitted : ToolState W × RoundEnd → Type 0
  AllPermitted (st, _) = All Permitted st.trace

  logged-Permitted :
      (es : List ToolEvent) (trace : List ToolEvent)
      → All Permitted trace
      → All Permitted es
      → All Permitted (trace ++ es)
  logged-Permitted es trace h k = All-append Permitted trace es h k

  conclude-Permitted :
      (max_calls n : ℕ) (r : ToolResult) (st : ToolState W)
      → All Permitted st.trace
      → AllPermitted (conclude request.done_predicate max_calls n r st)
  unfolding conclude
  conclude-Permitted max_calls n r st h =
      elim (Bool-cases (meets_predicate request.done_predicate r)) [
        | inl e ↦ rw e h
        | inr e ↦ elim (Bool-cases (leb max_calls n)) [ inl l ↦ rw (e, l) h | inr l ↦ rw (e, l) h ]
      ]

  settle_result-Permitted :
      (b : Bool) (max_calls n : ℕ) (r : ToolResult) (st : ToolState W)
      → All Permitted st.trace
      → AllPermitted (settle_result b request.done_predicate max_calls n r st)
  settle_result-Permitted true max_calls n r st h = conclude-Permitted max_calls n r _ h
  settle_result-Permitted false max_calls n r st h = h

  after_call-Permitted :
      (max_calls n : ℕ) (d : PolicyDecision) (o : Around W × Invocation) (st : ToolState W)
      → All Permitted st.trace
      → AllPermitted (after_call request.done_predicate max_calls n d o st)
  unfolding fail_call
  after_call-Permitted max_calls n d (a, gave r) st h =
      settle_result-Permitted r.success max_calls n r _
        (logged-Permitted _ st.trace h (tt, (tt, tt)))
  after_call-Permitted max_calls n d (a, human_approval_required _) st h =
      logged-Permitted _ st.trace h (tt, (tt, tt))
  after_call-Permitted max_calls n d (a, failed_with _) st h =
      logged-Permitted _ st.trace h (tt, (tt, tt))

  module _ (max_calls n : ℕ) where
    -- the call, for a decision that is no denial
    guarded-Permitted :
        (b : Bool) (d : PolicyDecision) (reason : Option String) (params : Fields) (force : Bool)
        (st : ToolState W)
        → Decided n d
        → (b ≡ false → Permits request agent.has_approval_manager d force)
        → All Permitted st.trace
        → AllPermitted (
            if b
            then refuse_by_policy n "fail" "SECURITY_APPROVAL_MANAGER_MISSING"
                "tool invocation requires approval but no approval manager is configured" st
            else call_tool agent request max_calls n d reason params force st)
    unfolding refuse_by_policy call_tool
    guarded-Permitted true d reason params force st g p h =
        logged-Permitted _ st.trace h (tt, (tt, tt))
    guarded-Permitted false d reason params force st g p h =
        after_call-Permitted max_calls n d _ _ (logged-Permitted _ st.trace h ((g, p refl), tt))

    guard-Permitted :
        (d : PolicyDecision) (reason : Option String) (params : Fields) (st : ToolState W)
        → Decided n d
        → All Permitted st.trace
        → AllPermitted (
            guard agent request max_calls n d reason params
              (is_true request.requires_approval_override || wants_approval d)
              st)
    unfolding refuse_by_policy
    guard-Permitted PolicyDecision.deny reason params st g h =
        logged-Permitted _ st.trace h (tt, (tt, tt))
    guard-Permitted PolicyDecision.allow reason params st g h =
        guarded-Permitted _ PolicyDecision.allow reason params _ st g (λ e. (refl, refl, e)) h
    guard-Permitted PolicyDecision.approve_required reason params st g h =
        guarded-Permitted _ PolicyDecision.approve_required reason params _ st g
          (λ e. (refl, refl, e)) h

    after_preflight-Permitted :
        (o : Around W × Preflight) (st : ToolState W)
        → ((d : PolicyDecision) → decision_of o.1 ≡ some d → Decided n d)
        → All Permitted st.trace
        → AllPermitted (after_preflight agent request max_calls n o st)
    unfolding refuse_by_policy
    after_preflight-Permitted (a, boundary_error code message) st g h =
        logged-Permitted _ st.trace h (tt, (tt, tt))
    after_preflight-Permitted (a, preflight d reason params) st g h =
        guard-Permitted d reason params _ (g d refl) h

    after_hook-Permitted :
        (o : Around W × HookDecision) (st : ToolState W)
        → ((d : PolicyDecision)
            → o.1 ≡ HookDecision.allow
            → decision_of (agent.evaluate_tool_security n o.0).1 ≡ some d
            → Decided n d)
        → All Permitted st.trace
        → AllPermitted (after_hook agent request max_calls n o st)
    unfolding refuse_by_hook
    after_hook-Permitted (a, HookDecision.block) st g h = logged-Permitted _ st.trace h (tt, tt)
    after_hook-Permitted (a, HookDecision.ask) st g h = logged-Permitted _ st.trace h (tt, tt)
    after_hook-Permitted (a, HookDecision.allow) st g h =
        after_preflight-Permitted _ _ (λ d. g d refl) h

    in_budget-Permitted :
        (o : Option Resource) (st : ToolState W)
        → All Permitted st.trace
        → AllPermitted (in_budget agent request max_calls o n st)
    in_budget-Permitted (some r) st h = h
    in_budget-Permitted none st h =
        after_hook-Permitted _ _ (λ d p q. (charge st.around, st.requires_approval, p, q)) h

    run_round-Permitted :
        (st : ToolState W)
        → All Permitted st.trace
        → AllPermitted (run_round agent request max_calls n st)
    unfolding run_round
    run_round-Permitted st h = in_budget-Permitted _ st h

  module _ (max_calls : ℕ) where
    after_round-Permitted :
        (o : ToolState W × RoundEnd) (later : ToolState W → ToolState W × RoundEnd)
        → AllPermitted o
        → ((st : ToolState W) → All Permitted st.trace → AllPermitted (later st))
        → AllPermitted (after_round o later)
    after_round-Permitted (st, again) later h k = k st h
    after_round-Permitted (st, answers r) later h k = h
    after_round-Permitted (st, over_budget r) later h k = h

    run_rounds-Permitted :
        (fuel n : ℕ) (st : ToolState W)
        → All Permitted st.trace
        → AllPermitted (run_rounds agent request max_calls fuel n st)
    unfolding run_rounds
    run_rounds-Permitted zero n st h = h
    run_rounds-Permitted (suc fuel) n st h =
        after_round-Permitted (run_round agent request max_calls n st)
          (run_rounds agent request max_calls fuel (n + 1)) (run_round-Permitted max_calls n st h)
          (run_rounds-Permitted fuel (n + 1))

  start_loop-Permitted :
      (o : Option Resource) (fuel : ℕ) (a : Around W) (st : ToolState W)
      → All Permitted st.trace
      → AllPermitted (start_loop agent request o fuel a st)
  start_loop-Permitted (some r) fuel a st h = h
  start_loop-Permitted none fuel a st h = run_rounds-Permitted _ fuel 1 st h

  -- Every call that the tool loop makes of its tool, in whatever attempt, follows a hook that allowed that
  -- attempt and a preflight that succeeded with the decision the call is made under, which is no denial;
  -- the call forces an approval just when the caller or the policy asks for one; and where it does, there
  -- is an approval manager or the tool's own descriptor asks for approval.
  pub run_tool_loop-Permitted :
      (fuel : ℕ) (a : Around W) (evidence : Option (List String))
      → All Permitted (run_tool_loop agent request fuel a evidence).0.trace
  unfolding run_tool_loop
  run_tool_loop-Permitted fuel a evidence =
      start_loop-Permitted (budget_check a.context.budget) fuel a _ tt
