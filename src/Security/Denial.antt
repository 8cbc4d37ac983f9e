-- ===== src/Security/Denial.antt =====
-- A capability that the policy lists as denied is not called
-- (dare_framework/security/impl/default_security_boundary.py with
-- dare_framework/agent/_internal/tool_executor.py).
use mathlib.Core.Option.{some-injective}
use deterministic_agent_runt.Base.{
  ℕ, String, true, false, Option, some, List, [], ◌∷◌, any, ◌==◌, ◌≡◌, refl, sym, ap, ◌∙◌, All,
}
use deterministic_agent_runt.Base.Text.{strip, is_empty}
use deterministic_agent_runt.Agent.Milestone.{Around}
use deterministic_agent_runt.Agent.ToolLoop.{
  PolicyDecision, ToolAgent, ToolRequest, ToolEvent, policy_denied, invoked, tool_result,
  tool_error, after_tool, run_tool_loop,
}
use deterministic_agent_runt.Agent.ToolPermits.{decision_of, Permitted, run_tool_loop-Permitted}
use deterministic_agent_runt.Security.{
  PolicySecurityBoundary, TrustedInput, Trust, trusted, untrusted, ToolCall, trust_context,
  policy_context, set_field, derive_capability_id, check_policy, after_trust,
  evaluate_tool_security,
}

-- The policy lists the id of the call, without the white space around it, which is not blank.
abbrev pub IsListed : PolicySecurityBoundary → ToolCall → Type 0
IsListed b c =
    (is_empty (strip c.capability_id) ≡ false)
    × (any (λ id. id == strip c.capability_id) b.deny_capability_ids ≡ true)

check_policy-denies :
    (b : PolicySecurityBoundary) (c : ToolCall) (n : ℕ) (t : TrustedInput)
    → IsListed b c
    → check_policy b c.capability_id (policy_context (trust_context n c) t) c.descriptor t
      ≡ PolicyDecision.deny
unfolding check_policy set_field derive_capability_id
check_policy-denies b c n t (visible, listed) = rw (visible, listed) refl

after_trust-denies :
    (b : PolicySecurityBoundary) (c : ToolCall) (n : ℕ) (o : Trust) (d : PolicyDecision)
    → IsListed b c
    → decision_of (after_trust b (trust_context n c) c o) ≡ some d
    → d ≡ PolicyDecision.deny
after_trust-denies b c n (untrusted code message) d listed h = cc h
after_trust-denies b c n (trusted t) d listed h =
    sym (some-injective _ _ h) ∙ check_policy-denies b c n t listed

evaluate-denies :
    (b : PolicySecurityBoundary) (c : ToolCall) (n : ℕ) (d : PolicyDecision)
    → IsListed b c
    → decision_of (evaluate_tool_security b n c) ≡ some d
    → d ≡ PolicyDecision.deny
unfolding evaluate_tool_security
evaluate-denies b c n d listed h = after_trust-denies b c n _ d listed h

-- An event that is no call of the tool.
abbrev pub IsNoCall : ToolEvent → Type 0
IsNoCall (invoked _ _ _) = ⊥
IsNoCall (policy_denied _) = Unit {0}
IsNoCall (tool_result _ _) = Unit {0}
IsNoCall (tool_error _ _) = Unit {0}
IsNoCall (after_tool _ _ _) = Unit {0}

module _ {W : Type 0} (agent : ToolAgent W) (request : ToolRequest) (b : PolicySecurityBoundary)
    (c : ToolCall) (listed : IsListed b c)
    (asks : (n : ℕ) (a : Around W)
      → (agent.evaluate_tool_security n a).1 ≡ evaluate_tool_security b n c) where
  Permitted-IsNoCall : (e : ToolEvent) → Permitted agent request e → IsNoCall e
  Permitted-IsNoCall (invoked n d force) ((a, requires, allowed, decided), (may, forced, managed)) =
      let denied = evaluate-denies b c n d listed (sym (ap decision_of (asks n _)) ∙ decided) in
      cc (rw denied at may)
  Permitted-IsNoCall (policy_denied _) p = tt
  Permitted-IsNoCall (tool_result _ _) p = tt
  Permitted-IsNoCall (tool_error _ _) p = tt
  Permitted-IsNoCall (after_tool _ _ _) p = tt

  All-IsNoCall : (es : List ToolEvent) → All (Permitted agent request) es → All IsNoCall es
  All-IsNoCall [] h = tt
  All-IsNoCall (e ∷ es) h = (Permitted-IsNoCall e h.0, All-IsNoCall es h.1)

  -- A tool loop whose preflight is the policy boundary's never calls its tool if the policy lists the
  -- capability as denied, whatever the hooks, the approvals, the descriptor and the tool do. The id is
  -- compared without the white space around it, which is supposed not to be all of it.
  pub denied_capability_not_called :
      (fuel : ℕ) (a : Around W) (evidence : Option (List String))
      → All IsNoCall (run_tool_loop agent request fuel a evidence).0.trace
  denied_capability_not_called fuel a evidence =
      All-IsNoCall _ (run_tool_loop-Permitted agent request fuel a evidence)
