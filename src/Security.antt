-- ===== src/Security.antt =====
-- `PolicySecurityBoundary` of dare_framework/security/impl/default_security_boundary.py, and
-- `_evaluate_tool_security` of dare_framework/agent/dare_agent.py over it. A context is the dict of its
-- plain entries, with the descriptor and the trusted input beside it; a member of an enum in a dict
-- stands as the text of its value, as the code reads both alike.
pub mod Denial
mod Tests
mod Metadata
unfoldable pub use Metadata.*
use Prim.Native.String.{◌++◌ as append}
use deterministic_agent_runt.Base.{
  ℕ, String, Bool, true, false, not, ◌||◌, Option, none, some, List, any, eqb, ◌==◌, if◌then◌else◌,
}
use deterministic_agent_runt.Base.Text.{strip, is_empty}
use deterministic_agent_runt.Json.{
  Value, Fields, Items, null, bool, num, text, arr, tuple, obj, no_items, end, field,
}
use deterministic_agent_runt.Agent.ToolLoop.{
  PolicyDecision, Preflight, boundary_error, preflight, get,
}

-- the end of `verify_trust`, once the risk level is known
abbrev pub trust_with : Fields → Fields → RiskLevel → Fields → Trust
trust_with input context r metadata = trusted (record {
  params = input;
  risk_level = r;
  metadata =
      set_field "requires_approval" (bool (derive_requires_approval context metadata)) metadata;
})

abbrev pub trust_risk :
    PolicySecurityBoundary → Fields → Fields → String → Option RiskLevel → Fields → Trust
trust_risk b input context id (some r) metadata =
    trust_with input context r (set_field "risk_level" (text (risk_value r)) metadata)
trust_risk b input context id none metadata =
    if b.require_trusted_metadata
    then untrusted "SECURITY_TRUST_DERIVATION_FAILED"
        (append "missing trusted risk metadata for capability '" (append id "'"))
    else trust_with input context read_only
        (set_default "risk_level" (text (risk_value read_only)) metadata)

abbrev pub trust_id : PolicySecurityBoundary → Fields → Fields → Option String → Fields → Trust
trust_id b input context none metadata =
    untrusted "SECURITY_TRUST_DERIVATION_FAILED" "missing trusted capability identifier"
trust_id b input context (some id) metadata =
    let metadata' : Fields = set_field "capability_id" (text id) metadata in
    trust_risk b input context id (derive_risk_level context metadata') metadata'

-- `verify_trust`
unfoldable pub verify_trust : PolicySecurityBoundary → Fields → Fields → Option Descriptor → Trust
unfolding set_field derive_capability_id derive_risk_level derive_requires_approval
verify_trust b input context descriptor =
    trust_id b input context (derive_capability_id context descriptor none)
      (descriptor_metadata descriptor)

abbrev pub or_resource : Option String → String → String
or_resource none resource = resource
or_resource (some id) resource = id

-- `check_policy` with a trusted input in its context
unfoldable pub check_policy :
    PolicySecurityBoundary → String → Fields → Option Descriptor → TrustedInput → PolicyDecision
unfolding derive_capability_id derive_requires_approval
check_policy b resource context descriptor t =
    if any
      (λ id. id == or_resource (derive_capability_id context descriptor (some resource)) resource)
      b.deny_capability_ids
    then PolicyDecision.deny
    else if any (same_risk t.risk_level) b.deny_risk_levels
    then PolicyDecision.deny
    else if derive_requires_approval context t.metadata
    then PolicyDecision.approve_required
    else if any (same_risk t.risk_level) b.approval_required_risk_levels
    then PolicyDecision.approve_required
    else b.default_decision

abbrev pub reason_text : Option String → String → String
reason_text none default = default
reason_text (some s) default = s

-- `_derive_policy_reason`
abbrev pub derive_policy_reason : PolicyDecision → String → TrustedInput → Option String
derive_policy_reason PolicyDecision.allow id t = none
derive_policy_reason PolicyDecision.approve_required id t = some (
    reason_text (stripped (get "approval_reason" t.metadata))
      (append "security policy requires approval for capability '" (append id "'")))
derive_policy_reason PolicyDecision.deny id t = some (
    reason_text (stripped (get "deny_reason" t.metadata))
      (append "security policy denied capability '" (append id "'")))

-- A call that is to be evaluated.
pub record ToolCall : Type 0 where
  pub capability_id : String
  pub params : Fields
  pub tool_name : String
  pub tool_call_id : String
  pub descriptor : Option Descriptor
  pub requires_approval_override : Option Bool
  pub risk_level_override : Option RiskLevel

abbrev pub override_of : Option Bool → Bool
override_of none = false
override_of (some b) = b

abbrev pub risk_entry : Option RiskLevel → Fields
risk_entry none = end
risk_entry (some r) = field "risk_level" (text (risk_value r)) end

-- `trust_context`
abbrev pub trust_context : ℕ → ToolCall → Fields
trust_context attempt c = field "capability_id" (text c.capability_id) (
    field "tool_name" (text c.tool_name) (
      field "tool_call_id" (text c.tool_call_id) (
        field "attempt" (num attempt) (
          field "requires_approval"
            (bool (
              truth (get "requires_approval" (descriptor_metadata c.descriptor))
              || override_of c.requires_approval_override))
            (risk_entry c.risk_level_override)))))

-- `policy_context`
abbrev pub policy_context : Fields → TrustedInput → Fields
policy_context context t = set_field "metadata" (obj t.metadata) (
    set_field "requires_approval" (bool (truth (get "requires_approval" t.metadata)))
      (set_field "risk_level" (text (risk_value t.risk_level)) context))

-- the decision on a trusted input
abbrev pub decide : ToolCall → TrustedInput → PolicyDecision → Preflight
decide c t d = preflight d (derive_policy_reason d c.capability_id t) t.params

abbrev pub after_trust : PolicySecurityBoundary → Fields → ToolCall → Trust → Preflight
after_trust b context c (untrusted code message) = boundary_error code (strip message)
after_trust b context c (trusted t) =
    decide c t (check_policy b c.capability_id (policy_context context t) c.descriptor t)

-- `_evaluate_tool_security`
unfoldable pub evaluate_tool_security : PolicySecurityBoundary → ℕ → ToolCall → Preflight
unfolding verify_trust check_policy strip set_field
evaluate_tool_security b attempt c =
    after_trust b (trust_context attempt c) c
      (verify_trust b c.params (trust_context attempt c) c.descriptor)
