-- ===== src/Security/Metadata.antt =====
-- The data of dare_framework/security and the helpers of
-- dare_framework/security/impl/default_security_boundary.py that read contexts and metadata.
use deterministic_agent_runt.Base.{
  String, Bool, true, false, not, Option, none, some, List, eqb, ◌==◌, if◌then◌else◌,
}
use deterministic_agent_runt.Base.Text.{strip, is_empty}
use deterministic_agent_runt.Json.{
  Value, Fields, null, bool, num, text, arr, tuple, obj, no_items, end, field,
}
use deterministic_agent_runt.Agent.ToolLoop.{PolicyDecision, get}

pub data RiskLevel : Type 0 where
  read_only idempotent_write compensatable non_idempotent_effect : RiskLevel

pub record TrustedInput : Type 0 where
  pub params : Fields
  pub risk_level : RiskLevel
  pub metadata : Fields

pub record Descriptor : Type 0 where
  pub id : String
  pub metadata : Option Fields

pub record PolicySecurityBoundary : Type 0 where
  pub deny_capability_ids : List String
  pub approval_required_risk_levels : List RiskLevel
  pub deny_risk_levels : List RiskLevel
  pub default_decision : PolicyDecision
  pub require_trusted_metadata : Bool

-- what `verify_trust` returns, or the code and the message of its `SecurityBoundaryError`
pub data Trust : Type 0 where
  trusted : TrustedInput → Trust
  untrusted : String → String → Trust

-- the values of the enum
abbrev pub risk_value : RiskLevel → String
risk_value read_only = "read_only"
risk_value idempotent_write = "idempotent_write"
risk_value compensatable = "compensatable"
risk_value non_idempotent_effect = "non_idempotent_effect"

abbrev pub same_risk : RiskLevel → RiskLevel → Bool
same_risk r s = risk_value r == risk_value s

-- `RiskLevel(value)`
abbrev pub risk_of : String → Option RiskLevel
risk_of s =
    if s == "read_only"
    then some read_only
    else if s == "idempotent_write"
    then some idempotent_write
    else if s == "compensatable"
    then some compensatable
    else if s == "non_idempotent_effect"
    then some non_idempotent_effect
    else none

-- `_coerce_risk_level`
abbrev pub coerce_risk_level : Option Value → Option RiskLevel
coerce_risk_level (some (text s)) = risk_of s
coerce_risk_level _ = none

abbrev pub first_of {ℓ} : {A : Type ℓ} → Option A → Option A → Option A
first_of (some a) o = some a
first_of none o = o

-- `isinstance(value, str) and value.strip()`, and then the stripped text
abbrev pub non_blank : String → Option String
non_blank s = if is_empty s then none else some s

abbrev pub stripped : Option Value → Option String
stripped (some (text s)) = non_blank (strip s)
stripped _ = none

-- `bool(value)`, for a missing value as for `False`
abbrev pub truth : Option Value → Bool
truth none = false
truth (some null) = false
truth (some (bool b)) = b
truth (some (num n)) = not (eqb n 0)
truth (some (text s)) = not (is_empty s)
truth (some (arr no_items)) = false
truth (some (tuple no_items)) = false
truth (some (obj end)) = false
truth (some _) = true

-- `d[k] = v` on a dict
unfoldable pub set_field : String → Value → Fields → Fields
set_field k v end = field k v end
set_field k v (field l w fs) =
    let rest = set_field k v fs in if k == l then field l v fs else field l w rest

abbrev pub set_default : String → Value → Fields → Fields
set_default k v fs = elim (get k fs) [ none ↦ set_field k v fs | some _ ↦ fs ]

-- `_descriptor_metadata`
abbrev pub descriptor_metadata : Option Descriptor → Fields
descriptor_metadata none = end
descriptor_metadata (some d) = elim d.metadata [ none ↦ end | some fs ↦ fs ]

abbrev pub descriptor_id : Option Descriptor → Option String
descriptor_id none = none
descriptor_id (some d) = non_blank (strip d.id)

abbrev pub resource_id : Option String → Option String
resource_id none = none
resource_id (some s) = non_blank (strip s)

-- `_derive_capability_id`
unfoldable pub derive_capability_id : Fields → Option Descriptor → Option String → Option String
unfolding strip
derive_capability_id context descriptor resource =
    first_of (stripped (get "capability_id" context)) (
      first_of (stripped (get "resource" context)) (
        first_of (stripped (get "tool_name" context))
          (first_of (resource_id resource) (descriptor_id descriptor))))

-- `_derive_risk_level`
unfoldable pub derive_risk_level : Fields → Fields → Option RiskLevel
derive_risk_level context metadata = first_of (coerce_risk_level (get "risk_level" metadata)) (
    first_of (coerce_risk_level (get "risk_level" context))
      (coerce_risk_level (get "envelope_risk_level" context)))

-- `_derive_requires_approval`
unfoldable pub derive_requires_approval : Fields → Fields → Bool
derive_requires_approval context metadata =
    truth (first_of (get "requires_approval" metadata) (get "requires_approval" context))
