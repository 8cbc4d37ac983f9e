-- ===== src/Tools/Types.antt =====
-- The data of dare_framework/tool/tool_manager.py: tools and their descriptors, the entries of the registry and
-- the manager's state.
use deterministic_agent_runt.Base.{
  ℕ, String, Bool, false, Option, none, some, List, ◌==◌, ◌≡◌, ◌⊎◌, inl, inr, refl, if◌then◌else◌,
}
use deterministic_agent_runt.Base.Dict.{Dict}
use deterministic_agent_runt.Json.{Fields}

-- `CapabilityKind`
pub data CapabilityKind : Type 0 where
  tool skill plan_tool agent ui : CapabilityKind

-- The attributes of a tool that the manager reads; those that it reads with a default may be absent.
-- A value that is a member of an enum stands as the text of its value.
pub record Tool : Type 0 where
  pub name : String
  pub description : String
  pub input_schema : Fields
  pub output_schema : Fields
  pub risk_level : Option String
  pub requires_approval : Option Bool
  pub timeout_seconds : Option ℕ
  pub is_work_unit : Option Bool
  pub capability_kind : Option String

-- `CapabilityMetadata`
pub record CapabilityMetadata : Type 0 where
  pub risk_level : String
  pub requires_approval : Bool
  pub timeout_seconds : Option ℕ
  pub is_work_unit : Bool
  pub capability_kind : CapabilityKind
  pub display_name : String

-- `CapabilityDescriptor`; its type is always that of tools here
pub record CapabilityDescriptor : Type 0 where
  pub id : String
  pub name : String
  pub description : String
  pub input_schema : Fields
  pub output_schema : Fields
  pub metadata : CapabilityMetadata

-- `_TOOL_SOURCE`, or a provider
pub data Source : Type 0 where
  tool_source : Source
  provided_by : ℕ → Source

pub Source-cases : (s : Source) → (s ≡ tool_source) ⊎ ((p : ℕ) × (s ≡ provided_by p))
Source-cases tool_source = inl refl
Source-cases (provided_by p) = inr (p, refl)

-- `_registry_entry`; `held` is its field `tool`
pub record Entry : Type 0 where
  pub descriptor : CapabilityDescriptor
  pub enabled : Bool
  pub source : Source
  pub held : Option ℕ

-- `ToolManager`
pub record ToolManager : Type 0 where
  pub registry : Dict Entry
  pub tool_index_by_object : ℕ → Option String
  pub providers : List ℕ
  pub provider_capabilities : ℕ → Option (List String)
  pub load_entrypoints : Bool
  pub entrypoints_loaded : Bool
  pub entrypoint_providers : Dict ℕ

-- what an operation returns, or its `ValueError` or `KeyError`
pub data Answer {ℓ} (A : Type ℓ) : Type ℓ where
  answered : A → Answer A
  value_error : String → Answer A
  key_error : String → Answer A

abbrev pub default_to {ℓ} : {A : Type ℓ} → A → Option A → A
default_to a none = a
default_to a (some b) = b

-- `_normalize_capability_kind`
unfoldable pub normalize_capability_kind : String → CapabilityKind
normalize_capability_kind value =
    if value == "skill"
    then CapabilityKind.skill
    else if value == "plan_tool"
    then CapabilityKind.plan_tool
    else if value == "agent"
    then CapabilityKind.agent
    else if value == "ui"
    then CapabilityKind.ui
    else CapabilityKind.tool

-- `_capability_metadata`
unfoldable pub capability_metadata : Tool → CapabilityMetadata
unfolding normalize_capability_kind
capability_metadata t = record {
  risk_level = default_to "read_only" t.risk_level;
  requires_approval = default_to false t.requires_approval;
  timeout_seconds = t.timeout_seconds;
  is_work_unit = default_to false t.is_work_unit;
  capability_kind = normalize_capability_kind (default_to "tool" t.capability_kind);
  display_name = t.name;
}
