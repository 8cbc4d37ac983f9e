-- ===== src/Tools.antt =====
-- `ToolManager` of dare_framework/tool/tool_manager.py. A tool and a provider are references, since the code
-- compares them by identity; the attributes of a tool, which do not change, are the argument
-- `tool_of`. What a provider lists and which entry points there are is given to the operation that
-- asks for it.
mod Types
pub mod Providers
pub mod Index
pub mod Entries
pub mod Syncs
pub mod Removal
pub mod Arrivals
pub mod Ownership
pub mod Changes
mod Tests
unfoldable pub use Types.*
use Prim.Native.String.{◌++◌ as append}
use deterministic_agent_runt.Base.{
  ℕ, String, Bool, true, false, not, ◌||◌, Option, none, some, is_some, List, [], ◌∷◌, ◌++◌, any,
  keep, eqb, ◌==◌, if◌then◌else◌,
}
use deterministic_agent_runt.Base.Dict.{Dict, lookup, insert, erase, values}
use deterministic_agent_runt.Base.Heap.{write}
use deterministic_agent_runt.Base.Text.{is_empty}

-- an id that is there and not the empty text, which is false for `if`
abbrev pub truthy_id : Option String → Option String
truthy_id none = none
truthy_id (some id) = if is_empty id then none else some id

-- the entry under an id that may not be there
abbrev pub entry_under : Option String → Dict Entry → Option Entry
entry_under none registry = none
entry_under (some id) registry = lookup id registry

-- `_remove_entry`
abbrev pub forget_tool : Option Entry → ToolManager → ToolManager
forget_tool none m = m
forget_tool (some e) m = elim e.held [
  | none ↦ m
  | some t ↦ record m { tool_index_by_object = write t none m.tool_index_by_object }
]

unfoldable pub remove_entry : String → ToolManager → ToolManager
remove_entry id m = forget_tool (lookup id m.registry) (record m { registry = erase id m.registry })

-- whether the entry is there and comes from the provider
abbrev pub from_provider : ℕ → Option Entry → Bool
from_provider p none = false
from_provider p (some e) = elim e.source [ tool_source ↦ false | provided_by q ↦ eqb q p ]

-- the removal of a provider's capabilities, of those ids that are its own
unfoldable pub remove_owned : ℕ → List String → ToolManager → ToolManager
unfolding remove_entry
remove_owned p [] m = m
remove_owned p (id ∷ ids) m =
    remove_owned p ids (if from_provider p (lookup id m.registry) then remove_entry id m else m)

-- `unregister_tool`
abbrev pub unregister_entry : String → Option Entry → ToolManager → ToolManager × Answer Bool
unregister_entry id none m = (m, answered false)
unregister_entry id (some e) m = elim e.source [
  | tool_source ↦ (remove_entry id m, answered true)
  | provided_by _ ↦ (m, value_error "Cannot unregister provider-owned capability")
]

unfoldable pub unregister_tool : String → ToolManager → ToolManager × Answer Bool
unfolding remove_entry
unregister_tool id m = unregister_entry id (lookup id m.registry) m

-- `change_capability_status`
abbrev pub set_enabled :
    String → Bool → Option Entry → ToolManager → ToolManager × Answer (Unit {0})
set_enabled id enabled none m = (m, key_error (append "Unknown capability id: " id))
set_enabled id enabled (some e) m =
    (record m { registry = insert id (record e { enabled = enabled }) m.registry }, answered tt)

unfoldable pub change_capability_status :
    String → Bool → ToolManager → ToolManager × Answer (Unit {0})
change_capability_status id enabled m = set_enabled id enabled (lookup id m.registry) m

-- `get_capability`
abbrev pub shown : Bool → Option Entry → Option CapabilityDescriptor
shown include_disabled none = none
shown include_disabled (some e) = if include_disabled || e.enabled then some e.descriptor else none

unfoldable pub get_capability : String → Bool → ToolManager → Option CapabilityDescriptor
get_capability id include_disabled m = shown include_disabled (lookup id m.registry)

-- `list_capabilities`
abbrev pub descriptors_of : List Entry → List CapabilityDescriptor
descriptors_of [] = []
descriptors_of (e ∷ es) = e.descriptor ∷ descriptors_of es

unfoldable pub list_capabilities : Bool → ToolManager → List CapabilityDescriptor
list_capabilities include_disabled m =
    descriptors_of (keep (λ e. include_disabled || e.enabled) (values m.registry))

-- `get_tool`
abbrev pub active_tool : Option Entry → Option ℕ
active_tool none = none
active_tool (some e) = if e.enabled then e.held else none

unfoldable pub get_tool : String → ToolManager → Answer ℕ
get_tool id m = elim (active_tool (lookup id m.registry)) [
  | some t ↦ answered t
  | none ↦ key_error (append "Unknown capability id: " id)
]

-- `list_tools`
abbrev pub active_tools : List Entry → List ℕ
active_tools [] = []
active_tools (e ∷ es) = elim (active_tool (some e)) [
  | some t ↦ t ∷ active_tools es
  | none ↦ active_tools es
]

unfoldable pub list_tools : ToolManager → List ℕ
list_tools m = active_tools (values m.registry)

module _ (tool_of : ℕ → Tool) where
  -- `_descriptor_from_tool`
  unfoldable pub descriptor_from_tool : ℕ → String → CapabilityDescriptor
  unfolding capability_metadata
  descriptor_from_tool t id = record {
    id = id;
    name = (tool_of t).name;
    description = (tool_of t).description;
    input_schema = (tool_of t).input_schema;
    output_schema = (tool_of t).output_schema;
    metadata = capability_metadata (tool_of t);
  }

  -- a new entry under the tool's name
  abbrev pub new_entry : Source → ℕ → Entry
  new_entry source t = record {
    descriptor = descriptor_from_tool t (tool_of t).name;
    enabled = true;
    source = source;
    held = some t;
  }

  abbrev pub add_entry : Source → ℕ → ToolManager → ToolManager
  add_entry source t m = record m {
    registry = insert (tool_of t).name (new_entry source t) m.registry;
    tool_index_by_object = write t (some (tool_of t).name) m.tool_index_by_object;
  }

  -- the end of `register_tool` and of `_register_provider_tool`, with what they return
  abbrev pub register_new {ℓ} : {A : Type ℓ} → Source → ℕ → A → ToolManager → ToolManager × Answer A
  register_new source t reply m =
      if is_some (lookup (tool_of t).name m.registry)
      then (m, value_error (append "Tool name already registered: " (tool_of t).name))
      else (add_entry source t m, answered reply)

  abbrev pub register_unless :
      Option Entry → ℕ → ToolManager → ToolManager × Answer CapabilityDescriptor
  register_unless (some e) t m = (m, answered e.descriptor)
  register_unless none t m = register_new tool_source t (descriptor_from_tool t (tool_of t).name) m

  -- `register_tool`
  unfoldable pub register_tool : ℕ → ToolManager → ToolManager × Answer CapabilityDescriptor
  unfolding descriptor_from_tool
  register_tool t m =
      register_unless (entry_under (truthy_id (m.tool_index_by_object t)) m.registry) t m

  -- `update_tool`
  abbrev pub updated_entry : ℕ → String → Option Bool → Entry → Entry
  updated_entry t id enabled e = record e {
    descriptor = descriptor_from_tool t id;
    held = some t;
    enabled = elim enabled [ none ↦ e.enabled | some b ↦ b ];
  }

  -- the index without the tool that is replaced
  abbrev pub without_old : Option ℕ → ℕ → (ℕ → Option String) → (ℕ → Option String)
  without_old none t index = index
  without_old (some old) t index = if eqb old t then index else write old none index

  abbrev pub update_entry :
      ℕ
      → String
      → Option Bool
      → Option Entry
      → ToolManager
      → ToolManager × Answer CapabilityDescriptor
  update_entry t id enabled none m = (m, key_error (append "Unknown capability id: " id))
  update_entry t id enabled (some e) m = elim e.source [
    | provided_by _ ↦ (m, value_error "Cannot update provider-owned capability")
    | tool_source ↦ (
      record m {
        registry = insert id (updated_entry t id enabled e) m.registry;
        tool_index_by_object = write t (some id) (without_old e.held t m.tool_index_by_object);
      },
      answered (descriptor_from_tool t id),
    )
  ]

  unfoldable pub update_tool :
      ℕ → String → Option Bool → ToolManager → ToolManager × Answer CapabilityDescriptor
  unfolding descriptor_from_tool
  update_tool t id enabled m =
      if (tool_of t).name == id
      then update_entry t id enabled (lookup id m.registry) m
      else (m, value_error "Tool name must match capability id")
