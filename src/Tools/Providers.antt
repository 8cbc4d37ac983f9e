-- ===== src/Tools/Providers.antt =====
-- The operations of `ToolManager` on providers and entry points (dare_framework/tool/tool_manager.py). An error
-- ends an operation where it stands, with the changes that were made before it.
use deterministic_agent_runt.Base.{
  ℕ, String, Bool, true, false, not, ◌||◌, Option, none, some, is_some, List, [], ◌∷◌, ◌++◌, any,
  keep, eqb, ◌==◌, if◌then◌else◌,
}
use deterministic_agent_runt.Base.Dict.{lookup, insert}
use deterministic_agent_runt.Base.Heap.{write}
use deterministic_agent_runt.Tools.{
  Tool, provided_by, ToolManager, CapabilityDescriptor, Answer, answered, value_error, key_error,
  default_to, truthy_id, from_provider, remove_owned, register_new, list_capabilities,
}

-- An entry point: its key, the provider that it loads, if it loads one, and the tools that that lists.
pub record EntryPoint : Type 0 where
  pub key : String
  pub provider : Option ℕ
  pub tools : List ℕ

-- what follows an operation that has not failed
abbrev pub and_then {ℓ κ} :
    {A : Type ℓ} {B : Type κ}
    → ToolManager × Answer A
    → (A → ToolManager → ToolManager × Answer B)
    → ToolManager × Answer B
and_then (m, answered a) next = next a m
and_then (m, value_error e) next = (m, value_error e)
and_then (m, key_error e) next = (m, key_error e)

abbrev pub capabilities_of : ℕ → ToolManager → List String
capabilities_of p m = default_to [] (m.provider_capabilities p)

abbrev pub is_provider : ℕ → ToolManager → Bool
is_provider p m = any (λ q. eqb q p) m.providers

-- the ids that are not among the others
abbrev pub minus : List String → List String → List String
minus ids others = keep (λ id. not (any (λ other. other == id) others)) ids

-- the end of `_sync_provider_tools`: what the provider no longer lists goes
abbrev pub drop_missing :
    ℕ → List String → List String → ToolManager → ToolManager × Answer (Unit {0})
drop_missing p existing incoming m =
    let m' : ToolManager = remove_owned p (minus existing incoming) m in
    (
      record m' { provider_capabilities = write p (some incoming) m'.provider_capabilities },
      answered tt,
    )

-- `providers.remove`: the first that is the provider
abbrev pub remove_first : ℕ → List ℕ → List ℕ
remove_first p [] = []
remove_first p (q ∷ qs) = if eqb q p then qs else q ∷ remove_first p qs

-- `unregister_provider`
unfoldable pub unregister_provider : ℕ → ToolManager → ToolManager × Answer Bool
unfolding remove_owned
unregister_provider p m =
    if is_provider p m
    then (let m' : ToolManager =
          remove_owned p (capabilities_of p m)
            (record m { providers = remove_first p m.providers }) in
        (
          record m' { provider_capabilities = write p none m'.provider_capabilities },
          answered true,
        ))
    else (m, answered false)

module _ (tool_of : ℕ → Tool) where
  -- `_register_provider_tool`
  abbrev pub register_unknown : Option String → ℕ → ℕ → ToolManager → ToolManager × Answer String
  register_unknown (some id) p t m = (m, answered id)
  register_unknown none p t m = register_new tool_of (provided_by p) t (tool_of t).name m

  unfoldable pub register_provider_tool : ℕ → ℕ → ToolManager → ToolManager × Answer String
  register_provider_tool p t m = register_unknown (truthy_id (m.tool_index_by_object t)) p t m

  -- the loop of `_sync_provider_tools`, with the ids that have come in
  unfoldable pub register_listed :
      ℕ → List ℕ → List String → ToolManager → ToolManager × Answer (List String)
  unfolding register_provider_tool
  register_listed p [] incoming m = (m, answered incoming)
  register_listed p (t ∷ ts) incoming m = and_then (register_provider_tool p t m) (λ id m'.
      register_listed p ts
        (if from_provider p (lookup id m'.registry) then id ∷ incoming else incoming) m')

  -- `_sync_provider_tools`
  unfoldable pub sync_provider_tools : ℕ → List ℕ → ToolManager → ToolManager × Answer (Unit {0})
  unfolding register_listed remove_owned
  sync_provider_tools p tools m =
      and_then (register_listed p tools [] m) (drop_missing p (capabilities_of p m))

  -- `register_provider`, with what the provider lists
  abbrev pub add_provider : ℕ → ToolManager → ToolManager
  add_provider p m = record m {
    providers = m.providers ++ (p ∷ []);
    provider_capabilities =
        write p (some (default_to [] (m.provider_capabilities p))) m.provider_capabilities;
  }

  unfoldable pub register_provider : ℕ → List ℕ → ToolManager → ToolManager × Answer (Unit {0})
  unfolding sync_provider_tools
  register_provider p tools m =
      if is_provider p m then (m, answered tt) else sync_provider_tools p tools (add_provider p m)

  -- a round of `load_entrypoint_providers`
  abbrev pub load_provider : Option ℕ → EntryPoint → ToolManager → ToolManager × Answer (Unit {0})
  load_provider none point m = (m, answered tt)
  load_provider (some p) point m =
      register_provider p point.tools
        (record m { entrypoint_providers = insert point.key p m.entrypoint_providers })

  abbrev pub load_entry_point : EntryPoint → ToolManager → ToolManager × Answer (Unit {0})
  load_entry_point point m =
      if is_some (lookup point.key m.entrypoint_providers)
      then (m, answered tt)
      else load_provider point.provider point m

  unfoldable pub load_entry_points : List EntryPoint → ToolManager → ToolManager × Answer (Unit {0})
  unfolding register_provider
  load_entry_points [] m = (m, answered tt)
  load_entry_points (point ∷ points) m =
      and_then (load_entry_point point m) (λ _ m'. load_entry_points points m')

  -- `load_entrypoint_providers`
  unfoldable pub load_entrypoint_providers :
      List EntryPoint → ToolManager → ToolManager × Answer (Unit {0})
  unfolding load_entry_points
  load_entrypoint_providers points m =
      if not m.load_entrypoints || m.entrypoints_loaded
      then (m, answered tt)
      else load_entry_points points (record m { entrypoints_loaded = true })

  -- the loop of `refresh`, with what each provider lists
  unfoldable pub sync_providers :
      (ℕ → List ℕ) → List ℕ → ToolManager → ToolManager × Answer (Unit {0})
  unfolding sync_provider_tools
  sync_providers lists [] m = (m, answered tt)
  sync_providers lists (p ∷ ps) m =
      and_then (sync_provider_tools p (lists p) m) (λ _ m'. sync_providers lists ps m')

  -- `refresh`
  unfoldable pub refresh :
      (ℕ → List ℕ)
      → List EntryPoint
      → ToolManager
      → ToolManager × Answer (List CapabilityDescriptor)
  unfolding load_entrypoint_providers sync_providers list_capabilities
  refresh lists points m = and_then (load_entrypoint_providers points m) (λ _ m'.
      and_then (sync_providers lists m'.providers m')
        (λ _ m''. (m'', answered (list_capabilities true m''))))

abbrev pub new_tool_manager : Bool → ToolManager
new_tool_manager load = record {
  registry = [];
  tool_index_by_object = λ _. none;
  providers = [];
  provider_capabilities = λ _. none;
  load_entrypoints = load;
  entrypoints_loaded = false;
  entrypoint_providers = [];
}
