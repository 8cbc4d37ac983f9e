-- ===== src/Tools/Syncs.antt =====
-- The registry and its index agree after the operations on providers (dare_framework/tool/tool_manager.py),
-- those that fail included.
use deterministic_agent_runt.Base.{
  ℕ, String, true, not, ◌||◌, Option, none, some, is_some, List, [], ◌∷◌, ◌≡◌, refl, inl, inr,
  Bool-cases, Option-cases,
}
use deterministic_agent_runt.Base.Dict.{lookup}
use deterministic_agent_runt.Tools.{
  Tool, provided_by, ToolManager, Answer, answered, value_error, key_error, truthy_id, remove_owned,
}
use deterministic_agent_runt.Tools.Providers.{
  EntryPoint, and_then, capabilities_of, is_provider, remove_first, minus, drop_missing,
  unregister_provider, register_provider_tool, register_listed, sync_provider_tools, add_provider,
  register_provider, load_provider, load_entry_point, load_entry_points, load_entrypoint_providers,
  sync_providers, refresh,
}
use deterministic_agent_runt.Tools.Index.{IsIndexed}
use deterministic_agent_runt.Tools.Entries.{register_new-IsIndexed, remove_owned-IsIndexed}

module _ (tool_of : ℕ → Tool) where
  -- what keeps the index through the first operation and through what follows it, keeps it
  and_then-IsIndexed {ℓ κ} :
      {A : Type ℓ} {B : Type κ} (r : ToolManager × Answer A)
      (next : A → ToolManager → ToolManager × Answer B)
      → IsIndexed tool_of r.0
      → ((a : A) (m : ToolManager) → IsIndexed tool_of m → IsIndexed tool_of (next a m).0)
      → IsIndexed tool_of (and_then r next).0
  and_then-IsIndexed (m, answered a) next inv later = later a m inv
  and_then-IsIndexed (m, value_error e) next inv later = inv
  and_then-IsIndexed (m, key_error e) next inv later = inv

  register_provider_tool-IsIndexed :
      (p t : ℕ) (m : ToolManager)
      → IsIndexed tool_of m
      → IsIndexed tool_of (register_provider_tool tool_of p t m).0
  unfolding register_provider_tool
  register_provider_tool-IsIndexed p t m inv =
      elim (Option-cases (truthy_id (m.tool_index_by_object t))) [
        | inl fresh ↦ rw fresh (register_new-IsIndexed tool_of (provided_by p) t _ m inv)
        | inr (id, known) ↦ rw known inv
      ]

  register_listed-IsIndexed :
      (p : ℕ) (ts : List ℕ) (incoming : List String) (m : ToolManager)
      → IsIndexed tool_of m
      → IsIndexed tool_of (register_listed tool_of p ts incoming m).0
  unfolding register_listed
  register_listed-IsIndexed p [] incoming m inv = inv
  register_listed-IsIndexed p (t ∷ ts) incoming m inv =
      and_then-IsIndexed (register_provider_tool tool_of p t m) _
        (register_provider_tool-IsIndexed p t m inv)
        (λ id m' inv'. register_listed-IsIndexed p ts _ m' inv')

  -- the index does not read the other fields
  alike_manager :
      (m n : ToolManager)
      → n.registry ≡ m.registry
      → n.tool_index_by_object ≡ m.tool_index_by_object
      → IsIndexed tool_of m
      → IsIndexed tool_of n
  alike_manager m n e f inv = record {
    of_entry = rw (e, f) inv.of_entry;
    of_tool = rw (e, f) inv.of_tool;
  }

  sync-IsIndexed :
      (p : ℕ) (ts : List ℕ) (m : ToolManager)
      → IsIndexed tool_of m
      → IsIndexed tool_of (sync_provider_tools tool_of p ts m).0
  unfolding sync_provider_tools
  sync-IsIndexed p ts m inv =
      and_then-IsIndexed (register_listed tool_of p ts [] m) (drop_missing p (capabilities_of p m))
        (register_listed-IsIndexed p ts [] m inv)
        (λ incoming m' inv'.
          let ids = minus (capabilities_of p m) incoming in
          alike_manager (remove_owned p ids m') (drop_missing p (capabilities_of p m) incoming m').0
            refl refl (remove_owned-IsIndexed tool_of p ids m' inv'))

  pub register_provider-IsIndexed :
      (p : ℕ) (ts : List ℕ) (m : ToolManager)
      → IsIndexed tool_of m
      → IsIndexed tool_of (register_provider tool_of p ts m).0
  unfolding register_provider
  register_provider-IsIndexed p ts m inv = elim (Bool-cases (is_provider p m)) [
    | inl known ↦ rw known inv
    | inr fresh ↦ rw fresh (
        sync-IsIndexed p ts (add_provider tool_of p m)
          (alike_manager m (add_provider tool_of p m) refl refl inv))
  ]

  pub unregister_provider-IsIndexed :
      (p : ℕ) (m : ToolManager)
      → IsIndexed tool_of m
      → IsIndexed tool_of (unregister_provider p m).0
  unfolding unregister_provider
  unregister_provider-IsIndexed p m inv = elim (Bool-cases (is_provider p m)) [
    | inl known ↦
        let gone : ToolManager = record m { providers = remove_first p m.providers } in
        rw known (
          alike_manager (remove_owned p (capabilities_of p m) gone) _ refl refl (
            remove_owned-IsIndexed tool_of p (capabilities_of p m) gone
              (alike_manager m gone refl refl inv)))
    | inr unknown ↦ rw unknown inv
  ]

  load_provider-IsIndexed :
      (o : Option ℕ) (point : EntryPoint) (m : ToolManager)
      → IsIndexed tool_of m
      → IsIndexed tool_of (load_provider tool_of o point m).0
  load_provider-IsIndexed none point m inv = inv
  load_provider-IsIndexed (some p) point m inv =
      register_provider-IsIndexed p point.tools _ (alike_manager m _ refl refl inv)

  load_entry_point-IsIndexed :
      (point : EntryPoint) (m : ToolManager)
      → IsIndexed tool_of m
      → IsIndexed tool_of (load_entry_point tool_of point m).0
  load_entry_point-IsIndexed point m inv =
      elim (Bool-cases (is_some (lookup point.key m.entrypoint_providers))) [
        | inl known ↦ rw known inv
        | inr new ↦ rw new (load_provider-IsIndexed point.provider point m inv)
      ]

  load_entry_points-IsIndexed :
      (points : List EntryPoint) (m : ToolManager)
      → IsIndexed tool_of m
      → IsIndexed tool_of (load_entry_points tool_of points m).0
  unfolding load_entry_points
  load_entry_points-IsIndexed [] m inv = inv
  load_entry_points-IsIndexed (point ∷ points) m inv =
      and_then-IsIndexed (load_entry_point tool_of point m) _
        (load_entry_point-IsIndexed point m inv)
        (λ _ m' inv'. load_entry_points-IsIndexed points m' inv')

  sync_providers-IsIndexed :
      (lists : ℕ → List ℕ) (ps : List ℕ) (m : ToolManager)
      → IsIndexed tool_of m
      → IsIndexed tool_of (sync_providers tool_of lists ps m).0
  unfolding sync_providers
  sync_providers-IsIndexed lists [] m inv = inv
  sync_providers-IsIndexed lists (p ∷ ps) m inv =
      and_then-IsIndexed (sync_provider_tools tool_of p (lists p) m) _
        (sync-IsIndexed p (lists p) m inv) (λ _ m' inv'. sync_providers-IsIndexed lists ps m' inv')

  pub load_entrypoint_providers-IsIndexed :
      (points : List EntryPoint) (m : ToolManager)
      → IsIndexed tool_of m
      → IsIndexed tool_of (load_entrypoint_providers tool_of points m).0
  unfolding load_entrypoint_providers
  load_entrypoint_providers-IsIndexed points m inv =
      elim (Bool-cases (not m.load_entrypoints || m.entrypoints_loaded)) [
        | inl done ↦ rw done inv
        | inr first ↦
            let loading : ToolManager = record m { entrypoints_loaded = true } in
            rw first
              (load_entry_points-IsIndexed points loading (alike_manager m loading refl refl inv))
      ]

  pub refresh-IsIndexed :
      (lists : ℕ → List ℕ) (points : List EntryPoint) (m : ToolManager)
      → IsIndexed tool_of m
      → IsIndexed tool_of (refresh tool_of lists points m).0
  unfolding refresh
  refresh-IsIndexed lists points m inv =
      and_then-IsIndexed (load_entrypoint_providers tool_of points m) _
        (load_entrypoint_providers-IsIndexed points m inv)
        (λ _ m' inv'.
          and_then-IsIndexed (sync_providers tool_of lists m'.providers m') _
            (sync_providers-IsIndexed lists m'.providers m' inv') (λ _ m'' inv''. inv''))
