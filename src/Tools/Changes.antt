-- ===== src/Tools/Changes.antt =====
-- Runs of the operations of `ToolManager` (dare_framework/tool/tool_manager.py), those that fail included.
use deterministic_agent_runt.Base.{
  ℕ, String, Bool, Option, none, some, List, [], ◌∷◌, ◌≡◌, refl, sym, ap, ◌∙◌, arith, inl, inr,
  Option-cases,
}
use deterministic_agent_runt.Base.Dict.{lookup}
use deterministic_agent_runt.Tools.{
  Tool, Entry, ToolManager, Answer, answered, value_error, key_error, unregister_tool,
  change_capability_status, get_tool, active_tool, register_tool, update_tool,
}
use deterministic_agent_runt.Tools.Providers.{
  EntryPoint, unregister_provider, register_provider, load_entrypoint_providers, refresh,
  new_tool_manager,
}
use deterministic_agent_runt.Tools.Index.{IsIndexed, set_enabled-IsIndexed}
use deterministic_agent_runt.Tools.Entries.{
  register_tool-IsIndexed, unregister_tool-IsIndexed, update_tool-IsIndexed,
}
use deterministic_agent_runt.Tools.Syncs.{
  register_provider-IsIndexed, unregister_provider-IsIndexed, load_entrypoint_providers-IsIndexed,
  refresh-IsIndexed,
}

-- The operations that change the manager, with what they are given.
pub data Change : Type 0 where
  registers : ℕ → Change
  unregisters : String → Change
  updates : ℕ → String → Option Bool → Change
  enables : String → Bool → Change
  adds_provider : ℕ → List ℕ → Change
  drops_provider : ℕ → Change
  loads : List EntryPoint → Change
  refreshes : (ℕ → List ℕ) → List EntryPoint → Change

module _ (tool_of : ℕ → Tool) where
  unfoldable pub perform : Change → ToolManager → ToolManager
  unfolding register_tool unregister_tool update_tool change_capability_status register_provider
      unregister_provider load_entrypoint_providers refresh
  perform (registers t) m = (register_tool tool_of t m).0
  perform (unregisters id) m = (unregister_tool id m).0
  perform (updates t id enabled) m = (update_tool tool_of t id enabled m).0
  perform (enables id enabled) m = (change_capability_status id enabled m).0
  perform (adds_provider p tools) m = (register_provider tool_of p tools m).0
  perform (drops_provider p) m = (unregister_provider p m).0
  perform (loads points) m = (load_entrypoint_providers tool_of points m).0
  perform (refreshes lists points) m = (refresh tool_of lists points m).0

  unfoldable pub perform_all : List Change → ToolManager → ToolManager
  unfolding perform
  perform_all [] m = m
  perform_all (c ∷ cs) m = perform_all cs (perform c m)

  perform-IsIndexed :
      (c : Change) (m : ToolManager) → IsIndexed tool_of m → IsIndexed tool_of (perform c m)
  unfolding perform
  perform-IsIndexed (registers t) m inv = register_tool-IsIndexed tool_of t m inv
  perform-IsIndexed (unregisters id) m inv = unregister_tool-IsIndexed tool_of id m inv
  perform-IsIndexed (updates t id enabled) m inv = update_tool-IsIndexed tool_of t id enabled m inv
  perform-IsIndexed (enables id enabled) m inv = set_enabled-IsIndexed tool_of id enabled m inv
  perform-IsIndexed (adds_provider p tools) m inv =
      register_provider-IsIndexed tool_of p tools m inv
  perform-IsIndexed (drops_provider p) m inv = unregister_provider-IsIndexed tool_of p m inv
  perform-IsIndexed (loads points) m inv = load_entrypoint_providers-IsIndexed tool_of points m inv
  perform-IsIndexed (refreshes lists points) m inv = refresh-IsIndexed tool_of lists points m inv

  new_tool_manager-IsIndexed : (load : Bool) → IsIndexed tool_of (new_tool_manager load)
  unfolding lookup
  new_tool_manager-IsIndexed load = record { of_entry = λ id e h. cc h; of_tool = λ t id h. cc h }

  from-IsIndexed :
      (cs : List Change) (m : ToolManager)
      → IsIndexed tool_of m
      → IsIndexed tool_of (perform_all cs m)
  unfolding perform_all
  from-IsIndexed [] m inv = inv
  from-IsIndexed (c ∷ cs) m inv = from-IsIndexed cs (perform c m) (perform-IsIndexed c m inv)

  -- Whatever operations a new manager has been through, those that failed included, every entry of its
  -- registry holds a tool of the entry's name, with the tool's own description, and the index of
  -- objects leads from a tool to an entry exactly if that entry holds the tool.
  pub perform_all-IsIndexed :
      (load : Bool) (cs : List Change) → IsIndexed tool_of (perform_all cs (new_tool_manager load))
  perform_all-IsIndexed load cs = from-IsIndexed cs _ (new_tool_manager-IsIndexed load)

  active_tool-named :
      (id : String) (o : Option Entry) (m : ToolManager) (t : ℕ)
      → IsIndexed tool_of m
      → lookup id m.registry ≡ o
      → active_tool o ≡ some t
      → (tool_of t).name ≡ id
  active_tool-named id none m t inv there h = cc h
  active_tool-named id (some e) m t inv there h =
      let (u, s) = inv.of_entry id e there in ground (arith, s, h)

  -- Whatever operations a new manager has been through, the tool that `get_tool` returns for an id has
  -- that id as its name.
  get_tool-named :
      (load : Bool) (cs : List Change) (id : String) (t : ℕ)
      → get_tool id (perform_all cs (new_tool_manager load)) ≡ answered t
      → (tool_of t).name ≡ id
  unfolding get_tool
  get_tool-named load cs id t h =
      let m = perform_all cs (new_tool_manager load) in
      elim (Option-cases (active_tool (lookup id m.registry))) [
        | inl inactive ↦ cc (rw (inactive, get_tool) at h)
        | inr (u, active) ↦
            let same : u ≡ t =
              ap (λ (a : Answer ℕ). elim a [ answered v ↦ v | value_error _ ↦ u | key_error _ ↦ u ])
                (rw (active, get_tool) at h) in
            ap (λ (v : ℕ). (tool_of v).name) (sym same)
            ∙ active_tool-named id (lookup id m.registry) m u (perform_all-IsIndexed load cs) refl
                active
      ]
