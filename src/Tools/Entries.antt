-- ===== src/Tools/Entries.antt =====
-- The registry and its index agree after the operations on single tools (dare_framework/tool/tool_manager.py).
use deterministic_agent_runt.Base.{
  ℕ, String, Bool, Option, none, some, List, [], ◌∷◌, ◌≡◌, refl, arith, inl, inr, Bool-cases,
  Option-cases, ◌==◌,
}
use deterministic_agent_runt.Base.Dict.{lookup}
use deterministic_agent_runt.Base.Heap.{write}
use deterministic_agent_runt.Tools.{
  Tool, Source, Source-cases, tool_source, Entry, ToolManager, truthy_id, entry_under, remove_entry,
  from_provider, remove_owned, unregister_tool, register_new, register_tool, updated_entry,
  without_old, update_entry, update_tool,
}
use deterministic_agent_runt.Tools.Index.{
  IsIndexed, same_text, add_entry-IsIndexed, remove_entry-IsIndexed, replaced-IsIndexed,
}

module _ (tool_of : ℕ → Tool) where
  pub register_new-IsIndexed {ℓ} :
      {A : Type ℓ} (source : Source) (t : ℕ) (reply : A) (m : ToolManager)
      → IsIndexed tool_of m
      → IsIndexed tool_of (register_new tool_of source t reply m).0
  register_new-IsIndexed source t reply m inv =
      elim (Option-cases (lookup (tool_of t).name m.registry)) [
        | inl free ↦ rw free (add_entry-IsIndexed tool_of source t m inv free)
        | inr (e, there) ↦ rw there inv
      ]

  pub register_tool-IsIndexed :
      (t : ℕ) (m : ToolManager)
      → IsIndexed tool_of m
      → IsIndexed tool_of (register_tool tool_of t m).0
  unfolding register_tool
  register_tool-IsIndexed t m inv =
      elim (Option-cases (entry_under (truthy_id (m.tool_index_by_object t)) m.registry)) [
        | inl fresh ↦ rw fresh (register_new-IsIndexed tool_source t _ m inv)
        | inr (e, known) ↦ rw known inv
      ]

  pub unregister_tool-IsIndexed :
      (id : String) (m : ToolManager)
      → IsIndexed tool_of m
      → IsIndexed tool_of (unregister_tool id m).0
  unfolding unregister_tool
  unregister_tool-IsIndexed id m inv = elim (Option-cases (lookup id m.registry)) [
    | inl absent ↦ rw absent inv
    | inr (e, there) ↦ elim (Source-cases e.source) [
      | inl own ↦ rw (there, own) (remove_entry-IsIndexed tool_of id m inv)
      | inr (p, theirs) ↦ rw (there, theirs) inv
    ]
  ]

  update_entry-IsIndexed :
      (t : ℕ) (id : String) (enabled : Option Bool) (o : Option Entry) (m : ToolManager)
      → IsIndexed tool_of m
      → (tool_of t).name ≡ id
      → lookup id m.registry ≡ o
      → IsIndexed tool_of (update_entry tool_of t id enabled o m).0
  update_entry-IsIndexed t id enabled none m inv name there = inv
  update_entry-IsIndexed t id enabled (some e) m inv name there = elim (Source-cases e.source) [
    | inl own ↦
        let (old, s) = inv.of_entry id e there in
        rw own (
          replaced-IsIndexed tool_of id e old m inv there s
            (updated_entry tool_of t id enabled (record e { source = tool_source })) t
            (write t (some id) (without_old tool_of e.held t m.tool_index_by_object)) refl name refl
            (ground arith) (λ u apart. ground (arith, s, apart)))
    | inr (p, theirs) ↦ rw theirs inv
  ]

  pub update_tool-IsIndexed :
      (t : ℕ) (id : String) (enabled : Option Bool) (m : ToolManager)
      → IsIndexed tool_of m
      → IsIndexed tool_of (update_tool tool_of t id enabled m).0
  unfolding update_tool
  update_tool-IsIndexed t id enabled m inv = elim (Bool-cases ((tool_of t).name == id)) [
    | inl same ↦ rw same (
        update_entry-IsIndexed t id enabled (lookup id m.registry) m inv
          (same_text (tool_of t).name id same) refl)
    | inr other ↦ rw other inv
  ]

  pub remove_owned-IsIndexed :
      (p : ℕ) (ids : List String) (m : ToolManager)
      → IsIndexed tool_of m
      → IsIndexed tool_of (remove_owned p ids m)
  unfolding remove_owned
  remove_owned-IsIndexed p [] m inv = inv
  remove_owned-IsIndexed p (id ∷ ids) m inv =
      elim (Bool-cases (from_provider p (lookup id m.registry))) [
        | inl owned ↦ rw owned (
            remove_owned-IsIndexed p ids (remove_entry id m)
              (remove_entry-IsIndexed tool_of id m inv))
        | inr other ↦ rw other (remove_owned-IsIndexed p ids m inv)
      ]
