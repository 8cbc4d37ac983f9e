-- ===== src/Tools/Index.antt =====
-- The registry of dare_framework/tool/tool_manager.py and its index by objects agree, as the operations on one
-- entry leave them.
use mathlib.Core.Option.{some-injective}
use text.Mathlib.TextEquality.{eq_iff}
use deterministic_agent_runt.Base.{
  ℕ, String, Bool, true, false, Option, none, some, ◌==◌, ◌≡◌, refl, sym, ◌∙◌, arith, inl, inr,
  Bool-cases, Option-cases, eqb, if◌then◌else◌,
}
use deterministic_agent_runt.Base.Dict.{Dict, lookup, insert, erase, lookup-erase, lookup-insert}
use deterministic_agent_runt.Base.Heap.{write}
use deterministic_agent_runt.Tools.{
  Tool, Source, Entry, ToolManager, remove_entry, change_capability_status, descriptor_from_tool,
  new_entry, add_entry,
}

pub same_text : (a b : String) → a == b ≡ true → a ≡ b
same_text a b h = ground (arith, eq_iff a b, h)

module _ (tool_of : ℕ → Tool) where
  -- An entry holds a tool of its name, described as the tool describes itself, and the index leads
  -- from the tool to the entry; the index leads nowhere else.
  abbrev pub Sound : ToolManager → String → Entry → ℕ → Type 0
  Sound m id e t =
      (e.held ≡ some t)
      × ((tool_of t).name ≡ id)
      × (e.descriptor ≡ descriptor_from_tool tool_of t id)
      × (m.tool_index_by_object t ≡ some id)

  pub record IsIndexed (m : ToolManager) : Type 0 where
    pub of_entry :
        (id : String) (e : Entry) → lookup id m.registry ≡ some e → (t : ℕ) × Sound m id e t
    pub of_tool :
        (t : ℕ) (id : String)
        → m.tool_index_by_object t ≡ some id
        → (e : Entry) × (lookup id m.registry ≡ some e) × (e.held ≡ some t)

  module _ (source : Source) (t : ℕ) (m : ToolManager) (inv : IsIndexed m)
      (free : lookup (tool_of t).name m.registry ≡ none) where
    added_of_entry :
        (id : String) (e : Entry)
        → lookup id (add_entry tool_of source t m).registry ≡ some e
        → (u : ℕ) × Sound (add_entry tool_of source t m) id e u
    added_of_entry id e h =
        let found = lookup-insert (tool_of t).name id (new_entry tool_of source t) m.registry in
        elim (Bool-cases ((tool_of t).name == id)) [
          | inl same ↦
              let name = same_text _ _ same in
              let new = some-injective _ _ (sym (rw same at found) ∙ h) in
              (t, rw (← new, ← name) (refl, refl, refl, ground arith))
          | inr other ↦
              let (u, s) = inv.of_entry id e (sym (rw other at found) ∙ h) in
              (u, (s.0, s.1, s.2, ground (arith, s, other, eq_iff (tool_of t).name id)))
        ]

    added_of_tool :
        (u : ℕ) (id : String)
        → (add_entry tool_of source t m).tool_index_by_object u ≡ some id
        → (e : Entry) × (lookup id (add_entry tool_of source t m).registry ≡ some e)
          × (e.held ≡ some u)
    added_of_tool u id h =
        let found = lookup-insert (tool_of t).name id (new_entry tool_of source t) m.registry in
        elim (Bool-cases (eqb t u)) [
          | inl same ↦
              let name = some-injective _ _ (rw same at h) in
              (
                new_entry tool_of source t,
                ground (arith, found, name, eq_iff (tool_of t).name id),
                ground (arith, same),
              )
          | inr other ↦
              let (e, there, holds) = inv.of_tool u id (rw other at h) in
              (e, ground (arith, found, there, free, eq_iff (tool_of t).name id), holds)
        ]

    pub add_entry-IsIndexed : IsIndexed (add_entry tool_of source t m)
    add_entry-IsIndexed = record { of_entry = added_of_entry; of_tool = added_of_tool }

  -- the manager without an entry and its tool
  abbrev pub without_entry : String → ℕ → ToolManager → ToolManager
  without_entry id t m = record m {
    registry = erase id m.registry;
    tool_index_by_object = write t none m.tool_index_by_object;
  }

  module _ (id : String) (e : Entry) (t : ℕ) (m : ToolManager) (inv : IsIndexed m)
      (there : lookup id m.registry ≡ some e) (s : Sound m id e t) where
    left_of_entry :
        (id' : String) (e' : Entry)
        → lookup id' (without_entry id t m).registry ≡ some e'
        → (u : ℕ) × Sound (without_entry id t m) id' e' u
    left_of_entry id' e' h =
        let found = lookup-erase id id' m.registry in
        elim (Bool-cases (id == id')) [
          | inl same ↦ cc (sym (rw same at found) ∙ h)
          | inr other ↦
              let (u, s') = inv.of_entry id' e' (sym (rw other at found) ∙ h) in
              let apart : eqb t u ≡ false = ground (arith, s, s', other, eq_iff id id') in
              (u, (s'.0, s'.1, s'.2, ground (arith, apart, s')))
        ]

    left_of_tool :
        (u : ℕ) (id' : String)
        → (without_entry id t m).tool_index_by_object u ≡ some id'
        → (e' : Entry) × (lookup id' (without_entry id t m).registry ≡ some e') × (e'.held ≡ some u)
    left_of_tool u id' h =
        let found = lookup-erase id id' m.registry in
        elim (Bool-cases (eqb t u)) [
          | inl same ↦ cc (rw same at h)
          | inr other ↦
              let (e', there', holds) = inv.of_tool u id' (rw other at h) in
              (e', ground (arith, found, there, there', holds, s, other, eq_iff id id'), holds)
        ]

    without_entry-IsIndexed : IsIndexed (without_entry id t m)
    without_entry-IsIndexed = record { of_entry = left_of_entry; of_tool = left_of_tool }

  -- what is looked up alike is indexed alike
  alike-IsIndexed :
      (m : ToolManager) (registry : Dict Entry)
      → ((id : String) → lookup id registry ≡ lookup id m.registry)
      → IsIndexed m
      → IsIndexed (record m { registry = registry })
  alike-IsIndexed m registry alike inv = record {
    of_entry = λ id e h. inv.of_entry id e (sym (alike id) ∙ h);
    of_tool = λ t id h. let (e, there, holds) = inv.of_tool t id h in (e, alike id ∙ there, holds);
  }

  erase_absent :
      (id : String) (m : ToolManager)
      → lookup id m.registry ≡ none
      → (id' : String) → lookup id' (erase id m.registry) ≡ lookup id' m.registry
  erase_absent id m absent id' =
      ground (arith, lookup-erase id id' m.registry, absent, eq_iff id id')

  pub remove_entry-IsIndexed :
      (id : String) (m : ToolManager) → IsIndexed m → IsIndexed (remove_entry id m)
  unfolding remove_entry
  remove_entry-IsIndexed id m inv = elim (Option-cases (lookup id m.registry)) [
    | inl absent ↦
        rw absent (alike-IsIndexed m (erase id m.registry) (erase_absent id m absent) inv)
    | inr (e, there) ↦
        let (t, s) = inv.of_entry id e there in
        rw (there, s.0) (without_entry-IsIndexed id e t m inv there s)
  ]

  -- the entry under an id is replaced, by one that may hold another tool
  module _ (id : String) (e : Entry) (old : ℕ) (m : ToolManager) (inv : IsIndexed m)
      (there : lookup id m.registry ≡ some e) (s : Sound m id e old) (e' : Entry) (t : ℕ)
      (index : ℕ → Option String) (held : e'.held ≡ some t) (name : (tool_of t).name ≡ id)
      (described : e'.descriptor ≡ descriptor_from_tool tool_of t id) (indexed : index t ≡ some id)
      (elsewhere : (u : ℕ)
        → eqb t u ≡ false
        → index u ≡ (if eqb old u then none else m.tool_index_by_object u)) where
    abbrev with_entry : ToolManager
    with_entry = record m { registry = insert id e' m.registry; tool_index_by_object = index }

    replaced_of_entry :
        (id' : String) (f : Entry)
        → lookup id' with_entry.registry ≡ some f
        → (u : ℕ) × Sound with_entry id' f u
    replaced_of_entry id' f h =
        let found = lookup-insert id id' e' m.registry in
        elim (Bool-cases (id == id')) [
          | inl same ↦
              let new = some-injective _ _ (sym (rw same at found) ∙ h) in
              (t, rw (← new, ← same_text id id' same) (held, name, described, indexed))
          | inr other ↦
              let (u, s') = inv.of_entry id' f (sym (rw other at found) ∙ h) in
              let apart : eqb t u ≡ false = ground (arith, name, s', other, eq_iff id id') in
              let from_old : eqb old u ≡ false = ground (arith, s, s', other, eq_iff id id') in
              (u, (s'.0, s'.1, s'.2, ground (arith, elsewhere u apart, from_old, s')))
        ]

    replaced_of_tool :
        (u : ℕ) (id' : String)
        → with_entry.tool_index_by_object u ≡ some id'
        → (f : Entry) × (lookup id' with_entry.registry ≡ some f) × (f.held ≡ some u)
    replaced_of_tool u id' h =
        let found = lookup-insert id id' e' m.registry in
        elim (Bool-cases (eqb t u)) [
          | inl same ↦
              let at_u : t ≡ u = ground (arith, same) in
              (e', ground (arith, found, indexed, h, at_u, eq_iff id id'), rw (← at_u) held)
          | inr other ↦
              let back = sym (elsewhere u other) ∙ h in
              let from_old : eqb old u ≡ false = ground (arith, back) in
              let (f, there', holds) = inv.of_tool u id' (rw from_old at back) in
              (f, ground (arith, found, there, there', holds, s, from_old, eq_iff id id'), holds)
        ]

    pub replaced-IsIndexed : IsIndexed with_entry
    replaced-IsIndexed = record { of_entry = replaced_of_entry; of_tool = replaced_of_tool }

  pub set_enabled-IsIndexed :
      (id : String) (enabled : Bool) (m : ToolManager)
      → IsIndexed m
      → IsIndexed (change_capability_status id enabled m).0
  unfolding change_capability_status
  set_enabled-IsIndexed id enabled m inv = elim (Option-cases (lookup id m.registry)) [
    | inl absent ↦ rw absent inv
    | inr (e, there) ↦
        let (t, s) = inv.of_entry id e there in
        rw there (
          replaced-IsIndexed id e t m inv there s (record e { enabled = enabled }) t
            m.tool_index_by_object s.0 s.1 s.2 s.3 (λ u apart. ground (arith, apart)))
  ]
