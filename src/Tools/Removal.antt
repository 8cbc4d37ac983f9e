-- ===== src/Tools/Removal.antt =====
-- The removal of a provider's entries (dare_framework/tool/tool_manager.py).
use deterministic_agent_runt.Base.{
  ℕ, String, Bool, true, false, List, [], ◌∷◌, ◌≡◌, inl, inr, refl, sym, ap, ◌∙◌, any, ◌==◌,
  Bool-cases, Option-cases,
}
use deterministic_agent_runt.Base.Dict.{lookup, erase, lookup-erase}
use deterministic_agent_runt.Tools.{ToolManager, remove_entry, from_provider, remove_owned}
use deterministic_agent_runt.Tools.Index.{same_text}
use deterministic_agent_runt.Tools.Providers.{
  capabilities_of, is_provider, remove_first, unregister_provider,
}

abbrev pub listed : String → List String → Bool
listed id ids = any (λ other. other == id) ids

-- every entry that comes from the provider is among the ids
abbrev pub Within : ℕ → List String → ToolManager → Type 0
Within p ids m =
    (id : String) → from_provider p (lookup id m.registry) ≡ true → listed id ids ≡ true

-- what the manager records of a provider has all its entries
abbrev pub Recorded : ℕ → ToolManager → Type 0
Recorded p m = Within p (capabilities_of p m) m

-- an entry's removal, beside the index
remove_entry-fields :
    (id : String) (m : ToolManager)
    → ((remove_entry id m).registry ≡ erase id m.registry)
      × ((remove_entry id m).providers ≡ m.providers)
unfolding remove_entry
remove_entry-fields id m = elim (Option-cases (lookup id m.registry)) [
  | inl absent ↦ rw absent (refl, refl)
  | inr (e, there) ↦ elim (Option-cases e.held) [
    | inl none_held ↦ rw (there, none_held) (refl, refl)
    | inr (t, held) ↦ rw (there, held) (refl, refl)
  ]
]

pub remove_owned-providers :
    (p : ℕ) (ids : List String) (m : ToolManager) → (remove_owned p ids m).providers ≡ m.providers
unfolding remove_owned
remove_owned-providers p [] m = refl
remove_owned-providers p (id ∷ ids) m = elim (Bool-cases (from_provider p (lookup id m.registry))) [
  | inl owned ↦
      rw (owned, remove_owned)
        (remove_owned-providers p ids (remove_entry id m) ∙ (remove_entry-fields id m).1)
  | inr other ↦ rw (other, remove_owned) (remove_owned-providers p ids m)
]

-- what is left from the provider once ids are removed was there before and is none of them
pub remove_owned-left :
    (p : ℕ) (ids : List String) (m : ToolManager) (id : String)
    → from_provider p (lookup id (remove_owned p ids m).registry) ≡ true
    → (from_provider p (lookup id m.registry) ≡ true) × (listed id ids ≡ false)
unfolding remove_owned
remove_owned-left p [] m id h = (h, refl)
remove_owned-left p (i ∷ ids) m id h = elim (Bool-cases (from_provider p (lookup i m.registry))) [
  | inl owned ↦
      let (there, unlisted) =
        remove_owned-left p ids (remove_entry i m) id (rw (owned, remove_owned) at h) in
      let found = ap (lookup id) (remove_entry-fields i m).0 ∙ lookup-erase i id m.registry in
      elim (Bool-cases (i == id)) [
        | inl same ↦ cc (sym (ap (from_provider p) (rw same at found)) ∙ there)
        | inr apart ↦ (sym (ap (from_provider p) (rw apart at found)) ∙ there, rw apart unlisted)
      ]
  | inr other ↦
      let (there, unlisted) = remove_owned-left p ids m id (rw (other, remove_owned) at h) in
      elim (Bool-cases (i == id)) [
        | inl same ↦ cc (
            sym other
            ∙ ap (λ (t : String). from_provider p (lookup t m.registry)) (same_text i id same)
            ∙ there)
        | inr apart ↦ (there, rw apart unlisted)
      ]
]

-- A provider of which every entry is recorded leaves no entry behind when it is unregistered.
pub unregister_provider-clears :
    (p : ℕ) (m : ToolManager)
    → Recorded p m
    → is_provider p m ≡ true
    → (id : String) → from_provider p (lookup id (unregister_provider p m).0.registry) ≡ false
unfolding unregister_provider
unregister_provider-clears p m recorded known id =
    let gone : ToolManager = record m { providers = remove_first p m.providers } in
    elim (Bool-cases
      (from_provider p (lookup id (remove_owned p (capabilities_of p m) gone).registry))) [
        | inl left ↦
            let (there, unlisted) = remove_owned-left p (capabilities_of p m) gone id left in
            cc (sym (recorded id there) ∙ unlisted)
        | inr clear ↦ rw known clear
      ]
