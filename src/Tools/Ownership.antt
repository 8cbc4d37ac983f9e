-- ===== src/Tools/Ownership.antt =====
-- What a provider brings goes with it (dare_framework/tool/tool_manager.py).
use mathlib.Core.Path.{subst}
use deterministic_agent_runt.Base.{
  ℕ, String, true, false, is_some, List, [], ◌∷◌, ◌++◌, ◌≡◌, ◌⊎◌, inl, inr, refl, ap, ◌∙◌, arith,
  any, eqb, Bool-cases, Option-cases,
}
use deterministic_agent_runt.Base.Dict.{lookup}
use deterministic_agent_runt.Tools.{
  Tool, ToolManager, Answer, answered, value_error, key_error, truthy_id, from_provider,
}
use deterministic_agent_runt.Tools.Providers.{
  and_then, capabilities_of, is_provider, minus, drop_missing, unregister_provider,
  register_provider_tool, register_listed, sync_provider_tools, add_provider, register_provider,
}
use deterministic_agent_runt.Tools.Removal.{
  listed, Recorded, remove_owned-providers, remove_owned-left, unregister_provider-clears,
}
use deterministic_agent_runt.Tools.Arrivals.{Brings, extended, register_listed-Brings, minus-listed}

module _ (tool_of : ℕ → Tool) where
  -- the end of a synchronisation that does not fail
  abbrev Synced : ℕ → ToolManager × Answer (Unit {0}) → Type 0
  Synced p (m, answered _) = Recorded p m
  Synced p (m, value_error e) = Unit
  Synced p (m, key_error e) = Unit

  drop_missing-Recorded :
      (p : ℕ) (existing incoming : List String) (m : ToolManager)
      → ((id : String)
          → from_provider p (lookup id m.registry) ≡ true
          → (listed id incoming ≡ true) ⊎ (listed id existing ≡ true))
      → Recorded p (drop_missing p existing incoming m).0
  drop_missing-Recorded p existing incoming m covered id h =
      let (there, gone) = remove_owned-left p (minus existing incoming) m id h in
      let now : listed id incoming ≡ true = elim (covered id there) [
        | inl l ↦ l
        | inr l ↦ minus-listed tool_of existing incoming id l gone
      ] in
      ground (arith, now)

  sync_provider_tools-Synced :
      (p : ℕ) (ts : List ℕ) (m : ToolManager)
      → Recorded p m
      → Synced p (sync_provider_tools tool_of p ts m)
  unfolding sync_provider_tools
  sync_provider_tools-Synced p ts m recorded =
      ends (register_listed tool_of p ts [] m) (register_listed-Brings tool_of p ts [] m)
    where
      ends :
          (r : ToolManager × Answer (List String))
          → Brings tool_of p m [] r
          → Synced p (and_then r (drop_missing p (capabilities_of p m)))
      ends (m', answered incoming) (keeps, brings) =
          drop_missing-Recorded p (capabilities_of p m) incoming m'
            (λ id h. elim (brings id h) [ inl l ↦ inl l | inr before ↦ inr (recorded id before) ])
      ends (m', value_error e) brings = tt
      ends (m', key_error e) brings = tt

  register_provider_tool-providers :
      (p t : ℕ) (m : ToolManager) → (register_provider_tool tool_of p t m).0.providers ≡ m.providers
  unfolding register_provider_tool
  register_provider_tool-providers p t m =
      elim (Option-cases (truthy_id (m.tool_index_by_object t))) [
        | inr (id, known) ↦ rw known refl
        | inl fresh ↦ elim (Bool-cases (is_some (lookup (tool_of t).name m.registry))) [
          | inl taken ↦ rw (fresh, taken) refl
          | inr free ↦ rw (fresh, free) refl
        ]
      ]

  and_then-providers {ℓ κ} :
      {A : Type ℓ} {B : Type κ} (ps : List ℕ) (r : ToolManager × Answer A)
      (next : A → ToolManager → ToolManager × Answer B)
      → r.0.providers ≡ ps
      → ((a : A) (m : ToolManager) → m.providers ≡ ps → (next a m).0.providers ≡ ps)
      → (and_then r next).0.providers ≡ ps
  and_then-providers ps (m, answered a) next same later = later a m same
  and_then-providers ps (m, value_error e) next same later = same
  and_then-providers ps (m, key_error e) next same later = same

  register_listed-providers :
      (p : ℕ) (ts : List ℕ) (incoming : List String) (m : ToolManager)
      → (register_listed tool_of p ts incoming m).0.providers ≡ m.providers
  unfolding register_listed
  register_listed-providers p [] incoming m = refl
  register_listed-providers p (t ∷ ts) incoming m =
      and_then-providers m.providers (register_provider_tool tool_of p t m) _
        (register_provider_tool-providers p t m)
        (λ id m' same. register_listed-providers p ts (extended tool_of p id incoming m') m' ∙ same)

  sync_provider_tools-providers :
      (p : ℕ) (ts : List ℕ) (m : ToolManager)
      → (sync_provider_tools tool_of p ts m).0.providers ≡ m.providers
  unfolding sync_provider_tools
  sync_provider_tools-providers p ts m =
      and_then-providers m.providers (register_listed tool_of p ts [] m) _
        (register_listed-providers p ts [] m)
        (λ incoming m' same.
          remove_owned-providers p (minus (capabilities_of p m) incoming) m' ∙ same)

  added_is_provider : (p : ℕ) (ps : List ℕ) → any (λ q. eqb q p) (ps ++ (p ∷ [])) ≡ true
  added_is_provider p [] = ground arith
  added_is_provider p (q ∷ qs) = ground (arith, added_is_provider p qs)

  -- a provider that is listed and all of whose entries are recorded
  abbrev Registered : ℕ → ToolManager × Answer (Unit {0}) → Type 0
  Registered p (m, answered _) = Recorded p m × (is_provider p m ≡ true)
  Registered p (m, value_error e) = Unit
  Registered p (m, key_error e) = Unit

  register_provider-Registered :
      (p : ℕ) (ts : List ℕ) (m : ToolManager)
      → Recorded p m
      → Registered p (register_provider tool_of p ts m)
  unfolding register_provider
  register_provider-Registered p ts m recorded = elim (Bool-cases (is_provider p m)) [
    | inl known ↦ rw known (recorded, known)
    | inr fresh ↦ rw fresh (
        both (sync_provider_tools tool_of p ts (add_provider tool_of p m))
          (sync_provider_tools-Synced p ts (add_provider tool_of p m)
            (λ id h. ground (arith, recorded id h)))
          (ap (any (λ q. eqb q p)) (sync_provider_tools-providers p ts (add_provider tool_of p m))
            ∙ added_is_provider p m.providers))
  ]
    where
      both :
          (r : ToolManager × Answer (Unit {0}))
          → Synced p r
          → is_provider p r.0 ≡ true
          → Registered p r
      both (m', answered _) synced known = (synced, known)
      both (m', value_error e) synced known = tt
      both (m', key_error e) synced known = tt

  -- A provider whose registration succeeds leaves no entry behind when it is unregistered after it, if
  -- before it every entry of the provider was recorded.
  pub unregister_provider-register_provider :
      (p : ℕ) (ts : List ℕ) (m m' : ToolManager)
      → Recorded p m
      → register_provider tool_of p ts m ≡ (m', answered tt)
      → (id : String) → from_provider p (lookup id (unregister_provider p m').0.registry) ≡ false
  unregister_provider-register_provider p ts m m' recorded h id =
      let (all, known) = subst (Registered p) h (register_provider-Registered p ts m recorded) in
      unregister_provider-clears p m' all known id
