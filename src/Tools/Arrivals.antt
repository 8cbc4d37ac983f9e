-- ===== src/Tools/Arrivals.antt =====
-- The entries that a provider's tools bring (dare_framework/tool/tool_manager.py).
use deterministic_agent_runt.Base.{
  ℕ, String, true, false, is_some, List, [], ◌∷◌, ◌≡◌, ◌⊎◌, inl, inr, sym, ap, ◌∙◌, arith, ◌==◌,
  if◌then◌else◌, Bool-cases, Option-cases, eq_iff,
}
use deterministic_agent_runt.Base.Dict.{lookup, lookup-insert}
use deterministic_agent_runt.Tools.{
  Tool, provided_by, ToolManager, Answer, answered, value_error, key_error, truthy_id,
  from_provider, new_entry, add_entry,
}
use deterministic_agent_runt.Tools.Index.{same_text}
use deterministic_agent_runt.Tools.Providers.{
  and_then, minus, register_provider_tool, register_listed,
}
use deterministic_agent_runt.Tools.Removal.{listed}

module _ (tool_of : ℕ → Tool) where
  -- an entry under an id that was free
  added_entry :
      (p t : ℕ) (m : ToolManager) (id : String)
      → from_provider p (lookup id (add_entry tool_of (provided_by p) t m).registry) ≡ true
      → ((tool_of t).name ≡ id) ⊎ (from_provider p (lookup id m.registry) ≡ true)
  added_entry p t m id h =
      let found =
        lookup-insert (tool_of t).name id (new_entry tool_of (provided_by p) t) m.registry in
      elim (Bool-cases ((tool_of t).name == id)) [
        | inl same ↦ inl (same_text (tool_of t).name id same)
        | inr apart ↦ inr (sym (ap (from_provider p) (rw apart at found)) ∙ h)
      ]

  -- what a registration of a provider's tool adds is under the id that it answers
  abbrev Adds : ℕ → ToolManager → ToolManager × Answer String → Type 0
  Adds p m (m', answered id') =
      (id : String)
      → from_provider p (lookup id m'.registry) ≡ true
      → (id' ≡ id) ⊎ (from_provider p (lookup id m.registry) ≡ true)
  Adds p m (m', value_error e) = Unit
  Adds p m (m', key_error e) = Unit

  register_provider_tool-Adds :
      (p t : ℕ) (m : ToolManager) → Adds p m (register_provider_tool tool_of p t m)
  unfolding register_provider_tool
  register_provider_tool-Adds p t m = elim (Option-cases (truthy_id (m.tool_index_by_object t))) [
    | inr (id, known) ↦ rw known (λ id h. inr h)
    | inl fresh ↦ elim (Bool-cases (is_some (lookup (tool_of t).name m.registry))) [
      | inl taken ↦ rw (fresh, taken) tt
      | inr free ↦ rw (fresh, free) (added_entry p t m)
    ]
  ]

  -- what the loop over the listed tools adds is among the ids that it answers
  abbrev pub Brings : ℕ → ToolManager → List String → ToolManager × Answer (List String) → Type 0
  Brings p m incoming (m', answered incoming') =
      ((id : String) → listed id incoming ≡ true → listed id incoming' ≡ true)
      × ((id : String)
          → from_provider p (lookup id m'.registry) ≡ true
          → (listed id incoming' ≡ true) ⊎ (from_provider p (lookup id m.registry) ≡ true))
  Brings p m incoming (m', value_error e) = Unit
  Brings p m incoming (m', key_error e) = Unit

  -- the ids that have come in after one more tool
  abbrev pub extended : ℕ → String → List String → ToolManager → List String
  extended p id incoming m =
      if from_provider p (lookup id m.registry) then id ∷ incoming else incoming

  came_in :
      (p : ℕ) (id : String) (incoming : List String) (m : ToolManager)
      → from_provider p (lookup id m.registry) ≡ true
      → listed id (extended p id incoming m) ≡ true
  came_in p id incoming m h = rw h (ground (arith, eq_iff id id))

  still_in :
      (p : ℕ) (id id' : String) (incoming : List String) (m : ToolManager)
      → listed id incoming ≡ true
      → listed id (extended p id' incoming m) ≡ true
  still_in p id id' incoming m h = elim (Bool-cases (from_provider p (lookup id' m.registry))) [
    | inl e ↦ rw e (ground (arith, h))
    | inr e ↦ rw e h
  ]

  Brings-step :
      (p : ℕ) (m m' : ToolManager) (id' : String) (incoming : List String)
      (r : ToolManager × Answer (List String))
      → Adds p m (m', answered id')
      → Brings p m' (extended p id' incoming m') r
      → Brings p m incoming r
  Brings-step p m m' id' incoming (n, value_error e) adds brings = tt
  Brings-step p m m' id' incoming (n, key_error e) adds brings = tt
  Brings-step p m m' id' incoming (n, answered last) adds (keeps, brings) = (
    λ id h. keeps id (still_in p id id' incoming m' h),
    λ id h. elim (brings id h) [
      | inl l ↦ inl l
      | inr from ↦ elim (adds id from) [
        | inl same ↦ inl (keeps id (rw same (came_in p id incoming m' from)))
        | inr before ↦ inr before
      ]
    ],
  )

  pub register_listed-Brings :
      (p : ℕ) (ts : List ℕ) (incoming : List String) (m : ToolManager)
      → Brings p m incoming (register_listed tool_of p ts incoming m)
  unfolding register_listed
  register_listed-Brings p [] incoming m = (λ id h. h, λ id h. inr h)
  register_listed-Brings p (t ∷ ts) incoming m =
      onwards (register_provider_tool tool_of p t m) (register_provider_tool-Adds p t m)
        (λ incoming' m'. register_listed-Brings p ts incoming' m')
    where
      onwards :
          (r : ToolManager × Answer String)
          → Adds p m r
          → ((incoming' : List String) (m' : ToolManager)
              → Brings p m' incoming' (register_listed tool_of p ts incoming' m'))
          → Brings p m incoming
              (and_then r (λ id m'. register_listed tool_of p ts (extended p id incoming m') m'))
      onwards (m', answered id) adds later =
          Brings-step p m m' id incoming
            (register_listed tool_of p ts (extended p id incoming m') m') adds
            (later (extended p id incoming m') m')
      onwards (m', value_error e) adds later = tt
      onwards (m', key_error e) adds later = tt

  pub minus-listed :
      (ids others : List String) (id : String)
      → listed id ids ≡ true
      → listed id (minus ids others) ≡ false
      → listed id others ≡ true
  minus-listed [] others id h gone = cc h
  minus-listed (i ∷ ids) others id h gone = elim (Bool-cases (listed i others)) [
    | inl covered ↦ elim (Bool-cases (i == id)) [
      | inl same ↦ rw (← same_text i id same) covered
      | inr apart ↦ minus-listed ids others id (rw apart at h) (rw covered at gone)
    ]
    | inr open_id ↦ elim (Bool-cases (i == id)) [
      | inl same ↦ cc (rw (open_id, same) at gone)
      | inr apart ↦ minus-listed ids others id (rw apart at h) (rw (open_id, apart) at gone)
    ]
  ]
