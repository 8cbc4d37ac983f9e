-- ===== src/Hook.antt =====
-- The merging of the patches of hooks: `merge_patches` of dare_framework/hook/_internal/patch_validator.py.
-- A patch is a dict of fields; `same` is the test `==` on their values.
pub mod Emit
pub mod Arbiter
pub mod Decisions
pub mod Runs
mod Tests
use deterministic_agent_runt.Base.{
  String, Bool, true, false, not, Option, none, some, List, [], ◌∷◌, ◌==◌, ◌≡◌, ◌↔◌, refl, inl, inr,
  ◌⊎◌, arith, any, if◌then◌else◌, Bool-cases, Option-cases, eq_iff,
}
use mathlib.Core.List.Memᴰ.{Memᴰ, head, tail}
use deterministic_agent_runt.Base.Dict.{Dict, lookup, insert, lookup-insert}

-- `PatchValidationResult`
pub data Merged (A : Type 0) : Type 0 where
  merged : Dict A → Merged A
  not_allowlisted : String → Merged A
  conflicting : String → Merged A

module _ {A : Type 0} (same : A → A → Bool) (allowlist : List String) where
  -- `key in merged and merged[key] != value`
  abbrev pub conflicts : Option A → A → Bool
  conflicts none v = false
  conflicts (some w) v = not (same w v)

  abbrev pub allowed_key : String → Bool
  allowed_key k = any (λ j. j == k) allowlist

  -- the inner loop, over the items of a patch
  unfoldable pub merge_fields : Dict A → Dict A → Merged A
  merge_fields [] sofar = merged sofar
  merge_fields ((k, v) ∷ fields) sofar =
      let rest = merge_fields fields (insert k v sofar) in
      if not (allowed_key k)
      then not_allowlisted k
      else if conflicts (lookup k sofar) v
      then conflicting k
      else rest

  -- the outer loop; a patch that is `None` or empty is passed over
  unfoldable pub merge_from : List (Option (Dict A)) → Dict A → Merged A
  unfolding merge_fields
  merge_from [] sofar = merged sofar
  merge_from (none ∷ patches) sofar = merge_from patches sofar
  merge_from (some p ∷ patches) sofar = elim (merge_fields p sofar) [
    | merged sofar' ↦ merge_from patches sofar'
    | not_allowlisted k ↦ not_allowlisted k
    | conflicting k ↦ conflicting k
  ]

  unfoldable pub merge_patches : List (Option (Dict A)) → Merged A
  unfolding merge_from
  merge_patches patches = merge_from patches []

  -- Every field of a patch is allowlisted and has the value that the merged patch has.
  abbrev pub Keeps : Dict A → Dict A → Type 0
  Keeps n [] = Unit
  Keeps n ((k, v) ∷ fields) = (allowed_key k ≡ true) × (lookup k n ≡ some v) × Keeps n fields

  abbrev pub KeepsAll : Dict A → List (Option (Dict A)) → Type 0
  KeepsAll n [] = Unit
  KeepsAll n (none ∷ patches) = KeepsAll n patches
  KeepsAll n (some p ∷ patches) = Keeps n p × KeepsAll n patches

  -- what is merged already stays
  abbrev pub Extends : Dict A → Dict A → Type 0
  Extends m n = (k : String) (v : A) → lookup k m ≡ some v → lookup k n ≡ some v

  module _ (same_iff : (a b : A) → (same a b ≡ true) ↔ (a ≡ b)) where
    insert-Extends :
        (k : String) (v : A) (m : Dict A)
        → conflicts (lookup k m) v ≡ false
        → Extends m (insert k v m)
    insert-Extends k v m c j w h = elim (Option-cases (lookup k m)) [
      | inl e ↦ ground (arith, lookup-insert k j v m, eq_iff k j, e)
      | inr (u, e) ↦ ground (arith, lookup-insert k j v m, eq_iff k j, e, same_iff u v)
    ]

    merge_fields-Keeps :
        (fields m n : Dict A) → merge_fields fields m ≡ merged n → Extends m n × Keeps n fields
    unfolding merge_fields
    merge_fields-Keeps [] m n h = (λ k v e. cc, tt)
    merge_fields-Keeps ((k, v) ∷ fields) m n h = elim (Bool-cases (allowed_key k)) [
      | inr e ↦ absurd (ground (arith, e))
      | inl e ↦ elim (Bool-cases (conflicts (lookup k m) v)) [
        | inl c ↦ absurd (ground (arith, e, c))
        | inr c ↦
            let (ext, rest) = merge_fields-Keeps fields (insert k v m) n (ground (arith, e, c)) in
            let put : lookup k n ≡ some v =
              ext k v (ground (arith, lookup-insert k k v m, eq_iff k k)) in
            ((λ j w g. ext j w (insert-Extends k v m c j w g)), (e, put, rest))
      ]
    ]

    Keeps-Extends : (fields m n : Dict A) → Extends m n → Keeps m fields → Keeps n fields
    Keeps-Extends [] m n ext h = tt
    Keeps-Extends ((k, v) ∷ fields) m n ext (allowed, put, rest) =
        (allowed, ext k v put, Keeps-Extends fields m n ext rest)

    merge_from-KeepsAll :
        (patches : List (Option (Dict A))) (m n : Dict A)
        → merge_from patches m ≡ merged n
        → Extends m n × KeepsAll n patches
    unfolding merge_from
    merge_from-KeepsAll [] m n h = (λ k v e. cc, tt)
    merge_from-KeepsAll (none ∷ patches) m n h = merge_from-KeepsAll patches m n h
    merge_from-KeepsAll (some p ∷ patches) m n h =
        after (λ sofar. merge_from-KeepsAll patches sofar n) (merge_fields p m) refl h
      where
        after :
            ((sofar : Dict A)
              → merge_from patches sofar ≡ merged n
              → Extends sofar n × KeepsAll n patches)
            → (o : Merged A) → merge_fields p m ≡ o
            → (elim o [
              | merged sofar ↦ merge_from patches sofar
              | not_allowlisted k ↦ not_allowlisted k
              | conflicting k ↦ conflicting k
            ])
              ≡ merged n
            → Extends m n × KeepsAll n (some p ∷ patches)
        after later (merged sofar) e g =
            let (ext, kept) = merge_fields-Keeps p m sofar e in
            let (ext', all) = later sofar g in
            ((λ k v q. ext' k v (ext k v q)), (Keeps-Extends p sofar n ext' kept, all))
        after later (not_allowlisted k) e g = cc
        after later (conflicting k) e g = cc

    -- If merging succeeds, then no field was lost or overruled: every field of every patch is
    -- allowlisted, and the merged patch has the value that the field asks for. This supposes that
    -- two values are equal for the test exactly if they are the same.
    pub merge_patches-KeepsAll :
        (patches : List (Option (Dict A))) (n : Dict A)
        → merge_patches patches ≡ merged n
        → KeepsAll n patches
    unfolding merge_patches
    merge_patches-KeepsAll patches n h = (merge_from-KeepsAll patches [] n h).1
