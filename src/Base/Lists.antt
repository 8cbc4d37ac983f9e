-- ===== src/Base/Lists.antt =====
-- Lists measured by native numbers, Boolean filters and searches that run, and predicates on lists
-- by recursion.
use Prim.Native.Nat.{ℕ, zero, suc, ◌+◌, ◌≤◌}
use mathlib.Core.Path.{◌≡◌, refl, sym, ap}
use mathlib.Core.Logic.{inl, inr}
use mathlib.Core.Bool.{Bool, true, false, ◌||◌}
use mathlib.Core.List.{List, [], ◌∷◌, ◌++◌}
use mathlib.Core.List.Memᴰ.{Memᴰ, head, tail, not-nil, cases_cons}
use mathlib.Core.Option.{Option, none, some, some-injective}
use native.Mathlib.Omega.{arith}
use deterministic_agent_runt.Base.Tests.{if◌then◌else◌, Bool-cases}

module _ {ℓ} {A : Type ℓ} where
  abbrev pub length : List A → ℕ
  length [] = 0
  length (x ∷ xs) = suc (length xs)

  abbrev pub keep : (A → Bool) → List A → List A
  keep p [] = []
  keep p (x ∷ xs) = if p x then x ∷ keep p xs else keep p xs

  -- the first element that passes
  abbrev pub first : (A → Bool) → List A → Option A
  first p [] = none
  first p (x ∷ xs) = if p x then some x else first p xs

  abbrev pub take : ℕ → List A → List A
  take zero xs = []
  take (suc n) [] = []
  take (suc n) (x ∷ xs) = x ∷ take n xs

  abbrev pub any : (A → Bool) → List A → Bool
  any p [] = false
  any p (x ∷ xs) = p x || any p xs

  abbrev pub All {κ} : (A → Type κ) → List A → Type κ
  All P [] = Unit
  All P (x ∷ xs) = P x × All P xs

  pub length-append : (xs ys : List A) → length (xs ++ ys) ≡ length xs + length ys
  length-append [] ys = omega arith
  length-append (x ∷ xs) ys = omega (arith, length-append xs ys)

  pub All-append {κ} : (P : A → Type κ) (xs ys : List A) → All P xs → All P ys → All P (xs ++ ys)
  All-append P [] ys h k = k
  All-append P (x ∷ xs) ys h k = (h.0, All-append P xs ys h.1 k)

module _ {ℓ} {A : Type ℓ} where
  pub All-mem {κ} : (P : A → Type κ) {a : A} {xs : List A} → Memᴰ a xs → All P xs → P a
  All-mem P (head e) h = rw e h.0
  All-mem P (tail m) h = All-mem P m h.1

  pub mem-keep : (p : A → Bool) (a : A) (xs : List A) → Memᴰ a xs → p a ≡ true → Memᴰ a (keep p xs)
  mem-keep p a [] m h = absurd (not-nil m)
  mem-keep p a (x ∷ xs) (head e) h = rw (← e, h) (head refl)
  mem-keep p a (x ∷ xs) (tail m) h = elim (Bool-cases (p x)) [
    | inl e ↦ rw e (tail (mem-keep p a xs m h))
    | inr e ↦ rw e (mem-keep p a xs m h)
  ]

  pub keep-mem :
      (p : A → Bool) (a : A) (xs : List A) → Memᴰ a (keep p xs) → Memᴰ a xs × (p a ≡ true)
  keep-mem p a [] m = absurd (not-nil m)
  keep-mem p a (x ∷ xs) m = elim (Bool-cases (p x)) [
    | inl e ↦ elim (cases_cons (rw e at m)) [
      | inl q ↦ (head q, rw q e)
      | inr n ↦ let k = keep-mem p a xs n in (tail k.0, k.1)
    ]
    | inr e ↦ let k = keep-mem p a xs (rw e at m) in (tail k.0, k.1)
  ]

  pub first-mem :
      (p : A → Bool) {a : A} (xs : List A) → first p xs ≡ some a → Memᴰ a xs × (p a ≡ true)
  first-mem p [] h = cc
  first-mem p (x ∷ xs) h = elim (Bool-cases (p x)) [
    | inl e ↦ let q = some-injective _ _ (rw e at h) in (head (sym q), rw (← q) e)
    | inr e ↦ let r = first-mem p xs (rw e at h) in (tail r.0, r.1)
  ]

  pub first-none :
      (p : A → Bool) (a : A) (xs : List A) → first p xs ≡ none → Memᴰ a xs → p a ≡ false
  first-none p a [] h m = absurd (not-nil m)
  first-none p a (x ∷ xs) h (head e) = ground (arith, ap p e)
  first-none p a (x ∷ xs) h (tail m) = elim (Bool-cases (p x)) [
    | inl e ↦ cc (rw e at h)
    | inr e ↦ first-none p a xs (rw e at h) m
  ]

  pub length-take-le : (n : ℕ) (xs : List A) → length (take n xs) ≤ n
  length-take-le zero xs = omega arith
  length-take-le (suc n) [] = omega arith
  length-take-le (suc n) (x ∷ xs) = omega (arith, length-take-le n xs)

  pub take-mem : (n : ℕ) (a : A) (xs : List A) → Memᴰ a (take n xs) → Memᴰ a xs
  take-mem zero a xs m = absurd (not-nil m)
  take-mem (suc n) a [] m = absurd (not-nil m)
  take-mem (suc n) a (x ∷ xs) m = elim (cases_cons m) [
    | inl e ↦ head e
    | inr t ↦ tail (take-mem n a xs t)
  ]

  pub keep-append : (p : A → Bool) (xs ys : List A) → keep p (xs ++ ys) ≡ keep p xs ++ keep p ys
  keep-append p [] ys = refl
  keep-append p (x ∷ xs) ys = elim (Bool-cases (p x)) [
    | inl e ↦ rw e (ap (λ (t : List A). x ∷ t) (keep-append p xs ys))
    | inr e ↦ rw e (keep-append p xs ys)
  ]
