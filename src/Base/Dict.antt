-- ===== src/Base/Dict.antt =====
-- A Python dict keyed by texts, in insertion order: `get`, `in`, `d[k] = v`, `pop`.
use native.Mathlib.Omega.{arith}
use text.Mathlib.TextEquality.{eq_iff}
use deterministic_agent_runt.Base.Tests.{◌==◌, if◌then◌else◌}
use Prim.Native.String.{String}
use mathlib.Core.Option.{Option, none, some}
use mathlib.Core.Path.{◌≡◌, refl}
use mathlib.Core.List.{List, [], ◌∷◌}

abbrev pub Dict {ℓ} : Type ℓ → Type ℓ
Dict A = List (String × A)

module _ {ℓ} {A : Type ℓ} where
  abbrev pub values : Dict A → List A
  values [] = []
  values ((_, held) ∷ rest) = held ∷ values rest

  -- `pop` drops the key; keys are unique in a Python dict, so all its entries go
  unfoldable pub erase : String → Dict A → Dict A
  erase gone [] = []
  erase gone ((name, held) ∷ rest) =
      if name == gone then erase gone rest else (name, held) ∷ erase gone rest

  unfoldable pub lookup : String → Dict A → Option A
  lookup sought [] = none
  lookup sought ((name, held) ∷ rest) = if name == sought then some held else lookup sought rest

  -- an assignment to a key that is there keeps its place
  unfoldable pub insert : String → A → Dict A → Dict A
  insert wanted new [] = (wanted, new) ∷ []
  insert wanted new ((name, held) ∷ rest) =
      if name == wanted then (name, new) ∷ rest else (name, held) ∷ insert wanted new rest

  pub lookup-erase :
      (gone sought : String) (entries : Dict A)
      → lookup sought (erase gone entries)
        ≡ (if gone == sought then none else lookup sought entries)
  unfolding erase lookup
  lookup-erase gone sought [] = ground arith
  lookup-erase gone sought ((name, held) ∷ rest) = ground (
    arith,
    lookup-erase gone sought rest,
    eq_iff name gone,
    eq_iff name sought,
    eq_iff gone sought,
  )

  pub lookup-insert :
      (wanted sought : String) (new : A) (entries : Dict A)
      → lookup sought (insert wanted new entries)
        ≡ (if wanted == sought then some new else lookup sought entries)
  unfolding insert lookup
  lookup-insert wanted sought new [] = refl
  lookup-insert wanted sought new ((name, held) ∷ rest) = ground (
    arith,
    lookup-insert wanted sought new rest,
    eq_iff name wanted,
    eq_iff name sought,
    eq_iff wanted sought,
  )
