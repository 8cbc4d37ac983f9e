-- ===== src/Base/Lower.antt =====
-- Python's `str.lower`, as far as a comparison with a text of small ASCII letters sees it: the
-- characters whose lower case is one ASCII letter are A to Z and the KELVIN SIGN, U+212A.
use Prim.Native.Char.{Char, code}
use Prim.Native.String.{String}
use mathlib.Core.Path.{◌≡◌, refl, ap}
use mathlib.Core.Logic.{◌⊎◌, inl, inr}
use deterministic_agent_runt.Base.Tests.{Bool-cases, eqb, if◌then◌else◌}

-- a character by its place in the first text, as the character there in the second
abbrev pub lower_from : String → String → Char → Char
lower_from (String.◌∷◌ u us) (String.◌∷◌ l ls) c =
    let later = lower_from us ls c in if eqb (code c) (code u) then l else later
lower_from _ _ c = c

abbrev capitals : String
capitals = "ABCDEFGHIJKLMNOPQRSTUVWXYZK"

abbrev small_letters : String
small_letters = "abcdefghijklmnopqrstuvwxyzk"

unfoldable pub lower_char : Char → Char
lower_char c = lower_from capitals small_letters c

unfoldable pub lower : String → String
unfolding lower_char
lower String.[] = String.[]
lower (String.◌∷◌ c s) = String.◌∷◌ (lower_char c) (lower s)

lower_block : lower "BloCK" ≡ "block"
unfolding lower
lower_block = refl

lower_kelvin : lower "ASK and blocK" ≡ "ask and block"
unfolding lower
lower_kelvin = refl

-- each character of a text is in lower case
abbrev IsLower : String → Type 0
IsLower String.[] = Unit
IsLower (String.◌∷◌ c s) = (lower_char c ≡ c) × IsLower s

small_letters-IsLower : IsLower small_letters
unfolding lower_char
small_letters-IsLower = (
  refl,
  (
    refl,
    (
      refl,
      (
        refl,
        (
          refl,
          (
            refl,
            (
              refl,
              (
                refl,
                (
                  refl,
                  (
                    refl,
                    (
                      refl,
                      (
                        refl,
                        (
                          refl,
                          (
                            refl,
                            (
                              refl,
                              (
                                refl,
                                (
                                  refl,
                                  (
                                    refl,
                                    (
                                      refl,
                                      (
                                        refl,
                                        (refl, (refl, (refl, (refl, (refl, (refl, (refl, tt))))))),
                                      ),
                                    ),
                                  ),
                                ),
                              ),
                            ),
                          ),
                        ),
                      ),
                    ),
                  ),
                ),
              ),
            ),
          ),
        ),
      ),
    ),
  ),
)

lower_from_cases :
    (us ls : String) (c : Char)
    → IsLower ls
    → (lower_from us ls c ≡ c) ⊎ (lower_char (lower_from us ls c) ≡ lower_from us ls c)
lower_from_cases String.[] String.[] c h = inl refl
lower_from_cases String.[] (String.◌∷◌ l ls) c h = inl refl
lower_from_cases (String.◌∷◌ u us) String.[] c h = inl refl
lower_from_cases (String.◌∷◌ u us) (String.◌∷◌ l ls) c h =
    elim (Bool-cases (eqb (code c) (code u))) [
      | inl e ↦ inr (rw e h.0)
      | inr e ↦ rw e (lower_from_cases us ls c h.1)
    ]

lower_char_idem : (c : Char) → lower_char (lower_char c) ≡ lower_char c
unfolding lower_char
lower_char_idem c = elim (lower_from_cases capitals small_letters c small_letters-IsLower) [
  | inl e ↦ ap lower_char e
  | inr e ↦ e
]

pub lower_idem : (s : String) → lower (lower s) ≡ lower s
unfolding lower
lower_idem String.[] = refl
lower_idem (String.◌∷◌ c s) = λ i. String.◌∷◌ (lower_char_idem c i) (lower_idem s i)
