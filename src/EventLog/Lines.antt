-- ===== src/EventLog/Lines.antt =====
-- The first line of a text, as the hashed text of an event has its fields in lines
-- (dare_framework/event/_internal/sqlite_event_log.py).
use Prim.Native.String.{◌++◌ as append_text}
use Prim.Native.Char.{Char, code}
use text.Mathlib.TextLemmas.{cons-append, nil-append, head-eq_of_cons-eq, tail-eq_of_cons-eq}
use deterministic_agent_runt.Base.{String, ◌≡◌, refl, sym, ap, ◌∙◌, eqb, false}
use deterministic_agent_runt.EventLog.{◌⏎◌}

-- a text with no line break
abbrev pub OneLine : String → Type 0
OneLine String.[] = Unit
OneLine (String.◌∷◌ c s) = (eqb (code c) 10 ≡ false) × OneLine s

abbrev line_break : Char
line_break = "\n"

line_break_differs : (c : Char) → c ≡ line_break → eqb (code c) 10 ≡ false → ⊥
line_break_differs c e h = cc (sym (ap (λ d. eqb (code d) 10) e) ∙ h)

empty_line : (s : String) → String.[] ⏎ s ≡ String.◌∷◌ line_break s
empty_line s =
    nil-append (append_text "\n" s)
    ∙ cons-append line_break String.[] s
    ∙ ap (String.◌∷◌ line_break) (nil-append s)

cons_line : (c : Char) (a s : String) → String.◌∷◌ c a ⏎ s ≡ String.◌∷◌ c (a ⏎ s)
cons_line c a s = cons-append c a (append_text "\n" s)

-- two texts before the first line break, and what follows it
pub split_line : (a b s t : String) → OneLine a → OneLine b → a ⏎ s ≡ b ⏎ t → (a ≡ b) × (s ≡ t)
split_line String.[] String.[] s t p q e =
    (refl, tail-eq_of_cons-eq {xs = s} {ys = t} (sym (empty_line s) ∙ e ∙ empty_line t))
split_line String.[] (String.◌∷◌ c b) s t p q e =
    let first = head-eq_of_cons-eq (sym (empty_line s) ∙ e ∙ cons_line c b t) in
    absurd (line_break_differs c (sym first) q.0)
split_line (String.◌∷◌ c a) String.[] s t p q e =
    let first = head-eq_of_cons-eq (sym (cons_line c a s) ∙ e ∙ empty_line t) in
    absurd (line_break_differs c first p.0)
split_line (String.◌∷◌ c a) (String.◌∷◌ d b) s t p q e =
    let whole = sym (cons_line c a s) ∙ e ∙ cons_line d b t in
    let first = head-eq_of_cons-eq whole in
    let (same, rest) = split_line a b s t p.1 q.1 (tail-eq_of_cons-eq whole) in
    (λ i. String.◌∷◌ (first i) (same i), rest)
