-- ===== src/Compression/Bounds.antt =====
-- What `_compute_prune_result` and `prune` of dare_framework/compression/moving_compression.py leave.
use mathlib.Core.Option.{some-injective}
use mathlib.Core.List.{append_assoc}
use deterministic_agent_runt.Base.{
  ℕ, zero, suc, ◌≤◌, ◌<◌, false, Option, some, none, Option-cases, List, [], ◌∷◌, ◌++◌, length,
  length-append, ◌≡◌, refl, sym, ap, ◌∙◌, arith, ◌⊎◌, inl, inr, Bool-cases,
}
use deterministic_agent_runt.Context.Memory.{Message}
use deterministic_agent_runt.Compression.{
  estimate_tokens, split_messages_by_token_share, concat, Window, drop_oldest, exceeds, drop_chunks,
}
use deterministic_agent_runt.Compression.Split.{
  concat-split_messages_by_token_share, split_messages_by_token_share-Splits, split_one,
}

-- the messages of a window, the dropped ones first
abbrev pub contents : Window → List Message
contents w = w.dropped ++ w.kept

drop_oldest-contents :
    (chunks : List (List Message)) (w w' : Window)
    → concat chunks ≡ w.kept
    → drop_oldest chunks w ≡ some w'
    → contents w' ≡ contents w
drop_oldest-contents [] w w' all e = cc e
drop_oldest-contents (c ∷ []) w w' all e = cc e
drop_oldest-contents (c ∷ d ∷ cs) w w' all e =
    ap (λ (o : Option Window). elim o [ none ↦ contents w | some v ↦ contents v ]) (sym e)
    ∙ append_assoc w.dropped c (concat (d ∷ cs))
    ∙ ap (λ (l : List Message). w.dropped ++ l) all

-- the window fits the budget, or one message is left at most
abbrev pub Fitting : ℕ → Window → Type 0
Fitting budget w = (estimate_tokens w.kept ≤ budget) ⊎ (length w.kept ≤ 1)

not_exceeds :
    (budget parts : ℕ) (kept : List Message)
    → exceeds budget parts kept ≡ false
    → estimate_tokens kept ≤ budget
unfolding estimate_tokens
not_exceeds budget parts [] fits = omega arith
not_exceeds budget parts (m ∷ ms) fits = ground (arith, fits)

-- a round drops a chunk unless one message is left at most
no_chunk_to_drop :
    (parts : ℕ) (kept : List Message) (w : Window)
    → 2 ≤ parts
    → drop_oldest (split_messages_by_token_share kept parts) w ≡ none
    → length kept ≤ 1
no_chunk_to_drop parts [] w two e = omega arith
no_chunk_to_drop parts (m ∷ []) w two e = omega arith
no_chunk_to_drop parts (m ∷ n ∷ ms) w two e =
    let (c, cs, d, more, q) = split_messages_by_token_share-Splits m n ms parts two in
    cc (rw q at e)

drop_oldest_shortens :
    (parts : ℕ) (kept : List Message) (w w' : Window)
    → 2 ≤ parts
    → drop_oldest (split_messages_by_token_share kept parts) w ≡ some w'
    → length w'.kept < length kept
unfolding split_messages_by_token_share
drop_oldest_shortens parts [] w w' two e = cc e
drop_oldest_shortens parts (m ∷ []) w w' two e = cc (rw (split_one m parts) at e)
drop_oldest_shortens parts (m ∷ n ∷ ms) w w' two e =
    let (c, cs, d, more, q) = split_messages_by_token_share-Splits m n ms parts two in
    let there =
      ap length (sym (ap concat q) ∙ concat-split_messages_by_token_share (m ∷ n ∷ ms) parts) in
    let same = ap Window.kept (some-injective _ _ (rw q at e)) in
    rw (← same) (omega (arith, there, length-append cs (concat (d ∷ more))))

module _ (budget parts : ℕ) where
  -- what a round comes to
  round_cases :
      (fuel : ℕ) (w : Window)
      → ((exceeds budget parts w.kept ≡ false) × (drop_chunks budget parts (suc fuel) w ≡ w))
        ⊎ ((drop_oldest (split_messages_by_token_share w.kept parts) w ≡ none)
            × (drop_chunks budget parts (suc fuel) w ≡ w))
        ⊎ ((w' : Window) × (drop_oldest (split_messages_by_token_share w.kept parts) w ≡ some w')
            × (drop_chunks budget parts (suc fuel) w ≡ drop_chunks budget parts fuel w'))
  unfolding drop_chunks
  round_cases fuel w = elim (Bool-cases (exceeds budget parts w.kept)) [
    | inl over ↦ elim (Option-cases (drop_oldest (split_messages_by_token_share w.kept parts) w)) [
      | inl e ↦ inr (inl (e, rw (over, e, drop_chunks) refl))
      | inr (w', e) ↦ inr (inr (w', e, rw (over, e, drop_chunks) refl))
    ]
    | inr fits ↦ inl (fits, rw (fits, drop_chunks) refl)
  ]

  pub drop_chunks-contents :
      (fuel : ℕ) (w : Window) → contents (drop_chunks budget parts fuel w) ≡ contents w
  unfolding drop_chunks
  drop_chunks-contents zero w = refl
  drop_chunks-contents (suc fuel) w = elim (round_cases fuel w) [
    | inl (fits, e) ↦ ap contents e
    | inr (inl (last, e)) ↦ ap contents e
    | inr (inr (w', drops, e)) ↦
        ap contents e
        ∙ drop_chunks-contents fuel w'
        ∙ drop_oldest-contents _ w w' (concat-split_messages_by_token_share w.kept parts) drops
  ]

  -- a round per message is enough
  pub drop_chunks-Fitting :
      (fuel : ℕ) (w : Window)
      → 2 ≤ parts
      → length w.kept ≤ fuel
      → Fitting budget (drop_chunks budget parts fuel w)
  unfolding drop_chunks
  drop_chunks-Fitting zero w two enough = inr (omega (arith, enough))
  drop_chunks-Fitting (suc fuel) w two enough = elim (round_cases fuel w) [
    | inl (fits, e) ↦ rw e (inl (not_exceeds budget parts w.kept fits))
    | inr (inl (last, e)) ↦ rw e (inr (no_chunk_to_drop parts w.kept w two last))
    | inr (inr (w', drops, e)) ↦
        let shorter = drop_oldest_shortens parts w.kept w w' two drops in
        rw e (drop_chunks-Fitting fuel w' two (omega (arith, enough, shorter)))
  ]
