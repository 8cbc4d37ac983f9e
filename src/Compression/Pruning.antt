-- ===== src/Compression/Pruning.antt =====
-- What `prune` of dare_framework/compression/moving_compression.py makes of short-term memory.
use mathlib.Core.Path.{subst}
use mathlib.Core.List.{append_assoc, append-nil}
use deterministic_agent_runt.Base.{
  ℕ, ◌≤◌, ◌<◌, Bool, true, false, not, ◌&&◌, some, none, List, [], ◌∷◌, ◌++◌, length, keep, All,
  leb, ◌≡◌, refl, sym, ap, ◌∙◌, arith, ◌⊎◌, inl, inr, Bool-cases, String, if◌then◌else◌,
}
use deterministic_agent_runt.Base.Text.{is_empty}
use deterministic_agent_runt.Context.Memory.{MessageRole, Message}
use deterministic_agent_runt.Compression.{
  max, estimate_tokens, is_nil, is_tool, is_assistant, is_result_of, extract_tool_call_ids,
  dropped_call_ids, move_tool_results, Window, drop_chunks, repair, compute_prune_result,
  MovingCompressor, summarize_messages, summary_message, budget_tokens, written, prune,
}
use deterministic_agent_runt.Compression.Bounds.{Fitting, drop_chunks-contents, drop_chunks-Fitting}

module _ {ℓ} {A : Type ℓ} where
  keep_all : (p : A → Bool) (xs : List A) → ((x : A) → p x ≡ true) → keep p xs ≡ xs
  keep_all p [] h = refl
  keep_all p (x ∷ xs) h = rw (h x) (ap (λ (t : List A). x ∷ t) (keep_all p xs h))

  keep_none : (p : A → Bool) (xs : List A) → ((x : A) → p x ≡ false) → keep p xs ≡ []
  keep_none p [] h = refl
  keep_none p (x ∷ xs) h = rw (h x) (keep_none p xs h)

  length-keep-le : (p : A → Bool) (xs : List A) → length (keep p xs) ≤ length xs
  length-keep-le p [] = omega arith
  length-keep-le p (x ∷ xs) = elim (Bool-cases (p x)) [
    | inl e ↦ rw e (omega (arith, length-keep-le p xs))
    | inr e ↦ rw e (omega (arith, length-keep-le p xs))
  ]

  All-keep {κ} :
      (p : A → Bool) (P : A → Type κ) (xs : List A)
      → ((x : A) → p x ≡ true → P x)
      → All P (keep p xs)
  All-keep p P [] h = tt
  All-keep p P (x ∷ xs) h = elim (Bool-cases (p x)) [
    | inl e ↦ rw e (h x e, All-keep p P xs h)
    | inr e ↦ rw e (All-keep p P xs h)
  ]

estimate_tokens-keep-le :
    (p : Message → Bool) (ms : List Message) → estimate_tokens (keep p ms) ≤ estimate_tokens ms
unfolding estimate_tokens
estimate_tokens-keep-le p [] = omega arith
estimate_tokens-keep-le p (m ∷ ms) = elim (Bool-cases (p m)) [
  | inl e ↦ rw e (omega (arith, estimate_tokens-keep-le p ms))
  | inr e ↦ rw e (omega (arith, estimate_tokens-keep-le p ms))
]

-- whether a kept message goes with what was dropped before it
abbrev pub moves_with : Bool → List Message → Message → Bool
moves_with safe before m = safe && is_result_of (dropped_call_ids before) m

abbrev pub stays : Bool → List Message → Message → Bool
stays safe before m = not (moves_with safe before m)

no_ids_no_result :
    (ids : List String) (m : Message) → is_nil ids ≡ true → is_result_of ids m ≡ false
no_ids_no_result [] m h = elim m.name [ none ↦ ground arith | some s ↦ ground arith ]
no_ids_no_result (i ∷ is) m h = cc h

abbrev pub window : List Message → List Message → Window
window kept dropped = record { kept = kept; dropped = dropped }

-- the window after the messages that go with the dropped ones have gone
abbrev pub moved_out : Bool → List Message → List Message → Window
moved_out safe kept dropped =
    window (keep (stays safe dropped) kept) (dropped ++ keep (moves_with safe dropped) kept)

-- where nothing goes with what was dropped, the window is as it was
nothing_moves :
    (safe : Bool) (kept dropped : List Message)
    → ((m : Message) → moves_with safe dropped m ≡ false)
    → moved_out safe kept dropped ≡ window kept dropped
nothing_moves safe kept dropped none_does =
    ap (λ (l : List Message). window l (dropped ++ keep (moves_with safe dropped) kept))
      (keep_all (stays safe dropped) kept (λ m. ap not (none_does m)))
    ∙ ap (λ (l : List Message). window kept (dropped ++ l))
        (keep_none (moves_with safe dropped) kept none_does)
    ∙ ap (window kept) (append-nil dropped)

repair_lem :
    (safe : Bool) (kept dropped : List Message)
    → repair safe (window kept dropped) ≡ moved_out safe kept dropped
unfolding move_tool_results
repair_lem false kept dropped = sym (nothing_moves false kept dropped (λ m. refl))
repair_lem true [] dropped = elim (Bool-cases (is_nil (dropped_call_ids dropped))) [
  | inl e ↦ rw e (ap (window []) (sym (append-nil dropped)))
  | inr e ↦ rw e (ap (window []) (sym (append-nil dropped)))
]
repair_lem true (m ∷ ms) dropped = elim (Bool-cases (is_nil (dropped_call_ids dropped))) [
  | inl e ↦ rw e (
      sym (
        nothing_moves true (m ∷ ms) dropped (λ m. no_ids_no_result (dropped_call_ids dropped) m e)))
  | inr e ↦ rw e refl
]

-- the summary of what is dropped: none if nothing is, or if the model has nothing to say
abbrev pub summary_of : MovingCompressor → List Message → List Message
summary_of c [] = []
summary_of c (m ∷ ms) =
    let summary = summarize_messages c (m ∷ ms) in
    if is_empty summary then [] else summary_message summary ∷ []

written_lem :
    (c : MovingCompressor) (kept dropped : List Message)
    → written c (window kept dropped) ≡ summary_of c dropped ++ kept
written_lem c kept [] = refl
written_lem c kept (m ∷ ms) = elim (Bool-cases (is_empty (summarize_messages c (m ∷ ms)))) [
  | inl e ↦ rw e refl
  | inr e ↦ rw e refl
]

-- a part of what fits fits
keep-Fitting :
    (p : Message → Bool) (budget : ℕ) (kept dropped : List Message)
    → Fitting budget (window kept dropped)
    → (estimate_tokens (keep p kept) ≤ budget) ⊎ (length (keep p kept) ≤ 1)
keep-Fitting p budget kept dropped (inl h) = inl (omega (arith, h, estimate_tokens-keep-le p kept))
keep-Fitting p budget kept dropped (inr h) = inr (omega (arith, h, length-keep-le p kept))

-- Whatever model and limit, with two parts or more: what short-term memory held is an older part and
-- a newer one, and after pruning it is a summary of the older part, with the results in the newer part
-- of tool calls in the older one if pairs are kept together, and after it the rest of the newer part,
-- in order, which is within the share of the limit unless it is a single message. The summary is
-- absent if nothing was dropped or the model's answer is blank.
pub prune_window :
    (c : MovingCompressor) (limit : ℕ) (messages : List Message)
    → 2 ≤ c.parts
    → 0 < limit
    → (older newer : List Message) × (messages ≡ older ++ newer)
      × (prune c (some limit) messages
          ≡ summary_of c (older ++ keep (moves_with c.tool_pair_safe older) newer)
            ++ keep (stays c.tool_pair_safe older) newer)
      × ((estimate_tokens (keep (stays c.tool_pair_safe older) newer) ≤ budget_tokens c limit)
          ⊎ (length (keep (stays c.tool_pair_safe older) newer) ≤ 1))
unfolding prune compute_prune_result estimate_tokens
prune_window c limit [] two some_limit =
    ([], [], refl, ground (arith, some_limit), inr (omega arith))
prune_window c limit (m ∷ ms) two some_limit =
    let start = window (m ∷ ms) [] in
    let v = drop_chunks (budget_tokens c limit) (max 1 c.parts) (length (m ∷ ms)) start in
    let on : leb limit 0 ≡ false = ground (arith, some_limit) in
    (
      v.dropped,
      v.kept,
      sym (drop_chunks-contents (budget_tokens c limit) (max 1 c.parts) (length (m ∷ ms)) start),
      rw on (
          ap (written c) (repair_lem c.tool_pair_safe v.kept v.dropped)
          ∙ written_lem c (keep (stays c.tool_pair_safe v.dropped) v.kept)
              (v.dropped ++ keep (moves_with c.tool_pair_safe v.dropped) v.kept)),
      keep-Fitting (stays c.tool_pair_safe v.dropped) (budget_tokens c limit) v.kept v.dropped (
          drop_chunks-Fitting (budget_tokens c limit) (max 1 c.parts) (length (m ∷ ms)) start
            (ground (arith, two)) (omega arith)),
    )

dropped_call_ids-append :
    (xs ys : List Message)
    → dropped_call_ids (xs ++ ys) ≡ dropped_call_ids xs ++ dropped_call_ids ys
unfolding dropped_call_ids
dropped_call_ids-append [] ys = refl
dropped_call_ids-append (x ∷ xs) ys =
    ap (λ (l : List String). extract_tool_call_ids x ++ l) (dropped_call_ids-append xs ys)
    ∙ sym (append_assoc (extract_tool_call_ids x) _ _)

tool_not_assistant : (r : MessageRole) → is_tool r ≡ true → is_assistant r ≡ false
tool_not_assistant MessageRole.system h = refl
tool_not_assistant MessageRole.user h = refl
tool_not_assistant MessageRole.tool h = refl
tool_not_assistant MessageRole.assistant h = cc h

tool_makes_no_calls : (m : Message) → is_tool m.role ≡ true → extract_tool_call_ids m ≡ []
unfolding extract_tool_call_ids
tool_makes_no_calls m h = rw (tool_not_assistant m.role h) refl

results_make_no_calls :
    (ids : List String) (ms : List Message) → dropped_call_ids (keep (is_result_of ids) ms) ≡ []
unfolding dropped_call_ids
results_make_no_calls ids [] = refl
results_make_no_calls ids (m ∷ ms) = elim (Bool-cases (is_result_of ids m)) [
  | inl e ↦
      let none_made = tool_makes_no_calls m (ground (arith, e)) in
      rw (e, none_made) (results_make_no_calls ids ms)
  | inr e ↦ rw e (results_make_no_calls ids ms)
]

-- no message of a list is a tool's result for a call of another
abbrev pub Unanswered : List Message → List Message → Type 0
Unanswered dropped kept = All (λ m. is_result_of (dropped_call_ids dropped) m ≡ false) kept

moved_out_pairs :
    (kept dropped : List Message)
    → Unanswered (moved_out true kept dropped).dropped (moved_out true kept dropped).kept
moved_out_pairs kept dropped =
    let ids =
      dropped_call_ids-append dropped (keep (moves_with true dropped) kept)
      ∙ ap (λ (l : List String). dropped_call_ids dropped ++ l)
          (results_make_no_calls (dropped_call_ids dropped) kept)
      ∙ append-nil _ in
    rw ids (All-keep (stays true dropped) _ kept (λ m h. ground (arith, h)))

-- If pairs are kept together, no tool result that is kept answers a call that is dropped.
pub no_orphan_result :
    (messages : List Message) (budget parts : ℕ)
    → Unanswered
        (compute_prune_result messages budget parts true).dropped
        (compute_prune_result messages budget parts true).kept
unfolding compute_prune_result
no_orphan_result messages budget parts =
    let v = drop_chunks budget (max 1 parts) (length messages) (window messages []) in
    subst (λ (w : Window). Unanswered w.dropped w.kept) (sym (repair_lem true v.kept v.dropped))
      (moved_out_pairs v.kept v.dropped)
