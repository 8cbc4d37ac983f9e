-- ===== src/Compression/Split.antt =====
-- The chunks of `_split_messages_by_token_share` (dare_framework/compression/moving_compression.py).
use mathlib.Core.List.{append_assoc, append-nil}
use deterministic_agent_runt.Base.{
  ℕ, zero, suc, ◌+◌, ◌*◌, ◌≤◌, ◌<◌, true, false, List, [], ◌∷◌, ◌++◌, leb, ◌≡◌, refl, ap, ◌∙◌,
  arith, inl, inr, Bool-cases,
}
use deterministic_agent_runt.Context.Memory.{Message}
use deterministic_agent_runt.Compression.{
  max, message_tokens, estimate_tokens, is_full, split_from, split_messages_by_token_share, concat,
}

-- the chunks hold the messages, in order
concat-split_from :
    (parts total chunks : ℕ) (current : List Message) (tokens : ℕ) (ms : List Message)
    → concat (split_from parts total chunks current tokens ms) ≡ current ++ ms
unfolding split_from
concat-split_from parts total chunks [] tokens [] = refl
concat-split_from parts total chunks (c ∷ cs) tokens [] = refl
concat-split_from parts total chunks current tokens (m ∷ ms) =
    elim (Bool-cases (is_full parts total chunks current tokens m)) [
      | inl full ↦
          rw (full, split_from, concat)
            (ap (λ (l : List Message). current ++ l)
              (concat-split_from parts total (chunks + 1) (m ∷ []) (message_tokens m) ms))
      | inr room ↦
          rw (room, split_from)
            (concat-split_from parts total chunks (current ++ (m ∷ [])) (tokens + message_tokens m)
                ms
              ∙ append_assoc current (m ∷ []) ms)
    ]

pub concat-split_messages_by_token_share :
    (ms : List Message) (parts : ℕ) → concat (split_messages_by_token_share ms parts) ≡ ms
unfolding split_messages_by_token_share
concat-split_messages_by_token_share [] parts = refl
concat-split_messages_by_token_share (m ∷ ms) parts = elim (Bool-cases (leb (max 1 parts) 1)) [
  | inl one ↦ rw one (append-nil _)
  | inr more ↦ rw more (concat-split_from (max 1 parts) _ 0 [] 0 (m ∷ ms))
]

-- a first chunk that is not empty
abbrev pub Starts : List (List Message) → Type 0
Starts chunks =
    (c : Message) × (cs : List Message) × (more : List (List Message)) × (chunks ≡ (c ∷ cs) ∷ more)

-- two chunks at least, the first of them not empty
abbrev pub Splits : List (List Message) → Type 0
Splits chunks =
    (c : Message) × (cs d : List Message) × (more : List (List Message)) × (chunks
      ≡ (c ∷ cs) ∷ d ∷ more)

split_from-Starts :
    (parts total chunks : ℕ) (c : Message) (cs : List Message) (tokens : ℕ) (ms : List Message)
    → Starts (split_from parts total chunks (c ∷ cs) tokens ms)
unfolding split_from
split_from-Starts parts total chunks c cs tokens [] = (c, cs, [], refl)
split_from-Starts parts total chunks c cs tokens (m ∷ ms) =
    elim (Bool-cases (is_full parts total chunks (c ∷ cs) tokens m)) [
      | inl full ↦ rw (full, split_from) (c, cs, _, refl)
      | inr room ↦
          rw (room, split_from) (split_from-Starts parts total chunks c (cs ++ (m ∷ [])) _ ms)
    ]

tokens_positive : (m : Message) → 8 < message_tokens m
unfolding message_tokens
tokens_positive m = ground arith

-- twice what is there is more than it
share_lt : (total parts : ℕ) → 0 < total → 2 ≤ parts → total < total * parts
share_lt total zero some_there two = absurd (omega (arith, two))
share_lt total (suc zero) some_there two = absurd (omega (arith, two))
share_lt total (suc (suc p)) some_there two = omega (arith, some_there)

-- the last message fills the current chunk
last_is_full :
    (parts total : ℕ) (c : Message) (cs : List Message) (tokens : ℕ) (m : Message)
    → 2 ≤ parts
    → tokens + message_tokens m ≡ total
    → is_full parts total 0 (c ∷ cs) tokens m ≡ true
last_is_full parts total c cs tokens m two all =
    let more = share_lt total parts (omega (arith, tokens_positive m, all)) two in
    rw all (ground (arith, more, two))

split_from-Splits :
    (parts total : ℕ) (c : Message) (cs : List Message) (tokens : ℕ) (m : Message)
    (ms : List Message)
    → 2 ≤ parts
    → tokens + estimate_tokens (m ∷ ms) ≡ total
    → Splits (split_from parts total 0 (c ∷ cs) tokens (m ∷ ms))
unfolding split_from estimate_tokens
split_from-Splits parts total c cs tokens m [] two all =
    rw (last_is_full parts total c cs tokens m two (omega (arith, all)), split_from)
      (c, cs, m ∷ [], [], refl)
split_from-Splits parts total c cs tokens m (n ∷ ns) two all =
    elim (Bool-cases (is_full parts total 0 (c ∷ cs) tokens m)) [
      | inl full ↦
          let (d, ds, more, e) = split_from-Starts parts total 1 m [] (message_tokens m) (n ∷ ns) in
          rw (full, split_from)
            (c, cs, d ∷ ds, more, ap (λ (l : List (List Message)). (c ∷ cs) ∷ l) e)
      | inr room ↦
          rw (room, split_from)
            (split_from-Splits parts total c (cs ++ (m ∷ [])) (tokens + message_tokens m) n ns two
              (omega (arith, all)))
    ]

-- an empty chunk takes the message that comes
empty_takes :
    (parts total chunks tokens : ℕ) (m : Message) → is_full parts total chunks [] tokens m ≡ false
empty_takes parts total chunks tokens m = ground arith

split_from-start :
    (parts total : ℕ) (m : Message) (ms : List Message)
    → split_from parts total 0 [] 0 (m ∷ ms)
      ≡ split_from parts total 0 (m ∷ []) (message_tokens m) ms
unfolding split_from
split_from-start parts total m ms =
    rw (empty_takes parts total 0 0 m, split_from)
      (ap (λ (t : ℕ). split_from parts total 0 (m ∷ []) t ms) (omega arith))

-- two messages or more fall into two chunks at least
pub split_messages_by_token_share-Splits :
    (m n : Message) (ms : List Message) (parts : ℕ)
    → 2 ≤ parts
    → Splits (split_messages_by_token_share (m ∷ n ∷ ms) parts)
unfolding split_messages_by_token_share estimate_tokens
split_messages_by_token_share-Splits m n ms parts two =
    let more : leb (max 1 parts) 1 ≡ false = ground (arith, two) in
    rw (more, split_from-start (max 1 parts) (estimate_tokens (m ∷ n ∷ ms)) m (n ∷ ms))
      (split_from-Splits (max 1 parts) _ m [] (message_tokens m) n ms (ground (arith, two)) refl)

-- one message is one chunk
pub split_one :
    (m : Message) (parts : ℕ) → split_messages_by_token_share (m ∷ []) parts ≡ (m ∷ []) ∷ []
unfolding split_messages_by_token_share split_from
split_one m parts = elim (Bool-cases (leb (max 1 parts) 1)) [
  | inl one ↦ rw one refl
  | inr more ↦ rw more (split_from-start (max 1 parts) (estimate_tokens (m ∷ [])) m [])
]
