-- ===== src/Compression.antt =====
-- `MovingCompressor` of dare_framework/compression/moving_compression.py, with the helpers that `prune`
-- calls. The share of the context that history may take is a fraction, and the quotients of the
-- source, floats there, are compared by multiplication. What the model makes of the dropped messages
-- is the argument `generate`.
pub mod Split
pub mod Bounds
pub mod Pruning
mod Tests
use Prim.Native.Nat.{◌/◌}
use Prim.Native.String.{String as Text}
use deterministic_agent_runt.Base.{
  ℕ, zero, suc, ◌+◌, ◌-◌, ◌*◌, String, Bool, true, false, not, ◌&&◌, ◌||◌, Option, none, some, List,
  [], ◌∷◌, ◌++◌, ltb, leb, ◌==◌, length, any, keep, if◌then◌else◌,
}
use deterministic_agent_runt.Base.Text.{strip, is_empty}
use deterministic_agent_runt.Context.Memory.{
  MessageRole, MessageKind, Message, ToolCallEntry, Context, stm_add, stm_clear,
}

abbrev pub max : ℕ → ℕ → ℕ
max a b = if leb b a then a else b

-- `len` of a text
unfoldable pub text_length : String → ℕ
text_length String.[] = 0
text_length (String.◌∷◌ c s) = suc (text_length s)

-- what one message adds in `_estimate_tokens`
unfoldable pub message_tokens : Message → ℕ
unfolding strip text_length
message_tokens m = max 1 (text_length (strip m.text) / 4) + m.attachments * 32 + 8

-- `_estimate_tokens`
unfoldable pub estimate_tokens : List Message → ℕ
unfolding message_tokens
estimate_tokens [] = 0
estimate_tokens (m ∷ ms) = message_tokens m + estimate_tokens ms

abbrev pub is_assistant : MessageRole → Bool
is_assistant MessageRole.assistant = true
is_assistant MessageRole.system = false
is_assistant MessageRole.user = false
is_assistant MessageRole.tool = false

abbrev pub is_tool : MessageRole → Bool
is_tool MessageRole.tool = true
is_tool MessageRole.system = false
is_tool MessageRole.user = false
is_tool MessageRole.assistant = false

-- a text that is not blank, stripped, in front of a list
abbrev pub add_stripped : Option String → List String → List String
add_stripped none ids = ids
add_stripped (some s) ids = if is_empty (strip s) then ids else strip s ∷ ids

abbrev pub ids_of : List ToolCallEntry → List String
ids_of [] = []
ids_of (c ∷ cs) = add_stripped c.id (ids_of cs)

-- `_extract_tool_call_ids`
unfoldable pub extract_tool_call_ids : Message → List String
extract_tool_call_ids m = if is_assistant m.role then ids_of m.tool_calls else []

-- the loop that collects the ids of the dropped calls
unfoldable pub dropped_call_ids : List Message → List String
unfolding extract_tool_call_ids
dropped_call_ids [] = []
dropped_call_ids (m ∷ ms) = extract_tool_call_ids m ++ dropped_call_ids ms

-- a name that is not blank and among the ids when it is stripped
abbrev pub names_one_of : List String → Option String → Bool
names_one_of ids none = false
names_one_of ids (some s) = not (is_empty (strip s)) && any (λ id. id == strip s) ids

-- the result of a tool whose call has one of the ids
abbrev pub is_result_of : List String → Message → Bool
is_result_of ids m = is_tool m.role && names_one_of ids m.name

abbrev pub is_nil {ℓ} : {A : Type ℓ} → List A → Bool
is_nil [] = true
is_nil (_ ∷ _) = false

-- `_move_tool_results_whose_calls_are_dropped`: the kept and the dropped messages
unfoldable pub move_tool_results : List Message → List Message → List Message × List Message
unfolding dropped_call_ids
move_tool_results kept dropped =
    let ids = dropped_call_ids dropped in
    if is_nil ids || is_nil kept
    then (kept, dropped)
    else (keep (λ m. not (is_result_of ids m)) kept, dropped ++ keep (is_result_of ids) kept)

-- the loop of `_split_messages_by_token_share`, from `chunks` chunks, the current one and its tokens on
module _ (parts total : ℕ) where
  abbrev pub is_full : ℕ → List Message → ℕ → Message → Bool
  is_full chunks current tokens m =
      ltb (chunks + 1) parts
      && (not (is_nil current) && ltb total ((tokens + message_tokens m) * parts))

  unfoldable pub split_from : ℕ → List Message → ℕ → List Message → List (List Message)
  unfolding message_tokens
  split_from chunks current tokens [] = if is_nil current then [] else current ∷ []
  split_from chunks current tokens (m ∷ ms) = elim (is_full chunks current tokens m) [
    | true ↦ current ∷ split_from (chunks + 1) (m ∷ []) (message_tokens m) ms
    | false ↦ split_from chunks (current ++ (m ∷ [])) (tokens + message_tokens m) ms
  ]

-- `_split_messages_by_token_share`; an estimate is positive unless there is no message
unfoldable pub split_messages_by_token_share : List Message → ℕ → List (List Message)
unfolding split_from estimate_tokens
split_messages_by_token_share [] parts = []
split_messages_by_token_share (m ∷ ms) parts =
    if leb (max 1 parts) 1
    then (m ∷ ms) ∷ []
    else split_from (max 1 parts) (estimate_tokens (m ∷ ms)) 0 [] 0 (m ∷ ms)

abbrev pub concat {ℓ} : {A : Type ℓ} → List (List A) → List A
concat [] = []
concat (xs ∷ xss) = xs ++ concat xss

-- the window: the kept and the dropped messages
pub record Window : Type 0 where
  pub kept : List Message
  pub dropped : List Message

-- a round with its chunks: none left to drop, or the oldest chunk goes
abbrev pub drop_oldest : List (List Message) → Window → Option Window
drop_oldest [] w = none
drop_oldest (c ∷ []) w = none
drop_oldest (c ∷ d ∷ cs) w = some (record { kept = concat (d ∷ cs); dropped = w.dropped ++ c })

module _ (budget parts : ℕ) where
  abbrev pub exceeds : List Message → Bool
  exceeds kept = not (is_nil kept) && ltb budget (estimate_tokens kept)

  -- what follows a round of the loop
  abbrev pub after_drop : Option Window → Window → (Window → Window) → Window
  after_drop none w later = w
  after_drop (some w') w later = later w'

  -- the `while` of `_compute_prune_result` on fuel
  unfoldable pub drop_chunks : ℕ → Window → Window
  unfolding estimate_tokens split_messages_by_token_share
  drop_chunks zero w = w
  drop_chunks (suc fuel) w = elim (exceeds w.kept) [
    | true ↦
        after_drop (drop_oldest (split_messages_by_token_share w.kept parts) w) w (drop_chunks fuel)
    | false ↦ w
  ]

abbrev pub repair : Bool → Window → Window
repair false w = w
repair true w =
    let (kept, dropped) = move_tool_results w.kept w.dropped in
    record { kept = kept; dropped = dropped }

-- `_compute_prune_result`: the kept and the dropped messages; a round per message is enough
unfoldable pub compute_prune_result : List Message → ℕ → ℕ → Bool → Window
unfolding drop_chunks move_tool_results
compute_prune_result messages budget parts tool_pair_safe =
    repair tool_pair_safe (
      drop_chunks budget (max 1 parts) (length messages) (record { kept = messages; dropped = [] }))

-- A compressor. The share is `share_num / share_den`; `generate` is what the model answers about the
-- messages that it is to summarise.
pub record MovingCompressor : Type 0 where
  pub share_num : ℕ
  pub share_den : ℕ
  pub parts : ℕ
  pub tool_pair_safe : Bool
  pub generate : List Message → String

abbrev pub has_text : Message → Bool
has_text m = not (is_empty (strip m.text))

-- `_summarize_messages_to_text`: the model is asked only if a message has a text
unfoldable pub summarize_messages : MovingCompressor → List Message → String
unfolding strip
summarize_messages c dropped = if any has_text dropped then strip (c.generate dropped) else ""

abbrev pub summary_message : String → Message
summary_message s = record {
  role = MessageRole.system;
  kind = MessageKind.summary;
  text = s;
  name = none;
  guidance_id = none;
  attachments = 0;
  tool_calls = [];
}

abbrev pub put_summary : String → List Message → List Message
put_summary s kept = if is_empty s then kept else summary_message s ∷ kept

-- `budget_tokens`
abbrev pub budget_tokens : MovingCompressor → ℕ → ℕ
budget_tokens c limit = max 1 (limit * c.share_num / c.share_den)

abbrev pub written : MovingCompressor → Window → List Message
written c w =
    if is_nil w.dropped then w.kept else put_summary (summarize_messages c w.dropped) w.kept

abbrev pub window_for : MovingCompressor → ℕ → List Message → Window
window_for c limit messages =
    compute_prune_result messages (budget_tokens c limit) c.parts c.tool_pair_safe

-- `prune`, as what it makes of short-term memory, given the limit
unfoldable pub prune : MovingCompressor → Option ℕ → List Message → List Message
unfolding compute_prune_result summarize_messages
prune c none messages = messages
prune c (some limit) messages =
    if leb limit 0 || is_nil messages then messages else written c (window_for c limit messages)
