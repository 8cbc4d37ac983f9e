-- ===== src/EventLog.antt =====
-- `SQLiteEventLog` of dare_framework/event/_internal/sqlite_event_log.py. The table `events` is the
-- list of its rows in the order of `seq`, which AUTOINCREMENT makes the order of insertion.
-- `digest` is SHA-256 in hexadecimal. An event's id, payload text and timestamp come in as arguments.
pub mod Chain
pub mod Lines
pub mod Tamper
pub mod Queries
mod Tests
use Prim.Native.String.{◌++◌ as append_text}
use deterministic_agent_runt.Base.{
  ℕ, suc, leb, String, Bool, true, false, not, ◌&&◌, Option, none, some, List, [], ◌∷◌, ◌++◌, ◌==◌,
  eqb, if◌then◌else◌, any, keep, take, is_some,
}
use deterministic_agent_runt.Base.Text.{is_empty, empty_text}

pub record Row : Type 0 where
  pub event_id : String
  pub event_type : String
  pub payload_json : String
  pub timestamp_iso : String
  pub hash_version : ℕ
  pub prev_hash : Option String
  pub event_hash : String

abbrev pub supported_version : ℕ
supported_version = 1

-- `prev_hash or ""`
abbrev pub prev_segment : Option String → String
prev_segment none = empty_text
prev_segment (some h) = h

infixr 66 ◌⏎◌
abbrev pub ◌⏎◌ : String → String → String
a ⏎ b = append_text a (append_text "\n" b)

-- the text that is hashed
unfoldable pub raw_text : Row → String
raw_text r = r.event_id ⏎ r.event_type ⏎ r.timestamp_iso ⏎ r.payload_json ⏎ prev_segment r.prev_hash

-- `!=` on `str | None`
abbrev pub same_hash : Option String → Option String → Bool
same_hash none none = true
same_hash (some a) (some b) = a == b
same_hash _ _ = false

-- `_last_event_hash`
unfoldable pub last_event_hash : List Row → Option String
last_event_hash [] = none
last_event_hash (r ∷ []) = some r.event_hash
last_event_hash (_ ∷ r ∷ rs) = last_event_hash (r ∷ rs)

module _ (digest : String → String) where
  -- `_compute_event_hash`; `none` is its `ValueError`
  unfoldable pub compute_event_hash : Row → Option String
  unfolding raw_text
  compute_event_hash r =
      if eqb r.hash_version supported_version then some (digest (raw_text r)) else none

  -- The row that `append` inserts. A new event has the supported version.
  abbrev pub unsigned_row : String → String → String → String → List Row → Row
  unsigned_row id type payload stamp rows = record {
    event_id = id;
    event_type = type;
    payload_json = payload;
    timestamp_iso = stamp;
    hash_version = supported_version;
    prev_hash = last_event_hash rows;
    event_hash = empty_text;
  }

  abbrev pub sign_row : Option String → Row → Option Row
  sign_row none r = none
  sign_row (some h) r = some (record r { event_hash = h })

  -- the INSERT, which the UNIQUE event_id may refuse
  abbrev pub insert_row : Option Row → List Row → Option (List Row)
  insert_row none rows = none
  insert_row (some r) rows =
      if any (λ q. q.event_id == r.event_id) rows then none else some (rows ++ (r ∷ []))

  -- `append`: the table afterwards, or `none` if it raises and the table stays
  unfoldable pub append : String → String → String → String → List Row → Option (List Row)
  unfolding compute_event_hash last_event_hash
  append id type payload stamp rows =
      let r = unsigned_row id type payload stamp rows in
      insert_row (sign_row (compute_event_hash r) r) rows

  -- one round of the loop of `verify_chain`: the row fits the hash before it
  unfoldable pub row_fits : Option String → Row → Bool
  unfolding compute_event_hash
  row_fits previous r =
      same_hash r.prev_hash previous && same_hash (compute_event_hash r) (some r.event_hash)

  unfoldable pub verify_from : Option String → List Row → Bool
  unfolding row_fits
  verify_from previous [] = true
  verify_from previous (r ∷ rs) = row_fits previous r && verify_from (some r.event_hash) rs

  -- `verify_chain`
  unfoldable pub verify_chain : List Row → Bool
  unfolding verify_from
  verify_chain rows = verify_from none rows

-- a part of `query`'s WHERE clause, for a filter that is given and not empty
abbrev pub clause : Option String → String → Bool
clause none value = true
clause (some wanted) value = if is_empty wanted then true else value == wanted

-- `query` with the two filters, and with a limit that is negative or a natural
unfoldable pub query : Option String → Option String → Bool → ℕ → List Row → List Row
query event_type event_id negative limit rows =
    take (if negative then 0 else limit)
      (keep (λ r. clause event_type r.event_type && clause event_id r.event_id) rows)

-- the first query of `replay`: the `seq` of the row with the id, where the rows are numbered from
-- `seq` on; AUTOINCREMENT may leave gaps, and only the order of the numbers counts
unfoldable pub anchor_seq : String → ℕ → List Row → Option ℕ
anchor_seq id seq [] = none
anchor_seq id seq (r ∷ rs) =
    let later = anchor_seq id (suc seq) rs in if r.event_id == id then some seq else later

-- its second query: the rows whose `seq` is at least the anchor's
unfoldable pub rows_from : ℕ → ℕ → List Row → List Row
rows_from anchor seq [] = []
rows_from anchor seq (r ∷ rs) =
    let later = rows_from anchor (suc seq) rs in if leb anchor seq then r ∷ later else later

-- `replay`, or `none` if there is no anchor
unfoldable pub replay : String → List Row → Option (List Row)
unfolding anchor_seq rows_from
replay id rows = elim (anchor_seq id 1 rows) [
  | none ↦ none
  | some anchor ↦ some (rows_from anchor 1 rows)
]
