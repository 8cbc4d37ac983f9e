-- ===== src/EventLog/Tests.antt =====
-- Runs of the event log (dare_framework/event/_internal/sqlite_event_log.py) with a digest that is
-- the same for every text.
use mathlib.Core.List.Memᴰ.{Memᴰ, head}
use deterministic_agent_runt.Base.{
  String, true, false, none, some, List, [], ◌∷◌, ◌++◌, ◌≡◌, ◌↔◌, refl, ◌==◌, any,
}
use deterministic_agent_runt.EventLog.{Row, append, verify_chain, query, replay}
use deterministic_agent_runt.EventLog.Chain.{
  Logged, empty, logs, Chained, verify_chain_iff, Logged-verifies,
}
use deterministic_agent_runt.EventLog.Tamper.{OneLiners, last_hash_fixes_log}
use deterministic_agent_runt.EventLog.Queries.{replay_is_suffix}

abbrev flat : String → String
flat s = "h"

abbrev first_row : Row
first_row = record {
  event_id = "1";
  event_type = "run";
  payload_json = "{}";
  timestamp_iso = "t1";
  hash_version = 1;
  prev_hash = none;
  event_hash = "h";
}

abbrev second_row : Row
second_row = record {
  event_id = "2";
  event_type = "stop";
  payload_json = "{}";
  timestamp_iso = "t2";
  hash_version = 1;
  prev_hash = some "h";
  event_hash = "h";
}

abbrev rows : List Row
rows = first_row ∷ second_row ∷ []

first_append : append flat "1" "run" "{}" "t1" [] ≡ some (first_row ∷ [])
unfolding append
first_append = refl

second_append : append flat "2" "stop" "{}" "t2" (first_row ∷ []) ≡ some rows
unfolding append
second_append = refl

rows-Logged : Logged flat rows
rows-Logged = logs "2" "stop" "{}" "t2" (logs "1" "run" "{}" "t1" empty first_append) second_append

Logged-verifies_example :
    (verify_chain flat rows ≡ true)
    × ((append flat "2" "again" "[]" "t3" rows ≡ none) ↔ (any (λ q. q.event_id == "2") rows ≡ true))
Logged-verifies_example = Logged-verifies flat "2" "again" "[]" "t3" rows rows-Logged

verify_chain_iff_example : (verify_chain flat rows ≡ true) ↔ Chained flat none rows
verify_chain_iff_example = verify_chain_iff flat rows

rows_verify : verify_chain flat rows ≡ true
unfolding verify_chain
rows_verify = refl

one_lines : OneLiners rows
one_lines = (
  (refl, tt),
  (refl, (refl, (refl, tt))),
  (refl, (refl, tt)),
  ((refl, tt), (refl, (refl, (refl, (refl, tt)))), (refl, (refl, tt)), tt),
)

last_hash_fixes_log_example : rows ≡ rows
last_hash_fixes_log_example =
    last_hash_fixes_log flat (λ s t. refl) rows rows rows_verify rows_verify one_lines one_lines
      ((λ _. refl), ((λ _. refl), tt)) refl refl

stopped : Memᴰ second_row (query (some "stop") (some "2") false 5 rows)
unfolding query
stopped = head refl

replayed : replay "2" rows ≡ some (second_row ∷ [])
unfolding replay
replayed = refl

replay_is_suffix_example :
    (before : List Row) × (r : Row) × (later : List Row) × (second_row ∷ [] ≡ r ∷ later)
    × (r.event_id ≡ "2")
    × (rows ≡ before ++ (r ∷ later))
    × (any (λ q. q.event_id == "2") before ≡ false)
replay_is_suffix_example = replay_is_suffix "2" rows (second_row ∷ []) replayed
