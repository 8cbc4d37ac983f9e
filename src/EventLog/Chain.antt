-- ===== src/EventLog/Chain.antt =====
-- The hash chain of dare_framework/event/_internal/sqlite_event_log.py: what `append` writes verifies,
-- and what verifies is fixed by its last hash.
use mathlib.Core.Option.{some-injective}
use deterministic_agent_runt.Base.{
  ◌↔◌, String, true, Option, none, some, List, [], ◌∷◌, ◌++◌, ◌≡◌, refl, ap, inl, inr, ◌==◌, eq_iff,
  arith, if◌then◌else◌, Bool-cases, any,
}
use deterministic_agent_runt.EventLog.{
  Row, supported_version, raw_text, same_hash, last_event_hash, compute_event_hash, unsigned_row,
  append, row_fits, verify_from, verify_chain,
}

-- the hash that a chain ends in, after `previous`
abbrev pub last_from : Option String → List Row → Option String
last_from previous [] = previous
last_from previous (r ∷ rs) = last_from (some r.event_hash) rs

last_from-last_event_hash :
    (r : Row) (rs : List Row) → last_event_hash (r ∷ rs) ≡ last_from (some r.event_hash) rs
unfolding last_event_hash
last_from-last_event_hash r [] = refl
last_from-last_event_hash r (q ∷ rs) = last_from-last_event_hash q rs

pub last_event_hash-last_from : (rs : List Row) → last_event_hash rs ≡ last_from none rs
unfolding last_event_hash
last_event_hash-last_from [] = refl
last_event_hash-last_from (r ∷ rs) = last_from-last_event_hash r rs

module _ (digest : String → String) where
  -- Each row of a list keeps the hash of the row before it, and the hash of its own content.
  pub data Chained : Option String → List Row → Type 0 where
    stop : {previous : Option String} → Chained previous []
    link :
        {previous : Option String} {r : Row} {rs : List Row}
        → r.prev_hash ≡ previous
        → r.hash_version ≡ supported_version
        → r.event_hash ≡ digest (raw_text r)
        → Chained (some r.event_hash) rs
        → Chained previous (r ∷ rs)

  same_hash_iff : (a b : Option String) → same_hash a b ≡ true → a ≡ b
  same_hash_iff none none h = refl
  same_hash_iff none (some b) h = cc
  same_hash_iff (some a) none h = cc
  same_hash_iff (some a) (some b) h = ap {B = Option String} some ((eq_iff a b).0 h)

  same_hash_refl : (a : Option String) → same_hash a a ≡ true
  same_hash_refl none = refl
  same_hash_refl (some a) = (eq_iff a a).1 refl

  row_fits_iff :
      (previous : Option String) (r : Row)
      → row_fits digest previous r ≡ true
      → (r.prev_hash ≡ previous)
        × (r.hash_version ≡ supported_version)
        × (r.event_hash ≡ digest (raw_text r))
  unfolding row_fits compute_event_hash
  row_fits_iff previous r h =
      ground (arith, same_hash_iff r.prev_hash previous, eq_iff (digest (raw_text r)) r.event_hash)

  row_fits_of :
      (r : Row)
      → r.hash_version ≡ supported_version
      → r.event_hash ≡ digest (raw_text r)
      → row_fits digest r.prev_hash r ≡ true
  unfolding row_fits compute_event_hash
  row_fits_of r v e =
      ground (arith, same_hash_refl r.prev_hash, eq_iff (digest (raw_text r)) r.event_hash)

  verify_from-Chained :
      (previous : Option String) (rs : List Row)
      → verify_from digest previous rs ≡ true
      → Chained previous rs
  unfolding verify_from
  verify_from-Chained previous [] h = stop
  verify_from-Chained previous (r ∷ rs) h = elim (Bool-cases (row_fits digest previous r)) [
    | inl e ↦
        let (p, v, d) = row_fits_iff previous r e in
        link p v d (verify_from-Chained (some r.event_hash) rs (rw e at h))
    | inr e ↦ cc (rw e at h)
  ]

  Chained-verify_from :
      {previous : Option String} {rs : List Row}
      → Chained previous rs
      → verify_from digest previous rs ≡ true
  unfolding verify_from
  Chained-verify_from stop = refl
  Chained-verify_from (link {r = r} p v d c) =
      rw (← p) (rw (row_fits_of r v d) (Chained-verify_from c))

  -- `verify_chain` accepts exactly the tables in which every row has the supported version, keeps the
  -- hash of the row before it (none, in the first), and keeps the digest of its own content.
  pub verify_chain_iff : (rows : List Row) → (verify_chain digest rows ≡ true) ↔ Chained none rows
  unfolding verify_chain
  verify_chain_iff rows = (verify_from-Chained none rows, Chained-verify_from)

  chain_grows :
      {previous : Option String} (rs : List Row) (r : Row)
      → Chained previous rs
      → r.prev_hash ≡ last_from previous rs
      → r.hash_version ≡ supported_version
      → r.event_hash ≡ digest (raw_text r)
      → Chained previous (rs ++ (r ∷ []))
  chain_grows [] r c p v d = link p v d stop
  chain_grows (q ∷ rs) r (link p' v' d' c) p v d = link p' v' d' (chain_grows rs r c p v d)

  -- the row that a successful `append` has added
  abbrev signed_row : String → String → String → String → List Row → Row
  signed_row id type payload stamp rows =
      let r = unsigned_row digest id type payload stamp rows in
      record r { event_hash = digest (raw_text r) }

  append_lem :
      (id type payload stamp : String) (rows : List Row)
      → append digest id type payload stamp rows ≡ (
          if any (λ q. q.event_id == id) rows
          then none
          else some (rows ++ (signed_row id type payload stamp rows ∷ [])))
  unfolding append compute_event_hash
  append_lem id type payload stamp rows = refl

  signed_row_chains :
      (id type payload stamp : String) (rows : List Row)
      → Chained none rows
      → Chained none (rows ++ (signed_row id type payload stamp rows ∷ []))
  unfolding raw_text
  signed_row_chains id type payload stamp rows c =
      chain_grows rows (signed_row id type payload stamp rows) c (last_event_hash-last_from rows)
        refl refl

  -- the tables that calls of `append` build from the empty one
  pub data Logged : List Row → Type 0 where
    empty : Logged []
    logs :
        {rows rows' : List Row} (id type payload stamp : String)
        → Logged rows
        → append digest id type payload stamp rows ≡ some rows'
        → Logged rows'

  append-Chained :
      (id type payload stamp : String) (rows rows' : List Row)
      → append digest id type payload stamp rows ≡ some rows'
      → Chained none rows
      → Chained none rows'
  append-Chained id type payload stamp rows rows' h c =
      elim (Bool-cases (any (λ q. q.event_id == id) rows)) [
        | inl e ↦ cc (rw (append_lem id type payload stamp rows, e) at h)
        | inr e ↦
            rw (← some-injective _ _ (rw (append_lem id type payload stamp rows, e) at h))
              (signed_row_chains id type payload stamp rows c)
      ]

  Logged-Chained : {rows : List Row} → Logged rows → Chained none rows
  Logged-Chained empty = stop
  Logged-Chained (logs id type payload stamp l h) =
      append-Chained id type payload stamp _ _ h (Logged-Chained l)

  -- Every log that calls of `append` have built verifies, and a call of `append` is refused exactly
  -- if its event id is in the log.
  pub Logged-verifies :
      (id type payload stamp : String) (rows : List Row)
      → Logged rows
      → (verify_chain digest rows ≡ true)
        × ((append digest id type payload stamp rows ≡ none)
            ↔ (any (λ q. q.event_id == id) rows ≡ true))
  Logged-verifies id type payload stamp rows l =
      let e = append_lem id type payload stamp rows in
      ((verify_chain_iff rows).1 (Logged-Chained l), (ground (arith, e), ground (arith, e)))

  -- An `append` that is not refused adds one row at the end and leaves those before it as they are;
  -- the row has the event's id and payload, and the hash of the last row as its previous hash.
  append_adds_row :
      (id type payload stamp : String) (rows rows' : List Row)
      → append digest id type payload stamp rows ≡ some rows'
      → (r : Row) × (rows' ≡ rows ++ (r ∷ []))
        × (r.event_id ≡ id)
        × (r.payload_json ≡ payload)
        × (r.prev_hash ≡ last_event_hash rows)
  append_adds_row id type payload stamp rows rows' h =
      let e = append_lem id type payload stamp rows in
      (signed_row id type payload stamp rows, ground (arith, e), refl, refl, refl)
