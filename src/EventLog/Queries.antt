-- ===== src/EventLog/Queries.antt =====
-- What `query` and `replay` return (dare_framework/event/_internal/sqlite_event_log.py).
use mathlib.Core.List.Memᴰ.{Memᴰ}
use mathlib.Core.Option.{some-injective}
use deterministic_agent_runt.Base.{
  ◌↔◌, ℕ, suc, ◌≤◌, leb, sym, ◌∙◌, Option-cases, String, Bool, true, false, ◌&&◌, none, some, List,
  [], ◌∷◌, ◌++◌, ◌≡◌, refl, ap, inl, inr, ◌==◌, eq_iff, arith, length, Bool-cases, any, keep,
  keep-mem, take-mem, length-take-le,
}
use deterministic_agent_runt.Base.Text.{is_empty}
use deterministic_agent_runt.EventLog.{Row, clause, query, anchor_seq, rows_from, replay}

clause_holds :
    (wanted : String) (value : String)
    → is_empty wanted ≡ false
    → clause (some wanted) value ≡ true
    → value ≡ wanted
clause_holds wanted value full h = ground (arith, eq_iff value wanted)

-- A row that a query returns stands in the log and has the type and the id that the filters ask for,
-- where the filters are not empty; the limit was not negative, and the query returns at most as many
-- rows as the limit.
query_sound :
    (type id : String) (negative : Bool) (limit : ℕ) (rows : List Row) (r : Row)
    → is_empty type ≡ false
    → is_empty id ≡ false
    → Memᴰ r (query (some type) (some id) negative limit rows)
    → Memᴰ r rows
      × (r.event_type ≡ type)
      × (r.event_id ≡ id)
      × (negative ≡ false)
      × (length (query (some type) (some id) negative limit rows) ≤ limit)
unfolding query
query_sound type id true limit rows r t i m = elim m [ ]
query_sound type id false limit rows r t i m =
    let test : Row → Bool = λ q. clause (some type) q.event_type && clause (some id) q.event_id in
    let (found, passes) = keep-mem test r rows (take-mem limit r (keep test rows) m) in
    (
      found,
      clause_holds type r.event_type t (ground arith),
      clause_holds id r.event_id i (ground arith),
      refl,
      length-take-le limit (keep test rows),
    )

all_from : (anchor seq : ℕ) (rows : List Row) → anchor ≤ seq → rows_from anchor seq rows ≡ rows
unfolding rows_from
all_from anchor seq [] h = refl
all_from anchor seq (r ∷ rs) h =
    let rest = all_from anchor (suc seq) rs (omega (arith, h)) in
    let reached : leb anchor seq ≡ true = ground (arith, h) in rw (reached, rest) refl

-- the anchor is the first row with the id
anchor_row :
    (id : String) (seq anchor : ℕ) (rows : List Row)
    → anchor_seq id seq rows ≡ some anchor
    → (seq ≤ anchor)
      × (before : List Row) × (r : Row) × (later : List Row) × (rows ≡ before ++ (r ∷ later))
      × (r.event_id ≡ id)
      × (any (λ q. q.event_id == id) before ≡ false)
      × (rows_from anchor seq rows ≡ r ∷ later)
unfolding anchor_seq rows_from
anchor_row id seq anchor [] h = cc
anchor_row id seq anchor (r ∷ rs) h = elim (Bool-cases (r.event_id == id)) [
  | inl e ↦
      let at_anchor : seq ≡ anchor = some-injective seq anchor (rw e at h) in
      let reached : leb anchor seq ≡ true = ground (arith, at_anchor) in
      (
        omega (arith, at_anchor),
        [],
        r,
        rs,
        refl,
        (eq_iff r.event_id id).0 e,
        refl,
        rw (reached, all_from anchor (suc seq) rs (omega (arith, at_anchor))) refl,
      )
  | inr e ↦
      let (after, before, found, later, split, hit, fresh, rows) =
        anchor_row id (suc seq) anchor rs (rw e at h) in
      let unreached : leb anchor seq ≡ false = ground (arith, after) in
      (
        omega (arith, after),
        r ∷ before,
        found,
        later,
        ap (λ (t : List Row). r ∷ t) split,
        hit,
        ground (arith, e, fresh),
        rw unreached rows,
      )
]

anchor_refused :
    (id : String) (seq : ℕ) (rows : List Row)
    → (anchor_seq id seq rows ≡ none) ↔ (any (λ q. q.event_id == id) rows ≡ false)
unfolding anchor_seq
anchor_refused id seq [] = ((λ _. refl), (λ _. refl))
anchor_refused id seq (r ∷ rs) = elim (Bool-cases (r.event_id == id)) [
  | inl e ↦ (ground (arith, e), ground (arith, e))
  | inr e ↦
      let ih = anchor_refused id (suc seq) rs in (ground (arith, e, ih.0), ground (arith, e, ih.1))
]

-- A replay is refused exactly if no row has the id.
replay_refused :
    (id : String) (rows : List Row)
    → (replay id rows ≡ none) ↔ (any (λ q. q.event_id == id) rows ≡ false)
unfolding replay
replay_refused id rows = elim (Option-cases (anchor_seq id 1 rows)) [
  | inl e ↦ (λ _. (anchor_refused id 1 rows).0 e, λ _. rw (e, replay) refl)
  | inr (n, e) ↦ (λ h. cc (rw (e, replay) at h), λ h. cc (sym e ∙ (anchor_refused id 1 rows).1 h))
]

-- A replay that is not refused returns the row that has the id and all rows after it, in their order:
-- the log is some rows without the id, followed by what is returned.
pub replay_is_suffix :
    (id : String) (rows rest : List Row)
    → replay id rows ≡ some rest
    → (before : List Row) × (r : Row) × (later : List Row) × (rest ≡ r ∷ later)
      × (r.event_id ≡ id)
      × (rows ≡ before ++ (r ∷ later))
      × (any (λ q. q.event_id == id) before ≡ false)
unfolding replay
replay_is_suffix id rows rest h = elim (Option-cases (anchor_seq id 1 rows)) [
  | inl e ↦ cc (rw (e, replay) at h)
  | inr (anchor, e) ↦
      let (_, before, r, later, split, hit, fresh, from) = anchor_row id 1 anchor rows e in
      (before, r, later, sym (some-injective _ _ (rw (e, replay) at h)) ∙ from, hit, split, fresh)
]
