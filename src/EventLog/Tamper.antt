-- ===== src/EventLog/Tamper.antt =====
-- A verified log is fixed by its last hash (dare_framework/event/_internal/sqlite_event_log.py): who
-- keeps that hash notices every change of an earlier row. The id, the type and the timestamp stand in
-- the hashed text with a line break after each, so they must have none in them: a type "a\nb" before
-- a timestamp "t" is hashed as a type "a" before a timestamp "b\nt".
use Prim.Native.String.{count, ◌++◌ as append_text}
use text.Mathlib.TextLemmas.{
  append_assoc, append_inj, append_cancel_right, length-append as count-append,
}
use mathlib.Core.Option.{some-injective}
use deterministic_agent_runt.Base.{
  String, true, Option, none, some, List, [], ◌∷◌, ◌≡◌, refl, sym, ap, ◌∙◌, arith, length,
}
use deterministic_agent_runt.EventLog.{
  Row, prev_segment, ◌⏎◌, raw_text, last_event_hash, verify_chain,
}
use deterministic_agent_runt.EventLog.Chain.{
  Chained, link, last_from, last_event_hash-last_from, verify_chain_iff,
}
use deterministic_agent_runt.EventLog.Lines.{OneLine, split_line}

-- all of the hashed text before the previous hash
body_text : Row → String
body_text r = append_text (r.event_id ⏎ r.event_type ⏎ r.timestamp_iso ⏎ r.payload_json) "\n"

raw_text-body : (r : Row) → raw_text r ≡ append_text (body_text r) (prev_segment r.prev_hash)
unfolding raw_text body_text
raw_text-body r = simp (raw_text, body_text, append_assoc)

-- equal hashed texts with previous hashes of one size have the same previous hash
same_prev :
    (x y : Row) (a b : String)
    → x.prev_hash ≡ some a
    → y.prev_hash ≡ some b
    → count a ≡ count b
    → raw_text x ≡ raw_text y
    → a ≡ b
same_prev x y a b p q size e =
    let whole : append_text (body_text x) a ≡ append_text (body_text y) b =
      sym
        (raw_text-body x ∙ ap (λ (o : Option String). append_text (body_text x) (prev_segment o)) p)
      ∙ e
      ∙ raw_text-body y
      ∙ ap (λ (o : Option String). append_text (body_text y) (prev_segment o)) q in
    let sizes : count (body_text x) ≡ count (body_text y) =
      omega
        (arith, ap count whole, count-append (body_text x) a, count-append (body_text y) b, size) in
    (append_inj whole sizes).1

-- two tables with the same hashed texts, previous hashes and hashes, row by row
abbrev pub Agree : List Row → List Row → Type 0
Agree [] [] = Unit
Agree (x ∷ xs) (y ∷ ys) =
    (raw_text x ≡ raw_text y)
    × (x.prev_hash ≡ y.prev_hash)
    × (x.event_hash ≡ y.event_hash)
    × Agree xs ys
Agree _ _ = ⊥

module _ (digest : String → String) where
  -- The digests of two texts have one size, as those of SHA-256 do, and no two rows at one place of
  -- the tables collide.
  abbrev pub NoCollision : List Row → List Row → Type 0
  NoCollision [] [] = Unit
  NoCollision (x ∷ xs) (y ∷ ys) =
      (digest (raw_text x) ≡ digest (raw_text y) → raw_text x ≡ raw_text y) × NoCollision xs ys
  NoCollision _ _ = Unit

  module _ (size : (s t : String) → count (digest s) ≡ count (digest t)) where
    Agree-from :
        (a b : String) (xs ys : List Row)
        → Chained digest (some a) xs
        → Chained digest (some b) ys
        → NoCollision xs ys
        → length xs ≡ length ys
        → count a ≡ count b
        → last_from (some a) xs ≡ last_from (some b) ys
        → (a ≡ b) × Agree xs ys
    Agree-from a b [] [] c d free l k e = (some-injective a b e, tt)
    Agree-from a b [] (y ∷ ys) c d free l k e = absurd (omega arith)
    Agree-from a b (x ∷ xs) [] c d free l k e = absurd (omega arith)
    Agree-from a b (x ∷ xs) (y ∷ ys) (link p v h c) (link p' v' h' c') free l k e =
        let sized : count x.event_hash ≡ count y.event_hash =
          ap count h ∙ size _ _ ∙ sym (ap count h') in
        let (hash, rest) =
          Agree-from x.event_hash y.event_hash xs ys c c' free.1 (omega arith) sized e in
        let raw = free.0 (sym h ∙ hash ∙ h') in
        let prev = same_prev x y a b p p' k raw in
        (prev, (raw, p ∙ ap {B = Option String} some prev ∙ sym p', hash, rest))

    -- two tables that verify and end in the same hash agree
    last_hash-Agree :
        (xs ys : List Row)
        → verify_chain digest xs ≡ true
        → verify_chain digest ys ≡ true
        → NoCollision xs ys
        → length xs ≡ length ys
        → last_event_hash xs ≡ last_event_hash ys
        → Agree xs ys
    last_hash-Agree xs ys vx vy free l e =
        from_start xs ys ((verify_chain_iff digest xs).0 vx) ((verify_chain_iff digest ys).0 vy)
          free l (sym (last_event_hash-last_from xs) ∙ e ∙ last_event_hash-last_from ys)
      where
        from_start :
            (xs ys : List Row)
            → Chained digest none xs
            → Chained digest none ys
            → NoCollision xs ys
            → length xs ≡ length ys
            → last_from none xs ≡ last_from none ys
            → Agree xs ys
        from_start [] [] c d free l e = tt
        from_start [] (y ∷ ys) c d free l e = absurd (omega arith)
        from_start (x ∷ xs) [] c d free l e = absurd (omega arith)
        from_start (x ∷ xs) (y ∷ ys) (link p v h c) (link p' v' h' c') free l e =
            let sized : count x.event_hash ≡ count y.event_hash =
              ap count h ∙ size _ _ ∙ sym (ap count h') in
            let (hash, rest) =
              Agree-from x.event_hash y.event_hash xs ys c c' free.1 (omega arith) sized e in
            (free.0 (sym h ∙ hash ∙ h'), p ∙ sym p', hash, rest)

-- no id, type or timestamp has a line break
abbrev pub OneLiners : List Row → Type 0
OneLiners [] = Unit
OneLiners (r ∷ rs) =
    OneLine r.event_id × OneLine r.event_type × OneLine r.timestamp_iso × OneLiners rs

same_row :
    (x y : Row)
    → x.event_id ≡ y.event_id
    → x.event_type ≡ y.event_type
    → x.payload_json ≡ y.payload_json
    → x.timestamp_iso ≡ y.timestamp_iso
    → x.hash_version ≡ y.hash_version
    → x.prev_hash ≡ y.prev_hash
    → x.event_hash ≡ y.event_hash
    → x ≡ y
same_row x y a b c d e f g = λ i. record {
  event_id = a i;
  event_type = b i;
  payload_json = c i;
  timestamp_iso = d i;
  hash_version = e i;
  prev_hash = f i;
  event_hash = g i;
}

-- the four texts of a row, from the hashed text and the previous hash
same_texts :
    (x y : Row)
    → OneLine x.event_id × OneLine x.event_type × OneLine x.timestamp_iso
    → OneLine y.event_id × OneLine y.event_type × OneLine y.timestamp_iso
    → raw_text x ≡ raw_text y
    → x.prev_hash ≡ y.prev_hash
    → (x.event_id ≡ y.event_id)
      × (x.event_type ≡ y.event_type)
      × (x.timestamp_iso ≡ y.timestamp_iso)
      × (x.payload_json ≡ y.payload_json)
unfolding raw_text
same_texts x y (p, p', p'') (q, q', q'') e same =
    let (id, rest) = split_line _ _ _ _ p q e in
    let (type, rest') = split_line _ _ _ _ p' q' rest in
    let (stamp, rest'') = split_line _ _ _ _ p'' q'' rest' in
    let previous : append_text "\n" (prev_segment x.prev_hash)
        ≡ append_text "\n" (prev_segment y.prev_hash) =
      ap (λ o. append_text "\n" (prev_segment o)) same in
    let payload =
      append_cancel_right x.payload_json y.payload_json
        (append_text "\n" (prev_segment y.prev_hash))
        (ap (append_text x.payload_json) (sym previous) ∙ rest'') in
    (id, type, stamp, payload)

module _ (digest : String → String) where
  Agree-same :
      (o : Option String) (xs ys : List Row)
      → Chained digest o xs
      → Chained digest o ys
      → OneLiners xs
      → OneLiners ys
      → Agree xs ys
      → xs ≡ ys
  Agree-same o [] [] c d p q h = refl
  Agree-same o [] (y ∷ ys) c d p q h = absurd h
  Agree-same o (x ∷ xs) [] c d p q h = absurd h
  Agree-same o (x ∷ xs) (y ∷ ys) (link _ v _ c) (link _ w _ d) (p, p', p'', ps) (q, q', q'', qs)
        (raw, prev, hash, rest) =
      let (id, type, stamp, payload) = same_texts x y (p, p', p'') (q, q', q'') raw prev in
      let d' : Chained digest (some x.event_hash) ys = rw hash d in
      let row = same_row x y id type payload stamp (v ∙ sym w) prev hash in
      let later = Agree-same (some x.event_hash) xs ys c d' ps qs rest in λ i. row i ∷ later i

  -- Two logs that verify, have one length and end in the same hash are the same log, if no event's id,
  -- type or timestamp has a line break, all digests have one size, and no two hashed texts at one
  -- place of the logs collide.
  pub last_hash_fixes_log :
      (size : (s t : String) → count (digest s) ≡ count (digest t)) (xs ys : List Row)
      → verify_chain digest xs ≡ true
      → verify_chain digest ys ≡ true
      → OneLiners xs
      → OneLiners ys
      → NoCollision digest xs ys
      → length xs ≡ length ys
      → last_event_hash xs ≡ last_event_hash ys
      → xs ≡ ys
  last_hash_fixes_log size xs ys vx vy p q free l e =
      Agree-same none xs ys ((verify_chain_iff digest xs).0 vx) ((verify_chain_iff digest ys).0 vy)
        p q (last_hash-Agree digest size xs ys vx vy free l e)
