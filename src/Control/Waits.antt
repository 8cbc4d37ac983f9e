-- ===== src/Control/Waits.antt =====
-- The waits for a human in dare_framework/tool/_internal/control/default_execution_control.py.
use mathlib.Core.Option.{some-injective}
use deterministic_agent_runt.Base.{
  ℕ, ◌<◌, String, Bool, true, false, Option, none, some, ◌≡◌, ◌≢◌, refl, ap, ◌∙◌, arith, inl, inr,
  Option-cases, eq_iff,
}
use deterministic_agent_runt.Base.Dict.{lookup, lookup-insert, lookup-erase}
use deterministic_agent_runt.Json.{Fields}
use deterministic_agent_runt.Control.{
  ExecutionControl, checkpoint, pause, resume, begin_human_wait, still_waiting, released, release,
  register_wait, forget_wait, end_human_wait, request_cancel, clear_signal,
}

-- Every event in the dict has been made by a wait.
abbrev pub EventsMade : ExecutionControl → Type 0
EventsMade x = (id : String) (e : ℕ) → lookup id x.approval_events ≡ some e → e < x.next_event

-- A call that does not concern the waits on `id`.
pub data Move (id : String) (x : ExecutionControl) : ExecutionControl → Type 0 where
  checkpoints :
      (fresh_id : String) (now : ℕ) (label : String) (payload : Fields)
      → Move id x (checkpoint fresh_id now label payload x)
  pauses :
      (fresh_id : String) (now : ℕ) (payload : Fields) → Move id x (pause fresh_id now payload x)
  cancels : Move id x (request_cancel x)
  clears : Move id x (clear_signal x)
  resumes :
      {y : ExecutionControl} (other : String) → other ≢ id → resume other x ≡ some y → Move id x y
  waits :
      {y : ExecutionControl} (other : String) (e : ℕ)
      → other ≢ id
      → begin_human_wait other x ≡ some (y, e)
      → Move id x y
  wakes :
      {y : ExecutionControl} (other : String) (e : ℕ)
      → other ≢ id
      → end_human_wait other e x ≡ released y
      → Move id x y

pub data Moves (id : String) (x : ExecutionControl) : ExecutionControl → Type 0 where
  here : Moves id x x
  next : {y z : ExecutionControl} → Moves id x y → Move id y z → Moves id x z

-- A task waits on `id` for the event `e`, which is set or not.
pub record Waits (id : String) (e : ℕ) (set : Bool) (x : ExecutionControl) : Type 0 where
  pub made : EventsMade x
  pub listed : lookup id x.approval_events ≡ some e
  pub own : (other : String) → lookup other x.approval_events ≡ some e → other ≡ id
  pub state : x.events e ≡ set

module _ (id : String) (e : ℕ) (set : Bool) where
  release-Waits :
      (other : String) (o : Option ℕ) (x : ExecutionControl)
      → other ≢ id
      → lookup other x.approval_events ≡ o
      → Waits id e set x
      → Waits id e set (release other o x)
  release-Waits other none x ne found w = w
  release-Waits other (some g) x ne found w =
      let apart : g ≢ e = λ same. ne (w.own other (found ∙ ap (λ (n : ℕ). some n) same)) in
      record { made = w.made; listed = w.listed; own = w.own; state = ground (arith, w.state) }

  resume-Waits :
      (other : String) (x y : ExecutionControl)
      → other ≢ id
      → resume other x ≡ some y
      → Waits id e set x
      → Waits id e set y
  unfolding resume
  resume-Waits other x y ne h w = elim (Option-cases (lookup other x.checkpoints)) [
    | inl missing ↦ cc (rw (missing, resume) at h)
    | inr (c, found) ↦ rw (← some-injective _ _ (rw (found, resume) at h)) (
        release-Waits other (lookup other x.approval_events) _ ne refl
          (record { made = w.made; listed = w.listed; own = w.own; state = w.state }))
  ]

  register-Waits :
      (other : String) (x : ExecutionControl)
      → other ≢ id
      → Waits id e set x
      → Waits id e set (register_wait other x)
  register-Waits other x ne w =
      let below : e < x.next_event = w.made id e w.listed in
      record {
        made = λ i g h.
            ground (arith, lookup-insert other i x.next_event x.approval_events, w.made i g);
        listed = ground (
          arith,
          lookup-insert other id x.next_event x.approval_events,
          w.listed,
          eq_iff other id,
        );
        own = λ i h.
            ground (
              arith,
              lookup-insert other i x.next_event x.approval_events,
              eq_iff other i,
              w.own i,
            );
        state = ground (arith, w.state);
      }

  begin-Waits :
      (other : String) (f : ℕ) (x y : ExecutionControl)
      → other ≢ id
      → begin_human_wait other x ≡ some (y, f)
      → Waits id e set x
      → Waits id e set y
  unfolding begin_human_wait
  begin-Waits other f x y ne h w = elim (Option-cases (lookup other x.checkpoints)) [
    | inl missing ↦ cc (rw (missing, begin_human_wait) at h)
    | inr (c, found) ↦
        let same : register_wait other x ≡ y = cc (rw (found, begin_human_wait) at h) in
        rw (← same) (register-Waits other x ne w)
  ]

  forget-Waits :
      (other : String) (x : ExecutionControl)
      → other ≢ id
      → Waits id e set x
      → Waits id e set (forget_wait other x)
  forget-Waits other x ne w = record {
    made = λ i g h. ground (arith, lookup-erase other i x.approval_events, w.made i g);
    listed = ground (arith, lookup-erase other id x.approval_events, w.listed, eq_iff other id);
    own = λ i h. ground (arith, lookup-erase other i x.approval_events, eq_iff other i, w.own i);
    state = w.state;
  }

  end-Waits :
      (other : String) (f : ℕ) (x y : ExecutionControl)
      → other ≢ id
      → end_human_wait other f x ≡ released y
      → Waits id e set x
      → Waits id e set y
  unfolding end_human_wait
  end-Waits other f x y ne h w =
      let same : forget_wait other x ≡ y = ground arith in rw (← same) (forget-Waits other x ne w)

  Move-Waits : {x y : ExecutionControl} → Move id x y → Waits id e set x → Waits id e set y
  unfolding checkpoint pause request_cancel clear_signal
  Move-Waits (checkpoints f n l p) w = record {
    made = w.made;
    listed = w.listed;
    own = w.own;
    state = w.state;
  }
  Move-Waits (pauses f n p) w = record {
    made = w.made;
    listed = w.listed;
    own = w.own;
    state = w.state;
  }
  Move-Waits cancels w = record { made = w.made; listed = w.listed; own = w.own; state = w.state }
  Move-Waits clears w = record { made = w.made; listed = w.listed; own = w.own; state = w.state }
  Move-Waits (resumes other ne h) w = resume-Waits other _ _ ne h w
  Move-Waits (waits other f ne h) w = begin-Waits other f _ _ ne h w
  Move-Waits (wakes other f ne h) w = end-Waits other f _ _ ne h w

  Moves-Waits : {x y : ExecutionControl} → Moves id x y → Waits id e set x → Waits id e set y
  Moves-Waits here w = w
  Moves-Waits (next p m) w = Move-Waits m (Moves-Waits p w)

-- the start of a wait on a checkpoint that nothing waits on
begun :
    (id : String) (e : ℕ) (x y : ExecutionControl)
    → EventsMade x
    → begin_human_wait id x ≡ some (y, e)
    → Waits id e false y
unfolding begin_human_wait
begun id e x y made h = elim (Option-cases (lookup id x.checkpoints)) [
  | inl missing ↦ cc (rw (missing, begin_human_wait) at h)
  | inr (c, found) ↦
      let new : register_wait id x ≡ y = cc (rw (found, begin_human_wait) at h) in
      let event : x.next_event ≡ e = cc (rw (found, begin_human_wait) at h) in
      rw (← new, ← event)
        (record {
          made =
              λ i g h. ground (arith, lookup-insert id i x.next_event x.approval_events, made i g);
          listed = ground (arith, lookup-insert id id x.next_event x.approval_events, eq_iff id id);
          own = λ i h. ground (
            arith,
            lookup-insert id i x.next_event x.approval_events,
            eq_iff id i,
            made i x.next_event,
          );
          state = ground arith;
        })
]

resumed_wait :
    (id : String) (e : ℕ) (set : Bool) (x y : ExecutionControl)
    → Waits id e set x
    → resume id x ≡ some y
    → Waits id e true y
unfolding resume
resumed_wait id e set x y w h = elim (Option-cases (lookup id x.checkpoints)) [
  | inl missing ↦ cc (rw (missing, resume) at h)
  | inr (c, found) ↦
      let new = some-injective _ _ (rw (found, resume) at h) in
      rw (← new, w.listed)
        (record { made = w.made; listed = w.listed; own = w.own; state = ground arith })
]

-- A human wait on a checkpoint ends exactly when that checkpoint is resumed. However the other
-- checkpoints are used meanwhile, before the resumption the waiting task still waits, and after it the
-- task returns. This supposes that no second wait on the same checkpoint begins.
pub human_wait_released :
    (id : String) (e : ℕ) (x y z u v : ExecutionControl)
    → EventsMade x
    → begin_human_wait id x ≡ some (y, e)
    → Moves id y z
    → resume id z ≡ some u
    → Moves id u v
    → (end_human_wait id e z ≡ still_waiting)
      × (end_human_wait id e v ≡ released (forget_wait id v))
unfolding end_human_wait
human_wait_released id e x y z u v made h before r after =
    let w = Moves-Waits id e false before (begun id e x y made h) in
    let w' = Moves-Waits id e true after (resumed_wait id e false z u w r) in
    (ground (arith, w.state), ground (arith, w'.state, w'.listed))

-- a resumption sets no event but that of its own checkpoint
resume-events :
    (id : String) (e : ℕ) (z u : ExecutionControl)
    → resume id z ≡ some u
    → lookup id z.approval_events ≢ some e
    → u.events e ≡ z.events e
unfolding resume
resume-events id e z u h ne = elim (Option-cases (lookup id z.checkpoints)) [
  | inl missing ↦ cc (rw (missing, resume) at h)
  | inr (c, found) ↦
      let new = some-injective _ _ (rw (found, resume) at h) in
      rw (← new) (elim (Option-cases (lookup id z.approval_events)) [
        | inl absent ↦ rw absent
        | inr (g, listed) ↦
            let apart : g ≢ e = λ same. ne (listed ∙ ap (λ (n : ℕ). some n) same) in
            rw listed (ground arith)
      ])
]

begin-events :
    (id : String) (e f : ℕ) (y z : ExecutionControl)
    → begin_human_wait id y ≡ some (z, f)
    → e < y.next_event
    → (z.events e ≡ y.events e) × (e < f)
unfolding begin_human_wait
begin-events id e f y z h lt = ground arith

-- A second wait on a checkpoint starves the first: a resumption releases the second alone, and once
-- the second has returned, a further resumption does not release the first.
pub second_wait_starves_first :
    (id : String) (e f : ℕ) (x y z u v : ExecutionControl)
    → EventsMade x
    → begin_human_wait id x ≡ some (y, e)
    → begin_human_wait id y ≡ some (z, f)
    → resume id z ≡ some u
    → resume id (forget_wait id u) ≡ some v
    → (end_human_wait id f u ≡ released (forget_wait id u))
      × (end_human_wait id e u ≡ still_waiting)
      × (end_human_wait id e v ≡ still_waiting)
unfolding end_human_wait
second_wait_starves_first id e f x y z u v made h k r s =
    let w = begun id e x y made h in
    let w' = begun id f y z w.made k in
    let w'' = resumed_wait id f false z u w' r in
    let (kept, older) = begin-events id e f y z k (w.made id e w.listed) in
    let unset : u.events e ≡ false =
      resume-events id e z u r (ground (arith, w'.listed)) ∙ kept ∙ w.state in
    let still : v.events e ≡ false =
      resume-events id e (forget_wait id u) v s
        (ground (arith, lookup-erase id id u.approval_events, eq_iff id id))
      ∙ unset in
    (ground (arith, w''.state, w''.listed), ground (arith, unset), ground (arith, still))
