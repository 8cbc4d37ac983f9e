-- ===== src/Approval/Invariant.antt =====
-- The two dicts of pending requests name the same objects
-- (dare_framework/tool/_internal/control/approval_manager.py): every call keeps them in step.
use deterministic_agent_runt.Base.{
  ℕ, ◌<◌, String, false, Option, none, some, List, ◌≡◌, refl, ap, arith, eq_iff,
}
use deterministic_agent_runt.Base.Dict.{lookup, lookup-insert}
use deterministic_agent_runt.Approval.Types.{ApprovalRule, PendingApprovalRequest, PendingApproval}
use deterministic_agent_runt.Approval.Params.{request_fingerprint}
use deterministic_agent_runt.Approval.Manager.{Manager, new_manager, remove_rule}
use deterministic_agent_runt.Approval.Calls.{
  Call, call_fingerprint, call_request, find_for_call, track_pending_session, apply_rule,
  add_pending, join_pending, answer_call, evaluate, fresh_pending,
}

-- What the entry of a request's id promises.
pub record EntryById (m : Manager) (id : String) (r : ℕ) : Type 0 where
  pub allocated : r < m.next_object
  pub own_id : (m.objects r).request.request_id ≡ id
  pub indexed : lookup (m.objects r).fingerprint m.pending_by_fingerprint ≡ some r
  pub undecided : (m.objects r).resolution ≡ none
  pub unset : (m.objects r).event_set ≡ false

-- What the entry of a fingerprint promises.
pub record EntryByFingerprint (m : Manager) (fingerprint : String) (r : ℕ) : Type 0 where
  pub own_fingerprint : (m.objects r).fingerprint ≡ fingerprint
  pub of_request :
      fingerprint
      ≡ request_fingerprint (m.objects r).request.capability_id (m.objects r).request.params_hash
  pub listed : lookup (m.objects r).request.request_id m.pending_by_id ≡ some r

pub record InStep (m : Manager) : Type 0 where
  pub by_id : (id : String) (r : ℕ) → lookup id m.pending_by_id ≡ some r → EntryById m id r
  pub by_fingerprint :
      (fingerprint : String) (r : ℕ)
      → lookup fingerprint m.pending_by_fingerprint ≡ some r
      → EntryByFingerprint m fingerprint r

pub new_manager-InStep : (ws us : List ApprovalRule) → InStep (new_manager ws us)
unfolding new_manager lookup
new_manager-InStep ws us = record { by_id = λ id r h. cc; by_fingerprint = λ f r h. cc }

-- the id of a new request is not in use
abbrev pub IsFresh : String → Manager → Type 0
IsFresh id m = lookup id m.pending_by_id ≡ none

-- tracking a session changes the sessions alone
pub tracked_fields :
    (p : PendingApproval) (s : Option String)
    → ((track_pending_session p s).0.request ≡ p.request)
      × ((track_pending_session p s).0.fingerprint ≡ p.fingerprint)
      × ((track_pending_session p s).0.resolution ≡ p.resolution)
      × ((track_pending_session p s).0.event_set ≡ p.event_set)
unfolding track_pending_session
tracked_fields p none = (refl, refl, refl, refl)
tracked_fields p (some s) = ground arith

module _ (q : PendingApprovalRequest) (f : String) (s : Option String) (m : Manager)
    (inv : InStep m) (fresh : IsFresh q.request_id m)
    (absent : lookup f m.pending_by_fingerprint ≡ none)
    (print : f ≡ request_fingerprint q.capability_id q.params_hash) where
  add_by_id :
      (id : String) (r : ℕ)
      → lookup id (add_pending q f s m).0.pending_by_id ≡ some r
      → EntryById (add_pending q f s m).0 id r
  unfolding add_pending
  add_by_id id r h = ground (
    arith,
    lookup-insert q.request_id id m.next_object m.pending_by_id,
    inv.by_id id r,
    lookup-insert f (m.objects r).fingerprint m.next_object m.pending_by_fingerprint,
    lookup-insert f f m.next_object m.pending_by_fingerprint,
    tracked_fields (fresh_pending q f) s,
    eq_iff q.request_id id,
    eq_iff f (m.objects r).fingerprint,
    eq_iff f f,
  )

  add_by_fingerprint :
      (g : String) (r : ℕ)
      → lookup g (add_pending q f s m).0.pending_by_fingerprint ≡ some r
      → EntryByFingerprint (add_pending q f s m).0 g r
  unfolding add_pending
  add_by_fingerprint g r h = ground (
    arith,
    lookup-insert f g m.next_object m.pending_by_fingerprint,
    inv.by_fingerprint g r,
    inv.by_id (m.objects r).request.request_id r,
    lookup-insert q.request_id (m.objects r).request.request_id m.next_object m.pending_by_id,
    lookup-insert q.request_id q.request_id m.next_object m.pending_by_id,
    tracked_fields (fresh_pending q f) s,
    eq_iff f g,
    eq_iff q.request_id q.request_id,
    eq_iff q.request_id (m.objects r).request.request_id,
  )

module _ (r : ℕ) (s : Option String) (m : Manager) (inv : InStep m) where
  join_by_id :
      (id : String) (q : ℕ)
      → lookup id m.pending_by_id ≡ some q
      → EntryById (join_pending r s m).0 id q
  unfolding join_pending
  join_by_id id q h = ground (arith, inv.by_id id q, tracked_fields (m.objects r) s)

  join_by_fingerprint :
      (g : String) (q : ℕ)
      → lookup g m.pending_by_fingerprint ≡ some q
      → EntryByFingerprint (join_pending r s m).0 g q
  unfolding join_pending
  join_by_fingerprint g q h = ground (arith, inv.by_fingerprint g q, tracked_fields (m.objects r) s)

-- the parts of the state that pending requests live in
abbrev pub SamePending : Manager → Manager → Type 0
SamePending m n =
    (n.objects ≡ m.objects)
    × (n.next_object ≡ m.next_object)
    × (n.pending_by_id ≡ m.pending_by_id)
    × (n.pending_by_fingerprint ≡ m.pending_by_fingerprint)

pub SamePending-InStep : (m n : Manager) → SamePending m n → InStep m → InStep n
SamePending-InStep m n (objects, next, ids, prints) inv = record {
  by_id = λ id r h. ground (
    arith,
    objects,
    next,
    ids,
    prints,
    inv.by_id id r,
    ap (λ (o : ℕ → PendingApproval). o r) objects,
    ap (lookup id) ids,
    ap (lookup (m.objects r).fingerprint) prints,
  );
  by_fingerprint = λ g r h. ground (
    arith,
    inv.by_fingerprint g r,
    ap (λ (o : ℕ → PendingApproval). o r) objects,
    ap (lookup g) prints,
    ap (lookup (m.objects r).request.request_id) ids,
  );
}

pub remove_rule-SamePending :
    (rule_id : String) (m : Manager) → SamePending m (remove_rule rule_id m).0
unfolding remove_rule
remove_rule-SamePending rule_id m = ground arith

pub apply_rule-SamePending : (r : ApprovalRule) (m : Manager) → SamePending m (apply_rule r m).0
unfolding apply_rule
apply_rule-SamePending r m = ground arith

answer_call-InStep :
    (c : Call) (m : Manager) (found : Option ApprovalRule) (existing : Option ℕ)
    → lookup (call_fingerprint c) m.pending_by_fingerprint ≡ existing
    → InStep m
    → IsFresh c.fresh_id m
    → InStep (answer_call c found existing m).0
unfolding request_fingerprint
answer_call-InStep c m (some r) existing e inv fresh =
    SamePending-InStep m _ (apply_rule-SamePending r m) inv
answer_call-InStep c m none none e inv fresh = record {
  by_id = add_by_id (call_request c) (call_fingerprint c) c.session_id m inv fresh e refl;
  by_fingerprint =
      add_by_fingerprint (call_request c) (call_fingerprint c) c.session_id m inv fresh e refl;
}
answer_call-InStep c m none (some r) e inv fresh = record {
  by_id = λ id q h. join_by_id r c.session_id m inv id q (unfold join_pending in h);
  by_fingerprint = λ g q h. join_by_fingerprint r c.session_id m inv g q (unfold join_pending in h);
}

-- Every `evaluate` keeps the two dicts in step, given that the id of a new request is not in use:
-- the entry of an id and the entry of a fingerprint name one undecided object, whose request has
-- that id and that fingerprint.
pub evaluate-InStep :
    (c : Call) (m : Manager) → InStep m → IsFresh c.fresh_id m → InStep (evaluate c m).0
unfolding evaluate
evaluate-InStep c m inv fresh = answer_call-InStep c m (find_for_call c m) _ refl inv fresh
