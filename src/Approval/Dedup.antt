-- ===== src/Approval/Dedup.antt =====
-- One request for one fingerprint, and no missed wake-up
-- (dare_framework/tool/_internal/control/approval_manager.py, `evaluate` and `poll_pending`).
use deterministic_agent_runt.Base.{
  ℕ, String, false, Option, none, some, ◌≡◌, refl, sym, ap, ◌∙◌, arith, eq_iff,
}
use mathlib.Core.Path.{fun_ext}
use deterministic_agent_runt.Base.Dict.{lookup, lookup-insert}
use deterministic_agent_runt.Base.Heap.{write}
use deterministic_agent_runt.Json.{Fields, end, field, Value}
use deterministic_agent_runt.Approval.Types.{ApprovalRule, PendingApproval, pending}
use deterministic_agent_runt.Approval.Params.{sanitize_approval_params, runtime_context_param}
use deterministic_agent_runt.Approval.Manager.{Manager}
use deterministic_agent_runt.Approval.Calls.{
  Call, call_fingerprint, find_for_call, track_pending_session, apply_rule, add_pending,
  join_pending, answer_call, evaluate,
}
use deterministic_agent_runt.Approval.Polling.{oldest_pending}
use deterministic_agent_runt.Approval.Invariant.{tracked_fields, apply_rule-SamePending}

-- the request that a pending answer carries is the one that the fingerprint's entry names
pending_is_indexed :
    (c : Call) (m : Manager) (found : Option ApprovalRule) (existing : Option ℕ)
    → lookup (call_fingerprint c) m.pending_by_fingerprint ≡ existing
    → (answer_call c found existing m).1.status ≡ pending
    → (r : ℕ) × (lookup
          (call_fingerprint c)
          (answer_call c found existing m).0.pending_by_fingerprint
        ≡ some r)
      × ((answer_call c found existing m).1.request
          ≡ some ((answer_call c found existing m).0.objects r).request)
      × (found ≡ none)
unfolding add_pending join_pending apply_rule
pending_is_indexed c m (some rule) existing e p = absurd (ground arith)
pending_is_indexed c m none none e p = (
  m.next_object,
  ground (
    arith,
    lookup-insert (call_fingerprint c) (call_fingerprint c) m.next_object m.pending_by_fingerprint,
    eq_iff (call_fingerprint c) (call_fingerprint c),
  ),
  ground arith,
  refl,
)
pending_is_indexed c m none (some r) e p = (r, e, ground arith, refl)

joined_again :
    (c : Call) (m : Manager) (r : ℕ)
    → lookup (call_fingerprint c) m.pending_by_fingerprint ≡ some r
    → find_for_call c m ≡ none
    → (evaluate c m).1.request ≡ some (m.objects r).request
unfolding evaluate join_pending
joined_again c m r e f = ground (arith, e, f, tracked_fields (m.objects r) c.session_id)

-- Two directly successive calls with one fingerprint share a request: if both are left pending, the
-- second is answered with the very request of the first, whatever its session, reason, time and the
-- id at hand.
pub evaluate_deduplicates :
    (c d : Call) (m : Manager)
    → (evaluate c m).1.status ≡ pending
    → call_fingerprint d ≡ call_fingerprint c
    → (evaluate d (evaluate c m).0).1.status ≡ pending
    → (evaluate d (evaluate c m).0).1.request ≡ (evaluate c m).1.request
unfolding evaluate
evaluate_deduplicates c d m p same p' =
    let n : Manager = (evaluate c m).0 in
    let (r, indexed, request, _) = pending_is_indexed c m (find_for_call c m) _ refl p in
    let (_, _, _, unmatched) = pending_is_indexed d n (find_for_call d n) _ refl p' in
    joined_again d n r (ap (λ (k : String). lookup k n.pending_by_fingerprint) same ∙ indexed)
      unmatched
    ∙ sym request

track_unchanged :
    (p : PendingApproval) (s : Option String)
    → (track_pending_session p s).1 ≡ false
    → (track_pending_session p s).0 ≡ p
unfolding track_pending_session
track_unchanged p none e = refl
track_unchanged p (some s) e = ground arith

write_self : (r : ℕ) (h : ℕ → PendingApproval) → write r (h r) h ≡ h
write_self r h = fun_ext (λ q. ground arith)

-- `oldest_pending` reads the objects and the dict of ids
SamePending-oldest :
    (s : Option String) (m n : Manager)
    → n.objects ≡ m.objects
    → n.pending_by_id ≡ m.pending_by_id
    → oldest_pending s n ≡ oldest_pending s m
unfolding oldest_pending
SamePending-oldest none m n objects ids = rw (objects, ids)
SamePending-oldest (some s) m n objects ids = rw (objects, ids)

quiet_answer :
    (c : Call) (m : Manager) (s : Option String) (found : Option ApprovalRule) (existing : Option ℕ)
    → (answer_call c found existing m).0.notifications ≡ m.notifications
    → oldest_pending s (answer_call c found existing m).0 ≡ oldest_pending s m
unfolding add_pending join_pending
quiet_answer c m s (some rule) existing quiet =
    let same = apply_rule-SamePending rule m in SamePending-oldest s m _ same.0 same.2
quiet_answer c m s none none quiet = absurd (omega arith)
quiet_answer c m s none (some r) quiet =
    let p : PendingApproval = m.objects r in
    let unchanged : (track_pending_session p c.session_id).0 ≡ p =
      track_unchanged p c.session_id (ground arith) in
    SamePending-oldest s m _
      (ap (λ (o : PendingApproval). write r o m.objects) unchanged ∙ write_self r m.objects) refl

-- No wake-up is missed: if an `evaluate` notifies nobody, then a poll for any session, or for all,
-- would find after it what it would have found before.
pub quiet_evaluate_shows_nothing_new :
    (c : Call) (m : Manager) (s : Option String)
    → (evaluate c m).0.notifications ≡ m.notifications
    → oldest_pending s (evaluate c m).0 ≡ oldest_pending s m
unfolding evaluate
quiet_evaluate_shows_nothing_new c m s quiet = quiet_answer c m s (find_for_call c m) _ quiet

-- two lists of parameters, one behind the other
abbrev pub append_fields : Fields → Fields → Fields
append_fields end gs = gs
append_fields (field k v fs) gs = field k v (append_fields fs gs)

sanitize-drops :
    (fs gs : Fields) (v : Value)
    → sanitize_approval_params (append_fields fs (field runtime_context_param v gs))
      ≡ sanitize_approval_params (append_fields fs gs)
unfolding sanitize_approval_params
sanitize-drops end gs v = ground (arith, eq_iff runtime_context_param runtime_context_param)
sanitize-drops (field k w fs) gs v = rw (sanitize-drops fs gs v)

-- the branches read the parameters only after sanitising them
answer_call_sanitized :
    (c : Call) (p q : Fields) (found : Option ApprovalRule) (existing : Option ℕ) (m : Manager)
    → sanitize_approval_params p ≡ sanitize_approval_params q
    → answer_call (record c { params = p }) found existing m
      ≡ answer_call (record c { params = q }) found existing m
answer_call_sanitized c p q (some r) existing m e = refl
answer_call_sanitized c p q none none m e = rw e
answer_call_sanitized c p q none (some r) m e = refl

-- The runtime context that the gateway passes among the parameters has no influence: with it or
-- without it, wherever it stands, a call is answered alike and leaves the same state.
pub evaluate_ignores_runtime_context :
    (c : Call) (fs gs : Fields) (v : Value) (m : Manager)
    → evaluate (record c { params = append_fields fs (field runtime_context_param v gs) }) m
      ≡ evaluate (record c { params = append_fields fs gs }) m
unfolding evaluate
evaluate_ignores_runtime_context c fs gs v m =
    let e = sanitize-drops fs gs v in
    let d : Call = record c { params = append_fields fs gs } in
    rw e (
      answer_call_sanitized c _ _ (find_for_call d m)
        (lookup (call_fingerprint d) m.pending_by_fingerprint) m e)
