-- ===== src/Approval/Waiters.antt =====
-- A decision reaches every caller that waits for it
-- (dare_framework/tool/_internal/control/approval_manager.py, `wait_for_resolution`).
use deterministic_agent_runt.Base.{
  ℕ, ◌<◌, String, true, Option, none, some, ◌≡◌, ap, inl, inr, arith, Option-cases, eq_iff,
}
use mathlib.Core.Path.{subst}
use deterministic_agent_runt.Base.Dict.{lookup, erase, lookup-insert, lookup-erase}
use deterministic_agent_runt.Approval.Types.{ApprovalDecision, ApprovalRule, PendingApproval}
use deterministic_agent_runt.Approval.Manager.{
  Manager, Outcome, returned, key_error, value_error, runtime_error,
}
use deterministic_agent_runt.Approval.Calls.{Call, add_pending, join_pending, answer_call, evaluate}
use deterministic_agent_runt.Approval.Resolve.{
  Verdict, build_rule, record_rule, settle, finish_resolution, resolve_object, resolve_request,
  end_wait,
}
use deterministic_agent_runt.Approval.Invariant.{
  InStep, SamePending, tracked_fields, apply_rule-SamePending,
}
use deterministic_agent_runt.Approval.Resolution.{
  record_rule-SamePending, revoke-SamePending, begin_wait-SamePending, end_wait-SamePending, Step,
  evaluates, resolves, revokes, begins_wait, ends_wait, Reach, resolve_request-InStep, here, next,
  Reach-InStep,
}

-- The object at `r` has been decided, and the event of its waiters is set.
pub record IsDecided (r : ℕ) (d : ApprovalDecision) (m : Manager) : Type 0 where
  pub allocated : r < m.next_object
  pub decision : (m.objects r).resolution ≡ some d
  pub event : (m.objects r).event_set ≡ true

module _ (r : ℕ) (d : ApprovalDecision) where
  SamePending-IsDecided : (m n : Manager) → SamePending m n → IsDecided r d m → IsDecided r d n
  SamePending-IsDecided m n (objects, next_object, _, _) h =
      ground (arith, next_object, ap (λ (o : ℕ → PendingApproval). o r) objects)

  answer_call-IsDecided :
      (c : Call) (m : Manager) (found : Option ApprovalRule) (existing : Option ℕ)
      → IsDecided r d m
      → IsDecided r d (answer_call c found existing m).0
  unfolding add_pending join_pending
  answer_call-IsDecided c m (some q) existing h =
      SamePending-IsDecided m _ (apply_rule-SamePending q m) h
  answer_call-IsDecided c m none none h = ground arith
  answer_call-IsDecided c m none (some q) h =
      ground (arith, tracked_fields (m.objects q) c.session_id)

  finish-IsDecided :
      (v : Verdict) (q : ℕ) (m : Manager) (o : Outcome (Option ApprovalRule))
      → (m.objects q).resolution ≡ none
      → IsDecided r d m
      → IsDecided r d (finish_resolution v q m o).0
  unfolding settle
  finish-IsDecided v q m (returned rule) undecided h =
      let s = SamePending-IsDecided m (record_rule rule m) (record_rule-SamePending rule m) h in
      ground (
        arith,
        s,
        ap (λ (o : ℕ → PendingApproval). (o q).resolution) (record_rule-SamePending rule m).0,
      )
  finish-IsDecided v q m key_error undecided h = h
  finish-IsDecided v q m value_error undecided h = h
  finish-IsDecided v q m runtime_error undecided h = h

  resolve_request-IsDecided :
      (v : Verdict) (m : Manager)
      → InStep m
      → IsDecided r d m
      → IsDecided r d (resolve_request v m).0
  unfolding resolve_request resolve_object
  resolve_request-IsDecided v m inv h = elim (Option-cases (lookup v.request_id m.pending_by_id)) [
    | inl e ↦ rw (e, resolve_request) h
    | inr (q, e) ↦
        let entry = inv.by_id v.request_id q e in
        rw (e, resolve_request) (finish-IsDecided v q m _ entry.undecided h)
  ]

  Step-IsDecided : {m n : Manager} → Step m n → InStep m → IsDecided r d m → IsDecided r d n
  unfolding evaluate
  Step-IsDecided (evaluates c fresh) inv h = answer_call-IsDecided c _ _ _ h
  Step-IsDecided (resolves v) inv h = resolve_request-IsDecided v _ inv h
  Step-IsDecided (revokes id) inv h = SamePending-IsDecided _ _ (revoke-SamePending id _) h
  Step-IsDecided (begins_wait id) inv h = SamePending-IsDecided _ _ (begin_wait-SamePending id _) h
  Step-IsDecided (ends_wait id q o e) inv h =
      SamePending-IsDecided _ _ (end_wait-SamePending id q _ _ o e) h

  pub Reach-IsDecided : {m n : Manager} → Reach m n → InStep m → IsDecided r d m → IsDecided r d n
  Reach-IsDecided here inv h = h
  Reach-IsDecided (next p s) inv h = Step-IsDecided s (Reach-InStep p inv) (Reach-IsDecided p inv h)

  -- a decided object answers its waiters
  pub end_wait-decided :
      (id : String) (m : Manager)
      → IsDecided r d m
      → end_wait id r m ≡ some (record m { resolved_by_id = erase id m.resolved_by_id }, returned d)
  unfolding end_wait
  end_wait-decided id m h = ground arith

-- what the settled manager holds of a request that was listed at `r`
settle_effect :
    (id : String) (d : ApprovalDecision) (r : ℕ) (m : Manager)
    → r < m.next_object
    → IsDecided r d (settle id d r m)
      × (lookup id (settle id d r m).resolved_by_id ≡ some d)
      × (lookup id (settle id d r m).pending_by_id ≡ none)
      × (lookup (m.objects r).fingerprint (settle id d r m).pending_by_fingerprint ≡ none)
unfolding settle
settle_effect id d r m lt = ground (
  arith,
  lookup-insert id id d m.resolved_by_id,
  lookup-erase id id m.pending_by_id,
  lookup-erase (m.objects r).fingerprint (m.objects r).fingerprint m.pending_by_fingerprint,
  eq_iff id id,
  eq_iff (m.objects r).fingerprint (m.objects r).fingerprint,
)

-- what a returned decision has done
pub record Delivered (v : Verdict) (r : ℕ) (m n : Manager) : Type 0 where
  pub decided : IsDecided r v.decision n
  pub kept : lookup v.request_id n.resolved_by_id ≡ some v.decision
  pub unlisted : lookup v.request_id n.pending_by_id ≡ none
  pub unindexed : lookup (m.objects r).fingerprint n.pending_by_fingerprint ≡ none

finish-Delivered :
    (v : Verdict) (r : ℕ) (m n : Manager) (o : Outcome (Option ApprovalRule))
    (rule : Option ApprovalRule)
    → r < m.next_object
    → finish_resolution v r m o ≡ (n, returned rule)
    → Delivered v r m n
finish-Delivered v r m n (returned rule') rule lt h =
    let m' : Manager = record_rule rule' m in
    let same = record_rule-SamePending rule' m in
    let k = settle_effect v.request_id v.decision r m' (ground (arith, same.1)) in
    ground (arith, k, ap (λ (o : ℕ → PendingApproval). (o r).fingerprint) same.0)
finish-Delivered v r m n key_error rule lt h = cc
finish-Delivered v r m n value_error rule lt h = cc
finish-Delivered v r m n runtime_error rule lt h = cc

pub delivered :
    (v : Verdict) (r : ℕ) (m n : Manager) (rule : Option ApprovalRule)
    → InStep m
    → lookup v.request_id m.pending_by_id ≡ some r
    → resolve_request v m ≡ (n, returned rule)
    → Delivered v r m n
unfolding resolve_request resolve_object
delivered v r m n rule inv listed h =
    finish-Delivered v r m n (build_rule v (m.objects r).request) rule
      (inv.by_id v.request_id r listed).allocated (rw (listed, resolve_request) at h)

-- Once a listed request has been granted or denied, a caller that was blocked on it gets that
-- decision from its wait, no matter which calls come between the decision and its wake-up.
pub waiter_gets_decision :
    (v : Verdict) (r : ℕ) (m n o : Manager) (rule : Option ApprovalRule)
    → InStep m
    → lookup v.request_id m.pending_by_id ≡ some r
    → resolve_request v m ≡ (n, returned rule)
    → Reach n o
    → (o' : Manager) × (end_wait v.request_id r o ≡ some (o', returned v.decision))
waiter_gets_decision v r m n o rule inv listed h path =
    let k = delivered v r m n rule inv listed h in
    let n_in_step : InStep n =
      subst (λ (p : Manager × Outcome (Option ApprovalRule)). InStep p.0) h
        (resolve_request-InStep v m inv) in
    (
      _,
      end_wait-decided r v.decision v.request_id o
          (Reach-IsDecided r v.decision path n_in_step k.decided),
    )
