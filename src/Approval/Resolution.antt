-- ===== src/Approval/Resolution.antt =====
-- Decisions keep the pending dicts in step and reach the callers that wait
-- (dare_framework/tool/_internal/control/approval_manager.py).
use deterministic_agent_runt.Base.{
  ℕ, String, Option, none, some, List, ◌≡◌, refl, ap, ◌∙◌, inl, inr, arith, Option-cases, eq_iff,
}
use deterministic_agent_runt.Base.Dict.{lookup, lookup-erase}
use deterministic_agent_runt.Approval.Types.{ApprovalDecision, ApprovalScope, ApprovalRule}
use deterministic_agent_runt.Approval.Manager.{
  Manager, Outcome, returned, key_error, value_error, runtime_error, new_manager, append_rule,
  persist_rules_for_scope,
}
use deterministic_agent_runt.Approval.Calls.{Call, evaluate}
use deterministic_agent_runt.Approval.Resolve.{
  Verdict, build_rule, record_rule, settle, finish_resolution, resolve_object, resolve_request,
  revoke, begin_wait, end_wait,
}
use deterministic_agent_runt.Approval.Invariant.{
  InStep, EntryById, EntryByFingerprint, IsFresh, SamePending, SamePending-InStep, evaluate-InStep,
  new_manager-InStep,
}

persist-SamePending :
    (s : ApprovalScope) (m : Manager) → SamePending m (persist_rules_for_scope s m)
unfolding persist_rules_for_scope
persist-SamePending s m = ground arith

pub record_rule-SamePending :
    (o : Option ApprovalRule) (m : Manager) → SamePending m (record_rule o m)
unfolding append_rule persist_rules_for_scope
record_rule-SamePending none m = (refl, refl, refl, refl)
record_rule-SamePending (some r) m = ground arith

module _ (id : String) (d : ApprovalDecision) (r : ℕ) (m : Manager) (inv : InStep m)
    (listed : lookup id m.pending_by_id ≡ some r) where
  settle_by_id :
      (j : String) (q : ℕ)
      → lookup j (settle id d r m).pending_by_id ≡ some q
      → EntryById (settle id d r m) j q
  unfolding settle
  settle_by_id j q h = ground (
    arith,
    lookup-erase id j m.pending_by_id,
    lookup-erase (m.objects r).fingerprint (m.objects q).fingerprint m.pending_by_fingerprint,
    inv.by_id j q,
    inv.by_id id r listed,
    eq_iff id j,
    eq_iff (m.objects r).fingerprint (m.objects q).fingerprint,
  )

  settle_by_fingerprint :
      (g : String) (q : ℕ)
      → lookup g (settle id d r m).pending_by_fingerprint ≡ some q
      → EntryByFingerprint (settle id d r m) g q
  unfolding settle
  settle_by_fingerprint g q h = ground (
    arith,
    lookup-erase id (m.objects q).request.request_id m.pending_by_id,
    lookup-erase (m.objects r).fingerprint g m.pending_by_fingerprint,
    inv.by_fingerprint g q,
    inv.by_id id r listed,
    eq_iff id (m.objects q).request.request_id,
    eq_iff (m.objects r).fingerprint g,
  )

  settle-InStep : InStep (settle id d r m)
  settle-InStep = record { by_id = settle_by_id; by_fingerprint = settle_by_fingerprint }

resolve_object-InStep :
    (v : Verdict) (r : ℕ) (m : Manager)
    → InStep m
    → lookup v.request_id m.pending_by_id ≡ some r
    → InStep (resolve_object v r m).0
unfolding resolve_object
resolve_object-InStep v r m inv listed = built (build_rule v (m.objects r).request)
  where
    built : (o : Outcome (Option ApprovalRule)) → InStep (finish_resolution v r m o).0
    built (returned rule) =
        let same = record_rule-SamePending rule m in
        settle-InStep v.request_id v.decision r (record_rule rule m)
          (SamePending-InStep m _ same inv) (ap (lookup v.request_id) same.2 ∙ listed)
    built key_error = inv
    built value_error = inv
    built runtime_error = inv

pub resolve_request-InStep : (v : Verdict) (m : Manager) → InStep m → InStep (resolve_request v m).0
unfolding resolve_request
resolve_request-InStep v m inv = elim (Option-cases (lookup v.request_id m.pending_by_id)) [
  | inl e ↦ rw (e, resolve_request) inv
  | inr (r, e) ↦ rw (e, resolve_request) (resolve_object-InStep v r m inv e)
]

-- A revocation changes no pending request.
pub revoke-SamePending : (rule_id : String) (m : Manager) → SamePending m (revoke rule_id m).0
unfolding revoke
revoke-SamePending rule_id m = ground arith

pub begin_wait-SamePending : (id : String) (m : Manager) → SamePending m (begin_wait id m).0
unfolding begin_wait
begin_wait-SamePending id m = ground arith

pub end_wait-SamePending :
    (id : String) (r : ℕ) (m n : Manager) (o : Outcome ApprovalDecision)
    → end_wait id r m ≡ some (n, o)
    → SamePending m n
unfolding end_wait
end_wait-SamePending id r m n o h = ground arith

-- One call of a method, or one of the two parts of a wait.
pub data Step (m : Manager) : Manager → Type 0 where
  evaluates : (c : Call) → IsFresh c.fresh_id m → Step m (evaluate c m).0
  resolves : (v : Verdict) → Step m (resolve_request v m).0
  revokes : (rule_id : String) → Step m (revoke rule_id m).0
  begins_wait : (id : String) → Step m (begin_wait id m).0
  ends_wait :
      {n : Manager} (id : String) (r : ℕ) (o : Outcome ApprovalDecision)
      → end_wait id r m ≡ some (n, o)
      → Step m n

pub data Reach (m : Manager) : Manager → Type 0 where
  here : Reach m m
  next : {n o : Manager} → Reach m n → Step n o → Reach m o

pub Step-InStep : {m n : Manager} → Step m n → InStep m → InStep n
Step-InStep (evaluates c fresh) inv = evaluate-InStep c _ inv fresh
Step-InStep (resolves v) inv = resolve_request-InStep v _ inv
Step-InStep (revokes id) inv = SamePending-InStep _ _ (revoke-SamePending id _) inv
Step-InStep (begins_wait id) inv = SamePending-InStep _ _ (begin_wait-SamePending id _) inv
Step-InStep (ends_wait id r o h) inv =
    SamePending-InStep _ _ (end_wait-SamePending id r _ _ o h) inv

pub Reach-InStep : {m n : Manager} → Reach m n → InStep m → InStep n
Reach-InStep here inv = inv
Reach-InStep (next r s) inv = Step-InStep s (Reach-InStep r inv)

-- Whatever calls are made, in whatever order, from a new manager on: the two dicts of pending
-- requests stay in step, provided that no new request gets an id that is in use.
pub reachable-InStep :
    (workspace_store user_store : List ApprovalRule) (m : Manager)
    → Reach (new_manager workspace_store user_store) m
    → InStep m
reachable-InStep ws us m r = Reach-InStep r (new_manager-InStep ws us)
