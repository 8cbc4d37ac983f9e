-- ===== src/Approval/Once.antt =====
-- A decision is taken once (dare_framework/tool/_internal/control/approval_manager.py, `_resolve_request` and
-- `wait_for_resolution`): once a waiter has it, the manager knows the request no more.
use deterministic_agent_runt.Base.{
  ℕ, String, false, Option, none, some, ◌==◌, ◌≡◌, inl, inr, arith, Option-cases, eq_iff,
}
use deterministic_agent_runt.Base.Dict.{lookup, lookup-insert, lookup-erase}
use deterministic_agent_runt.Approval.Types.{ApprovalRule}
use deterministic_agent_runt.Approval.Manager.{
  Manager, Outcome, returned, key_error, value_error, runtime_error, append_rule,
  persist_rules_for_scope,
}
use deterministic_agent_runt.Approval.Calls.{
  Call, apply_rule, add_pending, join_pending, answer_call, evaluate,
}
use deterministic_agent_runt.Approval.Resolve.{
  Verdict, build_rule, record_rule, settle, finish_resolution, resolve_object, resolve_request,
  revoke, resolved, unknown_request, begin_wait, end_wait,
}
use deterministic_agent_runt.Approval.Invariant.{InStep}
use deterministic_agent_runt.Approval.Resolution.{
  Step, evaluates, resolves, revokes, begins_wait, ends_wait, Reach, here, next,
}
use deterministic_agent_runt.Approval.Waiters.{delivered}

-- A request that is neither pending nor kept for a late waiter.
pub record IsGone (id : String) (m : Manager) : Type 0 where
  pub unlisted : lookup id m.pending_by_id ≡ none
  pub taken : lookup id m.resolved_by_id ≡ none

module _ (id : String) where
  -- no new request gets the id
  abbrev pub StepAvoids : {m n : Manager} → Step m n → Type 0
  StepAvoids (evaluates c fresh) = c.fresh_id == id ≡ false
  StepAvoids (resolves v) = Unit
  StepAvoids (revokes rule_id) = Unit
  StepAvoids (begins_wait j) = Unit
  StepAvoids (ends_wait j r o e) = Unit

  abbrev pub Avoids : {m n : Manager} → Reach m n → Type 0
  Avoids here = Unit
  Avoids (next path s) = Avoids path × StepAvoids s

  answer_call-IsGone :
      (c : Call) (m : Manager) (found : Option ApprovalRule) (existing : Option ℕ)
      → c.fresh_id == id ≡ false
      → IsGone id m
      → IsGone id (answer_call c found existing m).0
  unfolding add_pending join_pending apply_rule
  answer_call-IsGone c m (some q) existing new h = ground (arith, h)
  answer_call-IsGone c m none none new h =
      ground (arith, new, h, lookup-insert c.fresh_id id m.next_object m.pending_by_id)
  answer_call-IsGone c m none (some q) new h = ground (arith, h)

  record_rule-IsGone :
      (o : Option ApprovalRule) (m : Manager) → IsGone id m → IsGone id (record_rule o m)
  unfolding append_rule persist_rules_for_scope
  record_rule-IsGone none m h = h
  record_rule-IsGone (some r) m h = ground (arith, h)

  finish-IsGone :
      (v : Verdict) (q : ℕ) (m : Manager) (o : Outcome (Option ApprovalRule))
      → v.request_id == id ≡ false
      → IsGone id m
      → IsGone id (finish_resolution v q m o).0
  unfolding settle
  finish-IsGone v q m (returned rule) other h =
      let k = record_rule-IsGone rule m h in
      ground (
        arith,
        k,
        lookup-erase v.request_id id (record_rule rule m).pending_by_id,
        lookup-insert v.request_id id v.decision (record_rule rule m).resolved_by_id,
      )
  finish-IsGone v q m key_error other h = h
  finish-IsGone v q m value_error other h = h
  finish-IsGone v q m runtime_error other h = h

  resolve_request-IsGone :
      (v : Verdict) (m : Manager) → IsGone id m → IsGone id (resolve_request v m).0
  unfolding resolve_request resolve_object
  resolve_request-IsGone v m h = elim (Option-cases (lookup v.request_id m.pending_by_id)) [
    | inl e ↦ rw (e, resolve_request) h
    | inr (q, e) ↦
        let other : v.request_id == id ≡ false =
          ground (arith, h.unlisted, e, eq_iff v.request_id id) in
        rw (e, resolve_request) (finish-IsGone v q m (build_rule v (m.objects q).request) other h)
  ]

  revoke-IsGone : (rule_id : String) (m : Manager) → IsGone id m → IsGone id (revoke rule_id m).0
  unfolding revoke
  revoke-IsGone rule_id m h = ground (arith, h)

  begin_wait-IsGone : (j : String) (m : Manager) → IsGone id m → IsGone id (begin_wait j m).0
  unfolding begin_wait
  begin_wait-IsGone j m h = ground (arith, h, lookup-erase j id m.resolved_by_id)

  Step-IsGone : {m n : Manager} (s : Step m n) → StepAvoids s → IsGone id m → IsGone id n
  unfolding evaluate end_wait
  Step-IsGone (evaluates c fresh) new h = answer_call-IsGone c _ _ _ new h
  Step-IsGone (resolves v) new h = resolve_request-IsGone v _ h
  Step-IsGone (revokes rule_id) new h = revoke-IsGone rule_id _ h
  Step-IsGone (begins_wait j) new h = begin_wait-IsGone j _ h
  Step-IsGone {m} {n} (ends_wait j q o e) new h =
      ground (arith, e, h, lookup-erase j id m.resolved_by_id)

  Reach-IsGone : {m n : Manager} (path : Reach m n) → Avoids path → IsGone id m → IsGone id n
  Reach-IsGone here new h = h
  Reach-IsGone (next path s) new h = Step-IsGone s new.1 (Reach-IsGone path new.0 h)

  gone_is_unknown :
      (w : Verdict) (m : Manager)
      → w.request_id ≡ id
      → IsGone id m
      → ((begin_wait id m).1 ≡ unknown_request) × (resolve_request w m ≡ (m, key_error))
  unfolding begin_wait resolve_request
  gone_is_unknown w m e h = (ground (arith, h), rw e (rw (h.unlisted, resolve_request)))

-- Once a listed request has been granted or denied, its fingerprint is free for a new request, another
-- decision of it is refused, and a caller that comes to wait right after the decision gets it at once.
-- From then on, whatever calls are made that give no new request its id, a wait for it and a decision
-- of it are told that it is unknown.
pub decision_taken_once :
    (v w : Verdict) (r : ℕ) (m n o : Manager) (rule : Option ApprovalRule)
    → InStep m
    → lookup v.request_id m.pending_by_id ≡ some r
    → resolve_request v m ≡ (n, returned rule)
    → w.request_id ≡ v.request_id
    → (path : Reach (begin_wait v.request_id n).0 o) → Avoids v.request_id path
    → (lookup (m.objects r).fingerprint n.pending_by_fingerprint ≡ none)
      × (resolve_request w n ≡ (n, key_error))
      × ((begin_wait v.request_id n).1 ≡ resolved v.decision)
      × ((begin_wait v.request_id o).1 ≡ unknown_request)
      × (resolve_request w o ≡ (o, key_error))
unfolding resolve_request
decision_taken_once v w r m n o rule inv listed h same path new =
    let k = delivered v r m n rule inv listed h in
    let gone : IsGone v.request_id (begin_wait v.request_id n).0 =
      unfold begin_wait in
      ground (
        arith,
        k,
        lookup-erase v.request_id v.request_id n.resolved_by_id,
        eq_iff v.request_id v.request_id,
      ) in
    let later = gone_is_unknown v.request_id w o same (Reach-IsGone v.request_id path new gone) in
    (
      k.unindexed,
      rw same (rw (k.unlisted, resolve_request)),
      unfold begin_wait in ground (arith, k),
      later.0,
      later.1,
    )
