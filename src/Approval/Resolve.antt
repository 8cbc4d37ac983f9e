-- ===== src/Approval/Resolve.antt =====
-- Decisions on pending requests, in
-- dare_framework/tool/_internal/control/approval_manager.py: `_build_rule`, `_resolve_request` (which
-- `grant` and `deny` call), `revoke`, and `wait_for_resolution` as the step before its wait and the
-- step after it.
use deterministic_agent_runt.Base.{
  ℕ, ◌+◌, String, Bool, true, false, Option, none, some, if◌then◌else◌,
}
use deterministic_agent_runt.Base.Text.{strip, is_empty}
use deterministic_agent_runt.Base.Dict.{lookup, insert, erase}
use deterministic_agent_runt.Base.Heap.{write}
use deterministic_agent_runt.Approval.Types.{
  ApprovalDecision, ApprovalScope, ApprovalMatcherKind, ApprovalRule, PendingApprovalRequest,
  is_once, is_session,
}
use deterministic_agent_runt.Approval.Manager.{
  Manager, Outcome, returned, key_error, value_error, runtime_error, remove_rule,
  persist_rules_for_scope, append_rule,
}
use deterministic_agent_runt.Approval.Calls.{or_text, text_or_empty}

-- The arguments of `grant` and `deny`, with the decision that they pass on, and the new rule's id and
-- time.
pub record Verdict : Type 0 where
  pub request_id : String
  pub decision : ApprovalDecision
  pub scope : ApprovalScope
  pub matcher : ApprovalMatcherKind
  pub matcher_value : Option String
  pub actor_session_id : Option String
  pub fresh_id : String
  pub now : ℕ

-- the stored matcher value; `none` is the `ValueError` of an empty command prefix
abbrev pub normalized_value :
    ApprovalMatcherKind → Option String → PendingApprovalRequest → Option (Option String)
normalized_value ApprovalMatcherKind.exact_params value q = some (some q.params_hash)
normalized_value ApprovalMatcherKind.command_prefix value q =
    let prefix = strip (text_or_empty (or_text value q.command)) in
    if is_empty prefix then none else some (some prefix)
normalized_value ApprovalMatcherKind.capability value q = some none

abbrev pub new_rule : Verdict → PendingApprovalRequest → Option String → ApprovalRule
new_rule v q value = record {
  rule_id = v.fresh_id;
  capability_id = q.capability_id;
  decision = v.decision;
  scope = v.scope;
  matcher = v.matcher;
  matcher_value = value;
  created_at = v.now;
  session_id = if is_session v.scope then or_text v.actor_session_id q.session_id else none;
}

unfoldable pub build_rule : Verdict → PendingApprovalRequest → Outcome (Option ApprovalRule)
build_rule v q =
    if is_once v.scope then returned none else elim (normalized_value v.matcher v.matcher_value q) [
      | none ↦ value_error
      | some value ↦ returned (some (new_rule v q value))
    ]

-- the rule is appended and its store saved
abbrev pub record_rule : Option ApprovalRule → Manager → Manager
record_rule none m = m
record_rule (some r) m = persist_rules_for_scope r.scope (append_rule r m)

-- the pending object at `r` gets its decision, and leaves the two dicts
unfoldable pub settle : String → ApprovalDecision → ℕ → Manager → Manager
settle request_id d r m =
    let p = m.objects r in
    record m {
      objects = write r (record p { resolution = some d; event_set = true }) m.objects;
      resolved_by_id = insert request_id d m.resolved_by_id;
      pending_by_id = erase request_id m.pending_by_id;
      pending_by_fingerprint = erase p.fingerprint m.pending_by_fingerprint;
      notifications = m.notifications + 1;
    }

-- the rest of `_resolve_request`, once `_build_rule` has returned or raised
abbrev pub finish_resolution :
    Verdict → ℕ → Manager → Outcome (Option ApprovalRule) → Manager × Outcome (Option ApprovalRule)
finish_resolution v r m (returned rule) =
    (settle v.request_id v.decision r (record_rule rule m), returned rule)
finish_resolution v r m key_error = (m, key_error)
finish_resolution v r m value_error = (m, value_error)
finish_resolution v r m runtime_error = (m, runtime_error)

-- `_resolve_request` at a known request
unfoldable pub resolve_object : Verdict → ℕ → Manager → Manager × Outcome (Option ApprovalRule)
unfolding build_rule settle append_rule persist_rules_for_scope
resolve_object v r m = finish_resolution v r m (build_rule v (m.objects r).request)

-- `_resolve_request`; `grant` passes `allow` and `deny` passes `deny`
unfoldable pub resolve_request : Verdict → Manager → Manager × Outcome (Option ApprovalRule)
resolve_request v m = elim (lookup v.request_id m.pending_by_id) [
  | none ↦ (m, key_error)
  | some r ↦ resolve_object v r m
]

-- `revoke`
unfoldable pub revoke : String → Manager → Manager × Bool
unfolding remove_rule persist_rules_for_scope
revoke rule_id m =
    let (m', removed) = remove_rule rule_id m in
    elim removed [ none ↦ (m', false) | some r ↦ (persist_rules_for_scope r.scope m', true) ]

-- What the first part of `wait_for_resolution` comes to: an answer, a `KeyError`, or a wait for the
-- event of an object.
pub data Wait : Type 0 where
  resolved : ApprovalDecision → Wait
  unknown_request : Wait
  blocked : ℕ → Wait

unfoldable pub begin_wait : String → Manager → Manager × Wait
begin_wait request_id m = elim (lookup request_id m.resolved_by_id) [
  | some d ↦ (record m { resolved_by_id = erase request_id m.resolved_by_id }, resolved d)
  | none ↦ elim (lookup request_id m.pending_by_id) [
    | none ↦ (m, unknown_request)
    | some r ↦ (m, blocked r)
  ]
]

-- After the event: `none` as long as it is not set, so the caller still waits (or times out, which
-- changes nothing).
unfoldable pub end_wait : String → ℕ → Manager → Option (Manager × Outcome ApprovalDecision)
end_wait request_id r m =
    if (m.objects r).event_set
    then elim ((m.objects r).resolution) [
      | none ↦ some (m, runtime_error)
      | some d ↦ some (record m { resolved_by_id = erase request_id m.resolved_by_id }, returned d)
    ]
    else none
