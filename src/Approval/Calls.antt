-- ===== src/Approval/Calls.antt =====
-- The public methods of `ToolApprovalManager` in
-- dare_framework/tool/_internal/control/approval_manager.py.
use deterministic_agent_runt.Base.{
  ℕ, ◌+◌, String, Bool, true, false, Option, none, some, [], ◌∷◌, ◌==◌, if◌then◌else◌, any,
}
use deterministic_agent_runt.Base.Text.{is_empty, empty_text}
use deterministic_agent_runt.Base.Dict.{lookup, insert}
use deterministic_agent_runt.Base.Heap.{write}
use deterministic_agent_runt.Json.{Fields}
use deterministic_agent_runt.Approval.Types.{
  ApprovalRule, PendingApprovalRequest, allowed, denied, pending, ApprovalEvaluation,
  PendingApproval, is_allow, is_once,
}
use deterministic_agent_runt.Approval.Params.{
  sanitize_approval_params, extract_command, params_hash, request_fingerprint,
}
use deterministic_agent_runt.Approval.Manager.{Manager, find_matching_rule, remove_rule}

-- `a or b` on `str | None`
abbrev pub or_text : Option String → Option String → Option String
or_text none b = b
or_text (some a) b = if is_empty a then b else some a

abbrev pub text_or_empty : Option String → String
text_or_empty none = empty_text
text_or_empty (some a) = a

-- `_track_pending_session_locked`: the object afterwards, and whether the session is new to it
unfoldable pub track_pending_session : PendingApproval → Option String → PendingApproval × Bool
track_pending_session p none = (p, false)
track_pending_session p (some s) =
    if is_empty s
    then (p, false)
    else if any (λ t. t == s) p.session_ids
    then (p, false)
    else (record p { session_ids = s ∷ p.session_ids }, true)

-- the answer for a call that a rule decides
abbrev pub rule_answer : ApprovalRule → ApprovalEvaluation
rule_answer r =
    if is_allow r.decision
    then record {
      status = allowed;
      request = none;
      rule = some r;
      reason = some "matched allow rule";
    }
    else record {
      status = denied;
      request = none;
      rule = some r;
      reason = some "matched deny rule";
    }

abbrev pub pending_answer : PendingApprovalRequest → ApprovalEvaluation
pending_answer q = record {
  status = pending;
  request = some q;
  rule = none;
  reason = some "approval required";
}

abbrev pub fresh_pending : PendingApprovalRequest → String → PendingApproval
fresh_pending q fingerprint = record {
  request = q;
  fingerprint = fingerprint;
  session_ids = [];
  event_set = false;
  resolution = none;
}

-- `evaluate` from the point where a rule has been found
unfoldable pub apply_rule : ApprovalRule → Manager → Manager × ApprovalEvaluation
unfolding remove_rule
apply_rule r m = (if is_once r.scope then (remove_rule r.rule_id m).0 else m, rule_answer r)

-- `evaluate` with no rule and no pending request of the fingerprint
unfoldable pub add_pending :
    PendingApprovalRequest → String → Option String → Manager → Manager × ApprovalEvaluation
unfolding track_pending_session
add_pending q fingerprint session m = (
  record m {
    objects =
        write m.next_object (track_pending_session (fresh_pending q fingerprint) session).0
          m.objects;
    next_object = m.next_object + 1;
    pending_by_fingerprint = insert fingerprint m.next_object m.pending_by_fingerprint;
    pending_by_id = insert q.request_id m.next_object m.pending_by_id;
    notifications = m.notifications + 1;
  },
  pending_answer q,
)

-- `evaluate` with a pending request of the fingerprint, the object at `r`
unfoldable pub join_pending : ℕ → Option String → Manager → Manager × ApprovalEvaluation
unfolding track_pending_session
join_pending r session m =
    let (p, added) = track_pending_session (m.objects r) session in
    (
      record m {
        objects = write r p m.objects;
        notifications = if added then m.notifications + 1 else m.notifications;
      },
      pending_answer p.request,
    )

-- What `evaluate` is called with, the new request's id and time, and the digest.
pub record Call : Type 0 where
  pub digest : Fields → String
  pub fresh_id : String
  pub now : ℕ
  pub capability_id : String
  pub params : Fields
  pub session_id : Option String
  pub reason : String

abbrev pub call_hash : Call → String
call_hash c = params_hash c.digest (sanitize_approval_params c.params)

abbrev pub call_command : Call → Option String
call_command c = extract_command (sanitize_approval_params c.params)

abbrev pub call_fingerprint : Call → String
call_fingerprint c = request_fingerprint c.capability_id (call_hash c)

abbrev pub call_request : Call → PendingApprovalRequest
call_request c = record {
  request_id = c.fresh_id;
  capability_id = c.capability_id;
  params = sanitize_approval_params c.params;
  params_hash = call_hash c;
  command = call_command c;
  session_id = c.session_id;
  reason = c.reason;
  created_at = c.now;
}

abbrev pub find_for_call : Call → Manager → Option ApprovalRule
find_for_call c m = find_matching_rule c.capability_id (call_hash c) (call_command c) c.session_id m

-- the branches of `evaluate`, by the rule found and by the pending object of the fingerprint
abbrev pub answer_call :
    Call → Option ApprovalRule → Option ℕ → Manager → Manager × ApprovalEvaluation
answer_call c (some r) existing m = apply_rule r m
answer_call c none none m = add_pending (call_request c) (call_fingerprint c) c.session_id m
answer_call c none (some r) m = join_pending r c.session_id m

unfoldable pub evaluate : Call → Manager → Manager × ApprovalEvaluation
evaluate c m =
    answer_call c (find_for_call c m) (lookup (call_fingerprint c) m.pending_by_fingerprint) m
