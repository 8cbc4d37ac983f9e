-- ===== src/Approval/Tests.antt =====
-- Runs of the approval manager (dare_framework/tool/_internal/control/approval_manager.py): a call that
-- is asked about, granted or denied, and made again.
use mathlib.Core.List.Memᴰ.{Memᴰ, head, tail}
use mathlib.Core.List.{Perm}
use deterministic_agent_runt.Base.{true, false, none, some, [], ◌∷◌, map, ◌≡◌, refl, ap, inl, inr}
use deterministic_agent_runt.Base.Text.{is_empty}
use deterministic_agent_runt.Base.Dict.{lookup, insert}
use deterministic_agent_runt.Base.Sort.{head_of}
use deterministic_agent_runt.Json.{text, end, field}
use deterministic_agent_runt.Approval.Types.{
  allow, deny, workspace, user, capability, exact_params, ApprovalRule, pending, allowed, denied,
}
use deterministic_agent_runt.Approval.Params.{
  runtime_context_param, params_hash, request_fingerprint,
}
use deterministic_agent_runt.Approval.Manager.{
  Manager, returned, key_error, new_manager, find_matching_rule, drop_first, append_rule,
  persist_rules_for_scope,
}
use deterministic_agent_runt.Approval.Calls.{
  Call, evaluate, call_hash, add_pending, join_pending, track_pending_session,
}
use deterministic_agent_runt.Approval.Resolve.{
  Verdict, resolve_request, resolve_object, build_rule, settle, revoke, begin_wait, end_wait,
  resolved, unknown_request,
}
use deterministic_agent_runt.Approval.Polling.{
  oldest_pending, list_pending, request_le, pending_entries,
}
use deterministic_agent_runt.Approval.Decision.{DecidedByRules, evaluate_by_rules, Fits}
use deterministic_agent_runt.Approval.Invariant.{InStep}
use deterministic_agent_runt.Approval.Resolution.{
  evaluates, revokes, begins_wait, Reach, here, next, reachable-InStep,
}
use deterministic_agent_runt.Approval.Waiters.{waiter_gets_decision}
use deterministic_agent_runt.Approval.Once.{Avoids, decision_taken_once}
use deterministic_agent_runt.Approval.Memory.{denial_is_remembered, grant_is_remembered, IsAbout}
use deterministic_agent_runt.Approval.Persistence.{
  IsStored, reachable-IsStored, misfiled_rule_survives_revoke,
}
use deterministic_agent_runt.Approval.Dedup.{
  evaluate_deduplicates, quiet_evaluate_shows_nothing_new, evaluate_ignores_runtime_context,
}
use deterministic_agent_runt.Approval.Order.{oldest_pending-list_pending}

abbrev empty_manager : Manager
empty_manager = new_manager [] []

abbrev first_call : Call
first_call = record {
  capability_id = "shell";
  params = field "command" (text "ls -l") end;
  session_id = some "s1";
  reason = "risky";
  fresh_id = "r1";
  now = 5;
  digest = λ _. "d";
}

abbrev asked : Manager
asked = (evaluate first_call empty_manager).0

asked-Reach : Reach empty_manager asked
asked-Reach = next here (evaluates first_call fresh)
  where
    fresh : lookup "r1" empty_manager.pending_by_id ≡ none
    fresh = unfold new_manager lookup in refl

asked-InStep : InStep asked
asked-InStep = reachable-InStep [] [] asked asked-Reach

reachable-InStep_example : InStep asked
reachable-InStep_example = reachable-InStep [] [] asked asked-Reach

reachable-IsStored_example : IsStored asked
reachable-IsStored_example = reachable-IsStored [] [] asked tt tt asked-Reach

evaluate_by_rules_example : DecidedByRules first_call asked (evaluate first_call asked).1.status
evaluate_by_rules_example = evaluate_by_rules first_call asked

-- the request is listed, as the object at 0
asked_lists : lookup "r1" asked.pending_by_id ≡ some 0
unfolding evaluate find_matching_rule add_pending new_manager lookup insert
asked_lists = refl

abbrev grant_workspace : Verdict
grant_workspace = record {
  request_id = "r1";
  decision = allow;
  scope = workspace;
  matcher = exact_params;
  matcher_value = none;
  actor_session_id = none;
  fresh_id = "u1";
  now = 9;
}

abbrev granted_rule : ApprovalRule
granted_rule = record {
  rule_id = "u1";
  capability_id = "shell";
  decision = allow;
  scope = workspace;
  matcher = exact_params;
  matcher_value = some "d";
  created_at = 9;
  session_id = none;
}

abbrev granted : Manager
granted = (resolve_request grant_workspace asked).0

granting : resolve_request grant_workspace asked ≡ (granted, returned (some granted_rule))
unfolding evaluate find_matching_rule add_pending new_manager lookup insert resolve_request
    resolve_object build_rule params_hash
granting = refl

revoked-Reach : Reach granted (revoke "u1" granted).0
revoked-Reach = next here (revokes "u1")

waiter_gets_decision_example :
    (o : Manager) × (end_wait "r1" 0 (revoke "u1" granted).0 ≡ some (o, returned allow))
waiter_gets_decision_example =
    waiter_gets_decision grant_workspace 0 asked granted (revoke "u1" granted).0 (some granted_rule)
      asked-InStep asked_lists granting revoked-Reach

abbrev deny_user : Verdict
deny_user = record {
  request_id = "r1";
  decision = deny;
  scope = user;
  matcher = capability;
  matcher_value = none;
  actor_session_id = none;
  fresh_id = "u2";
  now = 9;
}

-- the caller that takes the grant, and another wait after it
abbrev taken : Manager
taken = (begin_wait "r1" granted).0

abbrev taken_once : Reach taken (begin_wait "r1" taken).0
taken_once = next here (begins_wait "r1")

taken_once-Avoids : Avoids "r1" taken_once
taken_once-Avoids = (tt, tt)

decision_taken_once_example :
    (lookup (asked.objects 0).fingerprint granted.pending_by_fingerprint ≡ none)
    × (resolve_request deny_user granted ≡ (granted, key_error))
    × ((begin_wait "r1" granted).1 ≡ resolved allow)
    × ((begin_wait "r1" (begin_wait "r1" taken).0).1 ≡ unknown_request)
    × (resolve_request deny_user (begin_wait "r1" taken).0 ≡ ((begin_wait "r1" taken).0, key_error))
decision_taken_once_example =
    decision_taken_once grant_workspace deny_user 0 asked granted (begin_wait "r1" taken).0
      (some granted_rule) asked-InStep asked_lists granting refl taken_once taken_once-Avoids

first_call-IsAbout : IsAbout first_call (asked.objects 0).request
unfolding evaluate find_matching_rule add_pending new_manager lookup
first_call-IsAbout = record { same_capability = refl; same_hash = refl; same_command = refl }

abbrev denied_rule : ApprovalRule
denied_rule = record {
  rule_id = "u2";
  capability_id = "shell";
  decision = deny;
  scope = user;
  matcher = capability;
  matcher_value = none;
  created_at = 9;
  session_id = none;
}

abbrev refused : Manager
refused = (resolve_request deny_user asked).0

denying : resolve_request deny_user asked ≡ (refused, returned (some denied_rule))
unfolding evaluate find_matching_rule add_pending new_manager lookup insert resolve_request
    resolve_object build_rule params_hash
denying = refl

full_hash : is_empty (call_hash first_call) ≡ false
unfolding params_hash
full_hash = refl

denial_is_remembered_example : (evaluate first_call refused).1.status ≡ denied
denial_is_remembered_example =
    denial_is_remembered deny_user 0 asked refused denied_rule first_call asked_lists
      first_call-IsAbout full_hash refl (inl (λ e. cc)) denying refl

only_rule_allows : (r : ApprovalRule) → Memᴰ r (granted_rule ∷ []) → r.decision ≡ allow
only_rule_allows r (head e) = ap (λ (q : ApprovalRule). q.decision) e
only_rule_allows r (tail m) = elim m [ ]

granted_allows : (r : ApprovalRule) → Fits first_call granted r → r.decision ≡ allow
unfolding evaluate find_matching_rule add_pending new_manager lookup insert resolve_request
    resolve_object build_rule params_hash append_rule persist_rules_for_scope settle
granted_allows r (inl m, h) = elim m [ ]
granted_allows r (inr (inl (m, s)), h) = elim m [ ]
granted_allows r (inr (inr (inl m)), h) = only_rule_allows r m
granted_allows r (inr (inr (inr m)), h) = elim m [ ]

grant_is_remembered_example : (evaluate first_call granted).1.status ≡ allowed
grant_is_remembered_example =
    grant_is_remembered grant_workspace 0 asked granted granted_rule first_call asked_lists
      first_call-IsAbout full_hash refl (inl (λ e. cc)) granting granted_allows

-- the same call from another session, with another id and time
abbrev second_call : Call
second_call = record first_call { session_id = some "s2"; fresh_id = "r2"; now = 8 }

still_pending : (evaluate first_call empty_manager).1.status ≡ pending
unfolding evaluate find_matching_rule add_pending new_manager lookup
still_pending = refl

pending_again : (evaluate second_call asked).1.status ≡ pending
unfolding evaluate find_matching_rule add_pending join_pending new_manager lookup insert
    request_fingerprint params_hash
pending_again = refl

evaluate_deduplicates_example :
    (evaluate second_call asked).1.request ≡ (evaluate first_call empty_manager).1.request
evaluate_deduplicates_example =
    evaluate_deduplicates first_call second_call empty_manager still_pending refl pending_again

quiet : (evaluate first_call asked).0.notifications ≡ asked.notifications
unfolding evaluate find_matching_rule add_pending join_pending new_manager lookup insert
    track_pending_session request_fingerprint params_hash
quiet = refl

quiet_evaluate_shows_nothing_new_example :
    oldest_pending (some "s1") (evaluate first_call asked).0 ≡ oldest_pending (some "s1") asked
quiet_evaluate_shows_nothing_new_example =
    quiet_evaluate_shows_nothing_new first_call asked (some "s1") quiet

evaluate_ignores_runtime_context_example :
    evaluate
      (record first_call {
        params = field "command" (text "ls -l") (field runtime_context_param (text "x") end);
      })
      asked
    ≡ evaluate first_call asked
evaluate_ignores_runtime_context_example =
    evaluate_ignores_runtime_context first_call (field "command" (text "ls -l") end) end (text "x")
      asked

oldest_pending-list_pending_example :
    (oldest_pending none asked ≡ head_of request_le (list_pending asked))
    × Perm (list_pending asked) (map (λ p. p.request) (pending_entries asked))
oldest_pending-list_pending_example = oldest_pending-list_pending asked

-- a rule of user scope that the workspace file holds
abbrev misfiled : Manager
misfiled = new_manager (denied_rule ∷ []) []

misfiled_rule_survives_revoke_example :
    ((revoke "u2" misfiled).1 ≡ true)
    × ((revoke "u2" misfiled).0.workspace_rules ≡ drop_first "u2" misfiled.workspace_rules)
    × ((revoke "u2" misfiled).0.workspace_file ≡ misfiled.workspace_file)
unfolding new_manager
misfiled_rule_survives_revoke_example =
    misfiled_rule_survives_revoke "u2" misfiled denied_rule refl refl refl (λ e. cc)
