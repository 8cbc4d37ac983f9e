-- ===== src/Gateway/Tests.antt =====
-- Invocations through the governed gateway (dare_framework/tool/_internal/governed_tool_gateway.py): one that a
-- human allows, and one that comes late.
use deterministic_agent_runt.Base.{ℕ, ◌+◌, String, true, false, none, some, [], ◌∷◌, ◌≡◌, ◌↔◌, refl}
use deterministic_agent_runt.Base.Dict.{lookup, insert}
use deterministic_agent_runt.Json.{Fields, bool, text, null, runtime_override, end, field}
use deterministic_agent_runt.Approval.Types.{
  ApprovalDecision, ApprovalRule, allow, workspace, exact_params,
}
use deterministic_agent_runt.Approval.Params.{params_hash}
use deterministic_agent_runt.Approval.Manager.{Manager, returned, new_manager, find_matching_rule}
use deterministic_agent_runt.Approval.Calls.{evaluate, add_pending}
use deterministic_agent_runt.Approval.Resolve.{
  Verdict, resolve_request, resolve_object, build_rule, revoke,
}
use deterministic_agent_runt.Approval.Decision.{Fits}
use deterministic_agent_runt.Approval.Invariant.{InStep}
use deterministic_agent_runt.Approval.Resolution.{
  evaluates, revokes, Reach, here, next, reachable-InStep,
}
use deterministic_agent_runt.Security.{Descriptor, set_field}
use deterministic_agent_runt.Gateway.{
  InvokeRequest, passed, refused, asked, approval_required, approval_call, begin_invoke,
  begin_resolution, end_resolution, build_delegate_invoke_kwargs, result, refusal, finish_invoke,
}
use deterministic_agent_runt.Gateway.Governance.{
  begin_invoke_by_rules, decision_governs_invocation, late_joiner_refused,
}

abbrev list_files : InvokeRequest
list_files = record {
  capability_id = "shell";
  approval = some (record {
    session_id = some "s1";
    runtime_context = some null;
    force_approval = false;
    approval_reason = none;
  });
  context = some (text "here");
  params = field "command" (text "ls") end;
  context_text = "ctx";
  digest = λ _. "d";
  fresh_id = "r1";
  now = 5;
}

abbrev shell : Descriptor
shell = record { id = "shell"; metadata = some (field "requires_approval" (bool true) end) }

-- the argument `context` stays, and the runtime's context takes the reserved key
kwargs_keep_context :
    build_delegate_invoke_kwargs list_files
    ≡ field "command" (text "ls") (
        field "context"
          (text "here")
          (field "__dare_runtime_context__" (runtime_override null "ctx") end))
unfolding build_delegate_invoke_kwargs set_field
kwargs_keep_context = refl

abbrev empty_manager : Manager
empty_manager = new_manager [] []

shell_asks : approval_required list_files (shell ∷ []) ≡ true
unfolding approval_required
shell_asks = refl

begin_invoke_by_rules_example :
    (((begin_invoke list_files (shell ∷ []) (some empty_manager)).1 ≡ passed) ↔ (
      ((r : ApprovalRule) × Fits (approval_call list_files) empty_manager r)
      × ((r : ApprovalRule)
          → Fits (approval_call list_files) empty_manager r
          → r.decision ≡ ApprovalDecision.allow)))
    × (((begin_invoke list_files (shell ∷ []) (some empty_manager)).1
          ≡ refused "not_allow" "tool invocation denied by approval rule")
        ↔ ((r : ApprovalRule) × Fits (approval_call list_files) empty_manager r
            × (r.decision ≡ ApprovalDecision.deny)))
    × (((id : String) × ((begin_invoke list_files (shell ∷ []) (some empty_manager)).1 ≡ asked id))
        ↔ ((r : ApprovalRule) → Fits (approval_call list_files) empty_manager r → ⊥))
begin_invoke_by_rules_example =
    begin_invoke_by_rules list_files (shell ∷ []) empty_manager shell_asks

abbrev asking : Manager
asking = (evaluate (approval_call list_files) empty_manager).0

asking-Reach : Reach empty_manager asking
asking-Reach = next here (evaluates (approval_call list_files) fresh)
  where
    fresh : lookup "r1" empty_manager.pending_by_id ≡ none
    fresh = unfold new_manager lookup in refl

asking-InStep : InStep asking
asking-InStep = reachable-InStep [] [] asking asking-Reach

asking_lists : lookup "r1" asking.pending_by_id ≡ some 0
unfolding evaluate find_matching_rule add_pending new_manager lookup insert
asking_lists = refl

abbrev grant : Verdict
grant = record {
  request_id = "r1";
  decision = allow;
  scope = workspace;
  matcher = exact_params;
  matcher_value = none;
  actor_session_id = none;
  fresh_id = "u1";
  now = 9;
}

abbrev granted_rule : ApprovalRule
granted_rule = record {
  rule_id = "u1";
  capability_id = "shell";
  decision = allow;
  scope = workspace;
  matcher = exact_params;
  matcher_value = some "d";
  created_at = 9;
  session_id = none;
}

abbrev granted : Manager
granted = (resolve_request grant asking).0

granting : resolve_request grant asking ≡ (granted, returned (some granted_rule))
unfolding evaluate find_matching_rule add_pending new_manager lookup insert resolve_request
    resolve_object build_rule params_hash
granting = refl

-- a delegate that counts its calls and returns its parameters
abbrev counting : Fields → ℕ → ℕ × Fields
counting params n = (n + 1, params)

decision_governs_invocation_example :
    (finish_invoke counting list_files (end_resolution "r1" 0 asking).1 4 ≡ none)
    × (finish_invoke counting list_files (end_resolution "r1" 0 (revoke "u1" granted).0).1 4
        ≡ some (5, result (build_delegate_invoke_kwargs list_files)))
decision_governs_invocation_example =
    decision_governs_invocation counting list_files 4 grant 0 asking granted (revoke "u1" granted).0
      (some granted_rule) asking-InStep asking_lists granting (next here (revokes "u1"))

late_joiner_refused_example :
    ((end_resolution "r1" 0 granted).1 ≡ passed)
    × (finish_invoke counting list_files
          (begin_resolution "r1" (end_resolution "r1" 0 granted).0).1
          4
        ≡ some (4, refusal "fail" "tool approval resolution failed"))
late_joiner_refused_example =
    late_joiner_refused counting list_files 4 grant 0 asking granted (some granted_rule)
      asking-InStep asking_lists granting
