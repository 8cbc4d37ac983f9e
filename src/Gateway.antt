-- ===== src/Gateway.antt =====
-- `GovernedToolGateway` of dare_framework/tool/_internal/governed_tool_gateway.py, over the approval manager.
-- `invoke` awaits the manager twice, and other calls of the manager come in between, so it is three
-- steps: up to the evaluation, the begin of the wait, and the end of the wait; then the delegate is
-- called or the refusal returned. The event loggers, the observer and the transport get messages,
-- and their failures are swallowed: they are left out. A context object is a value.
pub mod Governance
mod Tests
use Prim.Native.String.{◌++◌ as append}
use deterministic_agent_runt.Base.{
  ℕ, String, Bool, true, false, ◌||◌, Option, none, some, List, [], ◌∷◌, first, ◌==◌, if◌then◌else◌,
}
use deterministic_agent_runt.Base.Text.{is_empty}
use deterministic_agent_runt.Json.{Value, Fields, text, runtime_override, end, field}
use deterministic_agent_runt.Approval.Types.{
  ApprovalDecision, ApprovalEvaluationStatus, ApprovalEvaluation, PendingApprovalRequest, allowed,
  denied, pending,
}
use deterministic_agent_runt.Approval.Params.{runtime_context_param}
use deterministic_agent_runt.Approval.Manager.{
  Manager, Outcome, returned, key_error, value_error, runtime_error,
}
use deterministic_agent_runt.Approval.Calls.{Call, evaluate}
use deterministic_agent_runt.Approval.Resolve.{
  Wait, resolved, unknown_request, blocked, begin_wait, end_wait,
}
use deterministic_agent_runt.Agent.ToolLoop.{get}
use deterministic_agent_runt.Security.{Descriptor, truth, set_field, set_default}

-- Of `ApprovalInvokeContext` what decides or is passed on.
pub record ApprovalInvokeContext : Type 0 where
  pub session_id : Option String
  pub runtime_context : Option Value
  pub force_approval : Bool
  pub approval_reason : Option String

-- The arguments of `invoke`, with the id and the time that the manager takes for a new request and
-- the digest of its parameters. The text of the context object is its `str()`.
pub record InvokeRequest : Type 0 where
  pub capability_id : String
  pub approval : Option ApprovalInvokeContext
  pub context : Option Value
  pub params : Fields
  pub context_text : String
  pub digest : Fields → String
  pub fresh_id : String
  pub now : ℕ

-- How far an invocation is: the delegate is to be called; it is refused with a status and an error;
-- it is about to wait for a request; or it waits for the event of a request's object.
pub data Phase : Type 0 where
  passed : Phase
  refused : String → String → Phase
  asked : String → Phase
  waits : String → ℕ → Phase

abbrev pub session_of : Option ApprovalInvokeContext → Option String
session_of none = none
session_of (some a) = a.session_id

abbrev pub forced : Option ApprovalInvokeContext → Bool
forced none = false
forced (some a) = a.force_approval

abbrev pub reason_given : Option ApprovalInvokeContext → Option String
reason_given none = none
reason_given (some a) = a.approval_reason

abbrev pub out_of_band : Option ApprovalInvokeContext → Option Value
out_of_band none = none
out_of_band (some a) = a.runtime_context

-- `runtime_context` of the approval, or else the named argument `context`
abbrev pub runtime_context_of : Option Value → Option Value → Option Value
runtime_context_of none context = context
runtime_context_of (some c) context = some c

-- `delegate_params`: a `context` that is a tool argument goes back among the parameters
abbrev pub delegate_params : Option Value → Option Value → Fields → Fields
delegate_params (some _) (some context) params = set_default "context" context params
delegate_params _ _ params = params

abbrev pub params_of : InvokeRequest → Fields
params_of i = delegate_params (out_of_band i.approval) i.context i.params

-- `_find_capability`
abbrev pub find_capability : String → List Descriptor → Option Descriptor
find_capability id ds = first (λ d. d.id == id) ds

abbrev pub asks_for_approval : Option Fields → Bool
asks_for_approval none = false
asks_for_approval (some metadata) = truth (get "requires_approval" metadata)

-- `_requires_approval`
abbrev pub descriptor_asks : Option Descriptor → Bool
descriptor_asks none = false
descriptor_asks (some d) = asks_for_approval d.metadata

unfoldable pub approval_required : InvokeRequest → List Descriptor → Bool
approval_required i ds = forced i.approval || descriptor_asks (find_capability i.capability_id ds)

-- `approval_reason or f"Tool {capability_id} requires approval"`
abbrev pub reason_or : Option String → String → String
reason_or none default = default
reason_or (some r) default = if is_empty r then default else r

-- the call of `evaluate`
abbrev pub approval_call : InvokeRequest → Call
approval_call i = record {
  digest = i.digest;
  fresh_id = i.fresh_id;
  now = i.now;
  capability_id = i.capability_id;
  params = params_of i;
  session_id = session_of i.approval;
  reason =
      reason_or (reason_given i.approval)
        (append "Tool " (append i.capability_id " requires approval"));
}

abbrev pub ask : Option PendingApprovalRequest → Phase
ask none = refused "fail" "tool invocation requires approval"
ask (some q) = asked q.request_id

abbrev pub by_status : ApprovalEvaluationStatus → Option PendingApprovalRequest → Phase
by_status allowed request = passed
by_status denied request = refused "not_allow" "tool invocation denied by approval rule"
by_status pending request = ask request

-- `_resolve_approval` up to its evaluation
abbrev pub after_evaluation : Manager × ApprovalEvaluation → Option Manager × Phase
after_evaluation (m, e) = (some m, by_status e.status e.request)

unfoldable pub resolve_approval : InvokeRequest → Option Manager → Option Manager × Phase
resolve_approval i none =
    (none, refused "fail" "tool requires approval but no approval manager is configured")
resolve_approval i (some m) = after_evaluation (evaluate (approval_call i) m)

-- `invoke` up to the evaluation
unfoldable pub begin_invoke :
    InvokeRequest → List Descriptor → Option Manager → Option Manager × Phase
unfolding approval_required resolve_approval
begin_invoke i ds m = if approval_required i ds then resolve_approval i m else (m, passed)

abbrev pub decide : ApprovalDecision → Phase
decide ApprovalDecision.allow = passed
decide ApprovalDecision.deny = refused "not_allow" "tool invocation denied by human approval"

abbrev pub resolution_failed : Phase
resolution_failed = refused "fail" "tool approval resolution failed"

-- the first part of `wait_for_resolution`; its `KeyError` is caught
abbrev pub by_wait : String → Wait → Phase
by_wait id (resolved d) = decide d
by_wait id unknown_request = resolution_failed
by_wait id (blocked r) = waits id r

unfoldable pub begin_resolution : String → Manager → Manager × Phase
begin_resolution id m = let (m', w) = begin_wait id m in (m', by_wait id w)

-- its second part; its `RuntimeError` is caught
abbrev pub by_outcome : Outcome ApprovalDecision → Phase
by_outcome (returned d) = decide d
by_outcome key_error = resolution_failed
by_outcome value_error = resolution_failed
by_outcome runtime_error = resolution_failed

abbrev pub after_wait :
    String → ℕ → Option (Manager × Outcome ApprovalDecision) → Manager → Manager × Phase
after_wait id r none m = (m, waits id r)
after_wait id r (some (m', o)) m = (m', by_outcome o)

-- a waiting invocation looks at its event
unfoldable pub end_resolution : String → ℕ → Manager → Manager × Phase
end_resolution id r m = after_wait id r (end_wait id r m) m

-- `_build_delegate_invoke_kwargs`
abbrev pub with_context : Option Value → String → Fields → Fields
with_context none s params = params
with_context (some c) s params = elim (get "context" params) [
  | none ↦ set_field "context" c params
  | some _ ↦ set_field runtime_context_param (runtime_override c s) params
]

unfoldable pub build_delegate_invoke_kwargs : InvokeRequest → Fields
build_delegate_invoke_kwargs i =
    with_context (runtime_context_of (out_of_band i.approval) i.context) i.context_text
      (params_of i)

-- What `invoke` returns: the delegate's result, or its own refusal, a failure whose output has the
-- status.
pub data Invoked (R : Type 0) : Type 0 where
  result : R → Invoked R
  refusal : String → String → Invoked R

-- the end of `invoke`, once it waits for nothing; the delegate acts on the rest of the world
unfoldable pub finish_invoke :
    {W R : Type 0} → (Fields → W → W × R) → InvokeRequest → Phase → W → Option (W × Invoked R)
unfolding build_delegate_invoke_kwargs
finish_invoke delegate i passed w =
    let (w', r) = delegate (build_delegate_invoke_kwargs i) w in some (w', result r)
finish_invoke delegate i (refused status error) w = some (w, refusal status error)
finish_invoke delegate i (asked _) w = none
finish_invoke delegate i (waits _ _) w = none
