-- ===== src/Agent/ToolLoop/Types.antt =====
-- The data of the tool loop of dare_framework/agent/_internal/tool_executor.py: what its collaborators
-- give, its events, its answer and state, and the tests and texts that it takes from them.
use deterministic_agent_runt.Base.{
  ℕ, String, Bool, true, false, not, ◌||◌, Option, none, some, List, [], ◌∷◌, ◌++◌, ◌==◌,
  if◌then◌else◌,
}
use deterministic_agent_runt.Json.{Value, Fields, end, field, obj, text}
use deterministic_agent_runt.Context.Budget.{Resource, Budget}
use deterministic_agent_runt.Agent.Milestone.{Around}

pub data HookDecision : Type 0 where
  allow block ask : HookDecision

pub data PolicyDecision : Type 0 where
  allow deny approve_required : PolicyDecision

-- what `_evaluate_tool_security` comes to: a `SecurityBoundaryError` with its code and its
-- stripped text, or a
-- decision with its reason and the trusted parameters
pub data Preflight : Type 0 where
  boundary_error : String → String → Preflight
  preflight : PolicyDecision → Option String → Fields → Preflight

pub record ToolResult : Type 0 where
  pub success : Bool
  pub output : Value
  pub error : Option String
  pub evidence : List String

-- what the call of the tool comes to
pub data Invocation : Type 0 where
  gave : ToolResult → Invocation
  human_approval_required : String → Invocation
  failed_with : String → Invocation

pub record ToolAgent (W : Type 0) : Type 0 where
  pub before_tool : ℕ → Bool → Around W → Around W × HookDecision
  pub evaluate_tool_security : ℕ → Around W → Around W × Preflight
  pub execute_safe : Bool → Option String → Fields → Around W → Around W × Invocation
  pub has_approval_manager : Bool
  pub max_tool_iterations : ℕ

-- The request's envelope, and what is known of the tool's descriptor.
pub record ToolRequest : Type 0 where
  pub max_tool_calls : Option ℕ
  pub done_predicate : Option (List String)
  pub descriptor_requires_approval : Bool
  pub requires_approval_override : Option Bool

-- The events that the loop logs, and its hook after the tool.
pub data ToolEvent : Type 0 where
  policy_denied : String → ToolEvent
  invoked : ℕ → PolicyDecision → Bool → ToolEvent
  tool_result : ℕ → Bool → ToolEvent
  tool_error : ℕ → String → ToolEvent
  after_tool : ℕ → Bool → Bool → ToolEvent

-- The dict that the loop returns.
pub record ToolAnswer : Type 0 where
  pub success : Bool
  pub status : Option String
  pub error : Option String
  pub output : Value
  pub result : Option ToolResult

pub record ToolState (W : Type 0) : Type 0 where
  pub around : Around W
  pub requires_approval : Bool
  pub evidence : Option (List String)
  pub trace : List ToolEvent

-- the end of a round: another one, an answer, or the `RuntimeError` of a budget
pub data RoundEnd : Type 0 where
  again : RoundEnd
  answers : ToolAnswer → RoundEnd
  over_budget : Resource → RoundEnd

-- `dict.get`
abbrev pub get : String → Fields → Option Value
get k end = none
get k (field l v fs) = if k == l then some v else get k fs

abbrev pub has_keys : List String → Fields → Bool
has_keys [] fs = true
has_keys (k ∷ ks) fs = elim (get k fs) [ none ↦ false | some _ ↦ has_keys ks fs ]

-- `_done_predicate_satisfied`
unfoldable pub done_predicate_satisfied : List String → Value → Bool
done_predicate_satisfied [] output = true
done_predicate_satisfied (k ∷ ks) (obj fs) = has_keys (k ∷ ks) fs
done_predicate_satisfied (k ∷ ks) _ = false

-- `done_predicate is None or _done_predicate_satisfied(...)`
abbrev pub meets_predicate : Option (List String) → ToolResult → Bool
meets_predicate none r = true
meets_predicate (some keys) r = done_predicate_satisfied keys r.output

-- `_tool_loop_max_calls`
unfoldable pub tool_loop_max_calls : Option ℕ → Budget → ℕ → ℕ
tool_loop_max_calls (some n) b iterations = n
tool_loop_max_calls none b iterations = elim b.max_tool_calls [ some n ↦ n | none ↦ iterations ]

abbrev pub non_empty : String → String → String
non_empty s default = if s == "" then default else s

abbrev pub status_text : Option Value → String
status_text (some (text s)) = non_empty s "fail"
status_text _ = "fail"

-- the status of a failed tool, from its output
abbrev pub fail_status : Value → String
fail_status (obj fs) = status_text (get "status" fs)
fail_status _ = "fail"

abbrev pub or_text : Option String → String → String
or_text none default = default
or_text (some s) default = non_empty s default

abbrev pub is_true : Option Bool → Bool
is_true none = false
is_true (some b) = b

abbrev pub wants_approval : PolicyDecision → Bool
wants_approval PolicyDecision.allow = false
wants_approval PolicyDecision.deny = false
wants_approval PolicyDecision.approve_required = true

-- `approved`, once the tool was called: neither policy nor the gateway has denied it
abbrev pub is_approved : PolicyDecision → Bool → Value → Bool
is_approved PolicyDecision.deny success output = false
is_approved _ success output = success || not (fail_status output == "not_allow")

abbrev pub not_denied : PolicyDecision → Bool
not_denied PolicyDecision.allow = true
not_denied PolicyDecision.deny = false
not_denied PolicyDecision.approve_required = true

abbrev pub refusal_output : String → String → String → Value
refusal_output status code message =
    obj
      (field "status" (text status) (field "code" (text code) (field "message" (text message) end)))

abbrev pub add_evidence : List String → Option (List String) → Option (List String)
add_evidence es none = none
add_evidence es (some held) = some (held ++ es)
