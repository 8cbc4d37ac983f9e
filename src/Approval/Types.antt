-- ===== src/Approval/Types.antt =====
-- The enums and dataclasses of dare_framework/tool/_internal/control/approval_manager.py.
-- A time is the reading of a clock as a natural: the code only compares and copies times.
use deterministic_agent_runt.Base.{ℕ, String, Bool, true, false, Option, List}
use deterministic_agent_runt.Json.{Fields}

pub data ApprovalDecision : Type 0 where
  allow deny : ApprovalDecision

pub data ApprovalScope : Type 0 where
  once session workspace user : ApprovalScope

pub data ApprovalMatcherKind : Type 0 where
  capability exact_params command_prefix : ApprovalMatcherKind

pub record ApprovalRule : Type 0 where
  pub rule_id : String
  pub capability_id : String
  pub decision : ApprovalDecision
  pub scope : ApprovalScope
  pub matcher : ApprovalMatcherKind
  pub matcher_value : Option String
  pub created_at : ℕ
  pub session_id : Option String

pub record PendingApprovalRequest : Type 0 where
  pub request_id : String
  pub capability_id : String
  pub params : Fields
  pub params_hash : String
  pub command : Option String
  pub session_id : Option String
  pub reason : String
  pub created_at : ℕ

pub data ApprovalEvaluationStatus : Type 0 where
  allowed denied pending : ApprovalEvaluationStatus

pub record ApprovalEvaluation : Type 0 where
  pub status : ApprovalEvaluationStatus
  pub request : Option PendingApprovalRequest
  pub rule : Option ApprovalRule
  pub reason : Option String

-- `_PendingApproval`: a mutable object that two dicts and the waiters share. `event_set` is the
-- state of its `asyncio.Event`.
pub record PendingApproval : Type 0 where
  pub request : PendingApprovalRequest
  pub fingerprint : String
  pub session_ids : List String
  pub event_set : Bool
  pub resolution : Option ApprovalDecision

-- `==` on the enums
abbrev pub is_allow : ApprovalDecision → Bool
is_allow ApprovalDecision.allow = true
is_allow ApprovalDecision.deny = false

abbrev pub is_deny : ApprovalDecision → Bool
is_deny ApprovalDecision.allow = false
is_deny ApprovalDecision.deny = true

abbrev pub is_once : ApprovalScope → Bool
is_once ApprovalScope.once = true
is_once _ = false

abbrev pub is_session : ApprovalScope → Bool
is_session ApprovalScope.session = true
is_session _ = false
