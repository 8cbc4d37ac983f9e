-- ===== src/Approval/Manager.antt =====
-- `ToolApprovalManager` of dare_framework/tool/_internal/control/approval_manager.py: its state, and
-- each method as a function to the new state and the result. Every method body runs under one
-- lock, so a method is one step; a wait is split into what runs before and after it.
-- `uuid4().hex` and the clock's reading come in as arguments.
use deterministic_agent_runt.Base.{
  ℕ, String, Bool, false, Option, none, some, List, [], ◌∷◌, ◌++◌, ◌==◌, if◌then◌else◌, keep, first,
}
use deterministic_agent_runt.Base.Text.{empty_text}
use deterministic_agent_runt.Base.Dict.{Dict}
use deterministic_agent_runt.Base.Heap.{Heap}
use deterministic_agent_runt.Json.{end}
use deterministic_agent_runt.Approval.Types.{
  ApprovalDecision, ApprovalScope, ApprovalRule, PendingApproval,
}
use deterministic_agent_runt.Approval.Rules.{rule_matches, in_session, pick_rule}

-- `objects` holds the `_PendingApproval` objects; the two dicts of pending requests hold references
-- to them. `workspace_file` and `user_file` are what the stores hold, `notifications` counts the
-- calls of `notify_all`.
pub record Manager : Type 0 where
  pub once_rules : List ApprovalRule
  pub session_rules : List ApprovalRule
  pub workspace_rules : List ApprovalRule
  pub user_rules : List ApprovalRule
  pub workspace_file : List ApprovalRule
  pub user_file : List ApprovalRule
  pub objects : Heap PendingApproval
  pub next_object : ℕ
  pub pending_by_id : Dict ℕ
  pub pending_by_fingerprint : Dict ℕ
  pub resolved_by_id : Dict ApprovalDecision
  pub notifications : ℕ

-- what a method returns or raises
pub data Outcome (A : Type 0) : Type 0 where
  returned : A → Outcome A
  key_error : Outcome A
  value_error : Outcome A
  runtime_error : Outcome A

-- the memory behind a reference that no object has been stored at
abbrev pub blank_object : PendingApproval
blank_object = record {
  request = record {
    request_id = empty_text;
    capability_id = empty_text;
    params = end;
    params_hash = empty_text;
    command = none;
    session_id = none;
    reason = empty_text;
    created_at = 0;
  };
  fingerprint = empty_text;
  session_ids = [];
  event_set = false;
  resolution = none;
}

-- `__init__`, from what the two stores load
unfoldable pub new_manager : List ApprovalRule → List ApprovalRule → Manager
new_manager workspace_store user_store = record {
  once_rules = [];
  session_rules = [];
  workspace_rules = workspace_store;
  user_rules = user_store;
  workspace_file = workspace_store;
  user_file = user_store;
  objects = λ _. blank_object;
  next_object = 0;
  pending_by_id = [];
  pending_by_fingerprint = [];
  resolved_by_id = [];
  notifications = 0;
}

abbrev pub ordered_rules : Option String → Manager → List ApprovalRule
ordered_rules session m =
    m.once_rules
    ++ (keep (in_session session) m.session_rules ++ (m.workspace_rules ++ m.user_rules))

-- `_find_matching_rule`
unfoldable pub find_matching_rule :
    String → String → Option String → Option String → Manager → Option ApprovalRule
unfolding pick_rule
find_matching_rule capability_id hash command session m =
    pick_rule (keep (rule_matches capability_id hash command) (ordered_rules session m))

abbrev pub has_rule_id : String → ApprovalRule → Bool
has_rule_id rule_id r = r.rule_id == rule_id

-- `bucket.pop(idx)` at the first rule with the id
unfoldable pub drop_first : String → List ApprovalRule → List ApprovalRule
drop_first rule_id [] = []
drop_first rule_id (r ∷ rs) = if r.rule_id == rule_id then rs else r ∷ drop_first rule_id rs

-- `_remove_rule`: the first of the four buckets that has the id loses it
unfoldable pub remove_rule : String → Manager → Manager × Option ApprovalRule
unfolding drop_first
remove_rule rule_id m =
    let found = first (has_rule_id rule_id) in
    elim (found m.once_rules) [
      | some r ↦ (record m { once_rules = drop_first rule_id m.once_rules }, some r)
      | none ↦ elim (found m.session_rules) [
        | some r ↦ (record m { session_rules = drop_first rule_id m.session_rules }, some r)
        | none ↦ elim (found m.workspace_rules) [
          | some r ↦ (record m { workspace_rules = drop_first rule_id m.workspace_rules }, some r)
          | none ↦ elim (found m.user_rules) [
            | some r ↦ (record m { user_rules = drop_first rule_id m.user_rules }, some r)
            | none ↦ (m, none)
          ]
        ]
      ]
    ]

-- `_persist_rules_for_scope`
unfoldable pub persist_rules_for_scope : ApprovalScope → Manager → Manager
persist_rules_for_scope ApprovalScope.workspace m = record m { workspace_file = m.workspace_rules }
persist_rules_for_scope ApprovalScope.user m = record m { user_file = m.user_rules }
persist_rules_for_scope _ m = m

abbrev pub append_at : ApprovalScope → ApprovalRule → Manager → Manager
append_at ApprovalScope.once r m = record m { once_rules = m.once_rules ++ (r ∷ []) }
append_at ApprovalScope.session r m = record m { session_rules = m.session_rules ++ (r ∷ []) }
append_at ApprovalScope.workspace r m = record m { workspace_rules = m.workspace_rules ++ (r ∷ []) }
append_at ApprovalScope.user r m = record m { user_rules = m.user_rules ++ (r ∷ []) }

-- `_append_rule`
unfoldable pub append_rule : ApprovalRule → Manager → Manager
append_rule r m = append_at r.scope r m
