-- ===== src/Approval/Polling.antt =====
-- The views on pending requests and rules in
-- dare_framework/tool/_internal/control/approval_manager.py: `list_pending`, `list_rules`,
-- `_oldest_pending_locked` and the loop of `poll_pending`.
use Prim.Native.Nat.{compare, Ordering}
use Prim.Native.String.{compare as compare_text}
use deterministic_agent_runt.Base.{
  String, Bool, true, false, ◌||◌, Option, none, some, List, [], ◌∷◌, ◌++◌, map, ◌==◌,
  if◌then◌else◌, keep, any, leb,
}
use deterministic_agent_runt.Base.Dict.{values}
use deterministic_agent_runt.Base.Sort.{sort_by, min_by}
use deterministic_agent_runt.Approval.Types.{ApprovalRule, PendingApprovalRequest, PendingApproval}
use deterministic_agent_runt.Approval.Rules.{same_text}
use deterministic_agent_runt.Approval.Manager.{Manager, Outcome, returned, value_error}

abbrev pub text_le : String → String → Bool
text_le a b = elim (compare_text a b) [ Ordering.gt ↦ false | _ ↦ true ]

-- the order of the keys `(created_at, request_id)`
abbrev pub request_le : PendingApprovalRequest → PendingApprovalRequest → Bool
request_le a b = elim (compare a.created_at b.created_at) [
  | Ordering.lt ↦ true
  | Ordering.eq ↦ text_le a.request_id b.request_id
  | Ordering.gt ↦ false
]

abbrev pub entry_le : PendingApproval → PendingApproval → Bool
entry_le p q = request_le p.request q.request

-- the objects that `_pending_by_id` holds, in its order
abbrev pub pending_entries : Manager → List PendingApproval
pending_entries m = map m.objects (values m.pending_by_id)

unfoldable pub list_pending : Manager → List PendingApprovalRequest
unfolding sort_by
list_pending m = sort_by request_le (map (λ p. p.request) (pending_entries m))

unfoldable pub list_rules : Manager → List ApprovalRule
unfolding sort_by
list_rules m =
    sort_by (λ a b. leb a.created_at b.created_at)
      (m.once_rules ++ (m.session_rules ++ (m.workspace_rules ++ m.user_rules)))

-- `session_id in item.session_ids or item.request.session_id == session_id`
abbrev pub concerns : String → PendingApproval → Bool
concerns s p = any (λ t. t == s) p.session_ids || same_text p.request.session_id (some s)

abbrev pub candidates : Option String → Manager → List PendingApproval
candidates none m = pending_entries m
candidates (some s) m = keep (concerns s) (pending_entries m)

abbrev pub request_of : Option PendingApproval → Option PendingApprovalRequest
request_of none = none
request_of (some p) = some p.request

-- `_oldest_pending_locked`
unfoldable pub oldest_pending : Option String → Manager → Option PendingApprovalRequest
unfolding min_by
oldest_pending session m = request_of (min_by entry_le (candidates session m))

-- The loop of `poll_pending` over the managers that it finds each time it holds the lock, at the
-- call and after each wake-up; when they end, the deadline has passed.
unfoldable pub poll_loop : Option String → List Manager → Option PendingApprovalRequest
unfolding oldest_pending
poll_loop session [] = none
poll_loop session (m ∷ ms) = elim (oldest_pending session m) [
  | some q ↦ some q
  | none ↦ poll_loop session ms
]

-- `poll_pending`; the first argument is the test `timeout_seconds < 0`
unfoldable pub poll_pending :
    Bool → Option String → List Manager → Outcome (Option PendingApprovalRequest)
unfolding poll_loop
poll_pending negative session views =
    if negative then value_error else returned (poll_loop session views)
