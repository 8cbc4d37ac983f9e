-- ===== src/Approval/Order.antt =====
-- The oldest pending request, and the listing of rules (dare_framework/tool/_internal/control/approval_manager.py).
use mathlib.Core.List.{Perm}
use deterministic_agent_runt.Base.{
  Bool, true, false, ◌++◌, leb, arith, ◌≡◌, refl, ◌∙◌, Option, none, some, List, [], ◌∷◌, map,
  Bool-cases, inl, inr,
}
use deterministic_agent_runt.Base.Sort.{
  min_by, min_by-sort_by, sort_by-perm, sort_by-IsSorted, IsSorted, head_of, min_with,
}
use deterministic_agent_runt.Approval.Types.{ApprovalRule, PendingApproval}
use deterministic_agent_runt.Approval.Manager.{Manager}
use deterministic_agent_runt.Approval.Polling.{
  list_rules, list_pending, oldest_pending, pending_entries, request_of, entry_le, request_le,
}

request_of-min_by :
    (ps : List PendingApproval)
    → request_of (min_by entry_le ps) ≡ min_by request_le (map (λ p. p.request) ps)
unfolding min_by
request_of-min_by [] = refl
request_of-min_by (p ∷ ps) = least (min_by entry_le ps) (request_of-min_by ps)
  where
    least :
        (o : Option PendingApproval)
        → request_of o ≡ min_by request_le (map (λ p. p.request) ps)
        → request_of (some (min_with entry_le p o))
          ≡ some (min_with request_le p.request (min_by request_le (map (λ p. p.request) ps)))
    least none e = rw (← e)
    least (some q) e =
        rw (← e)
          (elim (Bool-cases (request_le p.request q.request)) [ inl t ↦ rw t | inr t ↦ rw t ])

-- The request that an unfiltered poll returns is the head of `list_pending`, which lists each pending
-- request once; with no pending request the poll finds none and the list is empty.
pub oldest_pending-list_pending :
    (m : Manager)
    → (oldest_pending none m ≡ head_of request_le (list_pending m))
      × Perm (list_pending m) (map (λ p. p.request) (pending_entries m))
unfolding oldest_pending list_pending
oldest_pending-list_pending m = (
  request_of-min_by (pending_entries m) ∙ min_by-sort_by request_le _,
  sort_by-perm request_le (map (λ p. p.request) (pending_entries m)),
)

abbrev pub older : ApprovalRule → ApprovalRule → Bool
older a b = leb a.created_at b.created_at

older_total : (a b : ApprovalRule) → older a b ≡ false → older b a ≡ true
older_total a b h = ground arith

older_trans : (a b c : ApprovalRule) → older a b ≡ true → older b c ≡ true → older a c ≡ true
older_trans a b c h k = ground arith

-- The listing of the rules is in the order of their times, and shows each rule of the four lists once.
list_rules-IsSorted :
    (m : Manager)
    → IsSorted older (list_rules m)
      × Perm
          (list_rules m)
          (m.once_rules ++ (m.session_rules ++ (m.workspace_rules ++ m.user_rules)))
unfolding list_rules
list_rules-IsSorted m =
    let rules : List ApprovalRule =
      m.once_rules ++ (m.session_rules ++ (m.workspace_rules ++ m.user_rules)) in
    (sort_by-IsSorted older older_total older_trans rules, sort_by-perm older rules)
