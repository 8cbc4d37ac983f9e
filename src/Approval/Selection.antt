-- ===== src/Approval/Selection.antt =====
-- Which rule `_find_matching_rule` returns
-- (dare_framework/tool/_internal/control/approval_manager.py), against a description of the rules
-- that apply which knows nothing of their order.
use mathlib.Core.List.Memᴰ.{Memᴰ, append_left, append_right, append_cases}
use deterministic_agent_runt.Base.{
  String, true, false, Option, none, some, List, ◌≡◌, ◌⊎◌, inl, inr, ◌↔◌, arith, keep, first,
  first-mem, first-none, mem-keep, keep-mem, Option-cases, eq_iff,
}
use deterministic_agent_runt.Approval.Types.{ApprovalDecision, ApprovalRule, is_allow, is_deny}
use deterministic_agent_runt.Approval.Rules.{in_session, pick_rule, same_text}
use deterministic_agent_runt.Approval.Manager.{Manager, ordered_rules}

-- A rule stands in one of the lists, a session rule only for its own session or for all.
abbrev pub Applies : Option String → Manager → ApprovalRule → Type 0
Applies session m r =
    Memᴰ r m.once_rules
    ⊎ (Memᴰ r m.session_rules × ((r.session_id ≡ none) ⊎ (r.session_id ≡ session)))
    ⊎ Memᴰ r m.workspace_rules
    ⊎ Memᴰ r m.user_rules

pub same_text_iff : (a b : Option String) → (same_text a b ≡ true) ↔ (a ≡ b)
same_text_iff none none = ground arith
same_text_iff none (some b) = ground arith
same_text_iff (some a) none = ground arith
same_text_iff (some a) (some b) = ground (arith, eq_iff a b)

in_session_iff :
    (session : Option String) (r : ApprovalRule)
    → (in_session session r ≡ true) ↔ ((r.session_id ≡ none) ⊎ (r.session_id ≡ session))
unfolding in_session
in_session_iff session r =
    ground (arith, same_text_iff r.session_id none, same_text_iff r.session_id session)

pub Applies-ordered :
    (session : Option String) (m : Manager) (r : ApprovalRule)
    → Applies session m r
    → Memᴰ r (ordered_rules session m)
Applies-ordered session m r h = in_order h
  where
    eligible : List ApprovalRule
    eligible = keep (in_session session) m.session_rules

    in_order : Applies session m r → Memᴰ r (ordered_rules session m)
    in_order (inl h) = append_left _ h
    in_order (inr (inl (h, s))) =
        append_right m.once_rules
          (append_left _ (mem-keep _ r _ h ((in_session_iff session r).1 s)))
    in_order (inr (inr (inl h))) =
        append_right m.once_rules (append_right eligible (append_left _ h))
    in_order (inr (inr (inr h))) =
        append_right m.once_rules (append_right eligible (append_right m.workspace_rules h))

pub ordered-Applies :
    (session : Option String) (m : Manager) (r : ApprovalRule)
    → Memᴰ r (ordered_rules session m)
    → Applies session m r
ordered-Applies session m r h = elim (append_cases _ h) [
  | inl a ↦ inl a
  | inr h' ↦ elim (append_cases _ h') [
    | inl b ↦
        let k = keep-mem (in_session session) r m.session_rules b in
        inr (inl (k.0, (in_session_iff session r).0 k.1))
    | inr h'' ↦ elim (append_cases _ h'') [ inl c ↦ inr (inr (inl c)) | inr d ↦ inr (inr (inr d)) ]
  ]
]

is_deny_iff : (d : ApprovalDecision) → (is_deny d ≡ true) ↔ (d ≡ ApprovalDecision.deny)
is_deny_iff d = ground arith

is_allow_of_not_deny : (d : ApprovalDecision) → is_deny d ≡ false → d ≡ ApprovalDecision.allow
is_allow_of_not_deny d h = ground arith

-- What a list of matches gives.
pub data Picked (matches : List ApprovalRule) : Option ApprovalRule → Type 0 where
  denies :
      {r : ApprovalRule}
      → Memᴰ r matches
      → r.decision ≡ ApprovalDecision.deny
      → Picked matches (some r)
  allows :
      {r : ApprovalRule}
      → Memᴰ r matches
      → r.decision ≡ ApprovalDecision.allow
      → ((q : ApprovalRule) → Memᴰ q matches → q.decision ≡ ApprovalDecision.allow)
      → Picked matches (some r)
  nothing : ((q : ApprovalRule) → Memᴰ q matches → ⊥) → Picked matches none

pub pick_rule-Picked : (matches : List ApprovalRule) → Picked matches (pick_rule matches)
unfolding pick_rule
pick_rule-Picked matches = elim (Option-cases (first (λ r. is_deny r.decision) matches)) [
  | inl no_deny ↦
      let all_allow : (q : ApprovalRule) → Memᴰ q matches → q.decision ≡ ApprovalDecision.allow =
        λ q h. is_allow_of_not_deny q.decision (first-none _ q matches no_deny h) in
      elim (Option-cases (first (λ r. is_allow r.decision) matches)) [
        | inl no_allow ↦
            rw (no_deny, no_allow)
              (nothing (λ q h. cc (all_allow q h, first-none _ q matches no_allow h)))
        | inr (r, e) ↦
            let k = first-mem _ matches e in
            rw (no_deny, e) (allows k.0 (all_allow r k.0) all_allow)
      ]
  | inr (r, e) ↦ let k = first-mem _ matches e in rw e (denies k.0 ((is_deny_iff r.decision).0 k.1))
]
