-- ===== src/Approval/Decision.antt =====
-- `ToolApprovalManager.evaluate` decides by the rules that apply
-- (dare_framework/tool/_internal/control/approval_manager.py): a deny beats every allow, and with no
-- rule the call waits.
use mathlib.Core.List.Memᴰ.{Memᴰ}
use deterministic_agent_runt.Base.{
  true, Option, none, some, List, ◌≡◌, refl, sym, ◌↔◌, arith, keep, mem-keep, keep-mem,
  if◌then◌else◌,
}
use mathlib.Core.Option.{some-injective}
use deterministic_agent_runt.Approval.Types.{
  ApprovalDecision, ApprovalRule, ApprovalEvaluationStatus, allowed, denied, pending, is_allow,
}
use deterministic_agent_runt.Approval.Rules.{rule_matches}
use deterministic_agent_runt.Approval.Manager.{Manager, ordered_rules, find_matching_rule}
use deterministic_agent_runt.Approval.Calls.{
  Call, call_hash, call_command, find_for_call, apply_rule, add_pending, join_pending, evaluate,
}
use deterministic_agent_runt.Approval.Selection.{
  Applies, Applies-ordered, ordered-Applies, Picked, denies, allows, nothing, pick_rule-Picked,
}

-- A rule that applies in the call's session and matches the call.
abbrev pub Fits : Call → Manager → ApprovalRule → Type 0
Fits c m r =
    Applies c.session_id m r
    × (rule_matches c.capability_id (call_hash c) (call_command c) r ≡ true)

matching : Call → Manager → List ApprovalRule
matching c m =
    keep (rule_matches c.capability_id (call_hash c) (call_command c))
      (ordered_rules c.session_id m)

Fits-mem : (c : Call) (m : Manager) (r : ApprovalRule) → Fits c m r → Memᴰ r (matching c m)
unfolding matching
Fits-mem c m r (applies, matches) =
    mem-keep _ r _ (Applies-ordered c.session_id m r applies) matches

mem-Fits : (c : Call) (m : Manager) (r : ApprovalRule) → Memᴰ r (matching c m) → Fits c m r
unfolding matching
mem-Fits c m r h =
    let k = keep-mem (rule_matches c.capability_id (call_hash c) (call_command c)) r _ h in
    (ordered-Applies c.session_id m r k.0, k.1)

find_for_call-Picked : (c : Call) (m : Manager) → Picked (matching c m) (find_for_call c m)
unfolding find_matching_rule matching
find_for_call-Picked c m = pick_rule-Picked _

Picked-mem :
    {matches : List ApprovalRule} {o : Option ApprovalRule} (r : ApprovalRule)
    → Picked matches o
    → o ≡ some r
    → Memᴰ r matches
Picked-mem r (denies {r = q} h d) e = rw (some-injective r q (sym e)) h
Picked-mem r (allows {r = q} h a all) e = rw (some-injective r q (sym e)) h
Picked-mem r (nothing empty) e = cc

-- the rule that decides a call fits it
pub find_for_call-Fits :
    (c : Call) (m : Manager) (r : ApprovalRule) → find_for_call c m ≡ some r → Fits c m r
find_for_call-Fits c m r e = mem-Fits c m r (Picked-mem r (find_for_call-Picked c m) e)

abbrev status_for : Option ApprovalRule → ApprovalEvaluationStatus
status_for none = pending
status_for (some r) = if is_allow r.decision then allowed else denied

status_by_rule : (c : Call) (m : Manager) → (evaluate c m).1.status ≡ status_for (find_for_call c m)
unfolding evaluate apply_rule add_pending join_pending
status_by_rule c m = ground arith

-- the three outcomes of a call, each with exactly the rules that lead to it
abbrev pub DecidedByRules : Call → Manager → ApprovalEvaluationStatus → Type 0
DecidedByRules c m status =
    ((status ≡ denied) ↔ ((r : ApprovalRule) × Fits c m r × (r.decision ≡ ApprovalDecision.deny)))
    × ((status ≡ allowed) ↔ (
        ((r : ApprovalRule) × Fits c m r)
        × ((r : ApprovalRule) → Fits c m r → r.decision ≡ ApprovalDecision.allow)))
    × ((status ≡ pending) ↔ ((r : ApprovalRule) → Fits c m r → ⊥))

decided :
    (c : Call) (m : Manager) (o : Option ApprovalRule)
    → Picked (matching c m) o
    → DecidedByRules c m (status_for o)
decided c m (some r) (denies h d) =
    let fit = mem-Fits c m r h in
    (
      ((λ _. (r, fit, d)), (λ _. ground arith)),
      ((λ e. absurd (ground arith)), (λ k. cc (k.1 r fit))),
      ((λ e. absurd (ground arith)), (λ k. absurd (k r fit))),
    )
decided c m (some r) (allows h a all) =
    let fit = mem-Fits c m r h in
    (
      ((λ e. absurd (ground arith)), (λ k. cc (all k.0 (Fits-mem c m k.0 k.1)))),
      ((λ _. ((r, fit), (λ q f. all q (Fits-mem c m q f)))), (λ _. ground arith)),
      ((λ e. absurd (ground arith)), (λ k. absurd (k r fit))),
    )
decided c m none (nothing empty) = (
  ((λ e. cc), (λ k. absurd (empty k.0 (Fits-mem c m k.0 k.1)))),
  ((λ e. cc), (λ k. absurd (empty k.0.0 (Fits-mem c m k.0.0 k.0.1)))),
  ((λ _ r f. empty r (Fits-mem c m r f)), (λ _. refl)),
)

-- A call is denied exactly if some rule that fits it denies; it is allowed exactly if some rule fits
-- it and every rule that fits it allows; it is left pending exactly if no rule fits it. A rule fits
-- if it matches the call and stands in one of the lists, a session rule only if it is bound to no
-- session or to the call's.
pub evaluate_by_rules : (c : Call) (m : Manager) → DecidedByRules c m (evaluate c m).1.status
evaluate_by_rules c m =
    rw (status_by_rule c m) (decided c m (find_for_call c m) (find_for_call-Picked c m))
