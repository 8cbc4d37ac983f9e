-- ===== src/Approval/Persistence.antt =====
-- The rule files and the scopes of the rules in memory
-- (dare_framework/tool/_internal/control/approval_manager.py, `_append_rule`, `_remove_rule`,
-- `_persist_rules_for_scope`).
use mathlib.Core.List.Memᴰ.{Memᴰ}
use deterministic_agent_runt.Base.{
  ℕ, String, true, Option, none, some, List, [], ◌∷◌, ◌≡◌, ◌≢◌, refl, sym, ◌∙◌, inl, inr, arith,
  Bool-cases, Option-cases, All, All-append, All-mem, first, first-mem, first-none, ◌==◌, eq_iff,
}
use deterministic_agent_runt.Approval.Types.{
  ApprovalDecision, ApprovalScope, once, session, workspace, user, ApprovalRule,
}
use deterministic_agent_runt.Approval.Manager.{
  Manager, Outcome, returned, key_error, value_error, runtime_error, new_manager, append_at,
  append_rule, drop_first, remove_rule, has_rule_id, persist_rules_for_scope,
}
use deterministic_agent_runt.Approval.Calls.{
  Call, find_for_call, add_pending, join_pending, answer_call, apply_rule, evaluate,
}
use deterministic_agent_runt.Approval.Resolve.{
  Verdict, record_rule, settle, finish_resolution, resolve_object, resolve_request, revoke,
  begin_wait, end_wait,
}
use deterministic_agent_runt.Approval.Selection.{Applies}
use deterministic_agent_runt.Approval.Decision.{find_for_call-Fits}
use deterministic_agent_runt.Approval.Resolution.{
  Step, evaluates, resolves, revokes, begins_wait, ends_wait, Reach, here, next,
}
use deterministic_agent_runt.Base.Dict.{lookup}

abbrev pub HasScope : ApprovalScope → ApprovalRule → Type 0
HasScope s r = r.scope ≡ s

-- Each list holds the rules of its scope, and the two files hold what memory holds.
pub record IsStored (m : Manager) : Type 0 where
  pub once_scope : All (HasScope once) m.once_rules
  pub session_scope : All (HasScope session) m.session_rules
  pub workspace_scope : All (HasScope workspace) m.workspace_rules
  pub user_scope : All (HasScope user) m.user_rules
  pub workspace_saved : m.workspace_file ≡ m.workspace_rules
  pub user_saved : m.user_file ≡ m.user_rules

drop_first-All :
    (P : ApprovalRule → Type 0) (id : String) (rs : List ApprovalRule)
    → All P rs
    → All P (drop_first id rs)
unfolding drop_first
drop_first-All P id [] h = tt
drop_first-All P id (r ∷ rs) h = elim (Bool-cases (r.rule_id == id)) [
  | inl e ↦ rw e h.1
  | inr e ↦ rw e (h.0, drop_first-All P id rs h.1)
]

-- what the rule lists and files are made of
abbrev SameRules : Manager → Manager → Type 0
SameRules m n =
    (n.once_rules ≡ m.once_rules)
    × (n.session_rules ≡ m.session_rules)
    × (n.workspace_rules ≡ m.workspace_rules)
    × (n.user_rules ≡ m.user_rules)
    × (n.workspace_file ≡ m.workspace_file)
    × (n.user_file ≡ m.user_file)

SameRules-IsStored : (m n : Manager) → SameRules m n → IsStored m → IsStored n
SameRules-IsStored m n (a, b, c, d, e, f) s = record {
  once_scope = rw a s.once_scope;
  session_scope = rw b s.session_scope;
  workspace_scope = rw c s.workspace_scope;
  user_scope = rw d s.user_scope;
  workspace_saved = e ∙ s.workspace_saved ∙ sym c;
  user_saved = f ∙ s.user_saved ∙ sym d;
}

append_persist-IsStored :
    (r : ApprovalRule) (s : ApprovalScope) (m : Manager)
    → r.scope ≡ s
    → IsStored m
    → IsStored (persist_rules_for_scope s (append_at s r m))
unfolding persist_rules_for_scope
append_persist-IsStored r once m e h =
    ground (arith, All-append (HasScope once) m.once_rules (r ∷ []) h.once_scope (e, tt))
append_persist-IsStored r session m e h =
    ground (arith, All-append (HasScope session) m.session_rules (r ∷ []) h.session_scope (e, tt))
append_persist-IsStored r workspace m e h =
    ground
      (arith, All-append (HasScope workspace) m.workspace_rules (r ∷ []) h.workspace_scope (e, tt))
append_persist-IsStored r user m e h =
    ground (arith, All-append (HasScope user) m.user_rules (r ∷ []) h.user_scope (e, tt))

scope_of_first :
    (s : ApprovalScope) (id : String) (rs : List ApprovalRule) (r : ApprovalRule)
    → All (HasScope s) rs
    → first (has_rule_id id) rs ≡ some r
    → r.scope ≡ s
scope_of_first s id rs r h e = All-mem (HasScope s) (first-mem _ rs e).0 h

module _ (id : String) (m : Manager) (h : IsStored m) where
  once_left : All (HasScope once) (drop_first id m.once_rules)
  once_left = drop_first-All (HasScope once) id m.once_rules h.once_scope

  session_left : All (HasScope session) (drop_first id m.session_rules)
  session_left = drop_first-All (HasScope session) id m.session_rules h.session_scope

  workspace_left : All (HasScope workspace) (drop_first id m.workspace_rules)
  workspace_left = drop_first-All (HasScope workspace) id m.workspace_rules h.workspace_scope

  user_left : All (HasScope user) (drop_first id m.user_rules)
  user_left = drop_first-All (HasScope user) id m.user_rules h.user_scope

  pub revoke-IsStored : IsStored (revoke id m).0
  unfolding revoke
  revoke-IsStored = elim (Option-cases (first (has_rule_id id) m.once_rules)) [
    | inr (r, e) ↦ ground (arith, once_left, scope_of_first once id m.once_rules r h.once_scope e)
    | inl e1 ↦ elim (Option-cases (first (has_rule_id id) m.session_rules)) [
      | inr (r, e) ↦
          ground
            (arith, session_left, scope_of_first session id m.session_rules r h.session_scope e)
      | inl e2 ↦ elim (Option-cases (first (has_rule_id id) m.workspace_rules)) [
        | inr (r, e) ↦ ground (
          arith,
          workspace_left,
          scope_of_first workspace id m.workspace_rules r h.workspace_scope e,
        )
        | inl e3 ↦ elim (Option-cases (first (has_rule_id id) m.user_rules)) [
          | inr (r, e) ↦
              ground (arith, user_left, scope_of_first user id m.user_rules r h.user_scope e)
          | inl e4 ↦ ground arith
        ]
      ]
    ]
  ]

has_rule_id_self : (r : ApprovalRule) → has_rule_id r.rule_id r ≡ true
has_rule_id_self r = (eq_iff r.rule_id r.rule_id).1 refl

-- in a stored manager a rule of scope `once` stands in the first list alone
once_rule_place :
    (c : Option String) (m : Manager) (r : ApprovalRule)
    → IsStored m
    → Applies c m r
    → r.scope ≡ once
    → Memᴰ r m.once_rules
once_rule_place c m r h (inl k) e = k
once_rule_place c m r h (inr (inl (k, _))) e = cc (All-mem (HasScope session) k h.session_scope)
once_rule_place c m r h (inr (inr (inl k))) e =
    cc (All-mem (HasScope workspace) k h.workspace_scope)
once_rule_place c m r h (inr (inr (inr k))) e = cc (All-mem (HasScope user) k h.user_scope)

remove_once-IsStored :
    (r : ApprovalRule) (m : Manager)
    → IsStored m
    → Memᴰ r m.once_rules
    → IsStored (remove_rule r.rule_id m).0
unfolding remove_rule
remove_once-IsStored r m h k = elim (Option-cases (first (has_rule_id r.rule_id) m.once_rules)) [
  | inr (q, e) ↦ ground (arith, once_left r.rule_id m h)
  | inl e ↦ cc (first-none _ r m.once_rules e k, has_rule_id_self r)
]

apply_rule-IsStored :
    (c : Option String) (r : ApprovalRule) (m : Manager)
    → IsStored m
    → Applies c m r
    → IsStored (apply_rule r m).0
unfolding apply_rule
apply_rule-IsStored c r m h k = by_scope r.scope refl
  where
    by_scope : (s : ApprovalScope) → r.scope ≡ s → IsStored (apply_rule r m).0
    by_scope once e = rw (e, apply_rule) (remove_once-IsStored r m h (once_rule_place c m r h k e))
    by_scope session e = rw (e, apply_rule) h
    by_scope workspace e = rw (e, apply_rule) h
    by_scope user e = rw (e, apply_rule) h

pub evaluate-IsStored : (c : Call) (m : Manager) → IsStored m → IsStored (evaluate c m).0
unfolding evaluate
evaluate-IsStored c m h = answered (find_for_call c m) _ refl
  where
    answered :
        (found : Option ApprovalRule) (existing : Option ℕ)
        → find_for_call c m ≡ found
        → IsStored (answer_call c found existing m).0
    answered (some r) existing e =
        apply_rule-IsStored c.session_id r m h (find_for_call-Fits c m r e).0
    answered none none e =
        SameRules-IsStored m _ (unfold add_pending in (refl, refl, refl, refl, refl, refl)) h
    answered none (some q) e =
        SameRules-IsStored m _ (unfold join_pending in (refl, refl, refl, refl, refl, refl)) h

finish-IsStored :
    (v : Verdict) (q : ℕ) (m : Manager) (o : Outcome (Option ApprovalRule))
    → IsStored m
    → IsStored (finish_resolution v q m o).0
unfolding append_rule settle
finish-IsStored v q m (returned none) h =
    SameRules-IsStored m _ (refl, refl, refl, refl, refl, refl) h
finish-IsStored v q m (returned (some r)) h =
    SameRules-IsStored (record_rule (some r) m) _ (refl, refl, refl, refl, refl, refl)
      (append_persist-IsStored r r.scope m refl h)
finish-IsStored v q m key_error h = h
finish-IsStored v q m value_error h = h
finish-IsStored v q m runtime_error h = h

pub resolve_request-IsStored :
    (v : Verdict) (m : Manager) → IsStored m → IsStored (resolve_request v m).0
unfolding resolve_request resolve_object
resolve_request-IsStored v m h = elim (Option-cases (lookup v.request_id m.pending_by_id)) [
  | inl e ↦ rw (e, resolve_request) h
  | inr (q, e) ↦ rw (e, resolve_request) (finish-IsStored v q m _ h)
]

begin_wait-SameRules : (id : String) (m : Manager) → SameRules m (begin_wait id m).0
unfolding begin_wait
begin_wait-SameRules id m = ground arith

end_wait-SameRules :
    (id : String) (r : ℕ) (m n : Manager) (o : Outcome ApprovalDecision)
    → end_wait id r m ≡ some (n, o)
    → SameRules m n
unfolding end_wait
end_wait-SameRules id r m n o h = ground arith

Step-IsStored : {m n : Manager} → Step m n → IsStored m → IsStored n
Step-IsStored (evaluates c fresh) h = evaluate-IsStored c _ h
Step-IsStored (resolves v) h = resolve_request-IsStored v _ h
Step-IsStored (revokes id) h = revoke-IsStored id _ h
Step-IsStored (begins_wait id) h = SameRules-IsStored _ _ (begin_wait-SameRules id _) h
Step-IsStored (ends_wait id r o e) h = SameRules-IsStored _ _ (end_wait-SameRules id r _ _ o e) h

Reach-IsStored : {m n : Manager} → Reach m n → IsStored m → IsStored n
Reach-IsStored here h = h
Reach-IsStored (next p s) h = Step-IsStored s (Reach-IsStored p h)

-- If the rules loaded from each file have that file's scope, then after any calls each rule list
-- holds rules of its own scope, and the workspace file and the user file hold what memory holds.
pub reachable-IsStored :
    (workspace_store user_store : List ApprovalRule) (m : Manager)
    → All (HasScope workspace) workspace_store
    → All (HasScope user) user_store
    → Reach (new_manager workspace_store user_store) m
    → IsStored m
unfolding new_manager
reachable-IsStored ws us m hw hu p = Reach-IsStored p (record {
  once_scope = tt;
  session_scope = tt;
  workspace_scope = hw;
  user_scope = hu;
  workspace_saved = refl;
  user_saved = refl;
})

-- A rule loaded from the workspace file with another scope is revoked in memory alone: `revoke`
-- reports success, and the workspace file keeps the rule.
pub misfiled_rule_survives_revoke :
    (id : String) (m : Manager) (r : ApprovalRule)
    → first (has_rule_id id) m.once_rules ≡ none
    → first (has_rule_id id) m.session_rules ≡ none
    → first (has_rule_id id) m.workspace_rules ≡ some r
    → r.scope ≢ workspace
    → ((revoke id m).1 ≡ true)
      × ((revoke id m).0.workspace_rules ≡ drop_first id m.workspace_rules)
      × ((revoke id m).0.workspace_file ≡ m.workspace_file)
unfolding revoke
misfiled_rule_survives_revoke id m r e1 e2 e3 ne = ground arith
