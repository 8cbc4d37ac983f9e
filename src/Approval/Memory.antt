-- ===== src/Approval/Memory.antt =====
-- A decision that was given with a scope beyond `once` is remembered
-- (dare_framework/tool/_internal/control/approval_manager.py): the rule that `grant` or `deny` stores
-- decides the next call like the one that was asked about.
use mathlib.Core.Path.{subst₂, subst₃}
use mathlib.Core.List.Memᴰ.{head, append_right}
use deterministic_agent_runt.Base.{
  ℕ, String, true, false, Option, none, some, ◌≡◌, ◌≢◌, refl, ap, ◌∙◌, inl, inr, ◌⊎◌, arith,
  Bool-cases, Option-cases, if◌then◌else◌, eq_iff,
}
use deterministic_agent_runt.Base.Text.{strip, is_empty, strip_idem, strip_empty}
use deterministic_agent_runt.Base.Dict.{lookup}
use deterministic_agent_runt.Json.{
  Value, null, bool, num, text, arr, tuple, obj, runtime_override, other,
}
use deterministic_agent_runt.Approval.Types.{
  allow, deny, ApprovalScope, once, session, workspace, user, ApprovalMatcherKind, capability,
  exact_params, command_prefix, ApprovalRule, PendingApprovalRequest, denied, allowed,
}
use deterministic_agent_runt.Approval.Params.{extract_command, stripped_command}
use deterministic_agent_runt.Approval.Rules.{
  rule_matches, command_has_prefix, prefix_matches, matcher_accepts,
}
use deterministic_agent_runt.Approval.Manager.{
  Manager, Outcome, returned, key_error, value_error, runtime_error, append_at, append_rule,
  persist_rules_for_scope,
}
use deterministic_agent_runt.Approval.Calls.{
  Call, or_text, text_or_empty, call_hash, call_command, evaluate,
}
use deterministic_agent_runt.Approval.Resolve.{
  Verdict, normalized_value, build_rule, record_rule, settle, finish_resolution, resolve_object,
  resolve_request,
}
use deterministic_agent_runt.Approval.Selection.{Applies}
use deterministic_agent_runt.Approval.Decision.{Fits, evaluate_by_rules}

-- a command that `_extract_command` may return: stripped, and not empty
abbrev pub IsCommand : Option String → Type 0
IsCommand none = Unit
IsCommand (some s) = (strip s ≡ s) × (is_empty s ≡ false)

stripped_command-IsCommand : (v : Option Value) → IsCommand (stripped_command v)
stripped_command-IsCommand (some (text s)) = elim (Bool-cases (is_empty (strip s))) [
  | inl e ↦ rw e tt
  | inr e ↦ rw e (strip_idem s, e)
]
stripped_command-IsCommand none = tt
stripped_command-IsCommand (some null) = tt
stripped_command-IsCommand (some (bool b)) = tt
stripped_command-IsCommand (some (num n)) = tt
stripped_command-IsCommand (some (arr xs)) = tt
stripped_command-IsCommand (some (tuple xs)) = tt
stripped_command-IsCommand (some (obj fs)) = tt
stripped_command-IsCommand (some (runtime_override c s)) = tt
stripped_command-IsCommand (some (other s)) = tt

pub call_command-IsCommand : (c : Call) → IsCommand (call_command c)
unfolding extract_command
call_command-IsCommand c = stripped_command-IsCommand _

-- the prefix taken from a request's own command accepts that command
own_prefix_accepts :
    (command x : Option String)
    → IsCommand command
    → (if is_empty (strip (text_or_empty (or_text none command)))
        then none
        else some (some (strip (text_or_empty command))))
      ≡ some x
    → prefix_matches x command ≡ true
unfolding command_has_prefix
own_prefix_accepts none x c e = cc (rw strip_empty at e)
own_prefix_accepts (some s) x (stripped, full) e =
    let own : some s ≡ x = ground (arith, rw stripped at e) in
    rw (← own, full) (ground (arith, stripped, eq_iff s s))

own_value_accepts :
    (k : ApprovalMatcherKind) (q : PendingApprovalRequest) (x : Option String)
    → is_empty q.params_hash ≡ false
    → IsCommand q.command
    → normalized_value k none q ≡ some x
    → matcher_accepts k x q.params_hash q.command ≡ true
own_value_accepts capability q x hash command e = refl
own_value_accepts exact_params q x hash command e =
    ground (arith, eq_iff q.params_hash q.params_hash)
own_value_accepts command_prefix q x hash command e = own_prefix_accepts q.command x command e

-- `build_rule` matches the request that it was built from, if the verdict does not name a prefix of
-- its own.
build_rule-matches :
    (v : Verdict) (q : PendingApprovalRequest) (rule : ApprovalRule)
    → is_empty q.params_hash ≡ false
    → IsCommand q.command
    → v.matcher_value ≡ none
    → build_rule v q ≡ returned (some rule)
    → (rule_matches q.capability_id q.params_hash q.command rule ≡ true)
      × (rule.decision ≡ v.decision)
      × (rule.scope ≡ v.scope)
unfolding build_rule rule_matches
build_rule-matches v q rule hash command value e =
    elim (Option-cases (normalized_value v.matcher none q)) [
      | inl raised ↦
          absurd (
            ground
              (arith, raised, ap (λ (o : Option String). normalized_value v.matcher o q) value))
      | inr (x, stored) ↦ ground (
        arith,
        stored,
        ap (λ (o : Option String). normalized_value v.matcher o q) value,
        own_value_accepts v.matcher q x hash command stored,
        eq_iff q.capability_id q.capability_id,
      )
    ]

-- a stored rule stands where its scope says
record_rule-Applies :
    (r : ApprovalRule) (s : ApprovalScope) (m : Manager) (caller : Option String)
    → r.scope ≡ s
    → (r.scope ≢ session) ⊎ (r.session_id ≡ caller)
    → Applies caller (persist_rules_for_scope s (append_at s r m)) r
unfolding persist_rules_for_scope
record_rule-Applies r once m caller e bound = inl (append_right m.once_rules (head refl))
record_rule-Applies r session m caller e (inl elsewhere) = absurd (elsewhere e)
record_rule-Applies r session m caller e (inr own) =
    inr (inl (append_right m.session_rules (head refl), inr own))
record_rule-Applies r workspace m caller e bound =
    inr (inr (inl (append_right m.workspace_rules (head refl))))
record_rule-Applies r user m caller e bound =
    inr (inr (inr (append_right m.user_rules (head refl))))

settled_rule-Applies :
    (v : Verdict) (q : ℕ) (m : Manager) (r : ApprovalRule) (caller : Option String)
    → (r.scope ≢ session) ⊎ (r.session_id ≡ caller)
    → Applies caller (settle v.request_id v.decision q (record_rule (some r) m)) r
unfolding append_rule settle
settled_rule-Applies v q m r caller bound = record_rule-Applies r r.scope m caller refl bound

finish-Applies :
    (v : Verdict) (q : ℕ) (m n : Manager) (o : Outcome (Option ApprovalRule)) (rule : ApprovalRule)
    (caller : Option String)
    → finish_resolution v q m o ≡ (n, returned (some rule))
    → (rule.scope ≢ session) ⊎ (rule.session_id ≡ caller)
    → (o ≡ returned (some rule)) × Applies caller n rule
finish-Applies v q m n (returned none) rule caller e bound = cc
finish-Applies v q m n key_error rule caller e bound = cc
finish-Applies v q m n value_error rule caller e bound = cc
finish-Applies v q m n runtime_error rule caller e bound = cc
finish-Applies v q m n (returned (some r)) rule caller e bound =
    let same : r ≡ rule = cc in
    let left : settle v.request_id v.decision q (record_rule (some r) m) ≡ n = cc in
    (
      ap (λ (x : ApprovalRule). returned (some x)) same,
      subst₂ (λ (k : Manager) (x : ApprovalRule). Applies caller k x) left same
          (settled_rule-Applies v q m r caller (rw same bound)),
    )

-- The request is about the call: the same capability, parameters and command.
pub record IsAbout (c : Call) (q : PendingApprovalRequest) : Type 0 where
  pub same_capability : q.capability_id ≡ c.capability_id
  pub same_hash : q.params_hash ≡ call_hash c
  pub same_command : q.command ≡ call_command c

stored_rule-Fits :
    (v : Verdict) (q : ℕ) (m n : Manager) (rule : ApprovalRule) (c : Call)
    → lookup v.request_id m.pending_by_id ≡ some q
    → IsAbout c (m.objects q).request
    → is_empty (call_hash c) ≡ false
    → v.matcher_value ≡ none
    → (rule.scope ≢ session) ⊎ (rule.session_id ≡ c.session_id)
    → resolve_request v m ≡ (n, returned (some rule))
    → Fits c n rule × (rule.decision ≡ v.decision)
unfolding resolve_request resolve_object
stored_rule-Fits v q m n rule c listed about hash value bound e =
    let request : PendingApprovalRequest = (m.objects q).request in
    let (built, applies) =
      finish-Applies v q m n (build_rule v request) rule c.session_id
        (rw (listed, resolve_request) at e) bound in
    let command : IsCommand request.command = rw about.same_command (call_command-IsCommand c) in
    let k =
      build_rule-matches v request rule (ap is_empty about.same_hash ∙ hash) command value built in
    (
      (
        applies,
        subst₃ (λ (a b : String) (o : Option String). rule_matches a b o rule ≡ true)
            about.same_capability about.same_hash about.same_command k.0,
      ),
      k.1,
    )

-- A denial that stores a rule is remembered: a call that the denied request was about, in a session
-- that the rule is for, is denied from then on, if the denial named no matcher value of its own.
pub denial_is_remembered :
    (v : Verdict) (q : ℕ) (m n : Manager) (rule : ApprovalRule) (c : Call)
    → lookup v.request_id m.pending_by_id ≡ some q
    → IsAbout c (m.objects q).request
    → is_empty (call_hash c) ≡ false
    → v.matcher_value ≡ none
    → (rule.scope ≢ session) ⊎ (rule.session_id ≡ c.session_id)
    → resolve_request v m ≡ (n, returned (some rule))
    → v.decision ≡ deny
    → (evaluate c n).1.status ≡ denied
denial_is_remembered v q m n rule c listed about hash value bound e d =
    let (fits, same) = stored_rule-Fits v q m n rule c listed about hash value bound e in
    (evaluate_by_rules c n).0.1 (rule, fits, same ∙ d)

-- A grant that stores a rule is remembered: a call that the granted request was about, in a session
-- that the rule is for, is allowed afterwards unless a rule that fits it denies, if the grant named no
-- matcher value of its own.
pub grant_is_remembered :
    (v : Verdict) (q : ℕ) (m n : Manager) (rule : ApprovalRule) (c : Call)
    → lookup v.request_id m.pending_by_id ≡ some q
    → IsAbout c (m.objects q).request
    → is_empty (call_hash c) ≡ false
    → v.matcher_value ≡ none
    → (rule.scope ≢ session) ⊎ (rule.session_id ≡ c.session_id)
    → resolve_request v m ≡ (n, returned (some rule))
    → ((r : ApprovalRule) → Fits c n r → r.decision ≡ allow)
    → (evaluate c n).1.status ≡ allowed
grant_is_remembered v q m n rule c listed about hash value bound e all =
    let (fits, _) = stored_rule-Fits v q m n rule c listed about hash value bound e in
    (evaluate_by_rules c n).1.1 ((rule, fits), all)
