-- ===== src/Approval/Rules.antt =====
-- Which rule decides a call: `_rule_matches` and `_find_matching_rule` of
-- dare_framework/tool/_internal/control/approval_manager.py, over the four rule lists.
use Prim.Native.String.{◌++◌ as append}
use deterministic_agent_runt.Base.{
  String, Bool, true, false, ◌&&◌, ◌||◌, not, Option, none, some, List, ◌==◌, if◌then◌else◌, first,
}
use deterministic_agent_runt.Base.Text.{strip, is_empty, starts_with}
use deterministic_agent_runt.Approval.Types.{ApprovalMatcherKind, ApprovalRule, is_allow, is_deny}

-- `bool(value) and value == hash`
abbrev pub value_equals : Option String → String → Bool
value_equals none hash = false
value_equals (some v) hash = not (is_empty v) && v == hash

-- the `COMMAND_PREFIX` branch on texts: equal, or a prefix up to a blank
unfoldable pub command_has_prefix : String → String → Bool
command_has_prefix value command =
    let prefix = strip value in
    let normalized = strip command in
    normalized == prefix || starts_with normalized (append prefix " ")

abbrev pub prefix_matches : Option String → Option String → Bool
prefix_matches none command = false
prefix_matches (some v) none = false
prefix_matches (some v) (some c) = if is_empty v then false else command_has_prefix v c

abbrev pub matcher_accepts : ApprovalMatcherKind → Option String → String → Option String → Bool
matcher_accepts ApprovalMatcherKind.capability value hash command = true
matcher_accepts ApprovalMatcherKind.exact_params value hash command = value_equals value hash
matcher_accepts ApprovalMatcherKind.command_prefix value hash command = prefix_matches value command

unfoldable pub rule_matches : String → String → Option String → ApprovalRule → Bool
rule_matches capability_id hash command r =
    if not (r.capability_id == capability_id)
    then false
    else matcher_accepts r.matcher r.matcher_value hash command

-- `==` on `str | None`
abbrev pub same_text : Option String → Option String → Bool
same_text none none = true
same_text (some a) (some b) = a == b
same_text _ _ = false

-- `rule.session_id is None or rule.session_id == session_id`
unfoldable pub in_session : Option String → ApprovalRule → Bool
in_session session r = same_text r.session_id none || same_text r.session_id session

abbrev pub or_else {ℓ} : {A : Type ℓ} → Option A → Option A → Option A
or_else (some a) o = some a
or_else none o = o

-- the two loops over the matches: any deny first, then any allow
unfoldable pub pick_rule : List ApprovalRule → Option ApprovalRule
pick_rule matches =
    or_else (first (λ r. is_deny r.decision) matches) (first (λ r. is_allow r.decision) matches)
