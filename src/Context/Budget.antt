-- ===== src/Context/Budget.antt =====
-- `Budget` of dare_framework/context/types.py, and the budget methods of `Context` in
-- dare_framework/context/context.py. Amounts are naturals in a unit of the caller's, at which the
-- floats of the source are whole; the code adds and compares them. No amount is negative.
use deterministic_agent_runt.Base.{
  ℕ, ◌+◌, ◌-◌, Bool, false, Option, none, some, ltb, leb, if◌then◌else◌,
}

pub data Resource : Type 0 where
  tokens cost time_seconds tool_calls unknown_resource : Resource

pub record Budget : Type 0 where
  pub max_tokens : Option ℕ
  pub max_cost : Option ℕ
  pub max_time_seconds : Option ℕ
  pub max_tool_calls : Option ℕ
  pub used_tokens : ℕ
  pub used_cost : ℕ
  pub used_time_seconds : ℕ
  pub used_tool_calls : ℕ

-- `budget_use`
unfoldable pub budget_use : Resource → ℕ → Budget → Budget
budget_use tokens n b = record b { used_tokens = b.used_tokens + n }
budget_use cost n b = record b { used_cost = b.used_cost + n }
budget_use time_seconds n b = record b { used_time_seconds = b.used_time_seconds + n }
budget_use tool_calls n b = record b { used_tool_calls = b.used_tool_calls + n }
budget_use unknown_resource n b = b

-- `max is not None and used > max`
abbrev pub exceeded : Option ℕ → ℕ → Bool
exceeded none used = false
exceeded (some m) used = ltb m used

-- `budget_check`: the resource of the `RuntimeError`, or `none` if it returns
unfoldable pub budget_check : Budget → Option Resource
budget_check b =
    if exceeded b.max_tokens b.used_tokens
    then some tokens
    else if exceeded b.max_cost b.used_cost
    then some cost
    else if exceeded b.max_tool_calls b.used_tool_calls
    then some tool_calls
    else if exceeded b.max_time_seconds b.used_time_seconds
    then some time_seconds
    else none

-- A remaining amount: infinite, a natural, or what is lacking (a negative float).
pub data Remaining : Type 0 where
  infinite : Remaining
  left : ℕ → Remaining
  lacking : ℕ → Remaining

-- `(max - used) if max else inf`
abbrev pub remaining : Option ℕ → ℕ → Remaining
remaining none used = infinite
remaining (some m) used =
    if leb m 0 then infinite else if leb used m then left (m - used) else lacking (used - m)

-- `budget_remaining`
unfoldable pub budget_remaining : Resource → Budget → Remaining
budget_remaining tokens b = remaining b.max_tokens b.used_tokens
budget_remaining cost b = remaining b.max_cost b.used_cost
budget_remaining tool_calls b = remaining b.max_tool_calls b.used_tool_calls
budget_remaining time_seconds b = remaining b.max_time_seconds b.used_time_seconds
budget_remaining unknown_resource b = infinite
