-- ===== src/Context/Limits.antt =====
-- What the budget check promises (dare_framework/context/context.py).
use deterministic_agent_runt.Base.{ℕ, ◌≤◌, ◌<◌, false, Option, none, some, ◌≡◌, ◌↔◌, arith}
use deterministic_agent_runt.Context.Budget.{
  Resource, tokens, cost, time_seconds, tool_calls, unknown_resource, Budget, budget_use,
  budget_check, budget_remaining, exceeded, infinite,
}

abbrev pub Within : Option ℕ → ℕ → Type 0
Within none used = Unit {0}
Within (some m) used = used ≤ m

exceeded_iff : (limit : Option ℕ) (used : ℕ) → (exceeded limit used ≡ false) ↔ Within limit used
exceeded_iff none used = ground arith
exceeded_iff (some m) used = ground arith

abbrev pub limit_of : Resource → Budget → Option ℕ
limit_of tokens b = b.max_tokens
limit_of cost b = b.max_cost
limit_of time_seconds b = b.max_time_seconds
limit_of tool_calls b = b.max_tool_calls
limit_of unknown_resource b = none

abbrev pub used_of : Resource → Budget → ℕ
used_of tokens b = b.used_tokens
used_of cost b = b.used_cost
used_of time_seconds b = b.used_time_seconds
used_of tool_calls b = b.used_tool_calls
used_of unknown_resource b = 0

all-Within :
    (b : Budget)
    → Within b.max_tokens b.used_tokens
    → Within b.max_cost b.used_cost
    → Within b.max_tool_calls b.used_tool_calls
    → Within b.max_time_seconds b.used_time_seconds
    → (r : Resource) → Within (limit_of r b) (used_of r b)
all-Within b t c k s tokens = t
all-Within b t c k s cost = c
all-Within b t c k s tool_calls = k
all-Within b t c k s time_seconds = s
all-Within b t c k s unknown_resource = tt

check_passes :
    (b : Budget) → budget_check b ≡ none → (r : Resource) → Within (limit_of r b) (used_of r b)
unfolding budget_check
check_passes b h =
    all-Within b ((exceeded_iff b.max_tokens b.used_tokens).0 (ground arith))
      ((exceeded_iff b.max_cost b.used_cost).0 (ground arith))
      ((exceeded_iff b.max_tool_calls b.used_tool_calls).0 (ground arith))
      ((exceeded_iff b.max_time_seconds b.used_time_seconds).0 (ground arith))

check_needs :
    (b : Budget) → ((r : Resource) → Within (limit_of r b) (used_of r b)) → budget_check b ≡ none
unfolding budget_check
check_needs b h = ground (
  arith,
  (exceeded_iff b.max_tokens b.used_tokens).1 (h tokens),
  (exceeded_iff b.max_cost b.used_cost).1 (h cost),
  (exceeded_iff b.max_tool_calls b.used_tool_calls).1 (h tool_calls),
  (exceeded_iff b.max_time_seconds b.used_time_seconds).1 (h time_seconds),
)

-- The check passes exactly if every resource that has a limit is used within it.
budget_check_iff :
    (b : Budget) → (budget_check b ≡ none) ↔ ((r : Resource) → Within (limit_of r b) (used_of r b))
budget_check_iff b = (check_passes b, check_needs b)

-- A limit of zero is no limit for `budget_remaining`, while `budget_check` refuses the first use.
pub zero_limit_disagrees :
    (b : Budget) (n : ℕ)
    → b.max_tokens ≡ some 0
    → 0 < n
    → (budget_remaining tokens b ≡ infinite) × (budget_check (budget_use tokens n b) ≡ some tokens)
unfolding budget_remaining budget_check budget_use
zero_limit_disagrees b n limit some_use = ground arith
