-- ===== src/Hook/Emit/Results.antt =====
-- The results of hooks: dare_framework/hook/_internal/hook_runner.py and decision_arbiter.py, and
-- `_normalize_runner_result` of hook_extension_point.py beside them.
use deterministic_agent_runt.Base.{
  ℕ, zero, suc, ◌+◌, String, Bool, Option, none, some, List, [], ◌∷◌, ltb, ◌==◌, if◌then◌else◌,
}
use deterministic_agent_runt.Base.Int.{ℤ, pos, to_nat, ◌+ℤ◌}
use deterministic_agent_runt.Base.Lower.{lower}
use deterministic_agent_runt.Base.Dict.{Dict}
use deterministic_agent_runt.Agent.ToolLoop.{HookDecision}

-- `HookPhase`
pub data HookPhase : Type 0 where
  before_run after_run before_session after_session before_milestone after_milestone : HookPhase
  before_plan after_plan before_execute after_execute : HookPhase
  before_context_assemble after_context_assemble before_model after_model : HookPhase
  before_tool after_tool before_verify after_verify : HookPhase

-- the value of a member
abbrev pub phase_value : HookPhase → String
phase_value before_run = "before_run"
phase_value after_run = "after_run"
phase_value before_session = "before_session"
phase_value after_session = "after_session"
phase_value before_milestone = "before_milestone"
phase_value after_milestone = "after_milestone"
phase_value before_plan = "before_plan"
phase_value after_plan = "after_plan"
phase_value before_execute = "before_execute"
phase_value after_execute = "after_execute"
phase_value before_context_assemble = "before_context_assemble"
phase_value after_context_assemble = "after_context_assemble"
phase_value before_model = "before_model"
phase_value after_model = "after_model"
phase_value before_tool = "before_tool"
phase_value after_tool = "after_tool"
phase_value before_verify = "before_verify"
phase_value after_verify = "after_verify"

-- What a hook returns: a `HookResult`, a dict with what it has of the three keys, or anything else.
pub data HookValue (A : Type 0) : Type 0 where
  hook_result : HookDecision → Option (Dict A) → Option String → HookValue A
  mapping : Option String → Option (Dict A) → Option String → HookValue A
  other_value : HookValue A

-- an attempt to call a hook
pub data Attempt (A : Type 0) : Type 0 where
  returns : HookValue A → Attempt A
  times_out : Attempt A
  raises : String → Attempt A

abbrev pub HookFn : Type 0 → Type 0
HookFn A = ℕ → Attempt A

-- `HookRunResult`: a value, or an error with its code and message
pub data HookRunResult (A : Type 0) : Type 0 where
  ran : HookValue A → HookRunResult A
  failed_run : String → String → HookRunResult A

-- an attempt of `run_with_policy`, with so many more to come after it
abbrev pub after_attempt : {A : Type 0} → Attempt A → ℕ → HookRunResult A → HookRunResult A
after_attempt (returns v) left later = ran v
after_attempt times_out left later = failed_run "HOOK_TIMEOUT" "hook execution timed out"
after_attempt (raises e) zero later = failed_run "HOOK_RUNTIME_ERROR" e
after_attempt (raises e) (suc left) later = later

unfoldable pub attempts_from : {A : Type 0} → HookFn A → ℕ → ℕ → HookRunResult A
attempts_from fn attempt zero =
    after_attempt (fn attempt) zero (failed_run "HOOK_RUNTIME_ERROR" "unknown hook runner state")
attempts_from fn attempt (suc left) =
    after_attempt (fn attempt) (suc left) (attempts_from fn (attempt + 1) left)

-- `max_attempts`
abbrev pub max_attempts : ℤ → Bool → ℤ
max_attempts retries idempotent = pos 1 +ℤ (if idempotent then retries else pos 0)

-- the loop, over a range of so many attempts; the return after it
unfoldable pub try_attempts : {A : Type 0} → HookFn A → ℕ → HookRunResult A
unfolding attempts_from
try_attempts fn zero = failed_run "HOOK_RUNTIME_ERROR" "unknown hook runner state"
try_attempts fn (suc left) = attempts_from fn 1 left

-- `run_with_policy`; a count that is not positive leaves the range empty
unfoldable pub run_with_policy : {A : Type 0} → HookFn A → ℤ → Bool → HookRunResult A
unfolding try_attempts
run_with_policy fn retries idempotent = try_attempts fn (to_nat (max_attempts retries idempotent))

-- a result as `_normalize_runner_result` gives it
pub record Normalized (A : Type 0) : Type 0 where
  pub decision : String
  pub patch : Option (Dict A)
  pub message : Option String

-- the values of `HookDecision`
abbrev pub decision_value : HookDecision → String
decision_value HookDecision.allow = "allow"
decision_value HookDecision.block = "block"
decision_value HookDecision.ask = "ask"

abbrev pub normalize_hook_value : {A : Type 0} → HookValue A → Normalized A
normalize_hook_value (hook_result d patch message) = record {
  decision = decision_value d;
  patch = patch;
  message = message;
}
normalize_hook_value (mapping none patch message) = record {
  decision = "allow";
  patch = patch;
  message = message;
}
normalize_hook_value (mapping (some d) patch message) = record {
  decision = lower d;
  patch = patch;
  message = message;
}
normalize_hook_value other_value = record { decision = "allow"; patch = none; message = none }

unfoldable pub normalize_runner_result : {A : Type 0} → HookRunResult A → Normalized A
unfolding lower
normalize_runner_result (ran v) = normalize_hook_value v
normalize_runner_result (failed_run code message) = record {
  decision = "allow";
  patch = none;
  message = some code;
}

-- `_PRECEDENCE`
abbrev pub rank : String → ℕ
rank decision = if decision == "ask" then 1 else if decision == "block" then 2 else 0

-- the loop of `arbitrate`, from a winner on
unfoldable pub arbitrate_from : {A : Type 0} → Normalized A → List (Normalized A) → Normalized A
unfolding lower
arbitrate_from winner [] = winner
arbitrate_from winner (r ∷ rs) =
    arbitrate_from
      (if ltb (rank (lower winner.decision)) (rank (lower r.decision)) then r else winner) rs

unfoldable pub arbitrate : {A : Type 0} → List (Normalized A) → Normalized A
unfolding arbitrate_from
arbitrate [] = record { decision = "allow"; patch = none; message = none }
arbitrate (r ∷ rs) =
    let winner = arbitrate_from r rs in record winner { decision = lower winner.decision }
