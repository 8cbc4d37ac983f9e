-- ===== src/Agent/ToolTests.antt =====
-- Runs of the tool loop of dare_framework/agent/_internal/tool_executor.py: a tool that is called until
-- its output has the key that is asked for, and one that policy denies.
use deterministic_agent_runt.Base.{
  ℕ, ◌+◌, ◌≤◌, ◌≢◌, true, false, none, some, [], ◌∷◌, ◌≡◌, refl, arith, All, ltb, if◌then◌else◌,
}
use deterministic_agent_runt.Json.{Fields, end, field, obj, num}
use deterministic_agent_runt.Context.Budget.{budget_check, budget_use}
use deterministic_agent_runt.Agent.ToolLoop.{
  HookDecision, PolicyDecision, preflight, gave, ToolResult, ToolAgent, ToolRequest, ToolState,
  ToolAnswer, RoundEnd, again, answers, invoked, tool_result, after_tool, policy_denied,
  done_predicate_satisfied, max_calls_at, tool_loop_max_calls, run_tool_loop,
}
use deterministic_agent_runt.Agent.ToolEnds.{tool_loop_ends}
use deterministic_agent_runt.Agent.ToolPermits.{Permitted, run_tool_loop-Permitted}
use deterministic_agent_runt.Agent.Tests.{start}

-- the world counts the calls; from the second one on the output has the key `path`
abbrev output_after : ℕ → Fields
output_after n = if ltb 1 n then field "path" (num n) end else end

abbrev result_after : ℕ → ToolResult
result_after n = record {
  success = true;
  output = obj (output_after n);
  error = none;
  evidence = "seen" ∷ [];
}

abbrev agent : PolicyDecision → ToolAgent ℕ
agent d = record {
  before_tool = λ n requires a. (a, HookDecision.allow);
  evaluate_tool_security = λ n a. (a, preflight d none end);
  execute_safe = λ force reason params a.
      (record a { world = a.world + 1 }, gave (result_after (a.world + 1)));
  has_approval_manager = true;
  max_tool_iterations = 20;
}

abbrev request : ToolRequest
request = record {
  max_tool_calls = none;
  done_predicate = some ("path" ∷ []);
  descriptor_requires_approval = false;
  requires_approval_override = none;
}

abbrev approved_run : ToolState ℕ × RoundEnd
approved_run = run_tool_loop (agent PolicyDecision.approve_required) request 3 start (some [])

abbrev done_answer : ToolAnswer
done_answer = record {
  success = true;
  status = some "success";
  error = none;
  output = obj (field "path" (num 2) end);
  result = some (result_after 2);
}

is_done_twice : approved_run ≡ (approved_run.0, answers done_answer)
unfolding run_tool_loop budget_check budget_use done_predicate_satisfied tool_loop_max_calls
is_done_twice = refl

calls_twice :
    approved_run.0.trace
    ≡ invoked 1 PolicyDecision.approve_required true
      ∷ tool_result 1 true
      ∷ after_tool 1 true true
      ∷ invoked 2 PolicyDecision.approve_required true
      ∷ tool_result 2 true
      ∷ after_tool 2 true true
      ∷ []
unfolding run_tool_loop budget_check budget_use done_predicate_satisfied tool_loop_max_calls
calls_twice = refl

-- a denied tool is not called
denied :
    (run_tool_loop (agent PolicyDecision.deny) request 3 start none).0.trace
    ≡ policy_denied "SECURITY_POLICY_DENIED" ∷ after_tool 1 false false ∷ []
unfolding run_tool_loop budget_check budget_use tool_loop_max_calls
denied = refl

three_calls : max_calls_at (agent PolicyDecision.allow) request start ≤ 3
unfolding tool_loop_max_calls
three_calls = omega arith

tool_loop_ends_example :
    ((run_tool_loop (agent PolicyDecision.allow) request 3 start none).1 ≢ again)
    × (run_tool_loop (agent PolicyDecision.allow) request 7 start none
        ≡ run_tool_loop (agent PolicyDecision.allow) request 3 start none)
tool_loop_ends_example =
    tool_loop_ends (agent PolicyDecision.allow) request 7 3 start none (omega arith) three_calls
      (omega arith)

run_tool_loop-Permitted_example :
    All (Permitted (agent PolicyDecision.approve_required) request) approved_run.0.trace
run_tool_loop-Permitted_example =
    run_tool_loop-Permitted (agent PolicyDecision.approve_required) request 3 start (some [])
