-- ===== src/Security/Tests.antt =====
-- Decisions of a policy boundary (dare_framework/security/impl/default_security_boundary.py), and a tool loop
-- that asks it.
use deterministic_agent_runt.Base.{ℕ, true, false, none, some, [], ◌∷◌, ◌≡◌, refl, All}
use deterministic_agent_runt.Base.Text.{strip}
use deterministic_agent_runt.Json.{end, field, text, obj}
use deterministic_agent_runt.Agent.ToolLoop.{
  PolicyDecision, HookDecision, preflight, gave, ToolAgent, ToolRequest, run_tool_loop,
}
use deterministic_agent_runt.Agent.Milestone.{Around}
use deterministic_agent_runt.Security.{
  PolicySecurityBoundary, compensatable, non_idempotent_effect, ToolCall, evaluate_tool_security,
}
use deterministic_agent_runt.Security.Denial.{IsListed, IsNoCall, denied_capability_not_called}

abbrev boundary : PolicySecurityBoundary
boundary = record {
  deny_capability_ids = "rm" ∷ [];
  approval_required_risk_levels = non_idempotent_effect ∷ [];
  deny_risk_levels = compensatable ∷ [];
  default_decision = PolicyDecision.allow;
  require_trusted_metadata = false;
}

abbrev remove : ToolCall
remove = record {
  capability_id = " rm ";
  params = end;
  tool_name = "remove";
  tool_call_id = "t1";
  descriptor = none;
  requires_approval_override = none;
  risk_level_override = none;
}

-- the descriptor's risk level asks for approval
abbrev send : ToolCall
send = record remove {
  capability_id = "send";
  descriptor = some (record {
    id = "send";
    metadata = some (
        field "risk_level" (text "non_idempotent_effect")
          (field "approval_reason" (text " sends mail ") end));
  });
}

send_asks :
    evaluate_tool_security boundary 1 send
    ≡ preflight PolicyDecision.approve_required (some "sends mail") end
unfolding evaluate_tool_security strip
send_asks = refl

remove-IsListed : IsListed boundary remove
unfolding strip
remove-IsListed = (refl, refl)

abbrev agent : ToolAgent ℕ
agent = record {
  before_tool = λ n requires a. (a, HookDecision.allow);
  evaluate_tool_security = λ n a. (a, evaluate_tool_security boundary n remove);
  execute_safe = λ force reason params a.
      (a, gave (record { success = true; output = obj end; error = none; evidence = [] }));
  has_approval_manager = true;
  max_tool_iterations = 4;
}

abbrev request : ToolRequest
request = record {
  max_tool_calls = none;
  done_predicate = none;
  descriptor_requires_approval = false;
  requires_approval_override = none;
}

abbrev start : Around ℕ
start = record {
  context = record {
    short_term_memory = [];
    budget = record {
      max_tokens = none;
      max_cost = none;
      max_time_seconds = none;
      max_tool_calls = some 3;
      used_tokens = 0;
      used_cost = 0;
      used_time_seconds = 0;
      used_tool_calls = 0;
    };
    guidance_queue = none;
  };
  world = 0;
}

denied_capability_not_called_example :
    All IsNoCall (run_tool_loop agent request 4 start none).0.trace
denied_capability_not_called_example =
    denied_capability_not_called agent request boundary remove remove-IsListed (λ n a. refl) 4 start
      none
