-- ===== src/Context/Tests.antt =====
-- Runs of a context (dare_framework/context/context.py): its budget, and guidance that arrives between
-- two assemblies.
use deterministic_agent_runt.Base.{none, some, List, [], ◌∷◌, ◌++◌, map, ◌≡◌, refl, arith}
use deterministic_agent_runt.Base.Text.{strip}
use deterministic_agent_runt.Context.Budget.{
  Budget, Resource, tokens, infinite, budget_check, budget_use, budget_remaining,
}
use deterministic_agent_runt.Context.Memory.{Context, Message, MessageRole, chat, guidance_message}
use deterministic_agent_runt.Context.Limits.{zero_limit_disagrees}
use deterministic_agent_runt.Context.Delivery.{
  Turn, guides, adds, assembles, delivered, waiting, take_turns, guidance_delivered_once,
}

abbrev limited : Budget
limited = record {
  max_tokens = some 0;
  max_cost = none;
  max_time_seconds = some 60;
  max_tool_calls = some 2;
  used_tokens = 0;
  used_cost = 9;
  used_time_seconds = 60;
  used_tool_calls = 3;
}

over_calls : budget_check limited ≡ some Resource.tool_calls
unfolding budget_check
over_calls = refl

zero_limit_disagrees_example :
    (budget_remaining tokens limited ≡ infinite)
    × (budget_check (budget_use tokens 1 limited) ≡ some tokens)
zero_limit_disagrees_example = zero_limit_disagrees limited 1 refl (omega arith)

abbrev start : Context
start = record {
  short_term_memory = [];
  budget = limited;
  guidance_queue = some (record { items = []; max_size = 1 });
}

abbrev note : Message
note = record {
  role = MessageRole.assistant;
  kind = chat;
  text = "noted";
  name = none;
  guidance_id = none;
  attachments = 0;
  tool_calls = [];
}

-- the second text is blank, the third does not fit, and the fourth comes after the queue is drained
abbrev turns : List Turn
turns =
    guides "g1" 1 "use tests"
    ∷ guides "g2" 2 " "
    ∷ guides "g3" 3 "hurry"
    ∷ assembles
    ∷ adds note refl
    ∷ guides "g4" 4 "stop"
    ∷ []

accepts_two :
    (take_turns turns start).1
    ≡ record { id = "g1"; content = "use tests"; created_at = 1 }
      ∷ record { id = "g4"; content = "stop"; created_at = 4 }
      ∷ []
unfolding take_turns strip
accepts_two = refl

guidance_delivered_once_example :
    delivered (take_turns turns start).0 ++ waiting (take_turns turns start).0
    ≡ (delivered start ++ waiting start) ++ map guidance_message (take_turns turns start).1
guidance_delivered_once_example = guidance_delivered_once turns start
