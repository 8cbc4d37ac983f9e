-- ===== src/Compression/Tests.antt =====
-- A conversation that is pruned (dare_framework/compression/moving_compression.py): an old call of a tool is
-- summarised, and its result with it.
use deterministic_agent_runt.Base.{
  String, true, none, some, List, [], ◌∷◌, ◌++◌, keep, length, ◌≤◌, ◌≡◌, ◌⊎◌, refl, arith,
}
use deterministic_agent_runt.Context.Memory.{MessageRole, MessageKind, Message, ToolCallEntry}
use deterministic_agent_runt.Compression.{
  estimate_tokens, MovingCompressor, compute_prune_result, budget_tokens, prune, summary_message,
}
use deterministic_agent_runt.Compression.Pruning.{
  moves_with, stays, summary_of, Unanswered, prune_window, no_orphan_result,
}

abbrev said : MessageRole → String → Message
said role text = record {
  role = role;
  kind = MessageKind.chat;
  text = text;
  name = none;
  guidance_id = none;
  attachments = 0;
  tool_calls = [];
}

abbrev question : Message
question = said MessageRole.user "what is here?"

abbrev calls_ls : Message
calls_ls =
    let call : ToolCallEntry = record { id = some "c1"; name = some "ls" } in
    record (said MessageRole.assistant "") { tool_calls = call ∷ [] }

abbrev ls_result : Message
ls_result = record (said MessageRole.tool "a b") { name = some " c1 " }

abbrev reply : Message
reply = said MessageRole.assistant "two files"

abbrev conversation : List Message
conversation = question ∷ calls_ls ∷ ls_result ∷ reply ∷ []

abbrev compressor : MovingCompressor
compressor = record {
  share_num = 1;
  share_den = 2;
  parts = 2;
  tool_pair_safe = true;
  generate = λ _. " a and b are here ";
}

conversation_is_pruned :
    prune compressor (some 50) conversation ≡ summary_message "a and b are here" ∷ reply ∷ []
unfolding prune compute_prune_result estimate_tokens
conversation_is_pruned = refl

prune_window_example :
    (older newer : List Message) × (conversation ≡ older ++ newer)
    × (prune compressor (some 50) conversation
        ≡ summary_of compressor (older ++ keep (moves_with true older) newer)
          ++ keep (stays true older) newer)
    × ((estimate_tokens (keep (stays true older) newer) ≤ budget_tokens compressor 50)
        ⊎ (length (keep (stays true older) newer) ≤ 1))
prune_window_example = prune_window compressor 50 conversation (omega arith) (omega arith)

no_orphan_result_example :
    Unanswered
      (compute_prune_result conversation 25 2 true).dropped
      (compute_prune_result conversation 25 2 true).kept
no_orphan_result_example = no_orphan_result conversation 25 2
