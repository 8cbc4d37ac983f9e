-- ===== src/Context/Memory.antt =====
-- `Context` of dare_framework/context/context.py: short-term memory, the draining of guidance into it,
-- and the assembly of messages for the model. The compressor is an argument: what `prune` makes of the
-- messages.
use deterministic_agent_runt.Base.{
  ℕ, String, Option, none, some, List, [], ◌∷◌, ◌++◌, ltb, if◌then◌else◌,
}
use deterministic_agent_runt.Context.Budget.{Budget}
use deterministic_agent_runt.Context.Guidance.{GuidanceItem, GuidanceQueue, drain_all_sync}

pub data MessageRole : Type 0 where
  system user assistant tool : MessageRole

pub data MessageKind : Type 0 where
  chat thinking tool_call tool_result summary : MessageKind

-- An entry of `data["tool_calls"]`; one that is no dict has neither an id nor a name.
pub record ToolCallEntry : Type 0 where
  pub id : Option String
  pub name : Option String

-- Of `Message` the fields that the code here reads or writes; `guidance_id` is the entry of the
-- metadata that marks user guidance, `attachments` their number, `tool_calls` the list in `data`. A
-- text that is missing is the empty one.
pub record Message : Type 0 where
  pub role : MessageRole
  pub kind : MessageKind
  pub text : String
  pub name : Option String
  pub guidance_id : Option String
  pub attachments : ℕ
  pub tool_calls : List ToolCallEntry

pub record Context : Type 0 where
  pub short_term_memory : List Message
  pub budget : Budget
  pub guidance_queue : Option GuidanceQueue

-- `stm_add`, `stm_clear`
unfoldable pub stm_add : Message → Context → Context
stm_add m c = record c { short_term_memory = c.short_term_memory ++ (m ∷ []) }

unfoldable pub stm_clear : Context → Context
stm_clear c = record c { short_term_memory = [] }

-- the message that stands for a guidance item
abbrev pub guidance_message : GuidanceItem → Message
guidance_message i = record {
  role = MessageRole.user;
  kind = chat;
  text = i.content;
  name = none;
  guidance_id = some i.id;
  attachments = 0;
  tool_calls = [];
}

-- the loop of `_drain_guidance`
unfoldable pub add_guidance : List GuidanceItem → Context → Context
unfolding stm_add
add_guidance [] c = c
add_guidance (i ∷ is) c = add_guidance is (stm_add (guidance_message i) c)

-- `_drain_guidance`
abbrev pub drain_from : Option GuidanceQueue → Context → Context
drain_from none c = c
drain_from (some q) c =
    let (q', items) = drain_all_sync q in add_guidance items (record c { guidance_queue = some q' })

unfoldable pub drain_guidance : Context → Context
unfolding drain_all_sync add_guidance
drain_guidance c = drain_from c.guidance_queue c

-- `assemble`: the context afterwards, and the messages of the assembled context
unfoldable pub assemble : Context → Context × List Message
unfolding drain_guidance
assemble c = let c' = drain_guidance c in (c', c'.short_term_memory)

-- the option `max_context_tokens` if it is given, or else the window if it is positive
abbrev pub chosen_limit : Option (Option ℕ) → Option ℕ → Option ℕ
chosen_limit (some limit) window = limit
chosen_limit none none = none
chosen_limit none (some window) = if ltb 0 window then some window else none

-- `compress`; the arguments are what `prune` makes of the messages, the option and the window
unfoldable pub compress :
    Option (Option ℕ → List Message → List Message)
    → Option (Option ℕ)
    → Option ℕ
    → Context
    → Context
compress none wanted window c = c
compress (some prune) wanted window c = record c {
  short_term_memory = prune (chosen_limit wanted window) c.short_term_memory;
}

-- `assemble_for_model`
unfoldable pub assemble_for_model :
    Option (Option ℕ → List Message → List Message)
    → Option (Option ℕ)
    → Option ℕ
    → Context
    → Context × List Message
unfolding drain_guidance compress assemble
assemble_for_model prune wanted window c =
    assemble (compress prune wanted window (drain_guidance c))
