-- ===== src/Tools/Tests.antt =====
-- A tool manager with a tool and a provider (dare_framework/tool/tool_manager.py).
use deterministic_agent_runt.Base.{
  ℕ, String, arith, true, false, none, [], ◌∷◌, List, ◌≡◌, refl, if◌then◌else◌, eqb,
}
use deterministic_agent_runt.Base.Dict.{lookup, insert}
use deterministic_agent_runt.Json.{end}
use deterministic_agent_runt.Tools.{
  from_provider, ToolManager, register_tool, Tool, answered, get_tool, list_tools,
}
use deterministic_agent_runt.Tools.Providers.{
  register_provider, unregister_provider, new_tool_manager,
}
use deterministic_agent_runt.Tools.Index.{IsIndexed}
use deterministic_agent_runt.Tools.Removal.{Recorded}
use deterministic_agent_runt.Tools.Ownership.{unregister_provider-register_provider}
use deterministic_agent_runt.Tools.Changes.{
  Change, registers, updates, enables, adds_provider, drops_provider, perform_all,
  perform_all-IsIndexed,
}

abbrev named : String → Tool
named name = record {
  name = name;
  description = "";
  input_schema = end;
  output_schema = end;
  risk_level = none;
  requires_approval = none;
  timeout_seconds = none;
  is_work_unit = none;
  capability_kind = none;
}

-- two tools called ls, one called cat
abbrev tools : ℕ → Tool
tools t = if eqb t 2 then named "cat" else named "ls"

-- a tool of ours, a provider that fails on its second tool, an update by the other ls, a disabled cat
abbrev changes : List Change
changes =
    registers 1
    ∷ adds_provider 7 (2 ∷ 3 ∷ [])
    ∷ updates 3 "ls" none
    ∷ enables "cat" false
    ∷ drops_provider 7
    ∷ []

perform_all-IsIndexed_example : IsIndexed tools (perform_all tools changes (new_tool_manager true))
perform_all-IsIndexed_example = perform_all-IsIndexed tools true changes

ls_is_replaced : get_tool "ls" (perform_all tools changes (new_tool_manager true)) ≡ answered 3
unfolding get_tool perform_all lookup insert
ls_is_replaced = refl

abbrev with_ls : ToolManager
with_ls = (register_tool tools 1 (new_tool_manager true)).0

-- a manager whose only tool is ours has all entries of a provider on record
all_ours : Recorded 7 with_ls
unfolding register_tool lookup insert
all_ours id h = ground (arith, h)

abbrev with_cat : ToolManager
with_cat = (register_provider tools 7 (2 ∷ []) with_ls).0

cat_is_registered : register_provider tools 7 (2 ∷ []) with_ls ≡ (with_cat, answered tt)
unfolding register_provider register_tool lookup insert
cat_is_registered = refl

unregister_provider-register_provider_example :
    from_provider 7 (lookup "cat" (unregister_provider 7 with_cat).0.registry) ≡ false
unregister_provider-register_provider_example =
    unregister_provider-register_provider tools 7 (2 ∷ []) with_ls with_cat all_ours
      cat_is_registered "cat"

-- A provider that fails on its last tool leaves the others behind when it is unregistered.
failed_provider_leaves_tool :
    list_tools (
      perform_all tools
        (adds_provider 7 (2 ∷ 1 ∷ 3 ∷ []) ∷ drops_provider 7 ∷ [])
        (new_tool_manager true))
    ≡ 2 ∷ 1 ∷ []
unfolding list_tools perform_all lookup insert
failed_provider_leaves_tool = refl
