-- ===== src/Hook/Tests.antt =====
-- A merge of three patches (dare_framework/hook/_internal/patch_validator.py), of which two set one
-- field to the same value.
use deterministic_agent_runt.Base.{
  ℕ, ◌+◌, ◌<◌, String, true, false, eqb, if◌then◌else◌, Option, none, some, List, [], ◌∷◌, ◌==◌,
  ◌≡◌, ◌↔◌, ◌⊎◌, refl, eq_iff,
}
use deterministic_agent_runt.Base.Int.{pos, negsuc, ◌≤ℤ◌}
use deterministic_agent_runt.Base.Dict.{Dict, lookup, insert}
use deterministic_agent_runt.Agent.ToolLoop.{HookDecision}
use deterministic_agent_runt.Hook.Emit.{
  before_model, before_tool, HookFn, returns, raises, mapping, HookExtensionPoint, emit_hooks, ran,
  failed_run, run_with_policy, merged_patches, register_hook,
}
use deterministic_agent_runt.Hook.Runs.{run_with_policy_ran_iff}
use deterministic_agent_runt.Hook.Arbiter.{Decides}
use deterministic_agent_runt.Hook.Decisions.{merges, results_of, emit_decision}
use deterministic_agent_runt.Hook.{merged, merge_patches, KeepsAll, merge_patches-KeepsAll}

abbrev allowlist : List String
allowlist = "model" ∷ "effort" ∷ []

abbrev patches : List (Option (Dict String))
patches =
    none ∷ some (("model", "small") ∷ []) ∷ some (("effort", "low") ∷ ("model", "small") ∷ []) ∷ []

abbrev together : Dict String
together = ("model", "small") ∷ ("effort", "low") ∷ []

patches_merge : merge_patches ◌==◌ allowlist patches ≡ merged together
unfolding merge_patches lookup insert
patches_merge = refl

merge_patches-KeepsAll_example : KeepsAll ◌==◌ allowlist together patches
merge_patches-KeepsAll_example =
    merge_patches-KeepsAll ◌==◌ allowlist eq_iff patches together patches_merge

-- one hook fails twice and asks then, one blocks at once
abbrev asks_late : HookFn String
asks_late n =
    if eqb n 3 then returns (mapping (some "ask") none (some "late")) else raises "not yet"

abbrev blocks : HookFn String
blocks _ = returns (mapping (some "block") none none)

abbrev point : HookExtensionPoint String
point = record {
  hooks = λ _. asks_late ∷ [];
  callback_specs = λ _. [];
  registration_order = 0;
  retries = pos 2;
  idempotent = true;
  enforce = true;
}

asks : (emit_hooks ◌==◌ point before_model).decision ≡ HookDecision.ask
unfolding emit_hooks
asks = refl

emit_decision_example :
    (((emit_hooks ◌==◌ point before_tool).decision ≡ HookDecision.block) ↔ (
      (true ≡ true)
      × ((merges (merged_patches ◌==◌ point before_tool) ≡ false)
          ⊎ Decides "block" (results_of point before_tool))))
    × (((emit_hooks ◌==◌ point before_tool).decision ≡ HookDecision.ask) ↔ (
        (true ≡ true)
        × (merges (merged_patches ◌==◌ point before_tool) ≡ true)
        × Decides "ask" (results_of point before_tool)
        × (Decides "block" (results_of point before_tool) → ⊥)))
emit_decision_example = emit_decision ◌==◌ point before_tool

blocks_before_tools :
    (emit_hooks ◌==◌ (register_hook before_tool blocks point) before_tool).decision
    ≡ HookDecision.block
unfolding emit_hooks register_hook
blocks_before_tools = refl

no_attempt :
    run_with_policy asks_late (negsuc 0) true
    ≡ failed_run "HOOK_RUNTIME_ERROR" "unknown hook runner state"
unfolding run_with_policy
no_attempt = refl

abbrev shouts : HookFn String
shouts _ = returns (mapping (some "BLOCK") none none)

capitals_block :
    (emit_hooks ◌==◌ (register_hook before_tool shouts point) before_tool).decision
    ≡ HookDecision.block
unfolding emit_hooks register_hook
capitals_block = refl

run_with_policy_ran_iff_example :
    (run_with_policy asks_late (pos 2) true ≡ ran (mapping (some "ask") none (some "late"))) ↔ (
      (k : ℕ) × (pos k ≤ℤ pos 2)
      × (asks_late (k + 1) ≡ returns (mapping (some "ask") none (some "late")))
      × ((j : ℕ) → j < k → (e : String) × (asks_late (j + 1) ≡ raises e)))
run_with_policy_ran_iff_example =
    run_with_policy_ran_iff asks_late (pos 2) true (mapping (some "ask") none (some "late"))
