-- ===== src/Hook/Emit.antt =====
-- The dispatch of hooks: dare_framework/hook/_internal/hook_extension_point.py, with its helpers in
-- hook_runner.py, decision_arbiter.py and hook_selector.py beside it. A hook is what its attempts come
-- to, by their number.
mod Results
unfoldable pub use Results.*
use Prim.Native.String.{◌++◌ as append}
use deterministic_agent_runt.Base.{
  ℕ, zero, suc, ◌+◌, String, Bool, true, false, not, Option, none, some, List, [], ◌∷◌, ◌++◌, map,
  ltb, leb, ◌&&◌, ◌==◌, if◌then◌else◌,
}
use deterministic_agent_runt.Base.Int.{ℤ}
use deterministic_agent_runt.Base.Lower.{lower}
use deterministic_agent_runt.Base.Dict.{Dict}
use deterministic_agent_runt.Base.Sort.{sort_by}
use deterministic_agent_runt.Agent.ToolLoop.{HookDecision}
use deterministic_agent_runt.Hook.{Merged, merged, not_allowlisted, conflicting, merge_patches}

-- A registered callback, which `_callbacks` and `_callback_specs` hold alike; the other entries of its
-- dict are the same for every callback of a phase.
pub record HookSpec (A : Type 0) : Type 0 where
  pub registration_order : ℕ
  pub callback : HookFn A

-- `HookExtensionPoint`; `hooks` are the hooks as they answer in a phase
pub record HookExtensionPoint (A : Type 0) : Type 0 where
  pub hooks : HookPhase → List (HookFn A)
  pub callback_specs : HookPhase → List (HookSpec A)
  pub registration_order : ℕ
  pub retries : ℤ
  pub idempotent : Bool
  pub enforce : Bool

-- `sort_hook_specs`, for specs that differ in the last part of their key alone
unfoldable pub sort_hook_specs : {A : Type 0} → List (HookSpec A) → List (HookSpec A)
unfolding sort_by
sort_hook_specs specs = sort_by (λ s t. leb s.registration_order t.registration_order) specs

-- `HookResult`
pub record HookResult (A : Type 0) : Type 0 where
  pub decision : HookDecision
  pub patch : Option (Dict A)
  pub message : Option String

-- `_PATCH_ALLOWLIST_BY_PHASE`
abbrev pub patch_allowlist : HookPhase → List String
patch_allowlist before_model = "model_input" ∷ []
patch_allowlist before_context_assemble = "context_patch" ∷ []
patch_allowlist _ = []

-- the callbacks in their order, then the hooks
unfoldable pub functions_of : {A : Type 0} → HookExtensionPoint A → HookPhase → List (HookFn A)
unfolding sort_hook_specs
functions_of p phase =
    map HookSpec.callback (sort_hook_specs (p.callback_specs phase)) ++ p.hooks phase

abbrev pub run_results : {A : Type 0} → HookExtensionPoint A → HookPhase → List (HookRunResult A)
run_results p phase = map (λ fn. run_with_policy fn p.retries p.idempotent) (functions_of p phase)

-- the errors of the runs, as `code:message`
abbrev pub error_texts : {A : Type 0} → List (HookRunResult A) → List String
error_texts [] = []
error_texts (ran v ∷ rs) = error_texts rs
error_texts (failed_run code message ∷ rs) = append code (append ":" message) ∷ error_texts rs

-- `"; ".join`
abbrev pub join_errors : List String → String
join_errors [] = ""
join_errors (e ∷ []) = e
join_errors (e ∷ f ∷ es) = append e (append "; " (join_errors (f ∷ es)))

-- the patches that are there
abbrev pub patches_of : {A : Type 0} → List (Normalized A) → List (Option (Dict A))
patches_of [] = []
patches_of (r ∷ rs) = elim r.patch [ none ↦ patches_of rs | some d ↦ some d ∷ patches_of rs ]

-- a decision from its text
abbrev pub decision_from : String → HookDecision
decision_from text =
    if text == "block"
    then HookDecision.block
    else if text == "ask"
    then HookDecision.ask
    else HookDecision.allow

abbrev pub with_shadow : HookDecision → Option String → String
with_shadow d none = append "shadow mode observed decision=" (decision_value d)
with_shadow d (some m) =
    append (append "shadow mode observed decision=" (decision_value d)) (append "; " m)

-- an empty message is false for `if`
abbrev pub truthy_message : Option String → Option String
truthy_message none = none
truthy_message (some m) = if m == "" then none else some m

abbrev pub is_allow : HookDecision → Bool
is_allow HookDecision.allow = true
is_allow HookDecision.block = false
is_allow HookDecision.ask = false

-- the end of `emit` where the patches do not merge
abbrev pub contract_error : {A : Type 0} → Bool → List String → String → HookResult A
contract_error enforce errors message =
    let all = join_errors (errors ++ (append "HOOK_CONTRACT_ERROR:" message ∷ [])) in
    if enforce
    then record { decision = HookDecision.block; patch = none; message = some all }
    else record {
      decision = HookDecision.allow;
      patch = none;
      message = some (append "shadow mode: " all);
    }

-- the end of `emit` where they do
abbrev pub decided_result :
    {A : Type 0} → Bool → HookDecision → Dict A → Option String → HookResult A
decided_result enforce d patch message =
    if not enforce && not (is_allow d)
    then record {
      decision = HookDecision.allow;
      patch = some patch;
      message = some (with_shadow d (truthy_message message));
    }
    else record { decision = d; patch = some patch; message = message }

abbrev pub errors_or : List String → Option String → Option String
errors_or [] message = message
errors_or (e ∷ es) message = some (join_errors (e ∷ es))

abbrev pub conclude_emit :
    {A : Type 0} → Bool → List String → Normalized A → Merged A → HookResult A
conclude_emit enforce errors winner (not_allowlisted k) =
    contract_error enforce errors (append "field '" (append k "' is not allowlisted"))
conclude_emit enforce errors winner (conflicting k) =
    contract_error enforce errors (append "conflicting mutation for '" (append k "'"))
conclude_emit enforce errors winner (merged patch) =
    decided_result enforce (decision_from (lower winner.decision)) patch
      (errors_or errors winner.message)

module _ {A : Type 0} (same : A → A → Bool) where
  abbrev pub merged_patches : HookExtensionPoint A → HookPhase → Merged A
  merged_patches p phase =
      merge_patches same (patch_allowlist phase)
        (patches_of (map normalize_runner_result (run_results p phase)))

  -- `emit`
  unfoldable pub emit_hooks : HookExtensionPoint A → HookPhase → HookResult A
  unfolding functions_of run_with_policy normalize_runner_result arbitrate merge_patches
  emit_hooks p phase =
      conclude_emit p.enforce (error_texts (run_results p phase))
        (arbitrate (map normalize_runner_result (run_results p phase))) (merged_patches p phase)

-- `register_hook`
unfoldable pub register_hook :
    {A : Type 0} → HookPhase → HookFn A → HookExtensionPoint A → HookExtensionPoint A
register_hook phase hook p = record p {
  registration_order = p.registration_order + 1;
  callback_specs = λ q.
      if phase_value phase == phase_value q
      then p.callback_specs q
        ++ (record { registration_order = p.registration_order + 1; callback = hook } ∷ [])
      else p.callback_specs q;
}
