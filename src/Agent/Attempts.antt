-- ===== src/Agent/Attempts.antt =====
-- A milestone that fails leaves no trace in short-term memory
-- (dare_framework/agent/_internal/milestone_orchestrator.py with the sandbox of
-- dare_framework/agent/_internal/sandbox.py).
use Prim.Native.String.{◌++◌ as append}
use deterministic_agent_runt.Base.{ℕ, String, false, Option, none, some, List, ◌≡◌, refl, ap, ◌∙◌}
use deterministic_agent_runt.Base.Dict.{lookup}
use deterministic_agent_runt.Context.Memory.{Context, Message}
use deterministic_agent_runt.Agent.Sandbox.{PlanAttemptSandbox, create_snapshot, commit}
use deterministic_agent_runt.Agent.Restore.{
  SameSnapshots, rollback-create_snapshot, commit-create_snapshot,
}
use deterministic_agent_runt.Agent.Milestone.{
  Try, returned, raised, Around, ExecuteResult, VerifyResult, LoopState, MilestoneState, AttemptEnd,
  goes_on, returns, raises, confirm, undone_in, undone, refuse_with, refuse_plan, continued,
  reflect_plan_tool, succeed, reflect_on, remediate_with, failed_attempt, fail_attempt,
  add_reflection, Action,
}

-- The remediator leaves short-term memory as it is.
abbrev pub LeavesMemory : {W : Type 0} → Option (VerifyResult → Action W String) → Type 0
LeavesMemory {W} remediate =
    (r : VerifyResult → Action W String) (v : VerifyResult) (notes : List String) (a : Around W)
    → remediate ≡ some r
    → (r v notes a).0.context.short_term_memory ≡ a.context.short_term_memory

module _ {W : Type 0} (memory : List Message) (s : PlanAttemptSandbox) where
  -- There is a sandbox, with the snapshots that `s` has.
  abbrev pub KeepsSandbox : LoopState W → Type 0
  KeepsSandbox st = (s' : PlanAttemptSandbox) × (st.sandbox ≡ some s') × SameSnapshots s s'

  -- Short-term memory is `memory`, and the sandbox has the snapshots of `s`.
  abbrev pub Restored : LoopState W → Type 0
  Restored st = (st.around.context.short_term_memory ≡ memory) × KeepsSandbox st

  -- what an attempt promises
  abbrev pub Attempted : LoopState W × AttemptEnd → Type 0
  Attempted (st, goes_on) = Restored st
  Attempted (st, returns r) =
      KeepsSandbox st × (r.success ≡ false → st.around.context.short_term_memory ≡ memory)
  Attempted (st, raises) = Unit {0}

  -- the sandbox during an attempt
  abbrev pub Guarded : String → LoopState W → Type 0
  Guarded id st =
      (c : Context) × (c.short_term_memory ≡ memory) × (st.sandbox ≡ some (create_snapshot id c s))

  module _ (id : String) (fresh : lookup id s.snapshots ≡ none) where
    undone-Restored :
        (st : LoopState W)
        → Guarded id st
        → (st' : LoopState W) × (undone id st ≡ some st') × Restored st'
    undone-Restored st (c, same, guarded) =
        let (s', back, kept) = rollback-create_snapshot id c st.around.context s fresh in
        (
          record st {
            around = record {
              context = record st.around.context { short_term_memory = c.short_term_memory };
              world = st.around.world;
            };
            sandbox = some s';
          },
          ap (λ (o : Option PlanAttemptSandbox). undone_in id o st) guarded
              ∙ rw (back, undone_in) refl,
          (same, (s', refl, kept)),
        )

    pub refuse_plan-Attempted :
        (n : ℕ) (error : String) (st : LoopState W)
        → Guarded id st
        → Attempted (refuse_plan id n error st)
    unfolding refuse_plan
    refuse_plan-Attempted n error st g =
        let (st', back, (same, kept)) = undone-Restored st g in
        rw (back, refuse_with) (kept, λ _. same)

    pub reflect_plan_tool-Attempted :
        (name : String) (st : LoopState W)
        → Guarded id st
        → Attempted (reflect_plan_tool id name st)
    unfolding reflect_plan_tool
    reflect_plan_tool-Attempted name st g =
        let noted : LoopState W = record st {
          milestone = add_reflection (append "plan tool encountered: " name) st.milestone;
        } in
        let (st', back, restored) = undone-Restored noted g in rw (back, continued) restored

    pub succeed-Attempted :
        (n : ℕ) (result : ExecuteResult) (v : VerifyResult) (st : LoopState W)
        → Guarded id st
        → Attempted (succeed id n result v st)
    unfolding succeed
    succeed-Attempted n result v st (c, same, guarded) = (
      (
        commit id (create_snapshot id c s),
        ap (confirm id) guarded,
        commit-create_snapshot id c s fresh,
      ),
      λ e. cc,
    )

    module _ (remediate : Option (VerifyResult → Action W String)) where
      reflect_on-Attempted :
          (o : Around W × Try String) (st : LoopState W)
          → o.0.context.short_term_memory ≡ st.around.context.short_term_memory
          → Restored st
          → Attempted (reflect_on o st)
      reflect_on-Attempted (a, raised text) st same restored = tt
      reflect_on-Attempted (a, returned r) st same restored = (same ∙ restored.0, restored.1)

      remediate_with-Attempted :
          (o : Option (VerifyResult → Action W String)) (v : VerifyResult)
          (m : Option MilestoneState) (st : LoopState W)
          → remediate ≡ o
          → LeavesMemory remediate
          → Restored st
          → Attempted (remediate_with o v m st)
      remediate_with-Attempted none v m st e leaves restored = restored
      remediate_with-Attempted (some r) v none st e leaves restored = restored
      remediate_with-Attempted (some r) v (some m) st e leaves restored =
          reflect_on-Attempted (r v m.reflections st.around) st
            (leaves r v m.reflections st.around e) restored

      pub fail_attempt-Attempted :
          (v : VerifyResult) (st : LoopState W)
          → LeavesMemory remediate
          → Guarded id st
          → Attempted (fail_attempt remediate id v st)
      unfolding fail_attempt
      fail_attempt-Attempted v st leaves g =
          let (st', back, restored) = undone-Restored st g in
          rw (back, failed_attempt)
            (remediate_with-Attempted remediate v st'.milestone st' refl leaves restored)
