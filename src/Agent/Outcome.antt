-- ===== src/Agent/Outcome.antt =====
-- What a session comes to (dare_framework/agent/_internal/session_orchestrator.py).
use mathlib.Core.Path.{subst, ap₂}
use deterministic_agent_runt.Base.{
  Bool, true, false, ◌||◌, is_some, List, [], ◌∷◌, ◌++◌, map, String, ◌≡◌, refl, sym, ap, ◌↔◌, ◌⊎◌,
  inl, inr, All,
}
use deterministic_agent_runt.Context.Budget.{budget_check}
use deterministic_agent_runt.Context.Memory.{Message}
use deterministic_agent_runt.Agent.Milestone.{
  Around, MilestoneAgent, LoopState, AttemptEnd, goes_on, returns, raises,
}
use deterministic_agent_runt.Agent.Session.{
  MilestoneRun, SessionEnd, completed, broken_off, SessionState, or_default, add_run, go_on,
  session_after, after_run, run_one, run_milestones, run_session_loop, session_success,
}

or_default-fails : (es : List String) → session_success (or_default es) ≡ false
or_default-fails [] = refl
or_default-fails (e ∷ es) = refl

module _ {M : Type 0} where
  abbrev pub Succeeded : MilestoneRun M → Type 0
  Succeeded run = run.result.success ≡ true

  -- The runs are those of the first milestones, all but the last a success. If the last one is
  -- a success too, the milestones are at their end and there is no error.
  abbrev pub Ran : List M → List (MilestoneRun M) → List String → Type 0
  Ran [] [] errors = errors ≡ []
  Ran [] (_ ∷ _) errors = ⊥
  Ran (_ ∷ _) [] errors = ⊥
  Ran (m ∷ ms) (run ∷ runs) errors =
      (run.milestone ≡ m)
      × ((Succeeded run × Ran ms runs errors)
          ⊎ ((run.result.success ≡ false) × (runs ≡ []) × (session_success errors ≡ false)))

  abbrev pub EndsAs : List M → SessionEnd M → Type 0
  EndsAs ms (completed runs errors) = Ran ms runs errors
  EndsAs ms broken_off = Unit {0}

  add_run-EndsAs :
      (m : M) (ms : List M) (run : MilestoneRun M) (end : SessionEnd M)
      → run.milestone ≡ m
      → Succeeded run
      → EndsAs ms end
      → EndsAs (m ∷ ms) (add_run run end)
  add_run-EndsAs m ms run (completed runs errors) same ok ran = (same, inl (ok, ran))
  add_run-EndsAs m ms run broken_off same ok ran = tt

  go_on-EndsAs :
      {S : Type 0} (b : Bool) (m : M) (ms : List M) (run : MilestoneRun M)
      (later : S × SessionEnd M) (st : S)
      → run.milestone ≡ m
      → run.result.success ≡ b
      → EndsAs ms later.1
      → EndsAs (m ∷ ms) (go_on b run later st).1
  go_on-EndsAs true m ms run (st', end) st same ok ran = add_run-EndsAs m ms run end same ok ran
  go_on-EndsAs false m ms run later st same failed ran =
      (same, inr (failed, refl, or_default-fails run.result.errors))

  -- if the milestones all ran, they were these, in order
  Ran-milestones :
      (ms : List M) (runs : List (MilestoneRun M)) (errors : List String)
      → Ran ms runs errors
      → (rest : List M) × (ms ≡ map (λ run. run.milestone) runs ++ rest)
        × ((session_success errors ≡ true) ↔ ((rest ≡ []) × All Succeeded runs))
  Ran-milestones [] [] errors ran = ([], refl, ((λ _. (refl, tt)), (λ _. ap session_success ran)))
  Ran-milestones [] (run ∷ runs) errors ran = elim ran [ ]
  Ran-milestones (m ∷ ms) [] errors ran = elim ran [ ]
  Ran-milestones (m ∷ ms) (run ∷ runs) errors (same, inl (ok, ran)) =
      let (rest, split, all) = Ran-milestones ms runs errors ran in
      (
        rest,
        ap₂ (λ (a : M) (l : List M). a ∷ l) (sym same) split,
        (
          (λ e. let (done, each) = all.0 e in (done, (ok, each))),
          (λ (done, each). all.1 (done, each.1)),
        ),
      )
  Ran-milestones (m ∷ ms) (run ∷ runs) errors (same, inr (failed, last, bad)) = (
    ms,
    ap₂ (λ (a : M) (l : List M). a ∷ l) (sym same)
        (ap (λ (l : List (MilestoneRun M)). map (λ run. run.milestone) l ++ ms) (sym last)),
    ((λ e. cc), (λ k. cc (k.1.0))),
  )

module _ {W Plan M : Type 0} (agents : M → MilestoneAgent W Plan)
    (interrupted : Around W → Bool) where
  after_run-EndsAs :
      (m : M) (ms : List M) (o : LoopState W × AttemptEnd)
      (later : SessionState W → SessionState W × SessionEnd M)
      → ((st : SessionState W) → EndsAs ms (later st).1)
      → EndsAs (m ∷ ms) (after_run agents interrupted m o later).1
  after_run-EndsAs m ms (st, goes_on) later h = tt
  after_run-EndsAs m ms (st, raises) later h = tt
  after_run-EndsAs m ms (st, returns r) later h =
      go_on-EndsAs r.success m ms _ (later (session_after agents interrupted st)) _ refl refl (h _)

  run_milestones-EndsAs :
      (ms : List M) (st : SessionState W) → EndsAs ms (run_milestones agents interrupted ms st).1
  unfolding run_milestones
  run_milestones-EndsAs [] st = refl
  run_milestones-EndsAs (m ∷ ms) st =
      begins (is_some (budget_check st.around.context.budget) || interrupted st.around)
        (after_run-EndsAs m ms (run_one agents interrupted m st) _ (run_milestones-EndsAs ms))
    where
      begins :
          (b : Bool)
          → EndsAs
              (m ∷ ms)
              (after_run agents interrupted m
                (run_one agents interrupted m st)
                (run_milestones agents interrupted ms)).1
          → EndsAs
              (m ∷ ms)
              (elim b as (λ _. SessionState W × SessionEnd M) [
                | true ↦ (st, broken_off)
                | false ↦
                    after_run agents interrupted m
                      (run_one agents interrupted m st)
                      (run_milestones agents interrupted ms)
              ]).1
      begins true h = tt
      begins false h = h

  -- A session that comes to its end has run milestones in their order from the first one on. It is
  -- a success exactly if it has run all of them and each of them succeeded.
  pub session_success_iff :
      (input : Message) (ms : List M) (st st' : SessionState W) (runs : List (MilestoneRun M))
      (errors : List String)
      → run_session_loop agents interrupted input ms st ≡ (st', completed runs errors)
      → (rest : List M) × (ms ≡ map (λ run. run.milestone) runs ++ rest)
        × ((session_success errors ≡ true) ↔ ((rest ≡ []) × All Succeeded runs))
  unfolding run_session_loop
  session_success_iff input ms st st' runs errors h =
      Ran-milestones ms runs errors (
        subst (λ (o : SessionState W × SessionEnd M). EndsAs ms o.1) h (run_milestones-EndsAs ms _))
