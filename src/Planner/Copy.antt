-- ===== src/Planner/Copy.antt =====
-- The plan that a plan agent hands over for execution: `copy_for_execution` of
-- dare_framework/plan_v2/types.py.
use deterministic_agent_runt.Base.{
  String, true, some, List, [], ◌∷◌, ◌≡◌, refl, ap, inl, inr, arith, All, keep, is_some,
  Option-cases,
}
use deterministic_agent_runt.Planner.State.{
  PlanState, known, PlanStep, PlannerState, id_of, is_pending, is_step_completed, pending_steps,
  clean_steps, copy_for_execution,
}

abbrev pub HasId : PlanStep → Type 0
HasId s = is_some (id_of s) ≡ true

-- a step under its own id, waiting to be done
abbrev handed_over : PlanStep → String → PlanStep
handed_over s k = record {
  step_id = k;
  description = s.description;
  params = s.params;
  status = known PlanState.todo;
}

handed_over-HasId : (s : PlanStep) (k : String) → id_of s ≡ some k → HasId (handed_over s k)
unfolding id_of
handed_over-HasId s k e = ground arith

handed_over-pending : (s : PlanStep) (k : String) → is_pending [] (handed_over s k) ≡ true
unfolding is_step_completed
handed_over-pending s k = ground arith

clean_steps-pending :
    (ss : List PlanStep)
    → (keep (is_pending []) (clean_steps ss) ≡ clean_steps ss) × All HasId (clean_steps ss)
clean_steps-pending [] = (refl, tt)
clean_steps-pending (s ∷ ss) = elim (Option-cases (id_of s)) [
  | inl e ↦ rw (e, clean_steps) (clean_steps-pending ss)
  | inr (k, e) ↦
      let (kept, ids) = clean_steps-pending ss in
      rw (e, clean_steps, keep, handed_over-pending s k)
        (ap (λ (t : List PlanStep). handed_over s k ∷ t) kept, (handed_over-HasId s k e, ids))
]

-- In the copy that is handed over for execution every step is pending and has an id, so that each can
-- be delegated.
copy_for_execution-pending :
    (st : PlannerState)
    → (pending_steps (copy_for_execution st) ≡ (copy_for_execution st).steps)
      × All HasId (copy_for_execution st).steps
unfolding pending_steps copy_for_execution
copy_for_execution-pending st = clean_steps-pending st.steps
