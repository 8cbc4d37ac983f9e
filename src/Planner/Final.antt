-- ===== src/Planner/Final.antt =====
-- A plan that is done or abandoned stays so, whatever tools of dare_framework/plan_v2/tools.py are
-- called on it.
use deterministic_agent_runt.Base.{
  ℕ, zero, String, Bool, true, false, not, ◌&&◌, Option, none, some, List, [], ◌∷◌, if◌then◌else◌,
  ◌≡◌, refl, sym, ◌∙◌, ap, inl, inr, arith, Bool-cases, Option-cases,
}
use deterministic_agent_runt.Planner.State.{
  PlanState, Milestone, PlannerState, is_terminal, is_todo, is_done, is_abandoned,
  is_valid_state_transition, pending_steps, transition_step, transition_plan, is_nil,
  sync_completed_step_ids, format_critical_block,
}
use deterministic_agent_runt.Planner.Tools.{
  RawStep, Reply, create_plan, validate_plan, revise_current_plan, verify_milestone, reflect,
  decompose_task,
}
use deterministic_agent_runt.Planner.Delegation.{
  pending_places, abandon_steps, with_summary, close_plan, finish_from, finish_plan, named_step,
  with_progress, begin_delegation, end_delegation,
}
use deterministic_agent_runt.Planner.Lifecycle.{
  terminal_states_stay, SamePlan, SamePlan-trans, format_critical_block-SamePlan,
  transition_step-SamePlan, abandon_steps-SamePlan,
}

-- A call of a plan tool; a delegation is its two halves.
pub data PlanCall : Type 0 where
  creates : String → List RawStep → PlanCall
  validates : Bool → List String → PlanCall
  revises : Option String → Option (List RawStep) → PlanCall
  finishes : Option PlanState → Option String → PlanCall
  verifies : List String → PlanCall
  reflects : String → PlanCall
  decomposes : List Milestone → Option String → PlanCall
  begins : Option String → PlanCall
  ends : Bool → Option String → PlanCall

unfoldable pub run_call : PlanCall → PlannerState → PlannerState × Reply
run_call (creates d raws) = create_plan d raws
run_call (validates ok errors) = validate_plan ok errors
run_call (revises d raws) = revise_current_plan d raws
run_call (finishes target summary) = finish_plan target summary
run_call (verifies errors) = verify_milestone errors
run_call (reflects summary) = reflect summary
run_call (decomposes ms current) = decompose_task ms current
run_call (begins k) = begin_delegation k
run_call (ends ok k) = end_delegation ok k

unfoldable pub run_calls : List PlanCall → PlannerState → PlannerState
unfolding run_call
run_calls [] st = st
run_calls (c ∷ cs) st = run_calls cs (run_call c st).0

-- a plan with steps, in a terminal state
pub record IsClosed (p : PlanState) (st : PlannerState) : Type 0 where
  pub has_steps : is_nil st.steps ≡ false
  pub terminal : is_terminal p ≡ true
  pub status : st.plan_status ≡ p

SamePlan-IsClosed :
    (p : PlanState) (st st' : PlannerState) → SamePlan st st' → IsClosed p st → IsClosed p st'
SamePlan-IsClosed p st st' (s, n) c = record {
  has_steps = n ∙ c.has_steps;
  terminal = c.terminal;
  status = s ∙ c.status;
}

format-IsClosed :
    (p : PlanState) (st : PlannerState) → IsClosed p st → IsClosed p (format_critical_block st)
format-IsClosed p st c = SamePlan-IsClosed p st _ (format_critical_block-SamePlan st) c

with_progress-IsClosed :
    (p : PlanState) (st : PlannerState) → IsClosed p st → IsClosed p (with_progress st)
with_progress-IsClosed p st c =
    unfold sync_completed_step_ids in
    rw c.has_steps (record { has_steps = c.has_steps; terminal = c.terminal; status = c.status })

module _ (p : PlanState) (st : PlannerState) (c : IsClosed p st) where
  create_plan-IsClosed : (d : String) (raws : List RawStep) → IsClosed p (create_plan d raws st).0
  unfolding create_plan
  create_plan-IsClosed d raws =
      rw (c.has_steps, create_plan)
        (rw (c.has_steps, format_critical_block) at (format-IsClosed p st c))

  validate_plan-IsClosed :
      (ok : Bool) (errors : List String) → IsClosed p (validate_plan ok errors st).0
  unfolding validate_plan
  validate_plan-IsClosed ok errors =
      let st' : PlannerState = record st {
        plan_success = ok;
        plan_errors = errors;
        plan_validated = ok;
        plan_status =
            if ok && is_todo st.plan_status then PlanState.in_progress else st.plan_status;
      } in
      let kept : (if ok && is_todo st.plan_status then PlanState.in_progress else st.plan_status)
          ≡ p =
        ground (arith, c.status, c.terminal) in
      format-IsClosed p st'
        (record { has_steps = c.has_steps; terminal = c.terminal; status = kept })

  revise-IsClosed :
      (d : Option String) (raws : Option (List RawStep))
      → IsClosed p (revise_current_plan d raws st).0
  unfolding revise_current_plan
  revise-IsClosed d raws =
      let closed : is_terminal st.plan_status ≡ true = ap is_terminal c.status ∙ c.terminal in
      rw (c.has_steps, revise_current_plan) (rw closed c)

  close_plan-IsClosed :
      (summary : Option String) (r : PlannerState × Bool)
      → SamePlan st r.0
      → IsClosed p (close_plan summary r).0
  close_plan-IsClosed summary (s, false) e = SamePlan-IsClosed p st s e c
  close_plan-IsClosed none (s, true) e = format-IsClosed p s (SamePlan-IsClosed p st s e c)
  close_plan-IsClosed (some text) (s, true) e =
      let k : IsClosed p s = SamePlan-IsClosed p st s e c in
      format-IsClosed p (with_summary (some text) s) (ground (arith, k))

  finish_from-IsClosed :
      (target : PlanState) (summary : Option String) (places : List (ℕ × Option String))
      → IsClosed p (finish_from target summary places st (transition_plan target st)).0
  unfolding transition_plan
  finish_from-IsClosed target summary places =
      elim (Bool-cases (is_valid_state_transition st.plan_status target)) [
        | inl e ↦ rw e (closed e)
        | inr e ↦ rw e c
      ]
    where
      st' : PlannerState
      st' = record st { plan_status = target }

      same : is_valid_state_transition st.plan_status target ≡ true → SamePlan st st'
      same e = (
        sym (
            (terminal_states_stay st.plan_status target (ap is_terminal c.status ∙ c.terminal)).0
              e),
        refl,
      )

      closed :
          is_valid_state_transition st.plan_status target ≡ true
          → IsClosed p
              (close_plan summary
                (if is_abandoned target then abandon_steps places st' else (st', true))).0
      closed e = elim (Bool-cases (is_abandoned target)) [
        | inl a ↦ rw a (
            close_plan-IsClosed summary (abandon_steps places st') (
              SamePlan-trans st st' (abandon_steps places st').0 (same e)
                (abandon_steps-SamePlan places st')))
        | inr a ↦ rw a (close_plan-IsClosed summary (st', true) (same e))
      ]

  finish_plan-IsClosed :
      (target : Option PlanState) (summary : Option String)
      → IsClosed p (finish_plan target summary st).0
  unfolding finish_plan
  finish_plan-IsClosed none summary = c
  finish_plan-IsClosed (some target) summary =
      let places : List (ℕ × Option String) = pending_places st.completed_step_ids zero st.steps in
      elim (Bool-cases (is_terminal target)) [
        | inr e ↦ rw (e, finish_plan) c
        | inl e ↦
            rw (e, finish_plan)
              (rw c.has_steps
                (elim (Bool-cases (is_done target && not (is_nil (pending_steps st)))) [
                  | inl r ↦ rw r c
                  | inr r ↦ rw r (finish_from-IsClosed target summary places)
                ]))
      ]

  begin-IsClosed : (step_id : Option String) → IsClosed p (begin_delegation step_id st).0
  unfolding begin_delegation
  begin-IsClosed step_id =
      let closed : is_terminal st.plan_status ≡ true = ap is_terminal c.status ∙ c.terminal in
      rw (closed, begin_delegation) c

  end-IsClosed : (ok : Bool) (step_id : Option String) → IsClosed p (end_delegation ok step_id st).0
  unfolding end_delegation
  end-IsClosed false step_id = elim (Option-cases (named_step step_id)) [
    | inl n ↦ rw (n, end_delegation) c
    | inr (k, n) ↦ rw (n, end_delegation) (format-IsClosed p st c)
  ]
  end-IsClosed true step_id = elim (Option-cases (named_step step_id)) [
    | inl n ↦ rw (n, end_delegation) (with_progress-IsClosed p st c)
    | inr (k, n) ↦ elim (Option-cases (transition_step k PlanState.done st)) [
      | inl e ↦ rw (n, end_delegation) (rw e (format-IsClosed p st c))
      | inr (st', e) ↦
          let k' : IsClosed p st' =
            SamePlan-IsClosed p st st' (transition_step-SamePlan k PlanState.done st st' e) c in
          let f = format-IsClosed p st' k' in
          rw (n, end_delegation) (rw e (with_progress-IsClosed p (format_critical_block st') f))
    ]
  ]

run_call-IsClosed :
    (p : PlanState) (call : PlanCall) (st : PlannerState)
    → IsClosed p st
    → IsClosed p (run_call call st).0
unfolding run_call
run_call-IsClosed p (creates d raws) st c = create_plan-IsClosed p st c d raws
run_call-IsClosed p (validates ok errors) st c = validate_plan-IsClosed p st c ok errors
run_call-IsClosed p (revises d raws) st c = revise-IsClosed p st c d raws
run_call-IsClosed p (finishes target summary) st c = finish_plan-IsClosed p st c target summary
run_call-IsClosed p (verifies errors) st c =
    unfold verify_milestone in
    record { has_steps = c.has_steps; terminal = c.terminal; status = c.status }
run_call-IsClosed p (reflects summary) st c =
    unfold reflect in record { has_steps = c.has_steps; terminal = c.terminal; status = c.status }
run_call-IsClosed p (decomposes ms current) st c =
    unfold decompose_task in
    record { has_steps = c.has_steps; terminal = c.terminal; status = c.status }
run_call-IsClosed p (begins k) st c = begin-IsClosed p st c k
run_call-IsClosed p (ends ok k) st c = end-IsClosed p st c ok k

-- A plan with steps whose status is done or abandoned keeps that status, and its steps are never all
-- removed, through any sequence of calls of the plan tools and of delegations.
pub run_calls-IsClosed :
    (p : PlanState) (calls : List PlanCall) (st : PlannerState)
    → IsClosed p st
    → IsClosed p (run_calls calls st)
unfolding run_calls
run_calls-IsClosed p [] st c = c
run_calls-IsClosed p (call ∷ calls) st c =
    run_calls-IsClosed p calls (run_call call st).0 (run_call-IsClosed p call st c)
