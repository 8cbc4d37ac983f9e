-- ===== src/Planner/Lifecycle.antt =====
-- The lifecycle of a plan in dare_framework/plan_v2: what the tools of tools.py do to its status.
use deterministic_agent_runt.Base.{
  ℕ, zero, suc, String, true, Option, none, some, List, [], ◌∷◌, ◌≡◌, ◌↔◌, refl, ◌∙◌, inl, inr,
  arith, Option-cases,
}
use deterministic_agent_runt.Planner.State.{
  PlanState, PlanStep, PlannerState, is_terminal, is_valid_state_transition,
  sync_completed_step_ids, get_step, set_status, transition_step, is_nil, format_critical_block,
}
use deterministic_agent_runt.Planner.Delegation.{set_status_at, abandon_steps}

-- The legal transitions have no detours and no way back: two of them in a row make one, and the
-- first can be undone only if it led to the state it started from.
transitions_are_ordered :
    (p q r : PlanState)
    → is_valid_state_transition p q ≡ true
    → is_valid_state_transition q r ≡ true
    → (is_valid_state_transition p r ≡ true) × ((is_valid_state_transition q p ≡ true) ↔ (p ≡ q))
unfolding is_valid_state_transition
transitions_are_ordered p q r pq qr = (ground arith, ground arith)

-- From done and from abandoned the only legal transition is to stay.
pub terminal_states_stay :
    (p q : PlanState) → is_terminal p ≡ true → (is_valid_state_transition p q ≡ true) ↔ (p ≡ q)
unfolding is_valid_state_transition
terminal_states_stay p q t = ground arith

-- the plan's status, and whether it has steps
abbrev pub SamePlan : PlannerState → PlannerState → Type 0
SamePlan st st' = (st'.plan_status ≡ st.plan_status) × (is_nil st'.steps ≡ is_nil st.steps)

pub SamePlan-trans : (a b c : PlannerState) → SamePlan a b → SamePlan b c → SamePlan a c
SamePlan-trans a b c p q = (q.0 ∙ p.0, q.1 ∙ p.1)

pub format_critical_block-SamePlan : (st : PlannerState) → SamePlan st (format_critical_block st)
unfolding format_critical_block sync_completed_step_ids
format_critical_block-SamePlan st = ground arith

set_status-is_nil :
    (k : String) (p : PlanState) (ss : List PlanStep) → is_nil (set_status k p ss) ≡ is_nil ss
unfolding set_status
set_status-is_nil k p [] = refl
set_status-is_nil k p (s ∷ ss) = ground arith

set_status_at-is_nil :
    (i : ℕ) (p : PlanState) (ss : List PlanStep) → is_nil (set_status_at i p ss) ≡ is_nil ss
unfolding set_status_at
set_status_at-is_nil i p [] = refl
set_status_at-is_nil zero p (s ∷ ss) = refl
set_status_at-is_nil (suc i) p (s ∷ ss) = refl

pub transition_step-SamePlan :
    (k : String) (p : PlanState) (st st' : PlannerState)
    → transition_step k p st ≡ some st'
    → SamePlan st st'
unfolding transition_step sync_completed_step_ids
transition_step-SamePlan k p st st' h = elim (Option-cases (get_step k st)) [
  | inl e ↦ cc (rw (e, transition_step) at h)
  | inr (s, e) ↦ ground (arith, e, set_status-is_nil k p st.steps)
]

pub abandon_steps-SamePlan :
    (places : List (ℕ × Option String)) (st : PlannerState)
    → SamePlan st (abandon_steps places st).0
unfolding abandon_steps
abandon_steps-SamePlan [] st = (refl, refl)
abandon_steps-SamePlan ((i, none) ∷ places) st =
    let st' : PlannerState = record st { steps = set_status_at i PlanState.abandoned st.steps } in
    SamePlan-trans st st' (abandon_steps places st').0
      (refl, set_status_at-is_nil i PlanState.abandoned st.steps)
      (abandon_steps-SamePlan places st')
abandon_steps-SamePlan ((i, some k) ∷ places) st =
    after (transition_step k PlanState.abandoned st) refl (abandon_steps-SamePlan places)
  where
    after :
        (o : Option PlannerState)
        → transition_step k PlanState.abandoned st ≡ o
        → ((s : PlannerState) → SamePlan s (abandon_steps places s).0)
        → SamePlan st (abandon_steps ((i, some k) ∷ places) st).0
    after none e ih = rw (e, abandon_steps) (refl, refl)
    after (some st') e ih =
        rw (e, abandon_steps)
          (SamePlan-trans st st' (abandon_steps places st').0
            (transition_step-SamePlan k PlanState.abandoned st st' e) (ih st'))
