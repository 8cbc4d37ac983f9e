-- ===== src/Planner/Delegated.antt =====
-- A delegation of a step that succeeds completes the step (dare_framework/plan_v2/tools.py,
-- `SubAgentTool.execute`).
use deterministic_agent_runt.Base.{
  String, true, false, some, List, [], ◌∷◌, eq_iff, if◌then◌else◌, ◌≡◌, refl, ◌∙◌, ap, inl, inr,
  arith, Bool-cases, Option-cases, first,
}
use deterministic_agent_runt.Base.Text.{is_empty}
use mathlib.Core.Option.{some-injective}
use deterministic_agent_runt.Planner.State.{
  PlanState, known, PlanStep, PlannerState, is_terminal, is_todo, id_of, state_of, member,
  is_step_completed, completed_ids, sync_completed_step_ids, has_id, get_step, set_status,
  is_valid_state_transition, transition_step, is_nil, format_critical_block,
}
use deterministic_agent_runt.Planner.Tools.{Reply, old_state}
use deterministic_agent_runt.Planner.Delegation.{
  start_found, named_step, begin_delegation, end_delegation,
}
use deterministic_agent_runt.Planner.Progress.{
  found_after_set, found_has_id, format_critical_block-steps,
}

done_is_completed :
    (k : String) (s : PlanStep) (legacy : List String) (ss : List PlanStep)
    → first (has_id k) ss ≡ some s
    → state_of s ≡ PlanState.done
    → member k (completed_ids legacy ss) ≡ true
unfolding completed_ids is_step_completed
done_is_completed k s legacy [] h d = cc
done_is_completed k s legacy (t ∷ ts) h d = elim (Bool-cases (has_id k t)) [
  | inl e ↦
      let same : t ≡ s = some-injective t s (rw e at h) in
      let id : id_of t ≡ some k = found_has_id k t (t ∷ []) (rw e) in
      ground (arith, id, ap state_of same, eq_iff k k)
  | inr e ↦ let rest = done_is_completed k s legacy ts (rw e at h) d in ground (arith, rest)
]

-- a step that is found in a state which allows it moves to the next state
transition_lem :
    (k : String) (p : PlanState) (s : PlanStep) (st : PlannerState)
    → get_step k st ≡ some s
    → is_valid_state_transition (state_of s) p ≡ true
    → transition_step k p st
      ≡ some (sync_completed_step_ids (record st { steps = set_status k p st.steps }))
unfolding transition_step
transition_lem k p s st e v = rw (e, transition_step) (rw v)

old_state_open :
    (completed : List String) (s : PlanStep)
    → is_terminal (old_state completed s) ≡ false
    → (is_terminal (state_of s) ≡ false)
      × (is_valid_state_transition (state_of s) PlanState.in_progress ≡ true)
unfolding is_valid_state_transition
old_state_open completed s h = ground arith

-- what a start of a step that is found has left
start_steps :
    (k : String) (s : PlanStep) (st : PlannerState)
    → get_step k st ≡ some s
    → (start_found (some s) k st).1 ≡ Reply.succeeded
    → (is_terminal (state_of s) ≡ false)
      × ((start_found (some s) k st).0.steps ≡ set_status k PlanState.in_progress st.steps)
start_steps k s st e h = elim (Bool-cases (is_terminal (old_state st.completed_step_ids s))) [
  | inl t ↦ absurd (ground arith)
  | inr t ↦
      let (open_state, valid) = old_state_open st.completed_step_ids s t in
      let moved = transition_lem k PlanState.in_progress s st e valid in
      let m : PlannerState =
        sync_completed_step_ids
          (record st { steps = set_status k PlanState.in_progress st.steps }) in
      let started : PlannerState = record m {
        plan_status = if is_todo m.plan_status then PlanState.in_progress else m.plan_status;
      } in
      let kept : m.steps ≡ set_status k PlanState.in_progress st.steps =
        unfold sync_completed_step_ids in refl in
      (open_state, ground (arith, moved, t, format_critical_block-steps started, kept))
]

named_step_lem : (k : String) → is_empty k ≡ false → named_step (some k) ≡ some k
unfolding named_step
named_step_lem k n = rw (n, named_step)

-- what a successful start has found and left
begin_steps :
    (k : String) (st : PlannerState)
    → is_empty k ≡ false
    → (begin_delegation (some k) st).1 ≡ Reply.succeeded
    → (s : PlanStep) × (get_step k st ≡ some s)
      × (is_terminal (state_of s) ≡ false)
      × (is_terminal st.plan_status ≡ false)
      × ((begin_delegation (some k) st).0.steps ≡ set_status k PlanState.in_progress st.steps)
unfolding begin_delegation
begin_steps k st n h =
    let named = named_step_lem k n in
    elim (Bool-cases (is_terminal st.plan_status)) [
      | inl t ↦ absurd (ground (arith, t))
      | inr t ↦ elim (Option-cases (get_step k st)) [
        | inl e ↦ absurd (ground (arith, named))
        | inr (s, e) ↦
            let started = rw e at (rw (named, t) at h) in
            let (open_state, steps) = start_steps k s st e started in
            (s, e, open_state, t, rw (named, t) (rw e steps))
      ]
    ]

found_not_nil :
    (k : String) (s : PlanStep) (ss : List PlanStep)
    → first (has_id k) ss ≡ some s
    → is_nil ss ≡ false
found_not_nil k s [] h = cc
found_not_nil k s (t ∷ ts) h = refl

-- a delegation whose sub-agent has returned, where the step can be done and the plan has steps
end_delegation_lem :
    (k : String) (st m : PlannerState)
    → is_empty k ≡ false
    → transition_step k PlanState.done st ≡ some m
    → is_nil (format_critical_block m).steps ≡ false
    → end_delegation true (some k) st
      ≡ (sync_completed_step_ids (format_critical_block m), Reply.succeeded)
unfolding end_delegation
end_delegation_lem k st m n moved e = rw (named_step_lem k n, end_delegation) (rw moved (rw e refl))

end_steps :
    (k : String) (s : PlanStep) (st : PlannerState)
    → is_empty k ≡ false
    → get_step k st ≡ some s
    → is_valid_state_transition (state_of s) PlanState.done ≡ true
    → ((end_delegation true (some k) st).1 ≡ Reply.succeeded)
      × (get_step k (end_delegation true (some k) st).0
          ≡ some (record s { status = known PlanState.done }))
      × (member k (end_delegation true (some k) st).0.completed_step_ids ≡ true)
unfolding get_step
end_steps k s st n e v =
    let after : List PlanStep = set_status k PlanState.done st.steps in
    let m : PlannerState = sync_completed_step_ids (record st { steps = after }) in
    let moved : transition_step k PlanState.done st ≡ some m =
      transition_lem k PlanState.done s st e v in
    let kept : (format_critical_block m).steps ≡ after =
      format_critical_block-steps m ∙ (unfold sync_completed_step_ids in refl) in
    let finished : PlanStep = record s { status = known PlanState.done } in
    let found : first (has_id k) after ≡ some finished =
      found_after_set k PlanState.done s st.steps e in
    let found' : first (has_id k) (format_critical_block m).steps ≡ some finished =
      ap (first (has_id k)) kept ∙ found in
    let ended : end_delegation true (some k) st
        ≡ (sync_completed_step_ids (format_critical_block m), Reply.succeeded) =
      end_delegation_lem k st m n moved (found_not_nil k finished _ found') in
    (
      rw ended refl,
      rw ended (unfold sync_completed_step_ids in found'),
      rw ended (
          unfold sync_completed_step_ids in
          done_is_completed k finished (format_critical_block m).completed_step_ids _ found' refl),
    )

-- A delegation that names a step is accepted only for a step that is found and not terminal, in a plan
-- that is not terminal. If it is accepted and the sub-agent returns and has left the state alone, then the
-- delegation succeeds, the step is done, and its id is among the completed ones.
pub delegation_completes_step :
    (k : String) (st : PlannerState)
    → is_empty k ≡ false
    → (begin_delegation (some k) st).1 ≡ Reply.succeeded
    → let started = (begin_delegation (some k) st).0 in
      let finished = end_delegation true (some k) started in
      (s : PlanStep) × (get_step k st ≡ some s)
      × (is_terminal (state_of s) ≡ false)
      × (is_terminal st.plan_status ≡ false)
      × (finished.1 ≡ Reply.succeeded)
      × (get_step k finished.0 ≡ some (record s { status = known PlanState.done }))
      × (member k finished.0.completed_step_ids ≡ true)
delegation_completes_step k st n h =
    let (s, found, open_step, open_plan, steps) = begin_steps k st n h in
    let started : PlannerState = (begin_delegation (some k) st).0 in
    let running : PlanStep = record s { status = known PlanState.in_progress } in
    let now : get_step k started ≡ some running =
      unfold get_step in
      ap (first (has_id k)) steps ∙ found_after_set k PlanState.in_progress s st.steps found in
    let (ok, done_step, listed) =
      end_steps k running started n now (unfold is_valid_state_transition in refl) in
    (s, found, open_step, open_plan, ok, done_step, listed)
