-- ===== src/Planner/Progress.antt =====
-- What the plan tools of dare_framework/plan_v2/tools.py do to the steps.
use deterministic_agent_runt.Base.{
  String, Bool, true, false, not, Option, none, some, List, [], ◌∷◌, map, eq_iff, if◌then◌else◌,
  ◌≡◌, ◌≢◌, refl, sym, ◌∙◌, ap, inl, inr, arith, Bool-cases, All, keep, first, first-mem,
}
use mathlib.Core.Option.{some-injective}
use deterministic_agent_runt.Base.Text.{is_empty, strip_idem}
use deterministic_agent_runt.Planner.State.{
  PlanState, known, PlanStep, PlannerState, id_of, member, member_of, pending_steps,
  sync_completed_step_ids, has_id, set_status, transition_plan, is_nil, format_critical_block,
}
use deterministic_agent_runt.Planner.Tools.{
  RawStep, Reply, raw_step_id, has_duplicates, new_step, old_by_id, preserved_state, revised_steps,
  create_plan, revise_current_plan,
}
use deterministic_agent_runt.Planner.Lifecycle.{format_critical_block-SamePlan}
use deterministic_agent_runt.Planner.Delegation.{finish_plan}

-- No two steps of a list have one id, steps with no id set aside.
abbrev pub DistinctIds : List PlanStep → Type 0
DistinctIds [] = Unit
DistinctIds (s ∷ ss) =
    ((k : String) → id_of s ≡ some k → All (λ t. id_of t ≢ some k) ss) × DistinctIds ss

-- the id of a new step
id_of-new_step :
    (p : PlanState) (r : RawStep)
    → id_of (new_step p r) ≡ (if is_empty (raw_step_id r) then none else some (raw_step_id r))
unfolding id_of
id_of-new_step p r = rw (strip_idem r.raw_id)

member_head : (k : String) (ks : List String) → member k (k ∷ ks) ≡ true
member_head k ks = ground (arith, eq_iff k k)

-- an id that was seen is not among those that follow without a duplicate
unseen :
    (k : String) (seen : List String) (p : RawStep → PlanState) (rs : List RawStep)
    → member k seen ≡ true
    → has_duplicates seen rs ≡ false
    → All (λ t. id_of t ≢ some k) (map (λ r. new_step (p r) r) rs)
unfolding has_duplicates
unseen k seen p [] m h = tt
unseen k seen p (r ∷ rs) m h =
    let j : String = raw_step_id r in
    elim (Bool-cases (is_empty j)) [
      | inl e ↦ (
        (λ q. cc (q, id_of-new_step (p r) r ∙ ap (λ (b : Bool). if b then none else some j) e)),
        unseen k seen p rs m (ground (arith, e)),
      )
      | inr e ↦
          let named : id_of (new_step (p r) r) ≡ some j =
            id_of-new_step (p r) r ∙ ap (λ (b : Bool). if b then none else some j) e in
          (
            (λ q. ground (
              arith,
              named,
              q,
              e,
              ap (λ (x : String). member x seen) (some-injective j k (sym named ∙ q)),
            )),
            unseen k (j ∷ seen) p rs (ground (arith, m)) (ground (arith, e)),
          )
    ]

new_steps_distinct :
    (seen : List String) (p : RawStep → PlanState) (rs : List RawStep)
    → has_duplicates seen rs ≡ false
    → DistinctIds (map (λ r. new_step (p r) r) rs)
unfolding has_duplicates
new_steps_distinct seen p [] h = tt
new_steps_distinct seen p (r ∷ rs) h =
    let j : String = raw_step_id r in
    elim (Bool-cases (is_empty j)) [
      | inl e ↦ (
        (λ k q. cc (q, id_of-new_step (p r) r ∙ ap (λ (b : Bool). if b then none else some j) e)),
        new_steps_distinct seen p rs (ground (arith, e)),
      )
      | inr e ↦
          let named : id_of (new_step (p r) r) ≡ some j =
            id_of-new_step (p r) r ∙ ap (λ (b : Bool). if b then none else some j) e in
          (
            (λ k q.
                unseen k (j ∷ seen) p rs
                  (ap (λ (x : String). member x (j ∷ seen))
                      (sym (some-injective j k (sym named ∙ q)))
                    ∙ member_head j seen)
                  (ground (arith, e))),
            new_steps_distinct (j ∷ seen) p rs (ground (arith, e)),
          )
    ]

pub format_critical_block-steps : (st : PlannerState) → (format_critical_block st).steps ≡ st.steps
unfolding format_critical_block sync_completed_step_ids
format_critical_block-steps st = ground arith

abbrev has_raw_id : RawStep → Bool
has_raw_id r = not (is_empty (raw_step_id r))

revised_steps-map :
    (completed : List String) (old : List PlanStep) (rs : List RawStep)
    → revised_steps completed old rs
      ≡ map
          (λ r. new_step (preserved_state (old_by_id completed old (raw_step_id r))) r)
          (keep has_raw_id rs)
unfolding revised_steps
revised_steps-map completed old [] = refl
revised_steps-map completed old (r ∷ rs) = elim (Bool-cases (is_empty (raw_step_id r))) [
  | inl e ↦ rw e (revised_steps-map completed old rs)
  | inr e ↦ rw e (rw (revised_steps-map completed old rs))
]

has_duplicates-keep :
    (seen : List String) (rs : List RawStep)
    → has_duplicates seen (keep has_raw_id rs) ≡ has_duplicates seen rs
unfolding has_duplicates
has_duplicates-keep seen [] = refl
has_duplicates-keep seen (r ∷ rs) = elim (Bool-cases (is_empty (raw_step_id r))) [
  | inl e ↦ rw e (has_duplicates-keep seen rs)
  | inr e ↦ rw e (rw (e, has_duplicates-keep (raw_step_id r ∷ seen) rs))
]

created_steps :
    (description : String) (raws : List RawStep) (st : PlannerState)
    → (create_plan description raws st).1 ≡ Reply.succeeded
    → ((create_plan description raws st).0.steps ≡ map (new_step PlanState.todo) raws)
      × (has_duplicates [] raws ≡ false)
unfolding create_plan
created_steps description raws st h = ground arith

revised_plan_steps :
    (description : Option String) (raws : List RawStep) (st : PlannerState)
    → (revise_current_plan description (some raws) st).1 ≡ Reply.succeeded
    → ((revise_current_plan description (some raws) st).0.steps
        ≡ revised_steps st.completed_step_ids st.steps raws)
      × (has_duplicates [] raws ≡ false)
unfolding revise_current_plan
revised_plan_steps none raws st h = ground arith
revised_plan_steps (some d) raws st h = ground arith

-- A plan that `create_plan` has made has no two steps with one id, steps with an empty id set aside.
created_plan-DistinctIds :
    (description : String) (raws : List RawStep) (st : PlannerState)
    → (create_plan description raws st).1 ≡ Reply.succeeded
    → DistinctIds (create_plan description raws st).0.steps
created_plan-DistinctIds description raws st h =
    let (steps, fresh) = created_steps description raws st h in
    rw steps (new_steps_distinct [] (λ _. PlanState.todo) raws fresh)

-- A plan whose steps `revise_current_plan` has replaced has no two steps with one id.
revised_plan-DistinctIds :
    (description : Option String) (raws : List RawStep) (st : PlannerState)
    → (revise_current_plan description (some raws) st).1 ≡ Reply.succeeded
    → DistinctIds (revise_current_plan description (some raws) st).0.steps
revised_plan-DistinctIds description raws st h =
    let (steps, fresh) = revised_plan_steps description raws st h in
    rw (steps, revised_steps-map st.completed_step_ids st.steps raws)
      (new_steps_distinct [] _ (keep has_raw_id raws) (has_duplicates-keep [] raws ∙ fresh))

-- A plan is closed as done only if it had steps and none of them was pending, and then its status is
-- done.
pub finish_done_needs_all_steps :
    (summary : Option String) (st : PlannerState)
    → (finish_plan (some PlanState.done) summary st).1 ≡ Reply.succeeded
    → (is_nil st.steps ≡ false)
      × (pending_steps st ≡ [])
      × ((finish_plan (some PlanState.done) summary st).0.plan_status ≡ PlanState.done)
unfolding finish_plan transition_plan
finish_done_needs_all_steps summary st h = finished (pending_steps st) refl summary refl
  where
    finished :
        (open_steps : List PlanStep)
        → pending_steps st ≡ open_steps
        → (text : Option String) → summary ≡ text
        → (is_nil st.steps ≡ false)
          × (pending_steps st ≡ [])
          × ((finish_plan (some PlanState.done) summary st).0.plan_status ≡ PlanState.done)
    finished [] e none t =
        ground (arith, format_critical_block-SamePlan (record st { plan_status = PlanState.done }))
    finished [] e (some text) t = ground (
      arith,
      format_critical_block-SamePlan (record st { plan_status = PlanState.done }),
      format_critical_block-SamePlan
          (record st { plan_status = PlanState.done; last_remediation_summary = text }),
    )
    finished (s ∷ ss) e text t = absurd (ground arith)

pub found_after_set :
    (k : String) (p : PlanState) (s : PlanStep) (ss : List PlanStep)
    → first (has_id k) ss ≡ some s
    → first (has_id k) (set_status k p ss) ≡ some (record s { status = known p })
unfolding set_status id_of
found_after_set k p s [] h = cc
found_after_set k p s (t ∷ ts) h = elim (Bool-cases (has_id k t)) [
  | inl e ↦ let same : t ≡ s = some-injective t s (rw e at h) in rw e (rw (e, same))
  | inr e ↦ rw e (rw e (found_after_set k p s ts (rw e at h)))
]

pub found_has_id :
    (k : String) (s : PlanStep) (ss : List PlanStep)
    → first (has_id k) ss ≡ some s
    → id_of s ≡ some k
found_has_id k s ss h = has_id-id (id_of s) (first-mem (has_id k) ss h).1
  where
    has_id-id : (o : Option String) → member_of o (k ∷ []) ≡ true → o ≡ some k
    has_id-id none e = cc
    has_id-id (some j) e = ground (arith, eq_iff k j)
