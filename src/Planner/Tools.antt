-- ===== src/Planner/Tools.antt =====
-- The `execute` methods of the plan tools in dare_framework/plan_v2/tools.py, as functions on the
-- shared `PlannerState`. A reply says whether the tool succeeded, and why not; `raised` is an
-- exception that leaves `execute`. The printing of the plan is left out.
use deterministic_agent_runt.Base.{
  String, Bool, true, false, not, ◌&&◌, ◌||◌, Option, none, some, List, [], ◌∷◌, map, ◌==◌,
  if◌then◌else◌, is_some,
}
use deterministic_agent_runt.Base.Text.{strip, is_empty}
use deterministic_agent_runt.Json.{Fields}
use deterministic_agent_runt.Planner.State.{
  PlanState, known, PlanStep, Milestone, PlannerState, is_terminal, is_todo, id_of, state_of,
  member, is_step_completed, sync_completed_step_ids, is_nil, format_critical_block,
}

-- one of the dicts that a tool is given for a step, its id as `str` makes it
pub record RawStep : Type 0 where
  pub raw_id : String
  pub raw_description : String
  pub raw_params : Fields

pub data Reply : Type 0 where
  succeeded plan_exists duplicate_ids no_plan terminal_plan no_payload invalid_target pending_exist
        invalid_transition unknown_step terminal_step sub_agent_failed raised :
      Reply

abbrev pub raw_step_id : RawStep → String
raw_step_id r = strip r.raw_id

-- the loop that collects `duplicate_step_ids`: is there any?
unfoldable pub has_duplicates : List String → List RawStep → Bool
has_duplicates seen [] = false
has_duplicates seen (r ∷ rs) =
    let k = raw_step_id r in
    not (is_empty k) && member k seen || has_duplicates (if is_empty k then seen else k ∷ seen) rs

abbrev pub new_step : PlanState → RawStep → PlanStep
new_step p r = record {
  step_id = raw_step_id r;
  description = r.raw_description;
  params = r.raw_params;
  status = known p;
}

-- `CreatePlanTool.execute`
unfoldable pub create_plan : String → List RawStep → PlannerState → PlannerState × Reply
unfolding has_duplicates format_critical_block
create_plan description raws st =
    if not (is_nil st.steps)
    then (format_critical_block st, Reply.plan_exists)
    else if has_duplicates [] raws
    then (st, Reply.duplicate_ids)
    else (
      format_critical_block (record st {
        plan_description = description;
        steps = map (new_step PlanState.todo) raws;
        plan_status = PlanState.todo;
        completed_step_ids = [];
        plan_validated = false;
      }),
      Reply.succeeded,
    )

-- `ValidatePlanTool.execute`
unfoldable pub validate_plan : Bool → List String → PlannerState → PlannerState × Reply
unfolding format_critical_block
validate_plan success errors st = (
  format_critical_block (record st {
    plan_success = success;
    plan_errors = errors;
    plan_validated = success;
    plan_status =
        if success && is_todo st.plan_status then PlanState.in_progress else st.plan_status;
  }),
  Reply.succeeded,
)

-- `old_by_id`: later steps of an id overwrite earlier ones
abbrev pub old_state : List String → PlanStep → PlanState
old_state completed s = if is_step_completed completed s then PlanState.done else state_of s

abbrev pub keep_newer : Option PlanState → Option PlanState → Option PlanState
keep_newer (some p) old = some p
keep_newer none old = old

abbrev pub state_if : Bool → PlanState → Option PlanState
state_if true p = some p
state_if false p = none

abbrev pub has_own_id : String → Option String → Bool
has_own_id k none = false
has_own_id k (some j) = j == k

unfoldable pub old_by_id : List String → List PlanStep → String → Option PlanState
unfolding is_step_completed id_of
old_by_id completed [] k = none
old_by_id completed (s ∷ ss) k =
    keep_newer (old_by_id completed ss k)
      (state_if (has_own_id k (id_of s)) (old_state completed s))

-- the status that a revised step starts with
abbrev pub preserved_state : Option PlanState → PlanState
preserved_state none = PlanState.todo
preserved_state (some p) = if is_terminal p then p else PlanState.todo

unfoldable pub revised_steps : List String → List PlanStep → List RawStep → List PlanStep
unfolding old_by_id
revised_steps completed old [] = []
revised_steps completed old (r ∷ rs) =
    let rest = revised_steps completed old rs in
    if is_empty (raw_step_id r)
    then rest
    else new_step (preserved_state (old_by_id completed old (raw_step_id r))) r ∷ rest

abbrev pub with_steps : Option (List RawStep) → PlannerState → PlannerState
with_steps none st = st
with_steps (some raws) st =
    sync_completed_step_ids
      (record st { steps = revised_steps st.completed_step_ids st.steps raws })

abbrev pub with_description : Option String → PlannerState → PlannerState
with_description none st = st
with_description (some d) st = record st { plan_description = d }

abbrev pub repeated_ids : Option (List RawStep) → Bool
repeated_ids none = false
repeated_ids (some raws) = has_duplicates [] raws

-- `ReviseCurrentPlanTool.execute`
unfoldable pub revise_current_plan :
    Option String → Option (List RawStep) → PlannerState → PlannerState × Reply
unfolding revised_steps sync_completed_step_ids has_duplicates format_critical_block
revise_current_plan description raws st =
    if is_nil st.steps
    then (st, Reply.no_plan)
    else if is_terminal st.plan_status
    then (st, Reply.terminal_plan)
    else if not (is_some description) && not (is_some raws)
    then (st, Reply.no_payload)
    else if repeated_ids raws
    then (st, Reply.duplicate_ids)
    else let revised = with_description description (with_steps raws st) in
      (
        format_critical_block
            (record revised { plan_validated = false; plan_status = PlanState.todo }),
        Reply.succeeded,
      )

-- `VerifyMilestoneTool.execute`
unfoldable pub verify_milestone : List String → PlannerState → PlannerState × Reply
verify_milestone errors st = (record st { last_verify_errors = errors }, Reply.succeeded)

-- `ReflectTool.execute`
unfoldable pub reflect : String → PlannerState → PlannerState × Reply
reflect summary st = (record st { last_remediation_summary = summary }, Reply.succeeded)

abbrev pub first_milestone : List Milestone → Option String → Option String
first_milestone [] current = current
first_milestone (m ∷ _) none = some m.milestone_id
first_milestone (m ∷ _) (some k) = if is_empty k then some m.milestone_id else some k

abbrev pub chosen_milestone : Option String → List Milestone → Option String → Option String
chosen_milestone (some k) ms current = some k
chosen_milestone none ms current = first_milestone ms current

-- `DecomposeTaskTool.execute`
unfoldable pub decompose_task : List Milestone → Option String → PlannerState → PlannerState × Reply
decompose_task ms current st = (
  record st {
    milestones = ms;
    current_milestone_id = chosen_milestone current ms st.current_milestone_id;
  },
  Reply.succeeded,
)
