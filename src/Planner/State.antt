-- ===== src/Planner/State.antt =====
-- `PlannerState` and `Step` of dare_framework/plan_v2/types.py, with the helpers on steps that
-- types.py and tools.py share. A step of a restored session may be a dict with no `status`, or with a
-- status that is none of the four: `absent` and `unknown`. A set of step ids is a list that is read
-- by membership alone. Of `critical_block` the model keeps the action that its NEXT line asks for;
-- the lines before it print the steps.
use deterministic_agent_runt.Base.{
  String, Bool, true, false, not, ◌&&◌, ◌||◌, Option, none, some, List, [], ◌∷◌, ◌==◌,
  if◌then◌else◌, any, keep, first, is_some,
}
use deterministic_agent_runt.Base.Text.{strip, is_empty, empty_text}
use deterministic_agent_runt.Json.{Fields}

pub data PlanState : Type 0 where
  todo in_progress done abandoned : PlanState

pub data StepStatus : Type 0 where
  absent unknown : StepStatus
  known : PlanState → StepStatus

pub record PlanStep : Type 0 where
  pub step_id : String
  pub description : String
  pub params : Fields
  pub status : StepStatus

-- what the NEXT line of the critical block asks for; `no_block` is the empty block
pub data NextAction : Type 0 where
  create_plan validate_plan ask_user assign_step_ids : NextAction
  no_block : NextAction
  report_terminal : PlanState → NextAction
  delegate_step : String → NextAction
  finish_plan : PlanState → NextAction

pub record Milestone : Type 0 where
  pub milestone_id : String
  pub description : String
  pub success_criteria : List String
  pub metadata : Fields

pub record PlannerState : Type 0 where
  pub task_id : String
  pub session_id : String
  pub milestones : List Milestone
  pub current_milestone_id : Option String
  pub plan_description : String
  pub steps : List PlanStep
  pub plan_status : PlanState
  pub completed_step_ids : List String
  pub plan_success : Bool
  pub plan_errors : List String
  pub plan_validated : Bool
  pub last_verify_errors : List String
  pub last_remediation_summary : String
  pub critical_block : NextAction

-- `is_valid_state_transition`, the table `_ALLOWED_STATE_TRANSITIONS`
unfoldable pub is_valid_state_transition : PlanState → PlanState → Bool
is_valid_state_transition PlanState.todo next = true
is_valid_state_transition PlanState.in_progress PlanState.todo = false
is_valid_state_transition PlanState.in_progress next = true
is_valid_state_transition PlanState.done PlanState.done = true
is_valid_state_transition PlanState.done next = false
is_valid_state_transition PlanState.abandoned PlanState.abandoned = true
is_valid_state_transition PlanState.abandoned next = false

-- `in _TERMINAL_STATES`
abbrev pub is_terminal : PlanState → Bool
is_terminal PlanState.done = true
is_terminal PlanState.abandoned = true
is_terminal _ = false

abbrev pub is_done : PlanState → Bool
is_done PlanState.done = true
is_done _ = false

abbrev pub is_todo : PlanState → Bool
is_todo PlanState.todo = true
is_todo _ = false

abbrev pub is_abandoned : PlanState → Bool
is_abandoned PlanState.abandoned = true
is_abandoned _ = false

-- `_step_id`
unfoldable pub id_of : PlanStep → Option String
id_of s = if is_empty (strip s.step_id) then none else some s.step_id

-- `_step_state`
abbrev pub state_of_status : StepStatus → PlanState
state_of_status (known p) = p
state_of_status _ = PlanState.todo

abbrev pub state_of : PlanStep → PlanState
state_of s = state_of_status s.status

-- `_step_has_explicit_status`
abbrev pub has_status : StepStatus → Bool
has_status absent = false
has_status _ = true

abbrev pub member : String → List String → Bool
member k ks = any (λ j. j == k) ks

abbrev pub member_of : Option String → List String → Bool
member_of none ks = false
member_of (some k) ks = member k ks

-- `_is_step_completed`, given `completed_step_ids`
unfoldable pub is_step_completed : List String → PlanStep → Bool
unfolding id_of
is_step_completed completed s =
    is_done (state_of s) || member_of (id_of s) completed && not (has_status s.status)

abbrev pub is_pending : List String → PlanStep → Bool
is_pending completed s = not (is_terminal (state_of s)) && not (is_step_completed completed s)

-- `_pending_steps`
unfoldable pub pending_steps : PlannerState → List PlanStep
unfolding is_step_completed
pending_steps st = keep (is_pending st.completed_step_ids) st.steps

abbrev pub add_id : Bool → Option String → List String → List String
add_id false id ids = ids
add_id true none ids = ids
add_id true (some k) ids = k ∷ ids

-- the set that `sync_completed_step_ids` builds
unfoldable pub completed_ids : List String → List PlanStep → List String
unfolding is_step_completed
completed_ids legacy [] = []
completed_ids legacy (s ∷ ss) =
    add_id (is_step_completed legacy s) (id_of s) (completed_ids legacy ss)

-- `sync_completed_step_ids`
unfoldable pub sync_completed_step_ids : PlannerState → PlannerState
unfolding completed_ids
sync_completed_step_ids st = record st {
  completed_step_ids = completed_ids st.completed_step_ids st.steps;
}

abbrev pub has_id : String → PlanStep → Bool
has_id k s = member_of (id_of s) (k ∷ [])

-- `get_step`
unfoldable pub get_step : String → PlannerState → Option PlanStep
unfolding id_of
get_step k st = first (has_id k) st.steps

-- an assignment to the status of the first step with the id, which `get_step` returns
unfoldable pub set_status : String → PlanState → List PlanStep → List PlanStep
unfolding id_of
set_status k p [] = []
set_status k p (s ∷ ss) =
    if has_id k s then record s { status = known p } ∷ ss else s ∷ set_status k p ss

-- `transition_step`; `none` is its `ValueError`
abbrev pub transition_found :
    Option PlanStep → String → PlanState → PlannerState → Option PlannerState
transition_found none k p st = none
transition_found (some s) k p st =
    if is_valid_state_transition (state_of s) p
    then some (sync_completed_step_ids (record st { steps = set_status k p st.steps }))
    else none

unfoldable pub transition_step : String → PlanState → PlannerState → Option PlannerState
unfolding get_step set_status sync_completed_step_ids is_valid_state_transition
transition_step k p st = transition_found (get_step k st) k p st

-- `transition_plan`; `none` is its `ValueError`
unfoldable pub transition_plan : PlanState → PlannerState → Option PlannerState
unfolding is_valid_state_transition
transition_plan p st =
    if is_valid_state_transition st.plan_status p
    then some (record st { plan_status = p })
    else none

abbrev pub is_nil {ℓ} : {A : Type ℓ} → List A → Bool
is_nil [] = true
is_nil (_ ∷ _) = false

abbrev pub delegate_or_assign : List PlanStep → NextAction
delegate_or_assign [] = assign_step_ids
delegate_or_assign (s ∷ _) = elim (id_of s) [ none ↦ assign_step_ids | some k ↦ delegate_step k ]

-- the NEXT line of `_format_critical_block`, for a plan with steps
unfoldable pub next_action : PlannerState → NextAction
unfolding pending_steps id_of
next_action st =
    let open_steps = pending_steps st in
    let finished =
      keep (λ s. is_some (id_of s) && is_step_completed st.completed_step_ids s) st.steps in
    let dropped = keep (λ s. is_some (id_of s) && is_abandoned (state_of s)) st.steps in
    if is_terminal st.plan_status
    then report_terminal st.plan_status
    else if not st.plan_validated
    then validate_plan
    else if not (is_nil open_steps) && is_nil finished
    then ask_user
    else if not (is_nil open_steps)
    then delegate_or_assign open_steps
    else finish_plan (if is_nil dropped then PlanState.done else PlanState.abandoned)

-- `state.critical_block = _format_critical_block(state)`, which also rebuilds the completed ids
unfoldable pub format_critical_block : PlannerState → PlannerState
unfolding sync_completed_step_ids next_action
format_critical_block st =
    if is_nil st.steps
    then record st { critical_block = create_plan }
    else let synced = sync_completed_step_ids st in
      record synced { critical_block = next_action synced }

-- the steps that `copy_for_execution` passes on
abbrev pub clean_steps : List PlanStep → List PlanStep
clean_steps [] = []
clean_steps (s ∷ ss) = elim (id_of s) [
  | none ↦ clean_steps ss
  | some k ↦
      record {
        step_id = k;
        description = s.description;
        params = s.params;
        status = known PlanState.todo;
      }
      ∷ clean_steps ss
]

-- `copy_for_execution`
unfoldable pub copy_for_execution : PlannerState → PlannerState
unfolding id_of
copy_for_execution st = record {
  task_id = st.task_id;
  session_id = st.session_id;
  milestones = [];
  current_milestone_id = st.current_milestone_id;
  plan_description = st.plan_description;
  steps = clean_steps st.steps;
  plan_status = PlanState.todo;
  completed_step_ids = [];
  plan_success = true;
  plan_errors = [];
  plan_validated = false;
  last_verify_errors = [];
  last_remediation_summary = empty_text;
  critical_block = no_block;
}
