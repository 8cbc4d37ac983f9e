-- ===== src/Agent/Milestone/Types.antt =====
-- The data of the milestone loop of dare_framework/agent/_internal/milestone_orchestrator.py and of
-- dare_framework/agent/_internal/orchestration.py: what its collaborators give, its state and its result.
use deterministic_agent_runt.Base.{ℕ, String, Bool, false, Option, none, some, List, [], ◌∷◌, ◌++◌}
use deterministic_agent_runt.Context.Memory.{Context}
use deterministic_agent_runt.Agent.Sandbox.{PlanAttemptSandbox, create_snapshot, commit}

-- a returned value, or an exception with its text
pub data Try (A : Type 0) : Type 0 where
  returned : A → Try A
  raised : String → Try A

pub record Around (W : Type 0) : Type 0 where
  pub context : Context
  pub world : W

abbrev pub Action : Type 0 → Type 0 → Type 0
Action W A = List String → Around W → Around W × Try A

-- what `_run_execute_loop` returns, as far as the loop reads it
pub record ExecuteResult : Type 0 where
  pub plan_tool : Option String
  pub outputs : List String

pub record VerifyResult : Type 0 where
  pub success : Bool
  pub errors : List String

pub record MilestoneAgent (W Plan : Type 0) : Type 0 where
  pub run_plan_loop : Action W (Option Plan)
  pub check_plan_policy : Plan → Action W (Option String)
  pub run_execute_loop : Option Plan → Action W ExecuteResult
  pub verify_milestone : ExecuteResult → Option Plan → Action W VerifyResult
  pub remediate : Option (VerifyResult → Action W String)
  pub snapshot_id : ℕ → String
  pub max_milestone_attempts : ℕ

-- The attempts and reflections of `MilestoneState`.
pub record MilestoneState : Type 0 where
  pub attempts : ℕ
  pub reflections : List String

-- The events and hooks that the loop itself emits.
pub data LoopEvent : Type 0 where
  before_milestone : LoopEvent
  policy_refused : String → LoopEvent
  milestone_failed : Option ℕ → LoopEvent
  milestone_success : ℕ → LoopEvent
  after_milestone : Bool → ℕ → LoopEvent

pub record LoopState (W : Type 0) : Type 0 where
  pub around : Around W
  pub sandbox : Option PlanAttemptSandbox
  pub milestone : Option MilestoneState
  pub trace : List LoopEvent

pub record MilestoneResult : Type 0 where
  pub success : Bool
  pub outputs : List String
  pub errors : List String
  pub verify_result : Option VerifyResult

-- the end of an attempt: the loop goes on, returns, or an exception leaves it
pub data AttemptEnd : Type 0 where
  goes_on : AttemptEnd
  returns : MilestoneResult → AttemptEnd
  raises : AttemptEnd

abbrev pub begin_attempt : ℕ → Option MilestoneState → Option MilestoneState
begin_attempt n none = none
begin_attempt n (some m) = some (record m { attempts = n })

abbrev pub add_reflection : String → Option MilestoneState → Option MilestoneState
add_reflection r none = none
add_reflection r (some m) = some (record m { reflections = m.reflections ++ (r ∷ []) })

abbrev pub reflections_of : Option MilestoneState → List String
reflections_of none = []
reflections_of (some m) = m.reflections

-- the calls of the sandbox, which may be absent
abbrev pub snapshot : String → Context → Option PlanAttemptSandbox → Option PlanAttemptSandbox
snapshot id c none = none
snapshot id c (some s) = some (create_snapshot id c s)

abbrev pub confirm : String → Option PlanAttemptSandbox → Option PlanAttemptSandbox
confirm id none = none
confirm id (some s) = some (commit id s)

abbrev pub failure : String → Option VerifyResult → MilestoneResult
failure e v = record { success = false; outputs = []; errors = e ∷ []; verify_result = v }
