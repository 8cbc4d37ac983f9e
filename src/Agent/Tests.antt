-- ===== src/Agent/Tests.antt =====
-- Runs of the loops of dare_framework/agent/_internal with small collaborators: a milestone that is
-- verified in its second attempt, one that is never verified, and a session of both.
use mathlib.Core.Option.{some-injective}
use deterministic_agent_runt.Base.{
  ℕ, ◌+◌, true, false, String, none, some, List, [], ◌∷◌, ◌++◌, map, ◌≡◌, ◌↔◌, refl, All, ltb,
}
use deterministic_agent_runt.Base.Dict.{lookup, insert, erase}
use deterministic_agent_runt.Context.Budget.{Budget, budget_check}
use deterministic_agent_runt.Context.Memory.{Context, Message, MessageRole, chat}
use deterministic_agent_runt.Agent.Sandbox.{PlanAttemptSandbox, create_snapshot, rollback, commit}
use deterministic_agent_runt.Agent.Restore.{SameSnapshots, rollback-create_snapshot}
use deterministic_agent_runt.Agent.Milestone.{
  Around, returned, MilestoneAgent, MilestoneResult, LoopState, VerifyResult, failure, returns,
  run_milestone_loop,
}
use deterministic_agent_runt.Agent.Attempts.{LeavesMemory, KeepsSandbox}
use deterministic_agent_runt.Agent.Failure.{failed_milestone_restores_memory}
use deterministic_agent_runt.Agent.Report.{ClosesWith, milestone_reports_verification}
use deterministic_agent_runt.Agent.Session.{
  SessionState, completed, SessionEnd, MilestoneRun, run_session_loop, session_success,
}
use deterministic_agent_runt.Agent.Outcome.{Succeeded, session_success_iff}

abbrev budget : Budget
budget = record {
  max_tokens = none;
  max_cost = none;
  max_time_seconds = none;
  max_tool_calls = some 3;
  used_tokens = 0;
  used_cost = 0;
  used_time_seconds = 0;
  used_tool_calls = 0;
}

abbrev message : String → Message
message s = record {
  role = MessageRole.user;
  kind = chat;
  text = s;
  name = none;
  guidance_id = none;
  attachments = 0;
  tool_calls = [];
}

abbrev context : List Message → Context
context ms = record { short_term_memory = ms; budget = budget; guidance_queue = none }

abbrev sandbox : PlanAttemptSandbox
sandbox = record { snapshots = ("old", message "kept" ∷ []) ∷ [] }

new-snapshot : lookup "new" sandbox.snapshots ≡ none
unfolding lookup
new-snapshot = refl

rollback-create_snapshot_example :
    (s' : PlanAttemptSandbox) × (rollback
        (context [])
        "new"
        (create_snapshot "new" (context (message "before" ∷ [])) sandbox)
      ≡ some (context (message "before" ∷ []), s'))
    × SameSnapshots sandbox s'
rollback-create_snapshot_example =
    rollback-create_snapshot "new" (context (message "before" ∷ [])) (context []) sandbox
      new-snapshot

-- the world counts the plans that were carried out
abbrev pub start : Around ℕ
start = record { context = context (message "before" ∷ []); world = 0 }

-- carrying out a plan leaves a message
abbrev carry_out : Around ℕ → Around ℕ
carry_out a = record {
  context = context (message "tried" ∷ a.context.short_term_memory);
  world = a.world + 1;
}

abbrev verification : ℕ → ℕ → VerifyResult
verification needed done = record { success = ltb needed done; errors = "not yet" ∷ [] }

-- an agent whose work is verified once more than `needed` plans were carried out
abbrev worker : ℕ → MilestoneAgent ℕ String
worker needed = record {
  run_plan_loop = λ notes a. (a, returned (some "plan"));
  check_plan_policy = λ p notes a. (a, returned none);
  run_execute_loop =
      λ p notes a. (carry_out a, returned (record { plan_tool = none; outputs = "out" ∷ [] }));
  verify_milestone = λ r p notes a. (a, returned (verification needed a.world));
  remediate = some (λ v notes a. (a, returned "try again"));
  snapshot_id = λ n. "attempt";
  max_milestone_attempts = 2;
}

worker-LeavesMemory : (n : ℕ) → LeavesMemory (worker n).remediate
worker-LeavesMemory n r v notes a e = rw (← some-injective _ _ e) refl

abbrev begun : LoopState ℕ
begun = record {
  around = start;
  sandbox = some sandbox;
  milestone = some (record { attempts = 0; reflections = [] });
  trace = [];
}

abbrev gives_up : MilestoneResult
gives_up = failure "milestone failed after max attempts" none

fails :
    run_milestone_loop (worker 5) begun
    ≡ ((run_milestone_loop (worker 5) begun).0, returns gives_up)
unfolding run_milestone_loop budget_check lookup insert erase create_snapshot rollback
fails = refl

attempt_is_new : (n : ℕ) → lookup ((worker 5).snapshot_id n) sandbox.snapshots ≡ none
unfolding lookup
attempt_is_new n = refl

failed_milestone_restores_memory_example :
    ((run_milestone_loop (worker 5) begun).0.around.context.short_term_memory
      ≡ message "before" ∷ [])
    × KeepsSandbox (message "before" ∷ []) sandbox (run_milestone_loop (worker 5) begun).0
failed_milestone_restores_memory_example =
    failed_milestone_restores_memory (worker 5) (worker-LeavesMemory 5) begun
      (run_milestone_loop (worker 5) begun).0 sandbox gives_up refl attempt_is_new fails refl

abbrev second_try : MilestoneResult
second_try = record {
  success = true;
  outputs = "out" ∷ [];
  errors = [];
  verify_result = some (verification 1 2);
}

succeeds :
    run_milestone_loop (worker 1) begun
    ≡ ((run_milestone_loop (worker 1) begun).0, returns second_try)
unfolding run_milestone_loop budget_check lookup insert erase create_snapshot rollback
succeeds = refl

milestone_reports_verification_example :
    ClosesWith 2 second_try (run_milestone_loop (worker 1) begun).0.trace × (true ≡ true)
milestone_reports_verification_example =
    milestone_reports_verification (worker 1) begun (run_milestone_loop (worker 1) begun).0
      second_try succeeds

abbrev opened : SessionState ℕ
opened = record { around = start; sandbox = some sandbox; trace = [] }

-- the second milestone needs more than its attempts can do
abbrev session : SessionState ℕ × SessionEnd ℕ
session = run_session_loop worker (λ _. false) (message "go") (1 ∷ 9 ∷ 0 ∷ []) opened

abbrev session_runs : List (MilestoneRun ℕ)
session_runs =
    record {
      milestone = 1;
      state = some (record { attempts = 2; reflections = "try again" ∷ [] });
      result = second_try;
    }
    ∷ record {
      milestone = 9;
      state = some (record { attempts = 2; reflections = "try again" ∷ "try again" ∷ [] });
      result = gives_up;
    }
    ∷ []

session_stops :
    session ≡ (session.0, completed session_runs ("milestone failed after max attempts" ∷ []))
unfolding run_session_loop run_milestone_loop budget_check lookup insert erase create_snapshot
    rollback commit
session_stops = refl

session_success_iff_example :
    (rest : List ℕ) × (1 ∷ 9 ∷ 0 ∷ [] ≡ map (λ run. run.milestone) session_runs ++ rest)
    × ((session_success ("milestone failed after max attempts" ∷ []) ≡ true)
        ↔ ((rest ≡ []) × All Succeeded session_runs))
session_success_iff_example =
    session_success_iff worker (λ _. false) (message "go") (1 ∷ 9 ∷ 0 ∷ []) opened session.0
      session_runs ("milestone failed after max attempts" ∷ []) session_stops
