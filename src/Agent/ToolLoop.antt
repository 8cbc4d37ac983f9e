-- ===== src/Agent/ToolLoop.antt =====
-- `run_tool_loop` of dare_framework/agent/_internal/tool_executor.py, with `_tool_loop_max_calls` of
-- dare_framework/agent/dare_agent.py. The collaborators (`_emit_hook` before the tool,
-- `_evaluate_tool_security`, the gateway's `invoke` under `execute_safe`) are the interface `ToolAgent`.
-- Left out are the risk level, names, ids and times, which the loop only puts into payloads.
mod Types
unfoldable pub use Types.*
use deterministic_agent_runt.Base.{
  ℕ, zero, suc, ◌+◌, String, Bool, true, false, not, ◌&&◌, ◌||◌, Option, none, some, List, [], ◌∷◌,
  ◌++◌, leb, ◌==◌, if◌then◌else◌,
}
use deterministic_agent_runt.Json.{Value, Fields, end, field, obj, text}
use deterministic_agent_runt.Context.Budget.{Resource, tool_calls, Budget, budget_check, budget_use}
use deterministic_agent_runt.Agent.Milestone.{Around}

module _ {W : Type 0} where
  abbrev pub log : List ToolEvent → ToolState W → ToolState W
  log es st = record st { trace = st.trace ++ es }

  -- the branch of a hook that blocks or asks
  unfoldable pub refuse_by_hook : ℕ → String → ToolState W → ToolState W × RoundEnd
  refuse_by_hook n message st = (
    log (after_tool n false false ∷ []) st,
    answers (record {
      success = false;
      status = none;
      error = some message;
      output = obj end;
      result = none;
    }),
  )

  -- the branches of a refusal: an error of the boundary, a denial, no approval manager
  unfoldable pub refuse_by_policy :
      ℕ → String → String → String → ToolState W → ToolState W × RoundEnd
  refuse_by_policy n status code message st = (
    log (policy_denied code ∷ after_tool n false false ∷ []) st,
    answers (record {
      success = false;
      status = some status;
      error = some message;
      output = refusal_output status code message;
      result = none;
    }),
  )

  -- the branch of an exception of the call
  unfoldable pub fail_call : ℕ → Bool → String → ToolState W → ToolState W × RoundEnd
  fail_call n approved message st = (
    log (tool_error n message ∷ after_tool n false approved ∷ []) st,
    answers (record {
      success = false;
      status = some "fail";
      error = some message;
      output = obj end;
      result = none;
    }),
  )

  -- a tool that reports success: done, out of calls, or another round
  unfoldable pub conclude :
      Option (List String) → ℕ → ℕ → ToolResult → ToolState W → ToolState W × RoundEnd
  conclude predicate max_calls n r st =
      if meets_predicate predicate r
      then (
        st,
        answers (record {
          success = true;
          status = some "success";
          error = r.error;
          output = r.output;
          result = some r;
        }),
      )
      else if leb max_calls n
      then (
        st,
        answers (record {
          success = false;
          status = some "fail";
          error = some "done predicate not satisfied before budget exhausted";
          output = r.output;
          result = some r;
        }),
      )
      else (st, again)

  -- the branches on `tool_success`
  abbrev pub settle_result :
      Bool → Option (List String) → ℕ → ℕ → ToolResult → ToolState W → ToolState W × RoundEnd
  settle_result false predicate max_calls n r st = (
    st,
    answers (record {
      success = false;
      status = some (fail_status r.output);
      error = some (or_text r.error "tool failed");
      output = r.output;
      result = some r;
    }),
  )
  settle_result true predicate max_calls n r st =
      conclude predicate max_calls n r
        (record st { evidence = add_evidence r.evidence st.evidence })

  abbrev pub after_call :
      Option (List String)
      → ℕ
      → ℕ
      → PolicyDecision
      → Around W × Invocation
      → ToolState W
      → ToolState W × RoundEnd
  after_call predicate max_calls n d (a, gave r) st =
      settle_result r.success predicate max_calls n r (
        log
          (tool_result n r.success ∷ after_tool n r.success (is_approved d r.success r.output) ∷ [])
          (record st { around = a }))
  after_call predicate max_calls n d (a, human_approval_required message) st =
      fail_call n false message (record st { around = a })
  after_call predicate max_calls n d (a, failed_with message) st =
      fail_call n (not_denied d) message (record st { around = a })

  -- `budget_use("tool_calls", 1)`
  abbrev pub charge : Around W → Around W
  charge a = record a {
    context = record a.context { budget = budget_use tool_calls 1 a.context.budget };
  }

  -- what follows a round
  abbrev pub after_round :
      ToolState W × RoundEnd → (ToolState W → ToolState W × RoundEnd) → ToolState W × RoundEnd
  after_round (st, again) later = later st
  after_round (st, answers r) later = (st, answers r)
  after_round (st, over_budget r) later = (st, over_budget r)

module _ {W : Type 0} (agent : ToolAgent W) (request : ToolRequest) (max_calls : ℕ) where
  -- the call itself
  unfoldable pub call_tool :
      ℕ → PolicyDecision → Option String → Fields → Bool → ToolState W → ToolState W × RoundEnd
  unfolding fail_call conclude
  call_tool n d reason params force st =
      after_call request.done_predicate max_calls n d
        (agent.execute_safe force (if wants_approval d then reason else none) params st.around)
        (log (invoked n d force ∷ []) st)

  -- the guards that follow the decision
  abbrev pub guard :
      ℕ → PolicyDecision → Option String → Fields → Bool → ToolState W → ToolState W × RoundEnd
  guard n PolicyDecision.deny reason params force st =
      refuse_by_policy n "not_allow" "SECURITY_POLICY_DENIED"
        (or_text reason "tool invocation denied by security policy") st
  guard n d reason params force st =
      if force && (not request.descriptor_requires_approval && not agent.has_approval_manager)
      then refuse_by_policy n "fail" "SECURITY_APPROVAL_MANAGER_MISSING"
          "tool invocation requires approval but no approval manager is configured" st
      else call_tool n d reason params force st

  abbrev pub after_preflight : ℕ → Around W × Preflight → ToolState W → ToolState W × RoundEnd
  after_preflight n (a, boundary_error code message) st =
      refuse_by_policy n "not_allow" code
        (non_empty message "security policy denied tool invocation") (record st { around = a })
  after_preflight n (a, preflight d reason params) st =
      let force : Bool = is_true request.requires_approval_override || wants_approval d in
      guard n d reason params force (record st {
        around = a;
        requires_approval = request.descriptor_requires_approval || force;
      })

  abbrev pub after_hook : ℕ → Around W × HookDecision → ToolState W → ToolState W × RoundEnd
  after_hook n (a, HookDecision.block) st =
      refuse_by_hook n "tool invocation denied by hook policy" (record st { around = a })
  after_hook n (a, HookDecision.ask) st =
      refuse_by_hook n "tool invocation requires hook approval" (record st { around = a })
  after_hook n (a, HookDecision.allow) st =
      after_preflight n (agent.evaluate_tool_security n a) (record st { around = a })

  abbrev pub in_budget : Option Resource → ℕ → ToolState W → ToolState W × RoundEnd
  in_budget (some r) n st = (st, over_budget r)
  in_budget none n st =
      after_hook n (agent.before_tool n st.requires_approval (charge st.around))
        (record st { around = charge st.around })

  -- the body of the loop, attempt `n`
  unfoldable pub run_round : ℕ → ToolState W → ToolState W × RoundEnd
  unfolding refuse_by_hook refuse_by_policy call_tool
  run_round n st = in_budget (budget_check st.around.context.budget) n st

  -- the `while True` on fuel; `again` is to run out of it
  unfoldable pub run_rounds : ℕ → ℕ → ToolState W → ToolState W × RoundEnd
  unfolding run_round
  run_rounds zero n st = (st, again)
  run_rounds (suc fuel) n st = after_round (run_round n st) (run_rounds fuel (n + 1))

module _ {W : Type 0} (agent : ToolAgent W) (request : ToolRequest) where
  abbrev pub start_state : Around W → Option (List String) → ToolState W
  start_state a evidence = record {
    around = a;
    requires_approval =
        request.descriptor_requires_approval || is_true request.requires_approval_override;
    evidence = evidence;
    trace = [];
  }

  abbrev pub max_calls_at : Around W → ℕ
  max_calls_at a =
      tool_loop_max_calls request.max_tool_calls a.context.budget agent.max_tool_iterations

  -- after the check that precedes the loop
  abbrev pub start_loop : Option Resource → ℕ → Around W → ToolState W → ToolState W × RoundEnd
  start_loop (some r) fuel a st = (st, over_budget r)
  start_loop none fuel a st = run_rounds agent request (max_calls_at a) fuel 1 st

  -- `run_tool_loop`, with the evidence of the current milestone if there is one
  unfoldable pub run_tool_loop : ℕ → Around W → Option (List String) → ToolState W × RoundEnd
  unfolding run_rounds
  run_tool_loop fuel a evidence =
      start_loop (budget_check a.context.budget) fuel a (start_state a evidence)
