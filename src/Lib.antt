-- ===== src/Lib.antt =====
-- A model of the deterministic core of the runtime: the approval of tool calls, the audit log of
-- events, the plan state that the planning tools of an agent share, the context with its budget and
-- its queue of guidance and its compression, the execution control, the dispatch of hooks, the tool
-- manager and the governed gateway, and the session, milestone and tool loops of the agent.
--
-- The parts and their interaction. A tool call goes through `GovernedToolGateway.invoke`, which
-- asks `ToolApprovalManager.evaluate` if the call requires approval; that allows or denies it by
-- the stored rules or leaves it pending; clients poll the pending requests and grant or deny
-- them, which wakes the call that waits and may store a rule. `SQLiteEventLog` records what a
-- run does as a chain of hashed rows. The plan tools of plan_v2 work on one `PlannerState`: they
-- create, validate, revise and finish a plan, and delegate its steps to sub-agents. The session
-- loop runs the milestone loop for one milestone after the other; an attempt of the milestone
-- loop snapshots short-term memory in the sandbox, plans, executes and verifies, and rolls back
-- if it fails; the tool loop calls one tool under hooks, the security policy and the budget of
-- the context.
--
-- Base and its children hold shared names, lists over the native numbers, texts (`str.strip`),
-- dicts as association lists, a heap of objects, stable sorting, integers, and `str.lower` as
-- far as a comparison with small ASCII letters sees it. The dicts keep the order of insertion,
-- as Python's do.
--
-- Json models the parameters of calls, with `_normalize_value`; Json/Normal is about it.
--
-- Approval is dare_framework/tool/_internal/control/approval_manager.py. Types has its enums and
-- dataclasses; Params what a call's parameters contribute (`_sanitize_approval_params`,
-- `_extract_command`, `_params_hash`, `_request_fingerprint`); Rules the matching
-- (`_rule_matches`); Manager the state and the helpers on rules; Calls `evaluate`; Resolve
-- `grant`, `deny`, `revoke` and `wait_for_resolution`; Polling `list_pending`, `list_rules` and
-- `poll_pending`. Every method holds one lock, so a method is a step; `wait_for_resolution` is
-- two steps with the wait between them, and `poll_pending` is a function of the managers it
-- finds at its wake-ups. The pending objects, which two dicts and the waiters share, live on a
-- heap. Selection and Decision are about the rules that decide, Invariant and Resolution about
-- the two dicts, Waiters about the delivery of decisions, Once about what is left of a request
-- after it, Memory about stored rules, Persistence about the rule files, Dedup about equal
-- calls, Order about polling and listing.
--
-- EventLog is dare_framework/event/_internal/sqlite_event_log.py: `append`, `query`, `replay`
-- and `verify_chain` on the table as the list of its rows. Chain, Tamper with Lines, and Queries
-- are about them.
--
-- Planner is dare_framework/plan_v2: State has types.py and the helpers on steps, Tools and
-- Delegation the `execute` methods of tools.py. Lifecycle, Progress, Delegated, Final and Copy
-- are about them.
--
-- Hook is dare_framework/hook/_internal: patch_validator.py, whose `merge_patches` joins the
-- patches that hooks ask for, with the test `==` on the values an argument; Emit and the Results
-- below it have hook_extension_point.py, hook_runner.py, decision_arbiter.py and
-- hook_selector.py, with a hook as what its attempts come to. A decision that a hook gives as
-- text is put in lower case by `lower` of Base/Lower wherever the code does so. Arbiter and
-- Decisions are about the decision, and Runs about the retries.
--
-- Gateway is dare_framework/tool/_internal/governed_tool_gateway.py over Approval; `invoke` is
-- three steps, since it awaits the manager twice, and the delegate is an argument. Governance is
-- about the two together.
--
-- Tools is dare_framework/tool/tool_manager.py: Types has the data, Tools the operations on
-- single tools and Providers those on providers and entry points. Tools and providers are
-- references, whose attributes are an argument. Index, Entries, Syncs and Changes are about the
-- registry and its index, and Removal, Arrivals and Ownership about the entries of a provider.
--
-- Compression is dare_framework/compression/moving_compression.py; the model's answer is an
-- argument. Split is about the chunks, Bounds about the window, and Pruning about what is left.
--
-- Context is dare_framework/context with dare_framework/guidance: Budget, Guidance and Memory have
-- the budget's methods, the queue, and `Context` with short-term memory, draining, compression and
-- assembly. Limits is about the budget, and Delivery about guidance, against a specification that
-- lists what was accepted.
--
-- Control is dare_framework/tool/_internal/control/default_execution_control.py, with the events of
-- waiting tasks on a heap; Control/Waits is about `wait_for_human`.
--
-- Agent is dare_framework/agent/_internal. Sandbox has sandbox.py; Milestone has
-- milestone_orchestrator.py, over the interface `MilestoneAgent` for the plan and execute loops,
-- the policy, the verification and the remediator; Session has session_orchestrator.py over the
-- milestone loop; ToolLoop has tool_executor.py, over the interface `ToolAgent` for the hook,
-- the security preflight and the gateway's call. The data of the two loops are in the Types
-- below them. Restore is about the sandbox, Attempts, Failure and Report about the milestone
-- loop, Outcome about the session, ToolEnds and ToolPermits about the tool loop.
--
-- Security is dare_framework/security/impl/default_security_boundary.py, `PolicySecurityBoundary`
-- with `verify_trust` and `check_policy`, and `_evaluate_tool_security` of
-- dare_framework/agent/dare_agent.py, which is an instance of the tool loop's preflight; Metadata
-- has the helpers on dicts. Security/Denial is about the two together.
--
-- Fuel and bounds. The `while True` of the tool loop takes fuel; one round more than none, and
-- as many as the limit on calls, are enough, since the loop ends once its attempts reach that
-- limit. The `while` of `_compute_prune_result` takes fuel, and a round per message is enough,
-- since each round drops one at least. The other loops that are modelled, but one, run over a
-- list or a range, and are structural recursion. Numbers are naturals, since Python's integers
-- do not wrap, but for the retries of hooks, which may be negative; times are naturals that the
-- code only compares and copies.
--
-- Parameters. SHA-256 with the canonical JSON text before it is a function `digest`; ids of `uuid4`
-- and readings of the clock are arguments of the operations.
--
-- Not modelled: the reading and writing of the rule files and of the database, the printing of
-- plans, the registry of sub-agents, the filtering of hook specs, the plan and execute loops,
-- the builder and the ReAct agent of dare_framework/agent, the file variant of the execution
-- control, the single tools and the plain gateway, the messages about approvals, the security
-- boundary's configuration, and the packages for transport, models, MCP, A2A, memory, knowledge,
-- skills, configuration and observability, as well as client. The agents' loops take what they
-- call of these as the fields of their interfaces.
pub mod Base
pub mod Json
pub mod Approval
pub mod EventLog
pub mod Planner
pub mod Hook
pub mod Context
pub mod Control
pub mod Agent
pub mod Security
pub mod Gateway
pub mod Tools
pub mod Compression
