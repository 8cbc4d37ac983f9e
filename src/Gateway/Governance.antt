-- ===== src/Gateway/Governance.antt =====
-- What a governed invocation comes to (dare_framework/tool/_internal/governed_tool_gateway.py together with
-- dare_framework/tool/_internal/control/approval_manager.py).
use deterministic_agent_runt.Base.{
  ℕ, String, true, Option, none, some, List, ◌≡◌, ◌↔◌, refl, arith, eq_iff,
}
use deterministic_agent_runt.Base.Dict.{lookup, erase, lookup-erase}
use deterministic_agent_runt.Json.{Fields}
use deterministic_agent_runt.Approval.Types.{
  ApprovalDecision, ApprovalRule, ApprovalEvaluationStatus, PendingApprovalRequest, allowed, denied,
  pending,
}
use mathlib.Core.Path.{subst}
use deterministic_agent_runt.Approval.Manager.{Manager, Outcome, returned}
use deterministic_agent_runt.Approval.Calls.{
  Call, find_for_call, answer_call, apply_rule, add_pending, join_pending, evaluate,
}
use deterministic_agent_runt.Approval.Resolve.{
  Verdict, resolve_request, unknown_request, begin_wait, end_wait,
}
use deterministic_agent_runt.Approval.Decision.{Fits, evaluate_by_rules}
use deterministic_agent_runt.Approval.Invariant.{InStep}
use deterministic_agent_runt.Approval.Resolution.{Reach, resolve_request-InStep}
use deterministic_agent_runt.Approval.Waiters.{delivered, Reach-IsDecided, end_wait-decided}
use deterministic_agent_runt.Security.{Descriptor}
use deterministic_agent_runt.Gateway.{
  InvokeRequest, passed, refused, asked, approval_required, approval_call, by_status,
  resolve_approval, begin_invoke, decide, begin_resolution, end_resolution,
  build_delegate_invoke_kwargs, Invoked, result, refusal, finish_invoke,
}

-- a pending answer names a request
answer_names_request :
    (c : Call) (found : Option ApprovalRule) (existing : Option ℕ) (m : Manager)
    → (answer_call c found existing m).1.status ≡ pending
    → (q : PendingApprovalRequest) × ((answer_call c found existing m).1.request ≡ some q)
unfolding apply_rule add_pending join_pending
answer_names_request c (some r) existing m h = absurd (ground arith)
answer_names_request c none none m h = (_, refl)
answer_names_request c none (some r) m h = (_, refl)

pending_names_request :
    (c : Call) (m : Manager)
    → (evaluate c m).1.status ≡ pending
    → (q : PendingApprovalRequest) × ((evaluate c m).1.request ≡ some q)
unfolding evaluate
pending_names_request c m h = answer_names_request c (find_for_call c m) _ m h

-- the phase after the evaluation, by its status
by_status_iff :
    (s : ApprovalEvaluationStatus) (o : Option PendingApprovalRequest)
    → (s ≡ pending → (q : PendingApprovalRequest) × (o ≡ some q))
    → ((by_status s o ≡ passed) ↔ (s ≡ allowed))
      × ((by_status s o ≡ refused "not_allow" "tool invocation denied by approval rule")
          ↔ (s ≡ denied))
      × (((id : String) × (by_status s o ≡ asked id)) ↔ (s ≡ pending))
by_status_iff allowed o named =
    ((λ _. refl, λ _. refl), (λ p. cc p, λ p. cc p), (λ p. cc p.1, λ p. cc p))
by_status_iff denied o named =
    ((λ p. cc p, λ p. cc p), (λ _. refl, λ _. refl), (λ p. cc p.1, λ p. cc p))
by_status_iff pending o named =
    let (q, e) = named refl in
    (
      (λ p. cc (rw e at p), λ p. cc p),
      (λ p. cc (rw e at p), λ p. cc p),
      (λ _. refl, λ _. (q.request_id, rw e)),
    )

iff_trans {ℓ κ ι} : {A : Type ℓ} {B : Type κ} {C : Type ι} → A ↔ B → B ↔ C → A ↔ C
iff_trans (f, g) (h, k) = (λ a. h (f a), λ c. g (k c))

-- An invocation that requires approval passes its evaluation exactly if some rule fits it and every rule
-- that fits allows, is refused by a rule exactly if some rule that fits denies, and is told to wait for
-- a request exactly if no rule fits.
pub begin_invoke_by_rules :
    (i : InvokeRequest) (ds : List Descriptor) (m : Manager)
    → approval_required i ds ≡ true
    → (((begin_invoke i ds (some m)).1 ≡ passed) ↔ (
        ((r : ApprovalRule) × Fits (approval_call i) m r)
        × ((r : ApprovalRule) → Fits (approval_call i) m r → r.decision ≡ ApprovalDecision.allow)))
      × (((begin_invoke i ds (some m)).1
            ≡ refused "not_allow" "tool invocation denied by approval rule")
          ↔ ((r : ApprovalRule) × Fits (approval_call i) m r
              × (r.decision ≡ ApprovalDecision.deny)))
      × (((id : String) × ((begin_invoke i ds (some m)).1 ≡ asked id))
          ↔ ((r : ApprovalRule) → Fits (approval_call i) m r → ⊥))
unfolding begin_invoke resolve_approval
begin_invoke_by_rules i ds m needed =
    let by_rules = evaluate_by_rules (approval_call i) m in
    let by_phase = by_status_iff _ _ (pending_names_request (approval_call i) m) in
    rw needed (
      iff_trans by_phase.0 by_rules.1,
      iff_trans by_phase.1 by_rules.0,
      iff_trans by_phase.2 by_rules.2,
    )

-- what a human's decision makes of an invocation
abbrev pub after_decision :
    {W R : Type 0}
    → ApprovalDecision
    → (Fields → W → W × R)
    → InvokeRequest
    → W
    → Option (W × Invoked R)
after_decision ApprovalDecision.allow delegate i w =
    let (w', r) = delegate (build_delegate_invoke_kwargs i) w in some (w', result r)
after_decision ApprovalDecision.deny delegate i w =
    some (w, refusal "not_allow" "tool invocation denied by human approval")

finish_decided :
    {W R : Type 0} (d : ApprovalDecision) (delegate : Fields → W → W × R) (i : InvokeRequest)
    (w : W)
    → finish_invoke delegate i (decide d) w ≡ after_decision d delegate i w
unfolding finish_invoke
finish_decided ApprovalDecision.allow delegate i w = refl
finish_decided ApprovalDecision.deny delegate i w = refl

-- An invocation that waits for a listed request goes on waiting until the request is decided, and
-- after that, whatever calls of the manager have come in between, it calls the delegate if the
-- decision was to allow, and returns a refusal without calling it if the decision was to deny.
pub decision_governs_invocation :
    {W R : Type 0} (delegate : Fields → W → W × R) (i : InvokeRequest) (w : W) (v : Verdict) (r : ℕ)
    (m n o : Manager) (rule : Option ApprovalRule)
    → InStep m
    → lookup v.request_id m.pending_by_id ≡ some r
    → resolve_request v m ≡ (n, returned rule)
    → Reach n o
    → (finish_invoke delegate i (end_resolution v.request_id r m).1 w ≡ none)
      × (finish_invoke delegate i (end_resolution v.request_id r o).1 w
          ≡ after_decision v.decision delegate i w)
unfolding end_resolution finish_invoke
decision_governs_invocation delegate i w v r m n o rule inv listed h path =
    let k = delivered v r m n rule inv listed h in
    let n_in_step : InStep n =
      subst (λ (p : Manager × Outcome (Option ApprovalRule)). InStep p.0) h
        (resolve_request-InStep v m inv) in
    let decided = Reach-IsDecided r v.decision path n_in_step k.decided in
    (
      unfold end_wait in rw (inv.by_id v.request_id r listed).unset refl,
      rw (end_wait-decided r v.decision v.request_id o decided)
          (finish_decided v.decision delegate i w),
    )

begin_wait-unknown :
    (id : String) (m : Manager)
    → lookup id m.resolved_by_id ≡ none
    → lookup id m.pending_by_id ≡ none
    → (begin_wait id m).1 ≡ unknown_request
unfolding begin_wait
begin_wait-unknown id m gone unlisted = ground arith

-- A second invocation that was told to wait for the same request, but begins its wait only after the
-- decision was taken by the first one, is refused as failed, also if the decision was to allow.
pub late_joiner_refused :
    {W R : Type 0} (delegate : Fields → W → W × R) (i : InvokeRequest) (w : W) (v : Verdict) (r : ℕ)
    (m n : Manager) (rule : Option ApprovalRule)
    → InStep m
    → lookup v.request_id m.pending_by_id ≡ some r
    → resolve_request v m ≡ (n, returned rule)
    → ((end_resolution v.request_id r n).1 ≡ decide v.decision)
      × (finish_invoke delegate i
            (begin_resolution v.request_id (end_resolution v.request_id r n).0).1
            w
          ≡ some (w, refusal "fail" "tool approval resolution failed"))
unfolding end_resolution begin_resolution finish_invoke
late_joiner_refused delegate i w v r m n rule inv listed h =
    let k = delivered v r m n rule inv listed h in
    let e = end_wait-decided r v.decision v.request_id n k.decided in
    let gone : lookup v.request_id (erase v.request_id n.resolved_by_id) ≡ none = ground (
      arith,
      lookup-erase v.request_id v.request_id n.resolved_by_id,
      eq_iff v.request_id v.request_id,
    ) in
    (
      rw e refl,
      rw
          (
            e,
            begin_wait-unknown v.request_id
                (record n { resolved_by_id = erase v.request_id n.resolved_by_id }) gone k.unlisted,
          )
          refl,
    )
