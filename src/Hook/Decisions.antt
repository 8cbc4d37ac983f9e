-- ===== src/Hook/Decisions.antt =====
-- What the dispatch of hooks decides (dare_framework/hook/_internal/hook_extension_point.py and
-- decision_arbiter.py beside it).
use deterministic_agent_runt.Base.{
  String, Bool, true, false, List, map, ◌==◌, ◌≡◌, ◌↔◌, ◌⊎◌, inl, inr, refl, sym, ◌∙◌, arith,
  Bool-cases, eq_iff,
}
use deterministic_agent_runt.Base.Lower.{lower}
use deterministic_agent_runt.Agent.ToolLoop.{HookDecision}
use deterministic_agent_runt.Hook.{Merged, merged, not_allowlisted, conflicting}
use deterministic_agent_runt.Hook.Emit.{
  HookPhase, Normalized, normalize_runner_result, arbitrate, HookExtensionPoint, run_results,
  error_texts, decision_from, conclude_emit, merged_patches, emit_hooks,
}
use deterministic_agent_runt.Hook.Arbiter.{
  texts_apart, Decides, arbitrate_block, arbitrate_ask, lower-arbitrate, normalized-AllLower,
}

decision_cases :
    (d : String)
    → ((d ≡ "block") × (decision_from d ≡ HookDecision.block))
      ⊎ ((d ≡ "ask") × (decision_from d ≡ HookDecision.ask))
      ⊎ ((d ≡ "block" → ⊥) × (d ≡ "ask" → ⊥) × (decision_from d ≡ HookDecision.allow))
decision_cases d = elim (Bool-cases (d == "block")) [
  | inl e ↦ inl (ground (arith, eq_iff d "block", e), rw e refl)
  | inr e ↦ elim (Bool-cases (d == "ask")) [
    | inl f ↦ inr (inl (ground (arith, eq_iff d "ask", f), rw (e, f) refl))
    | inr f ↦ inr (inr (texts_apart d "block" e, texts_apart d "ask" f, rw (e, f) refl))
  ]
]

module _ {A : Type 0} where
  abbrev pub merges : Merged A → Bool
  merges (merged n) = true
  merges (not_allowlisted k) = false
  merges (conflicting k) = false

  conclude_block :
      (enforce : Bool) (errors : List String) (w : Normalized A) (p : Merged A)
      → ((conclude_emit enforce errors w p).decision ≡ HookDecision.block)
        ↔ ((enforce ≡ true) × ((merges p ≡ false) ⊎ (lower w.decision ≡ "block")))
  conclude_block false errors w (not_allowlisted k) = (λ e. cc e, λ h. cc h.0)
  conclude_block false errors w (conflicting k) = (λ e. cc e, λ h. cc h.0)
  conclude_block true errors w (not_allowlisted k) = (λ e. (refl, inl refl), λ h. refl)
  conclude_block true errors w (conflicting k) = (λ e. (refl, inl refl), λ h. refl)
  conclude_block false errors w (merged n) = elim (decision_cases (lower w.decision)) [
    | inl (d, e) ↦ (λ f. cc (rw e at f), λ h. cc h.0)
    | inr (inl (d, e)) ↦ (λ f. cc (rw e at f), λ h. cc h.0)
    | inr (inr (b, a, e)) ↦ (λ f. cc (rw e at f), λ h. cc h.0)
  ]
  conclude_block true errors w (merged n) = elim (decision_cases (lower w.decision)) [
    | inl (d, e) ↦ (λ f. (refl, inr d), λ h. e)
    | inr (inl (d, e)) ↦ (
      λ f. cc (sym e ∙ f),
      λ h. elim h.1 [ inl g ↦ cc g | inr g ↦ absurd (texts_apart "ask" "block" refl (sym d ∙ g)) ],
    )
    | inr (inr (b, a, e)) ↦
        (λ f. cc (sym e ∙ f), λ h. elim h.1 [ inl g ↦ cc g | inr g ↦ absurd (b g) ])
  ]

  conclude_ask :
      (enforce : Bool) (errors : List String) (w : Normalized A) (p : Merged A)
      → ((conclude_emit enforce errors w p).decision ≡ HookDecision.ask)
        ↔ ((enforce ≡ true) × (merges p ≡ true) × (lower w.decision ≡ "ask"))
  conclude_ask false errors w (not_allowlisted k) = (λ e. cc e, λ h. cc h.0)
  conclude_ask false errors w (conflicting k) = (λ e. cc e, λ h. cc h.0)
  conclude_ask true errors w (not_allowlisted k) = (λ e. cc e, λ h. cc h.1)
  conclude_ask true errors w (conflicting k) = (λ e. cc e, λ h. cc h.1)
  conclude_ask false errors w (merged n) = elim (decision_cases (lower w.decision)) [
    | inl (d, e) ↦ (λ f. cc (rw e at f), λ h. cc h.0)
    | inr (inl (d, e)) ↦ (λ f. cc (rw e at f), λ h. cc h.0)
    | inr (inr (b, a, e)) ↦ (λ f. cc (rw e at f), λ h. cc h.0)
  ]
  conclude_ask true errors w (merged n) = elim (decision_cases (lower w.decision)) [
    | inl (d, e) ↦ (λ f. cc (sym e ∙ f), λ h. absurd (texts_apart "ask" "block" refl (sym h.2 ∙ d)))
    | inr (inl (d, e)) ↦ (λ f. (refl, refl, d), λ h. e)
    | inr (inr (b, a, e)) ↦ (λ f. cc (sym e ∙ f), λ h. absurd (a h.2))
  ]

  -- what the hooks of a phase come to
  abbrev pub results_of : HookExtensionPoint A → HookPhase → List (Normalized A)
  results_of p phase = map normalize_runner_result (run_results p phase)

  -- The dispatch in a phase blocks exactly if the extension point enforces, and the patches do not merge
  -- or some result is to block; it asks exactly if the extension point enforces, the patches merge,
  -- some result is to ask and none is to block.
  pub emit_decision :
      (same : A → A → Bool) (p : HookExtensionPoint A) (phase : HookPhase)
      → (((emit_hooks same p phase).decision ≡ HookDecision.block) ↔ (
          (p.enforce ≡ true)
          × ((merges (merged_patches same p phase) ≡ false)
              ⊎ Decides "block" (results_of p phase))))
        × (((emit_hooks same p phase).decision ≡ HookDecision.ask) ↔ (
            (p.enforce ≡ true)
            × (merges (merged_patches same p phase) ≡ true)
            × Decides "ask" (results_of p phase)
            × (Decides "block" (results_of p phase) → ⊥)))
  unfolding emit_hooks
  emit_decision same p phase =
      let w = arbitrate (results_of p phase) in
      let blocks =
        conclude_block p.enforce (error_texts (run_results p phase)) w
          (merged_patches same p phase) in
      let asks =
        conclude_ask p.enforce (error_texts (run_results p phase)) w
          (merged_patches same p phase) in
      let low = normalized-AllLower (run_results p phase) in
      let (b, b') = arbitrate_block (results_of p phase) low in
      let (a, a') = arbitrate_ask (results_of p phase) low in
      let same_case = lower-arbitrate (results_of p phase) in
      (
        (
          λ e.
              let (on, why) = blocks.0 e in
              (on, elim why [ inl g ↦ inl g | inr g ↦ inr (b (sym same_case ∙ g)) ]),
          λ (on, why). blocks.1 (on, elim why [ inl g ↦ inl g | inr g ↦ inr (same_case ∙ b' g) ]),
        ),
        (
          λ e.
              let (on, ok, d) = asks.0 e in
              let (some_asks, none_blocks) = a (sym same_case ∙ d) in
              (on, ok, some_asks, none_blocks),
          λ (on, ok, some_asks, none_blocks).
              asks.1 (on, ok, same_case ∙ a' (some_asks, none_blocks)),
        ),
      )
