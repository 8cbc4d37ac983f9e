-- ===== src/Hook/Arbiter.antt =====
-- The arbitration between the results of hooks (dare_framework/hook/_internal/decision_arbiter.py).
use mathlib.Core.List.Memᴰ.{Memᴰ, head, tail, not-nil, cases_cons}
use deterministic_agent_runt.Base.{
  ◌≤◌, String, false, none, some, List, [], ◌∷◌, map, ltb, ◌==◌, ◌≡◌, ◌↔◌, ◌⊎◌, inl, inr, refl, sym,
  ◌∙◌, arith, Bool-cases, eq_iff,
}
use deterministic_agent_runt.Base.Lower.{lower, lower_idem}
use deterministic_agent_runt.Agent.ToolLoop.{HookDecision}
use deterministic_agent_runt.Hook.Emit.{
  HookRunResult, ran, failed_run, hook_result, mapping, other_value, Normalized,
  normalize_runner_result, rank, arbitrate_from, arbitrate,
}

block_is_highest : (d : String) → 2 ≤ rank d → d ≡ "block"
block_is_highest d h = ground (arith, h, eq_iff d "block", eq_iff d "ask")

ask_is_next : (d : String) → 1 ≤ rank d → (d ≡ "ask") ⊎ (d ≡ "block")
ask_is_next d h = ground (arith, h, eq_iff d "block", eq_iff d "ask")

pub texts_apart : (a b : String) → a == b ≡ false → a ≡ b → ⊥
texts_apart a b apart same = ground (arith, eq_iff a b, apart, same)

module _ {A : Type 0} where
  -- some result gives the decision
  abbrev pub Decides : String → List (Normalized A) → Type 0
  Decides d rs = (r : Normalized A) × Memᴰ r rs × (r.decision ≡ d)

  arbitrate_from-highest :
      (w : Normalized A) (rs : List (Normalized A)) (r : Normalized A)
      → Memᴰ r (w ∷ rs)
      → rank (lower r.decision) ≤ rank (lower (arbitrate_from w rs).decision)
  unfolding arbitrate_from
  arbitrate_from-highest w [] r m = elim (cases_cons m) [
    | inl e ↦ rw e (omega arith)
    | inr t ↦ absurd (not-nil t)
  ]
  arbitrate_from-highest w (v ∷ vs) r m =
      elim (Bool-cases (ltb (rank (lower w.decision)) (rank (lower v.decision)))) [
        | inl higher ↦
            let top = arbitrate_from-highest v vs v (head refl) in
            rw (higher, arbitrate_from)
              (elim (cases_cons m) [
                | inl e ↦ rw e (ground (arith, higher, top))
                | inr t ↦ arbitrate_from-highest v vs r t
              ])
        | inr lower ↦
            let top = arbitrate_from-highest w vs w (head refl) in
            rw (lower, arbitrate_from)
              (elim (cases_cons m) [
                | inl e ↦ rw e top
                | inr t ↦ elim (cases_cons t) [
                  | inl e ↦ rw e (ground (arith, lower, top))
                  | inr t' ↦ arbitrate_from-highest w vs r (tail t')
                ]
              ])
      ]

  arbitrate_from-mem :
      (w : Normalized A) (rs : List (Normalized A)) → Memᴰ (arbitrate_from w rs) (w ∷ rs)
  unfolding arbitrate_from
  arbitrate_from-mem w [] = head refl
  arbitrate_from-mem w (v ∷ vs) =
      elim (Bool-cases (ltb (rank (lower w.decision)) (rank (lower v.decision)))) [
        | inl higher ↦ rw (higher, arbitrate_from) (tail (arbitrate_from-mem v vs))
        | inr lower ↦ rw (lower, arbitrate_from) (skip_second (arbitrate_from-mem w vs))
      ]
    where
      skip_second : {x : Normalized A} → Memᴰ x (w ∷ vs) → Memᴰ x (w ∷ v ∷ vs)
      skip_second m = elim (cases_cons m) [ inl e ↦ head e | inr t ↦ tail (tail t) ]

  arbitrate-highest :
      (rs : List (Normalized A)) (r : Normalized A)
      → Memᴰ r rs
      → rank (lower r.decision) ≤ rank (arbitrate rs).decision
  unfolding arbitrate
  arbitrate-highest [] r m = absurd (not-nil m)
  arbitrate-highest (w ∷ rs) r m = arbitrate_from-highest w rs r m

  -- the winner is one of the results, in lower case, unless there is none
  arbitrate-mem :
      (rs : List (Normalized A))
      → ((arbitrate rs).decision ≡ "allow")
        ⊎ ((r : Normalized A) × Memᴰ r rs × (lower r.decision ≡ (arbitrate rs).decision))
  unfolding arbitrate
  arbitrate-mem [] = inl refl
  arbitrate-mem (w ∷ rs) = inr (arbitrate_from w rs, arbitrate_from-mem w rs, refl)

  -- the results whose decisions stand in lower case, as the normalized ones do
  abbrev pub AllLower : List (Normalized A) → Type 0
  AllLower rs = (r : Normalized A) → Memᴰ r rs → lower r.decision ≡ r.decision

  pub arbitrate_block :
      (rs : List (Normalized A))
      → AllLower rs
      → ((arbitrate rs).decision ≡ "block") ↔ Decides "block" rs
  arbitrate_block rs low = (
    λ blocks. elim (arbitrate-mem rs) [
      | inl allows ↦ absurd (texts_apart "allow" "block" refl (sym allows ∙ blocks))
      | inr (r, m, e) ↦ (r, m, sym (low r m) ∙ e ∙ blocks)
    ],
    λ (r, m, blocks).
        let highest = arbitrate-highest rs r m in
        block_is_highest (arbitrate rs).decision (rw (low r m ∙ blocks, rank) at highest),
  )

  pub arbitrate_ask :
      (rs : List (Normalized A))
      → AllLower rs
      → ((arbitrate rs).decision ≡ "ask") ↔ (Decides "ask" rs × (Decides "block" rs → ⊥))
  arbitrate_ask rs low = (
    λ asks. (
      elim (arbitrate-mem rs) [
        | inl allows ↦ absurd (texts_apart "allow" "ask" refl (sym allows ∙ asks))
        | inr (r, m, e) ↦ (r, m, sym (low r m) ∙ e ∙ asks)
      ],
      λ blocked. texts_apart "ask" "block" refl (sym asks ∙ (arbitrate_block rs low).1 blocked),
    ),
    λ ((r, m, asks), unblocked).
        let highest = arbitrate-highest rs r m in
        elim (ask_is_next (arbitrate rs).decision (rw (low r m ∙ asks, rank) at highest)) [
          | inl e ↦ e
          | inr e ↦ absurd (unblocked ((arbitrate_block rs low).0 e))
        ],
  )

  pub lower-arbitrate :
      (rs : List (Normalized A)) → lower (arbitrate rs).decision ≡ (arbitrate rs).decision
  unfolding arbitrate
  lower-arbitrate [] = unfold lower in refl
  lower-arbitrate (w ∷ rs) = lower_idem (arbitrate_from w rs).decision

  lower-normalize_runner_result :
      (r : HookRunResult A)
      → lower (normalize_runner_result r).decision ≡ (normalize_runner_result r).decision
  unfolding normalize_runner_result
  lower-normalize_runner_result (ran (hook_result HookDecision.allow patch message)) =
      unfold lower in refl
  lower-normalize_runner_result (ran (hook_result HookDecision.block patch message)) =
      unfold lower in refl
  lower-normalize_runner_result (ran (hook_result HookDecision.ask patch message)) =
      unfold lower in refl
  lower-normalize_runner_result (ran (mapping none patch message)) = unfold lower in refl
  lower-normalize_runner_result (ran (mapping (some d) patch message)) = lower_idem d
  lower-normalize_runner_result (ran other_value) = unfold lower in refl
  lower-normalize_runner_result (failed_run code message) = unfold lower in refl

  pub normalized-AllLower :
      (rs : List (HookRunResult A)) → AllLower (map normalize_runner_result rs)
  normalized-AllLower [] r m = absurd (not-nil m)
  normalized-AllLower (x ∷ xs) r m = elim (cases_cons m) [
    | inl e ↦ rw e (lower-normalize_runner_result x)
    | inr t ↦ normalized-AllLower xs r t
  ]
