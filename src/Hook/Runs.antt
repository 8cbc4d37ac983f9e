-- ===== src/Hook/Runs.antt =====
-- How often a hook is called: `run_with_policy` of dare_framework/hook/_internal/hook_runner.py.
use deterministic_agent_runt.Base.{
  ℕ, zero, suc, ◌+◌, ◌≤◌, ◌<◌, String, Bool, true, false, if◌then◌else◌, ◌≡◌, ◌↔◌, ◌⊎◌, inl, inr,
  refl, ap, ◌∙◌, arith,
}
use deterministic_agent_runt.Base.Int.{ℤ, pos, negsuc, to_nat, ◌≤ℤ◌}
use deterministic_agent_runt.Hook.Emit.{
  HookValue, Attempt, returns, times_out, raises, HookFn, HookRunResult, ran, failed_run,
  attempts_from, max_attempts, try_attempts, run_with_policy,
}

module _ {A : Type 0} where
  Attempt-cases :
      (a : Attempt A)
      → ((v : HookValue A) × (a ≡ returns v)) ⊎ (a ≡ times_out) ⊎ ((e : String) × (a ≡ raises e))
  Attempt-cases (returns v) = inl (v, refl)
  Attempt-cases times_out = inr (inl refl)
  Attempt-cases (raises e) = inr (inr (e, refl))

  -- Of the attempts from one on, with so many after it, one returns the value, and all before it raise.
  abbrev pub Returned : HookFn A → ℕ → ℕ → HookValue A → Type 0
  Returned fn attempt left v =
      (k : ℕ) × (k ≤ left)
      × (fn (k + attempt) ≡ returns v)
      × ((j : ℕ) → j < k → (e : String) × (fn (j + attempt) ≡ raises e))

  module _ (fn : HookFn A) (v : HookValue A) where
    -- an attempt that returns settles it
    at_once : (attempt left : ℕ) → fn attempt ≡ returns v → Returned fn attempt left v
    at_once attempt left e =
        (0, omega arith, ap fn (omega arith) ∙ e, λ j early. absurd (omega (arith, early)))

    -- an attempt that raises leaves it to the others
    one_more :
        (attempt left : ℕ) (e : String)
        → fn attempt ≡ raises e
        → Returned fn (attempt + 1) left v
        → Returned fn attempt (suc left) v
    one_more attempt left e raised (k, within, there, before) =
        (suc k, omega (arith, within), ap fn (omega arith) ∙ there, earlier)
      where
        earlier : (j : ℕ) → j < suc k → (e : String) × (fn (j + attempt) ≡ raises e)
        earlier zero early = (e, ap fn (omega arith) ∙ raised)
        earlier (suc j) early =
            let (e', raised') = before j (omega (arith, early)) in
            (e', ap fn (omega arith) ∙ raised')

    same_value : (u : HookValue A) → ran u ≡ ran v → returns u ≡ returns v
    same_value u h =
        ap (λ (r : HookRunResult A). elim r [ ran w ↦ returns w | failed_run _ _ ↦ returns u ]) h

    attempts_from-Returned :
        (left attempt : ℕ) → attempts_from fn attempt left ≡ ran v → Returned fn attempt left v
    unfolding attempts_from
    attempts_from-Returned zero attempt h = elim (Attempt-cases (fn attempt)) [
      | inl (u, e) ↦ at_once attempt 0 (e ∙ same_value u (rw (e, attempts_from) at h))
      | inr (inl e) ↦ cc (rw (e, attempts_from) at h)
      | inr (inr (m, e)) ↦ cc (rw (e, attempts_from) at h)
    ]
    attempts_from-Returned (suc left) attempt h = elim (Attempt-cases (fn attempt)) [
      | inl (u, e) ↦ at_once attempt (suc left) (e ∙ same_value u (rw (e, attempts_from) at h))
      | inr (inl e) ↦ cc (rw (e, attempts_from) at h)
      | inr (inr (m, e)) ↦
          one_more attempt left m e
            (attempts_from-Returned left (attempt + 1) (rw (e, attempts_from) at h))
    ]

    Returned-ran :
        (left attempt : ℕ) → Returned fn attempt left v → attempts_from fn attempt left ≡ ran v
    unfolding attempts_from
    Returned-ran zero attempt (zero, within, there, before) =
        let now : fn attempt ≡ returns v = ap fn (omega arith) ∙ there in
        rw (now, attempts_from) refl
    Returned-ran zero attempt (suc k, within, there, before) = absurd (omega (arith, within))
    Returned-ran (suc left) attempt (zero, within, there, before) =
        let now : fn attempt ≡ returns v = ap fn (omega arith) ∙ there in
        rw (now, attempts_from) refl
    Returned-ran (suc left) attempt (suc k, within, there, before) =
        let (e, raised) = before 0 (omega arith) in
        let now : fn attempt ≡ raises e = ap fn (omega arith) ∙ raised in
        rw (now, attempts_from)
          (Returned-ran left (attempt + 1) (
            k,
            omega (arith, within),
            ap fn (omega arith) ∙ there,
            λ j early.
                let (e', raised') = before (suc j) (omega (arith, early)) in
                (e', ap fn (omega arith) ∙ raised'),
          ))

within_range :
    (k : ℕ) (retries : ℤ) (idempotent : Bool)
    → (k < to_nat (max_attempts retries idempotent))
      ↔ (pos k ≤ℤ (if idempotent then retries else pos 0))
within_range k (pos n) true = (λ h. grind (arith, h), λ h. grind (arith, h))
within_range k (negsuc n) true = (λ h. ground (arith, h), λ h. ground (arith, h))
within_range k retries false = (λ h. omega (arith, h), λ h. omega (arith, h))

module _ {A : Type 0} where
  try_attempts-Returned :
      (fn : HookFn A) (v : HookValue A) (n : ℕ)
      → (try_attempts fn n ≡ ran v) ↔ (
          (k : ℕ) × (k < n)
          × (fn (k + 1) ≡ returns v)
          × ((j : ℕ) → j < k → (e : String) × (fn (j + 1) ≡ raises e)))
  unfolding try_attempts
  try_attempts-Returned fn v zero =
      (λ h. cc h, λ (k, within, there, before). absurd (omega (arith, within)))
  try_attempts-Returned fn v (suc left) = (
    λ h.
        let (k, within, there, before) = attempts_from-Returned fn v left 1 h in
        (k, omega (arith, within), there, before),
    λ (k, within, there, before).
        Returned-ran fn v left 1 (k, omega (arith, within), there, before),
  )

  -- A run of a hook gives a value exactly if one of its attempts, of which there are one and as many
  -- more as there are retries if the hook is idempotent, and none at all if that number of retries is
  -- negative, returns that value and all before it raise an exception: a timeout is not tried again.
  pub run_with_policy_ran_iff :
      (fn : HookFn A) (retries : ℤ) (idempotent : Bool) (v : HookValue A)
      → (run_with_policy fn retries idempotent ≡ ran v) ↔ (
          (k : ℕ) × (pos k ≤ℤ (if idempotent then retries else pos 0))
          × (fn (k + 1) ≡ returns v)
          × ((j : ℕ) → j < k → (e : String) × (fn (j + 1) ≡ raises e)))
  unfolding run_with_policy
  run_with_policy_ran_iff fn retries idempotent v =
      let (to, from) = try_attempts-Returned fn v (to_nat (max_attempts retries idempotent)) in
      (
        λ h.
            let (k, within, there, before) = to h in
            (k, (within_range k retries idempotent).0 within, there, before),
        λ (k, within, there, before).
            from (k, (within_range k retries idempotent).1 within, there, before),
      )
