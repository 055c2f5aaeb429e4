-- ===== src/State/Dispatch.antt =====
-- When CanDispatch of internal/state/state.go lets a ticket go.
use ns_cas.Base.{◌≡◌, refl, ◌∙◌, Bool, true, false, arith, if_cases}
use ns_cas.Base.Int.{ℤ, pos, ◌<ℤ◌, ltb_ℤ, ◌-ℤ◌, wrap64}
use ns_cas.State.{State, reset_class_budgets, open_window}
use ns_cas.State.Spending.{
  refresh_remaining, credit_clean_window, restart_sustained, roll_sustained_window,
  can_dispatch_unlocked, can_dispatch, has_budget,
}

-- What a grant may rely on: no penalty is being served, the sustained allowance is not used up, and
-- the reported budget exceeds the tickets in flight, in int64 arithmetic.
pub record CanGrant (s : State) : Type 0 where
  pub unlocked : s.lockdown_active ≡ false
  pub sustained : s.sustained_used <ℤ s.sustained_limit
  pub burst : pos 0 <ℤ wrap64 (s.local_remaining -ℤ s.in_flight)

has_budget-CanGrant : (s : State) → s.lockdown_active ≡ false → has_budget s ≡ true → CanGrant s
unfolding has_budget
has_budget-CanGrant s free h = record {
  unlocked = free;
  sustained = ground arith;
  burst = ground arith;
}

roll_unlocked :
    (now : ℤ) (s : State)
    → (roll_sustained_window now (refresh_remaining now s).0).lockdown_active ≡ s.lockdown_active
unfolding roll_sustained_window restart_sustained credit_clean_window refresh_remaining open_window
    reset_class_budgets
roll_unlocked now s = ground arith

abbrev Grants : State × Bool → Type 0
Grants r = r.1 ≡ true → CanGrant r.0

can_dispatch_unlocked-CanGrant :
    (now : ℤ) (s : State)
    → s.calibrated ≡ true
    → s.lockdown_active ≡ false
    → Grants (can_dispatch_unlocked now s)
unfolding can_dispatch_unlocked
can_dispatch_unlocked-CanGrant now s c free =
    if_cases Grants s.calibrated (λ _ ok. has_budget-CanGrant _ (roll_unlocked now s ∙ free) ok)
      (λ u ok. cc)

-- On a calibrated state, CanDispatch says yes only if, in the state that it leaves, no penalty is
-- served, less than the sustained allowance is used, and the remaining budget exceeds the tickets
-- in flight.
pub can_dispatch-CanGrant :
    (now : ℤ) (s : State)
    → s.calibrated ≡ true
    → (can_dispatch now s).1 ≡ true
    → CanGrant (can_dispatch now s).0
unfolding can_dispatch
can_dispatch-CanGrant now s c =
    if_cases Grants s.lockdown_active
      (λ _.
        if_cases Grants (ltb_ℤ now s.lockdown_until) (λ _ ok. cc)
          (λ _. can_dispatch_unlocked-CanGrant now _ c refl))
      (λ free. can_dispatch_unlocked-CanGrant now s c free)

-- While a penalty is served, CanDispatch says no and changes nothing.
pub can_dispatch_locked :
    (now : ℤ) (s : State)
    → s.lockdown_active ≡ true
    → now <ℤ s.lockdown_until
    → can_dispatch now s ≡ (s, false)
unfolding can_dispatch
can_dispatch_locked now s locked early = ground arith
