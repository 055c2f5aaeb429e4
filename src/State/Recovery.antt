-- ===== src/State/Recovery.antt =====
-- CanDispatch of internal/state/state.go when every window has run out and no report comes in.
use ns_cas.Base.{◌≡◌, refl, ◌∙◌, Bool, true, false, arith, if_cases, ◌⊎◌, inl}
use ns_cas.Base.Int.{ℤ, pos, ◌≤ℤ◌, ◌<ℤ◌, ltb_ℤ, ◌+ℤ◌, ◌-ℤ◌, wrap64-of_IsInt64, IsInt64, -ℤ_parts}
use ns_cas.State.{State, reset_class_budgets, open_window}
use ns_cas.State.Spending.{
  refresh_remaining, credit_clean_window, restart_sustained, roll_sustained_window,
  can_dispatch_unlocked, can_dispatch, has_budget,
}
use ns_cas.State.Invariant.{IsValid, refresh_remaining-IsValid, unlocked-IsValid}

-- Every window that could hold dispatch back has ended by `now`.
pub record Expired (now : ℤ) (s : State) : Type 0 where
  pub lockdown : (s.lockdown_active ≡ false) ⊎ (s.lockdown_until ≤ℤ now)
  pub window : (s.window_active ≡ false) ⊎ (s.window_end_time ≤ℤ now)
  pub sustained : s.sustained_window_end ≤ℤ now

refresh_stale :
    (now : ℤ) (s : State)
    → (s.window_active ≡ false) ⊎ (s.window_end_time ≤ℤ now)
    → let t = (refresh_remaining now s).0 in
      (t.local_remaining ≡ s.bucket_limit)
      × (t.in_flight ≡ s.in_flight)
      × (t.sustained_window_end ≡ s.sustained_window_end)
unfolding refresh_remaining open_window reset_class_budgets
refresh_stale now s h = ground arith

roll_over :
    (now : ℤ) (s : State)
    → IsValid s
    → s.sustained_window_end ≤ℤ now
    → let t = roll_sustained_window now s in
      (t.sustained_used ≡ pos 0)
      × (pos 0 <ℤ t.sustained_limit)
      × (t.local_remaining ≡ s.local_remaining)
      × (t.in_flight ≡ s.in_flight)
unfolding roll_sustained_window restart_sustained credit_clean_window ◌+ℤ◌
roll_over now s v h = ground arith

has_budget_of :
    (s : State)
    → s.sustained_used ≡ pos 0
    → pos 0 <ℤ s.sustained_limit
    → s.in_flight <ℤ s.local_remaining
    → IsInt64 (s.local_remaining -ℤ s.in_flight)
    → has_budget s ≡ true
unfolding has_budget
has_budget_of s u l b i =
    rw (wrap64-of_IsInt64 (s.local_remaining -ℤ s.in_flight) i)
      (ground (arith, -ℤ_parts s.local_remaining s.in_flight))

unlocked_recovers :
    (now : ℤ) (s : State)
    → IsValid s
    → s.calibrated ≡ true
    → (s.window_active ≡ false) ⊎ (s.window_end_time ≤ℤ now)
    → s.sustained_window_end ≤ℤ now
    → s.in_flight <ℤ s.bucket_limit
    → IsInt64 (s.bucket_limit -ℤ s.in_flight)
    → (can_dispatch_unlocked now s).1 ≡ true
unfolding can_dispatch_unlocked
unlocked_recovers now s v c w e b i =
    let r = (refresh_remaining now s).0 in
    let (local, flight, ends) = refresh_stale now s w in
    let (used, limit, local', flight') =
      roll_over now r (refresh_remaining-IsValid now s v) (rw ends e) in
    if_cases (λ (p : State × Bool). p.1 ≡ true) s.calibrated
      (λ _.
        has_budget_of _ used limit (rw (local' ∙ local, flight' ∙ flight) b)
          (rw (local' ∙ local, flight' ∙ flight) i))
      (λ u. cc)

-- A valid, calibrated state does not wedge: once the penalty, the burst window and the sustained
-- window have all run out, CanDispatch says yes with no report coming in, provided that fewer
-- tickets are in flight than the burst limit and that their difference fits an int.
pub can_dispatch_recovers :
    (now : ℤ) (s : State)
    → IsValid s
    → s.calibrated ≡ true
    → Expired now s
    → s.in_flight <ℤ s.bucket_limit
    → IsInt64 (s.bucket_limit -ℤ s.in_flight)
    → (can_dispatch now s).1 ≡ true
unfolding can_dispatch
can_dispatch_recovers now s v c x b i =
    if_cases (λ (p : State × Bool). p.1 ≡ true) s.lockdown_active
      (λ locked.
        if_cases (λ (p : State × Bool). p.1 ≡ true) (ltb_ℤ now s.lockdown_until)
          (λ early. absurd (ground (arith, x.lockdown)))
          (λ _. unlocked_recovers now _ (unlocked-IsValid s v) c (inl refl) x.sustained b i))
      (λ _. unlocked_recovers now s v c x.window x.sustained b i)
