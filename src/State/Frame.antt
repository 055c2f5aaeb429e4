-- ===== src/State/Frame.antt =====
-- What the operations of the state leave alone: the tickets in flight and the calibration.
use ns_cas.Base.{◌≡◌, refl, ◌∙◌, Bool, true, arith, if_cases}
use ns_cas.Base.Int.{ℤ, ltb_ℤ}
use ns_cas.State.{
  State, Headers, reset_class_budgets, open_window, adopt_limit, adopt_policy, adopt_remaining,
  note_headers,
}
use ns_cas.State.Spending.{
  refresh_remaining, credit_clean_window, restart_sustained, roll_sustained_window,
  can_dispatch_unlocked, can_dispatch,
}

-- Two states agree on the tickets in flight and on the calibration.
pub record Same (s t : State) : Type 0 where
  pub in_flight : t.in_flight ≡ s.in_flight
  pub calibrated : t.calibrated ≡ s.calibrated

Same-refl : (s : State) → Same s s
Same-refl s = record { in_flight = refl; calibrated = refl }

Same-trans : (s t u : State) → Same s t → Same t u → Same s u
Same-trans s t u p q = record {
  in_flight = q.in_flight ∙ p.in_flight;
  calibrated = q.calibrated ∙ p.calibrated;
}

refresh_remaining-Same : (now : ℤ) (s : State) → Same s (refresh_remaining now s).0
unfolding refresh_remaining open_window reset_class_budgets
refresh_remaining-Same now s = ground arith

roll_sustained_window-Same : (now : ℤ) (s : State) → Same s (roll_sustained_window now s)
unfolding roll_sustained_window restart_sustained credit_clean_window
roll_sustained_window-Same now s = ground arith

unlocked-Same : (now : ℤ) (s : State) → Same s (can_dispatch_unlocked now s).0
unfolding can_dispatch_unlocked
unlocked-Same now s =
    if_cases (λ (r : State × Bool). Same s r.0) s.calibrated
      (λ _.
        Same-trans s _ _ (refresh_remaining-Same now s)
          (roll_sustained_window-Same now (refresh_remaining now s).0))
      (λ _. Same-refl s)

pub can_dispatch-Same : (now : ℤ) (s : State) → Same s (can_dispatch now s).0
unfolding can_dispatch
can_dispatch-Same now s =
    if_cases (λ (r : State × Bool). Same s r.0) s.lockdown_active
      (λ _.
        if_cases (λ (r : State × Bool). Same s r.0) (ltb_ℤ now s.lockdown_until) (λ _. Same-refl s)
          (λ _.
            Same-trans s _ _ (record { in_flight = refl; calibrated = refl })
              (unlocked-Same now _)))
      (λ _. unlocked-Same now s)

pub note_headers-in_flight :
    (h : Headers) (at : ℤ) (s : State) → (note_headers h at s).0.in_flight ≡ s.in_flight
unfolding note_headers adopt_remaining adopt_limit adopt_policy open_window reset_class_budgets
note_headers-in_flight h at s = ground arith

pub note_headers-calibrated :
    (h : Headers) (at : ℤ) (s : State) → (note_headers h at s).0.calibrated ≡ true
unfolding note_headers
note_headers-calibrated h at s = refl

pub note_headers-lockdown :
    (h : Headers) (at : ℤ) (s : State)
    → let t = (note_headers h at s).0 in
      (t.lockdown_active ≡ s.lockdown_active) × (t.lockdown_until ≡ s.lockdown_until)
unfolding note_headers adopt_remaining adopt_limit adopt_policy open_window reset_class_budgets
note_headers-lockdown h at s = (ground arith, ground arith)
