-- ===== src/Safety/Budget.antt =====
-- The remaining budget of internal/state/state.go and the tickets in flight of
-- internal/handlers/engine.go between two reports.
use ns_cas.Base.{ℕ, ◌^◌, ◌≡◌, subst, Bool, true, String, Option, none, some, arith, if_cases}
use ns_cas.Base.Int.{ℤ, pos, ◌+ℤ◌, ◌-ℤ◌, ◌≤ℤ◌, ◌<ℤ◌, ltb_ℤ, wrap64, wrap64-of_IsInt64, int_laws}
use ns_cas.State.{State, reset_class_budgets, open_window}
use ns_cas.State.Spending.{
  refresh_remaining, credit_clean_window, restart_sustained, roll_sustained_window,
  can_dispatch_unlocked, can_dispatch, deduct_sustained, deduct_class_quota, deduct_shared,
  has_class_quota, has_shared_quota,
}
use ns_cas.State.Dispatch.{CanGrant}
use ns_cas.Engine.{count_grant}
use ns_cas.Dispatcher.{pay_quota}

-- A calibrated state whose tickets in flight are within the remaining budget, and that within the
-- burst limit, a number of 64 bits.
pub record IsCovered (s : State) : Type 0 where
  pub calibrated : s.calibrated ≡ true
  pub nonneg : pos 0 ≤ℤ s.in_flight
  pub flight : s.in_flight ≤ℤ s.local_remaining
  pub remaining : s.local_remaining ≤ℤ s.bucket_limit
  pub limit : s.bucket_limit <ℤ pos (2 ^ 63)

refresh_remaining-IsCovered :
    (now : ℤ) (s : State) → IsCovered s → IsCovered (refresh_remaining now s).0
unfolding refresh_remaining open_window reset_class_budgets
refresh_remaining-IsCovered now s c = ground arith

roll_sustained_window-IsCovered :
    (now : ℤ) (s : State) → IsCovered s → IsCovered (roll_sustained_window now s)
unfolding roll_sustained_window restart_sustained credit_clean_window
roll_sustained_window-IsCovered now s c = ground arith

unlocked-IsCovered : (now : ℤ) (s : State) → IsCovered s → IsCovered (can_dispatch_unlocked now s).0
unfolding can_dispatch_unlocked
unlocked-IsCovered now s c =
    if_cases (λ (r : State × Bool). IsCovered r.0) s.calibrated
      (λ _. roll_sustained_window-IsCovered now _ (refresh_remaining-IsCovered now s c)) (λ _. c)

pub can_dispatch-IsCovered : (now : ℤ) (s : State) → IsCovered s → IsCovered (can_dispatch now s).0
unfolding can_dispatch
can_dispatch-IsCovered now s c =
    if_cases (λ (r : State × Bool). IsCovered r.0) s.lockdown_active
      (λ _.
        if_cases (λ (r : State × Bool). IsCovered r.0) (ltb_ℤ now s.lockdown_until) (λ _. c)
          (λ _. unlocked-IsCovered now _ (record {
            calibrated = c.calibrated;
            nonneg = c.nonneg;
            flight = c.flight;
            remaining = c.remaining;
            limit = c.limit;
          })))
      (λ _. unlocked-IsCovered now s c)

-- A positive difference of int64 is one.
room_for_one :
    (a b : ℤ)
    → pos 0 ≤ℤ b
    → b ≤ℤ a
    → a <ℤ pos (2 ^ 63)
    → pos 0 <ℤ wrap64 (a -ℤ b)
    → (b +ℤ pos 1) ≤ℤ a
room_for_one a b h k l w =
    let difference =
      subst (λ d. pos 0 <ℤ d) (wrap64-of_IsInt64 (a -ℤ b) (omega int_laws, omega int_laws)) w in
    omega (int_laws, difference)

pub count_grant-IsCovered : (s : State) → CanGrant s → IsCovered s → IsCovered (count_grant s)
unfolding count_grant deduct_sustained
count_grant-IsCovered s g c = record {
  calibrated = c.calibrated;
  nonneg = omega (int_laws, c.nonneg);
  flight =
      room_for_one s.local_remaining s.in_flight c.nonneg c.flight
        (omega (int_laws, c.remaining, c.limit)) g.burst;
  remaining = c.remaining;
  limit = c.limit;
}

-- Tickets that are given back.
pub give_back-IsCovered :
    (s : State) (n : ℕ)
    → pos 0 ≤ℤ (s.in_flight -ℤ pos n)
    → IsCovered s
    → IsCovered (record s { in_flight = s.in_flight -ℤ pos n })
give_back-IsCovered s n h c = record {
  calibrated = c.calibrated;
  nonneg = h;
  flight = omega (int_laws, c.flight);
  remaining = c.remaining;
  limit = c.limit;
}

pub charged_back : (s : State) → IsCovered s → pos 0 ≤ℤ ((count_grant s).in_flight -ℤ pos 1)
unfolding count_grant deduct_sustained
charged_back s c = omega (int_laws, c.nonneg)

abbrev pub IsPaidFor : Option State → Type 0
IsPaidFor none = Unit
IsPaidFor (some t) = IsCovered t × CanGrant t

pub pay_quota-IsPaidFor :
    (class : String) (s : State) → CanGrant s → IsCovered s → IsPaidFor (pay_quota class s)
unfolding pay_quota deduct_class_quota deduct_shared
pay_quota-IsPaidFor class s g c =
    if_cases IsPaidFor (has_class_quota s class)
      (λ _. (
        record {
          calibrated = c.calibrated;
          nonneg = c.nonneg;
          flight = c.flight;
          remaining = c.remaining;
          limit = c.limit;
        },
        record { unlocked = g.unlocked; sustained = g.sustained; burst = g.burst },
      ))
      (λ _.
        if_cases IsPaidFor (has_shared_quota s)
          (λ _. (
            record {
              calibrated = c.calibrated;
              nonneg = c.nonneg;
              flight = c.flight;
              remaining = c.remaining;
              limit = c.limit;
            },
            record { unlocked = g.unlocked; sustained = g.sustained; burst = g.burst },
          ))
          (λ _. tt))
