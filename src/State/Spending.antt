-- ===== src/State/Spending.antt =====
-- How internal/state/state.go spends the budget: the refill of a stale view, the sustained window,
-- CanDispatch, and what a grant deducts.
use ns_cas.Base.{Bool, true, false, ◌&&◌, not, String, if◌then◌else◌}
use ns_cas.Base.Int.{ℤ, pos, ◌+ℤ◌, ◌-ℤ◌, ltb_ℤ, leb_ℤ, eqb_ℤ, wrap64}
use ns_cas.Classes.{update}
use ns_cas.State.{State, seconds, open_window, reset_class_budgets}

unfoldable pub refresh_remaining : ℤ → State → State × Bool
refresh_remaining now s = if s.window_active && ltb_ℤ now s.window_end_time then (s, false) else (
  reset_class_budgets (open_window now (record s { local_remaining = s.bucket_limit })),
  true,
)

unfoldable pub credit_clean_window : State → State
credit_clean_window s =
    if ltb_ℤ s.sustained_limit s.config.sustained_max_limit
    then record s { sustained_limit = s.sustained_limit +ℤ pos 1 }
    else s

unfoldable pub restart_sustained : ℤ → State → State
restart_sustained now s = record s {
  penalty_in_window = false;
  sustained_used = pos 0;
  sustained_window_end = now +ℤ seconds s.sustained_window_sec;
}

unfoldable pub roll_sustained_window : ℤ → State → State
roll_sustained_window now s =
    let started = not (eqb_ℤ s.sustained_window_end (pos 0)) in
    if started && ltb_ℤ now s.sustained_window_end
    then s
    else restart_sustained now
        (if started && not s.penalty_in_window then credit_clean_window s else s)

unfoldable pub has_budget : State → Bool
has_budget s =
    not (leb_ℤ s.sustained_limit s.sustained_used)
    && ltb_ℤ (pos 0) (wrap64 (s.local_remaining -ℤ s.in_flight))

-- CanDispatch after the lockdown has been looked at.
unfoldable pub can_dispatch_unlocked : ℤ → State → State × Bool
can_dispatch_unlocked now s =
    let t = roll_sustained_window now (refresh_remaining now s).0 in
    if s.calibrated then (t, has_budget t) else (s, ltb_ℤ (pos 0) s.local_remaining)

unfoldable pub can_dispatch : ℤ → State → State × Bool
can_dispatch now s =
    if s.lockdown_active
    then if ltb_ℤ now s.lockdown_until
      then (s, false)
      else can_dispatch_unlocked now (record s { lockdown_active = false; window_active = false })
    else can_dispatch_unlocked now s

unfoldable pub deduct_sustained : State → State
deduct_sustained s = record s { sustained_used = s.sustained_used +ℤ pos 1 }

unfoldable pub has_class_quota : State → String → Bool
has_class_quota s class = ltb_ℤ (pos 0) (s.class_remaining class)

unfoldable pub deduct_class_quota : String → State → State
deduct_class_quota class s = record s {
  class_remaining = update s.class_remaining class (s.class_remaining class -ℤ pos 1);
}

unfoldable pub has_shared_quota : State → Bool
has_shared_quota s = ltb_ℤ (pos 0) s.shared_remaining

unfoldable pub deduct_shared : State → State
deduct_shared s = record s { shared_remaining = s.shared_remaining -ℤ pos 1 }
