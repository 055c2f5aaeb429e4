-- ===== src/Examples/Quota.antt =====
-- Runs of the quota state, the class split, the rounding and the policy parser.
use ns_cas.Base.{ℕ, ◌≡◌, refl, true, false, String, List, [], ◌∷◌, ◌++◌, some, arith, inl, inr, ◌⊎◌}
use ns_cas.Base.Int.{ℤ, pos, ◌<ℤ◌, ◌≤ℤ◌, int_laws, wrap64, IsInt64, ◌-ℤ◌, ◌+ℤ◌}
use ns_cas.Classes.{allocate}
use ns_cas.Classes.Split.{IsSplit, allocate-IsSplit}
use ns_cas.Classes.Exact.{IsExact, allocate-IsExact}
use ns_cas.Policy.{parse_policy_window, nonempty_value, digits_value}
use ns_cas.Policy.Laws.{AllDigits, parse_policy_window-policy}
use ns_cas.State.{
  Headers, note_headers, seconds, policy_window, reset_class_budgets, adopt_policy, adopt_limit,
}
use ns_cas.State.Spending.{
  can_dispatch, roll_sustained_window, can_dispatch_unlocked, refresh_remaining, has_budget,
  restart_sustained, credit_clean_window,
}
use ns_cas.State.Penalties.{note_penalty}
use ns_cas.State.Recovery.{can_dispatch_recovers}
use ns_cas.State.Throttle.{note_penalty_blocks, note_penalty_overflow, roll_sustained_window_credit}
use ns_cas.State.Window.{
  note_headers_same_window, note_headers_remaining, adopted_limit, note_headers_new_window,
  note_headers_refill,
}
use ns_cas.Examples.Data.{ready, ready-IsValid, at_10}

abbrev demands : String → ℤ
demands _ = pos 60

allocate-IsSplit_example : IsSplit 90 demands (allocate (pos 90) demands)
allocate-IsSplit_example = allocate-IsSplit 90 demands (omega arith)

allocate-IsExact_example : IsExact 90 demands (allocate (pos 90) demands)
allocate-IsExact_example = allocate-IsExact 90 demands (omega arith)

ready_grants : (can_dispatch at_10 ready).1 ≡ true
unfolding can_dispatch can_dispatch_unlocked refresh_remaining roll_sustained_window
    restart_sustained credit_clean_window has_budget wrap64 ◌-ℤ◌
ready_grants = refl

-- All windows of `ready` have run out at 1000 s.
abbrev late : ℤ
late = pos 1000000000000

ready_room : IsInt64 (pos 50 -ℤ pos 0)
ready_room = (omega int_laws, omega int_laws)

can_dispatch_recovers_example : (can_dispatch late ready).1 ≡ true
can_dispatch_recovers_example =
    can_dispatch_recovers late ready ready-IsValid refl
      (record { lockdown = inl refl; window = inr omega int_laws; sustained = omega int_laws })
      (omega int_laws) ready_room

note_penalty_blocks_example :
    (can_dispatch (pos 500) (note_penalty (pos 60) at_10 ready).0).1 ≡ false
note_penalty_blocks_example =
    note_penalty_blocks (pos 60) at_10 (pos 500) ready 60 refl (omega arith) (omega int_laws)

note_penalty_overflow_example :
    (note_penalty (pos 9223372037) at_10 ready).0.lockdown_until <ℤ at_10
note_penalty_overflow_example =
    note_penalty_overflow 9223372037 at_10 ready (omega arith) (omega arith)

roll_sustained_window_credit_example :
    let t = roll_sustained_window late ready in
    (t.sustained_used ≡ pos 0)
    × (t.penalty_in_window ≡ false)
    × ((ready.penalty_in_window ≡ true) × (t.sustained_limit ≡ pos 300)
        ⊎ (ready.penalty_in_window ≡ false) × (pos 300 ≡ pos 1200) × (t.sustained_limit ≡ pos 300)
        ⊎ (ready.penalty_in_window ≡ false)
          × (pos 300 <ℤ pos 1200)
          × (t.sustained_limit ≡ pos 300 +ℤ pos 1))
roll_sustained_window_credit_example =
    roll_sustained_window_credit late ready ready-IsValid (λ e. ground (arith, e)) (omega int_laws)

abbrev headers : ℤ → Headers
headers n = record { limit = pos 50; policy = "50;w=30"; remaining = n; reset_sec = pos 20 }

note_headers_new_window_example :
    let (t, opened) = note_headers (headers (pos 39)) late ready in
    let fresh = reset_class_budgets (adopt_policy "50;w=30" (adopt_limit (pos 50) ready)) in
    (opened ≡ true)
    × (t.window_start_time ≡ late)
    × (t.window_end_time ≡ late +ℤ seconds (policy_window t))
    × (t.class_remaining ≡ fresh.class_remaining)
    × (t.shared_remaining ≡ fresh.shared_remaining)
note_headers_new_window_example =
    note_headers_new_window (headers (pos 39)) late ready refl (omega int_laws) (omega int_laws)

note_headers_refill_example :
    let (t, opened) = note_headers (headers (pos 45)) at_10 ready in
    (opened ≡ true)
    × (t.window_start_time ≡ at_10)
    × (t.class_remaining ≡ ready.class_remaining)
    × (t.shared_remaining ≡ ready.shared_remaining)
    × (t.demand_sum ≡ ready.demand_sum)
note_headers_refill_example =
    note_headers_refill (headers (pos 45)) at_10 ready refl (refl, omega int_laws) (omega int_laws)
      (omega int_laws) (omega int_laws)

-- The header tells of more than its own limit.
note_headers_remaining_example :
    let t = (note_headers (headers (pos 60)) at_10 ready).0 in
    (t.calibrated ≡ true)
    × (t.bucket_limit ≡ adopted_limit (headers (pos 60)) ready)
    × (t.local_remaining ≤ℤ t.bucket_limit)
    × ((t.local_remaining ≡ pos 60)
        ⊎ (t.local_remaining ≡ t.bucket_limit) × (t.bucket_limit <ℤ pos 60))
note_headers_remaining_example =
    note_headers_remaining (headers (pos 60)) at_10 ready (omega int_laws)

note_headers_same_window_example :
    let (t, opened) = note_headers (headers (pos 30)) at_10 ready in
    (opened ≡ false)
    × (t.window_start_time ≡ ready.window_start_time)
    × (t.window_end_time ≡ ready.window_end_time)
    × (t.window_opened ≡ ready.window_opened)
    × (t.class_remaining ≡ ready.class_remaining)
    × (t.shared_remaining ≡ ready.shared_remaining)
note_headers_same_window_example =
    note_headers_same_window (headers (pos 30)) at_10 ready refl (refl, omega int_laws)
      (omega int_laws)

abbrev fifty : List ℕ
fifty = 53 ∷ 48 ∷ []

abbrev thirty : List ℕ
thirty = 51 ∷ 48 ∷ []

fifty_digits : AllDigits fifty
fifty_digits = (omega arith, omega arith, (omega arith, omega arith, tt))

thirty_digits : AllDigits thirty
thirty_digits = (omega arith, omega arith, (omega arith, omega arith, tt))

thirty_value : nonempty_value thirty ≡ some 30
unfolding digits_value
thirty_value = refl

parse_policy_window-policy_example : parse_policy_window (fifty ++ 59 ∷ 119 ∷ 61 ∷ thirty) ≡ pos 30
parse_policy_window-policy_example =
    parse_policy_window-policy fifty thirty fifty_digits thirty_digits thirty_value (omega arith)
      (omega arith)
