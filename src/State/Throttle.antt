-- ===== src/State/Throttle.antt =====
-- What a 429 does to the quota state, and how the sustained allowance recovers.
use ns_cas.Base.{
  ℕ, ◌+◌, ◌*◌, ◌/◌, ◌^◌, ◌≤◌, ◌<◌, ◌≡◌, ◌≢◌, refl, ap, true, false, arith, ◌⊎◌, if◌then◌else◌,
}
use ns_cas.Base.Int.{ℤ, pos, ◌≤ℤ◌, ◌<ℤ◌, ltb_ℤ, ◌+ℤ◌, scale, wrap64, +ℤ_parts}
use ns_cas.State.{State, seconds}
use ns_cas.State.Spending.{
  can_dispatch, credit_clean_window, restart_sustained, roll_sustained_window,
}
use ns_cas.State.Penalties.{cut_limit, halve, note_penalty}
use ns_cas.State.Invariant.{IsValid}
use ns_cas.State.Dispatch.{can_dispatch_locked}

-- The longest window that fits a time.Duration.
abbrev pub max_window : ℕ
max_window = 9223372036

pub seconds_small : (n : ℕ) → n ≤ max_window → seconds (pos n) ≡ pos (10 ^ 9 * n)
unfolding seconds scale wrap64
seconds_small n h = ground arith

seconds_large : (n : ℕ) → max_window < n → n ≤ 2 * max_window + 1 → seconds (pos n) <ℤ pos 0
unfolding seconds scale wrap64
seconds_large n h k = ground arith

-- The window that a penalty adopts: the reported one, or the one already learned.
abbrev pub adopted_window : ℤ → State → ℤ
adopted_window retry_after s =
    if ltb_ℤ (pos 0) retry_after then retry_after else s.sustained_window_sec

-- After a penalty whose adopted window is n seconds, with n at most 9223372036, CanDispatch says
-- no at every time before the n seconds are over.
pub note_penalty_blocks :
    (retry_after at now : ℤ) (s : State) (n : ℕ)
    → adopted_window retry_after s ≡ pos n
    → n ≤ max_window
    → now <ℤ at +ℤ pos (10 ^ 9 * n)
    → (can_dispatch now (note_penalty retry_after at s).0).1 ≡ false
unfolding note_penalty
note_penalty_blocks retry_after at now s n w h early =
    ap (λ r. r.1)
      (can_dispatch_locked now (note_penalty retry_after at s).0 refl
        (rw (w, seconds_small n h) early))

-- A penalty of more than 9223372036 and at most 18446744073 seconds overflows the duration: it
-- ends before it begins.
pub note_penalty_overflow :
    (n : ℕ) (at : ℤ) (s : State)
    → max_window < n
    → n ≤ 2 * max_window + 1
    → (note_penalty (pos n) at s).0.lockdown_until <ℤ at
unfolding note_penalty
note_penalty_overflow n at s h k =
    ground (arith, seconds_large n h k, +ℤ_parts at (seconds (pos n)))

-- On a valid state, a penalty sets the sustained allowance to a half of what it was, rounded
-- down, or to the configured floor if that is more, and marks all of it as used.
pub note_penalty_cuts :
    (retry_after at : ℤ) (s : State) (n : ℕ)
    → IsValid s
    → s.sustained_limit ≡ pos n
    → let t = (note_penalty retry_after at s).0 in
      (t.sustained_used ≡ t.sustained_limit)
      × ((t.sustained_limit ≡ pos (n / 2))
          ⊎ (t.sustained_limit ≡ s.config.sustained_min_limit) × (pos (n / 2) <ℤ t.sustained_limit))
unfolding note_penalty cut_limit halve
note_penalty_cuts retry_after at s n v e = ground arith

-- On a valid state whose sustained window has been opened and is over, rolling it sets the used
-- units to 0 and clears the mark of a penalty; the allowance is as before if the window saw a
-- penalty or the allowance is at its ceiling, and one more otherwise.
pub roll_sustained_window_credit :
    (now : ℤ) (s : State)
    → IsValid s
    → s.sustained_window_end ≢ pos 0
    → s.sustained_window_end ≤ℤ now
    → let t = roll_sustained_window now s in
      (t.sustained_used ≡ pos 0)
      × (t.penalty_in_window ≡ false)
      × ((s.penalty_in_window ≡ true) × (t.sustained_limit ≡ s.sustained_limit)
          ⊎ (s.penalty_in_window ≡ false)
            × (s.sustained_limit ≡ s.config.sustained_max_limit)
            × (t.sustained_limit ≡ s.sustained_limit)
          ⊎ (s.penalty_in_window ≡ false)
            × (s.sustained_limit <ℤ s.config.sustained_max_limit)
            × (t.sustained_limit ≡ s.sustained_limit +ℤ pos 1))
unfolding roll_sustained_window restart_sustained credit_clean_window
roll_sustained_window_credit now s v started over = ground arith

-- Whenever the sustained window next rolls after a penalty, the allowance stays what the penalty
-- made it.
pub penalised_window_earns_nothing :
    (retry_after at now : ℤ) (s : State)
    → let t = (note_penalty retry_after at s).0 in
      (roll_sustained_window now t).sustained_limit ≡ t.sustained_limit
unfolding note_penalty roll_sustained_window restart_sustained credit_clean_window
penalised_window_earns_nothing retry_after at now s = ground arith

-- The record of a penalty always holds the new window as the old window too.
pub note_penalty_old_window :
    (retry_after at : ℤ) (s : State)
    → let p = (note_penalty retry_after at s).1 in p.old_window_sec ≡ p.new_window_sec
unfolding note_penalty
note_penalty_old_window retry_after at s = refl
