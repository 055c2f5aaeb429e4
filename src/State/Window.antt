-- ===== src/State/Window.antt =====
-- How the headers of a response move the state's view of the burst budget.
use ns_cas.Base.{◌≡◌, true, false, arith, ◌⊎◌, if◌then◌else◌}
use ns_cas.Base.Int.{ℤ, pos, ◌≤ℤ◌, ◌<ℤ◌, ltb_ℤ, ◌+ℤ◌}
use ns_cas.State.{
  State, Headers, seconds, policy_window, reset_class_budgets, open_window, adopt_limit,
  adopt_policy, was_stale, clamp_remaining, adopt_remaining, note_headers,
}

-- The view of the remaining budget is still fresh at a time.
abbrev pub IsFresh : State → ℤ → Type 0
IsFresh s at = (s.window_active ≡ true) × (at <ℤ s.window_end_time)

-- The allowance after the headers: theirs, if it is positive.
abbrev pub adopted_limit : Headers → State → ℤ
adopted_limit h s = if ltb_ℤ (pos 0) h.limit then h.limit else s.bucket_limit

-- A report with a remaining figure of at least 0 leaves the state calibrated, with the burst
-- limit of the headers if that is positive and the one held otherwise, and with the remaining
-- figure of the headers, or the burst limit if that is less.
pub note_headers_remaining :
    (h : Headers) (at : ℤ) (s : State)
    → pos 0 ≤ℤ h.remaining
    → let t = (note_headers h at s).0 in
      (t.calibrated ≡ true)
      × (t.bucket_limit ≡ adopted_limit h s)
      × (t.local_remaining ≤ℤ t.bucket_limit)
      × ((t.local_remaining ≡ h.remaining)
          ⊎ (t.local_remaining ≡ t.bucket_limit) × (t.bucket_limit <ℤ h.remaining))
unfolding note_headers adopt_remaining adopt_limit adopt_policy clamp_remaining was_stale
    reset_class_budgets open_window
note_headers_remaining h at s r = ground arith

-- On a calibrated state within a fresh window, a report whose remaining figure is no more than
-- the one held opens no window, and leaves the start and end of the window, the mark that one was
-- opened, and the class and shared budgets as they were.
pub note_headers_same_window :
    (h : Headers) (at : ℤ) (s : State)
    → s.calibrated ≡ true
    → IsFresh s at
    → h.remaining ≤ℤ s.local_remaining
    → let (t, opened) = note_headers h at s in
      (opened ≡ false)
      × (t.window_start_time ≡ s.window_start_time)
      × (t.window_end_time ≡ s.window_end_time)
      × (t.window_opened ≡ s.window_opened)
      × (t.class_remaining ≡ s.class_remaining)
      × (t.shared_remaining ≡ s.shared_remaining)
unfolding note_headers adopt_remaining adopt_limit adopt_policy clamp_remaining was_stale
    reset_class_budgets open_window
note_headers_same_window h at s c f r = ground arith

-- On a state whose window is over, a report with a remaining figure of at least 0 opens a window
-- at the time of the response, for the length of the policy window, and the class and shared
-- budgets are those of a new split by the limit and policy of the headers.
pub note_headers_new_window :
    (h : Headers) (at : ℤ) (s : State)
    → s.window_active ≡ true
    → s.window_end_time ≤ℤ at
    → pos 0 ≤ℤ h.remaining
    → let (t, opened) = note_headers h at s in
      let fresh = reset_class_budgets (adopt_policy h.policy (adopt_limit h.limit s)) in
      (opened ≡ true)
      × (t.window_start_time ≡ at)
      × (t.window_end_time ≡ at +ℤ seconds (policy_window t))
      × (t.class_remaining ≡ fresh.class_remaining)
      × (t.shared_remaining ≡ fresh.shared_remaining)
unfolding note_headers adopt_remaining clamp_remaining was_stale open_window reset_class_budgets
    adopt_policy adopt_limit policy_window
note_headers_new_window h at s w e r = ground arith

-- On a calibrated state within a fresh window, a report with a higher remaining figure, of at
-- least 0, opens a window at the time of the response if the figure held is also less than the
-- limit adopted, but leaves the class budgets, the shared budget and the demand as they were.
pub note_headers_refill :
    (h : Headers) (at : ℤ) (s : State)
    → s.calibrated ≡ true
    → IsFresh s at
    → s.local_remaining <ℤ h.remaining
    → pos 0 ≤ℤ h.remaining
    → s.local_remaining <ℤ adopted_limit h s
    → let (t, opened) = note_headers h at s in
      (opened ≡ true)
      × (t.window_start_time ≡ at)
      × (t.class_remaining ≡ s.class_remaining)
      × (t.shared_remaining ≡ s.shared_remaining)
      × (t.demand_sum ≡ s.demand_sum)
unfolding note_headers adopt_remaining clamp_remaining was_stale open_window adopt_policy
    adopt_limit
note_headers_refill h at s c f r p q = ground arith
