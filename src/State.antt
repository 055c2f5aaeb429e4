-- ===== src/State.antt =====
-- The quota state of internal/state/state.go. Times are nanoseconds from Go's zero time, so
-- IsZero is equality with 0; a method that reads time.Now takes the reading as an argument. A
-- method that mutates *State returns the new record. Counters that move by one for each grant or
-- report are unbounded; a duration in seconds wraps to 64 bits when it becomes nanoseconds.
use ns_cas.Base.{
  ℕ, ◌+◌, ◌*◌, ◌^◌, Bool, true, false, ◌&&◌, ◌||◌, not, String, Option, some, none, ◌/◌,
  if◌then◌else◌,
}
use ns_cas.Base.Int.{ℤ, pos, negsuc, ◌+ℤ◌, ◌-ℤ◌, ltb_ℤ, leb_ℤ, eqb_ℤ, scale, wrap64, sub_ℕ}
use ns_cas.Classes.{Allocation, allocate, shared_of, update}
use ns_cas.Policy.{codes, parse_policy_window}
pub mod Spending
pub mod Penalties
pub mod Invariant
pub mod Dispatch
pub mod Recovery
pub mod Throttle
pub mod Window
pub mod Frame

abbrev pub ticket_expiry_threshold : ℤ
ticket_expiry_threshold = pos (10 * 10 ^ 9)

pub record Config : Type 0 where
  pub bucket_limit : ℤ
  pub policy_window_sec : ℤ
  pub sustained_limit : ℤ
  pub sustained_window_sec : ℤ
  pub sustained_min_limit : ℤ
  pub sustained_max_limit : ℤ

unfoldable pub default_config : Config
default_config = record {
  bucket_limit = pos 50;
  policy_window_sec = pos 30;
  sustained_limit = pos 300;
  sustained_window_sec = pos 900;
  sustained_min_limit = pos 25;
  sustained_max_limit = pos 1200;
}

pub record Headers : Type 0 where
  pub limit : ℤ
  pub policy : String
  pub remaining : ℤ
  pub reset_sec : ℤ

-- State, less the mutex and the ticket map (which the engine's record holds).
pub record State : Type 0 where
  pub config : Config
  pub bucket_limit : ℤ
  pub local_remaining : ℤ
  pub in_flight : ℤ
  pub policy_window_sec : ℤ
  pub calibrated : Bool
  pub window_active : Bool
  pub window_start_time : ℤ
  pub window_end_time : ℤ
  pub sustained_window_sec : ℤ
  pub sustained_limit : ℤ
  pub sustained_window_end : ℤ
  pub sustained_used : ℤ
  pub penalty_in_window : Bool
  pub penalties : ℤ
  pub lockdown_active : Bool
  pub lockdown_until : ℤ
  pub window_opened : Bool
  pub demand_sum : String → ℤ
  pub class_remaining : String → ℤ
  pub shared_remaining : ℤ

-- The clamps at the head of New, in their order.
abbrev pub default_to : ℤ → ℤ → ℤ
default_to d v = if leb_ℤ v (pos 0) then d else v

unfoldable pub clamp_config : Config → Config
clamp_config c =
    let least = default_to (pos 1) c.sustained_min_limit in
    let most = if ltb_ℤ c.sustained_max_limit least then least else c.sustained_max_limit in
    let start = default_to (pos 1) c.sustained_limit in
    let raised = if ltb_ℤ start least then least else start in
    record {
      bucket_limit = default_to (pos 50) c.bucket_limit;
      policy_window_sec = default_to (pos 30) c.policy_window_sec;
      sustained_limit = if ltb_ℤ most raised then most else raised;
      sustained_window_sec = default_to (pos 900) c.sustained_window_sec;
      sustained_min_limit = least;
      sustained_max_limit = most;
    }

abbrev pub empty_counts : String → ℤ
empty_counts _ = pos 0

unfoldable pub new_of : Config → State
new_of c = record {
  config = c;
  bucket_limit = c.bucket_limit;
  local_remaining = pos 1;
  in_flight = pos 0;
  policy_window_sec = c.policy_window_sec;
  calibrated = false;
  window_active = false;
  window_start_time = pos 0;
  window_end_time = pos 0;
  sustained_window_sec = c.sustained_window_sec;
  sustained_limit = c.sustained_limit;
  sustained_window_end = pos 0;
  sustained_used = pos 0;
  penalty_in_window = false;
  penalties = pos 0;
  lockdown_active = false;
  lockdown_until = pos 0;
  window_opened = false;
  demand_sum = empty_counts;
  class_remaining = empty_counts;
  shared_remaining = c.bucket_limit;
}

unfoldable pub new : Config → State
new c = new_of (clamp_config c)

-- time.Duration(n) * time.Second.
unfoldable pub seconds : ℤ → ℤ
seconds n = wrap64 (scale (10 ^ 9) n)

unfoldable pub policy_window : State → ℤ
policy_window s =
    if ltb_ℤ (pos 0) s.policy_window_sec then s.policy_window_sec else s.config.policy_window_sec

unfoldable pub reset_class_budgets : State → State
reset_class_budgets s =
    let a = allocate s.bucket_limit s.demand_sum in
    record s {
      demand_sum = empty_counts;
      class_remaining = a.remaining;
      shared_remaining = shared_of s.bucket_limit a;
    }

-- The window that a fresh figure opens, from `at` for the length of the policy window.
unfoldable pub open_window : ℤ → State → State
open_window at s = record s {
  window_active = true;
  window_start_time = at;
  window_end_time = at +ℤ seconds (policy_window s);
  window_opened = true;
}

-- The parts of NoteHeaders, in order: the limit, the policy, the stale view, the remaining figure.
unfoldable pub adopt_limit : ℤ → State → State
adopt_limit limit s = if ltb_ℤ (pos 0) limit then record s { bucket_limit = limit } else s

unfoldable pub adopt_policy : String → State → State
adopt_policy policy s =
    let w = parse_policy_window (codes policy) in
    if ltb_ℤ (pos 0) w then record s { policy_window_sec = w } else s

unfoldable pub was_stale : State → ℤ → Bool
was_stale s at = s.window_active && not (ltb_ℤ at s.window_end_time)

unfoldable pub clamp_remaining : ℤ → ℤ → ℤ
clamp_remaining limit remaining = if ltb_ℤ limit remaining then limit else remaining

unfoldable pub adopt_remaining : ℤ → Bool → ℤ → State → State × Bool
adopt_remaining reported stale at s =
    let remaining = clamp_remaining s.bucket_limit reported in
    let opened = not s.window_active || stale || ltb_ℤ s.local_remaining remaining in
    let t = record s { local_remaining = remaining } in
    if ltb_ℤ reported (pos 0) then (s, false) else (if opened then open_window at t else t, opened)

unfoldable pub note_headers : Headers → ℤ → State → State × Bool
note_headers h at s =
    let s₁ = adopt_policy h.policy (adopt_limit h.limit s) in
    let stale = was_stale s₁ at in
    let s₂ = if not s₁.calibrated || stale then reset_class_budgets s₁ else s₁ in
    let (s₃, opened) = adopt_remaining h.remaining stale at s₂ in
    (record s₃ { calibrated = true }, opened)

unfoldable pub consume_window_opened : State → State × Bool
consume_window_opened s = (record s { window_opened = false }, s.window_opened)
