-- ===== src/State/Invariant.antt =====
-- Well-formedness of the quota state, under the operations of internal/state/state.go.
use ns_cas.Base.{◌≡◌, ◌⊎◌, Bool, true, false, String, arith, if◌then◌else◌, if_cases, ◌∙◌}
use ns_cas.Base.Int.{ℤ, pos, ◌≤ℤ◌, ◌<ℤ◌, ltb_ℤ, ◌+ℤ◌}
use ns_cas.Classes.{Allocation, allocate, shared_of}
use ns_cas.State.{
  State, Config, Headers, clamp_config, new, new_of, reset_class_budgets, open_window, adopt_limit,
  adopt_policy, adopt_remaining, note_headers,
}
use ns_cas.State.Spending.{
  refresh_remaining, credit_clean_window, restart_sustained, roll_sustained_window,
  can_dispatch_unlocked, can_dispatch, deduct_sustained,
}
use ns_cas.State.Penalties.{cut_limit, halve, note_penalty}

-- The limits that New leaves behind.
pub record IsConfig (c : Config) : Type 0 where
  pub bucket_pos : pos 0 <ℤ c.bucket_limit
  pub policy_pos : pos 0 <ℤ c.policy_window_sec
  pub window_pos : pos 0 <ℤ c.sustained_window_sec
  pub min_pos : pos 0 <ℤ c.sustained_min_limit
  pub min-le-limit : c.sustained_min_limit ≤ℤ c.sustained_limit
  pub limit-le-max : c.sustained_limit ≤ℤ c.sustained_max_limit

-- The sustained allowance stays between the configured floor and ceiling, and once a sustained
-- window has been opened no more than the allowance is used in it.
pub record IsValid (s : State) : Type 0 where
  pub config_valid : IsConfig s.config
  pub bucket_pos : pos 0 <ℤ s.bucket_limit
  pub policy_pos : pos 0 <ℤ s.policy_window_sec
  pub window_pos : pos 0 <ℤ s.sustained_window_sec
  pub min-le-limit : s.config.sustained_min_limit ≤ℤ s.sustained_limit
  pub limit-le-max : s.sustained_limit ≤ℤ s.config.sustained_max_limit
  pub used_nonneg : pos 0 ≤ℤ s.sustained_used
  pub used-le-limit : (s.sustained_window_end ≡ pos 0) ⊎ (s.sustained_used ≤ℤ s.sustained_limit)
  pub started_calibrated : (s.sustained_window_end ≡ pos 0) ⊎ (s.calibrated ≡ true)
  pub shared_nonneg : pos 0 ≤ℤ s.shared_remaining

-- Whatever the operator configures, New ends with a consistent configuration.
pub clamp_config-IsConfig : (c : Config) → IsConfig (clamp_config c)
unfolding clamp_config
clamp_config-IsConfig c = ground arith

new_of-IsValid : (c : Config) → IsConfig c → IsValid (new_of c)
unfolding new_of
new_of-IsValid c h = ground arith

-- Whatever the operator configures, New gives a valid state: its limits are positive, and the
-- sustained allowance lies between its floor and its ceiling.
pub new-IsValid : (c : Config) → IsValid (new c)
unfolding new
new-IsValid c = new_of-IsValid (clamp_config c) (clamp_config-IsConfig c)

shared_of_nonneg : (b : ℤ) (a : Allocation) → pos 0 ≤ℤ shared_of b a
unfolding shared_of
shared_of_nonneg b a = ground arith

pub reset_class_budgets-IsValid : (s : State) → IsValid s → IsValid (reset_class_budgets s)
unfolding reset_class_budgets
reset_class_budgets-IsValid s v =
    ground (arith, shared_of_nonneg s.bucket_limit (allocate s.bucket_limit s.demand_sum))

pub open_window-IsValid : (at : ℤ) (s : State) → IsValid s → IsValid (open_window at s)
unfolding open_window
open_window-IsValid at s v = ground arith

pub adopt_limit-IsValid : (limit : ℤ) (s : State) → IsValid s → IsValid (adopt_limit limit s)
unfolding adopt_limit
adopt_limit-IsValid limit s v = ground arith

pub adopt_policy-IsValid : (p : String) (s : State) → IsValid s → IsValid (adopt_policy p s)
unfolding adopt_policy
adopt_policy-IsValid p s v = ground arith

pub deduct_sustained-IsValid :
    (s : State)
    → IsValid s
    → (s.calibrated ≡ true → s.sustained_used <ℤ s.sustained_limit)
    → IsValid (deduct_sustained s)
unfolding deduct_sustained ◌+ℤ◌
deduct_sustained-IsValid s v h = ground arith

pub cut_limit_bounds :
    (c : Config) (limit : ℤ)
    → IsConfig c
    → c.sustained_min_limit ≤ℤ limit
    → (c.sustained_min_limit ≤ℤ cut_limit c limit) × (cut_limit c limit ≤ℤ limit)
unfolding cut_limit halve
cut_limit_bounds c limit h k = ground arith

adopt_remaining-IsValid :
    (r : ℤ) (stale : Bool) (at : ℤ) (s : State)
    → IsValid s
    → IsValid (adopt_remaining r stale at s).0
unfolding adopt_remaining open_window
adopt_remaining-IsValid r stale at s v = ground arith

calibrated-IsValid : (s : State) → IsValid s → IsValid (record s { calibrated = true })
calibrated-IsValid s v = ground arith

if-IsValid : (b : Bool) (s t : State) → IsValid s → IsValid t → IsValid (if b then s else t)
if-IsValid true s t v w = v
if-IsValid false s t v w = w

pub note_headers-IsValid :
    (h : Headers) (at : ℤ) (s : State) → IsValid s → IsValid (note_headers h at s).0
unfolding note_headers
note_headers-IsValid h at s v =
    let v₁ = adopt_policy-IsValid h.policy _ (adopt_limit-IsValid h.limit s v) in
    calibrated-IsValid _ (
      adopt_remaining-IsValid h.remaining _ at _
        (if-IsValid _ _ _ (reset_class_budgets-IsValid _ v₁) v₁))

pub refresh_remaining-IsValid :
    (now : ℤ) (s : State) → IsValid s → IsValid (refresh_remaining now s).0
unfolding refresh_remaining open_window
refresh_remaining-IsValid now s v = ground (
  arith,
  reset_class_budgets-IsValid (open_window now (record s { local_remaining = s.bucket_limit })),
)

credit_clean_window-IsValid : (s : State) → IsValid s → IsValid (credit_clean_window s)
unfolding credit_clean_window ◌+ℤ◌
credit_clean_window-IsValid s v = ground arith

restart_sustained-IsValid :
    (now : ℤ) (s : State) → s.calibrated ≡ true → IsValid s → IsValid (restart_sustained now s)
unfolding restart_sustained
restart_sustained-IsValid now s c v = ground arith

pub roll_sustained_window-IsValid :
    (now : ℤ) (s : State) → s.calibrated ≡ true → IsValid s → IsValid (roll_sustained_window now s)
unfolding roll_sustained_window credit_clean_window
roll_sustained_window-IsValid now s c v = if-IsValid _ _ _ v (
    restart_sustained-IsValid now _ (ground arith)
      (if-IsValid _ _ _ (credit_clean_window-IsValid s v) v))

pub refresh_remaining-calibrated :
    (now : ℤ) (s : State) → (refresh_remaining now s).0.calibrated ≡ s.calibrated
unfolding refresh_remaining open_window reset_class_budgets
refresh_remaining-calibrated now s = ground arith

can_dispatch_unlocked-IsValid :
    (now : ℤ) (s : State) → IsValid s → IsValid (can_dispatch_unlocked now s).0
unfolding can_dispatch_unlocked
can_dispatch_unlocked-IsValid now s v =
    if_cases (λ (r : State × Bool). IsValid r.0) s.calibrated
      (λ c.
        roll_sustained_window-IsValid now _ (refresh_remaining-calibrated now s ∙ c)
          (refresh_remaining-IsValid now s v))
      (λ _. v)

pub unlocked-IsValid :
    (s : State) → IsValid s → IsValid (record s { lockdown_active = false; window_active = false })
unlocked-IsValid s v = ground arith

-- CanDispatch keeps a valid state valid, whatever it answers.
pub can_dispatch-IsValid : (now : ℤ) (s : State) → IsValid s → IsValid (can_dispatch now s).0
unfolding can_dispatch
can_dispatch-IsValid now s v =
    if_cases (λ (r : State × Bool). IsValid r.0) s.lockdown_active
      (λ _.
        if_cases (λ (r : State × Bool). IsValid r.0) (ltb_ℤ now s.lockdown_until) (λ _. v)
          (λ _. can_dispatch_unlocked-IsValid now _ (unlocked-IsValid s v)))
      (λ _. can_dispatch_unlocked-IsValid now s v)

pub note_penalty-IsValid :
    (retry now : ℤ) (s : State)
    → s.calibrated ≡ true
    → IsValid s
    → IsValid (note_penalty retry now s).0
unfolding note_penalty
note_penalty-IsValid retry now s c v = ground (arith, cut_limit_bounds s.config s.sustained_limit)
