-- ===== src/Classes/Split.antt =====
-- The bounds of the split of one window's allowance (ResetClassBudgets in
-- internal/state/state.go).
use ns_cas.Base.{ℕ, ◌*◌, ◌/◌, ◌^◌, ◌<◌, ◌≡◌, true, String, Bool-cases, inl, inr}
use ns_cas.Base.Int.{ℤ, pos, ◌+ℤ◌, ◌≤ℤ◌, int_laws, ltb_ℤ, pos_part}
use ns_cas.Classes.{
  class_quota, priority_high, priority_medium, priority_low, class_config, active_classes,
  total_weight, update, allocate_from, allocate, Allocation,
}
use ns_cas.Float64.{round_share_ℕ}
use ns_cas.Classes.Bounds.{
  class_quota-IsQuota, half_ceiling, whole_ceiling, medium_ceiling, share_4_4, share_2_2, share_1_1,
  share_4_6, share_2_6, share_4_5, share_1_5, share_2_3, share_1_3, share_4_7, share_2_7, share_1_7,
}

-- What one class may be given: no less than 0, no more than its demand, and no more than a ceiling.
abbrev pub Fits : ℤ → ℤ → ℕ → Type 0
Fits q demand ceiling = (pos 0 ≤ℤ q) × (q ≤ℤ pos (pos_part demand)) × (q ≤ℤ pos ceiling)

abbrev pub IsSplit : ℕ → (String → ℤ) → Allocation → Type 0
IsSplit b demand a =
    Fits (a.remaining priority_high) (demand priority_high) (b / 2)
    × Fits (a.remaining priority_medium) (demand priority_medium) (7 * b / 10)
    × Fits (a.remaining priority_low) (demand priority_low) b
    × (a.allocated
        ≡ a.remaining priority_high +ℤ a.remaining priority_medium +ℤ a.remaining priority_low)
    × (a.allocated ≤ℤ pos b)

-- What one active class is given, with `s` for its share.
abbrev IsGiven : ℤ → ℤ → ℕ → ℕ → Type 0
IsGiven q demand s ceiling = (pos 0 ≤ℤ q) × (q ≤ℤ demand) × (q ≤ℤ pos s) × (q ≤ℤ pos ceiling)

high-IsGiven :
    (b : ℕ) (d : ℤ) (total s : ℕ)
    → b < 2 ^ 48
    → ltb_ℤ (pos 0) d ≡ true
    → round_share_ℕ b 4 total ≡ s
    → IsGiven (class_quota (pos b) d (class_config priority_high) total) d s (b / 2)
unfolding class_config
high-IsGiven b d total s small h e = omega (
  int_laws,
  class_quota-IsQuota b d (class_config priority_high) total h,
  e,
  half_ceiling b small,
)

medium-IsGiven :
    (b : ℕ) (d : ℤ) (total s : ℕ)
    → b < 2 ^ 48
    → ltb_ℤ (pos 0) d ≡ true
    → round_share_ℕ b 2 total ≡ s
    → IsGiven (class_quota (pos b) d (class_config priority_medium) total) d s (7 * b / 10)
unfolding class_config
medium-IsGiven b d total s small h e = omega (
  int_laws,
  class_quota-IsQuota b d (class_config priority_medium) total h,
  e,
  medium_ceiling b small,
)

low-IsGiven :
    (b : ℕ) (d : ℤ) (total s : ℕ)
    → b < 2 ^ 48
    → ltb_ℤ (pos 0) d ≡ true
    → round_share_ℕ b 1 total ≡ s
    → IsGiven (class_quota (pos b) d (class_config priority_low) total) d s (b)
unfolding class_config
low-IsGiven b d total s small h e = omega (
  int_laws,
  class_quota-IsQuota b d (class_config priority_low) total h,
  e,
  whole_ceiling b small,
)

-- For a burst limit below 2 ^ 48, the quota of every class is at least 0, at most its demand, and
-- at most its ceiling of 50, 70 or 100 percent of the limit, rounded down; the quotas add up to
-- the allocated sum, which does not exceed the limit.
pub allocate-IsSplit :
    (b : ℕ) (demand : String → ℤ) → b < 2 ^ 48 → IsSplit b demand (allocate (pos b) demand)
unfolding allocate active_classes total_weight allocate_from update class_config
allocate-IsSplit b demand small = elim (Bool-cases (ltb_ℤ (pos 0) (demand priority_high))) [
  | inl h ↦ elim (Bool-cases (ltb_ℤ (pos 0) (demand priority_medium))) [
    | inl m ↦ elim (Bool-cases (ltb_ℤ (pos 0) (demand priority_low))) [
      | inl l ↦
          rw (h, m, l)
            (omega (
              int_laws,
              high-IsGiven b (demand priority_high) 7 _ small h (share_4_7 b small),
              medium-IsGiven b (demand priority_medium) 7 _ small m (share_2_7 b small),
              low-IsGiven b (demand priority_low) 7 _ small l (share_1_7 b small),
            ))
      | inr l ↦
          rw (h, m, l)
            (omega (
              int_laws,
              high-IsGiven b (demand priority_high) 6 _ small h (share_4_6 b small),
              medium-IsGiven b (demand priority_medium) 6 _ small m (share_2_6 b small),
            ))
    ]
    | inr m ↦ elim (Bool-cases (ltb_ℤ (pos 0) (demand priority_low))) [
      | inl l ↦
          rw (h, m, l)
            (omega (
              int_laws,
              high-IsGiven b (demand priority_high) 5 _ small h (share_4_5 b small),
              low-IsGiven b (demand priority_low) 5 _ small l (share_1_5 b small),
            ))
      | inr l ↦
          rw (h, m, l)
            (omega
              (int_laws, high-IsGiven b (demand priority_high) 4 _ small h (share_4_4 b small)))
    ]
  ]
  | inr h ↦ elim (Bool-cases (ltb_ℤ (pos 0) (demand priority_medium))) [
    | inl m ↦ elim (Bool-cases (ltb_ℤ (pos 0) (demand priority_low))) [
      | inl l ↦
          rw (h, m, l)
            (omega (
              int_laws,
              medium-IsGiven b (demand priority_medium) 3 _ small m (share_2_3 b small),
              low-IsGiven b (demand priority_low) 3 _ small l (share_1_3 b small),
            ))
      | inr l ↦
          rw (h, m, l)
            (omega
              (int_laws, medium-IsGiven b (demand priority_medium) 2 _ small m (share_2_2 b small)))
    ]
    | inr m ↦ elim (Bool-cases (ltb_ℤ (pos 0) (demand priority_low))) [
      | inl l ↦
          rw (h, m, l)
            (omega (int_laws, low-IsGiven b (demand priority_low) 1 _ small l (share_1_1 b small)))
      | inr l ↦ rw (h, m, l) (omega int_laws)
    ]
  ]
]
