-- ===== src/Classes/Exact.antt =====
-- The split of one window's allowance (ResetClassBudgets in internal/state/state.go) and a
-- reference for it in whole numbers, which gives the ceiling of P2_MEDIUM up to one slot.
use ns_cas.Base.{ℕ, ◌+◌, ◌*◌, ◌/◌, ◌^◌, ◌<◌, ◌≡◌, refl, String, inl, inr, Bool-cases, if◌then◌else◌}
use ns_cas.Base.Int.{ℤ, pos, ltb_ℤ}
use ns_cas.Float64.{round_share_ℕ, product_bits, floor_product, round_share}
use ns_cas.Classes.{
  priority_high, priority_medium, priority_low, class_config, active_classes, total_weight,
  class_quota, update, allocate_from, allocate, Allocation, min_ℤ,
}
use ns_cas.Classes.Bounds.{
  IsMediumCeiling, product_bits-IsMediumCeiling, half_ceiling, whole_ceiling, share_4_4, share_2_2,
  share_1_1, share_4_6, share_2_6, share_4_5, share_1_5, share_2_3, share_1_3, share_4_7, share_2_7,
  share_1_7,
}

abbrev pub active_weight : ℤ → ℕ → ℕ
active_weight demand weight = if ltb_ℤ (pos 0) demand then weight else 0

abbrev pub active_total : (String → ℤ) → ℕ
active_total demand =
    active_weight (demand priority_high) 4
    + (active_weight (demand priority_medium) 2 + active_weight (demand priority_low) 1)

abbrev pub exact_quota : ℕ → ℤ → ℕ → ℕ → ℤ → ℤ
exact_quota b demand weight total ceiling =
    if ltb_ℤ (pos 0) demand
    then min_ℤ (min_ℤ (pos ((2 * (b * weight) + total) / (2 * total))) demand) ceiling
    else pos 0

abbrev IsSplitBy : ℕ → ℕ → (String → ℤ) → Allocation → Type 0
IsSplitBy ceiling b demand a =
    (a.remaining priority_high
      ≡ exact_quota b (demand priority_high) 4 (active_total demand) (pos (b / 2)))
    × (a.remaining priority_medium
        ≡ exact_quota b (demand priority_medium) 2 (active_total demand) (pos ceiling))
    × (a.remaining priority_low
        ≡ exact_quota b (demand priority_low) 1 (active_total demand) (pos b))

abbrev pub IsExact : ℕ → (String → ℤ) → Allocation → Type 0
IsExact b demand a = (ceiling : ℕ) × IsMediumCeiling b ceiling × IsSplitBy ceiling b demand a

high_quota :
    (b : ℕ) (d : ℤ) (total : ℕ) {s : ℕ}
    → b < 2 ^ 48
    → round_share_ℕ b 4 total ≡ s
    → class_quota (pos b) d (class_config priority_high) total
      ≡ min_ℤ (min_ℤ (pos s) d) (pos (b / 2))
unfolding class_quota class_config floor_product round_share
high_quota b d total small e = rw (e, half_ceiling b small)

medium_quota :
    (b : ℕ) (d : ℤ) (total : ℕ) {s : ℕ}
    → round_share_ℕ b 2 total ≡ s
    → class_quota (pos b) d (class_config priority_medium) total
      ≡ min_ℤ (min_ℤ (pos s) d) (pos (product_bits b 6305039478318694 / 2 ^ 53))
unfolding class_quota class_config floor_product round_share
medium_quota b d total e = rw e

low_quota :
    (b : ℕ) (d : ℤ) (total : ℕ) {s : ℕ}
    → b < 2 ^ 48
    → round_share_ℕ b 1 total ≡ s
    → class_quota (pos b) d (class_config priority_low) total ≡ min_ℤ (min_ℤ (pos s) d) (pos b)
unfolding class_quota class_config floor_product round_share
low_quota b d total small e = rw (e, whole_ceiling b small)

allocate-IsSplitBy :
    (b : ℕ) (demand : String → ℤ)
    → b < 2 ^ 48
    → IsSplitBy (product_bits b 6305039478318694 / 2 ^ 53) b demand (allocate (pos b) demand)
unfolding allocate active_classes total_weight allocate_from update class_config
allocate-IsSplitBy b demand small = elim (Bool-cases (ltb_ℤ (pos 0) (demand priority_high))) [
  | inl h ↦ elim (Bool-cases (ltb_ℤ (pos 0) (demand priority_medium))) [
    | inl m ↦ elim (Bool-cases (ltb_ℤ (pos 0) (demand priority_low))) [
      | inl l ↦
          rw (h, m, l)
            (
              high_quota b (demand priority_high) 7 small (share_4_7 b small),
              medium_quota b (demand priority_medium) 7 (share_2_7 b small),
              low_quota b (demand priority_low) 7 small (share_1_7 b small),
            )
      | inr l ↦
          rw (h, m, l)
            (
              high_quota b (demand priority_high) 6 small (share_4_6 b small),
              medium_quota b (demand priority_medium) 6 (share_2_6 b small),
              refl,
            )
    ]
    | inr m ↦ elim (Bool-cases (ltb_ℤ (pos 0) (demand priority_low))) [
      | inl l ↦
          rw (h, m, l)
            (
              high_quota b (demand priority_high) 5 small (share_4_5 b small),
              refl,
              low_quota b (demand priority_low) 5 small (share_1_5 b small),
            )
      | inr l ↦
          rw (h, m, l) (high_quota b (demand priority_high) 4 small (share_4_4 b small), refl, refl)
    ]
  ]
  | inr h ↦ elim (Bool-cases (ltb_ℤ (pos 0) (demand priority_medium))) [
    | inl m ↦ elim (Bool-cases (ltb_ℤ (pos 0) (demand priority_low))) [
      | inl l ↦
          rw (h, m, l)
            (
              refl,
              medium_quota b (demand priority_medium) 3 (share_2_3 b small),
              low_quota b (demand priority_low) 3 small (share_1_3 b small),
            )
      | inr l ↦
          rw (h, m, l) (refl, medium_quota b (demand priority_medium) 2 (share_2_2 b small), refl)
    ]
    | inr m ↦ elim (Bool-cases (ltb_ℤ (pos 0) (demand priority_low))) [
      | inl l ↦
          rw (h, m, l) (refl, refl, low_quota b (demand priority_low) 1 small (share_1_1 b small))
      | inr l ↦ rw (h, m, l) (refl, refl, refl)
    ]
  ]
]

-- For a burst limit below 2 ^ 48, the float64 computation of the class quotas agrees with whole
-- numbers: each class with demand gets its share by weight among the classes with demand, rounded
-- to the nearest slot, halves up, cut to its demand and to its ceiling, and the others get 0. The
-- ceiling is half the limit rounded down for P1_HIGH, the limit for P3_LOW, and for P2_MEDIUM
-- seven tenths of the limit rounded down or, only if the limit is a multiple of 10, possibly one
-- less.
pub allocate-IsExact :
    (b : ℕ) (demand : String → ℤ) → b < 2 ^ 48 → IsExact b demand (allocate (pos b) demand)
allocate-IsExact b demand small = (
  product_bits b 6305039478318694 / 2 ^ 53,
  product_bits-IsMediumCeiling b small,
  allocate-IsSplitBy b demand small,
)
