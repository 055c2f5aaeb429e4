-- ===== src/Classes/Bounds.antt =====
-- The shares and ceilings of the three classes in exact arithmetic, for allowances below 2 ^ 48.
use ns_cas.Base.{
  true, inl, inr, Bool-cases, ◌⊎◌, ◌%◌, ◌==◌, ℕ, ◌+◌, ◌-◌, ◌*◌, ◌/◌, ◌^◌, ◌≤◌, ◌<◌, ◌≡◌, arith,
}
use ns_cas.Base.Int.{ℤ, pos, ◌≤ℤ◌, ltb_ℤ}
use ns_cas.Float64.{round53, quotient_bits, round_share_ℕ, round_share, product_bits, floor_product}
use ns_cas.Float64.Error.{round53_exact, round53_close, round53_pow}
use ns_cas.Classes.{ClassConfig, class_quota}

share_round53 :
    (b weight total : ℕ)
    → b < 2 ^ 48
    → weight ≤ 4
    → round_share_ℕ b weight total ≡ (round53 (quotient_bits (b * weight) total) + 2 ^ 60) / 2 ^ 61
unfolding round_share_ℕ
share_round53 b weight total h w =
    rw (round53_exact b (omega arith), round53_exact (b * weight) (grind arith))

pub share_4_4 : (b : ℕ) → b < 2 ^ 48 → round_share_ℕ b 4 4 ≡ (2 * (b * 4) + 4) / 8
unfolding quotient_bits
share_4_4 b h =
    rw (share_round53 b 4 4 h (omega arith))
      (ground (arith, round53_close (quotient_bits (b * 4) 4)))

pub share_2_2 : (b : ℕ) → b < 2 ^ 48 → round_share_ℕ b 2 2 ≡ (2 * (b * 2) + 2) / 4
unfolding quotient_bits
share_2_2 b h =
    rw (share_round53 b 2 2 h (omega arith))
      (ground (arith, round53_close (quotient_bits (b * 2) 2)))

pub share_1_1 : (b : ℕ) → b < 2 ^ 48 → round_share_ℕ b 1 1 ≡ (2 * (b * 1) + 1) / 2
unfolding quotient_bits
share_1_1 b h =
    rw (share_round53 b 1 1 h (omega arith))
      (ground (arith, round53_close (quotient_bits (b * 1) 1)))

pub share_4_6 : (b : ℕ) → b < 2 ^ 48 → round_share_ℕ b 4 6 ≡ (2 * (b * 4) + 6) / 12
unfolding quotient_bits
share_4_6 b h =
    rw (share_round53 b 4 6 h (omega arith))
      (ground (arith, round53_close (quotient_bits (b * 4) 6)))

pub share_2_6 : (b : ℕ) → b < 2 ^ 48 → round_share_ℕ b 2 6 ≡ (2 * (b * 2) + 6) / 12
unfolding quotient_bits
share_2_6 b h =
    rw (share_round53 b 2 6 h (omega arith))
      (ground (arith, round53_close (quotient_bits (b * 2) 6)))

pub share_4_5 : (b : ℕ) → b < 2 ^ 48 → round_share_ℕ b 4 5 ≡ (2 * (b * 4) + 5) / 10
unfolding quotient_bits
share_4_5 b h =
    rw (share_round53 b 4 5 h (omega arith))
      (ground (arith, round53_close (quotient_bits (b * 4) 5)))

pub share_1_5 : (b : ℕ) → b < 2 ^ 48 → round_share_ℕ b 1 5 ≡ (2 * (b * 1) + 5) / 10
unfolding quotient_bits
share_1_5 b h =
    rw (share_round53 b 1 5 h (omega arith))
      (ground (arith, round53_close (quotient_bits (b * 1) 5)))

pub share_2_3 : (b : ℕ) → b < 2 ^ 48 → round_share_ℕ b 2 3 ≡ (2 * (b * 2) + 3) / 6
unfolding quotient_bits
share_2_3 b h =
    rw (share_round53 b 2 3 h (omega arith))
      (ground (arith, round53_close (quotient_bits (b * 2) 3)))

pub share_1_3 : (b : ℕ) → b < 2 ^ 48 → round_share_ℕ b 1 3 ≡ (2 * (b * 1) + 3) / 6
unfolding quotient_bits
share_1_3 b h =
    rw (share_round53 b 1 3 h (omega arith))
      (ground (arith, round53_close (quotient_bits (b * 1) 3)))

pub share_4_7 : (b : ℕ) → b < 2 ^ 48 → round_share_ℕ b 4 7 ≡ (2 * (b * 4) + 7) / 14
unfolding quotient_bits
share_4_7 b h =
    rw (share_round53 b 4 7 h (omega arith))
      (ground (arith, round53_close (quotient_bits (b * 4) 7)))

pub share_2_7 : (b : ℕ) → b < 2 ^ 48 → round_share_ℕ b 2 7 ≡ (2 * (b * 2) + 7) / 14
unfolding quotient_bits
share_2_7 b h =
    rw (share_round53 b 2 7 h (omega arith))
      (ground (arith, round53_close (quotient_bits (b * 2) 7)))

pub share_1_7 : (b : ℕ) → b < 2 ^ 48 → round_share_ℕ b 1 7 ≡ (2 * (b * 1) + 7) / 14
unfolding quotient_bits
share_1_7 b h =
    rw (share_round53 b 1 7 h (omega arith))
      (ground (arith, round53_close (quotient_bits (b * 1) 7)))

pub ruleset shares = (
  share_4_4, share_2_2, share_1_1, share_4_6, share_2_6, share_4_5, share_1_5, share_2_3, share_1_3,
  share_4_7, share_2_7, share_1_7,
)

product_bits_close :
    (b fraction : ℕ)
    → b < 2 ^ 48
    → (2 ^ 53 * product_bits b fraction ≤ (2 ^ 53 + 1) * (b * fraction))
      × ((2 ^ 53 - 1) * (b * fraction) ≤ 2 ^ 53 * product_bits b fraction)
unfolding product_bits
product_bits_close b fraction h = rw (round53_exact b (omega arith)) (round53_close (b * fraction))

pub half_ceiling : (b : ℕ) → b < 2 ^ 48 → product_bits b (2 ^ 52) / 2 ^ 53 ≡ b / 2
unfolding product_bits
half_ceiling b h = rw (round53_exact b (omega arith), round53_pow b 52 (omega arith)) (omega arith)

pub whole_ceiling : (b : ℕ) → b < 2 ^ 48 → product_bits b (2 ^ 53) / 2 ^ 53 ≡ b
unfolding product_bits
whole_ceiling b h = rw (round53_exact b (omega arith), round53_pow b 53 (omega arith)) (omega arith)

-- Seven tenths rounded down, or one less for a multiple of 10.
abbrev pub IsMediumCeiling : ℕ → ℕ → Type 0
IsMediumCeiling b c = (c ≡ 7 * b / 10) ⊎ (b % 10 ≡ 0) × (c + 1 ≡ 7 * b / 10)

pub product_bits-IsMediumCeiling :
    (b : ℕ) → b < 2 ^ 48 → IsMediumCeiling b (product_bits b 6305039478318694 / 2 ^ 53)
product_bits-IsMediumCeiling b h =
    let close = product_bits_close b 6305039478318694 h in
    elim (Bool-cases (product_bits b 6305039478318694 / 2 ^ 53 == 7 * b / 10)) [
      | inl hit ↦ inl (ground (arith, hit))
      | inr miss ↦ inr (ground (arith, miss, close), ground (arith, miss, close))
    ]

-- The float64 0.7 is a little less than 7/10, so the ceiling may fall one short of the exact one.
pub medium_ceiling :
    (b : ℕ)
    → b < 2 ^ 48
    → (product_bits b 6305039478318694 / 2 ^ 53 ≤ 7 * b / 10)
      × (7 * b / 10 ≤ product_bits b 6305039478318694 / 2 ^ 53 + 1)
medium_ceiling b h = omega (arith, product_bits_close b 6305039478318694 h)

abbrev pub IsQuota : ℤ → ℕ → ℤ → ClassConfig → ℕ → Type 0
IsQuota q b demand config total =
    (pos 0 ≤ℤ q)
    × (q ≤ℤ demand)
    × (q ≤ℤ pos (round_share_ℕ b config.weight total))
    × (q ≤ℤ pos (product_bits b config.max_fraction / 2 ^ 53))

pub class_quota-IsQuota :
    (b : ℕ) (demand : ℤ) (config : ClassConfig) (total : ℕ)
    → ltb_ℤ (pos 0) demand ≡ true
    → IsQuota (class_quota (pos b) demand config total) b demand config total
unfolding class_quota round_share floor_product
class_quota-IsQuota b demand config total h = ground arith
