-- ===== src/Float64.antt =====
-- The float64 arithmetic that internal/state/state.go:ResetClassBudgets uses, exactly. A float is
-- a natural number of some fixed power of two; every operation rounds its exact result to 53
-- significant bits, to nearest and ties to even. No value here is subnormal or overflows.
use ns_cas.Base.{ℕ, zero, suc, ◌+◌, ◌-◌, ◌*◌, ◌/◌, ◌%◌, ◌^◌, ltb, ◌==◌, if◌then◌else◌}
use ns_cas.Base.Int.{ℤ, pos, negsuc, sub_ℕ}
pub mod Error

-- The spacing of the floats around `n`: the power of two by which `n` has 53 bits. Each round
-- halves `n`, so fuel 256 serves every number below 2 ^ 309.
unfoldable pub ulp_from : ℕ → ℕ → ℕ
ulp_from zero n = 1
ulp_from (suc fuel) n = let rest = 2 * ulp_from fuel (n / 2) in if ltb n (2 ^ 53) then 1 else rest

unfoldable pub round_at : ℕ → ℕ → ℕ
round_at u n =
    if ltb (2 * (n % u)) u
    then n / u * u
    else if ltb u (2 * (n % u))
    then (n / u + 1) * u
    else if n / u % 2 == 0
    then n / u * u
    else (n / u + 1) * u

unfoldable pub round53 : ℕ → ℕ
unfolding ulp_from round_at
round53 n = round_at (ulp_from 256 n) n

-- int(math.Round(float64(b) * weight / total)) for b ≥ 0, weights and totals small integers. The
-- quotient is taken in units of 2 ^ -61 with a sticky last bit, then rounded; math.Round takes
-- halves away from zero.
unfoldable pub quotient_bits : ℕ → ℕ → ℕ
quotient_bits x total = 2 * (x * 2 ^ 60 / total) + (if x * 2 ^ 60 % total == 0 then 0 else 1)

unfoldable pub round_share_ℕ : ℕ → ℕ → ℕ → ℕ
round_share_ℕ b weight total =
    (round53 (quotient_bits (round53 (round53 b * weight)) total) + 2 ^ 60) / 2 ^ 61

unfoldable pub round_share : ℤ → ℕ → ℕ → ℤ
round_share (pos b) weight total = pos (round_share_ℕ b weight total)
round_share (negsuc b) weight total = sub_ℕ 0 (round_share_ℕ (suc b) weight total)

-- int(math.Floor(float64(b) * fraction)), the fraction in units of 2 ^ -53.
unfoldable pub product_bits : ℕ → ℕ → ℕ
product_bits b fraction = round53 (round53 b * fraction)

unfoldable pub floor_product : ℤ → ℕ → ℤ
floor_product (pos b) fraction = pos (product_bits b fraction / 2 ^ 53)
floor_product (negsuc b) fraction =
    sub_ℕ 0 ((product_bits (suc b) fraction + (2 ^ 53 - 1)) / 2 ^ 53)
