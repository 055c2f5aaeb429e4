-- ===== src/Float64/Error.antt =====
-- How far the rounding of `round53` can move a value.
use native.Mathlib.Nat.{mod-lt, div-add-mod, mul-mod_left, mul-div_cancel, pow-suc}
use ns_cas.Base.{
  ℕ, zero, suc, ◌+◌, ◌-◌, ◌*◌, ◌/◌, ◌^◌, ◌≤◌, ◌<◌, ◌≡◌, refl, sym, ap, ◌∙◌, arith, ltb, inl, inr,
  Bool-cases,
}
use ns_cas.Float64.{ulp_from, round_at, round53}

ulp_from_pos : (fuel n : ℕ) → 0 < ulp_from fuel n
unfolding ulp_from
ulp_from_pos zero n = omega arith
ulp_from_pos (suc fuel) n = ground (arith, ulp_from_pos fuel (n / 2))

ulp_from-le : (fuel n : ℕ) → 2 ^ 52 ≤ n → ulp_from fuel n * 2 ^ 52 ≤ n
unfolding ulp_from
ulp_from-le zero n h = omega arith
ulp_from-le (suc fuel) n h = ground (arith, ulp_from-le fuel (n / 2))

ulp_from_small : (fuel n : ℕ) → n < 2 ^ 53 → ulp_from fuel n ≡ 1
unfolding ulp_from
ulp_from_small zero n h = refl
ulp_from_small (suc fuel) n h = ground arith

round_at_close : (u n : ℕ) → 0 < u → (2 * round_at u n ≤ 2 * n + u) × (2 * n ≤ 2 * round_at u n + u)
unfolding round_at
round_at_close u n h = grind (arith, mod-lt, div-add-mod)

round_at_one : (n : ℕ) → round_at 1 n ≡ n
unfolding round_at
round_at_one n = ground arith

pub round53_exact : (n : ℕ) → n < 2 ^ 53 → round53 n ≡ n
unfolding round53
round53_exact n h = rw (ulp_from_small 256 n h) (round_at_one n)

-- A number of at most 53 bits times a power of two is a float, and is not moved.
double_half : (m p n : ℕ) → n ≡ p * 2 → (m * n ≡ 2 * (m * p)) × (m * n / 2 ≡ m * p)
double_half m p n e = rw e (omega arith, omega arith)

multiple : (k fuel m : ℕ) → m < 2 ^ 53 → (q : ℕ) × (m * 2 ^ k ≡ q * ulp_from fuel (m * 2 ^ k))
unfolding ulp_from
multiple zero fuel m h = (m, rw (ulp_from_small fuel (m * 1) (omega arith)) refl)
multiple (suc k) zero m h = (m * 2 ^ suc k, omega arith)
multiple (suc k) (suc fuel) m h =
    let (two, half) = double_half m (2 ^ k) (2 ^ suc k) (pow-suc 2 k) in
    let (q, e) = multiple k fuel m h in
    elim (Bool-cases (ltb (m * 2 ^ suc k) (2 ^ 53))) [
      | inl small ↦ (m * 2 ^ suc k, rw small (omega arith))
      | inr large ↦ (q, rw (large, half) (omega (arith, two, e)))
    ]

round_at_multiple : (u q : ℕ) → 0 < u → round_at u (q * u) ≡ q * u
unfolding round_at
round_at_multiple u q h = rw (mul-mod_left q u, mul-div_cancel q h) (ground arith)

pub round53_pow : (m k : ℕ) → m < 2 ^ 53 → round53 (m * 2 ^ k) ≡ m * 2 ^ k
unfolding round53
round53_pow m k h =
    let (q, e) = multiple k 256 m h in
    ap (round_at (ulp_from 256 (m * 2 ^ k))) e
    ∙ round_at_multiple (ulp_from 256 (m * 2 ^ k)) q (ulp_from_pos 256 (m * 2 ^ k))
    ∙ sym e

close_of_near :
    (u n r : ℕ)
    → u * 2 ^ 52 ≤ n
    → 2 * r ≤ 2 * n + u
    → 2 * n ≤ 2 * r + u
    → (2 ^ 53 * r ≤ (2 ^ 53 + 1) * n) × ((2 ^ 53 - 1) * n ≤ 2 ^ 53 * r)
close_of_near u n r a b c = (omega arith, omega arith)

round53_close_large :
    (n : ℕ)
    → 2 ^ 52 ≤ n
    → (2 ^ 53 * round53 n ≤ (2 ^ 53 + 1) * n) × ((2 ^ 53 - 1) * n ≤ 2 ^ 53 * round53 n)
unfolding round53
round53_close_large n h =
    let near = round_at_close (ulp_from 256 n) n (ulp_from_pos 256 n) in
    close_of_near (ulp_from 256 n) n _ (ulp_from-le 256 n h) near.0 near.1

-- The relative error is at most one part in 2 ^ 53.
pub round53_close :
    (n : ℕ) → (2 ^ 53 * round53 n ≤ (2 ^ 53 + 1) * n) × ((2 ^ 53 - 1) * n ≤ 2 ^ 53 * round53 n)
round53_close n = elim (Bool-cases (ltb n (2 ^ 53))) [
  | inl small ↦ rw (round53_exact n (ground arith)) (omega arith, omega arith)
  | inr large ↦ round53_close_large n (ground arith)
]
