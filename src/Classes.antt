-- ===== src/Classes.antt =====
-- The priority classes of internal/state/state.go, and the split of one window's allowance among
-- them (the computation in ResetClassBudgets). A Go map with int values is a function, 0 at the
-- keys that it lacks. The loops range over a Go map in no fixed order; here the order is P1, P2, P3.
use ns_cas.Base.{
  ℕ, ◌+◌, ◌^◌, Bool, String, str_eq, List, [], ◌∷◌, Option, none, some, if◌then◌else◌,
}
use ns_cas.Base.Int.{ℤ, pos, ◌+ℤ◌, ◌-ℤ◌, ltb_ℤ}
use ns_cas.Float64.{round_share, floor_product}
pub mod Bounds
pub mod Split
pub mod Exact

abbrev pub priority_high : String
priority_high = "P1_HIGH"

abbrev pub priority_medium : String
priority_medium = "P2_MEDIUM"

abbrev pub priority_low : String
priority_low = "P3_LOW"

-- BasePriorities: `none` is a key that the map lacks. The values 100, 50 and 1 are exact floats.
unfoldable pub base_priority? : String → Option ℕ
base_priority? class =
    if str_eq class priority_high
    then some 100
    else if str_eq class priority_medium
    then some 50
    else if str_eq class priority_low
    then some 1
    else none

-- The class under which demand is counted: an unknown name counts as medium.
unfoldable pub normalise_class : String → String
unfolding base_priority?
normalise_class class = elim (base_priority? class) [ none ↦ priority_medium | some _ ↦ class ]

-- The weight, and the ceiling as a fraction in units of 2 ^ -53 (the float64 0.7 is
-- 6305039478318694 of them).
pub record ClassConfig : Type 0 where
  pub weight : ℕ
  pub max_fraction : ℕ

unfoldable pub class_config : String → ClassConfig
class_config class =
    if str_eq class priority_high
    then record { weight = 4; max_fraction = 2 ^ 52 }
    else if str_eq class priority_medium
    then record { weight = 2; max_fraction = 6305039478318694 }
    else if str_eq class priority_low
    then record { weight = 1; max_fraction = 2 ^ 53 }
    else record { weight = 0; max_fraction = 0 }

abbrev pub class_names : List String
class_names = priority_high ∷ priority_medium ∷ priority_low ∷ []

-- The classes that had demand.
unfoldable pub active_classes : (String → ℤ) → List String → List String
active_classes demand [] = []
active_classes demand (name ∷ names) =
    let rest = active_classes demand names in
    if ltb_ℤ (pos 0) (demand name) then name ∷ rest else rest

unfoldable pub total_weight : List String → ℕ
unfolding class_config
total_weight [] = 0
total_weight (name ∷ names) = (class_config name).weight + total_weight names

abbrev pub min_ℤ : ℤ → ℤ → ℤ
min_ℤ a b = if ltb_ℤ b a then b else a

-- The quota of one active class: its proportional share, cut to its demand and to its ceiling.
unfoldable pub class_quota : ℤ → ℤ → ClassConfig → ℕ → ℤ
class_quota bucket_limit demand config total =
    min_ℤ (min_ℤ (round_share bucket_limit config.weight total) demand)
      (floor_product bucket_limit config.max_fraction)

-- m[class] = v.
unfoldable pub update : (String → ℤ) → String → ℤ → String → ℤ
update m class v k = if str_eq class k then v else m k

pub record Allocation : Type 0 where
  pub remaining : String → ℤ
  pub allocated : ℤ

-- The allocation loop over the active classes.
unfoldable pub allocate_from : ℤ → (String → ℤ) → ℕ → Allocation → List String → Allocation
unfolding class_quota update class_config
allocate_from bucket_limit demand total done [] = done
allocate_from bucket_limit demand total done (name ∷ names) =
    let quota = class_quota bucket_limit (demand name) (class_config name) total in
    allocate_from bucket_limit demand total
      (record { remaining = update done.remaining name quota; allocated = done.allocated +ℤ quota })
      names

abbrev pub nothing_allocated : Allocation
nothing_allocated = record { remaining = λ _. pos 0; allocated = pos 0 }

unfoldable pub allocate : ℤ → (String → ℤ) → Allocation
unfolding active_classes total_weight allocate_from
allocate bucket_limit demand =
    let active = active_classes demand class_names in
    allocate_from bucket_limit demand (total_weight active) nothing_allocated active

-- What no class was given, and no less than 0.
unfoldable pub shared_of : ℤ → Allocation → ℤ
shared_of bucket_limit a =
    let left = bucket_limit -ℤ a.allocated in if ltb_ℤ left (pos 0) then pos 0 else left
