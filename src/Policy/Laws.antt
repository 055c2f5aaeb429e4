-- ===== src/Policy/Laws.antt =====
-- What ParsePolicyWindow of internal/state/state.go makes of a header.
use ns_cas.Base.{
  ℕ, ◌-◌, ◌^◌, ◌≤◌, ◌<◌, ◌≡◌, refl, ◌⊎◌, inl, inr, Bool, true, false, List, [], ◌∷◌, ◌++◌, Option,
  none, some, arith, ◌==◌, Bool-cases,
}
use ns_cas.Base.Int.{ℤ, pos, ◌≤ℤ◌, ◌<ℤ◌}
use ns_cas.Policy.{
  is_space, split_on, trim_left, trim_right, trim_space, after_prefix, nonempty_value, atoi,
  part_window, first_window, parse_policy_window, window_after, positive, or_else, signed,
}

-- A window is usable if it is positive and an int.
abbrev pub IsWindow : ℤ → Type 0
IsWindow w = (pos 0 <ℤ w) × (w ≤ℤ pos (2 ^ 63 - 1))

abbrev AtMost : Option ℤ → Type 0
AtMost none = Unit {0}
AtMost (some n) = n ≤ℤ pos (2 ^ 63 - 1)

abbrev OnlyWindow : Option ℤ → Type 0
OnlyWindow none = Unit {0}
OnlyWindow (some n) = IsWindow n

signed-AtMost : (minus : Bool) (o : Option ℕ) → AtMost (signed minus o)
signed-AtMost true none = tt
signed-AtMost false none = tt
signed-AtMost true (some n) = ground arith
signed-AtMost false (some n) = ground arith

atoi-AtMost : (s : List ℕ) → AtMost (atoi s)
unfolding atoi
atoi-AtMost [] = tt
atoi-AtMost (c ∷ s) = elim (Bool-cases (c == b'-')) [
  | inl minus ↦ rw minus (signed-AtMost true (nonempty_value s))
  | inr other ↦ elim (Bool-cases (c == b'+')) [
    | inl plus ↦ rw (other, plus) (signed-AtMost false (nonempty_value s))
    | inr digit ↦ rw (other, digit) (signed-AtMost false (nonempty_value (c ∷ s)))
  ]
]

positive-OnlyWindow : (o : Option ℤ) → AtMost o → OnlyWindow (positive o)
positive-OnlyWindow none h = tt
positive-OnlyWindow (some n) h = ground arith

window_after-OnlyWindow : (o : Option (List ℕ)) → OnlyWindow (window_after o)
window_after-OnlyWindow none = tt
window_after-OnlyWindow (some rest) = positive-OnlyWindow _ (atoi-AtMost (trim_space rest))

or_else-IsWindow :
    (o : Option ℤ) (later : ℤ)
    → OnlyWindow o
    → (later ≡ pos 0) ⊎ IsWindow later
    → (or_else o later ≡ pos 0) ⊎ IsWindow (or_else o later)
or_else-IsWindow none later h k = k
or_else-IsWindow (some n) later h k = inr h

first_window-IsWindow :
    (parts : List (List ℕ)) → (first_window parts ≡ pos 0) ⊎ IsWindow (first_window parts)
unfolding first_window part_window
first_window-IsWindow [] = inl refl
first_window-IsWindow (part ∷ parts) =
    or_else-IsWindow (part_window part) _ (window_after-OnlyWindow (after_prefix (trim_space part)))
      (first_window-IsWindow parts)

-- Whatever bytes the header holds, ParsePolicyWindow gives 0 or a positive int.
pub parse_policy_window-IsWindow :
    (policy : List ℕ) → (parse_policy_window policy ≡ pos 0) ⊎ IsWindow (parse_policy_window policy)
unfolding parse_policy_window
parse_policy_window-IsWindow policy = first_window-IsWindow (split_on b';' policy)

abbrev pub AllDigits : List ℕ → Type 0
AllDigits [] = Unit {0}
AllDigits (c ∷ s) = (b'0' ≤ c) × (c ≤ b'9') × AllDigits s

split_on-append :
    (s rest : List ℕ) → AllDigits s → split_on b';' (s ++ b';' ∷ rest) ≡ s ∷ split_on b';' rest
unfolding split_on
split_on-append [] rest h = refl
split_on-append (c ∷ s) rest h = ground (arith, split_on-append s rest h.2)

split_on_alone : (s : List ℕ) → AllDigits s → split_on b';' s ≡ s ∷ []
unfolding split_on
split_on_alone [] h = refl
split_on_alone (c ∷ s) h = ground (arith, split_on_alone s h.2)

abbrev NoSpace : List ℕ → Type 0
NoSpace [] = Unit {0}
NoSpace (c ∷ s) = (is_space c ≡ false) × NoSpace s

is_space_digit : (c : ℕ) → b'0' ≤ c → c ≤ b'9' → is_space c ≡ false
unfolding is_space
is_space_digit c h k = ground arith

digits-NoSpace : (s : List ℕ) → AllDigits s → NoSpace s
digits-NoSpace [] h = tt
digits-NoSpace (c ∷ s) h = (is_space_digit c h.0 h.1, digits-NoSpace s h.2)

trim_right_id : (s : List ℕ) → NoSpace s → trim_right s ≡ s
unfolding trim_right
trim_right_id [] h = refl
trim_right_id (c ∷ []) h = rw h.0
trim_right_id (c ∷ d ∷ s) h = rw (trim_right_id (d ∷ s) h.1)

trim_space_id : (s : List ℕ) → NoSpace s → trim_space s ≡ s
unfolding trim_space trim_left trim_right
trim_space_id [] h = refl
trim_space_id (c ∷ s) h = rw h.0 (trim_right_id (c ∷ s) h)

after_prefix_digits : (s : List ℕ) → AllDigits s → after_prefix s ≡ none
unfolding after_prefix
after_prefix_digits [] h = refl
after_prefix_digits (c ∷ []) h = refl
after_prefix_digits (c ∷ d ∷ s) h = ground arith

part_window_digits : (s : List ℕ) → AllDigits s → part_window s ≡ none
unfolding part_window
part_window_digits s h = rw (trim_space_id s (digits-NoSpace s h), after_prefix_digits s h)

pub atoi_digits :
    (s : List ℕ) {n : ℕ}
    → AllDigits s
    → nonempty_value s ≡ some n
    → n < 2 ^ 63
    → atoi s ≡ some (pos n)
unfolding atoi
atoi_digits [] h e k = cc
atoi_digits (c ∷ s) h e k = rw e (ground arith)

part_window_lem :
    (s : List ℕ) {n : ℕ}
    → AllDigits s
    → nonempty_value s ≡ some n
    → 0 < n
    → n < 2 ^ 63
    → part_window (b'w' ∷ b'=' ∷ s) ≡ some (pos n)
unfolding part_window after_prefix is_space
part_window_lem s h e low high =
    rw
      (
        trim_space_id (b'w' ∷ b'=' ∷ s) (refl, (refl, digits-NoSpace s h)),
        trim_space_id s (digits-NoSpace s h),
        atoi_digits s h e high,
      )
      (ground arith)

-- A header of digits, the text ";w=" and digits that spell a number n gives n back, if n is
-- positive and below 2 ^ 63.
pub parse_policy_window-policy :
    (limit window : List ℕ) {n : ℕ}
    → AllDigits limit
    → AllDigits window
    → nonempty_value window ≡ some n
    → 0 < n
    → n < 2 ^ 63
    → parse_policy_window (limit ++ b';' ∷ b'w' ∷ b'=' ∷ window) ≡ pos n
unfolding parse_policy_window first_window split_on
parse_policy_window-policy limit window hl hw e low high = rw (
  split_on-append limit (b'w' ∷ b'=' ∷ window) hl,
  part_window_digits limit hl,
  split_on_alone window hw,
  part_window_lem window hw e low high,
)
