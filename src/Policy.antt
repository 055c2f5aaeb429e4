-- ===== src/Policy.antt =====
-- ParsePolicyWindow of internal/state/state.go, with the parts of Go's strings and strconv that it
-- calls. A text is the list of its code points.
use Prim.Native.Char.{code}
use ns_cas.Base.{
  ℕ, ◌+◌, ◌-◌, ◌*◌, ◌^◌, Bool, true, false, ◌&&◌, ◌||◌, String, List, [], ◌∷◌, Option, none, some,
  ltb, leb, ◌==◌, if◌then◌else◌,
}
use ns_cas.Base.Int.{ℤ, pos, negsuc, sub_ℕ, ltb_ℤ}
pub mod Laws

abbrev pub codes : String → List ℕ
codes String.[] = []
codes (String.◌∷◌ c s) = code c ∷ codes s

-- unicode.IsSpace.
unfoldable pub is_space : ℕ → Bool
is_space c =
    (leb 9 c && leb c 13)
    || c == 0x20
    || c == 0x85
    || c == 0xa0
    || c == 0x1680
    || (leb 0x2000 c && leb c 0x200a)
    || c == 0x2028
    || c == 0x2029
    || c == 0x202f
    || c == 0x205f
    || c == 0x3000

-- strings.Split for a separator of one character: one more part than there are separators.
abbrev pub cons_head : ℕ → List (List ℕ) → List (List ℕ)
cons_head c [] = (c ∷ []) ∷ []
cons_head c (p ∷ ps) = (c ∷ p) ∷ ps

unfoldable pub split_on : ℕ → List ℕ → List (List ℕ)
split_on sep [] = [] ∷ []
split_on sep (c ∷ s) = let rest = split_on sep s in if c == sep then [] ∷ rest else cons_head c rest

-- strings.TrimSpace.
unfoldable pub trim_left : List ℕ → List ℕ
trim_left [] = []
trim_left (c ∷ s) = if is_space c then trim_left s else c ∷ s

abbrev pub snoc_trimmed : ℕ → List ℕ → List ℕ
snoc_trimmed c [] = if is_space c then [] else c ∷ []
snoc_trimmed c (d ∷ s) = c ∷ d ∷ s

unfoldable pub trim_right : List ℕ → List ℕ
trim_right [] = []
trim_right (c ∷ s) = snoc_trimmed c (trim_right s)

unfoldable pub trim_space : List ℕ → List ℕ
trim_space s = trim_right (trim_left s)

-- strings.HasPrefix(part, "w=") and part[2:].
unfoldable pub after_prefix : List ℕ → Option (List ℕ)
after_prefix [] = none
after_prefix (c ∷ []) = none
after_prefix (c ∷ d ∷ s) = if c == b'w' && d == b'=' then some s else none

-- strconv.Atoi: `none` stands for an error, of syntax or of range.
unfoldable pub digits_value : ℕ → List ℕ → Option ℕ
digits_value acc [] = some acc
digits_value acc (c ∷ s) =
    let rest = digits_value (acc * 10 + (c - b'0')) s in
    if leb b'0' c && leb c b'9' then rest else none

abbrev pub nonempty_value : List ℕ → Option ℕ
nonempty_value [] = none
nonempty_value (c ∷ s) = digits_value 0 (c ∷ s)

abbrev pub in_range : Bool → ℕ → Option ℤ
in_range true n = if leb n (2 ^ 63) then some (sub_ℕ 0 n) else none
in_range false n = if ltb n (2 ^ 63) then some (pos n) else none

abbrev pub signed : Bool → Option ℕ → Option ℤ
signed minus none = none
signed minus (some n) = in_range minus n

unfoldable pub atoi : List ℕ → Option ℤ
atoi [] = none
atoi (c ∷ s) =
    if c == b'-'
    then signed true (nonempty_value s)
    else if c == b'+'
    then signed false (nonempty_value s)
    else signed false (nonempty_value (c ∷ s))

-- The window that one part carries, if it carries a usable one.
abbrev pub positive : Option ℤ → Option ℤ
positive none = none
positive (some n) = if ltb_ℤ (pos 0) n then some n else none

abbrev pub window_after : Option (List ℕ) → Option ℤ
window_after none = none
window_after (some rest) = positive (atoi (trim_space rest))

unfoldable pub part_window : List ℕ → Option ℤ
part_window part = window_after (after_prefix (trim_space part))

abbrev pub or_else : Option ℤ → ℤ → ℤ
or_else (some n) later = n
or_else none later = later

unfoldable pub first_window : List (List ℕ) → ℤ
first_window [] = pos 0
first_window (part ∷ parts) = or_else (part_window part) (first_window parts)

unfoldable pub parse_policy_window : List ℕ → ℤ
parse_policy_window policy = first_window (split_on b';' policy)
