-- ===== src/Store/Appliances.antt =====
-- QueryDistinctAppliances of internal/db/db.go.
use Prim.Native.Nat.{Ordering, compare as compare_ℕ}
use Prim.Native.Char.{code}
use Prim.Native.String.{compare, then}
use Prim.Native.String.compare
use text.Mathlib.Text.{is_lt}
use mathlib.Core.List.{Perm, Mem, Mem-prop, Nodup, Nodup-cons, Nodup-nil, mem-cons, not-mem-nil}
use mathlib.Core.List.Perm
use mathlib.Core.Logic.Or
use mathlib.Core.HLevel.{⊥_prop}
use mathlib.Core.Bool.{false≢true}
use ns_cas.Base.{
  ◌∙◌, ℕ, ◌≡◌, ap, subst, sym, Bool, true, false, ◌||◌, String, str_eq, List, [], ◌∷◌, map,
  if◌then◌else◌, if_cases, arith, inl, inr, ◌↔◌, eq_iff, Bool-cases,
}
use ns_cas.Store.{Row, LogRow, Store}

-- SELECT DISTINCT ... ORDER BY, with the order of the bytes of the names.
unfoldable pub contains : String → List String → Bool
contains s [] = false
contains s (t ∷ ts) = str_eq s t || contains s ts

unfoldable pub distinct : List String → List String
distinct [] = []
distinct (s ∷ ss) = let rest = distinct ss in if contains s rest then rest else s ∷ rest

unfoldable pub insert_name : String → List String → List String
insert_name s [] = s ∷ []
insert_name s (t ∷ ts) =
    let rest = insert_name s ts in if is_lt (compare t s) then t ∷ rest else s ∷ t ∷ ts

unfoldable pub order_names : List String → List String
order_names [] = []
order_names (s ∷ ss) = insert_name s (order_names ss)

abbrev pub appliance_of : Row LogRow → String
appliance_of r = r.value.appliance_id

unfoldable pub query_distinct_appliances : Store → List String
query_distinct_appliances s = order_names (distinct (map appliance_of s.api_logs.rows))

contains-false : (s : String) (ts : List String) → contains s ts ≡ false → ¬ Mem s ts
unfolding contains
contains-false s [] e m = not-mem-nil m
contains-false s (t ∷ ts) e m = elim (Bool-cases (str_eq s t)) [
  | inl hit ↦ cc (rw hit at e)
  | inr miss ↦
      Or.elim ⊥_prop (mem-cons.0 m) (λ p. false≢true (sym miss ∙ (eq_iff s t).1 p))
        (contains-false s ts (rw miss at e))
]

contains-true : (s : String) (ts : List String) → contains s ts ≡ true → Mem s ts
unfolding contains
contains-true s [] e = cc
contains-true s (t ∷ ts) e = elim (Bool-cases (str_eq s t)) [
  | inl hit ↦ mem-cons.1 (Or.inl ((eq_iff s t).0 hit))
  | inr miss ↦ mem-cons.1 (Or.inr (contains-true s ts (rw miss at e)))
]

distinct-Nodup : (ss : List String) → Nodup (distinct ss)
unfolding distinct
distinct-Nodup [] = Nodup-nil
distinct-Nodup (s ∷ ss) =
    if_cases Nodup (contains s (distinct ss)) (λ _. distinct-Nodup ss)
      (λ e. Nodup-cons.1 (contains-false s (distinct ss) e, distinct-Nodup ss))

insert_name-perm : (s : String) (ts : List String) → Perm (s ∷ ts) (insert_name s ts)
unfolding insert_name
insert_name-perm s [] = Perm.refl (s ∷ [])
insert_name-perm s (t ∷ ts) =
    if_cases (Perm (s ∷ t ∷ ts)) (is_lt (compare t s))
      (λ _. Perm.trans (Perm.swap t s ts) (Perm.cons t (insert_name-perm s ts)))
      (λ _. Perm.refl (s ∷ t ∷ ts))

order_names-perm : (ss : List String) → Perm ss (order_names ss)
unfolding order_names
order_names-perm [] = Perm.refl []
order_names-perm (s ∷ ss) =
    Perm.trans (Perm.cons s (order_names-perm ss)) (insert_name-perm s (order_names ss))

-- An earlier name never comes after.
then_asym :
    (m n : ℕ) (a b : Ordering)
    → (is_lt a ≡ true → is_lt b ≡ false)
    → is_lt ((then) (compare_ℕ m n) a) ≡ true
    → is_lt ((then) (compare_ℕ n m) b) ≡ false
then_asym m n a b h e = ground arith

compare_asym : (s t : String) → is_lt (compare s t) ≡ true → is_lt (compare t s) ≡ false
compare_asym String.[] String.[] e = cc
compare_asym String.[] (String.◌∷◌ d t) e = ap is_lt (compare.cons-nil d t)
compare_asym (String.◌∷◌ c s) String.[] e =
    absurd (false≢true (sym (ap is_lt (compare.cons-nil c s)) ∙ e))
compare_asym (String.◌∷◌ c s) (String.◌∷◌ d t) e =
    ap is_lt (compare.cons-cons d c t s)
    ∙ then_asym (code c) (code d) (compare s t) (compare t s) (compare_asym s t)
        (sym (ap is_lt (compare.cons-cons c d s t)) ∙ e)

-- No name comes before the one that it follows.
abbrev pub IsSorted : List String → Type 0
IsSorted [] = Unit
IsSorted (s ∷ []) = Unit
IsSorted (s ∷ t ∷ ts) = (is_lt (compare t s) ≡ false) × IsSorted (t ∷ ts)

insert_name-IsSorted : (s : String) (ts : List String) → IsSorted ts → IsSorted (insert_name s ts)
unfolding insert_name
insert_name-IsSorted s [] h = tt
insert_name-IsSorted s (t ∷ []) h =
    if_cases IsSorted (is_lt (compare t s)) (λ e. (compare_asym t s e, tt)) (λ e. (e, tt))
insert_name-IsSorted s (t ∷ u ∷ ts) h =
    if_cases IsSorted (is_lt (compare t s))
      (λ e.
        if_cases (λ ys. IsSorted ys → IsSorted (t ∷ ys)) (is_lt (compare u s)) (λ _ k. (h.0, k))
          (λ _ k. (compare_asym t s e, k)) (insert_name-IsSorted s (u ∷ ts) h.1))
      (λ e. (e, h))

order_names-IsSorted : (ss : List String) → IsSorted (order_names ss)
unfolding order_names
order_names-IsSorted [] = tt
order_names-IsSorted (s ∷ ss) = insert_name-IsSorted s (order_names ss) (order_names-IsSorted ss)

-- The same names, in whatever order.
distinct-Mem : (s : String) (ss : List String) → Mem s (distinct ss) ↔ Mem s ss
unfolding distinct
distinct-Mem s [] = (λ m. m, λ m. m)
distinct-Mem s (t ∷ ss) =
    let ih = distinct-Mem s ss in
    if_cases (λ ts. Mem s ts ↔ Mem s (t ∷ ss)) (contains t (distinct ss))
      (λ e. (
        λ m. mem-cons.1 (Or.inr (ih.0 m)),
        λ m.
            Or.elim Mem-prop (mem-cons.0 m)
              (λ p. subst (λ x. Mem x (distinct ss)) (sym p) (contains-true t (distinct ss) e))
              ih.1,
      ))
      (λ _. (
        λ m. mem-cons.1 (Or.imp (λ p. p) ih.0 (mem-cons.0 m)),
        λ m. mem-cons.1 (Or.imp (λ p. p) ih.1 (mem-cons.0 m)),
      ))

-- QueryDistinctAppliances gives each name once, no name before one that it should follow, and
-- exactly the names that occur in the log.
pub query_distinct_appliances_lem :
    (s : Store)
    → let ids = query_distinct_appliances s in
      Nodup ids
      × IsSorted ids
      × ((id : String) → Mem id ids ↔ Mem id (map appliance_of s.api_logs.rows))
unfolding query_distinct_appliances
query_distinct_appliances_lem s =
    let ids = map appliance_of s.api_logs.rows in
    let p = order_names-perm (distinct ids) in
    (
      Perm.nodup p (distinct-Nodup ids),
      order_names-IsSorted (distinct ids),
      λ id. (
        λ m. (distinct-Mem id ids).0 ((Perm.mem_iff p).1 m),
        λ m. (Perm.mem_iff p).0 ((distinct-Mem id ids).1 m),
      ),
    )
