-- ===== src/Dict.antt =====
-- Go's map[string]*T as an association list: a key is looked up at its first entry.
use mathlib.Core.List.{Perm, Mem, not-mem-nil, mem-cons}
use mathlib.Core.List.Perm
use mathlib.Core.HLevel.{⊥_prop}
use mathlib.Core.Logic.Or
use mathlib.Core.Bool.{false≢true}
use ns_cas.Base.{
  suc, ◌≡◌, refl, sym, ap, ◌∙◌, inl, inr, String, str_eq, eq_iff, List, [], ◌∷◌, Option, none, some,
  length, arith, if◌then◌else◌, Bool-cases,
}

module _ {V : Type 0} where
  unfoldable pub lookup : String → List (String × V) → Option V
  lookup k [] = none
  lookup k ((j, v) ∷ m) = if str_eq j k then some v else lookup k m

  -- delete(m, k).
  unfoldable pub erase : String → List (String × V) → List (String × V)
  erase k [] = []
  erase k ((j, v) ∷ m) = if str_eq j k then m else (j, v) ∷ erase k m

  -- m[k] = v.
  unfoldable pub insert : String → V → List (String × V) → List (String × V)
  insert k v m = (k, v) ∷ erase k m

  abbrev pub keys : List (String × V) → List String
  keys [] = []
  keys ((j, v) ∷ m) = j ∷ keys m

  pub length-keys : (m : List (String × V)) → length m ≡ length (keys m)
  length-keys [] = refl
  length-keys ((j, v) ∷ m) = ap suc (length-keys m)

  pub erase_absent : (k : String) (m : List (String × V)) → lookup k m ≡ none → erase k m ≡ m
  unfolding lookup erase
  erase_absent k [] e = refl
  erase_absent k ((j, v) ∷ m) e = ground (arith, erase_absent k m)

  pub length-erase :
      (k : String) (m : List (String × V)) {v : V}
      → lookup k m ≡ some v
      → suc (length (erase k m)) ≡ length m
  unfolding lookup erase
  length-erase k [] e = cc
  length-erase k ((j, w) ∷ m) {v} e = ground (arith, length-erase k m {v = v})

  pub keys-erase-perm :
      (k : String) (m : List (String × V)) {v : V}
      → lookup k m ≡ some v
      → Perm (keys m) (k ∷ keys (erase k m))
  unfolding lookup erase
  keys-erase-perm k [] e = cc
  keys-erase-perm k ((j, w) ∷ m) {v} e = elim (Bool-cases (str_eq j k)) [
    | inl hit ↦ rw (hit, (eq_iff j k).0 hit) (Perm.refl _)
    | inr miss ↦ rw miss (
        Perm.trans (Perm.cons j (keys-erase-perm k m {v = v} (rw miss at e)))
          (Perm.swap k j (keys (erase k m))))
  ]

  pub lookup-none : (k : String) (m : List (String × V)) → lookup k m ≡ none → ¬ Mem k (keys m)
  unfolding lookup
  lookup-none k [] e h = not-mem-nil h
  lookup-none k ((j, v) ∷ m) e h = elim (Bool-cases (str_eq j k)) [
    | inl hit ↦ cc (rw hit at e)
    | inr miss ↦
        Or.elim ⊥_prop (mem-cons.0 h) (λ p. absurd (false≢true (sym miss ∙ (eq_iff j k).1 (sym p))))
          (lookup-none k m (rw miss at e))
  ]

  pub lookup_absent : (k : String) (m : List (String × V)) → ¬ Mem k (keys m) → lookup k m ≡ none
  unfolding lookup
  lookup_absent k [] h = refl
  lookup_absent k ((j, v) ∷ m) h = elim (Bool-cases (str_eq j k)) [
    | inl hit ↦ absurd (h (mem-cons.1 (Or.inl (sym ((eq_iff j k).0 hit)))))
    | inr miss ↦ rw miss (lookup_absent k m (λ q. h (mem-cons.1 (Or.inr q))))
  ]

  pub lookup-insert_self :
      (k : String) (v : V) (m : List (String × V)) → lookup k (insert k v m) ≡ some v
  unfolding lookup insert
  lookup-insert_self k v m = rw ((eq_iff k k).1 refl)
