-- ===== src/Queue/Sort.antt =====
-- PopBest and the stable sort behind it, in internal/queue/queue.go.
use mathlib.Core.List.{Perm}
use mathlib.Core.List.Perm
use ns_cas.Base.{
  ◌≡◌, refl, ap, sym, subst, true, false, List, [], ◌∷◌, ◌++◌, All, All-append, All-mono, if_cases,
  arith, none, some,
}
use ns_cas.Base.Int.{ℤ}
use ns_cas.Queue.{
  Floats, Item, Queue, insert_item, sort_slice_stable, sort_by_effective, pop_best,
  effective_priority, take_head,
}

-- The order of float64 values that are not NaN is a strict weak order.
pub record FloatOrder {F : Type 0} (o : Floats F) : Type 0 where
  pub asym : (a b : F) → o.gtb a b ≡ true → o.gtb b a ≡ false
  pub trans : (a b c : F) → o.gtb a b ≡ false → o.gtb b c ≡ false → o.gtb a c ≡ false

module _ {F : Type 0} (o : Floats F) (key : Item F → F) where
  insert_item-perm : (x : Item F) (xs : List (Item F)) → Perm (x ∷ xs) (insert_item o key x xs)
  unfolding insert_item
  insert_item-perm x [] = Perm.refl (x ∷ [])
  insert_item-perm x (y ∷ ys) =
      if_cases (Perm (x ∷ y ∷ ys)) (o.gtb (key y) (key x))
        (λ _. Perm.trans (Perm.swap y x ys) (Perm.cons y (insert_item-perm x ys)))
        (λ _. Perm.refl (x ∷ y ∷ ys))

  pub sort_slice_stable-perm : (xs : List (Item F)) → Perm xs (sort_slice_stable o key xs)
  unfolding sort_slice_stable
  sort_slice_stable-perm [] = Perm.refl []
  sort_slice_stable-perm (x ∷ xs) =
      Perm.trans (Perm.cons x (sort_slice_stable-perm xs))
        (insert_item-perm x (sort_slice_stable o key xs))

  -- `best` stands first among the items of the highest key, and `rest` is what is left, sorted.
  pub record IsFirstBest (xs : List (Item F)) (best : Item F) (rest : List (Item F)) : Type 0 where
    pub before : List (Item F)
    pub after : List (Item F)
    pub split : xs ≡ before ++ best ∷ after
    pub left : rest ≡ sort_slice_stable o key (before ++ after)
    pub beats : All (λ x. o.gtb (key best) (key x) ≡ true) before
    pub unbeaten : All (λ x. o.gtb (key x) (key best) ≡ false) after

  abbrev Heads : List (Item F) → List (Item F) → Type 0
  Heads xs [] = xs ≡ []
  Heads xs (best ∷ rest) = IsFirstBest xs best rest

  -- A newcomer at the front that the old best beats.
  kept :
      (x best : Item F) (xs rest : List (Item F))
      → o.gtb (key best) (key x) ≡ true
      → IsFirstBest xs best rest
      → IsFirstBest (x ∷ xs) best (insert_item o key x rest)
  unfolding sort_slice_stable
  kept x best xs rest t h = record {
    before = x ∷ h.before;
    after = h.after;
    split = ap (◌∷◌ x) h.split;
    left = ap (insert_item o key x) h.left;
    beats = (t, h.beats);
    unbeaten = h.unbeaten;
  }

  -- A newcomer at the front that the old best does not beat: nothing beats it.
  overtaken :
      (l : FloatOrder o) (x best : Item F) (xs rest : List (Item F))
      → o.gtb (key best) (key x) ≡ false
      → best ∷ rest ≡ sort_slice_stable o key xs
      → IsFirstBest xs best rest
      → IsFirstBest (x ∷ xs) x (best ∷ rest)
  overtaken l x best xs rest t e h = record {
    before = [];
    after = xs;
    split = refl;
    left = e;
    beats = tt;
    unbeaten = subst (All (λ y. o.gtb (key y) (key x) ≡ false)) (sym h.split) (
        All-append _ h.before (best ∷ h.after)
          (All-mono _ _ (λ y b. l.trans _ _ _ (l.asym _ _ b) t) h.before h.beats)
          (t, All-mono _ _ (λ y b. l.trans _ _ _ b t) h.after h.unbeaten));
  }

  insert_item-Heads :
      (l : FloatOrder o) (x : Item F) (xs s : List (Item F))
      → s ≡ sort_slice_stable o key xs
      → Heads xs s
      → Heads (x ∷ xs) (insert_item o key x s)
  unfolding insert_item
  insert_item-Heads l x xs [] e h = record {
    before = [];
    after = xs;
    split = refl;
    left = e;
    beats = tt;
    unbeaten = subst (All (λ y. o.gtb (key y) (key x) ≡ false)) (sym h) tt;
  }
  insert_item-Heads l x xs (best ∷ rest) e h =
      if_cases (Heads (x ∷ xs)) (o.gtb (key best) (key x)) (λ t. kept x best xs rest t h)
        (λ t. overtaken l x best xs rest t e h)

  pub sort_slice_stable-Heads :
      (l : FloatOrder o) (xs : List (Item F)) → Heads xs (sort_slice_stable o key xs)
  unfolding sort_slice_stable
  sort_slice_stable-Heads l [] = refl
  sort_slice_stable-Heads l (x ∷ xs) =
      insert_item-Heads l x xs (sort_slice_stable o key xs) refl (sort_slice_stable-Heads l xs)

module _ {F : Type 0} where
  take_head-some :
      (w : F) (s : List (Item F)) {best : Item F} {rest : Queue F}
      → take_head w s ≡ some (best, rest)
      → s ≡ best ∷ rest.items
  take_head-some w [] e = cc
  take_head-some w (b ∷ r) e = ground arith

  take_head-none : (w : F) (s : List (Item F)) → take_head w s ≡ none → s ≡ []
  take_head-none w [] e = refl
  take_head-none w (b ∷ r) e = cc

  -- If the comparison of priorities is a strict weak order, PopBest takes the waiting item whose
  -- effective priority no other item exceeds, the first of those that tie, and leaves the others,
  -- sorted.
  pub pop_best-IsFirstBest :
      (o : Floats F) (now : ℤ) (q : Queue F) {best : Item F} {rest : Queue F}
      → FloatOrder o
      → pop_best o now q ≡ some (best, rest)
      → IsFirstBest o (effective_priority o q.aging_weight now) q.items best rest.items
  unfolding pop_best sort_by_effective
  pop_best-IsFirstBest o now q l e =
      subst (Heads o _ q.items) (take_head-some q.aging_weight _ e)
        (sort_slice_stable-Heads o _ l q.items)

  -- When PopBest takes an item, the items of the queue are that item and those that are left,
  -- each as often as before.
  pub pop_best-perm :
      (o : Floats F) (now : ℤ) (q : Queue F) {best : Item F} {rest : Queue F}
      → pop_best o now q ≡ some (best, rest)
      → Perm q.items (best ∷ rest.items)
  unfolding pop_best sort_by_effective
  pop_best-perm o now q e =
      subst (Perm q.items) (take_head-some q.aging_weight _ e) (sort_slice_stable-perm o _ q.items)

  -- It answers nil exactly on the empty queue.
  pub pop_best-none :
      (o : Floats F) (now : ℤ) (q : Queue F) → pop_best o now q ≡ none → q.items ≡ []
  unfolding pop_best sort_by_effective
  pop_best-none o now q e = Perm.eq-nil (
      subst (Perm q.items) (take_head-none q.aging_weight _ e) (sort_slice_stable-perm o _ q.items))
