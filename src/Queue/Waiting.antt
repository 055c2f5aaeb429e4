-- ===== src/Queue/Waiting.antt =====
-- The appliances that wait, under the operations of internal/queue/queue.go.
use mathlib.Core.HLevel.{⊥_prop}
use mathlib.Core.Bool.{false≢true}
use mathlib.Core.List.{Perm, Mem, not-mem-nil, mem-cons, map-append}
use mathlib.Core.List.Perm
use mathlib.Core.Logic.Or
use ns_cas.Base.{
  suc, ◌≡◌, refl, sym, ◌∙◌, ◌⊎◌, inl, inr, true, false, String, str_eq, eq_iff, List, [], ◌∷◌, ◌++◌,
  map, length-append, arith, Bool-cases, some,
}
use ns_cas.Base.Int.{ℤ}
use ns_cas.Queue.{
  Floats, Item, Queue, enqueue, pop_best, remove_item, has_item, has_appliance, remove, len,
}
use ns_cas.Queue.Sort.{pop_best-perm}

module _ {F : Type 0} where
  abbrev pub item_ids : List (Item F) → List String
  item_ids = map (λ it. it.appliance_id)

  abbrev pub ids : Queue F → List String
  ids q = item_ids q.items

  pub ids-enqueue :
      (item : Item F) (q : Queue F) → ids (enqueue item q) ≡ ids q ++ item.appliance_id ∷ []
  unfolding enqueue
  ids-enqueue item q = map-append _ q.items (item ∷ [])

  pub ids-pop_best :
      (o : Floats F) (now : ℤ) (q : Queue F) {best : Item F} {rest : Queue F}
      → pop_best o now q ≡ some (best, rest)
      → Perm (ids q) (best.appliance_id ∷ ids rest)
  ids-pop_best o now q e = Perm.map _ (pop_best-perm o now q e)

  pub has_item-false :
      (id : String) (its : List (Item F)) → has_item id its ≡ false → ¬ Mem id (item_ids its)
  unfolding has_item
  has_item-false id [] e h = not-mem-nil h
  has_item-false id (it ∷ its) e h = elim (Bool-cases (str_eq it.appliance_id id)) [
    | inl hit ↦ cc (rw hit at e)
    | inr miss ↦
        Or.elim ⊥_prop (mem-cons.0 h)
          (λ p. false≢true (sym miss ∙ (eq_iff it.appliance_id id).1 (sym p)))
          (has_item-false id its (rw miss at e))
  ]

  -- HasAppliance answers no only for an appliance that does not wait.
  pub has_appliance-false :
      (id : String) (q : Queue F) → has_appliance id q ≡ false → ¬ Mem id (ids q)
  unfolding has_appliance
  has_appliance-false id q = has_item-false id q.items

  pub remove_item-perm :
      (id : String) (its : List (Item F))
      → has_item id its ≡ true
      → Perm (item_ids its) (id ∷ item_ids (remove_item id its))
  unfolding has_item remove_item
  remove_item-perm id [] e = cc
  remove_item-perm id (it ∷ its) e = elim (Bool-cases (str_eq it.appliance_id id)) [
    | inl hit ↦ rw (hit, (eq_iff it.appliance_id id).0 hit) (Perm.refl _)
    | inr miss ↦ rw miss (
        Perm.trans (Perm.cons it.appliance_id (remove_item-perm id its (rw miss at e)))
          (Perm.swap id it.appliance_id _))
  ]

  pub remove_item_absent :
      (id : String) (its : List (Item F)) → has_item id its ≡ false → remove_item id its ≡ its
  unfolding has_item remove_item
  remove_item_absent id [] e = refl
  remove_item_absent id (it ∷ its) e = ground (arith, remove_item_absent id its)

  -- Remove either answers true and has taken exactly one entry of the appliance out of the queue,
  -- or answers false and leaves the queue as it is.
  pub remove_cases :
      (id : String) (q : Queue F)
      → let (q', found) = remove id q in
        (found ≡ true) × Perm (ids q) (id ∷ ids q') ⊎ (found ≡ false) × (q' ≡ q)
  unfolding remove
  remove_cases id q = elim (Bool-cases (has_item id q.items)) [
    | inl hit ↦ inl (hit, remove_item-perm id q.items hit)
    | inr miss ↦ inr (miss, λ i. record q { items = remove_item_absent id q.items miss i })
  ]

  pub len-enqueue : (item : Item F) (q : Queue F) → len (enqueue item q) ≡ suc (len q)
  unfolding len enqueue
  len-enqueue item q = omega (arith, length-append q.items (item ∷ []))

  has_item_absent :
      (id : String) (its : List (Item F)) → ¬ Mem id (item_ids its) → has_item id its ≡ false
  unfolding has_item
  has_item_absent id [] h = refl
  has_item_absent id (it ∷ its) h = elim (Bool-cases (str_eq it.appliance_id id)) [
    | inl hit ↦ absurd (h (mem-cons.1 (Or.inl (sym ((eq_iff it.appliance_id id).0 hit)))))
    | inr miss ↦ rw miss (has_item_absent id its (λ m. h (mem-cons.1 (Or.inr m))))
  ]

  pub has_appliance_absent :
      (id : String) (q : Queue F) → ¬ Mem id (ids q) → has_appliance id q ≡ false
  unfolding has_appliance
  has_appliance_absent id q = has_item_absent id q.items
