-- ===== src/Queue/Order.antt =====
-- PopBest of internal/queue/queue.go on items of one base priority that have aged differently.
use mathlib.Core.Bool.{false≢true}
use ns_cas.Base.{◌++◌, ◌∙◌, ◌≡◌, sym, arith, false, List, ◌∷◌, All, All-mono, some}
use ns_cas.Base.Int.{ℤ, ◌≤ℤ◌, ◌-ℤ◌, int_laws}
use ns_cas.Messages.{sub_time}
use ns_cas.Queue.{Floats, Item, Queue, effective_priority, pop_best}
use ns_cas.Queue.Sort.{FloatOrder, pop_best-IsFirstBest}

-- Rounding is monotone: so are addition to a fixed value, multiplication by a fixed factor that is
-- not negative, and the conversion of a duration, as long as no result is NaN.
pub record FloatMono {F : Type 0} (o : Floats F) : Type 0 where
  pub add_mono : (a x y : F) → o.gtb x y ≡ false → o.gtb (o.add a x) (o.add a y) ≡ false
  pub mul_mono :
      (w x y : F)
      → o.gtb (o.of_int 0) w ≡ false
      → o.gtb x y ≡ false
      → o.gtb (o.mul w x) (o.mul w y) ≡ false
  pub seconds_mono :
      (a b : ℤ) → a ≤ℤ b → o.gtb (o.duration_seconds a) (o.duration_seconds b) ≡ false

module _ {F : Type 0} (o : Floats F) (m : FloatMono o) where
  since_mono : (now a b : ℤ) → a ≤ℤ b → now -ℤ b ≤ℤ now -ℤ a
  since_mono now a b h = omega int_laws

  age_mono : (now a b : ℤ) → a ≤ℤ b → sub_time now b ≤ℤ sub_time now a
  unfolding sub_time
  age_mono now a b h = ground (arith, since_mono now a b h)

  older_keeps_up :
      (w : F) (now : ℤ) (x y : Item F)
      → o.gtb (o.of_int 0) w ≡ false
      → x.base_priority ≡ y.base_priority
      → x.queued_at ≤ℤ y.queued_at
      → o.gtb (effective_priority o w now y) (effective_priority o w now x) ≡ false
  unfolding effective_priority
  older_keeps_up w now x y hw e h = rw e (
      m.add_mono _ _ _
        (m.mul_mono w _ _ hw (m.seconds_mono _ _ (age_mono now x.queued_at y.queued_at h))))

  -- If float64 arithmetic is monotone, its comparison is a strict weak order, and the aging
  -- weight is not negative, then no item that stands before the one that PopBest takes has the
  -- same base priority and was queued no later.
  pub pop_best_fifo :
      (now : ℤ) (q : Queue F) {best : Item F} {rest : Queue F}
      → FloatOrder o
      → o.gtb (o.of_int 0) q.aging_weight ≡ false
      → pop_best o now q ≡ some (best, rest)
      → (before : List (Item F)) × (after : List (Item F)) × (q.items ≡ before ++ best ∷ after)
        × All
            (λ x. ¬ ((x.base_priority ≡ best.base_priority) × (x.queued_at ≤ℤ best.queued_at)))
            before
  pop_best_fifo now q {best} l hw e =
      let h = pop_best-IsFirstBest o now q l e in
      (
        h.before,
        h.after,
        h.split,
        All-mono _ _
            (λ x b p. false≢true (sym (older_keeps_up q.aging_weight now x best hw p.0 p.1) ∙ b))
            h.before h.beats,
      )
