-- ===== src/Examples/Waiting.antt =====
-- Runs of the wait queue.
use ns_cas.Base.{ℕ, ◌≡◌, refl, List, [], ◌∷◌, ◌++◌, some, All}
use ns_cas.Base.Int.{pos, ◌-ℤ◌, ◌≤ℤ◌}
use ns_cas.Messages.{sub_time}
use ns_cas.Queue.{
  Item, pop_best, sort_by_effective, sort_slice_stable, insert_item, effective_priority,
}
use ns_cas.Queue.Sort.{IsFirstBest, pop_best-IsFirstBest}
use ns_cas.Queue.Order.{pop_best_fifo}
use ns_cas.Examples.Data.{at_10, whole, whole-FloatOrder, whole-FloatMono, two_waiting, waiting}

-- "b" has waited longest.
first_is_b :
    pop_best whole at_10 two_waiting
    ≡ some (
      waiting "b" (pos 2000000000) 0,
      record two_waiting { items = waiting "c" (pos 5000000000) 1 ∷ [] },
    )
unfolding pop_best sort_by_effective sort_slice_stable insert_item effective_priority sub_time ◌-ℤ◌
first_is_b = refl

pop_best-IsFirstBest_example :
    IsFirstBest whole
      (effective_priority whole 2 at_10)
      two_waiting.items
      (waiting "b" (pos 2000000000) 0)
      (waiting "c" (pos 5000000000) 1 ∷ [])
pop_best-IsFirstBest_example =
    pop_best-IsFirstBest whole at_10 two_waiting {best = waiting "b" (pos 2000000000) 0}
      {rest = record two_waiting { items = waiting "c" (pos 5000000000) 1 ∷ [] }} whole-FloatOrder
      first_is_b

pop_best_fifo_example :
    (before : List (Item ℕ)) × (after : List (Item ℕ)) × (two_waiting.items
      ≡ before ++ waiting "b" (pos 2000000000) 0 ∷ after)
    × All (λ x. ¬ ((x.base_priority ≡ 50) × (x.queued_at ≤ℤ pos 2000000000))) before
pop_best_fifo_example =
    pop_best_fifo whole whole-FloatMono at_10 two_waiting {best = waiting "b" (pos 2000000000) 0}
      {rest = record two_waiting { items = waiting "c" (pos 5000000000) 1 ∷ [] }} whole-FloatOrder
      refl first_is_b
