-- ===== src/Notifier.antt =====
-- internal/handlers/notifier.go: the subscribers of the dashboard. A subscriber's channel of
-- struct{} with room for 8 is the count of the values in it. The subscriber map is an association
-- list, and an id is the decimal of a counter, here the counter itself.
pub mod Laws
use ns_cas.Base.{
  ℕ, suc, zero, ◌+◌, ◌-◌, ◌≡◌, refl, ap, true, false, Option, none, some, List, [], ◌∷◌, ltb, ◌==◌,
  if◌then◌else◌, arith, map,
}

pub record Notifier : Type 0 where
  pub subs : List (ℕ × ℕ)
  pub id_seq : ℕ

unfoldable pub new_notifier : Notifier
new_notifier = record { subs = []; id_seq = 0 }

unfoldable pub subscribe : Notifier → Notifier × ℕ
subscribe n = let id = suc n.id_seq in (record { subs = (id, 0) ∷ n.subs; id_seq = id }, id)

unfoldable pub without : ℕ → List (ℕ × ℕ) → List (ℕ × ℕ)
without id [] = []
without id ((k, c) ∷ subs) = let rest = without id subs in if k == id then rest else (k, c) ∷ rest

unfoldable pub unsubscribe : ℕ → Notifier → Notifier
unsubscribe id n = record n { subs = without id n.subs }

-- `select { case ch <- struct{}{}: default: }`.
unfoldable pub signal : ℕ → ℕ
signal held = if ltb held 8 then suc held else held

unfoldable pub signal_all : List (ℕ × ℕ) → List (ℕ × ℕ)
signal_all [] = []
signal_all ((k, c) ∷ subs) = (k, signal c) ∷ signal_all subs

unfoldable pub notify_all : Notifier → Notifier
notify_all n = record n { subs = signal_all n.subs }

-- The values that wait for a subscriber.
unfoldable pub held_by : ℕ → List (ℕ × ℕ) → Option ℕ
held_by id [] = none
held_by id ((k, c) ∷ subs) = if k == id then some c else held_by id subs

-- `<-ch`, on a channel that holds a value.
unfoldable pub take_signal : ℕ → List (ℕ × ℕ) → List (ℕ × ℕ)
take_signal id [] = []
take_signal id ((k, c) ∷ subs) =
    let rest = take_signal id subs in if k == id then (k, c - 1) ∷ subs else (k, c) ∷ rest
