-- ===== src/Notifier/Laws.antt =====
-- The channels of the subscribers under the operations of internal/handlers/notifier.go.
use ns_cas.Base.{
  ℕ, suc, ◌≤◌, ◌≡◌, refl, ◌∙◌, none, some, List, [], ◌∷◌, ltb, ◌==◌, if◌then◌else◌, arith, All,
  false,
}
use ns_cas.Notifier.{
  Notifier, subscribe, without, unsubscribe, signal, signal_all, notify_all, held_by,
}

-- Every channel holds 8 values at most, and no id is beyond the counter.
abbrev pub IsRoomy : Notifier → Type 0
IsRoomy n = All (λ s. (s.1 ≤ 8) × (s.0 ≤ n.id_seq)) n.subs

pub signal_all-held :
    (id : ℕ) (subs : List (ℕ × ℕ)) {c : ℕ}
    → held_by id subs ≡ some c
    → held_by id (signal_all subs) ≡ some (signal c)
unfolding held_by signal_all
signal_all-held id [] h = cc
signal_all-held id ((k, d) ∷ subs) {c} h = ground (arith, signal_all-held id subs {c = c})

pub without-held : (id : ℕ) (subs : List (ℕ × ℕ)) → held_by id (without id subs) ≡ none
unfolding held_by without
without-held id [] = refl
without-held id ((k, d) ∷ subs) = ground (arith, without-held id subs)

pub without-others :
    (id other : ℕ) (subs : List (ℕ × ℕ))
    → (id == other) ≡ false
    → held_by other (without id subs) ≡ held_by other subs
unfolding held_by without
without-others id other [] h = refl
without-others id other ((k, d) ∷ subs) h = ground (arith, without-others id other subs)

pub held_first : (id c : ℕ) (subs : List (ℕ × ℕ)) → held_by id ((id, c) ∷ subs) ≡ some c
unfolding held_by
held_first id c subs = ground arith

pub held_next :
    (id k c : ℕ) (subs : List (ℕ × ℕ))
    → (k == id) ≡ false
    → held_by id ((k, c) ∷ subs) ≡ held_by id subs
unfolding held_by
held_next id k c subs h = rw h

signal-le : (c : ℕ) → c ≤ 8 → signal c ≤ 8
unfolding signal
signal-le c h = ground arith

signal_all-All :
    (bound : ℕ) (subs : List (ℕ × ℕ))
    → All (λ s. (s.1 ≤ 8) × (s.0 ≤ bound)) subs
    → All (λ s. (s.1 ≤ 8) × (s.0 ≤ bound)) (signal_all subs)
unfolding signal_all
signal_all-All bound [] h = h
signal_all-All bound ((k, c) ∷ subs) h = ground (arith, signal_all-All bound subs, signal-le c)

without-All :
    (id bound : ℕ) (subs : List (ℕ × ℕ))
    → All (λ s. (s.1 ≤ 8) × (s.0 ≤ bound)) subs
    → All (λ s. (s.1 ≤ 8) × (s.0 ≤ bound)) (without id subs)
unfolding without
without-All id bound [] h = h
without-All id bound ((k, c) ∷ subs) h = ground (arith, without-All id bound subs)

pub fresh-held :
    (bound : ℕ) (subs : List (ℕ × ℕ))
    → All (λ s. (s.1 ≤ 8) × (s.0 ≤ bound)) subs
    → held_by (suc bound) subs ≡ none
unfolding held_by
fresh-held bound [] h = refl
fresh-held bound ((k, c) ∷ subs) h = ground (arith, fresh-held bound subs)

raise-All :
    (bound : ℕ) (subs : List (ℕ × ℕ))
    → All (λ s. (s.1 ≤ 8) × (s.0 ≤ bound)) subs
    → All (λ s. (s.1 ≤ 8) × (s.0 ≤ suc bound)) subs
raise-All bound [] h = h
raise-All bound ((k, c) ∷ subs) h = ground (arith, raise-All bound subs)

-- Subscribe, Unsubscribe and Notify keep every channel within its 8 values and every id within
-- the counter.
pub operations-IsRoomy :
    (id : ℕ) (n : Notifier)
    → IsRoomy n
    → IsRoomy (subscribe n).0 × IsRoomy (unsubscribe id n) × IsRoomy (notify_all n)
unfolding subscribe unsubscribe notify_all
operations-IsRoomy id n h = (
  ((omega arith, omega arith), raise-All n.id_seq n.subs h),
  without-All id n.id_seq n.subs h,
  signal_all-All n.id_seq n.subs h,
)

-- If no id in use is beyond the counter and no channel holds more than 8 values, Subscribe gives
-- an id that was not in use, the next Notify leaves one value for it, and after Unsubscribe it
-- has no channel.
pub subscriber_lifecycle :
    (n : Notifier)
    → IsRoomy n
    → let (m, id) = subscribe n in
      (held_by id n.subs ≡ none)
      × (held_by id (notify_all m).subs ≡ some 1)
      × (held_by id (unsubscribe id (notify_all m)).subs ≡ none)
unfolding subscribe unsubscribe notify_all signal
subscriber_lifecycle n h = (
  fresh-held n.id_seq n.subs h,
  signal_all-held (suc n.id_seq) ((suc n.id_seq, 0) ∷ n.subs) {c = 0}
      (held_first (suc n.id_seq) 0 n.subs),
  without-held (suc n.id_seq) (signal_all ((suc n.id_seq, 0) ∷ n.subs)),
)

-- When one subscriber leaves, the next Notify still reaches every other: its channel gets one
-- more value if it held fewer than 8, and stays as it is otherwise.
pub notify_all_others :
    (id other : ℕ) (n : Notifier) {c : ℕ}
    → held_by other n.subs ≡ some c
    → (id == other) ≡ false
    → held_by other (notify_all (unsubscribe id n)).subs ≡ some (if ltb c 8 then suc c else c)
unfolding unsubscribe notify_all signal
notify_all_others id other n {c} h d =
    signal_all-held other (without id n.subs) {c = c} (without-others id other n.subs d ∙ h)
