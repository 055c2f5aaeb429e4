-- ===== src/Dashboard/Stream.antt =====
-- serveEvents of internal/dashboard/dashboard.go: a stream subscribes, writes the live state, and
-- then answers one wakeup of its `select` after the other, until its client goes. Between two
-- wakeups the notifier (internal/handlers/notifier.go) serves others.
use ns_cas.Base.{
  ℕ, suc, ◌≤◌, subst, Bool-cases, inl, inr, ◌≡◌, ◌∙◌, Bool, true, false, ◌∷◌, Option, none, some,
  ◌==◌, arith,
}
use ns_cas.Http.{Response, error}
use ns_cas.Notifier.{Notifier, subscribe, unsubscribe, notify_all, held_by, signal, take_signal}
use ns_cas.Notifier.Laws.{
  IsRoomy, operations-IsRoomy, signal_all-held, without-held, without-others, held_first, held_next,
  fresh-held,
}
use ns_cas.Dashboard.{LiveState}

pub data Frame : Type 0 where
  live : LiveState → Frame
  heartbeat : Frame

pub data Wakeup : Type 0 where
  signalled ticked gone : Wakeup

-- The first frame and the stream's id, or the error for a writer that cannot flush. The live state
-- is the one at that time.
pub data Opening : Type 0 where
  not_supported : Response → Opening
  opened : ℕ → Frame → Opening

unfoldable pub events_begin : Bool → LiveState → Notifier → Notifier × Opening
events_begin false v n = (n, not_supported (error 500 "streaming not supported"))
events_begin true v n = let (m, id) = subscribe n in (m, opened id (live v))

-- A wakeup: the frame that is written, or none when the handler returns.
unfoldable pub events_wake : ℕ → Wakeup → LiveState → Notifier → Notifier × Option Frame
events_wake id signalled v n = (record n { subs = take_signal id n.subs }, some (live v))
events_wake id ticked v n = (n, some heartbeat)
events_wake id gone v n = (unsubscribe id n, none)

-- What happens to the notifier while the stream `id` receives no signal.
pub data Turn (id : ℕ) : Notifier → Notifier → Type 0 where
  notified : (n : Notifier) → Turn id n (notify_all n)
  joined : (n : Notifier) → Turn id n (subscribe n).0
  left_by : (other : ℕ) (n : Notifier) → (other == id) ≡ false → Turn id n (unsubscribe other n)
  beat : (v : LiveState) (n : Notifier) → Turn id n (events_wake id ticked v n).0

pub data Turns (id : ℕ) (n : Notifier) : Notifier → Type 0 where
  none_yet : Turns id n n
  one_more : {m t : Notifier} → Turns id n m → Turn id m t → Turns id n t

-- A channel with at least `low` values.
record IsOpen (id : ℕ) (low : ℕ) (n : Notifier) : Type 0 where
  roomy : IsRoomy n
  count : ℕ
  held : held_by id n.subs ≡ some count
  enough : low ≤ count

signal-le : (low c : ℕ) → low ≤ c → low ≤ signal c
unfolding signal
signal-le low c h = ground arith

signal-pos : (c : ℕ) → 1 ≤ signal c
unfolding signal
signal-pos c = ground arith

notify_all-held :
    (id : ℕ) (n : Notifier) {c : ℕ}
    → held_by id n.subs ≡ some c
    → held_by id (notify_all n).subs ≡ some (signal c)
unfolding notify_all
notify_all-held id n {c} h = signal_all-held id n.subs {c = c} h

subscribe-held :
    (id : ℕ) (n : Notifier) {c : ℕ}
    → IsRoomy n
    → held_by id n.subs ≡ some c
    → held_by id (subscribe n).0.subs ≡ some c
unfolding subscribe
subscribe-held id n {c} r h = elim (Bool-cases (suc n.id_seq == id)) [
  | inl hit ↦ cc (h, subst (λ k. held_by k n.subs ≡ none) (same hit) (fresh-held n.id_seq n.subs r))
  | inr miss ↦ held_later miss
]
  where
    same : (suc n.id_seq == id) ≡ true → suc n.id_seq ≡ id
    same e = ground arith

    held_later : (suc n.id_seq == id) ≡ false → held_by id ((suc n.id_seq, 0) ∷ n.subs) ≡ some c
    held_later miss = held_next id (suc n.id_seq) 0 n.subs miss ∙ h

Turn-IsOpen : (id low : ℕ) {n m : Notifier} → Turn id n m → IsOpen id low n → IsOpen id low m
unfolding events_wake unsubscribe
Turn-IsOpen id low (notified n) h = record {
  roomy = (operations-IsRoomy id n h.roomy).2;
  count = signal h.count;
  held = notify_all-held id n {c = h.count} h.held;
  enough = signal-le low h.count h.enough;
}
Turn-IsOpen id low (joined n) h = record {
  roomy = (operations-IsRoomy id n h.roomy).0;
  count = h.count;
  held = subscribe-held id n {c = h.count} h.roomy h.held;
  enough = h.enough;
}
Turn-IsOpen id low (left_by other n d) h = record {
  roomy = (operations-IsRoomy other n h.roomy).1;
  count = h.count;
  held = without-others other id n.subs d ∙ h.held;
  enough = h.enough;
}
Turn-IsOpen id low (beat v n) h = h

Turns-IsOpen : (id low : ℕ) {n m : Notifier} → Turns id n m → IsOpen id low n → IsOpen id low m
Turns-IsOpen id low none_yet h = h
Turns-IsOpen id low (one_more p t) h = Turn-IsOpen id low t (Turns-IsOpen id low p h)

subscribe-IsOpen : (n : Notifier) → IsRoomy n → IsOpen (subscribe n).1 0 (subscribe n).0
unfolding subscribe
subscribe-IsOpen n r = record {
  roomy = (operations-IsRoomy 0 n r).0;
  count = 0;
  held = held_first (suc n.id_seq) 0 n.subs;
  enough = omega arith;
}

notified-IsOpen : (id : ℕ) {n : Notifier} → IsOpen id 0 n → IsOpen id 1 (notify_all n)
notified-IsOpen id {n} h = record {
  roomy = (operations-IsRoomy id n h.roomy).2;
  count = signal h.count;
  held = notify_all-held id n {c = h.count} h.held;
  enough = signal-pos h.count;
}

-- If no id in use is beyond the counter and no channel holds more than 8 values, a stream of
-- events that has begun is never left without a signal: whatever others do to the notifier before
-- and after a Notify, at least one value waits on its channel until it receives one. When its
-- client goes, it has no channel any more.
pub stream_keeps_signal :
    (v last : LiveState) (n : Notifier) (id : ℕ) {m t : Notifier}
    → IsRoomy n
    → (events_begin true v n).1 ≡ opened id (live v)
    → Turns id (events_begin true v n).0 m
    → Turns id (notify_all m) t
    → ((c : ℕ) × (held_by id t.subs ≡ some c) × (1 ≤ c))
      × (held_by id (events_wake id gone last t).0.subs ≡ none)
unfolding events_begin events_wake unsubscribe
stream_keeps_signal v last n id {m} {t} r e before after =
    let start = subst (λ k. IsOpen k 0 (subscribe n).0) (id_is e) (subscribe-IsOpen n r) in
    let open_now = Turns-IsOpen id 1 after (notified-IsOpen id (Turns-IsOpen id 0 before start)) in
    ((open_now.count, open_now.held, open_now.enough), without-held id t.subs)
  where
    id_is : {a b : ℕ} {x y : Frame} → opened a x ≡ opened b y → a ≡ b
    id_is p = cc
