-- ===== src/Safety/Wiring/Shutdown.antt =====
-- DrainAll of internal/queue/queue.go, which cmd/cas/main.go calls at its end, and the channels of
-- the waiters.
use mathlib.Core.List.{mem-cons}
use mathlib.Core.Logic.Or
use ns_cas.Base.{ℕ, ◌≡◌, refl, subst, sym, Bool, false, List, [], ◌∷◌, none, some, All, arith}
use ns_cas.Base.Int.{ℤ}
use ns_cas.Chan.{Chans, set_chan, try_send}
use ns_cas.State.{Config}
use ns_cas.Queue.{Floats, Item, send_all, drain_all}
use ns_cas.Engine.{Engine}
use ns_cas.Dispatcher.{shut_down}
use ns_cas.Safety.System.{Reach, fresh_server}
use ns_cas.Safety.Wiring.{Wired, Wired-tail, set_chan_self, item_lines, IsWired}
use ns_cas.Safety.Wiring.Background.{Reach-IsWired, fresh-IsWired}

-- A value that waits is not overwritten.
try_send-kept :
    (c d : ℕ) (b : Bool) (cs : Chans) {v : Bool} → cs c ≡ some v → (try_send d b cs).0 c ≡ some v
unfolding try_send set_chan
try_send-kept c d b cs {v} h = ground arith

try_send-empty :
    (c : ℕ) (b : Bool) (cs : Chans) → cs c ≡ none → (try_send c b cs).0 ≡ set_chan c (some b) cs
unfolding try_send
try_send-empty c b cs h = rw h refl

module _ {F : Type 0} where
  send_all-kept :
      (c : ℕ) (b : Bool) (its : List (Item F)) (cs : Chans) {v : Bool}
      → cs c ≡ some v
      → send_all b its cs c ≡ some v
  unfolding send_all
  send_all-kept c b [] cs h = h
  send_all-kept c b (it ∷ its) cs {v} h =
      send_all-kept c b its (try_send it.response_chan b cs).0 {v = v}
        (try_send-kept c it.response_chan b cs {v = v} h)

  send_all-All :
      (b : Bool) (its : List (Item F)) (made : ℕ) (cs : Chans)
      → Wired made cs (item_lines its)
      → All (λ (it : Item F). send_all b its cs it.response_chan ≡ some b) its
  unfolding send_all
  send_all-All b [] made cs w = tt
  send_all-All b (it ∷ its) made cs w =
      let line = it.response_chan in
      let put = set_chan line (some b) cs in
      subst
        (λ ds.
          (send_all b its ds line ≡ some b)
          × All (λ (x : Item F). send_all b its ds x.response_chan ≡ some b) its)
        (sym (try_send-empty line b cs (w.free line (mem-cons.1 (Or.inl refl))).1))
        (
          send_all-kept line b its put {v = b} (set_chan_self line (some b) cs),
          send_all-All b its made put (Wired-tail (some b) w),
        )

  -- The queue is empty, and every appliance that waited finds false on its channel.
  abbrev pub IsDrained : Engine F → Engine F → Type 0
  IsDrained e t =
      All (λ (it : Item F). t.chans it.response_chan ≡ some false) e.queue.items
      × (t.queue.items ≡ [])

  drained :
      (e : Engine F)
      → Wired e.next_chan e.chans (item_lines e.queue.items)
      → IsDrained e (shut_down e)
  unfolding shut_down drain_all
  drained e w = (send_all-All false e.queue.items e.next_chan e.chans w, refl)

  -- From every state that a fresh server can reach, the shutdown empties the queue and leaves
  -- false on the channel of every appliance that waited.
  pub shut_down-IsDrained :
      (o : Floats F) (c : Config) (w : F) (max_queue : ℤ) (has_db : Bool) {e : Engine F}
      → Reach o (fresh_server c w max_queue has_db) e
      → IsDrained e (shut_down e)
  unfolding IsWired
  shut_down-IsDrained o c w max_queue has_db {e} p =
      drained e (Reach-IsWired o (fresh-IsWired c w max_queue has_db) p)
