-- ===== src/Safety/Pass.antt =====
-- dispatchLoop of internal/handlers/engine.go over one signal.

use ns_cas.Base.{
  ℕ, suc, ◌+◌, ◌<◌, ◌≤◌, ◌≡◌, refl, sym, ap, ◌∙◌, subst, String, List, [], ◌∷◌, Option, none, some,
  length, length-Perm, arith, if_cases, inl, inr, ◌⊎◌,
}
use ns_cas.Base.Int.{ℤ}
use ns_cas.State.{State}
use ns_cas.Queue.{Floats, Item, Queue, pop_best, len}
use ns_cas.Queue.Sort.{pop_best-perm}
use ns_cas.Engine.{Engine, check_dispatch}
use ns_cas.Safety.Rounds.{serve-queue}
use ns_cas.Dispatcher.{
  Next, again, stop, Round, Turn, resume, pay_quota, serve, serve_best, dispatch_round,
  store_queue_token, store_entry, dispatch_pass, go_on,
}

module _ {F : Type 0} where
  pub len-pop_best :
      (o : Floats F) (now : ℤ) (q : Queue F) {best : Item F} {rest : Queue F}
      → pop_best o now q ≡ some (best, rest)
      → len q ≡ suc (len rest)
  unfolding len
  len-pop_best o now q e = length-Perm (pop_best-perm o now q e)

  -- A round that goes on leaves one waiter fewer.
  abbrev pub Shrinks : ℕ → Engine F × Next → Type 0
  Shrinks n p = (p.1 ≡ stop) ⊎ (p.1 ≡ again) × (n ≡ suc (len p.0.queue))

  serve-Shrinks :
      (o : Floats F) (now : ℤ) (item : Item F) (rest : Queue F) (r : Round) (e : Engine F)
      (paid : Option State)
      → pop_best o now e.queue ≡ some (item, rest)
      → Shrinks (len e.queue) (serve item rest r paid e)
  serve-Shrinks o now item rest r e none h = inl refl
  serve-Shrinks o now item rest r e (some s) h = inr (
    refl,
    len-pop_best o now e.queue h ∙ sym (ap (λ q. suc (len q)) (serve-queue item rest r s e)),
  )

  serve_best-Shrinks :
      (o : Floats F) (now : ℤ) (found : Option (Item F × Queue F)) (r : Round) (e : Engine F)
      → pop_best o now e.queue ≡ found
      → Shrinks (len e.queue) (serve_best found r e)
  serve_best-Shrinks o now none r e h = inl refl
  serve_best-Shrinks o now (some (item, rest)) r e h =
      serve-Shrinks o now item rest r e (pay_quota item.priority_class e.state) h

  pub check_dispatch-queue : (now : ℤ) (e : Engine F) → (check_dispatch now e).0.queue ≡ e.queue
  unfolding check_dispatch
  check_dispatch-queue now e = refl

  pub dispatch_round-Shrinks :
      (o : Floats F) (r : Round) (e : Engine F) → Shrinks (len e.queue) (dispatch_round o r e)
  unfolding dispatch_round
  dispatch_round-Shrinks o r e =
      let t = (check_dispatch r.checked_at e).0 in
      subst (λ q. Shrinks (len q) (dispatch_round o r e)) (check_dispatch-queue r.checked_at e)
        (if_cases (Shrinks (len t.queue)) (check_dispatch r.checked_at e).1
          (λ _. serve_best-Shrinks o r.popped_at (pop_best o r.popped_at t.queue) r t refl)
          (λ _. inl refl))

  store_entry-queue :
      (entry : Option (String × String)) (e : Engine F) → (store_entry entry e).queue ≡ e.queue
  store_entry-queue none e = refl
  store_entry-queue (some p) e = refl

  pub store_queue_token-queue : (e : Engine F) → (store_queue_token e).queue ≡ e.queue
  unfolding store_queue_token
  store_queue_token-queue e = store_entry-queue e.pending_store e

  -- At most so many waiters join while the turns have released the lock.
  pub data Admits : ℕ → List (Turn F) → Type 0 where
    no_turn : Admits 0 []
    first_turn :
        {turn : Turn F} {turns : List (Turn F)} (arrivals : ℕ) {more : ℕ}
        → ((e : Engine F) → len (resume turn e).queue ≤ len e.queue + arrivals)
        → Admits more turns
        → Admits (arrivals + more) (turn ∷ turns)

  go_on_stop :
      (n : ℕ) (p rest : Engine F × Next)
      → Shrinks n p
      → ((n ≡ suc (len p.0.queue)) → rest.1 ≡ stop)
      → (go_on p.1 rest p.0).1 ≡ stop
  go_on_stop n (t, stop) rest h k = refl
  go_on_stop n (t, again) rest (inl h) k = cc
  go_on_stop n (t, again) rest (inr h) k = k h.1

  -- A pass of the dispatch loop over a queue of n waiters, in which at most m more join while the
  -- loop has released the lock between its rounds, stops by itself if it is given more than n + m
  -- rounds: whatever the times and tokens of the rounds, and whatever else the other goroutines
  -- do in between, it does not run out of them.
  pub dispatch_pass_stops :
      (o : Floats F) (turns : List (Turn F)) (e : Engine F) {m : ℕ}
      → Admits m turns
      → len e.queue + m < length turns
      → (dispatch_pass o turns e).1 ≡ stop
  unfolding dispatch_pass
  dispatch_pass_stops o [] e no_turn h = absurd (omega arith)
  dispatch_pass_stops o (turn ∷ turns) e (first_turn arrivals {more} joins rest) h =
      let t = (dispatch_round o turn.readings e).0 in
      go_on_stop (len e.queue) (dispatch_round o turn.readings e)
        (dispatch_pass o turns (resume turn t)) (dispatch_round-Shrinks o turn.readings e)
        (λ n.
          dispatch_pass_stops o turns (resume turn t) {m = more} rest (omega (arith, n, joins t)))
