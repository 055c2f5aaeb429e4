-- ===== src/Sessions/Open.antt =====
-- The runs of internal/handlers/http.go with its open polls, from the server that cmd/cas/main.go starts.
use mathlib.Core.List.{Mem, Mem-prop, Sublist, Nodup, Nodup-append, not-mem-nil, mem-cons}
use mathlib.Core.List.Sublist
use mathlib.Core.Logic.Or
use mathlib.Core.Logic.{◌∨₁◌}
use ns_cas.Base.{
  ℕ, ◌≡◌, ◌≢◌, refl, ap, ◌∙◌, subst, Bool, true, false, String, str_eq, eq_iff, List, [], ◌∷◌, map,
  none, some, if_cases, arith,
}
use ns_cas.Base.Int.{ℤ}
use ns_cas.Chan.{Chans, set_chan, receive}
use ns_cas.State.{Config}
use ns_cas.Queue.{Floats, Item, Queue, remove, remove_item}
use ns_cas.Queue.Waiting.{item_ids, ids}
use ns_cas.Queue
use ns_cas.Engine.{new_engine, Engine, remove_from_queue}
use ns_cas.Dispatcher.{consume_queue_token}
use ns_cas.Safety.Slots.{IsSound}
use ns_cas.Safety.System.{
  take_answer, Reach, here, next, report, answer, round, store, reaping, shutdown, fresh_server,
  server-IsSound,
}
use ns_cas.Safety.Wiring.{item_lines, IsWired}
use ns_cas.Safety.Wiring.Background.{Reach-IsWired, fresh-IsWired}
use ns_cas.Http.{received, timed_out, disconnected, poll_end}
use ns_cas.Http.Polls.{
  remove-Absent, poll_end-Reach, acquire_begin-Reach, report_and_acquire_begin-Reach,
}
use ns_cas.Sessions.{
  Polls, no_polls, Site, site_acquire, site_exchange, site_receive, site_leave, Turn, asks,
  exchanges, hears, runs_out, goes_away, reports, dispatches, stores, reaps, shuts_down, Turns,
  no_turn, one_more,
}
use ns_cas.Sessions.Same.{handle_report-Same, store_queue_token-Same, ticket_reaper-Same}
use ns_cas.Sessions.Requests.{entries, acquire_begin-Opens, report_and_acquire_begin-Opens}
use ns_cas.Sessions.Keeps.{IsFilled, entry_of, Same-Keeps, shut_down-Keeps, dispatch_round-Keeps}
use ns_cas.Sessions.Steps.{IsMatched, Keeps-IsMatched, Opens-IsMatched, Drops, Drops-IsMatched}

other-IsFilled : (c d : ℕ) (cs : Chans) → d ≢ c → IsFilled d cs → IsFilled d (set_chan c none cs)
unfolding set_chan
other-IsFilled c d cs h f = ground arith

module _ {F : Type 0} where
  entry-Mem :
      (k : String) (c : ℕ) (its : List (Item F))
      → Mem (k, c) (map entry_of its)
      → Mem k (item_ids its) × Mem c (item_lines its)
  entry-Mem k c [] m = absurd (not-mem-nil m)
  entry-Mem k c (it ∷ its) m = (
    Or.elim Mem-prop (mem-cons.0 m) (λ p. mem-cons.1 (Or.inl (ap (λ w. w.0) p)))
        (λ q. mem-cons.1 (Or.inr (entry-Mem k c its q).0)),
    Or.elim Mem-prop (mem-cons.0 m) (λ p. mem-cons.1 (Or.inl (ap (λ w. w.1) p)))
        (λ q. mem-cons.1 (Or.inr (entry-Mem k c its q).1)),
  )

  remove_item-entries :
      (id : String) (its : List (Item F))
      → Sublist (map entry_of (remove_item id its)) (map entry_of its)
  unfolding remove_item
  remove_item-entries id [] = Sublist.refl []
  remove_item-entries id (it ∷ its) =
      if_cases (λ (r : List (Item F)). Sublist (map entry_of r) (entry_of it ∷ map entry_of its))
        (str_eq it.appliance_id id) (λ _. Sublist.cons (entry_of it) (Sublist.refl _))
        (λ _. Sublist.cons-cons (entry_of it) (remove_item-entries id its))

  remove_item-others :
      (id k : String) (c : ℕ) (its : List (Item F))
      → k ≢ id
      → Mem (k, c) (map entry_of its)
      → Mem (k, c) (map entry_of (remove_item id its))
  unfolding remove_item
  remove_item-others id k c [] h m = m
  remove_item-others id k c (it ∷ its) h m =
      if_cases (λ (r : List (Item F)). Mem (k, c) (map entry_of r)) (str_eq it.appliance_id id)
        (λ hit.
          Or.elim Mem-prop (mem-cons.0 m)
            (λ p. absurd (h (ap (λ w. w.0) p ∙ (eq_iff it.appliance_id id).0 hit))) (λ q. q))
        (λ _.
          Or.elim Mem-prop (mem-cons.0 m) (λ p. mem-cons.1 (Or.inl p))
            (λ q. mem-cons.1 (Or.inr (remove_item-others id k c its h q))))

  -- The entries without those of an appliance.
  record IsWithout (id : String) (p q : Queue F) : Type 0 where
    pub waiting : (k : String) (c : ℕ) → k ≢ id → Mem (k, c) (entries p) → Mem (k, c) (entries q)
    pub gone : (k : String) (c : ℕ) → Mem (k, c) (entries q) → (k ≢ id) × Mem (k, c) (entries p)

  remove-IsWithout : (id : String) (q : Queue F) → Nodup (ids q) → IsWithout id q (remove id q).0
  unfolding remove
  remove-IsWithout id q d = record {
    waiting = λ k c h m. remove_item-others id k c q.items h m;
    gone = λ k c m. (
      λ p.
          remove-Absent id q d
            (subst (λ x. Mem x (item_ids (remove_item id q.items))) p (entry-Mem k c _ m).0),
      Sublist.subset (remove_item-entries id q.items) (k, c) m,
    );
  }

  leave-Drops :
      (id : String) (polls : Polls) (e : Engine F)
      → IsSound e
      → Drops id polls e (remove_from_queue id e)
  unfolding remove_from_queue
  leave-Drops id polls e s =
      let w = remove-IsWithout id e.queue (Nodup-append.0 s.distinct).0 in
      record { next_chan = refl; waiting = w.waiting; filled = λ k c h p f. f; gone = w.gone }

  -- The appliance that a value waits for is not in the queue.
  heard_gone :
      (id : String) (polls : Polls) (c : ℕ) (b : Bool) (e : Engine F)
      → IsWired e
      → IsMatched e polls
      → polls id ≡ some c
      → e.chans c ≡ some b
      → (k : String) (d : ℕ) → Mem (k, d) (entries e.queue)
      → k ≢ id
  unfolding IsWired
  heard_gone id polls c b e w m open_on held k d q same =
      cc (
        ap polls same,
        m.owned k d q,
        open_on,
        held,
        (w.free d (entry-Mem k d e.queue.items q).1).1,
      )

  heard-IsFilled :
      (id : String) (polls : Polls) (c : ℕ) (e : Engine F)
      → IsMatched e polls
      → polls id ≡ some c
      → (k : String) (d : ℕ) → k ≢ id
      → polls k ≡ some d
      → IsFilled d e.chans
      → IsFilled d (take_answer c e).chans
  unfolding take_answer receive
  heard-IsFilled id polls c e m open_on k d other h f =
      other-IsFilled c d e.chans (λ p. other (m.distinct k id c (h ∙ ap some p) open_on)) f

  receive-Drops :
      (id : String) (polls : Polls) (c : ℕ) (b : Bool) (e : Engine F)
      → IsSound e
      → IsWired e
      → IsMatched e polls
      → polls id ≡ some c
      → e.chans c ≡ some b
      → Drops id polls e (poll_end id (received b) (take_answer c e)).0
  unfolding poll_end take_answer consume_queue_token remove_from_queue
  receive-Drops id polls c true e s w m open_on held = record {
    next_chan = refl;
    waiting = λ k d h q. q;
    filled = heard-IsFilled id polls c e m open_on;
    gone = λ k d q. (heard_gone id polls c true e w m open_on held k d q, q);
  }
  receive-Drops id polls c false e s w m open_on held =
      let d = remove-IsWithout id e.queue (Nodup-append.0 s.distinct).0 in
      record {
        next_chan = refl;
        waiting = d.waiting;
        filled = heard-IsFilled id polls c e m open_on;
        gone = d.gone;
      }

  Turn-IsMatched :
      {o : Floats F} {s t : Site F}
      → IsSound s.engine
      → IsWired s.engine
      → Turn o s t
      → IsMatched s.engine s.polls
      → IsMatched t.engine t.polls
  unfolding site_acquire site_exchange site_receive site_leave poll_end
  Turn-IsMatched {o} {s} v w (asks method req tok now later free) m =
      Opens-IsMatched (acquire_begin-Opens o method req tok now later s.engine) free m
  Turn-IsMatched {o} {s} v w (exchanges method r tok reported now later free) m =
      Opens-IsMatched (report_and_acquire_begin-Opens o method r tok reported now later s.engine)
        free m
  Turn-IsMatched {o} {s} v w (hears id c b open_on held) m =
      Drops-IsMatched (receive-Drops id s.polls c b s.engine v w m open_on held) m
  Turn-IsMatched {o} {s} v w (runs_out id c open_on) m =
      Drops-IsMatched (leave-Drops id s.polls s.engine v) m
  Turn-IsMatched {o} {s} v w (goes_away id c open_on) m =
      Drops-IsMatched (leave-Drops id s.polls s.engine v) m
  Turn-IsMatched {o} {s} v w (reports r now) m =
      Keeps-IsMatched (Same-Keeps (handle_report-Same r now s.engine)) m
  Turn-IsMatched {o} {s} v w (dispatches r h) m =
      Keeps-IsMatched (dispatch_round-Keeps o r s.engine) m
  Turn-IsMatched {o} {s} v w stores m =
      Keeps-IsMatched (Same-Keeps (store_queue_token-Same s.engine)) m
  Turn-IsMatched {o} {s} v w (reaps now) m =
      Keeps-IsMatched (Same-Keeps (ticket_reaper-Same now s.engine)) m
  Turn-IsMatched {o} {s} v w shuts_down m = Keeps-IsMatched (shut_down-Keeps s.engine) m

  Turn-Reach :
      {o : Floats F} {e : Engine F} {s t : Site F}
      → Turn o s t
      → Reach o e s.engine
      → Reach o e t.engine
  unfolding site_acquire site_exchange site_receive site_leave
  Turn-Reach {o} (asks method req tok now later free) p =
      acquire_begin-Reach o method tok _ now later p
  Turn-Reach {o} (exchanges method r tok reported now later free) p =
      report_and_acquire_begin-Reach o method tok _ reported now later p
  Turn-Reach {o} (hears id c b open_on held) p =
      poll_end-Reach o id (received b) (next p (answer c))
  Turn-Reach {o} (runs_out id c open_on) p = poll_end-Reach o id timed_out p
  Turn-Reach {o} (goes_away id c open_on) p = poll_end-Reach o id disconnected p
  Turn-Reach (reports r now) p = next p (report r now)
  Turn-Reach (dispatches r h) p = next p (round r h)
  Turn-Reach stores p = next p store
  Turn-Reach (reaps now) p = next p (reaping now)
  Turn-Reach shuts_down p = next p shutdown

  pub Turns-Reach : {o : Floats F} {s t : Site F} → Turns o s t → Reach o s.engine t.engine
  Turns-Reach no_turn = here
  Turns-Reach (one_more ts t) = Turn-Reach t (Turns-Reach ts)

  -- The server before its first request.
  abbrev pub fresh_site : Config → F → ℤ → Bool → Site F
  fresh_site c w max_queue has_db = record {
    engine = fresh_server c w max_queue has_db;
    polls = no_polls;
  }

  Turns-IsMatched :
      {o : Floats F} (c : Config) (w : F) (max_queue : ℤ) (has_db : Bool) {s : Site F}
      → Turns o (fresh_site c w max_queue has_db) s
      → IsMatched s.engine s.polls
  unfolding no_polls new_engine Queue.new
  Turns-IsMatched c w max_queue has_db no_turn = record {
    made = λ id ch h. cc;
    each = λ id ch h. cc;
    owned = λ id ch m. absurd (not-mem-nil m);
    distinct = λ id k ch h h'. cc;
  }
  Turns-IsMatched {o} c w max_queue has_db (one_more ts t) =
      let p = Turns-Reach ts in
      Turn-IsMatched (server-IsSound o c w max_queue has_db p)
        (Reach-IsWired o (fresh-IsWired c w max_queue has_db) p) t
        (Turns-IsMatched c w max_queue has_db ts)

  -- From a fresh server without requests, if no appliance sends a request while a long poll of
  -- its own is open, then after any sequence of requests, wakeups, timeouts, disconnections,
  -- reports, dispatch rounds, token stores, reaper passes and shutdowns: every appliance whose
  -- long poll is open either stands in the queue with the channel that the poll waits on, or a
  -- value waits for it on that channel; every entry of the queue belongs to the open poll of its
  -- appliance, on its channel; and no two open polls wait on one channel.
  pub no_poll_stranded :
      (o : Floats F) (c : Config) (w : F) (max_queue : ℤ) (has_db : Bool) {s : Site F}
      → Turns o (fresh_site c w max_queue has_db) s
      → ((id : String) (ch : ℕ)
          → s.polls id ≡ some ch
          → Mem (id, ch) (entries s.engine.queue) ∨₁ IsFilled ch s.engine.chans)
        × ((id : String) (ch : ℕ) → Mem (id, ch) (entries s.engine.queue) → s.polls id ≡ some ch)
        × ((id k : String) (ch : ℕ) → s.polls id ≡ some ch → s.polls k ≡ some ch → id ≡ k)
  no_poll_stranded o c w max_queue has_db ts =
      let m = Turns-IsMatched c w max_queue has_db ts in (m.each, m.owned, m.distinct)
