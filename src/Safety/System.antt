-- ===== src/Safety/System.antt =====
-- The server as a whole: requests, reports, timeouts, the dispatch loop, the reaper and the shutdown
-- take the state's lock in any order, each for one atomic step. A round of the dispatch loop may
-- come at any time, with or without a signal in notifyChan.
use ns_cas.Base.{ℕ, ◌≡◌, Bool, String, none}
use ns_cas.Base.Int.{ℤ}
use ns_cas.Chan.{receive}
use ns_cas.State.{Config, new}
use ns_cas.Queue
use ns_cas.Queue.{Floats}
use ns_cas.Messages.{Report, AcquireRequest}
use ns_cas.Engine.{Engine, new_engine, try_acquire, remove_from_queue}
use ns_cas.Reports.{handle_report, try_report_and_acquire}
use ns_cas.Dispatcher.{
  Round, dispatch_round, store_queue_token, consume_queue_token, ticket_reaper, shut_down,
}
use ns_cas.Safety.Slots.{IsSound, new-IsSound, remove_from_queue-IsSound}
use ns_cas.Safety.Steps.{try_acquire-IsSound, handle_report-IsSound, try_report_and_acquire-IsSound}
use ns_cas.Safety.Background.{
  dispatch_round-IsSound, store_queue_token-IsSound, consume_queue_token-IsSound,
  ticket_reaper-IsSound, shut_down-IsSound,
}

module _ {F : Type 0} where
  -- A waiter takes the value that its channel holds.
  unfoldable pub take_answer : ℕ → Engine F → Engine F
  take_answer c e = record e { chans = (receive c e.chans).0 }

  pub data Step (o : Floats F) (e : Engine F) : Engine F → Type 0 where
    acquire :
        (req : AcquireRequest) (tok : String) (now later : ℤ)
        → Step o e (try_acquire o req tok now later e).engine
    report : (r : Report) (now : ℤ) → Step o e (handle_report r now e).engine
    report_and_acquire :
        (r : Report) (tok : String) (reported now later : ℤ)
        → Step o e (try_report_and_acquire o r tok reported now later e).engine
    give_up : (id : String) → Step o e (remove_from_queue id e)
    answer : (c : ℕ) → Step o e (take_answer c e)
    collect : (id : String) → Step o e (consume_queue_token id e).0
    round : (r : Round) → e.pending_store ≡ none → Step o e (dispatch_round o r e).0
    store : Step o e (store_queue_token e)
    reaping : (now : ℤ) → Step o e (ticket_reaper now e).engine
    shutdown : Step o e (shut_down e)

  pub data Reach (o : Floats F) (e : Engine F) : Engine F → Type 0 where
    here : Reach o e e
    next : {t u : Engine F} → Reach o e t → Step o t u → Reach o e u

  take_answer-IsSound : (c : ℕ) (e : Engine F) → IsSound e → IsSound (take_answer c e)
  unfolding take_answer
  take_answer-IsSound c e s = record {
    state_valid = s.state_valid;
    flight = s.flight;
    distinct = s.distinct;
  }

  pub Step-IsSound : (o : Floats F) {e t : Engine F} → Step o e t → IsSound e → IsSound t
  Step-IsSound o {e} (acquire req tok now later) s = try_acquire-IsSound o req tok now later e s
  Step-IsSound o {e} (report r now) s = handle_report-IsSound r now e s
  Step-IsSound o {e} (report_and_acquire r tok reported now later) s =
      try_report_and_acquire-IsSound o r tok reported now later e s
  Step-IsSound o {e} (give_up id) s = remove_from_queue-IsSound id e s
  Step-IsSound o {e} (answer c) s = take_answer-IsSound c e s
  Step-IsSound o {e} (collect id) s = consume_queue_token-IsSound id e s
  Step-IsSound o {e} (round r h) s = dispatch_round-IsSound o r e s
  Step-IsSound o {e} store s = store_queue_token-IsSound e s
  Step-IsSound o {e} (reaping now) s = ticket_reaper-IsSound now e s
  Step-IsSound o {e} shutdown s = shut_down-IsSound e s

  Reach-IsSound : (o : Floats F) {e t : Engine F} → IsSound e → Reach o e t → IsSound t
  Reach-IsSound o s here = s
  Reach-IsSound o s (next r st) = Step-IsSound o st (Reach-IsSound o s r)

  -- The server that main starts.
  abbrev pub fresh_server : Config → F → ℤ → Bool → Engine F
  fresh_server c w max_queue has_db = new_engine (new c) (Queue.new w) max_queue has_db

  -- In every state that a fresh server can reach, whatever its configuration and in whatever
  -- order requests, reports, timeouts, dispatch rounds, token stores and collections, reaper
  -- passes and the shutdown come: the count of tickets in flight is the number of tickets on
  -- record, no appliance stands twice among the waiters and ticket holders, and the quota state
  -- is valid.
  pub server-IsSound :
      (o : Floats F) (c : Config) (w : F) (max_queue : ℤ) (has_db : Bool) {e : Engine F}
      → Reach o (fresh_server c w max_queue has_db) e
      → IsSound e
  server-IsSound o c w max_queue has_db r = Reach-IsSound o (new-IsSound c w max_queue has_db) r
