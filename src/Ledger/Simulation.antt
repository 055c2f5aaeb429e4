-- ===== src/Ledger/Simulation.antt =====
-- Every atomic step of the server as moves of the ledger.

use mathlib.Core.List.{Sublist}
use ns_cas.Base.{ℕ, Bool, String, List, [], ◌∷◌, Option, none, some, inl, inr}
use ns_cas.Base.Int.{ℤ}
use ns_cas.Dict
use ns_cas.State.{State, Config}
use ns_cas.Queue.{Floats, drain_all}
use ns_cas.Queue.Waiting.{remove_cases}
use ns_cas.Messages.{ActiveTicket}
use ns_cas.Engine.{Engine, remove_from_queue}
use ns_cas.Reports.{process_report}
use ns_cas.Dispatcher.{
  store_entry, store_queue_token, consume_queue_token, ticket_reaper, shut_down,
}
use ns_cas.Safety.Slots.{IsSound}
use ns_cas.Safety.Background.{reap-sublist}
use ns_cas.Safety.Wiring.{IsWired}
use ns_cas.Safety.Wiring.Background.{Reach-IsWired, fresh-IsWired}
use ns_cas.Safety.System.{
  take_answer, Step, acquire, report, report_and_acquire, give_up, answer, collect, round, store,
  reaping, shutdown, Reach, fresh_server, server-IsSound,
}
use ns_cas.Ledger.{
  Kind, expiring, closing, leave, expire, close, Moves, none_made, one-Move, Asked, Reported,
  Exchanged, GaveUp, was_gone, left, Served, Exactly, exactly,
}
use ns_cas.Ledger.Requests.{
  ledger, Follows, notify-Follows, try_acquire-Follows, handle_report-Follows,
  try_report_and_acquire-Follows,
}
use ns_cas.Ledger.Rounds.{dispatch_round-Follows}

module _ {F : Type 0} where
  remove_from_queue-Follows :
      (id : String) (e : Engine F) → Follows (GaveUp id) e (remove_from_queue id e)
  unfolding ledger remove_from_queue
  remove_from_queue-Follows id e = elim (remove_cases id e.queue) [
    | inl (hit, p) ↦ (_, left, one-Move (leave id _ p))
    | inr (miss, q) ↦ (_, was_gone, rw q none_made)
  ]

  -- Nothing happens to the ledger.
  abbrev Same : Engine F → Engine F → Type 0
  Same e t = Follows (Exactly []) e t

  store_entry-Same :
      (entry : Option (String × String)) (e : Engine F) → Same e (store_entry entry e)
  unfolding ledger
  store_entry-Same none e = (_, exactly, none_made)
  store_entry-Same (some p) e = (_, exactly, none_made)

  store_queue_token-Same : (e : Engine F) → Same e (store_queue_token e)
  unfolding store_queue_token
  store_queue_token-Same e = store_entry-Same e.pending_store e

  take_answer-Same : (c : ℕ) (e : Engine F) → Same e (take_answer c e)
  unfolding ledger take_answer
  take_answer-Same c e = (_, exactly, none_made)

  consume_queue_token-Same : (id : String) (e : Engine F) → Same e (consume_queue_token id e).0
  unfolding ledger consume_queue_token
  consume_queue_token-Same id e = (_, exactly, none_made)

  expire-Follows :
      (s : State) (kept : List (String × ActiveTicket)) (e : Engine F)
      → Sublist (Dict.keys kept) (Dict.keys e.active_tickets)
      → Follows (Exactly (expiring ∷ [])) e (record e { state = s; active_tickets = kept })
  unfolding ledger
  expire-Follows s kept e h = (_, exactly, one-Move (expire (Dict.keys kept) h))

  ticket_reaper-Follows :
      (now : ℤ) (e : Engine F) → Follows (Exactly (expiring ∷ [])) e (ticket_reaper now e).engine
  unfolding ticket_reaper
  ticket_reaper-Follows now e =
      notify-Follows (Exactly (expiring ∷ [])) e _
        (expire-Follows _ _ e (reap-sublist e.has_db now e.active_tickets))

  shut_down-Follows : (e : Engine F) → Follows (Exactly (closing ∷ [])) e (shut_down e)
  unfolding ledger shut_down drain_all
  shut_down-Follows e = (_, exactly, one-Move close)

  -- What each step may do to the ledger.
  abbrev pub Allowed : {o : Floats F} {e t : Engine F} → Step o e t → List Kind → Type 0
  Allowed (acquire req tok now later) = Asked req.appliance_id
  Allowed {e = e} (report r now) = Reported r.appliance_id (process_report r now e).value.ok
  Allowed (report_and_acquire r tok reported now later) = Exchanged r.appliance_id
  Allowed (give_up id) = GaveUp id
  Allowed (answer c) = Exactly []
  Allowed (collect id) = Exactly []
  Allowed (round r h) = Served
  Allowed store = Exactly []
  Allowed (reaping now) = Exactly (expiring ∷ [])
  Allowed shutdown = Exactly (closing ∷ [])

  Step-Follows :
      (o : Floats F) {e t : Engine F}
      → IsSound e
      → IsWired e
      → (st : Step o e t) → Follows (Allowed st) e t
  Step-Follows o {e} s w (acquire req tok now later) = try_acquire-Follows o req tok now later e
  Step-Follows o {e} s w (report r now) = handle_report-Follows r now e
  Step-Follows o {e} s w (report_and_acquire r tok reported now later) =
      try_report_and_acquire-Follows o r tok reported now later e s
  Step-Follows o {e} s w (give_up id) = remove_from_queue-Follows id e
  Step-Follows o {e} s w (answer c) = take_answer-Same c e
  Step-Follows o {e} s w (collect id) = consume_queue_token-Same id e
  Step-Follows o {e} s w (round r h) = dispatch_round-Follows o r e s w
  Step-Follows o {e} s w store = store_queue_token-Same e
  Step-Follows o {e} s w (reaping now) = ticket_reaper-Follows now e
  Step-Follows o {e} s w shutdown = shut_down-Follows e

  -- From every state that a fresh server can reach, each step does to the names of the waiters
  -- and of the ticket holders, taken without order, only what the ledger allows: an acquire gives
  -- its own appliance, which is on neither list, a ticket or a place in the line, or changes
  -- nothing; a report gives back the ticket of its own appliance if it is accepted, and changes
  -- nothing otherwise; a report with an acquire does the first and then may do the second; a
  -- timeout takes its own appliance out of the line if it waits; a round of the dispatch loop
  -- promotes at most one waiter, or changes nothing; a pass of the reaper only removes tickets;
  -- the shutdown empties the line; the other steps change nothing.
  pub server_refines_ledger :
      (o : Floats F) (c : Config) (w : F) (max_queue : ℤ) (has_db : Bool) {e t : Engine F}
      → Reach o (fresh_server c w max_queue has_db) e
      → (st : Step o e t) → (ks : List Kind) × Allowed st ks × Moves (ledger e) ks (ledger t)
  server_refines_ledger o c w max_queue has_db p st =
      Step-Follows o (server-IsSound o c w max_queue has_db p)
        (Reach-IsWired o (fresh-IsWired c w max_queue has_db) p) st
