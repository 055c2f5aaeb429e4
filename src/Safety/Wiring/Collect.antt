-- ===== src/Safety/Wiring/Collect.antt =====
-- From the value on a waiter's channel to its token: the end of a round of dispatchLoop,
-- storeQueueToken and ConsumeQueueToken (internal/handlers/engine.go).
use mathlib.Core.List.{Mem}
use ns_cas.Base.{◌≡◌, refl, ap, Bool, true, String, Option, none, some, if_cases}
use ns_cas.Base.Int.{ℤ}
use ns_cas.Dict
use ns_cas.Chan.{try_send}
use ns_cas.State.{State, Config}
use ns_cas.Queue.{Floats, Item, Queue, pop_best}
use ns_cas.Messages.{ActiveTicket}
use ns_cas.Engine.{Engine, check_dispatch, issue_ticket, grant_from_queue}
use ns_cas.Dispatcher.{
  Next, again, Round, pay_quota, drop_ticket, hand_over, serve, serve_best, dispatch_round,
  store_queue_token, consume_queue_token,
}
use ns_cas.Safety.System.{Reach, fresh_server}
use ns_cas.Safety.Wiring.Background.{dispatch_round-IsTold}

module _ {F : Type 0} where
  hand_over-queue_tokens :
      (it : Item F) (tok : String) (e : Engine F)
      → (hand_over it tok e).queue_tokens ≡ e.queue_tokens
  unfolding hand_over drop_ticket
  hand_over-queue_tokens it tok e =
      if_cases (λ (t : Engine F). t.queue_tokens ≡ e.queue_tokens)
        (try_send it.response_chan true e.chans).1 (λ _. refl) (λ _. refl)

  serve-queue_tokens :
      (it : Item F) (q : Queue F) (r : Round) (paid : Option State) (e : Engine F)
      → (serve it q r paid e).0.queue_tokens ≡ e.queue_tokens
  unfolding grant_from_queue issue_ticket
  serve-queue_tokens it q r none e = refl
  serve-queue_tokens it q r (some s) e = hand_over-queue_tokens it r.fresh_token _

  serve_best-queue_tokens :
      (popped : Option (Item F × Queue F)) (r : Round) (e : Engine F)
      → (serve_best popped r e).0.queue_tokens ≡ e.queue_tokens
  serve_best-queue_tokens none r e = refl
  serve_best-queue_tokens (some (it, q)) r e =
      serve-queue_tokens it q r (pay_quota it.priority_class e.state) e

  -- A round leaves the token map to its store.
  dispatch_round-queue_tokens :
      (o : Floats F) (r : Round) (e : Engine F)
      → (dispatch_round o r e).0.queue_tokens ≡ e.queue_tokens
  unfolding dispatch_round check_dispatch
  dispatch_round-queue_tokens o r e =
      if_cases (λ (p : Engine F × Next). p.0.queue_tokens ≡ e.queue_tokens)
        (check_dispatch r.checked_at e).1
        (λ _. serve_best-queue_tokens (pop_best o r.popped_at e.queue) r _) (λ _. refl)

  collect_stored :
      (id tok : String) (t : Engine F)
      → t.pending_store ≡ some (id, tok)
      → (consume_queue_token id (store_queue_token t)).1 ≡ some tok
  unfolding store_queue_token consume_queue_token
  collect_stored id tok t h = rw h (Dict.lookup-insert_self id tok t.queue_tokens)

  -- In every state that a fresh server can reach, after a round of the dispatch loop that goes on
  -- there is a waiter with a ticket on record for the token of the round, whose collection after
  -- the store of the round gives that token; a collection before the store gives what the token
  -- map had for the appliance before the round.
  pub told_collects :
      (o : Floats F) (c : Config) (w : F) (max_queue : ℤ) (has_db : Bool) (r : Round) {e : Engine F}
      → Reach o (fresh_server c w max_queue has_db) e
      → (dispatch_round o r e).1 ≡ again
      → let t = (dispatch_round o r e).0 in
        (item : Item F) × Mem item e.queue.items
        × ((ticket : ActiveTicket) × (Dict.lookup item.appliance_id t.active_tickets ≡ some ticket)
            × (ticket.token ≡ r.fresh_token))
        × ((consume_queue_token item.appliance_id (store_queue_token t)).1 ≡ some r.fresh_token)
        × ((consume_queue_token item.appliance_id t).1
            ≡ Dict.lookup item.appliance_id e.queue_tokens)
  unfolding consume_queue_token
  told_collects o c w max_queue has_db r {e} p goes_on =
      let t = (dispatch_round o r e).0 in
      let (item, waits, told) = dispatch_round-IsTold o c w max_queue has_db r p goes_on in
      (
        item,
        waits,
        (told.ticket, told.on_record, told.same_token),
        collect_stored item.appliance_id r.fresh_token t told.stored,
        ap (Dict.lookup item.appliance_id) (dispatch_round-queue_tokens o r e),
      )
