-- ===== src/Dispatcher.antt =====
-- The background work of internal/handlers/engine.go: one round of dispatchLoop, the hand-over of a
-- granted token to the waiter, and one pass of ticketReaper.
use ns_cas.Base.{ℕ, suc, Bool, true, String, List, [], ◌∷◌, ◌++◌, Option, none, some, if◌then◌else◌}
use ns_cas.Base.Int.{ℤ, pos, ◌-ℤ◌, ltb_ℤ}
use ns_cas.Dict
use ns_cas.Chan.{try_send}
use ns_cas.State.{State, ticket_expiry_threshold}
use ns_cas.State.Spending.{has_class_quota, deduct_class_quota, has_shared_quota, deduct_shared}
use ns_cas.Queue.{Floats, Item, Queue, enqueue, pop_best, drain_all}
use ns_cas.Messages.{
  ActiveTicket, Effect, write_anomaly, broadcast, age_ms, record_effect, sub_time, milliseconds,
}
use ns_cas.Engine.{Engine, Outcome, notify, check_dispatch, grant_from_queue}

-- Whether the loop goes on after a round.
pub data Next : Type 0 where
  again stop : Next

-- The readings of time.Now in one round, and the token that it may grant.
pub record Round : Type 0 where
  pub checked_at : ℤ
  pub popped_at : ℤ
  pub issued_at : ℤ
  pub fresh_token : String

-- The quota that pays for a grant: the class's own, else the shared pool's, else none.
unfoldable pub pay_quota : String → State → Option State
pay_quota class s =
    if has_class_quota s class
    then some (deduct_class_quota class s)
    else if has_shared_quota s
    then some (deduct_shared s)
    else none

-- delete(ActiveTickets, id); InFlight--.
unfoldable pub drop_ticket : {F : Type 0} → String → Engine F → Engine F
drop_ticket id e = record e {
  state = record e.state { in_flight = e.state.in_flight -ℤ pos 1 };
  active_tickets = Dict.erase id e.active_tickets;
}

-- A turn of the loop: the readings of its round, and what the other goroutines make of the
-- engine after a hand-over, from Unlock to storeQueueToken and from there to the next Lock.
pub record Turn (F : Type 0) : Type 0 where
  pub readings : Round
  pub before_store : Engine F → Engine F
  pub after_store : Engine F → Engine F

module _ {F : Type 0} where
  -- The `select` after a grant: the token is stored once the lock is released, if the waiter's
  -- channel took the value; otherwise the slot is reclaimed.
  unfoldable pub hand_over : Item F → String → Engine F → Engine F
  hand_over item tok e =
      let (cs, sent) = try_send item.response_chan true e.chans in
      if sent
      then record e { chans = cs; pending_store = some (item.appliance_id, tok) }
      else drop_ticket item.appliance_id e

  abbrev pub serve : Item F → Queue F → Round → Option State → Engine F → Engine F × Next
  serve item q r none e = (record e { queue = enqueue item q }, stop)
  serve item q r (some s) e = (
    hand_over item r.fresh_token
        (grant_from_queue item r.fresh_token r.issued_at (record e { state = s; queue = q })),
    again,
  )

  abbrev pub serve_best : Option (Item F × Queue F) → Round → Engine F → Engine F × Next
  serve_best none r e = (e, stop)
  serve_best (some (item, q)) r e = serve item q r (pay_quota item.priority_class e.state) e

  -- One round: CanDispatch and the length test, then the best waiter.
  unfoldable pub dispatch_round : Floats F → Round → Engine F → Engine F × Next
  dispatch_round o r e =
      let (t, ok) = check_dispatch r.checked_at e in
      if ok then serve_best (pop_best o r.popped_at t.queue) r t else (t, stop)

  -- storeQueueToken, after the round has released the lock.
  abbrev pub store_entry : Option (String × String) → Engine F → Engine F
  store_entry none e = e
  store_entry (some (id, tok)) e = record e {
    queue_tokens = Dict.insert id tok e.queue_tokens;
    pending_store = none;
  }

  unfoldable pub store_queue_token : Engine F → Engine F
  store_queue_token e = store_entry e.pending_store e

  unfoldable pub consume_queue_token : String → Engine F → Engine F × Option String
  consume_queue_token id e =
      (record e { queue_tokens = Dict.erase id e.queue_tokens }, Dict.lookup id e.queue_tokens)

  -- A round that has taken its ticket back, so that no token is held, keeps the lock.
  abbrev pub resume_after : Option (String × String) → Turn F → Engine F → Engine F
  resume_after none turn e = e
  resume_after (some entry) turn e = turn.after_store (store_queue_token (turn.before_store e))

  abbrev pub resume : Turn F → Engine F → Engine F
  resume turn e = resume_after e.pending_store turn e

  -- The loop over one signal, as far as the turns given reach: the result says whether it came to
  -- its end with them.
  abbrev pub go_on : Next → Engine F × Next → Engine F → Engine F × Next
  go_on again rest e = rest
  go_on stop rest e = (e, stop)

  unfoldable pub dispatch_pass : Floats F → List (Turn F) → Engine F → Engine F × Next
  dispatch_pass o [] e = (e, again)
  dispatch_pass o (turn ∷ turns) e =
      let (t, next) = dispatch_round o turn.readings e in
      let rest = dispatch_pass o turns (resume turn t) in go_on next rest t

-- One pass over the tickets: those older than the threshold go, each with an anomaly.
pub record Reaped : Type 0 where
  pub kept : List (String × ActiveTicket)
  pub removed : ℕ
  pub effects : List Effect

unfoldable pub is_expired : ℤ → ActiveTicket → Bool
is_expired now t = ltb_ℤ ticket_expiry_threshold (sub_time now t.issued_at)

abbrev pub expiry_effects : Bool → ℤ → ActiveTicket → List Effect
expiry_effects has_db now t = record_effect has_db (
    write_anomaly "ticket_expired" t.appliance_id t.token
      (age_ms (milliseconds (sub_time now t.issued_at))))

unfoldable pub reap : Bool → ℤ → List (String × ActiveTicket) → Reaped
reap has_db now [] = record { kept = []; removed = 0; effects = [] }
reap has_db now ((id, t) ∷ m) =
    let rest = reap has_db now m in
    if is_expired now t
    then record {
      kept = rest.kept;
      removed = suc rest.removed;
      effects = expiry_effects has_db now t ++ rest.effects;
    }
    else record rest { kept = (id, t) ∷ rest.kept }

module _ {F : Type 0} where
  unfoldable pub ticket_reaper : ℤ → Engine F → Outcome F (Unit {0})
  ticket_reaper now e =
      let reaped = reap e.has_db now e.active_tickets in
      record {
        engine = notify (record e {
          state = record e.state { in_flight = e.state.in_flight -ℤ pos reaped.removed };
          active_tickets = reaped.kept;
        });
        value = tt;
        effects = reaped.effects ++ broadcast ∷ [];
      }

  -- The shutdown: every waiter is sent false, and the queue is emptied.
  unfoldable pub shut_down : Engine F → Engine F
  shut_down e = let (q, cs) = drain_all e.queue e.chans in record e { queue = q; chans = cs }
