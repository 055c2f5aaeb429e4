-- ===== src/Safety/Background.antt =====
-- The soundness of the engine under dispatchLoop, ticketReaper and the shutdown.
use mathlib.Core.List.{Perm, Nodup, Nodup-cons, Nodup-append, Sublist}
use mathlib.Core.List.Perm
use mathlib.Core.List.Nodup
use mathlib.Core.List.Sublist
use ns_cas.Base.{
  ℕ, ◌+◌, ◌≡◌, refl, ap, ◌∙◌, Bool, true, String, List, [], ◌∷◌, ◌++◌, Option, none, some, length,
  arith, if_cases,
}
use ns_cas.Base.Int.{ℤ, pos, ◌-ℤ◌, int_laws}
use ns_cas.Dict
use ns_cas.State.{State}
use ns_cas.State.Spending.{has_class_quota, deduct_class_quota, has_shared_quota, deduct_shared}
use ns_cas.State.Invariant.{IsValid}
use ns_cas.Queue.{Floats, Item, Queue, pop_best, drain_all}
use ns_cas.Queue.Waiting.{ids, ids-pop_best}
use ns_cas.Messages.{ActiveTicket}
use ns_cas.Engine.{Engine, check_dispatch, grant_from_queue}
use ns_cas.Dispatcher.{
  Next, Round, pay_quota, drop_ticket, hand_over, serve, serve_best, dispatch_round, store_entry,
  store_queue_token, consume_queue_token, Reaped, is_expired, reap, ticket_reaper, shut_down,
}
use ns_cas.Safety.Slots.{
  IsSound, MayCharge, issue_ticket-IsSound, erase_ticket-IsSound, set_queue-IsSound,
  in_flight-IsValid, enqueue-Nodup, lookup-issue_ticket, check_dispatch-IsSound,
  check_dispatch-MayCharge,
}
use ns_cas.Safety.Steps.{notify-IsSound}

-- What paying changes: the class budgets alone.
pub record Paid (s t : State) : Type 0 where
  pub valid : IsValid s → IsValid t
  pub in_flight : t.in_flight ≡ s.in_flight
  pub charge : MayCharge s → MayCharge t

deduct_class_quota-Paid : (class : String) (s : State) → Paid s (deduct_class_quota class s)
unfolding deduct_class_quota
deduct_class_quota-Paid class s = record {
  valid = λ v. ground arith;
  in_flight = refl;
  charge = λ h. h;
}

deduct_shared-Paid : (s : State) → has_shared_quota s ≡ true → Paid s (deduct_shared s)
unfolding deduct_shared has_shared_quota ◌-ℤ◌
deduct_shared-Paid s h = record { valid = λ v. ground arith; in_flight = refl; charge = λ h. h }

abbrev IsPaid : State → Option State → Type 0
IsPaid s none = Unit {0}
IsPaid s (some t) = Paid s t

pay_quota-IsPaid : (class : String) (s : State) → IsPaid s (pay_quota class s)
unfolding pay_quota
pay_quota-IsPaid class s =
    if_cases (IsPaid s) (has_class_quota s class) (λ _. deduct_class_quota-Paid class s)
      (λ _. if_cases (IsPaid s) (has_shared_quota s) (λ h. deduct_shared-Paid s h) (λ _. tt))

module _ {F : Type 0} where
  -- The appliances left when the best waiter has been taken from the queue.
  abbrev pub Popped : (item : Item F) (q : Queue F) (e : Engine F) → Type 0
  Popped item q e = Perm (ids e.queue) (item.appliance_id ∷ ids q)

  pub Popped-Nodup :
      (item : Item F) (q : Queue F) (e : Engine F)
      → IsSound e
      → Popped item q e
      → Nodup (item.appliance_id ∷ ids q ++ Dict.keys e.active_tickets)
  Popped-Nodup item q e s p =
      Perm.nodup (Perm.append_right (Dict.keys e.active_tickets) p) s.distinct

  hand_over-IsSound :
      (item : Item F) (tok : String) (e : Engine F) {t : ActiveTicket}
      → IsSound e
      → Dict.lookup item.appliance_id e.active_tickets ≡ some t
      → IsSound (hand_over item tok e)
  unfolding hand_over drop_ticket
  hand_over-IsSound item tok e s h =
      if_cases IsSound _
        (λ _. record { state_valid = s.state_valid; flight = s.flight; distinct = s.distinct })
        (λ _.
          erase_ticket-IsSound item.appliance_id e _ s h
            (in_flight-IsValid e.state (e.state.in_flight -ℤ pos 1) s.state_valid) refl)

  charged-IsSound :
      (e : Engine F) (t : State) (q : Queue F)
      → IsSound e
      → Paid e.state t
      → Nodup (ids q ++ Dict.keys e.active_tickets)
      → IsSound (record e { state = t; queue = q })
  charged-IsSound e t q s h d = record {
    state_valid = h.valid s.state_valid;
    flight = h.in_flight ∙ s.flight;
    distinct = d;
  }

  serve-IsSound :
      (item : Item F) (q : Queue F) (r : Round) (paid : Option State) (e : Engine F)
      → IsSound e
      → MayCharge e.state
      → Popped item q e
      → IsPaid e.state paid
      → IsSound (serve item q r paid e).0
  unfolding grant_from_queue
  serve-IsSound item q r none e s c p h =
      set_queue-IsSound e _ s
        (enqueue-Nodup item q (Dict.keys e.active_tickets) (Popped-Nodup item q e s p))
  serve-IsSound item q r (some t) e s c p h =
      let d = Nodup-cons.0 (Popped-Nodup item q e s p) in
      let paid = charged-IsSound e t q s h d.1 in
      hand_over-IsSound item r.fresh_token _
        (issue_ticket-IsSound item.appliance_id r.fresh_token r.issued_at _ paid (h.charge c) d.0)
        (lookup-issue_ticket item.appliance_id r.fresh_token r.issued_at _)

  serve_best-IsSound :
      (o : Floats F) (now : ℤ) (found : Option (Item F × Queue F)) (r : Round) (e : Engine F)
      → IsSound e
      → MayCharge e.state
      → pop_best o now e.queue ≡ found
      → IsSound (serve_best found r e).0
  serve_best-IsSound o now none r e s c h = s
  serve_best-IsSound o now (some (item, q)) r e s c h =
      serve-IsSound item q r _ e s c (ids-pop_best o now e.queue h)
        (pay_quota-IsPaid item.priority_class e.state)

  -- A round of the dispatch loop keeps a sound engine sound, on each of its branches.
  pub dispatch_round-IsSound :
      (o : Floats F) (r : Round) (e : Engine F) → IsSound e → IsSound (dispatch_round o r e).0
  unfolding dispatch_round
  dispatch_round-IsSound o r e s =
      let t = check_dispatch-IsSound r.checked_at e s in
      if_cases (λ (p : Engine F × Next). IsSound p.0) (check_dispatch r.checked_at e).1
        (λ ok.
          serve_best-IsSound o r.popped_at _ r _ t (check_dispatch-MayCharge r.checked_at e ok)
            refl)
        (λ _. t)

  -- Only the token map and the loop's next store change.
  tokens-IsSound :
      (e : Engine F) (m : List (String × String)) (p : Option (String × String))
      → IsSound e
      → IsSound (record e { queue_tokens = m; pending_store = p })
  tokens-IsSound e m p s = record {
    state_valid = s.state_valid;
    flight = s.flight;
    distinct = s.distinct;
  }

  store_entry-IsSound :
      (p : Option (String × String)) (e : Engine F) → IsSound e → IsSound (store_entry p e)
  store_entry-IsSound none e s = s
  store_entry-IsSound (some (id, tok)) e s = tokens-IsSound e _ _ s

  pub store_queue_token-IsSound : (e : Engine F) → IsSound e → IsSound (store_queue_token e)
  unfolding store_queue_token
  store_queue_token-IsSound e s = store_entry-IsSound e.pending_store e s

  pub consume_queue_token-IsSound :
      (id : String) (e : Engine F) → IsSound e → IsSound (consume_queue_token id e).0
  unfolding consume_queue_token
  consume_queue_token-IsSound id e s = tokens-IsSound e _ e.pending_store s

-- The reaper keeps a part of the tickets, and counts the others.
pub reap_counts :
    (db : Bool) (now : ℤ) (m : List (String × ActiveTicket))
    → length (reap db now m).kept + (reap db now m).removed ≡ length m
unfolding reap
reap_counts db now [] = refl
reap_counts db now ((id, t) ∷ m) = ground (arith, reap_counts db now m)

pub reap-sublist :
    (db : Bool) (now : ℤ) (m : List (String × ActiveTicket))
    → Sublist (Dict.keys (reap db now m).kept) (Dict.keys m)
unfolding reap
reap-sublist db now [] = Sublist.refl []
reap-sublist db now ((id, t) ∷ m) =
    if_cases (λ (r : Reaped). Sublist (Dict.keys r.kept) (id ∷ Dict.keys m)) (is_expired now t)
      (λ _. Sublist.cons id (reap-sublist db now m))
      (λ _. Sublist.cons-cons id (reap-sublist db now m))

less_flight : (k n m : ℕ) → k + n ≡ m → pos m -ℤ pos n ≡ pos k
less_flight k n m e = omega int_laws

module _ {F : Type 0} where
  -- A pass of the reaper keeps a sound engine sound: it lowers the count of tickets in flight by
  -- exactly the tickets that it removes.
  pub ticket_reaper-IsSound :
      (now : ℤ) (e : Engine F) → IsSound e → IsSound (ticket_reaper now e).engine
  unfolding ticket_reaper
  ticket_reaper-IsSound now e s =
      let r = reap e.has_db now e.active_tickets in
      let kept : IsSound (record e {
        state = record e.state { in_flight = e.state.in_flight -ℤ pos r.removed };
        active_tickets = r.kept;
      }) =
        record {
          state_valid = in_flight-IsValid e.state _ s.state_valid;
          flight =
              ap (λ n. n -ℤ pos r.removed) s.flight
              ∙ less_flight (length r.kept) r.removed (length e.active_tickets)
                  (reap_counts e.has_db now e.active_tickets);
          distinct =
              Nodup.sublist
                (Sublist.append (Sublist.refl (ids e.queue))
                  (reap-sublist e.has_db now e.active_tickets))
                s.distinct;
        } in
      notify-IsSound _ kept

  pub shut_down-IsSound : (e : Engine F) → IsSound e → IsSound (shut_down e)
  unfolding shut_down drain_all
  shut_down-IsSound e s = record {
    state_valid = s.state_valid;
    flight = s.flight;
    distinct = (Nodup-append.0 s.distinct).1;
  }
