-- ===== src/Safety/Wiring/Background.antt =====
-- The channels of the waiters under the dispatch loop, timeouts, the reaper and the shutdown.

use mathlib.Core.List.{Mem, mem-cons}
use mathlib.Core.List.Perm
use mathlib.Core.Logic.Or
use ns_cas.Base.{
  ℕ, ◌≡◌, refl, subst, Bool, true, String, List, ◌∷◌, Option, none, some, if_cases, inl, inr, ◌⊎◌,
}
use ns_cas.Base.Int.{ℤ}
use ns_cas.State.{State, Config}
use ns_cas.Queue
use ns_cas.Dict
use ns_cas.Chan.{receive, try_send}
use ns_cas.Queue.{Floats, Item, Queue, pop_best, enqueue, remove, remove_item, drain_all}
use ns_cas.Queue.Sort.{pop_best-perm}
use ns_cas.Messages.{ActiveTicket}
use ns_cas.Engine.{
  Engine, new_engine, remove_from_queue, new_ticket, count_grant, grant_from_queue, check_dispatch,
  issue_ticket,
}
use ns_cas.Dispatcher.{
  Next, again, stop, Round, pay_quota, hand_over, serve, serve_best, dispatch_round, store_entry,
  store_queue_token, consume_queue_token, ticket_reaper, shut_down,
}
use ns_cas.Safety.Pass.{check_dispatch-queue}
use ns_cas.Safety.System.{
  take_answer, Step, acquire, report, report_and_acquire, give_up, answer, collect, round, store,
  reaping, shutdown, Reach, here, next, fresh_server,
}
use ns_cas.Safety.Wiring.{
  Wired, set_chan_self, Wired-Perm, Wired-Sublist, Wired-tail, Wired-take, Wired-nil, lines,
  IsWired, lines-pop_best, lines-enqueue, remove_item-lines,
}
use ns_cas.Safety.Wiring.Steps.{
  check_dispatch-IsWired, try_acquire-IsWired, tickets-IsWired, notify-IsWired,
  handle_report-IsWired, try_report_and_acquire-IsWired,
}

module _ {F : Type 0} where
  remove_from_queue-IsWired :
      (id : String) (e : Engine F) → IsWired e → IsWired (remove_from_queue id e)
  unfolding remove_from_queue remove IsWired
  remove_from_queue-IsWired id e w = Wired-Sublist (remove_item-lines id e.queue.items) w

  take_answer-IsWired : (c : ℕ) (e : Engine F) → IsWired e → IsWired (take_answer c e)
  unfolding take_answer receive IsWired
  take_answer-IsWired c e w = Wired-take c w

  consume_queue_token-IsWired :
      (id : String) (e : Engine F) → IsWired e → IsWired (consume_queue_token id e).0
  unfolding consume_queue_token IsWired
  consume_queue_token-IsWired id e w = w

  store_entry-IsWired :
      (entry : Option (String × String)) (e : Engine F) → IsWired e → IsWired (store_entry entry e)
  unfolding IsWired
  store_entry-IsWired none e w = w
  store_entry-IsWired (some p) e w = w

  store_queue_token-IsWired : (e : Engine F) → IsWired e → IsWired (store_queue_token e)
  unfolding store_queue_token
  store_queue_token-IsWired e w = store_entry-IsWired e.pending_store e w

  ticket_reaper-IsWired :
      (now : ℤ) (e : Engine F) → IsWired e → IsWired (ticket_reaper now e).engine
  unfolding ticket_reaper
  ticket_reaper-IsWired now e w = notify-IsWired _ (tickets-IsWired _ _ e w)

  shut_down-IsWired : (e : Engine F) → IsWired e → IsWired (shut_down e)
  unfolding shut_down drain_all IsWired
  shut_down-IsWired e w = Wired-nil e.next_chan _

  -- The value that a waiter whose channel is empty is sent.
  pub record IsTold (item : Item F) (tok : String) (after : Engine F) : Type 0 where
    pub sent : after.chans item.response_chan ≡ some true
    pub stored : after.pending_store ≡ some (item.appliance_id, tok)
    pub ticket : ActiveTicket
    pub on_record : Dict.lookup item.appliance_id after.active_tickets ≡ some ticket
    pub same_token : ticket.token ≡ tok

  -- The best waiter, with the others, once it has left the queue.
  abbrev IsPopped : Item F → Engine F → Type 0
  IsPopped item e = Wired e.next_chan e.chans (item.response_chan ∷ lines e.queue)

  popped_free : (item : Item F) (e : Engine F) → IsPopped item e → e.chans item.response_chan ≡ none
  popped_free item e w = (w.free item.response_chan (mem-cons.1 (Or.inl refl))).1

  hand_over-IsTold :
      (item : Item F) (tok : String) (now : ℤ) (e : Engine F)
      → e.chans item.response_chan ≡ none
      → IsTold item tok (hand_over item tok (issue_ticket item.appliance_id tok now e))
  unfolding hand_over try_send issue_ticket new_ticket
  hand_over-IsTold item tok now e h = rw h (record {
    sent = set_chan_self item.response_chan (some true) e.chans;
    stored = refl;
    ticket = new_ticket item.appliance_id tok now (count_grant e.state);
    on_record = Dict.lookup-insert_self item.appliance_id _ e.active_tickets;
    same_token = refl;
  })

  hand_over-IsWired :
      (item : Item F) (tok : String) (now : ℤ) (e : Engine F)
      → IsPopped item e
      → IsWired (hand_over item tok (issue_ticket item.appliance_id tok now e))
  unfolding hand_over try_send issue_ticket IsWired
  hand_over-IsWired item tok now e w = rw (popped_free item e w) (Wired-tail (some true) w)

  abbrev Served : List (Item F) → Round → Engine F × Next → Type 0
  Served waiting r p =
      IsWired p.0
      × ((p.1 ≡ stop)
          ⊎ (p.1 ≡ again) × ((item : Item F) × Mem item waiting × IsTold item r.fresh_token p.0))

  serve-Served :
      (item : Item F) (q : Queue F) (r : Round) (paid : Option State) (e : Engine F)
      → Wired e.next_chan e.chans (item.response_chan ∷ lines q)
      → Mem item e.queue.items
      → Served e.queue.items r (serve item q r paid e)
  unfolding grant_from_queue IsWired
  serve-Served item q r none e w m = (Wired-Perm (lines-enqueue item q) w, inl refl)
  serve-Served item q r (some s) e w m =
      let charged = record e { state = s; queue = q } in
      (
        hand_over-IsWired item r.fresh_token r.issued_at charged w,
        inr (
          refl,
          (
            item,
            m,
            hand_over-IsTold item r.fresh_token r.issued_at charged (popped_free item charged w),
          ),
        ),
      )

  serve_best-Served :
      (o : Floats F) (now : ℤ) (found : Option (Item F × Queue F)) (r : Round) (e : Engine F)
      → IsWired e
      → pop_best o now e.queue ≡ found
      → Served e.queue.items r (serve_best found r e)
  unfolding IsWired
  serve_best-Served o now none r e w h = (w, inl refl)
  serve_best-Served o now (some (item, q)) r e w h =
      serve-Served item q r (pay_quota item.priority_class e.state) e
        (Wired-Perm (lines-pop_best o now e.queue h) w)
        ((Perm.mem_iff (pop_best-perm o now e.queue h)).1 (mem-cons.1 (Or.inl refl)))

  dispatch_round-Served :
      (o : Floats F) (r : Round) (e : Engine F)
      → IsWired e
      → Served e.queue.items r (dispatch_round o r e)
  unfolding dispatch_round
  dispatch_round-Served o r e w =
      let t = check_dispatch-IsWired r.checked_at e w in
      subst (λ (q : Queue F). Served q.items r (dispatch_round o r e))
        (check_dispatch-queue r.checked_at e)
        (if_cases (Served (check_dispatch r.checked_at e).0.queue.items r)
          (check_dispatch r.checked_at e).1
          (λ _.
            serve_best-Served o r.popped_at
              (pop_best o r.popped_at (check_dispatch r.checked_at e).0.queue) r _ t refl)
          (λ _. (t, inl refl)))

  Step-IsWired : (o : Floats F) {e t : Engine F} → Step o e t → IsWired e → IsWired t
  Step-IsWired o {e} (acquire req tok now later) w = try_acquire-IsWired o req tok now later e w
  Step-IsWired o {e} (report r now) w = handle_report-IsWired r now e w
  Step-IsWired o {e} (report_and_acquire r tok reported now later) w =
      try_report_and_acquire-IsWired o r tok reported now later e w
  Step-IsWired o {e} (give_up id) w = remove_from_queue-IsWired id e w
  Step-IsWired o {e} (answer c) w = take_answer-IsWired c e w
  Step-IsWired o {e} (collect id) w = consume_queue_token-IsWired id e w
  Step-IsWired o {e} (round r h) w = (dispatch_round-Served o r e w).0
  Step-IsWired o {e} store w = store_queue_token-IsWired e w
  Step-IsWired o {e} (reaping now) w = ticket_reaper-IsWired now e w
  Step-IsWired o {e} shutdown w = shut_down-IsWired e w

  pub fresh-IsWired :
      (c : Config) (w : F) (max_queue : ℤ) (has_db : Bool)
      → IsWired (fresh_server c w max_queue has_db)
  unfolding IsWired new_engine Queue.new
  fresh-IsWired c w max_queue has_db = Wired-nil 0 _

  pub Reach-IsWired : (o : Floats F) {e t : Engine F} → IsWired e → Reach o e t → IsWired t
  Reach-IsWired o w here = w
  Reach-IsWired o w (next r st) = Step-IsWired o st (Reach-IsWired o w r)

  IsTold-again :
      (its : List (Item F)) (r : Round) (p : Engine F × Next)
      → Served its r p
      → p.1 ≡ again
      → (item : Item F) × Mem item its × IsTold item r.fresh_token p.0
  IsTold-again its r (t, stop) h a = cc
  IsTold-again its r (t, again) (w, inl h) a = cc
  IsTold-again its r (t, again) (w, inr h) a = h.1

  -- In every state that a fresh server can reach, a round of the dispatch loop that goes on has
  -- told one of the waiters: true is on the channel of that waiter, the new token is held for the
  -- token map under its appliance, and a ticket with that token is on record.
  pub dispatch_round-IsTold :
      (o : Floats F) (c : Config) (w : F) (max_queue : ℤ) (has_db : Bool) (r : Round) {e : Engine F}
      → Reach o (fresh_server c w max_queue has_db) e
      → (dispatch_round o r e).1 ≡ again
      → (item : Item F) × Mem item e.queue.items
        × IsTold item r.fresh_token (dispatch_round o r e).0
  dispatch_round-IsTold o c w max_queue has_db r {e} p a =
      IsTold-again e.queue.items r (dispatch_round o r e)
        (dispatch_round-Served o r e (Reach-IsWired o (fresh-IsWired c w max_queue has_db) p)) a
