-- ===== src/Ledger/Rounds.antt =====
-- A round of the dispatch loop (internal/handlers/engine.go) as moves of the ledger.
use mathlib.Core.List.{Nodup-cons, mem-append, mem-cons, perm_middle, append-nil}
use mathlib.Core.List.Perm
use mathlib.Core.Logic.Or
use ns_cas.Base.{ap, ◌∙◌, ◌≡◌, refl, subst, String, List, [], ◌∷◌, Option, none, some, if_cases}
use ns_cas.Base.Int.{ℤ}
use ns_cas.Dict
use ns_cas.State.{State}
use ns_cas.Queue.{Floats, Item, Queue, enqueue, pop_best}
use ns_cas.Queue.Waiting.{ids, ids-enqueue, ids-pop_best}
use ns_cas.Engine.{Engine, check_dispatch, issue_ticket, grant_from_queue}
use ns_cas.Dispatcher.{Next, Round, pay_quota, hand_over, serve, serve_best, dispatch_round}
use ns_cas.Safety.Slots.{IsSound, check_dispatch-IsSound}
use ns_cas.Safety.Background.{Popped, Popped-Nodup}
use ns_cas.Chan.{try_send}
use ns_cas.Safety.Wiring.{Wired, Wired-Perm, lines, IsWired, lines-pop_best}
use ns_cas.Ledger.{
  Kind, promoting, promote, Moves, none_made, reordered, one-Move, Served, nobody, served,
}
use ns_cas.Ledger.Requests.{ledger, Follows, check_dispatch-ledger}

module _ {F : Type 0} where
  -- A waiter whose channel is empty is told, and keeps its ticket.
  hand_over-Moves :
      (item : Item F) (tok : String) (d e : Engine F)
      → e.chans item.response_chan ≡ none
      → Moves (ledger d) (promoting item.appliance_id ∷ []) (ledger e)
      → Moves (ledger d) (promoting item.appliance_id ∷ []) (ledger (hand_over item tok e))
  unfolding hand_over try_send ledger
  hand_over-Moves item tok d e h p = rw h p

  grant_from_queue-chans :
      (item : Item F) (tok : String) (now : ℤ) (e : Engine F)
      → (grant_from_queue item tok now e).chans ≡ e.chans
  unfolding grant_from_queue issue_ticket
  grant_from_queue-chans item tok now e = refl

  promote-Moves :
      (item : Item F) (tok : String) (now : ℤ) (q : Queue F) (s : State) (e : Engine F)
      → IsSound e
      → Popped item q e
      → Moves
          (ledger e)
          (promoting item.appliance_id ∷ [])
          (ledger (grant_from_queue item tok now (record e { state = s; queue = q })))
  unfolding ledger grant_from_queue issue_ticket Dict.insert
  promote-Moves item tok now q s e sound p =
      let absent = (Nodup-cons.0 (Popped-Nodup item q e sound p)).0 in
      rw
        (Dict.erase_absent item.appliance_id e.active_tickets (
          Dict.lookup_absent item.appliance_id e.active_tickets
            (λ m. absent (mem-append.1 (Or.inr m)))))
        (one-Move (promote item.appliance_id (ids q) p))

  serve-Follows :
      (item : Item F) (q : Queue F) (r : Round) (paid : Option State) (e : Engine F)
      → IsSound e
      → Popped item q e
      → e.chans item.response_chan ≡ none
      → Follows Served e (serve item q r paid e).0
  unfolding ledger
  serve-Follows item q r none e sound p h = (
    _,
    nobody,
    reordered (ids (enqueue item q)) (Dict.keys e.active_tickets) none_made
        (Perm.trans p (
          rw (ids-enqueue item q)
            (Perm.symm (rw append-nil at (perm_middle {a = item.appliance_id} (ids q) [])))))
        (Perm.refl _),
  )
  serve-Follows item q r (some s) e sound p h =
      let charged = record e { state = s; queue = q } in
      (
        _,
        served item.appliance_id,
        hand_over-Moves item r.fresh_token e
            (grant_from_queue item r.fresh_token r.issued_at charged)
            (ap (λ cs. cs item.response_chan)
                (grant_from_queue-chans item r.fresh_token r.issued_at charged)
              ∙ h)
            (promote-Moves item r.fresh_token r.issued_at q s e sound p),
      )

  serve_best-Follows :
      (o : Floats F) (now : ℤ) (found : Option (Item F × Queue F)) (r : Round) (e : Engine F)
      → IsSound e
      → Wired e.next_chan e.chans (lines e.queue)
      → pop_best o now e.queue ≡ found
      → Follows Served e (serve_best found r e).0
  serve_best-Follows o now none r e sound w h = (_, nobody, none_made)
  serve_best-Follows o now (some (item, q)) r e sound w h =
      let popped = Wired-Perm (lines-pop_best o now e.queue h) w in
      serve-Follows item q r (pay_quota item.priority_class e.state) e sound
        (ids-pop_best o now e.queue h) (popped.free item.response_chan (mem-cons.1 (Or.inl refl))).1

  check_dispatch-Wired :
      (now : ℤ) (e : Engine F)
      → IsWired e
      → let t = (check_dispatch now e).0 in Wired t.next_chan t.chans (lines t.queue)
  unfolding check_dispatch IsWired
  check_dispatch-Wired now e w = w

  pub dispatch_round-Follows :
      (o : Floats F) (r : Round) (e : Engine F)
      → IsSound e
      → IsWired e
      → Follows Served e (dispatch_round o r e).0
  unfolding dispatch_round
  dispatch_round-Follows o r e sound w =
      let t = (check_dispatch r.checked_at e).0 in
      let after = (dispatch_round o r e).0 in
      subst (λ l. (ks : List Kind) × Served ks × Moves l ks (ledger after))
        (check_dispatch-ledger r.checked_at e)
        (if_cases (λ (p : Engine F × Next). Follows Served t p.0) (check_dispatch r.checked_at e).1
          (λ _.
            serve_best-Follows o r.popped_at (pop_best o r.popped_at t.queue) r t
              (check_dispatch-IsSound r.checked_at e sound) (check_dispatch-Wired r.checked_at e w)
              refl)
          (λ _. (_, nobody, none_made)))
