-- ===== src/Safety/Slots.antt =====
-- The slots of the engine in internal/handlers/engine.go: an engine is sound if the tickets in
-- flight are those on record, and no appliance holds two tickets, waits twice, or waits while it
-- holds a ticket.
use mathlib.Core.List.{perm_middle, Mem, Nodup, Nodup-cons, Nodup-nil, append-nil, mem-append}
use mathlib.Core.List.Perm
use mathlib.Core.Logic.Or
use ns_cas.Base.{
  ℕ, suc, ◌≡◌, refl, sym, ap, ◌∙◌, Bool, true, String, List, [], ◌∷◌, ◌++◌, some, length, arith,
  inl, inr,
}
use ns_cas.Base.Int.{ℤ, pos, ◌+ℤ◌, ◌-ℤ◌, ◌<ℤ◌, int_laws}
use ns_cas.Dict
use ns_cas.State.{State, Config, new, new_of}
use ns_cas.State.Spending.{deduct_sustained}
use ns_cas.State.Invariant.{IsValid, new-IsValid, deduct_sustained-IsValid, can_dispatch-IsValid}
use ns_cas.State.Dispatch.{can_dispatch-CanGrant}
use ns_cas.State.Frame.{can_dispatch-Same}
use ns_cas.Queue
use ns_cas.Queue.{Floats, Item, Queue, len, enqueue, remove, pop_best}
use ns_cas.Queue.Waiting.{ids, ids-enqueue, remove_cases}
use ns_cas.Messages.{ActiveTicket}
use ns_cas.Engine.{
  Engine, new_engine, count_grant, new_ticket, issue_ticket, add_waiter, check_dispatch,
  remove_from_queue,
}

-- A grant may be charged: a calibrated state has sustained allowance left.
abbrev pub MayCharge : State → Type 0
MayCharge s = s.calibrated ≡ true → s.sustained_used <ℤ s.sustained_limit

count_flight : (n : ℕ) → pos n +ℤ pos 1 ≡ pos (suc n)
unfolding ◌+ℤ◌
count_flight n = ground arith

pub in_flight-IsValid : (s : State) (k : ℤ) → IsValid s → IsValid (record s { in_flight = k })
in_flight-IsValid s k v = ground arith

count_grant-IsValid : (s : State) → IsValid s → MayCharge s → IsValid (count_grant s)
unfolding count_grant
count_grant-IsValid s v h = deduct_sustained-IsValid _ (in_flight-IsValid s _ v) h

drop_flight : (n : ℕ) → pos (suc n) -ℤ pos 1 ≡ pos n
drop_flight n = omega int_laws

module _ {F : Type 0} where
  -- The appliances that wait or hold a ticket.
  abbrev pub names : Engine F → List String
  names e = ids e.queue ++ Dict.keys e.active_tickets

  pub record IsSound (e : Engine F) : Type 0 where
    pub state_valid : IsValid e.state
    pub flight : e.state.in_flight ≡ pos (length e.active_tickets)
    pub distinct : Nodup (names e)

  pub issue_ticket-IsSound :
      (id tok : String) (now : ℤ) (e : Engine F)
      → IsSound e
      → MayCharge e.state
      → ¬ Mem id (names e)
      → IsSound (issue_ticket id tok now e)
  unfolding issue_ticket count_grant deduct_sustained Dict.insert
  issue_ticket-IsSound id tok now e s h absent =
      let none' = Dict.lookup_absent id e.active_tickets (λ m. absent (mem-append.1 (Or.inr m))) in
      record {
        state_valid = count_grant-IsValid e.state s.state_valid h;
        flight =
            rw (s.flight, Dict.erase_absent id e.active_tickets none')
              (count_flight (length e.active_tickets));
        distinct = rw (Dict.erase_absent id e.active_tickets none') (
            Perm.nodup (Perm.symm (perm_middle (ids e.queue) (Dict.keys e.active_tickets)))
              (Nodup-cons.1 (absent, s.distinct)));
      }

  -- The ticket issued is the one on record for its appliance.
  pub lookup-issue_ticket :
      (id tok : String) (now : ℤ) (e : Engine F)
      → Dict.lookup id (issue_ticket id tok now e).active_tickets
        ≡ some (new_ticket id tok now (count_grant e.state))
  unfolding issue_ticket
  lookup-issue_ticket id tok now e = Dict.lookup-insert_self id _ e.active_tickets

  pub enqueue-Nodup :
      (item : Item F) (q : Queue F) (held : List String)
      → Nodup (item.appliance_id ∷ ids q ++ held)
      → Nodup (ids (enqueue item q) ++ held)
  enqueue-Nodup item q held d = rw (ids-enqueue item q) (
      Perm.nodup
        (Perm.symm (Perm.append_right held (perm_middle {a = item.appliance_id} (ids q) [])))
        (rw append-nil d))

  pub add_waiter-IsSound :
      (o : Floats F) (id class : String) (backlog now : ℤ) (e : Engine F)
      → IsSound e
      → ¬ Mem id (names e)
      → IsSound (add_waiter o id class backlog now e)
  unfolding add_waiter
  add_waiter-IsSound o id class backlog now e s absent = record {
    state_valid = s.state_valid;
    flight = s.flight;
    distinct =
        enqueue-Nodup _ e.queue (Dict.keys e.active_tickets) (Nodup-cons.1 (absent, s.distinct));
  }

  -- Removing a ticket that is there, whatever else becomes of the state.
  pub erase_ticket-IsSound :
      (id : String) (e : Engine F) (s : State) {t : ActiveTicket}
      → IsSound e
      → Dict.lookup id e.active_tickets ≡ some t
      → IsValid s
      → s.in_flight ≡ e.state.in_flight -ℤ pos 1
      → IsSound (record e { state = s; active_tickets = Dict.erase id e.active_tickets })
  erase_ticket-IsSound id e s {t} sound found v one = record {
    state_valid = v;
    flight =
        one
        ∙ ap (λ n. n -ℤ pos 1)
            (sound.flight ∙ ap pos (sym (Dict.length-erase id e.active_tickets {v = t} found)))
        ∙ drop_flight (length (Dict.erase id e.active_tickets));
    distinct =
        (Nodup-cons.0 (
          Perm.nodup
            (Perm.trans
              (Perm.append_left (ids e.queue)
                (Dict.keys-erase-perm id e.active_tickets {v = t} found))
              (perm_middle (ids e.queue) (Dict.keys (Dict.erase id e.active_tickets))))
            sound.distinct)).1;
  }

  -- The freed appliance neither waits nor holds a ticket.
  pub erase_ticket_absent :
      (id : String) (e : Engine F) {t : ActiveTicket}
      → IsSound e
      → Dict.lookup id e.active_tickets ≡ some t
      → ¬ Mem id (ids e.queue ++ Dict.keys (Dict.erase id e.active_tickets))
  erase_ticket_absent id e {t} sound found =
      (Nodup-cons.0 (
        Perm.nodup
          (Perm.trans
            (Perm.append_left (ids e.queue)
              (Dict.keys-erase-perm id e.active_tickets {v = t} found))
            (perm_middle (ids e.queue) (Dict.keys (Dict.erase id e.active_tickets))))
          sound.distinct)).0

  pub set_state-IsSound :
      (e : Engine F) (s : State)
      → IsSound e
      → IsValid s
      → s.in_flight ≡ e.state.in_flight
      → IsSound (record e { state = s })
  set_state-IsSound e s sound v same = record {
    state_valid = v;
    flight = same ∙ sound.flight;
    distinct = sound.distinct;
  }

  pub check_dispatch-IsSound :
      (now : ℤ) (e : Engine F) → IsSound e → IsSound (check_dispatch now e).0
  unfolding check_dispatch
  check_dispatch-IsSound now e sound =
      set_state-IsSound e _ sound (can_dispatch-IsValid now e.state sound.state_valid)
        (can_dispatch-Same now e.state).in_flight

  -- Once CanDispatch has said yes, a grant may be charged.
  pub check_dispatch-MayCharge :
      (now : ℤ) (e : Engine F)
      → (check_dispatch now e).1 ≡ true
      → MayCharge (check_dispatch now e).0.state
  unfolding check_dispatch
  check_dispatch-MayCharge now e ok c =
      (can_dispatch-CanGrant now e.state (sym (can_dispatch-Same now e.state).calibrated ∙ c)
        ok).sustained

  -- A queue whose names are among the old ones.
  pub set_queue-IsSound :
      (e : Engine F) (q : Queue F)
      → IsSound e
      → Nodup (ids q ++ Dict.keys e.active_tickets)
      → IsSound (record e { queue = q })
  set_queue-IsSound e q sound d = record {
    state_valid = sound.state_valid;
    flight = sound.flight;
    distinct = d;
  }

  pub remove_from_queue-IsSound :
      (id : String) (e : Engine F) → IsSound e → IsSound (remove_from_queue id e)
  unfolding remove_from_queue
  remove_from_queue-IsSound id e sound = elim (remove_cases id e.queue) [
    | inl (_, p) ↦
        set_queue-IsSound e _ sound
          (Nodup-cons.0
            (Perm.nodup (Perm.append_right (Dict.keys e.active_tickets) p) sound.distinct)).1
    | inr (_, same) ↦ set_queue-IsSound e _ sound (rw same sound.distinct)
  ]

  -- A server starts with no tickets and no waiters.
  pub new-IsSound :
      (c : Config) (w : F) (max_queue : ℤ) (has_db : Bool)
      → IsSound (new_engine (new c) (Queue.new w) max_queue has_db)
  unfolding new_engine new new_of Queue.new
  new-IsSound c w max_queue has_db = record {
    state_valid = new-IsValid c;
    flight = refl;
    distinct = Nodup-nil;
  }
