-- ===== src/Safety/Spent.antt =====
-- That no ticket of an appliance has a token, along the steps of internal/handlers/engine.go.
use mathlib.Core.List.{Mem, mem-cons}
use mathlib.Core.Option.{some-injective}
use mathlib.Core.Logic.Or
use ns_cas.Base.{
  ◌≡◌, ◌≢◌, sym, ap, ◌∙◌, Bool, true, ◌||◌, String, str_eq, eq_iff, List, [], ◌∷◌, Option, none,
  some, All, if_cases, Bool-cases, inl, inr, ltb,
}
use ns_cas.Base.Int.{ℤ, pos, eqb_ℤ, leb_ℤ}
use ns_cas.Dict
use ns_cas.State.{State}
use ns_cas.Queue.{Floats, Item, Queue, len, pop_best, has_appliance}
use ns_cas.Chan.{try_send}
use ns_cas.Messages.{ActiveTicket, AcquireRequest, Report}
use ns_cas.Engine.{
  Engine, Reply, Outcome, ReportResult, notify, new_ticket, issue_ticket, check_dispatch,
  add_waiter, acquire_slot, add_demand, try_acquire, holds_ticket, grant_from_queue,
  remove_from_queue,
}
use ns_cas.Reports.{
  process_ticket, process_report, handle_report, try_report_and_acquire, next_class,
}
use ns_cas.Dispatcher.{
  Next, Round, Reaped, is_expired, reap, hand_over, drop_ticket, serve, serve_best, dispatch_round,
  store_entry, store_queue_token, consume_queue_token, ticket_reaper, shut_down,
}
use ns_cas.Safety.System.{
  take_answer, Step, acquire, report, report_and_acquire, give_up, answer, collect, round, store,
  reaping, shutdown,
}

-- No ticket of the appliance has the token.
abbrev pub Avoids : String → String → List (String × ActiveTicket) → Type 0
Avoids id tok = All (λ (p : String × ActiveTicket). ¬ ((p.0 ≡ id) × (p.1.token ≡ tok)))

module _ {F : Type 0} where
  -- The step grants no ticket with the token.
  abbrev pub IsFresh : String → {o : Floats F} {e t : Engine F} → Step o e t → Type 0
  IsFresh tok (acquire req fresh now later) = fresh ≢ tok
  IsFresh tok (report r now) = Unit
  IsFresh tok (report_and_acquire r fresh reported now later) = fresh ≢ tok
  IsFresh tok (give_up k) = Unit
  IsFresh tok (answer c) = Unit
  IsFresh tok (collect k) = Unit
  IsFresh tok (round r h) = r.fresh_token ≢ tok
  IsFresh tok store = Unit
  IsFresh tok (reaping now) = Unit
  IsFresh tok shutdown = Unit

module _ (id tok : String) where
  pub absent-Avoids : (m : List (String × ActiveTicket)) → ¬ Mem id (Dict.keys m) → Avoids id tok m
  absent-Avoids [] h = tt
  absent-Avoids ((j, t) ∷ m) h =
      (λ p. h (mem-cons.1 (Or.inl (sym p.0))), absent-Avoids m (λ q. h (mem-cons.1 (Or.inr q))))

  erase-Avoids :
      (k : String) (m : List (String × ActiveTicket))
      → Avoids id tok m
      → Avoids id tok (Dict.erase k m)
  unfolding Dict.erase
  erase-Avoids k [] h = tt
  erase-Avoids k ((j, t) ∷ m) h =
      if_cases (Avoids id tok) (str_eq j k) (λ _. h.1) (λ _. (h.0, erase-Avoids k m h.1))

  insert-Avoids :
      (k : String) (t : ActiveTicket) (m : List (String × ActiveTicket))
      → t.token ≢ tok
      → Avoids id tok m
      → Avoids id tok (Dict.insert k t m)
  unfolding Dict.insert
  insert-Avoids k t m n h = (λ p. n p.1, erase-Avoids k m h)

  reap-Avoids :
      (db : Bool) (now : ℤ) (m : List (String × ActiveTicket))
      → Avoids id tok m
      → Avoids id tok (reap db now m).kept
  unfolding reap
  reap-Avoids db now [] h = tt
  reap-Avoids db now ((j, t) ∷ m) h =
      if_cases (λ (r : Reaped). Avoids id tok r.kept) (is_expired now t)
        (λ _. reap-Avoids db now m h.1) (λ _. (h.0, reap-Avoids db now m h.1))

  pub lookup-Avoids :
      (m : List (String × ActiveTicket)) {t : ActiveTicket}
      → Dict.lookup id m ≡ some t
      → Avoids id tok m
      → t.token ≢ tok
  unfolding Dict.lookup
  lookup-Avoids [] e h = cc
  lookup-Avoids ((j, w) ∷ m) {t} e h = elim (Bool-cases (str_eq j id)) [
    | inl hit ↦ λ p. h.0 (
      (eq_iff j id).0 hit,
      ap (λ (a : ActiveTicket). a.token) (some-injective w t (rw hit at e)) ∙ p,
    )
    | inr miss ↦ lookup-Avoids m {t = t} (rw miss at e) h.1
  ]

  module _ {F : Type 0} where
    -- No ticket of the engine is one of the appliance with the token.
    abbrev pub IsSpent : Engine F → Type 0
    IsSpent e = Avoids id tok e.active_tickets

    notify-IsSpent : (e : Engine F) → IsSpent e → IsSpent (notify e)
    unfolding notify
    notify-IsSpent e h = if_cases IsSpent (ltb e.notify_pending 64) (λ _. h) (λ _. h)

    issue_ticket-IsSpent :
        (k fresh : String) (now : ℤ) (e : Engine F)
        → fresh ≢ tok
        → IsSpent e
        → IsSpent (issue_ticket k fresh now e)
    unfolding issue_ticket new_ticket
    issue_ticket-IsSpent k fresh now e n h = insert-Avoids k _ e.active_tickets n h

    check_dispatch-IsSpent : (now : ℤ) (e : Engine F) → IsSpent e → IsSpent (check_dispatch now e).0
    unfolding check_dispatch
    check_dispatch-IsSpent now e h = h

    add_waiter-IsSpent :
        (o : Floats F) (k class : String) (backlog now : ℤ) (e : Engine F)
        → IsSpent e
        → IsSpent (add_waiter o k class backlog now e)
    unfolding add_waiter
    add_waiter-IsSpent o k class backlog now e h = h

    acquire_slot-IsSpent :
        (o : Floats F) (k class : String) (backlog : ℤ) (fresh : String) (now later : ℤ)
        (e : Engine F)
        → fresh ≢ tok
        → IsSpent e
        → IsSpent (acquire_slot o k class backlog fresh now later e).0
    unfolding acquire_slot
    acquire_slot-IsSpent o k class backlog fresh now later e n h =
        let Goal = λ (r : Engine F × Reply). IsSpent r.0 in
        let t = (check_dispatch now e).0 in
        let s = check_dispatch-IsSpent now e h in
        if_cases Goal (check_dispatch now e).1 (λ _. issue_ticket-IsSpent k fresh later t n s)
          (λ _.
            if_cases Goal (leb_ℤ t.max_queue (pos (len t.queue))) (λ _. s)
              (λ _. add_waiter-IsSpent o k class backlog later t s))

    demand_slot-IsSpent :
        (o : Floats F) (k class : String) (backlog : ℤ) (fresh : String) (now later : ℤ)
        (e : Engine F)
        → fresh ≢ tok
        → IsSpent e
        → IsSpent (acquire_slot o k class backlog fresh now later (add_demand class backlog e)).0
    unfolding add_demand
    demand_slot-IsSpent o k class backlog fresh now later e n h =
        acquire_slot-IsSpent o k class backlog fresh now later (add_demand class backlog e) n h

    try_acquire-IsSpent :
        (o : Floats F) (req : AcquireRequest) (fresh : String) (now later : ℤ) (e : Engine F)
        → fresh ≢ tok
        → IsSpent e
        → IsSpent (try_acquire o req fresh now later e).engine
    unfolding try_acquire
    try_acquire-IsSpent o req fresh now later e n h =
        if_cases (λ (out : Outcome F Reply). IsSpent out.engine)
          (holds_ticket req.appliance_id e.active_tickets || has_appliance req.appliance_id e.queue)
          (λ _. h)
          (λ _.
            demand_slot-IsSpent o req.appliance_id req.priority_class req.backlog fresh now later e
              n h)

    process_ticket-IsSpent :
        (r : Report) (now : ℤ) (found : Option ActiveTicket) (e : Engine F)
        → IsSpent e
        → IsSpent (process_ticket r now found e).engine
    process_ticket-IsSpent r now none e h = h
    process_ticket-IsSpent r now (some t) e h =
        let Goal = λ (out : Outcome F ReportResult). IsSpent out.engine in
        if_cases Goal (str_eq t.token r.token)
          (λ _.
            if_cases Goal (eqb_ℤ r.status_code (pos 429))
              (λ _. erase-Avoids r.appliance_id e.active_tickets h)
              (λ _. erase-Avoids r.appliance_id e.active_tickets h))
          (λ _. h)

    process_report-IsSpent :
        (r : Report) (now : ℤ) (e : Engine F) → IsSpent e → IsSpent (process_report r now e).engine
    unfolding process_report
    process_report-IsSpent r now e h = process_ticket-IsSpent r now _ e h

    pub handle_report-IsSpent :
        (r : Report) (now : ℤ) (e : Engine F)
        → IsSpent (process_report r now e).engine
        → IsSpent (handle_report r now e).engine
    unfolding handle_report
    handle_report-IsSpent r now e h =
        if_cases (λ (out : Outcome F (Unit {0})). IsSpent out.engine)
          (process_report r now e).value.ok (λ _. notify-IsSpent _ h) (λ _. h)

    pub try_report_and_acquire-IsSpent :
        (o : Floats F) (r : Report) (fresh : String) (reported now later : ℤ) (e : Engine F)
        → fresh ≢ tok
        → IsSpent (process_report r reported e).engine
        → IsSpent (try_report_and_acquire o r fresh reported now later e).engine
    unfolding try_report_and_acquire
    try_report_and_acquire-IsSpent o r fresh reported now later e n h =
        let Goal = λ (out : Outcome F Reply). IsSpent out.engine in
        if_cases Goal (process_report r reported e).value.ok
          (λ _.
            if_cases Goal (process_report r reported e).value.is_lockdown (λ _. notify-IsSpent _ h)
              (λ _. notify-IsSpent _ (
                demand_slot-IsSpent o r.appliance_id (next_class r) r.backlog fresh now later _ n
                  h)))
          (λ _. h)

    hand_over-IsSpent :
        (item : Item F) (fresh : String) (e : Engine F)
        → IsSpent e
        → IsSpent (hand_over item fresh e)
    unfolding hand_over drop_ticket
    hand_over-IsSpent item fresh e h =
        if_cases IsSpent (try_send item.response_chan true e.chans).1 (λ _. h)
          (λ _. erase-Avoids item.appliance_id e.active_tickets h)

    serve-IsSpent :
        (item : Item F) (rest : Queue F) (r : Round) (paid : Option State) (e : Engine F)
        → r.fresh_token ≢ tok
        → IsSpent e
        → IsSpent (serve item rest r paid e).0
    unfolding grant_from_queue
    serve-IsSpent item rest r none e n h = h
    serve-IsSpent item rest r (some s) e n h =
        let t = record e { state = s; queue = rest } in
        hand_over-IsSpent item r.fresh_token
          (issue_ticket item.appliance_id r.fresh_token r.issued_at t)
          (issue_ticket-IsSpent item.appliance_id r.fresh_token r.issued_at t n h)

    serve_best-IsSpent :
        (found : Option (Item F × Queue F)) (r : Round) (e : Engine F)
        → r.fresh_token ≢ tok
        → IsSpent e
        → IsSpent (serve_best found r e).0
    serve_best-IsSpent none r e n h = h
    serve_best-IsSpent (some (item, rest)) r e n h = serve-IsSpent item rest r _ e n h

    dispatch_round-IsSpent :
        (o : Floats F) (r : Round) (e : Engine F)
        → r.fresh_token ≢ tok
        → IsSpent e
        → IsSpent (dispatch_round o r e).0
    unfolding dispatch_round
    dispatch_round-IsSpent o r e n h =
        let t = (check_dispatch r.checked_at e).0 in
        let s = check_dispatch-IsSpent r.checked_at e h in
        if_cases (λ (p : Engine F × Next). IsSpent p.0) (check_dispatch r.checked_at e).1
          (λ _. serve_best-IsSpent (pop_best o r.popped_at t.queue) r t n s) (λ _. s)

    store_entry-IsSpent :
        (entry : Option (String × String)) (e : Engine F)
        → IsSpent e
        → IsSpent (store_entry entry e)
    store_entry-IsSpent none e h = h
    store_entry-IsSpent (some p) e h = h

    pub Step-IsSpent :
        {o : Floats F} {e t : Engine F} (st : Step o e t) → IsFresh tok st → IsSpent e → IsSpent t
    unfolding take_answer remove_from_queue consume_queue_token store_queue_token ticket_reaper
        shut_down
    Step-IsSpent {o} {e} (acquire req fresh now later) n h =
        try_acquire-IsSpent o req fresh now later e n h
    Step-IsSpent {o} {e} (report r now) n h =
        handle_report-IsSpent r now e (process_report-IsSpent r now e h)
    Step-IsSpent {o} {e} (report_and_acquire r fresh reported now later) n h =
        try_report_and_acquire-IsSpent o r fresh reported now later e n
          (process_report-IsSpent r reported e h)
    Step-IsSpent (give_up k) n h = h
    Step-IsSpent (answer c) n h = h
    Step-IsSpent (collect k) n h = h
    Step-IsSpent {o} {e} (round r p) n h = dispatch_round-IsSpent o r e n h
    Step-IsSpent {o} {e} store n h = store_entry-IsSpent e.pending_store e h
    Step-IsSpent {o} {e} (reaping now) n h =
        notify-IsSpent _ (reap-Avoids e.has_db now e.active_tickets h)
    Step-IsSpent shutdown n h = h
