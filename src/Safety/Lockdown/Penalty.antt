-- ===== src/Safety/Lockdown/Penalty.antt =====
-- The engine of internal/handlers/engine.go for as long as a penalty is served.
use mathlib.Core.List.{Sublist}
use mathlib.Core.List.Sublist
use ns_cas.Base.{
  ℕ, ◌<◌, ◌≤◌, ◌*◌, ◌^◌, arith, ◌≡◌, refl, sym, ◌∙◌, subst, Bool, true, false, ◌||◌, String, str_eq,
  List, [], ◌∷◌, Option, none, some, if_cases, ltb, Bool-cases, inl, inr,
}
use ns_cas.Base.Int.{ℤ, pos, ◌<ℤ◌, ◌+ℤ◌, eqb_ℤ, ltb_ℤ}
use ns_cas.Dict
use ns_cas.State.{consume_window_opened}
use ns_cas.State.Penalties.{note_penalty}
use ns_cas.State.Throttle.{max_window, seconds_small}
use ns_cas.State.Frame.{note_headers-lockdown}
use ns_cas.Queue.{Floats, has_appliance}
use ns_cas.Messages.{ActiveTicket, AcquireRequest, Report}
use ns_cas.Engine.{
  Engine, Reply, Outcome, notify, holds_ticket, add_waiter, acquire_slot, add_demand, try_acquire,
  remove_from_queue,
}
use ns_cas.Reports.{
  headers_from, settle, observe_quota, penalised, serve_penalty, process_ticket, process_report,
  handle_report, try_report_and_acquire, next_class,
}
use ns_cas.Dispatcher.{
  Reaped, is_expired, reap, store_entry, store_queue_token, consume_queue_token, ticket_reaper,
  shut_down,
}
use ns_cas.Safety.System.{
  take_answer, Step, acquire, report, report_and_acquire, give_up, answer, collect, round, store,
  reaping, shutdown,
}
use ns_cas.Safety.Lockdown.{IsLocked, settle-lockdown, check_dispatch_locked, dispatch_round_locked}

erase-Sublist : {V : Type 0} (k : String) (m : List (String × V)) → Sublist (Dict.erase k m) m
unfolding Dict.erase
erase-Sublist k [] = Sublist.refl []
erase-Sublist k ((j, v) ∷ m) = elim (Bool-cases (str_eq j k)) [
  | inl hit ↦ rw hit (Sublist.cons (j, v) (Sublist.refl m))
  | inr miss ↦ rw miss (Sublist.cons-cons (j, v) (erase-Sublist k m))
]

reap-Sublist :
    (db : Bool) (now : ℤ) (m : List (String × ActiveTicket)) → Sublist (reap db now m).kept m
unfolding reap
reap-Sublist db now [] = Sublist.refl []
reap-Sublist db now ((id, t) ∷ m) =
    if_cases (λ (r : Reaped). Sublist r.kept ((id, t) ∷ m)) (is_expired now t)
      (λ _. Sublist.cons (id, t) (reap-Sublist db now m))
      (λ _. Sublist.cons-cons (id, t) (reap-Sublist db now m))

first_wins : (n : ℕ) → 0 < n → ltb_ℤ (pos 0) (pos n) ≡ true
first_wins n h = ground arith

module _ {F : Type 0} where
  -- The penalty is served on, and no ticket is new.
  pub record Serves (e t : Engine F) : Type 0 where
    pub active : t.state.lockdown_active ≡ e.state.lockdown_active
    pub until : t.state.lockdown_until ≡ e.state.lockdown_until
    pub tickets : Sublist t.active_tickets e.active_tickets

  Serves-refl : (e : Engine F) → Serves e e
  Serves-refl e = record { active = refl; until = refl; tickets = Sublist.refl _ }

  Serves-trans : {e t u : Engine F} → Serves e t → Serves t u → Serves e u
  Serves-trans p q = record {
    active = q.active ∙ p.active;
    until = q.until ∙ p.until;
    tickets = Sublist.trans q.tickets p.tickets;
  }

  Serves-IsLocked :
      {now : ℤ} {e t : Engine F} → Serves e t → IsLocked now e.state → IsLocked now t.state
  Serves-IsLocked {now} p l = record {
    active = p.active ∙ l.active;
    early = subst (λ u. now <ℤ u) (sym p.until) l.early;
  }

  add_demand-Serves :
      (class : String) (backlog : ℤ) (e : Engine F) → Serves e (add_demand class backlog e)
  unfolding add_demand
  add_demand-Serves class backlog e = record {
    active = refl;
    until = refl;
    tickets = Sublist.refl _;
  }

  add_waiter-Serves :
      (o : Floats F) (id class : String) (backlog now : ℤ) (e : Engine F)
      → Serves e (add_waiter o id class backlog now e)
  unfolding add_waiter
  add_waiter-Serves o id class backlog now e = record {
    active = refl;
    until = refl;
    tickets = Sublist.refl _;
  }

  notify-Serves : (e : Engine F) → Serves e (notify e)
  unfolding notify
  notify-Serves e =
      if_cases (Serves e) (ltb e.notify_pending 64)
        (λ _. record { active = refl; until = refl; tickets = Sublist.refl _ }) (λ _. Serves-refl e)

  acquire_slot-Serves :
      (o : Floats F) (id class : String) (backlog : ℤ) (tok : String) (now later : ℤ) (e : Engine F)
      → IsLocked now e.state
      → Serves e (acquire_slot o id class backlog tok now later e).0
  unfolding acquire_slot
  acquire_slot-Serves o id class backlog tok now later e l = rw (check_dispatch_locked now e l) (
      if_cases (λ (r : Engine F × Reply). Serves e r.0) _ (λ _. Serves-refl e)
        (λ _. add_waiter-Serves o id class backlog later e))

  demand_slot-Serves :
      (o : Floats F) (id class name : String) (backlog more : ℤ) (tok : String) (now later : ℤ)
      (e : Engine F)
      → IsLocked now e.state
      → Serves e (acquire_slot o id class backlog tok now later (add_demand name more e)).0
  demand_slot-Serves o id class name backlog more tok now later e l =
      let d = add_demand-Serves name more e in
      Serves-trans d (acquire_slot-Serves o id class backlog tok now later _ (Serves-IsLocked d l))

  try_acquire-Serves :
      (o : Floats F) (req : AcquireRequest) (tok : String) (now later : ℤ) (e : Engine F)
      → IsLocked now e.state
      → Serves e (try_acquire o req tok now later e).engine
  unfolding try_acquire
  try_acquire-Serves o req tok now later e l =
      if_cases (λ (out : Outcome F Reply). Serves e out.engine)
        (holds_ticket req.appliance_id e.active_tickets || has_appliance req.appliance_id e.queue)
        (λ _. Serves-refl e)
        (λ _.
          demand_slot-Serves o req.appliance_id req.priority_class req.priority_class req.backlog
            req.backlog tok now later e l)

  -- A report that is no penalty.
  process_ticket-Serves :
      (r : Report) (now : ℤ) (found : Option ActiveTicket) (e : Engine F)
      → eqb_ℤ r.status_code (pos 429) ≡ false
      → Serves e (process_ticket r now found e).engine
  unfolding observe_quota consume_window_opened
  process_ticket-Serves r now none e h = Serves-refl e
  process_ticket-Serves r now (some t) e h =
      let (a, u) = note_headers-lockdown (headers_from r) r.api_recv_at (settle r e.state) in
      let (a', u') = settle-lockdown r e.state in
      elim (Bool-cases (str_eq t.token r.token)) [
        | inl hit ↦
            rw (hit, h)
              (record {
                active = a ∙ a';
                until = u ∙ u';
                tickets = erase-Sublist r.appliance_id e.active_tickets;
              })
        | inr miss ↦ rw miss (Serves-refl e)
      ]

  process_report-Serves :
      (r : Report) (now : ℤ) (e : Engine F)
      → eqb_ℤ r.status_code (pos 429) ≡ false
      → Serves e (process_report r now e).engine
  unfolding process_report
  process_report-Serves r now e h = process_ticket-Serves r now _ e h

  handle_report-Serves :
      (r : Report) (now : ℤ) (e : Engine F)
      → eqb_ℤ r.status_code (pos 429) ≡ false
      → Serves e (handle_report r now e).engine
  unfolding handle_report
  handle_report-Serves r now e h =
      let p = process_report-Serves r now e h in
      if_cases (λ (out : Outcome F (Unit {0})). Serves e out.engine)
        (process_report r now e).value.ok (λ _. Serves-trans p (notify-Serves _)) (λ _. p)

  try_report_and_acquire-Serves :
      (o : Floats F) (r : Report) (tok : String) (reported now later : ℤ) (e : Engine F)
      → eqb_ℤ r.status_code (pos 429) ≡ false
      → IsLocked now e.state
      → Serves e (try_report_and_acquire o r tok reported now later e).engine
  unfolding try_report_and_acquire
  try_report_and_acquire-Serves o r tok reported now later e h l =
      let Goal = λ (out : Outcome F Reply). Serves e out.engine in
      let p = process_report-Serves r reported e h in
      if_cases Goal (process_report r reported e).value.ok
        (λ _.
          if_cases Goal (process_report r reported e).value.is_lockdown
            (λ _. Serves-trans p (notify-Serves _))
            (λ _. Serves-trans p (
              Serves-trans
                (demand_slot-Serves o r.appliance_id (next_class r) (next_class r) r.backlog
                  r.backlog tok now later _ (Serves-IsLocked p l))
                (notify-Serves _))))
        (λ _. p)

  store_entry-Serves :
      (entry : Option (String × String)) (e : Engine F) → Serves e (store_entry entry e)
  store_entry-Serves none e = Serves-refl e
  store_entry-Serves (some p) e = record { active = refl; until = refl; tickets = Sublist.refl _ }

  ticket_reaper-Serves : (now : ℤ) (e : Engine F) → Serves e (ticket_reaper now e).engine
  unfolding ticket_reaper
  ticket_reaper-Serves now e =
      Serves-trans
        (record {
          active = refl;
          until = refl;
          tickets = reap-Sublist e.has_db now e.active_tickets;
        })
        (notify-Serves _)

  -- A step whose CanDispatch reads a time before the end of the penalty, and that is no other penalty.
  abbrev pub IsEarly : {o : Floats F} {e t : Engine F} → ℤ → Step o e t → Type 0
  IsEarly end (acquire req tok now later) = now <ℤ end
  IsEarly end (report r now) = eqb_ℤ r.status_code (pos 429) ≡ false
  IsEarly end (report_and_acquire r tok reported now later) =
      (eqb_ℤ r.status_code (pos 429) ≡ false) × (now <ℤ end)
  IsEarly end (give_up id) = Unit
  IsEarly end (answer c) = Unit
  IsEarly end (collect id) = Unit
  IsEarly end (round r h) = r.checked_at <ℤ end
  IsEarly end store = Unit
  IsEarly end (reaping now) = Unit
  IsEarly end shutdown = Unit

  Step-Serves :
      {o : Floats F} {e t : Engine F} {end : ℤ} (st : Step o e t)
      → IsEarly end st
      → e.state.lockdown_active ≡ true
      → e.state.lockdown_until ≡ end
      → Serves e t
  unfolding take_answer remove_from_queue consume_queue_token store_queue_token shut_down
  Step-Serves {o} {e} {end} (acquire req tok now later) h a u =
      try_acquire-Serves o req tok now later e
        (record { active = a; early = subst (λ k. now <ℤ k) (sym u) h })
  Step-Serves {o} {e} (report r now) h a u = handle_report-Serves r now e h
  Step-Serves {o} {e} {end} (report_and_acquire r tok reported now later) h a u =
      try_report_and_acquire-Serves o r tok reported now later e h.0
        (record { active = a; early = subst (λ k. now <ℤ k) (sym u) h.1 })
  Step-Serves (give_up id) h a u = record { active = refl; until = refl; tickets = Sublist.refl _ }
  Step-Serves (answer c) h a u = record { active = refl; until = refl; tickets = Sublist.refl _ }
  Step-Serves (collect id) h a u = record { active = refl; until = refl; tickets = Sublist.refl _ }
  Step-Serves {o} {e} {end} (round r p) h a u =
      rw
        (dispatch_round_locked o r e
          (record { active = a; early = subst (λ k. r.checked_at <ℤ k) (sym u) h }))
        (Serves-refl e)
  Step-Serves {o} {e} store h a u = store_entry-Serves e.pending_store e
  Step-Serves {o} {e} (reaping now) h a u = ticket_reaper-Serves now e
  Step-Serves shutdown h a u = record { active = refl; until = refl; tickets = Sublist.refl _ }

  pub data PenaltyRun (o : Floats F) (end : ℤ) (e : Engine F) : Engine F → Type 0 where
    locked : PenaltyRun o end e e
    still_locked :
        {t u : Engine F}
        → PenaltyRun o end e t
        → (st : Step o t u) → IsEarly end st
        → PenaltyRun o end e u

  PenaltyRun-Serves :
      {o : Floats F} {end : ℤ} {e t : Engine F}
      → e.state.lockdown_active ≡ true
      → e.state.lockdown_until ≡ end
      → PenaltyRun o end e t
      → Serves e t
  PenaltyRun-Serves a u locked = Serves-refl _
  PenaltyRun-Serves a u (still_locked p st h) =
      let s = PenaltyRun-Serves a u p in
      Serves-trans s (Step-Serves st h (s.active ∙ a) (s.until ∙ u))

  -- The engine of an accepted 429, before the signal to the dispatch loop.
  penalised-Serves :
      (r : Report) (now : ℤ) (e : Engine F) {ticket : ActiveTicket}
      → Dict.lookup r.appliance_id e.active_tickets ≡ some ticket
      → str_eq ticket.token r.token ≡ true
      → eqb_ℤ r.status_code (pos 429) ≡ true
      → Serves (penalised r now ticket e).engine (handle_report r now e).engine
  unfolding handle_report process_report
  penalised-Serves r now e {ticket} found same penalty =
      rw (found, same, penalty) (notify-Serves (penalised r now ticket e).engine)

  penalised_until :
      (r : Report) (now : ℤ) (n : ℕ) (e : Engine F) (ticket : ActiveTicket)
      → r.retry_after ≡ pos n
      → 0 < n
      → n ≤ max_window
      → (penalised r now ticket e).engine.state.lockdown_until ≡ now +ℤ pos (10 ^ 9 * n)
  unfolding serve_penalty note_penalty
  penalised_until r now n e ticket retry positive small =
      rw (retry, first_wins n positive, seconds_small n small) refl

  penalised_active :
      (r : Report) (now : ℤ) (e : Engine F) (ticket : ActiveTicket)
      → (penalised r now ticket e).engine.state.lockdown_active ≡ true
  unfolding serve_penalty note_penalty
  penalised_active r now e ticket = refl

  -- After a report of a 429 that matches the ticket of its appliance, with a Retry-After of n
  -- seconds, from 1 to 9223372036: whatever steps follow, in whatever order, that are no further
  -- report of a 429 and whose CanDispatch reads the clock before n seconds after the report, no
  -- ticket is granted: the tickets on record are among those of before the report without the one
  -- reported, and the penalty is still served, until the same time.
  pub penalty_grants_nothing :
      (o : Floats F) (r : Report) (now : ℤ) (n : ℕ) (e : Engine F) {t : Engine F}
      {ticket : ActiveTicket}
      → Dict.lookup r.appliance_id e.active_tickets ≡ some ticket
      → str_eq ticket.token r.token ≡ true
      → eqb_ℤ r.status_code (pos 429) ≡ true
      → r.retry_after ≡ pos n
      → 0 < n
      → n ≤ max_window
      → PenaltyRun o (now +ℤ pos (10 ^ 9 * n)) (handle_report r now e).engine t
      → Sublist t.active_tickets (Dict.erase r.appliance_id e.active_tickets)
        × (t.state.lockdown_active ≡ true)
        × (t.state.lockdown_until ≡ now +ℤ pos (10 ^ 9 * n))
  penalty_grants_nothing o r now n e {t} {ticket} found same penalty retry positive small run =
      let first = penalised-Serves r now e found same penalty in
      let active = penalised_active r now e ticket in
      let until = penalised_until r now n e ticket retry positive small in
      let s =
        Serves-trans first (PenaltyRun-Serves (first.active ∙ active) (first.until ∙ until) run) in
      (s.tickets, s.active ∙ active, s.until ∙ until)
