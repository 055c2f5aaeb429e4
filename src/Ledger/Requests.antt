-- ===== src/Ledger/Requests.antt =====
-- TryAcquire, HandleReport and TryReportAndAcquire as moves of the ledger.

use mathlib.Core.List.{Mem, mem-append, perm_middle, append-nil}
use mathlib.Core.List.Perm
use mathlib.Core.Logic.Or
use ns_cas.Base.{
  ◌≡◌, refl, sym, subst, Bool, true, false, String, str_eq, List, [], ◌∷◌, ◌++◌, Option, none, some,
  if_cases, ltb,
}
use ns_cas.Base.Int.{ℤ, pos, eqb_ℤ}
use ns_cas.Dict
use ns_cas.State.{State}
use ns_cas.Queue.{Floats}
use ns_cas.Queue.Waiting.{ids, ids-enqueue}
use ns_cas.Messages.{Report, AcquireRequest, ActiveTicket}
use ns_cas.Engine.{
  Engine, Reply, Outcome, ReportResult, notify, add_waiter, check_dispatch, issue_ticket,
  acquire_slot, add_demand, try_acquire,
}
use ns_cas.Reports.{
  process_ticket, process_report, handle_report, try_report_and_acquire, next_class,
}
use ns_cas.Safety.Slots.{IsSound, names}
use ns_cas.Safety.Steps.{idle_absent, process_report-Processed}
use ns_cas.Ledger.{
  Ledger, Kind, granting, entering, releasing, grant, enter, release, Moves, none_made, reordered,
  one-Move, Moves-trans, Asked, not_served, granted, queued, Reported, unknown, settled, Exchanged,
  not_accepted, exchanged,
}

module _ {F : Type 0} where
  unfoldable pub ledger : Engine F → Ledger
  ledger e = record { waiting = ids e.queue; holding = Dict.keys e.active_tickets }

  -- From one engine to the next by moves of which `May` holds.
  abbrev pub Follows : (List Kind → Type 0) → Engine F → Engine F → Type 0
  Follows May e t = (ks : List Kind) × May ks × Moves (ledger e) ks (ledger t)

  pub issue_ticket-Moves :
      (id tok : String) (now : ℤ) (e : Engine F)
      → ¬ Mem id (names e)
      → Moves (ledger e) (granting id ∷ []) (ledger (issue_ticket id tok now e))
  unfolding ledger issue_ticket Dict.insert
  issue_ticket-Moves id tok now e h =
      rw
        (Dict.erase_absent id e.active_tickets
          (Dict.lookup_absent id e.active_tickets (λ m. h (mem-append.1 (Or.inr m)))))
        (one-Move (grant id h))

  add_waiter-Moves :
      (o : Floats F) (id class : String) (backlog now : ℤ) (e : Engine F)
      → ¬ Mem id (names e)
      → Moves (ledger e) (entering id ∷ []) (ledger (add_waiter o id class backlog now e))
  unfolding ledger add_waiter
  add_waiter-Moves o id class backlog now e h =
      reordered _ (Dict.keys e.active_tickets) (one-Move (enter id h))
        (rw (ids-enqueue _ e.queue)
          (Perm.symm (rw append-nil at (perm_middle {a = id} (ids e.queue) []))))
        (Perm.refl _)

  pub check_dispatch-ledger : (now : ℤ) (e : Engine F) → ledger (check_dispatch now e).0 ≡ ledger e
  unfolding ledger check_dispatch
  check_dispatch-ledger now e = refl

  check_dispatch_absent :
      (id : String) (now : ℤ) (e : Engine F)
      → ¬ Mem id (names e)
      → ¬ Mem id (names (check_dispatch now e).0)
  unfolding check_dispatch
  check_dispatch_absent id now e h = h

  add_demand_absent :
      (id class : String) (backlog : ℤ) (e : Engine F)
      → ¬ Mem id (names e)
      → ¬ Mem id (names (add_demand class backlog e))
  unfolding add_demand
  add_demand_absent id class backlog e h = h

  add_demand-ledger :
      (class : String) (backlog : ℤ) (e : Engine F) → ledger (add_demand class backlog e) ≡ ledger e
  unfolding ledger add_demand
  add_demand-ledger class backlog e = refl

  acquire_slot-Follows :
      (o : Floats F) (id class : String) (backlog : ℤ) (tok : String) (now later : ℤ) (e : Engine F)
      → ¬ Mem id (names e)
      → Follows (Asked id) e (acquire_slot o id class backlog tok now later e).0
  unfolding acquire_slot
  acquire_slot-Follows o id class backlog tok now later e h =
      let t = (check_dispatch now e).0 in
      let Goal = λ (r : Engine F × Reply). Follows (Asked id) t r.0 in
      let out = (acquire_slot o id class backlog tok now later e).0 in
      subst (λ l. (ks : List Kind) × Asked id ks × Moves l ks (ledger out))
        (check_dispatch-ledger now e)
        (if_cases Goal (check_dispatch now e).1
          (λ _. (_, granted, issue_ticket-Moves id tok later t (check_dispatch_absent id now e h)))
          (λ _.
            if_cases Goal _ (λ _. (_, not_served, none_made))
              (λ _. (
                _,
                queued,
                add_waiter-Moves o id class backlog later t (check_dispatch_absent id now e h),
              ))))

  -- Demand is counted first.
  acquire-Follows :
      (o : Floats F) (id class name : String) (backlog more : ℤ) (tok : String) (now later : ℤ)
      (e : Engine F)
      → ¬ Mem id (names e)
      → Follows
          (Asked id)
          e
          (acquire_slot o id class backlog tok now later (add_demand name more e)).0
  acquire-Follows o id class name backlog more tok now later e h =
      let out = (acquire_slot o id class backlog tok now later (add_demand name more e)).0 in
      subst (λ l. (ks : List Kind) × Asked id ks × Moves l ks (ledger out))
        (add_demand-ledger name more e)
        (acquire_slot-Follows o id class backlog tok now later (add_demand name more e)
          (add_demand_absent id name more e h))

  pub try_acquire-Follows :
      (o : Floats F) (req : AcquireRequest) (tok : String) (now later : ℤ) (e : Engine F)
      → Follows (Asked req.appliance_id) e (try_acquire o req tok now later e).engine
  unfolding try_acquire
  try_acquire-Follows o req tok now later e =
      if_cases (λ (out : Outcome F Reply). Follows (Asked req.appliance_id) e out.engine) _
        (λ _. (_, not_served, none_made))
        (λ idle.
          acquire-Follows o req.appliance_id req.priority_class req.priority_class req.backlog
            req.backlog tok now later e (idle_absent req.appliance_id e idle))

  -- A ticket on record is given back.
  pub erase_ticket-Moves :
      (id : String) (e : Engine F) (s : State) {t : ActiveTicket}
      → Dict.lookup id e.active_tickets ≡ some t
      → Moves
          (ledger e)
          (releasing id ∷ [])
          (ledger (record e { state = s; active_tickets = Dict.erase id e.active_tickets }))
  unfolding ledger
  erase_ticket-Moves id e s {t} h =
      one-Move (release id _ (Dict.keys-erase-perm id e.active_tickets {v = t} h))

  process_ticket-Follows :
      (r : Report) (now : ℤ) (found : Option ActiveTicket) (e : Engine F)
      → Dict.lookup r.appliance_id e.active_tickets ≡ found
      → let out = process_ticket r now found e in
        Follows (Reported r.appliance_id out.value.ok) e out.engine
  process_ticket-Follows r now none e h = (_, unknown, none_made)
  process_ticket-Follows r now (some t) e h =
      let Goal = λ (out : Outcome F ReportResult).
        Follows (Reported r.appliance_id out.value.ok) e out.engine in
      if_cases Goal (str_eq t.token r.token)
        (λ _.
          if_cases Goal (eqb_ℤ r.status_code (pos 429))
            (λ _. (_, settled, erase_ticket-Moves r.appliance_id e _ {t = t} h))
            (λ _. (_, settled, erase_ticket-Moves r.appliance_id e _ {t = t} h)))
        (λ _. (_, unknown, none_made))

  process_report-Follows :
      (r : Report) (now : ℤ) (e : Engine F)
      → let out = process_report r now e in
        Follows (Reported r.appliance_id out.value.ok) e out.engine
  unfolding process_report
  process_report-Follows r now e = process_ticket-Follows r now _ e refl

  notify-ledger : (e : Engine F) → ledger (notify e) ≡ ledger e
  unfolding notify ledger
  notify-ledger e =
      if_cases
        (λ (t : Engine F).
          record { waiting = ids t.queue; holding = Dict.keys t.active_tickets } ≡ ledger e)
        (ltb e.notify_pending 64) (λ _. refl) (λ _. refl)

  pub notify-Follows :
      (May : List Kind → Type 0) (e t : Engine F) → Follows May e t → Follows May e (notify t)
  notify-Follows May e t m =
      subst (λ l. (ks : List Kind) × May ks × Moves (ledger e) ks l) (sym (notify-ledger t)) m

  pub handle_report-Follows :
      (r : Report) (now : ℤ) (e : Engine F)
      → Follows
          (Reported r.appliance_id (process_report r now e).value.ok)
          e
          (handle_report r now e).engine
  unfolding handle_report
  handle_report-Follows r now e =
      let p = process_report-Follows r now e in
      let May = Reported r.appliance_id (process_report r now e).value.ok in
      if_cases (λ (out : Outcome F (Unit {0})). Follows May e out.engine) _
        (λ _. notify-Follows May e _ p) (λ _. p)

  -- An accepted report gives its ticket back.
  accepted-Moves :
      (id : String) (ok : Bool) (e t : Engine F)
      → Follows (Reported id ok) e t
      → ok ≡ true
      → Moves (ledger e) (releasing id ∷ []) (ledger t)
  accepted-Moves id false e t f h = cc
  accepted-Moves id true e t (ks, settled, m) h = m

  refused-Moves :
      (id : String) (ok : Bool) (e t : Engine F)
      → Follows (Reported id ok) e t
      → ok ≡ false
      → Moves (ledger e) [] (ledger t)
  refused-Moves id true e t f h = cc
  refused-Moves id false e t (ks, unknown, m) h = m

  and_asked-Follows :
      (id : String) (e t u : Engine F)
      → Moves (ledger e) (releasing id ∷ []) (ledger t)
      → Follows (Asked id) t u
      → Follows (Exchanged id) e u
  and_asked-Follows id e t u p (ks, may, q) =
      (ks ++ releasing id ∷ [], exchanged may, Moves-trans p q)

  pub try_report_and_acquire-Follows :
      (o : Floats F) (r : Report) (tok : String) (reported now later : ℤ) (e : Engine F)
      → IsSound e
      → Follows
          (Exchanged r.appliance_id)
          e
          (try_report_and_acquire o r tok reported now later e).engine
  unfolding try_report_and_acquire
  try_report_and_acquire-Follows o r tok reported now later e s =
      let id = r.appliance_id in
      let res = process_report r reported e in
      let Goal = λ (out : Outcome F Reply). Follows (Exchanged id) e out.engine in
      let p = process_report-Follows r reported e in
      if_cases Goal res.value.ok
        (λ ok.
          let freed = accepted-Moves id res.value.ok e res.engine p ok in
          if_cases Goal res.value.is_lockdown
            (λ _. notify-Follows (Exchanged id) e _ (_, exchanged not_served, freed))
            (λ _. notify-Follows (Exchanged id) e _ (
              and_asked-Follows id e res.engine _ freed (
                acquire-Follows o id (next_class r) (next_class r) r.backlog r.backlog tok now later
                  res.engine ((process_report-Processed r reported e s).freed ok)))))
        (λ no. (_, not_accepted, refused-Moves id res.value.ok e res.engine p no))
