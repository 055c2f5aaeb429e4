-- ===== src/Safety/Wiring/Steps.antt =====
-- The channels of the waiters under TryAcquire, HandleReport and TryReportAndAcquire.

use ns_cas.Base.{String, str_eq, List, Option, none, some, ltb, if_cases}
use ns_cas.Base.Int.{ℤ, pos, eqb_ℤ}
use ns_cas.State.{State}
use ns_cas.Queue.{Floats}
use ns_cas.Messages.{Report, AcquireRequest, ActiveTicket}
use ns_cas.Engine.{
  Engine, Reply, Outcome, ReportResult, notify, add_waiter, check_dispatch, issue_ticket,
  acquire_slot, add_demand, try_acquire,
}
use ns_cas.Reports.{
  process_ticket, process_report, handle_report, try_report_and_acquire, next_class,
}
use ns_cas.Safety.Wiring.{Wired, Wired-Perm, Wired-new, lines, IsWired, lines-enqueue}

module _ {F : Type 0} where
  pub add_waiter-IsWired :
      (o : Floats F) (id class : String) (backlog now : ℤ) (e : Engine F)
      → IsWired e
      → IsWired (add_waiter o id class backlog now e)
  unfolding add_waiter IsWired
  add_waiter-IsWired o id class backlog now e w = Wired-Perm (lines-enqueue _ e.queue) (Wired-new w)

  pub check_dispatch-IsWired :
      (now : ℤ) (e : Engine F) → IsWired e → IsWired (check_dispatch now e).0
  unfolding check_dispatch IsWired
  check_dispatch-IsWired now e w = w

  pub issue_ticket-IsWired :
      (id tok : String) (now : ℤ) (e : Engine F) → IsWired e → IsWired (issue_ticket id tok now e)
  unfolding issue_ticket IsWired
  issue_ticket-IsWired id tok now e w = w

  pub add_demand-IsWired :
      (class : String) (backlog : ℤ) (e : Engine F)
      → IsWired e
      → IsWired (add_demand class backlog e)
  unfolding add_demand IsWired
  add_demand-IsWired class backlog e w = w

  pub acquire_slot-IsWired :
      (o : Floats F) (id class : String) (backlog : ℤ) (tok : String) (now later : ℤ) (e : Engine F)
      → IsWired e
      → IsWired (acquire_slot o id class backlog tok now later e).0
  unfolding acquire_slot
  acquire_slot-IsWired o id class backlog tok now later e w =
      let t = check_dispatch-IsWired now e w in
      if_cases (λ (r : Engine F × Reply). IsWired r.0) (check_dispatch now e).1
        (λ _. issue_ticket-IsWired id tok later _ t)
        (λ _.
          if_cases (λ (r : Engine F × Reply). IsWired r.0) _ (λ _. t)
            (λ _. add_waiter-IsWired o id class backlog later _ t))

  pub try_acquire-IsWired :
      (o : Floats F) (req : AcquireRequest) (tok : String) (now later : ℤ) (e : Engine F)
      → IsWired e
      → IsWired (try_acquire o req tok now later e).engine
  unfolding try_acquire
  try_acquire-IsWired o req tok now later e w =
      if_cases (λ (r : Outcome F Reply). IsWired r.engine) _ (λ _. w)
        (λ _.
          acquire_slot-IsWired o req.appliance_id req.priority_class req.backlog tok now later _
            (add_demand-IsWired req.priority_class req.backlog e w))

  -- Reports change the quota state and the tickets alone.
  pub tickets-IsWired :
      (s : State) (m : List (String × ActiveTicket)) (e : Engine F)
      → IsWired e
      → IsWired (record e { state = s; active_tickets = m })
  unfolding IsWired
  tickets-IsWired s m e w = w

  pub process_ticket-IsWired :
      (r : Report) (now : ℤ) (found : Option ActiveTicket) (e : Engine F)
      → IsWired e
      → IsWired (process_ticket r now found e).engine
  process_ticket-IsWired r now none e w = w
  process_ticket-IsWired r now (some t) e w =
      let Goal = λ (out : Outcome F ReportResult). IsWired out.engine in
      if_cases Goal (str_eq t.token r.token)
        (λ _.
          if_cases Goal (eqb_ℤ r.status_code (pos 429)) (λ _. tickets-IsWired _ _ e w)
            (λ _. tickets-IsWired _ _ e w))
        (λ _. w)

  pub process_report-IsWired :
      (r : Report) (now : ℤ) (e : Engine F) → IsWired e → IsWired (process_report r now e).engine
  unfolding process_report
  process_report-IsWired r now e w = process_ticket-IsWired r now _ e w

  pub notify-IsWired : (e : Engine F) → IsWired e → IsWired (notify e)
  unfolding notify IsWired
  notify-IsWired e w =
      if_cases (λ (t : Engine F). Wired t.next_chan t.chans (lines t.queue))
        (ltb e.notify_pending 64) (λ _. w) (λ _. w)

  pub handle_report-IsWired :
      (r : Report) (now : ℤ) (e : Engine F) → IsWired e → IsWired (handle_report r now e).engine
  unfolding handle_report
  handle_report-IsWired r now e w =
      let p = process_report-IsWired r now e w in
      if_cases (λ (out : Outcome F (Unit {0})). IsWired out.engine) _ (λ _. notify-IsWired _ p)
        (λ _. p)

  pub try_report_and_acquire-IsWired :
      (o : Floats F) (r : Report) (tok : String) (reported now later : ℤ) (e : Engine F)
      → IsWired e
      → IsWired (try_report_and_acquire o r tok reported now later e).engine
  unfolding try_report_and_acquire
  try_report_and_acquire-IsWired o r tok reported now later e w =
      let p = process_report-IsWired r reported e w in
      let Goal = λ (out : Outcome F Reply). IsWired out.engine in
      if_cases Goal (process_report r reported e).value.ok
        (λ _.
          if_cases Goal (process_report r reported e).value.is_lockdown (λ _. notify-IsWired _ p)
            (λ _. notify-IsWired _ (
              acquire_slot-IsWired o r.appliance_id (next_class r) r.backlog tok now later _
                (add_demand-IsWired (next_class r) r.backlog _ p))))
        (λ _. p)
