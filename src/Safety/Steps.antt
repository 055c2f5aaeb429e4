-- ===== src/Safety/Steps.antt =====
-- The soundness of the engine under TryAcquire, HandleReport and TryReportAndAcquire.
use mathlib.Core.List.{Mem, mem-append}
use mathlib.Core.HLevel.{⊥_prop}
use mathlib.Core.Logic.Or
use ns_cas.Base.{
  ◌≡◌, refl, ◌∙◌, Bool, true, false, String, str_eq, List, Option, none, some, arith, inl, inr,
  if_cases, Option-cases, ◌||◌,
}
use ns_cas.Base.Int.{ℤ, pos, ◌-ℤ◌, eqb_ℤ}
use ns_cas.Dict
use ns_cas.State.{State, consume_window_opened}
use ns_cas.State.Penalties.{note_penalty}
use ns_cas.State.Invariant.{IsValid, note_headers-IsValid, note_penalty-IsValid}
use ns_cas.State.Frame.{note_headers-in_flight, note_headers-calibrated}
use ns_cas.Queue.{Floats, has_appliance}
use ns_cas.Queue.Waiting.{has_appliance-false}
use ns_cas.Messages.{ActiveTicket, Report, AcquireRequest}
use ns_cas.Engine.{
  Engine, Reply, Outcome, notify, add_demand, acquire_slot, try_acquire, holds_ticket,
  check_dispatch, ReportResult,
}
use ns_cas.Reports.{
  headers_from, free_slot, calibrate, settle, serve_penalty, observe_quota, process_ticket,
  process_report, handle_report, try_report_and_acquire, next_class,
}
use ns_cas.Safety.Slots.{
  IsSound, names, issue_ticket-IsSound, add_waiter-IsSound, erase_ticket-IsSound,
  erase_ticket_absent, set_state-IsSound, check_dispatch-IsSound, check_dispatch-MayCharge,
}

settle-IsValid : (r : Report) (s : State) → IsValid s → IsValid (settle r s)
unfolding settle free_slot calibrate
settle-IsValid r s v = ground arith

settle-in_flight : (r : Report) (s : State) → (settle r s).in_flight ≡ s.in_flight -ℤ pos 1
unfolding settle free_slot calibrate
settle-in_flight r s = ground arith

serve_penalty-IsValid :
    (r : Report) (now : ℤ) (s : State) → IsValid s → IsValid (serve_penalty r now s)
unfolding serve_penalty
serve_penalty-IsValid r now s v =
    note_penalty-IsValid r.retry_after now _
      (note_headers-calibrated (headers_from r) r.api_recv_at s)
      (note_headers-IsValid (headers_from r) r.api_recv_at s v)

serve_penalty-in_flight :
    (r : Report) (now : ℤ) (s : State) → (serve_penalty r now s).in_flight ≡ s.in_flight
unfolding serve_penalty note_penalty
serve_penalty-in_flight r now s = note_headers-in_flight (headers_from r) r.api_recv_at s

opened-IsValid : (s : State) → IsValid s → IsValid (record s { window_opened = false })
opened-IsValid s v = ground arith

observe_quota-IsValid :
    (db : Bool) (r : Report) (s : State) → IsValid s → IsValid (observe_quota db r s).0
unfolding observe_quota consume_window_opened
observe_quota-IsValid db r s v =
    opened-IsValid _ (note_headers-IsValid (headers_from r) r.api_recv_at s v)

observe_quota-in_flight :
    (db : Bool) (r : Report) (s : State) → (observe_quota db r s).0.in_flight ≡ s.in_flight
unfolding observe_quota consume_window_opened
observe_quota-in_flight db r s = note_headers-in_flight (headers_from r) r.api_recv_at s

demand-IsValid : (s : State) (d : String → ℤ) → IsValid s → IsValid (record s { demand_sum = d })
demand-IsValid s d v = ground arith

holds_ticket-false :
    (id : String) (m : List (String × ActiveTicket))
    → holds_ticket id m ≡ false
    → Dict.lookup id m ≡ none
holds_ticket-false id m h = elim (Option-cases (Dict.lookup id m)) [
  | inl e ↦ e
  | inr (t, e) ↦ cc (rw (e, holds_ticket) at h)
]

module _ {F : Type 0} where
  -- What processing a report leaves: a sound engine, and the appliance's slot free if it matched.
  pub record Processed (id : String) (out : Outcome F ReportResult) : Type 0 where
    pub sound : IsSound out.engine
    pub freed : out.value.ok ≡ true → ¬ Mem id (names out.engine)

  process_ticket-Processed :
      (r : Report) (now : ℤ) (found : Option ActiveTicket) (e : Engine F)
      → IsSound e
      → Dict.lookup r.appliance_id e.active_tickets ≡ found
      → Processed r.appliance_id (process_ticket r now found e)
  process_ticket-Processed r now none e s h = record { sound = s; freed = λ p. cc }
  process_ticket-Processed r now (some t) e s h =
      if_cases (Processed r.appliance_id) (str_eq t.token r.token)
        (λ _.
          if_cases (Processed r.appliance_id) (eqb_ℤ r.status_code (pos 429))
            (λ _. record {
              sound =
                  erase_ticket-IsSound r.appliance_id e _ s h
                    (serve_penalty-IsValid r now _ (settle-IsValid r e.state s.state_valid))
                    (serve_penalty-in_flight r now (settle r e.state) ∙ settle-in_flight r e.state);
              freed = λ _. erase_ticket_absent r.appliance_id e s h;
            })
            (λ _. record {
              sound =
                  erase_ticket-IsSound r.appliance_id e _ s h
                    (observe_quota-IsValid e.has_db r _ (settle-IsValid r e.state s.state_valid))
                    (observe_quota-in_flight e.has_db r (settle r e.state)
                      ∙ settle-in_flight r e.state);
              freed = λ _. erase_ticket_absent r.appliance_id e s h;
            }))
        (λ _. record { sound = s; freed = λ p. cc })

  pub process_report-Processed :
      (r : Report) (now : ℤ) (e : Engine F)
      → IsSound e
      → Processed r.appliance_id (process_report r now e)
  unfolding process_report
  process_report-Processed r now e s =
      process_ticket-Processed r now (Dict.lookup r.appliance_id e.active_tickets) e s refl

  pub notify-IsSound : (e : Engine F) → IsSound e → IsSound (notify e)
  unfolding notify
  notify-IsSound e s =
      if_cases IsSound _
        (λ _. record { state_valid = s.state_valid; flight = s.flight; distinct = s.distinct })
        (λ _. s)

  add_demand-IsSound :
      (class : String) (backlog : ℤ) (e : Engine F)
      → IsSound e
      → IsSound (add_demand class backlog e)
  unfolding add_demand
  add_demand-IsSound class backlog e s =
      set_state-IsSound e _ s (demand-IsValid e.state _ s.state_valid) refl

  acquire_slot-IsSound :
      (o : Floats F) (id class : String) (backlog : ℤ) (tok : String) (now later : ℤ) (e : Engine F)
      → IsSound e
      → ¬ Mem id (names e)
      → IsSound (acquire_slot o id class backlog tok now later e).0
  unfolding acquire_slot check_dispatch
  acquire_slot-IsSound o id class backlog tok now later e s absent =
      let t = check_dispatch-IsSound now e s in
      if_cases (λ (r : Engine F × Reply). IsSound r.0) (check_dispatch now e).1
        (λ ok. issue_ticket-IsSound id tok later _ t (check_dispatch-MayCharge now e ok) absent)
        (λ _.
          if_cases (λ (r : Engine F × Reply). IsSound r.0) _ (λ _. t)
            (λ _. add_waiter-IsSound o id class backlog later _ t absent))

  pub idle_absent :
      (id : String) (e : Engine F)
      → (holds_ticket id e.active_tickets || has_appliance id e.queue) ≡ false
      → ¬ Mem id (names e)
  idle_absent id e h m =
      Or.elim ⊥_prop (mem-append.0 m) (has_appliance-false id e.queue (ground arith)) (
        Dict.lookup-none id e.active_tickets
          (holds_ticket-false id e.active_tickets (ground arith)))

  -- TryAcquire keeps a sound engine sound, whether it grants, queues or refuses.
  pub try_acquire-IsSound :
      (o : Floats F) (req : AcquireRequest) (tok : String) (now later : ℤ) (e : Engine F)
      → IsSound e
      → IsSound (try_acquire o req tok now later e).engine
  unfolding try_acquire add_demand
  try_acquire-IsSound o req tok now later e s =
      if_cases (λ (r : Outcome F Reply). IsSound r.engine) _ (λ _. s)
        (λ idle.
          acquire_slot-IsSound o req.appliance_id req.priority_class req.backlog tok now later _
            (add_demand-IsSound req.priority_class req.backlog e s)
            (idle_absent req.appliance_id e idle))

  -- HandleReport keeps a sound engine sound, whether the report matches or not.
  pub handle_report-IsSound :
      (r : Report) (now : ℤ) (e : Engine F) → IsSound e → IsSound (handle_report r now e).engine
  unfolding handle_report
  handle_report-IsSound r now e s =
      let p = process_report-Processed r now e s in
      if_cases (λ (out : Outcome F (Unit {0})). IsSound out.engine) _
        (λ _. notify-IsSound _ p.sound) (λ _. p.sound)

  -- TryReportAndAcquire keeps a sound engine sound, on each of its branches.
  pub try_report_and_acquire-IsSound :
      (o : Floats F) (r : Report) (tok : String) (reported now later : ℤ) (e : Engine F)
      → IsSound e
      → IsSound (try_report_and_acquire o r tok reported now later e).engine
  unfolding try_report_and_acquire add_demand
  try_report_and_acquire-IsSound o r tok reported now later e s =
      let p = process_report-Processed r reported e s in
      if_cases (λ (out : Outcome F Reply). IsSound out.engine)
        (process_report r reported e).value.ok
        (λ ok.
          if_cases (λ (out : Outcome F Reply). IsSound out.engine) _ (λ _. notify-IsSound _ p.sound)
            (λ _. notify-IsSound _ (
              acquire_slot-IsSound o r.appliance_id (next_class r) r.backlog tok now later _
                (add_demand-IsSound (next_class r) r.backlog _ p.sound) (p.freed ok))))
        (λ _. p.sound)
