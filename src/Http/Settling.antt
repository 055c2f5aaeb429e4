-- ===== src/Http/Settling.antt =====
-- What a report (internal/handlers/engine.go) leaves for the acquire of the same request, and the
-- signal that follows it.
use ns_cas.Base.{
  ◌≡◌, refl, ap, sym, ◌∙◌, Bool, true, false, String, str_eq, Option, none, some, if_cases,
  Bool-cases, inl, inr, ltb,
}
use ns_cas.Base.Int.{ℤ, pos, eqb_ℤ}
use ns_cas.Dict
use ns_cas.Queue.Waiting.{ids}
use ns_cas.Messages.{Report, ActiveTicket}
use ns_cas.Engine.{Engine, Reply, Outcome, ReportResult, notify}
use ns_cas.Reports.{process_ticket, process_report, matches}
use ns_cas.Http.Answers.{SlotCases, Frame}

module _ {F : Type 0} where
  -- The engine without the ticket of an appliance.
  abbrev pub without_ticket : String → Engine F → Engine F
  without_ticket id e = record e { active_tickets = Dict.erase id e.active_tickets }

  -- Whether the report has the token of the ticket that its appliance holds.
  abbrev pub is_known : Report → Engine F → Bool
  is_known r e = matches r (Dict.lookup r.appliance_id e.active_tickets)

  -- What a report leaves: nothing new, or an engine without the ticket.
  pub record Settled (r : Report) (e : Engine F) (known : Bool) (out : Outcome F ReportResult)
      : Type 0 where
    pub same_ok : out.value.ok ≡ known
    pub locks : known ≡ true → out.value.is_lockdown ≡ eqb_ℤ r.status_code (pos 429)
    pub frame : known ≡ true → Frame out.engine (without_ticket r.appliance_id e)
    pub kept : known ≡ false → out.engine ≡ e

  process_ticket-Settled :
      (r : Report) (now : ℤ) (found : Option ActiveTicket) (e : Engine F)
      → Settled r e (matches r found) (process_ticket r now found e)
  process_ticket-Settled r now none e = record {
    same_ok = refl;
    locks = λ h. cc;
    frame = λ h. cc;
    kept = λ h. refl;
  }
  process_ticket-Settled r now (some t) e = elim (Bool-cases (str_eq t.token r.token)) [
    | inl hit ↦ elim (Bool-cases (eqb_ℤ r.status_code (pos 429))) [
      | inl lock ↦
          rw (hit, lock)
            (record {
              same_ok = refl;
              locks = λ h. sym lock;
              frame = λ h. (refl, refl, refl, refl);
              kept = λ h. cc;
            })
      | inr other ↦
          rw (hit, other)
            (record {
              same_ok = refl;
              locks = λ h. sym other;
              frame = λ h. (refl, refl, refl, refl);
              kept = λ h. cc;
            })
    ]
    | inr miss ↦
        rw miss (record { same_ok = refl; locks = λ h. cc; frame = λ h. cc; kept = λ h. refl })
  ]

  pub process_report-Settled :
      (r : Report) (now : ℤ) (e : Engine F) → Settled r e (is_known r e) (process_report r now e)
  unfolding process_report
  process_report-Settled r now e =
      process_ticket-Settled r now (Dict.lookup r.appliance_id e.active_tickets) e

  -- A signal to the dispatch loop changes neither queue nor tickets.
  pub SlotCases-same :
      (id tok : String) (b t u : Engine F) (reply : Reply)
      → u.queue ≡ t.queue
      → u.active_tickets ≡ t.active_tickets
      → SlotCases id tok b (t, reply)
      → SlotCases id tok b (u, reply)
  SlotCases-same id tok b t u reply q m (inl (e, g)) = inl (
    e,
    record {
      ticket = g.ticket;
      on_record = ap (Dict.lookup id) m ∙ g.on_record;
      same_token = g.same_token;
      same_queue = q ∙ g.same_queue;
    },
  )
  SlotCases-same id tok b t u reply q m (inr (inl (e, g))) = inr (
      inl (
        e,
        record {
          no_room = g.no_room;
          same_queue = q ∙ g.same_queue;
          same_tickets = m ∙ g.same_tickets;
        },
      ))
  SlotCases-same id tok b t u reply q m (inr (inr (e, g))) = inr (
      inr
        (e, record { room = g.room; last = ap ids q ∙ g.last; same_tickets = m ∙ g.same_tickets }))

  pub notify-same :
      (t : Engine F) → ((notify t).queue ≡ t.queue) × ((notify t).active_tickets ≡ t.active_tickets)
  unfolding notify
  notify-same t =
      if_cases (λ (u : Engine F). (u.queue ≡ t.queue) × (u.active_tickets ≡ t.active_tickets))
        (ltb t.notify_pending 64) (λ _. (refl, refl)) (λ _. (refl, refl))
