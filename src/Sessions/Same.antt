-- ===== src/Sessions/Same.antt =====
-- The steps of the engine (internal/handlers/engine.go) that leave the queue and the channels of
-- the waiters alone.
use ns_cas.Base.{◌≡◌, refl, ◌∙◌, String, str_eq, Option, none, some, ltb, if_cases}
use ns_cas.Base.Int.{ℤ, pos, eqb_ℤ}
use ns_cas.Messages.{Report, ActiveTicket}
use ns_cas.Engine.{Engine, Outcome, ReportResult, notify, check_dispatch, issue_ticket, add_demand}
use ns_cas.Reports.{process_ticket, process_report, handle_report}
use ns_cas.Dispatcher.{
  store_entry, store_queue_token, consume_queue_token, ticket_reaper, drop_ticket,
}

module _ {F : Type 0} where
  pub record Same (e t : Engine F) : Type 0 where
    pub queue : t.queue ≡ e.queue
    pub chans : t.chans ≡ e.chans
    pub next_chan : t.next_chan ≡ e.next_chan

  pub Same-refl : (e : Engine F) → Same e e
  Same-refl e = record { queue = refl; chans = refl; next_chan = refl }

  pub Same-trans : {e t u : Engine F} → Same e t → Same t u → Same e u
  Same-trans p q = record {
    queue = q.queue ∙ p.queue;
    chans = q.chans ∙ p.chans;
    next_chan = q.next_chan ∙ p.next_chan;
  }

  pub check_dispatch-Same : (now : ℤ) (e : Engine F) → Same e (check_dispatch now e).0
  unfolding check_dispatch
  check_dispatch-Same now e = record { queue = refl; chans = refl; next_chan = refl }

  pub issue_ticket-Same :
      (id tok : String) (now : ℤ) (e : Engine F) → Same e (issue_ticket id tok now e)
  unfolding issue_ticket
  issue_ticket-Same id tok now e = record { queue = refl; chans = refl; next_chan = refl }

  pub add_demand-Same :
      (class : String) (backlog : ℤ) (e : Engine F) → Same e (add_demand class backlog e)
  unfolding add_demand
  add_demand-Same class backlog e = record { queue = refl; chans = refl; next_chan = refl }

  pub drop_ticket-Same : (id : String) (e : Engine F) → Same e (drop_ticket id e)
  unfolding drop_ticket
  drop_ticket-Same id e = record { queue = refl; chans = refl; next_chan = refl }

  process_ticket-Same :
      (r : Report) (now : ℤ) (found : Option ActiveTicket) (e : Engine F)
      → Same e (process_ticket r now found e).engine
  process_ticket-Same r now none e = Same-refl e
  process_ticket-Same r now (some t) e =
      let Goal = λ (out : Outcome F ReportResult). Same e out.engine in
      if_cases Goal (str_eq t.token r.token)
        (λ _.
          if_cases Goal (eqb_ℤ r.status_code (pos 429))
            (λ _. record { queue = refl; chans = refl; next_chan = refl })
            (λ _. record { queue = refl; chans = refl; next_chan = refl }))
        (λ _. Same-refl e)

  pub process_report-Same :
      (r : Report) (now : ℤ) (e : Engine F) → Same e (process_report r now e).engine
  unfolding process_report
  process_report-Same r now e = process_ticket-Same r now _ e

  pub notify-Same : (e : Engine F) → Same e (notify e)
  unfolding notify
  notify-Same e =
      if_cases (Same e) (ltb e.notify_pending 64)
        (λ _. record { queue = refl; chans = refl; next_chan = refl }) (λ _. Same-refl e)

  pub handle_report-Same :
      (r : Report) (now : ℤ) (e : Engine F) → Same e (handle_report r now e).engine
  unfolding handle_report
  handle_report-Same r now e =
      let p = process_report-Same r now e in
      if_cases (λ (out : Outcome F (Unit {0})). Same e out.engine) _
        (λ _. Same-trans p (notify-Same _)) (λ _. p)

  store_entry-Same :
      (entry : Option (String × String)) (e : Engine F) → Same e (store_entry entry e)
  store_entry-Same none e = Same-refl e
  store_entry-Same (some p) e = record { queue = refl; chans = refl; next_chan = refl }

  pub store_queue_token-Same : (e : Engine F) → Same e (store_queue_token e)
  unfolding store_queue_token
  store_queue_token-Same e = store_entry-Same e.pending_store e

  pub consume_queue_token-Same : (id : String) (e : Engine F) → Same e (consume_queue_token id e).0
  unfolding consume_queue_token
  consume_queue_token-Same id e = record { queue = refl; chans = refl; next_chan = refl }

  pub ticket_reaper-Same : (now : ℤ) (e : Engine F) → Same e (ticket_reaper now e).engine
  unfolding ticket_reaper
  ticket_reaper-Same now e =
      Same-trans (record { queue = refl; chans = refl; next_chan = refl }) (notify-Same _)
