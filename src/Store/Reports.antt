-- ===== src/Store/Reports.antt =====
-- From a report (internal/handlers/engine.go) to the newest row of the log (internal/db/db.go).
use ns_cas.Base.{◌≡◌, true, str_eq, List, [], ◌∷◌, some, if◌then◌else◌, Bool-cases, inl, inr}
use ns_cas.Base.Int.{ℤ, pos, eqb_ℤ}
use ns_cas.Dict
use ns_cas.Messages.{Report, ActiveTicket, record_effect, build_entry}
use ns_cas.Engine.{Engine}
use ns_cas.Reports.{process_report, handle_report, implied_legacy, observe_quota, settle}
use ns_cas.Store.{Store, LogRow, log_row, query_recent_logs}
use ns_cas.Store.Recent.{Inserted, values_of}
use ns_cas.Store.Writes.{put_all, accepted, latest_log}

-- The external consumption that a report implies; none is taken from a penalty.
abbrev pub legacy_of : Report → ActiveTicket → ℤ
legacy_of r ticket = if eqb_ℤ r.status_code (pos 429) then pos 0 else implied_legacy r ticket

module _ {F : Type 0} where
  -- On an engine with a database, a report whose token is that of the ticket of its appliance is,
  -- once its writes have succeeded, the row that QueryRecentLogs gives first: the entry built
  -- from the report and the ticket, with the implied external consumption, which is 0 for a 429.
  pub report_shown :
      (r : Report) (now at : ℤ) (e : Engine F) (s : Store) {ticket : ActiveTicket}
      {rows : List LogRow}
      → e.has_db ≡ true
      → Dict.lookup r.appliance_id e.active_tickets ≡ some ticket
      → str_eq ticket.token r.token ≡ true
      → Inserted rows s.api_logs
      → values_of
          (query_recent_logs (pos 1) (put_all (accepted at (handle_report r now e).effects) s))
        ≡ log_row (build_entry r ticket (legacy_of r ticket)) ∷ []
  unfolding handle_report process_report record_effect
  report_shown r now at e s {ticket} {rows} d l k h =
      elim (Bool-cases (eqb_ℤ r.status_code (pos 429))) [
        | inl hit ↦ rw (l, k, hit, d) (latest_log at [] (build_entry r ticket (pos 0)) rows s h)
        | inr miss ↦
            rw (l, k, miss, d)
              (latest_log at (observe_quota true r (settle r e.state)).1
                (build_entry r ticket (implied_legacy r ticket)) rows s h)
      ]
