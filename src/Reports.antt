-- ===== src/Reports.antt =====
-- Reports, in internal/handlers/engine.go: what a client's report does to the engine, alone
-- (HandleReport) and with the acquire that may follow it (TryReportAndAcquire).
use ns_cas.Base.{
  Bool, true, false, ◌&&◌, String, str_eq, List, [], ◌∷◌, ◌++◌, Option, none, some, if◌then◌else◌,
}
use ns_cas.Base.Int.{ℤ, pos, ◌-ℤ◌, ltb_ℤ, eqb_ℤ, wrap64}
use ns_cas.Dict
use ns_cas.State.{State, Headers, note_headers, policy_window, consume_window_opened}
use ns_cas.State.Penalties.{note_penalty}
use ns_cas.Queue.{Floats}
use ns_cas.Messages.{
  Report, ActiveTicket, LogEntry, Effect, write_log, write_window, write_anomaly, broadcast, Detail,
  known_token, budget, record_effect, build_entry,
}
use ns_cas.Engine.{Engine, Reply, refused, ReportResult, Outcome, notify, add_demand, acquire_slot}

-- headersFrom.
unfoldable pub headers_from : Report → Headers
headers_from r = record {
  limit = r.ns_rate_limit;
  policy = r.ns_policy;
  remaining = r.ns_remaining;
  reset_sec = r.ns_reset;
}

abbrev pub window_effects : Bool → Bool → Report → State → List Effect
window_effects opened has_db r s =
    if opened
    then record_effect has_db (
        write_window (record {
          window_start = s.window_start_time;
          window_end = s.window_end_time;
          detected_via = "ns_headers";
          trigger_token = r.token;
        }))
    else []

abbrev pub exhausted_effects : ℤ → Bool → Report → State → List Effect
exhausted_effects cas_remaining has_db r s =
    if eqb_ℤ r.ns_remaining (pos 0) && ltb_ℤ (pos 0) cas_remaining
    then record_effect has_db (
        write_anomaly "ns_exhausted" r.appliance_id r.token (
          budget cas_remaining (policy_window s) s.sustained_used s.sustained_limit
            s.sustained_window_sec))
    else []

unfoldable pub observe_quota : Bool → Report → State → State × List Effect
observe_quota has_db r s =
    let noted = (note_headers (headers_from r) r.api_recv_at s).0 in
    let (t, opened) = consume_window_opened noted in
    (t, window_effects opened has_db r t ++ exhausted_effects s.local_remaining has_db r t)

-- The quota state once the report's ticket is gone: one fewer in flight, the limit adopted, and
-- the first report's remaining figure taken as it is.
unfoldable pub calibrate : Report → State → State
calibrate r s =
    if s.calibrated then s else record s { local_remaining = r.ns_remaining; calibrated = true }

unfoldable pub free_slot : State → State
free_slot s = record s { in_flight = s.in_flight -ℤ pos 1 }

unfoldable pub settle : Report → State → State
settle r s =
    let t = free_slot s in
    calibrate r
      (if ltb_ℤ (pos 0) r.ns_rate_limit then record t { bucket_limit = r.ns_rate_limit } else t)

unfoldable pub implied_legacy : Report → ActiveTicket → ℤ
implied_legacy r ticket =
    let v = wrap64 (ticket.expected_remaining -ℤ pos 1 -ℤ r.ns_remaining) in
    if ltb_ℤ (pos 0) v then v else pos 0

unfoldable pub serve_penalty : Report → ℤ → State → State
serve_penalty r now s =
    (note_penalty r.retry_after now (note_headers (headers_from r) r.api_recv_at s).0).0

abbrev pub known : Option ActiveTicket → Detail
known none = known_token "none"
known (some t) = known_token t.token

abbrev pub matches : Report → Option ActiveTicket → Bool
matches r none = false
matches r (some t) = str_eq t.token r.token

abbrev pub log_effects : Bool → Option LogEntry → List Effect
log_effects has_db none = []
log_effects has_db (some entry) = record_effect has_db (write_log entry)

abbrev pub next_class : Report → String
next_class r = if str_eq r.next_priority_class "" then "P2_MEDIUM" else r.next_priority_class

module _ {F : Type 0} where
  abbrev pub unmatched : Report → Option ActiveTicket → Engine F → Outcome F ReportResult
  unmatched r found e = record {
    engine = e;
    value = record { ok = false; is_lockdown = false; log_entry = none };
    effects =
        record_effect e.has_db
          (write_anomaly "unmatched_token" r.appliance_id r.token (known found));
  }

  abbrev pub penalised : Report → ℤ → ActiveTicket → Engine F → Outcome F ReportResult
  penalised r now ticket e = record {
    engine = record e {
      state = serve_penalty r now (settle r e.state);
      active_tickets = Dict.erase r.appliance_id e.active_tickets;
    };
    value = record {
      ok = true;
      is_lockdown = true;
      log_entry = some (build_entry r ticket (pos 0));
    };
    effects = [];
  }

  abbrev pub observed : Report → ActiveTicket → Engine F → Outcome F ReportResult
  observed r ticket e =
      let (s, effects) = observe_quota e.has_db r (settle r e.state) in
      record {
        engine = record e {
          state = s;
          active_tickets = Dict.erase r.appliance_id e.active_tickets;
        };
        value = record {
          ok = true;
          is_lockdown = false;
          log_entry = some (build_entry r ticket (implied_legacy r ticket));
        };
        effects = effects;
      }

  abbrev pub process_ticket : Report → ℤ → Option ActiveTicket → Engine F → Outcome F ReportResult
  process_ticket r now none e = unmatched r none e
  process_ticket r now (some ticket) e =
      if str_eq ticket.token r.token
      then if eqb_ℤ r.status_code (pos 429) then penalised r now ticket e else observed r ticket e
      else unmatched r (some ticket) e

  unfoldable pub process_report : Report → ℤ → Engine F → Outcome F ReportResult
  process_report r now e = process_ticket r now (Dict.lookup r.appliance_id e.active_tickets) e

  -- What HandleReport and TryReportAndAcquire do once the lock is released.
  abbrev pub finish : {A : Type 0} → Outcome F ReportResult → Engine F → A → Outcome F A
  finish res e value = record {
    engine = notify e;
    value = value;
    effects = res.effects ++ log_effects e.has_db res.value.log_entry ++ broadcast ∷ [];
  }

  unfoldable pub handle_report : Report → ℤ → Engine F → Outcome F (Unit {0})
  handle_report r now e =
      let res = process_report r now e in
      if res.value.ok
      then finish res res.engine tt
      else record { engine = res.engine; value = tt; effects = res.effects }

  unfoldable pub try_report_and_acquire :
      Floats F → Report → String → ℤ → ℤ → ℤ → Engine F → Outcome F Reply
  try_report_and_acquire o r tok reported now later e =
      let res = process_report r reported e in
      let (t, reply) =
        acquire_slot o r.appliance_id (next_class r) r.backlog tok now later
          (add_demand (next_class r) r.backlog res.engine) in
      if res.value.ok
      then if res.value.is_lockdown then finish res res.engine (refused 429) else finish res t reply
      else record { engine = res.engine; value = refused 409; effects = res.effects }
