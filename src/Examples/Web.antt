-- ===== src/Examples/Web.antt =====
-- Requests over HTTP, the start of the server, the database and the dashboard on concrete data.
use mathlib.Core.List.{Mem}
use ns_cas.Base.{
  ℕ, ◌≤◌, ◌≡◌, refl, ◌⊎◌, true, false, String, none, some, inr, List, [], ◌∷◌, Option, length,
}
use ns_cas.Base.Int.{ℤ, pos, ◌≤ℤ◌}
use ns_cas.Dict
use ns_cas.State.Invariant.{IsValid}
use ns_cas.Queue.Waiting.{ids}
use ns_cas.Messages.{write_log, LogEntry, build_entry}
use ns_cas.Engine.{Engine, try_acquire}
use ns_cas.Reports.{handle_report}
use ns_cas.Safety.System.{Reach, here, next, acquire, fresh_server}
use ns_cas.Http.{decoded, timed_out, received, acquire_begin, report_and_acquire_begin, poll_end}
use ns_cas.Http.Answers.{IsAnswered, acquire_begin-IsAnswered}
use ns_cas.Http.Exchanges.{IsExchanged, report_and_acquire_begin-IsExchanged}
use ns_cas.Http.Polls.{poll_end_gives_up}
use ns_cas.Startup.{Environment, env_int, settings_from, main_start}
use ns_cas.Startup.Laws.{IsClear, main_start-IsValid}
use ns_cas.Startup
use ns_cas.Store.{Store, OpenErrors, open_store, or_error, open_new, log_row, query_recent_logs}
use ns_cas.Store.Recent.{Inserted, nothing, values_of, first}
use ns_cas.Store.Writes.{Write, put_all, kept, accepted, query_recent_logs-put_all}
use ns_cas.Store.Reports.{legacy_of, report_shown}
use ns_cas.Notifier.Laws.{IsRoomy}
use ns_cas.Notifier.{new_notifier, notify_all, held_by, subscribe}
use ns_cas.Dashboard.{
  Successes, build_live_state, query_int_default, api_logs, api_windows, api_anomalies, LiveState,
}
use ns_cas.Dashboard.Views.{rows_of, api_rows-bounds}
use ns_cas.Dashboard.Stream.{
  opened, live, events_begin, events_wake, gone, none_yet, one_more, joined, stream_keeps_signal,
}
use ns_cas.Examples.Data.{
  settings, ready, whole, no_waiting, serving, request, held, plain_report, at_10,
}
use ns_cas.Examples.Server.{differ}

abbrev pub one_ticket : Engine ℕ
one_ticket = serving (record ready { in_flight = pos 1 }) no_waiting (("a", held) ∷ [])

acquire_begin-IsAnswered_example :
    let out = acquire_begin whole "POST" (decoded (request "b")) "t1" at_10 at_10 one_ticket in
    IsAnswered "POST" "t1" (decoded (request "b")) one_ticket out.engine out.value
acquire_begin-IsAnswered_example =
    acquire_begin-IsAnswered whole "POST" "t1" (decoded (request "b")) at_10 at_10 one_ticket
      (differ "t1" "" refl)

report_and_acquire_begin-IsExchanged_example :
    let out =
      report_and_acquire_begin whole "POST"
        (decoded plain_report)
        "t1"
        at_10
        at_10
        at_10
        one_ticket in
    IsExchanged "POST" "t1" (decoded plain_report) one_ticket out.engine out.value
report_and_acquire_begin-IsExchanged_example =
    report_and_acquire_begin-IsExchanged whole "POST" "t1" (decoded plain_report) at_10 at_10 at_10
      one_ticket (differ "t1" "" refl)

abbrev started : Engine ℕ
started = fresh_server settings 2 (pos 100) true

abbrev served : Engine ℕ
served = (try_acquire whole (request "a") "t1" (pos 5) (pos 6) started).engine

served_reached : Reach whole started served
served_reached = next here (acquire (request "a") "t1" (pos 5) (pos 6))

poll_end_gives_up_example :
    let t = (poll_end "a" timed_out served).0 in
    (timed_out ≡ received true)
    ⊎ (¬ Mem "a" (ids t.queue))
      × (t.active_tickets ≡ served.active_tickets)
      × (t.state ≡ served.state)
poll_end_gives_up_example =
    poll_end_gives_up whole settings 2 (pos 100) true "a" timed_out served_reached

-- An environment in which every variable is 64.
abbrev pub all_64 : Environment
all_64 key = "64"

abbrev no_float : String → Option ℕ
no_float s = none

abbrev no_failure : OpenErrors
no_failure = record {
  opening = none;
  migration = none;
  insert_log = none;
  insert_window = none;
  insert_anomaly = none;
}

abbrev launched : Engine ℕ
launched = Startup.start (settings_from no_float 1 all_64)

it_starts :
    main_start (settings_from no_float 1 all_64) no_failure open_new ≡ inr (launched, open_new)
unfolding main_start open_store or_error
it_starts = refl

main_start-IsValid_example :
    IsClear no_failure
    × (open_new ≡ open_new)
    × IsValid launched.state
    × (launched.active_tickets ≡ [])
    × (ids launched.queue ≡ [])
main_start-IsValid_example = main_start-IsValid no_float 1 all_64 no_failure open_new it_starts

abbrev pub entry : String → ℤ → LogEntry
entry id status = record {
  token = "t1";
  appliance_id = id;
  priority_class = "P2_MEDIUM";
  queued_at = pos 1;
  acquired_at = pos 2;
  api_sent_at = pos 3;
  api_recv_at = pos 4;
  ns_remaining = pos 39;
  ns_reset = pos 20;
  status_code = status;
  estimated_latency_ms = pos 0;
  expected_remaining = pos 40;
  implied_legacy_usage = pos 0;
}

abbrev three_writes : List Write
three_writes =
    record { ok = true; now = pos 5; effect = write_log (entry "b" (pos 200)) }
    ∷ record { ok = false; now = pos 6; effect = write_log (entry "a" (pos 500)) }
    ∷ record { ok = true; now = pos 7; effect = write_log (entry "a" (pos 429)) }
    ∷ []

query_recent_logs-put_all_example :
    values_of (query_recent_logs (pos 2) (put_all three_writes open_new))
    ≡ first 2 (kept three_writes [])
query_recent_logs-put_all_example = query_recent_logs-put_all 2 three_writes

abbrev two_rows : Store
two_rows = put_all three_writes open_new

no_rows : Inserted [] open_new.api_logs
unfolding open_new
no_rows = nothing

pub ticket_of_a : Dict.lookup "a" one_ticket.active_tickets ≡ some held
unfolding Dict.lookup
ticket_of_a = refl

report_shown_example :
    values_of (
      query_recent_logs
        (pos 1)
        (put_all (accepted (pos 9) (handle_report plain_report at_10 one_ticket).effects) open_new))
    ≡ log_row (build_entry plain_report held (legacy_of plain_report held)) ∷ []
report_shown_example =
    report_shown plain_report at_10 (pos 9) one_ticket open_new refl ticket_of_a refl no_rows

abbrev pub count_of : List ℤ → ℕ
count_of xs = length xs

abbrev no_error : Option String
no_error = none

api_rows-bounds_example :
    (pos (length (rows_of (api_logs all_64 no_error two_rows)))
      ≤ℤ query_int_default all_64 "n" (pos 100))
    × (pos (length (rows_of (api_windows all_64 no_error two_rows)))
        ≤ℤ query_int_default all_64 "n" (pos 50))
    × (pos (length (rows_of (api_anomalies all_64 no_error two_rows)))
        ≤ℤ query_int_default all_64 "n" (pos 50))
api_rows-bounds_example = api_rows-bounds all_64 no_error two_rows

abbrev pub all_well : Successes
all_well = record {
  minute = true;
  hour = true;
  day = true;
  month = true;
  logs = true;
  windows = true;
  anomalies = true;
  appliances = true;
}

abbrev pub same : ℤ → ℤ
same d = d

abbrev pub numerator : ℤ → ℕ → ℕ
numerator n k = k

abbrev shown : LiveState
shown = build_live_state same at_10 served

begun : (events_begin true shown new_notifier).1 ≡ opened 1 (live shown)
unfolding events_begin subscribe new_notifier
begun = refl

no_subscribers : IsRoomy new_notifier
unfolding new_notifier
no_subscribers = tt

stream_keeps_signal_example :
    let m = (subscribe (events_begin true shown new_notifier).0).0 in
    let t = (subscribe (notify_all m)).0 in
    ((c : ℕ) × (held_by 1 t.subs ≡ some c) × (1 ≤ c))
    × (held_by 1 (events_wake 1 gone shown t).0.subs ≡ none)
stream_keeps_signal_example =
    stream_keeps_signal shown shown new_notifier 1 no_subscribers begun
      (one_more none_yet (joined _)) (one_more none_yet (joined _))
