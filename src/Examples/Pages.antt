-- ===== src/Examples/Pages.antt =====
-- The page of the dashboard on concrete data.
use ns_cas.Base.{
  ℕ, length, ◌≡◌, ◌↔◌, refl, inl, true, false, String, List, [], ◌∷◌, All, some, arith,
}
use ns_cas.Base.Int.{ℤ, pos}
use ns_cas.Policy.{codes}
use ns_cas.Messages.{Report, write_log, write_anomaly, broadcast, known_token}
use ns_cas.Reports.{handle_report}
use ns_cas.Http.{decoded, code_only, report_begin}
use ns_cas.Store.{Store, Row, open_new}
use ns_cas.Store.Recent.{IsNumbered}
use ns_cas.Store.Writes.{Write, put_all, accepted}
use ns_cas.Dashboard.{Page, LiveState, left, not_available, no_lockdown, serve_dashboard}
use ns_cas.Dashboard.Template.{Grid, render_live, on_live, tick}
use ns_cas.Dashboard.Template.Event.{tick-on_live}
use ns_cas.Dashboard.Template.Tables.{execute}
use ns_cas.Dashboard.Template.Cells.{utf8}
use ns_cas.Dashboard.Template.Complete.{IsSliced, IsShown, execute-finished}
use ns_cas.Dashboard.Template.Writes.{HasPrintable, is_whole, page_whole, short_token_cuts_page}
use ns_cas.Examples.Data.{plain_report, at_10}
use ns_cas.Examples.Web.{one_ticket, all_64, all_well, count_of, numerator, same, entry}

abbrev time_text : ℤ → List ℕ
time_text t = codes "2026-01-02 03:04:05"

abbrev some_text : ℤ → String
some_text n = "1"

abbrev some_decimal : ℕ → String
some_decimal n = "1.0"

-- Three letters of two bytes each are enough for the slice.
accents : length (utf8 "äöü") ≡ 6
accents = refl

-- One request, one anomaly without a token.
abbrev long_tokens : List Write
long_tokens =
    record {
      ok = true;
      now = pos 5;
      effect = write_log (record (entry "b" (pos 200)) { token = "0123-4567" });
    }
    ∷ record {
      ok = true;
      now = pos 6;
      effect = write_anomaly "quota_exhausted" "b" "" (known_token "none");
    }
    ∷ record { ok = false; now = pos 7; effect = broadcast }
    ∷ []

they_are_long : All (λ (w : Write). HasPrintable w.effect) long_tokens
they_are_long = (omega arith, (inl refl, (tt, tt)))

page_whole_example :
    is_whole count_of numerator 0 same all_64 all_well at_10 at_10 at_10 time_text some_text
      some_decimal
      (put_all long_tokens open_new)
      one_ticket
    ≡ true
page_whole_example =
    page_whole count_of numerator 0 same all_64 all_well at_10 at_10 at_10 time_text some_text
      some_decimal long_tokens one_ticket they_are_long

abbrev page : Page ℕ
page =
    serve_dashboard count_of numerator 0 same all_64 all_well at_10 (put_all long_tokens open_new)
      at_10 at_10 one_ticket

execute-finished_example :
    ((execute time_text some_text some_decimal page).finished ≡ true)
    ↔ All (λ r. IsSliced r.value.token) page.logs
      × All (λ r. IsShown r.value.trigger_token) page.windows
      × All (λ r. IsShown r.value.token) page.anomalies
execute-finished_example = execute-finished time_text some_text some_decimal page

-- A report on no ticket, with a token of two bytes.
abbrev stray : Report
stray = record plain_report { token = "t9"; appliance_id = "z" }

stray_unknown : ns_cas.Http.Settling.is_known stray one_ticket ≡ false
unfolding ns_cas.Dict.lookup
stray_unknown = refl

stray_named : ns_cas.Http.has_names stray ≡ true
unfolding ns_cas.Http.has_names
stray_named = refl

no_anomalies : IsNumbered open_new.anomaly_log
unfolding open_new ns_cas.Store.empty_table
no_anomalies = tt

short_token_cuts_page_example :
    (report_begin "POST" (decoded stray) ≡ (code_only 204, some stray))
    × (is_whole count_of numerator 0 same all_64 all_well at_10 at_10 at_10 time_text some_text
          some_decimal
          (put_all (accepted (pos 9) (handle_report stray at_10 one_ticket).effects) open_new)
          (handle_report stray at_10 one_ticket).engine
        ≡ false)
short_token_cuts_page_example =
    short_token_cuts_page count_of numerator 0 same all_64 all_well at_10 at_10 at_10 time_text
      some_text some_decimal stray at_10 (pos 9) one_ticket open_new refl refl no_anomalies
      stray_named stray_unknown (omega arith)

abbrev ticking : LiveState
ticking = record {
  local_remaining = pos 40;
  in_flight = pos 1;
  available = pos 39;
  queue_depth = 0;
  lockdown_active = false;
  lockdown_display = no_lockdown;
  window_display = left (pos 12);
  window_accuracy = "ns";
  window_end_unix = pos 1700000000000;
  p1_remaining = pos 10;
  p2_remaining = pos 5;
  p3_remaining = pos 0;
  shared_remaining = pos 20;
}

-- The page was loaded before the server was calibrated.
abbrev older : Grid
older = render_live (record ticking {
  window_display = not_available;
  window_accuracy = "";
  window_end_unix = pos 0;
})

tick-on_live_example :
    tick (pos 1699999990000) (on_live ticking older)
    ≡ tick (pos 1699999990000) (render_live ticking)
tick-on_live_example = tick-on_live (pos 1699999990000) ticking older (omega arith)
