-- ===== src/Dashboard/Template/Writes.antt =====
-- The page of internal/dashboard/dashboard.go after the writes of internal/handlers/engine.go.
use ns_cas.Base.{
  ℕ, zero, suc, ltb, ◌<◌, ◌≡◌, refl, subst, Bool, true, false, String, str_eq, List, [], ◌∷◌,
  Option, none, some, length, All, All-append, Bool-cases, inl, inr, arith, if_cases,
}
use ns_cas.Base.Int.{ℤ, pos}
use ns_cas.Messages.{
  Report, ActiveTicket, Effect, write_log, write_window, write_anomaly, broadcast, record_effect,
  Detail,
}
use ns_cas.Engine.{Engine}
use ns_cas.Reports.{process_ticket, process_report, handle_report, matches, known}
use ns_cas.Dict
use ns_cas.Http.{decoded, code_only, has_names, report_begin}
use ns_cas.Http.Settling.{is_known}
use ns_cas.Store.{
  Row, Table, LogRow, WindowRow, AnomalyRow, Store, empty_table, open_new, log_row, insert_row,
  insert_desc, order_desc, take_rows, limit_rows, query_recent, query_recent_logs,
  query_recent_windows, query_recent_anomalies, put_log, put_window, put_anomaly, put_effect,
}
use ns_cas.Store.Recent.{IsNumbered, query_recent-insert}
use ns_cas.Store.Writes.{Write, put_all, accepted}
use ns_cas.Dashboard.{Successes, or_empty, serve_dashboard}
use ns_cas.Dashboard.Template.Tables.{execute}
use ns_cas.Dashboard.Template.Cells.{utf8}
use ns_cas.Dashboard.Template.Complete.{IsSliced, IsShown, IsSliced-of, execute-finished}

-- The rows that a query gives are rows of the table.
module _ {A : Type 0} (P : Row A → Type 0) where
  insert_desc-All :
      (r : Row A) (rows : List (Row A)) → P r → All P rows → All P (insert_desc r rows)
  unfolding insert_desc
  insert_desc-All r [] h hs = (h, tt)
  insert_desc-All r (x ∷ rows) h hs = elim (Bool-cases (ltb r.id x.id)) [
    | inl hit ↦ rw hit (hs.0, insert_desc-All r rows h hs.1)
    | inr miss ↦ rw miss (h, hs)
  ]

  order_desc-All : (rows : List (Row A)) → All P rows → All P (order_desc rows)
  unfolding order_desc
  order_desc-All [] h = tt
  order_desc-All (r ∷ rows) h = insert_desc-All r (order_desc rows) h.0 (order_desc-All rows h.1)

  take_rows-All : (n : ℕ) (rows : List (Row A)) → All P rows → All P (take_rows n rows)
  unfolding take_rows
  take_rows-All n [] h = tt
  take_rows-All zero (r ∷ rows) h = tt
  take_rows-All (suc n) (r ∷ rows) h = (h.0, take_rows-All n rows h.1)

  query_recent-All : (n : ℕ) (t : Table A) → All P t.rows → All P (query_recent (pos n) t)
  unfolding query_recent limit_rows
  query_recent-All n t h = take_rows-All n (order_desc t.rows) (order_desc-All t.rows h)

-- Tables whose tokens the template can cut.
record IsPrintable (s : Store) : Type 0 where
  pub logs : All (λ (r : Row LogRow). IsSliced r.value.token) s.api_logs.rows
  pub windows : All (λ (r : Row WindowRow). IsShown r.value.trigger_token) s.window_log.rows
  pub anomalies : All (λ (r : Row AnomalyRow). IsShown r.value.token) s.anomaly_log.rows

-- Writes whose tokens the template can cut.
abbrev pub HasPrintable : Effect → Type 0
HasPrintable (write_log e) = IsSliced e.token
HasPrintable (write_window e) = IsShown e.trigger_token
HasPrintable (write_anomaly event id token detail) = IsShown token
HasPrintable broadcast = Unit

insert_row-All :
    {A : Type 0} (P : Row A → Type 0) (a : A) (t : Table A)
    → ((n : ℕ) → P (record { id = n; value = a }))
    → All P t.rows
    → All P (insert_row a t).rows
unfolding insert_row
insert_row-All P a t h hs = All-append P t.rows _ hs (h _, tt)

put_effect-IsPrintable :
    (ok : Bool) (now : ℤ) (w : Effect) (s : Store)
    → HasPrintable w
    → IsPrintable s
    → IsPrintable (put_effect ok now w s)
unfolding put_effect put_log put_window put_anomaly log_row
put_effect-IsPrintable ok now (write_log e) s h p =
    if_cases IsPrintable ok
      (λ _. record {
        logs = insert_row-All _ _ s.api_logs (λ n. h) p.logs;
        windows = p.windows;
        anomalies = p.anomalies;
      })
      (λ _. p)
put_effect-IsPrintable ok now (write_window e) s h p =
    if_cases IsPrintable ok
      (λ _. record {
        logs = p.logs;
        windows = insert_row-All _ _ s.window_log (λ n. h) p.windows;
        anomalies = p.anomalies;
      })
      (λ _. p)
put_effect-IsPrintable ok now (write_anomaly event id token detail) s h p =
    if_cases IsPrintable ok
      (λ _. record {
        logs = p.logs;
        windows = p.windows;
        anomalies = insert_row-All _ _ s.anomaly_log (λ n. h) p.anomalies;
      })
      (λ _. p)
put_effect-IsPrintable ok now broadcast s h p = p

put_all-IsPrintable :
    (ws : List Write) (s : Store)
    → All (λ (w : Write). HasPrintable w.effect) ws
    → IsPrintable s
    → IsPrintable (put_all ws s)
unfolding put_all
put_all-IsPrintable [] s h p = p
put_all-IsPrintable (w ∷ ws) s h p =
    put_all-IsPrintable ws _ h.1 (put_effect-IsPrintable w.ok w.now w.effect s h.0 p)

open_new-IsPrintable : IsPrintable open_new
unfolding open_new empty_table
open_new-IsPrintable = record { logs = tt; windows = tt; anomalies = tt }

unmatched_effects :
    {F : Type 0} (r : Report) (now : ℤ) (found : Option ActiveTicket) (e : Engine F)
    → matches r found ≡ false
    → ((process_ticket r now found e).value.ok ≡ false)
      × ((process_ticket r now found e).effects
          ≡ record_effect e.has_db
              (write_anomaly "unmatched_token" r.appliance_id r.token (known found)))
unmatched_effects r now none e h = (refl, refl)
unmatched_effects r now (some t) e h = rw h (refl, refl)

-- A report without its ticket is an anomaly, and nothing else.
handle_report-effects :
    {F : Type 0} (r : Report) (now : ℤ) (e : Engine F)
    → is_known r e ≡ false
    → (handle_report r now e).effects
      ≡ record_effect e.has_db (
          write_anomaly "unmatched_token" r.appliance_id r.token
            (known (Dict.lookup r.appliance_id e.active_tickets)))
unfolding handle_report process_report
handle_report-effects r now e h =
    let u = unmatched_effects r now (Dict.lookup r.appliance_id e.active_tickets) e h in rw u.0 u.1

-- The anomaly comes first on the page.
newest_anomaly :
    (at : ℤ) (id token : String) (detail : Detail) (s : Store)
    → IsNumbered s.anomaly_log
    → (n : ℕ) × (rest : List (Row AnomalyRow)) × (query_recent_anomalies (pos 20) (
          put_all
            (accepted at (record_effect true (write_anomaly "unmatched_token" id token detail)))
            s)
        ≡ record {
          id = n;
          value = record {
            event_type = "unmatched_token";
            appliance_id = id;
            token = token;
            detail = detail;
            logged_at = at;
          };
        }
          ∷ rest)
unfolding query_recent_anomalies put_all accepted record_effect put_effect put_anomaly
newest_anomaly at id token detail s h = (_, _, query_recent-insert _ 19 s.anomaly_log h)

named_token : (r : Report) → has_names r ≡ true → str_eq r.token "" ≡ false
unfolding has_names
named_token r h = ground arith

or_empty-All :
    {A : Type 0} (P : A → Type 0) (ok : Bool) (rows : List A)
    → All P rows
    → All P (or_empty ok rows [])
or_empty-All P true rows h = h
or_empty-All P false rows h = tt

module _ {F G : Type 0} (mean : List ℤ → G) (ratio : ℤ → ℕ → G) (zero_float : G) (seconds : ℤ → ℤ)
    (query : String → String) (ok : Successes) (now shown_at made_at : ℤ) (show_time : ℤ → List ℕ)
    (show_whole : ℤ → String) (show_tenths : G → String) where
  -- Whether the answer to a request for the page is all of it.
  abbrev pub is_whole : Store → Engine F → Bool
  is_whole s e =
      (execute show_time show_whole show_tenths
        (serve_dashboard mean ratio zero_float seconds query ok now s shown_at made_at e)).finished

  -- After any sequence of writes to a new database, each of which may fail, the page is written
  -- to its end, if every log token written has at least six bytes and every other token is empty
  -- or has at least six; whichever queries of the page fail.
  pub page_whole :
      (ws : List Write) (e : Engine F)
      → All (λ (w : Write). HasPrintable w.effect) ws
      → is_whole (put_all ws open_new) e ≡ true
  unfolding serve_dashboard query_recent_logs query_recent_windows query_recent_anomalies
  page_whole ws e h =
      let p = put_all-IsPrintable ws open_new h open_new-IsPrintable in
      let s = put_all ws open_new in
      (execute-finished show_time show_whole show_tenths _).1 (
        or_empty-All _ ok.logs (query_recent (pos 50) s.api_logs)
            (query_recent-All _ 50 s.api_logs p.logs),
        or_empty-All _ ok.windows (query_recent (pos 20) s.window_log)
            (query_recent-All _ 20 s.window_log p.windows),
        or_empty-All _ ok.anomalies (query_recent (pos 20) s.anomaly_log)
            (query_recent-All _ 20 s.anomaly_log p.anomalies),
      )

  anomaly_cuts_page :
      (at : ℤ) (id token : String) (detail : Detail) (e : Engine F) (s : Store)
      → ok.anomalies ≡ true
      → IsNumbered s.anomaly_log
      → str_eq token "" ≡ false
      → length (utf8 token) < 6
      → is_whole
          (put_all
            (accepted at (record_effect true (write_anomaly "unmatched_token" id token detail)))
            s)
          e
        ≡ false
  unfolding serve_dashboard
  anomaly_cuts_page at id token detail e s shown numbered named short =
      let after =
        put_all (accepted at (record_effect true (write_anomaly "unmatched_token" id token detail)))
          s in
      let P = λ (r : Row AnomalyRow). IsShown r.value.token in
      let newest = newest_anomaly at id token detail s numbered in
      elim (Bool-cases (is_whole after e)) [
        | inl whole ↦
            let rows = ((execute-finished show_time show_whole show_tenths _).0 whole).2 in
            let all =
              subst (λ b. All P (or_empty b (query_recent_anomalies (pos 20) after) [])) shown
                rows in
            absurd (omega (arith, short, IsSliced-of token (subst (All P) newest.2 all).0 named))
        | inr cut ↦ cut
      ]

  -- On an engine with a database whose anomaly rows are numbered up to the last id, a POST of a
  -- report that names its appliance and matches no ticket, with a token of one to five bytes, is
  -- answered with 204, and once its anomaly has been written the page, if its query of the
  -- anomalies succeeds, is not written to its end.
  pub short_token_cuts_page :
      (r : Report) (reported at : ℤ) (e : Engine F) (s : Store)
      → e.has_db ≡ true
      → ok.anomalies ≡ true
      → IsNumbered s.anomaly_log
      → has_names r ≡ true
      → is_known r e ≡ false
      → length (utf8 r.token) < 6
      → (report_begin "POST" (decoded r) ≡ (code_only 204, some r))
        × (is_whole
              (put_all (accepted at (handle_report r reported e).effects) s)
              (handle_report r reported e).engine
            ≡ false)
  unfolding report_begin serve_dashboard
  short_token_cuts_page r reported at e s db shown numbered named unknown short = (
    rw named refl,
    rw (handle_report-effects r reported e unknown, db)
        (anomaly_cuts_page at r.appliance_id r.token _ _ s shown numbered (named_token r named)
          short),
  )
