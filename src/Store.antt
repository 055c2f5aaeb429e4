-- ===== src/Store.antt =====
-- internal/db/db.go: the analytics tables, the three inserts and the queries of the dashboard. A
-- table is its rows in the order in which they were inserted, with the last AUTOINCREMENT id. The
-- statements are read as SQL defines them; whether the driver carries one out is an argument, since
-- it decides the branch on `err`. A timestamp is its time, NULL is `none`, and the REAL average is
-- computed by a parameter. Timestamps in UTC compare as their times do.
use Prim.Native.String.{compare}
use text.Mathlib.Text.{is_lt, is_eq}
use ns_cas.Base.{
  ℕ, zero, suc, ◌+◌, ◌≡◌, Bool, true, false, ◌&&◌, ◌||◌, not, String, str_eq, List, [], ◌∷◌, ◌++◌,
  map, Option, none, some, ltb, length, join, if◌then◌else◌,
}
use ns_cas.Base.Int.{ℤ, pos, negsuc, ◌+ℤ◌, ltb_ℤ, leb_ℤ, eqb_ℤ}
use ns_cas.Messages.{
  LogEntry, WindowEntry, Detail, Effect, write_log, write_window, write_anomaly, broadcast,
}
pub mod Recent
pub mod Totals
pub mod Writes
pub mod Reports
pub mod Appliances

-- A row with its id.
pub record Row (A : Type 0) : Type 0 where
  pub id : ℕ
  pub value : A

pub record Table (A : Type 0) : Type 0 where
  pub rows : List (Row A)
  pub last_id : ℕ

-- The columns of api_logs.
pub record LogRow : Type 0 where
  pub token : String
  pub appliance_id : String
  pub priority_class : String
  pub queued_at : ℤ
  pub acquired_at : ℤ
  pub api_sent_at : Option ℤ
  pub api_recv_at : Option ℤ
  pub ns_remaining : ℤ
  pub ns_reset : ℤ
  pub status_code : ℤ
  pub estimated_latency_ms : ℤ
  pub expected_remaining : ℤ
  pub implied_legacy_usage : ℤ

pub record WindowRow : Type 0 where
  pub window_start : ℤ
  pub window_end : ℤ
  pub detected_via : String
  pub trigger_token : String
  pub logged_at : ℤ

pub record AnomalyRow : Type 0 where
  pub event_type : String
  pub appliance_id : String
  pub token : String
  pub detail : Detail
  pub logged_at : ℤ

pub record Store : Type 0 where
  pub api_logs : Table LogRow
  pub window_log : Table WindowRow
  pub anomaly_log : Table AnomalyRow

unfoldable pub empty_table : {A : Type 0} → Table A
empty_table = record { rows = []; last_id = 0 }

-- Open on a path where no database exists yet.
unfoldable pub open_new : Store
open_new = record { api_logs = empty_table; window_log = empty_table; anomaly_log = empty_table }

-- Which of the calls of Open fail, and with what error.
pub record OpenErrors : Type 0 where
  pub opening : Option String
  pub migration : Option String
  pub insert_log : Option String
  pub insert_window : Option String
  pub insert_anomaly : Option String

pub data Opened : Type 0 where
  not_opened : String → Opened
  opened : Store → Opened

-- An error goes up with its prefix; otherwise the next call is made.
unfoldable pub or_error : String → Option String → Opened → Opened
or_error prefix none rest = rest
or_error prefix (some err) rest = not_opened (join prefix err)

-- Open on a file with the contents `s`: CREATE TABLE IF NOT EXISTS leaves them.
unfoldable pub open_store : OpenErrors → Store → Opened
open_store errs s = or_error "sqlite open: " errs.opening (
    or_error "schema migration: " errs.migration (
      or_error "prepare insertLog: " errs.insert_log (
        or_error "prepare insertWindow: " errs.insert_window
          (or_error "prepare insertAnomaly: " errs.insert_anomaly (opened s)))))

-- INSERT INTO.
unfoldable pub insert_row : {A : Type 0} → A → Table A → Table A
insert_row a t = record {
  rows = t.rows ++ record { id = suc t.last_id; value = a } ∷ [];
  last_id = suc t.last_id;
}

unfoldable pub nullable_time : ℤ → Option ℤ
nullable_time t = if eqb_ℤ t (pos 0) then none else some t

unfoldable pub log_row : LogEntry → LogRow
log_row e = record {
  token = e.token;
  appliance_id = e.appliance_id;
  priority_class = e.priority_class;
  queued_at = e.queued_at;
  acquired_at = e.acquired_at;
  api_sent_at = nullable_time e.api_sent_at;
  api_recv_at = nullable_time e.api_recv_at;
  ns_remaining = e.ns_remaining;
  ns_reset = e.ns_reset;
  status_code = e.status_code;
  estimated_latency_ms = e.estimated_latency_ms;
  expected_remaining = e.expected_remaining;
  implied_legacy_usage = e.implied_legacy_usage;
}

-- An insert that fails is logged, and nothing else happens.
unfoldable pub put_log : Bool → LogEntry → Store → Store
put_log ok e s = if ok then record s { api_logs = insert_row (log_row e) s.api_logs } else s

unfoldable pub put_window : Bool → ℤ → WindowEntry → Store → Store
put_window ok now e s =
    let row : WindowRow = record {
      window_start = e.window_start;
      window_end = e.window_end;
      detected_via = e.detected_via;
      trigger_token = e.trigger_token;
      logged_at = now;
    } in
    if ok then record s { window_log = insert_row row s.window_log } else s

unfoldable pub put_anomaly : Bool → ℤ → String → String → String → Detail → Store → Store
put_anomaly ok now event id token detail s =
    let row : AnomalyRow = record {
      event_type = event;
      appliance_id = id;
      token = token;
      detail = detail;
      logged_at = now;
    } in
    if ok then record s { anomaly_log = insert_row row s.anomaly_log } else s

-- What the goroutine of an effect writes.
unfoldable pub put_effect : Bool → ℤ → Effect → Store → Store
put_effect ok now (write_log e) s = put_log ok e s
put_effect ok now (write_window e) s = put_window ok now e s
put_effect ok now (write_anomaly event id token detail) s =
    put_anomaly ok now event id token detail s
put_effect ok now broadcast s = s

-- ORDER BY id DESC LIMIT n; a negative n sets no limit.
module _ {A : Type 0} where
  unfoldable pub insert_desc : Row A → List (Row A) → List (Row A)
  insert_desc r [] = r ∷ []
  insert_desc r (x ∷ xs) =
      let rest = insert_desc r xs in if ltb r.id x.id then x ∷ rest else r ∷ x ∷ xs

  unfoldable pub order_desc : List (Row A) → List (Row A)
  order_desc [] = []
  order_desc (r ∷ rs) = insert_desc r (order_desc rs)

  unfoldable pub take_rows : ℕ → List (Row A) → List (Row A)
  take_rows n [] = []
  take_rows zero (r ∷ rs) = []
  take_rows (suc n) (r ∷ rs) = r ∷ take_rows n rs

  unfoldable pub limit_rows : ℤ → List (Row A) → List (Row A)
  limit_rows (pos n) rs = take_rows n rs
  limit_rows (negsuc n) rs = rs

  unfoldable pub query_recent : ℤ → Table A → List (Row A)
  query_recent n t = limit_rows n (order_desc t.rows)

-- The three queries of this form.
unfoldable pub query_recent_logs : ℤ → Store → List (Row LogRow)
query_recent_logs n s = query_recent n s.api_logs

unfoldable pub query_recent_windows : ℤ → Store → List (Row WindowRow)
query_recent_windows n s = query_recent n s.window_log

unfoldable pub query_recent_anomalies : ℤ → Store → List (Row AnomalyRow)
query_recent_anomalies n s = query_recent n s.anomaly_log
