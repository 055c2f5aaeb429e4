-- ===== src/Dashboard.antt =====
-- internal/dashboard/dashboard.go: the live state, the page's data, the four JSON endpoints and the
-- stream of server-sent events. The arguments of a request's URL are a function, "" for one that is
-- missing. `seconds` is int(d.Seconds()), whose float64 is a parameter, and so is the ratio of a
-- throughput. A query's result is its error, or what the store answers. The texts of a display are
-- its cases; the template that writes them is HTML.
use ns_cas.Base.{
  ℕ, suc, zero, ◌+◌, ◌-◌, ◌*◌, ◌/◌, ◌≡◌, Bool, true, false, ◌&&◌, not, String, str_eq, List, [],
  ◌∷◌, Option, none, some, if◌then◌else◌, ◌==◌, leb, length, ◌++◌,
}
use ns_cas.Base.Int.{ℤ, pos, negsuc, ◌+ℤ◌, ◌-ℤ◌, ltb_ℤ, wrap64}
use ns_cas.Classes.{priority_high, priority_medium, priority_low}
use ns_cas.Policy.{codes, atoi}
use ns_cas.State.{State}
use ns_cas.Queue.{len}
use ns_cas.Messages.{sub_time}
use ns_cas.Engine.{Engine}
use ns_cas.Notifier.{Notifier, subscribe, unsubscribe}
use ns_cas.Http.{Response, error, floor_0}
use ns_cas.Store.{
  Row, LogRow, WindowRow, AnomalyRow, Store, query_recent_logs, query_recent_windows,
  query_recent_anomalies,
}
use ns_cas.Store.Totals.{Stats, query_stats, query_stats_since}
use ns_cas.Store.Appliances.{query_distinct_appliances}
pub mod Views
pub mod Stream
pub mod Template

-- "—", "<n>s" and "N/A".
pub data WindowDisplay : Type 0 where
  dash not_available : WindowDisplay
  left : ℤ → WindowDisplay

-- "None" and "429 — until <time>".
pub data LockdownDisplay : Type 0 where
  no_lockdown : LockdownDisplay
  until : ℤ → LockdownDisplay

pub record LiveState : Type 0 where
  pub local_remaining : ℤ
  pub in_flight : ℤ
  pub available : ℤ
  pub queue_depth : ℕ
  pub lockdown_active : Bool
  pub lockdown_display : LockdownDisplay
  pub window_display : WindowDisplay
  pub window_accuracy : String
  pub window_end_unix : ℤ
  pub p1_remaining : ℤ
  pub p2_remaining : ℤ
  pub p3_remaining : ℤ
  pub shared_remaining : ℤ

-- time.Time.UnixMilli: whole milliseconds since 1970, rounded down.
unfoldable pub milli : ℤ → ℤ
milli (pos n) = pos (n / 1000000)
milli (negsuc n) = negsuc (n / 1000000)

unfoldable pub unix_milli : ℤ → ℤ
unix_milli t = milli (t -ℤ pos (62135596800 * 1000000000))

-- The display, the accuracy and the end of the window.
unfoldable pub window_display : (ℤ → ℤ) → ℤ → State → WindowDisplay × (String × ℤ)
window_display seconds now s =
    if not s.calibrated
    then (dash, ("", pos 0))
    else if s.window_active
    then (
      left (seconds (floor_0 (sub_time s.window_end_time now))),
      ("ns", unix_milli s.window_end_time),
    )
    else (not_available, ("", pos 0))

unfoldable pub lockdown_display : State → LockdownDisplay
lockdown_display s = if s.lockdown_active then until s.lockdown_until else no_lockdown

-- The template's derefInt, derefFloat and derefStr: what stands for nil.
unfoldable pub deref : {A : Type 0} → A → Option A → A
deref zero_value none = zero_value
deref zero_value (some a) = a

-- The template's shortTime, on bytes: a line break may come after the first ten of a full time.
unfoldable pub slice_at : ℕ → List ℕ → List ℕ × List ℕ
slice_at n [] = ([], [])
slice_at zero (b ∷ bs) = ([], b ∷ bs)
slice_at (suc n) (b ∷ bs) = let (front, back) = slice_at n bs in (b ∷ front, back)

unfoldable pub short_time : List ℕ → List ℕ
short_time bytes =
    let (front, back) = slice_at 10 bytes in
    if leb 19 (length bytes) then front ++ codes "<wbr>" ++ back else bytes

-- A parameter of a URL as a positive number.
abbrev pub positive_or : ℤ → Option ℤ → ℤ
positive_or def none = def
positive_or def (some n) = if ltb_ℤ (pos 0) n then n else def

unfoldable pub query_int_default : (String → String) → String → ℤ → ℤ
query_int_default query key def =
    if str_eq (query key) "" then def else positive_or def (atoi (codes (query key)))

-- The answer of an endpoint: writeJSON, or http.Error with the text of the error.
pub data Answer (A : Type 0) : Type 0 where
  written : A → Answer A
  refused : Response → Answer A

unfoldable pub answer : {A : Type 0} → Option String → A → Answer A
answer none rows = written rows
answer (some text) rows = refused (error 500 text)

unfoldable pub api_logs : (String → String) → Option String → Store → Answer (List (Row LogRow))
api_logs query err s = answer err (query_recent_logs (query_int_default query "n" (pos 100)) s)

unfoldable pub api_windows :
    (String → String) → Option String → Store → Answer (List (Row WindowRow))
api_windows query err s = answer err (query_recent_windows (query_int_default query "n" (pos 50)) s)

unfoldable pub api_anomalies :
    (String → String) → Option String → Store → Answer (List (Row AnomalyRow))
api_anomalies query err s =
    answer err (query_recent_anomalies (query_int_default query "n" (pos 50)) s)

unfoldable pub api_stats : {F : Type 0} → (List ℤ → F) → Option String → Store → Answer (Stats F)
api_stats average err s = answer err (query_stats average s)

-- The page ignores the error of a query, and shows the zero value. (Columns that a failing Scan has
-- already filled are not followed.)
abbrev pub or_empty : {A : Type 0} → Bool → A → A → A
or_empty ok value empty = if ok then value else empty

pub record Period (F : Type 0) : Type 0 where
  pub label : String
  pub secs : ℕ
  pub stats : Stats F
  pub throughput_excl : F
  pub throughput_incl : F

-- `ratio n k` is float64(n) / k, with k slices of 30 s in the period.
unfoldable pub period : {F : Type 0} → (ℤ → ℕ → F) → String → ℕ → Stats F → Period F
period ratio label secs stats = record {
  label = label;
  secs = secs;
  stats = stats;
  throughput_excl = ratio (pos stats.total_requests) (secs / 30);
  throughput_incl =
      ratio (wrap64 (pos stats.total_requests +ℤ stats.total_legacy_usage)) (secs / 30);
}

abbrev pub empty_stats : {F : Type 0} → F → Stats F
empty_stats zero_float = record {
  total_requests = 0;
  total_legacy_usage = pos 0;
  total_429s = 0;
  total_4xx = 0;
  total_5xx = 0;
  avg_latency_ms = zero_float;
}

-- Which queries of a page succeed.
pub record Successes : Type 0 where
  pub minute : Bool
  pub hour : Bool
  pub day : Bool
  pub month : Bool
  pub logs : Bool
  pub windows : Bool
  pub anomalies : Bool
  pub appliances : Bool

pub record Page (F : Type 0) : Type 0 where
  pub generated_at : ℤ
  pub live : LiveState
  pub periods : List (Period F)
  pub logs : List (Row LogRow)
  pub windows : List (Row WindowRow)
  pub anomalies : List (Row AnomalyRow)
  pub appliances : List String
  pub appliance_filter : String

module _ {F : Type 0} where
  unfoldable pub build_live_state : (ℤ → ℤ) → ℤ → Engine F → LiveState
  build_live_state seconds now e =
      let (display, (accuracy, end_unix)) = window_display seconds now e.state in
      record {
        local_remaining = e.state.local_remaining;
        in_flight = e.state.in_flight;
        available = floor_0 (wrap64 (e.state.local_remaining -ℤ e.state.in_flight));
        queue_depth = len e.queue;
        lockdown_active = e.state.lockdown_active;
        lockdown_display = lockdown_display e.state;
        window_display = display;
        window_accuracy = accuracy;
        window_end_unix = end_unix;
        p1_remaining = e.state.class_remaining priority_high;
        p2_remaining = e.state.class_remaining priority_medium;
        p3_remaining = e.state.class_remaining priority_low;
        shared_remaining = e.state.shared_remaining;
      }

-- The data of the page. `mean` and `ratio` compute floats, and `zero_float` is 0.
module _ {G : Type 0} (mean : List ℤ → G) (ratio : ℤ → ℕ → G) (zero_float : G) where
  unfoldable pub period_since : String → ℕ → Bool → ℤ → String → Store → Period G
  period_since label secs ok now filter s = period ratio label secs (
      or_empty ok (query_stats_since mean (now -ℤ pos (secs * 1000000000)) filter s)
        (empty_stats zero_float))

  unfoldable pub four_periods : Successes → ℤ → String → Store → List (Period G)
  four_periods ok now filter s =
      period_since "1m" 60 ok.minute now filter s
      ∷ period_since "1h" 3600 ok.hour now filter s
      ∷ period_since "1d" 86400 ok.day now filter s
      ∷ period_since "30d" 2592000 ok.month now filter s
      ∷ []

  unfoldable pub serve_dashboard :
      {F : Type 0} → (ℤ → ℤ) → (String → String) → Successes → ℤ → Store → ℤ → ℤ → Engine F → Page G
  serve_dashboard seconds query ok now s shown_at made_at e = record {
    generated_at = made_at;
    live = build_live_state seconds shown_at e;
    periods = four_periods ok now (query "appliance") s;
    logs = or_empty ok.logs (query_recent_logs (pos 50) s) [];
    windows = or_empty ok.windows (query_recent_windows (pos 20) s) [];
    anomalies = or_empty ok.anomalies (query_recent_anomalies (pos 20) s) [];
    appliances = or_empty ok.appliances (query_distinct_appliances s) [];
    appliance_filter = query "appliance";
  }
