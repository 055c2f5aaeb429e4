-- ===== src/Dashboard/Template/Tables.antt =====
-- The tables of the page in internal/dashboard/dashboard.go (dashboardHTML). A call of the template's
-- `slice` past the end of a string stops the template: what stands before it has been written, and
-- what comes after it is not. How the driver and fmt print a time or a float is a parameter;
-- escaping and styles are left out.
use ns_cas.Base.{
  ℕ, Bool, true, false, String, str_eq, join, List, [], ◌∷◌, map, Option, none, some, if◌then◌else◌,
}
use ns_cas.Base.Int.{ℤ, pos}
use ns_cas.Store.{Row, LogRow, WindowRow, AnomalyRow}
use ns_cas.Dashboard.{Period, Page, deref, short_time}
use ns_cas.Dashboard.Template.{Text, words, number, Grid, render_live}
use ns_cas.Dashboard.Template.Cells.{
  slice_6, token_cell, priority_cell, status_cell, remaining_cell, usage_cell, detected_cell,
  LogFront, LogCells, WindowFront, WindowCells, AnomalyFront, AnomalyCells,
}

-- What is written of a row: all of it, or what stands before its token.
pub data Rendered (A B : Type 0) : Type 0 where
  row_written : B → Rendered A B
  row_cut : A → Rendered A B

abbrev pub finish_row : {A B C : Type 0} → A → (C → B) → Option C → Rendered A B
finish_row front row none = row_cut front
finish_row front row (some token) = row_written (row token)

-- {{range}} over the rows: those written, and what is written of the one that has stopped the
-- template.
pub record Rows (A B : Type 0) : Type 0 where
  pub written : List B
  pub cut : Option A

abbrev pub next_row : {A B : Type 0} → Rendered A B → Rows A B → Rows A B
next_row (row_cut front) rest = record { written = []; cut = some front }
next_row (row_written row) rest = record rest { written = row ∷ rest.written }

unfoldable pub range_rows : {A B C : Type 0} → (C → Rendered A B) → List C → Rows A B
range_rows cells [] = record { written = []; cut = none }
range_rows cells (row ∷ rows) = next_row (cells row) (range_rows cells rows)

-- A table, the line that stands for one without rows, or nothing when the template has stopped.
pub data Section (A B : Type 0) : Type 0 where
  table : Rows A B → Section A B
  empty_line : String → Section A B
  unwritten : Section A B

abbrev pub is_uncut : {A : Type 0} → Option A → Bool
is_uncut none = true
is_uncut (some front) = false

-- Whether the template goes on after it.
abbrev pub is_finished : {A B : Type 0} → Section A B → Bool
is_finished (table rows) = is_uncut rows.cut
is_finished (empty_line line) = true
is_finished unwritten = false

unfoldable pub section : {A B C : Type 0} → String → (C → Rendered A B) → List C → Section A B
section line cells [] = empty_line line
section line cells (row ∷ rows) = table (range_rows cells (row ∷ rows))

unfoldable pub section_after : {A B : Type 0} → Bool → Section A B → Section A B
section_after finished next = if finished then next else unwritten

module _ (show_time : ℤ → List ℕ) (show_whole : ℤ → String) where
  unfoldable pub latency_cell : Option ℤ → Text
  latency_cell none = words "-"
  latency_cell (some ms) = words (show_whole (deref (pos 0) (some ms)))

  unfoldable pub log_cells : Row LogRow → Rendered LogFront LogCells
  log_cells r =
      let front : LogFront = record {
        id = r.id;
        acquired_at = show_time r.value.acquired_at;
        appliance_id = r.value.appliance_id;
        priority = priority_cell r.value.priority_class;
        status = status_cell (some r.value.status_code);
        remaining = remaining_cell (some r.value.ns_remaining);
        latency = latency_cell (some r.value.estimated_latency_ms);
        usage = usage_cell (some r.value.implied_legacy_usage);
        acquired = short_time (show_time r.value.acquired_at);
      } in
      finish_row front (λ token. record { front = front; token = token }) (slice_6 r.value.token)

  unfoldable pub window_cells : Row WindowRow → Rendered WindowFront WindowCells
  window_cells r =
      let front : WindowFront = record {
        id = r.id;
        logged_at = show_time r.value.logged_at;
        detected_via = detected_cell r.value.detected_via;
        window_start = short_time (show_time r.value.window_start);
        window_end = short_time (show_time r.value.window_end);
      } in
      finish_row front
        (λ token. record {
          front = front;
          trigger_token = token;
          logged = short_time (show_time r.value.logged_at);
        })
        (token_cell r.value.trigger_token)

  unfoldable pub anomaly_cells : Row AnomalyRow → Rendered AnomalyFront AnomalyCells
  anomaly_cells r =
      let front : AnomalyFront = record {
        id = r.id;
        logged_at = show_time r.value.logged_at;
        event_type = r.value.event_type;
        appliance_id = r.value.appliance_id;
      } in
      finish_row front
        (λ token. record {
          front = front;
          token = token;
          detail = r.value.detail;
          logged = short_time (show_time r.value.logged_at);
        })
        (token_cell r.value.token)

-- The card "Statistics by Period".
unfoldable pub appliance_options : String → List String → List (String × Bool)
appliance_options filter names = map (λ name. (name, str_eq filter name)) names

pub record StatRow : Type 0 where
  pub label : String
  pub values : List Text

module _ {G : Type 0} (show_tenths : G → String) where
  unfoldable pub stat_rows : List (Period G) → List StatRow
  stat_rows ps =
      record { label = "Requests"; values = map (λ p. number (pos p.stats.total_requests)) ps }
      ∷ record { label = "429"; values = map (λ p. number (pos p.stats.total_429s)) ps }
      ∷ record { label = "4xx (non-429)"; values = map (λ p. number (pos p.stats.total_4xx)) ps }
      ∷ record { label = "5xx"; values = map (λ p. number (pos p.stats.total_5xx)) ps }
      ∷ record { label = "External API"; values = map (λ p. number p.stats.total_legacy_usage) ps }
      ∷ record {
        label = "Avg Latency (ms)";
        values = map (λ p. words (show_tenths p.stats.avg_latency_ms)) ps;
      }
      ∷ record {
        label = "Throughput /30s";
        values = map (λ p. words (show_tenths p.throughput_excl)) ps;
      }
      ∷ record {
        label = "+ext api /30s";
        values = map (λ p. words (show_tenths p.throughput_incl)) ps;
      }
      ∷ []

-- What has been written of the page, and whether it is all of it.
pub record View : Type 0 where
  pub live : Grid
  pub options : List (String × Bool)
  pub columns : List String
  pub stats : List StatRow
  pub logs : Section LogFront LogCells
  pub windows : Section WindowFront WindowCells
  pub anomalies : Section AnomalyFront AnomalyCells
  pub finished : Bool

unfoldable pub execute : {G : Type 0} → (ℤ → List ℕ) → (ℤ → String) → (G → String) → Page G → View
execute show_time show_whole show_tenths page =
    let logs = section "No requests recorded yet" (log_cells show_time show_whole) page.logs in
    let windows =
      section_after (is_finished logs)
        (section "No window detections yet" (window_cells show_time show_whole) page.windows) in
    let anomalies =
      section_after (is_finished windows)
        (section "No anomalies recorded" (anomaly_cells show_time show_whole) page.anomalies) in
    record {
      live = render_live page.live;
      options = appliance_options page.appliance_filter page.appliances;
      columns = map (λ p. join "Last " p.label) page.periods;
      stats = stat_rows show_tenths page.periods;
      logs = logs;
      windows = windows;
      anomalies = anomalies;
      finished = is_finished anomalies;
    }
