-- ===== src/Store/Writes.antt =====
-- The writes that the engine hands to internal/db/db.go, one after the other, and the rows of
-- api_logs that the dashboard then reads.
use mathlib.Core.List.{append_assoc}
use ns_cas.Base.{ℕ, ◌≡◌, refl, ap, ◌∙◌, Bool, true, false, List, [], ◌∷◌, ◌++◌, if◌then◌else◌}
use ns_cas.Base.Int.{ℤ, pos}
use ns_cas.Messages.{Effect, write_log, write_window, write_anomaly, broadcast, LogEntry}
use ns_cas.Store.{
  LogRow, Store, open_new, log_row, put_log, put_window, put_anomaly, put_effect, query_recent_logs,
}
use ns_cas.Store.Recent.{
  Inserted, nothing, then_one, values_of, first, first-zero, query_recent-Inserted,
}

-- A call of the driver: whether it succeeds, and the time read.
pub record Write : Type 0 where
  pub ok : Bool
  pub now : ℤ
  pub effect : Effect

unfoldable pub put_all : List Write → Store → Store
put_all [] s = s
put_all (w ∷ ws) s = put_all ws (put_effect w.ok w.now w.effect s)

-- The rows of the log writes that succeed, the latest first, before those of `rows`.
unfoldable pub keep : Bool → Effect → List LogRow → List LogRow
keep ok (write_log e) rows = if ok then log_row e ∷ rows else rows
keep ok (write_window e) rows = rows
keep ok (write_anomaly event id token detail) rows = rows
keep ok broadcast rows = rows

unfoldable pub kept : List Write → List LogRow → List LogRow
kept [] rows = rows
kept (w ∷ ws) rows = kept ws (keep w.ok w.effect rows)

put_effect-Inserted :
    (ok : Bool) (now : ℤ) (w : Effect) {rows : List LogRow} (s : Store)
    → Inserted rows s.api_logs
    → Inserted (keep ok w rows) (put_effect ok now w s).api_logs
unfolding keep put_effect put_log put_window put_anomaly
put_effect-Inserted true now (write_log e) s h = then_one (log_row e) h
put_effect-Inserted false now (write_log e) s h = h
put_effect-Inserted true now (write_window e) s h = h
put_effect-Inserted false now (write_window e) s h = h
put_effect-Inserted true now (write_anomaly event id token detail) s h = h
put_effect-Inserted false now (write_anomaly event id token detail) s h = h
put_effect-Inserted ok now broadcast s h = h

pub put_all-Inserted :
    (ws : List Write) {rows : List LogRow} (s : Store)
    → Inserted rows s.api_logs
    → Inserted (kept ws rows) (put_all ws s).api_logs
unfolding put_all kept
put_all-Inserted [] s h = h
put_all-Inserted (w ∷ ws) s h =
    put_all-Inserted ws (put_effect w.ok w.now w.effect s)
      (put_effect-Inserted w.ok w.now w.effect s h)

open_new-Inserted : Inserted [] open_new.api_logs
unfolding open_new
open_new-Inserted = nothing

-- After any sequence of writes to a new database, each of which may fail, QueryRecentLogs with n
-- gives the first n of the log entries whose write succeeded, the latest first.
pub query_recent_logs-put_all :
    (n : ℕ) (ws : List Write)
    → values_of (query_recent_logs (pos n) (put_all ws open_new)) ≡ first n (kept ws [])
unfolding query_recent_logs
query_recent_logs-put_all n ws =
    query_recent-Inserted n (put_all-Inserted ws open_new open_new-Inserted)

kept-append :
    (vs ws : List Write) (rows : List LogRow) → kept (vs ++ ws) rows ≡ kept ws (kept vs rows)
unfolding kept
kept-append [] ws rows = refl
kept-append (v ∷ vs) ws rows = kept-append vs ws (keep v.ok v.effect rows)

-- Every write succeeds.
unfoldable pub accepted : ℤ → List Effect → List Write
accepted at [] = []
accepted at (w ∷ ws) = record { ok = true; now = at; effect = w } ∷ accepted at ws

accepted-append :
    (at : ℤ) (vs ws : List Effect) → accepted at (vs ++ ws) ≡ accepted at vs ++ accepted at ws
unfolding accepted
accepted-append at [] ws = refl
accepted-append at (v ∷ vs) ws =
    ap (λ rest. record { ok = true; now = at; effect = v } ∷ rest) (accepted-append at vs ws)

-- Of effects that end with a log write and a broadcast, the row of the log is the latest.
pub latest_log :
    (at : ℤ) (ws : List Effect) (entry : LogEntry) (rows : List LogRow) (s : Store)
    → Inserted rows s.api_logs
    → values_of (
        query_recent_logs
          (pos 1)
          (put_all (accepted at (ws ++ (write_log entry ∷ []) ++ broadcast ∷ [])) s))
      ≡ log_row entry ∷ []
unfolding query_recent_logs first accepted kept keep
latest_log at ws entry rows s h =
    let all = ws ++ (write_log entry ∷ broadcast ∷ []) in
    ap (λ vs. values_of (query_recent_logs (pos 1) (put_all (accepted at vs) s)))
      (append_assoc ws (write_log entry ∷ []) (broadcast ∷ []))
    ∙ query_recent-Inserted 1 (put_all-Inserted (accepted at all) s h)
    ∙ ap (first 1)
        (ap (λ vs. kept vs rows) (accepted-append at ws _) ∙ kept-append (accepted at ws) _ rows)
    ∙ ap (◌∷◌ (log_row entry)) (first-zero (kept (accepted at ws) rows))
