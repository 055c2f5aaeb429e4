-- ===== src/Dashboard/Views.antt =====
-- What the pages and endpoints of internal/dashboard/dashboard.go show.
use ns_cas.Base.{
  ℕ, ◌*◌, ◌≤◌, ◌≡◌, subst, not, Bool, true, String, str_eq, List, [], ◌∷◌, Option, none, some,
  length, arith, if_cases,
}
use ns_cas.Base.Int.{ℤ, pos, ◌≤ℤ◌, ◌<ℤ◌, ◌-ℤ◌, int_laws}
use ns_cas.Policy.{atoi, codes}
use ns_cas.State.{State, Config}
use ns_cas.Queue.{Floats}
use ns_cas.Messages.{sub_time}
use ns_cas.Http.{floor_0}
use ns_cas.Engine.{Engine}
use ns_cas.Safety.System.{Reach, fresh_server, server-IsSound}
use ns_cas.Store.{
  Store, Table, query_recent, query_recent_logs, query_recent_windows, query_recent_anomalies,
}
use ns_cas.Store.Recent.{query_recent-length}
use ns_cas.Store.Totals.{IsWithin, query_stats_since-IsWithin}
use ns_cas.Dashboard.{
  Answer, written, refused, answer, positive_or, query_int_default, api_logs, api_windows,
  api_anomalies, build_live_state, Period, Successes, period, period_since, four_periods,
  serve_dashboard, WindowDisplay, left, window_display,
}

positive_or-pos : (def : ℤ) (n : Option ℤ) → pos 0 <ℤ def → pos 0 <ℤ positive_or def n
positive_or-pos def none h = h
positive_or-pos def (some n) h = ground arith

query_int_default-pos :
    (query : String → String) (key : String) (def : ℤ)
    → pos 0 <ℤ def
    → pos 0 <ℤ query_int_default query key def
unfolding query_int_default
query_int_default-pos query key def h =
    if_cases (λ n. pos 0 <ℤ n) (str_eq (query key) "") (λ _. h)
      (λ _. positive_or-pos def (atoi (codes (query key))) h)

-- The rows of an answer, none when it is an error.
abbrev pub rows_of : {A : Type 0} → Answer (List A) → List A
rows_of (written rows) = rows
rows_of (refused r) = []

answer-length :
    {A : Type 0} (err : Option String) (n : ℤ) (t : Table A)
    → pos 0 <ℤ n
    → pos (length (rows_of (answer err (query_recent n t)))) ≤ℤ n
unfolding answer
answer-length none n t h = query_recent-length n t h
answer-length (some text) n t h = omega (arith, h)

-- Whatever n a client asks for, /api/logs, /api/windows and /api/anomalies answer with at most as
-- many rows as queryIntDefault makes of it; no n lifts the limit of the query.
pub api_rows-bounds :
    (query : String → String) (err : Option String) (s : Store)
    → (pos (length (rows_of (api_logs query err s))) ≤ℤ query_int_default query "n" (pos 100))
      × (pos (length (rows_of (api_windows query err s))) ≤ℤ query_int_default query "n" (pos 50))
      × (pos (length (rows_of (api_anomalies query err s))) ≤ℤ query_int_default query "n" (pos 50))
unfolding api_logs api_windows api_anomalies query_recent_logs query_recent_windows
    query_recent_anomalies
api_rows-bounds query err s =
    let hundred = query_int_default-pos query "n" (pos 100) (omega arith) in
    let fifty = query_int_default-pos query "n" (pos 50) (omega arith) in
    (
      answer-length err (query_int_default query "n" (pos 100)) s.api_logs hundred,
      answer-length err (query_int_default query "n" (pos 50)) s.window_log fifty,
      answer-length err (query_int_default query "n" (pos 50)) s.anomaly_log fifty,
    )

-- A longer time back is earlier.
earlier :
    (now : ℤ) (a b : ℕ) → a ≤ b → (now -ℤ pos (b * 1000000000)) ≤ℤ (now -ℤ pos (a * 1000000000))
earlier now a b h = omega int_laws

module _ {G : Type 0} where
  -- Each period counts at most what the next, longer one counts.
  abbrev pub IsNested : List (Period G) → Type 0
  IsNested [] = Unit
  IsNested (p ∷ []) = Unit
  IsNested (p ∷ q ∷ ps) = IsWithin p.stats q.stats × IsNested (q ∷ ps)

  -- If the four queries of the periods succeed, no count of a period on the page exceeds that of
  -- the next longer period, of 1 minute, 1 hour, 1 day and 30 days.
  pub serve_dashboard-IsNested :
      {F : Type 0} (mean : List ℤ → G) (ratio : ℤ → ℕ → G) (zero_float : G) (seconds : ℤ → ℤ)
      (query : String → String) (ok : Successes) (now : ℤ) (s : Store) (shown_at made_at : ℤ)
      (e : Engine F)
      → ok.minute ≡ true
      → ok.hour ≡ true
      → ok.day ≡ true
      → ok.month ≡ true
      → IsNested
          (serve_dashboard mean ratio zero_float seconds query ok now s shown_at made_at e).periods
  unfolding serve_dashboard four_periods period_since period
  serve_dashboard-IsNested mean ratio zero_float seconds query ok now s shown_at made_at e m h d t =
      rw (m, h, d, t)
        (
          query_stats_since-IsWithin mean _ _ (query "appliance") s
              (earlier now 60 3600 (omega arith)),
          (
            query_stats_since-IsWithin mean _ _ (query "appliance") s
                (earlier now 3600 86400 (omega arith)),
            (
              query_stats_since-IsWithin mean _ _ (query "appliance") s
                  (earlier now 86400 2592000 (omega arith)),
              tt,
            ),
          ),
        )

left_is : {a b : ℤ} → left a ≡ left b → a ≡ b
left_is e = cc

-- A time that is shown as left is not negative, if no length of at least 0 has negative seconds.
window_display-left :
    (seconds : ℤ → ℤ) (now : ℤ) (s : State) {k : ℤ}
    → ((d : ℤ) → pos 0 ≤ℤ d → pos 0 ≤ℤ seconds d)
    → (window_display seconds now s).0 ≡ left k
    → pos 0 ≤ℤ k
unfolding window_display
window_display-left seconds now s {k} h =
    let d = sub_time s.window_end_time now in
    if_cases (λ (w : WindowDisplay × (String × ℤ)). w.0 ≡ left k → pos 0 ≤ℤ k) (not s.calibrated)
      (λ _ e. cc)
      (λ _.
        if_cases (λ (w : WindowDisplay × (String × ℤ)). w.0 ≡ left k → pos 0 ≤ℤ k) s.window_active
          (λ _ e. subst (λ n. pos 0 ≤ℤ n) (left_is e) (h (floor_0 d) (ground arith))) (λ _ e. cc))

module _ {F : Type 0} where
  pub build_live_state-figures :
      (o : Floats F) (c : Config) (w : F) (max_queue : ℤ) (has_db : Bool) (seconds : ℤ → ℤ)
      (now : ℤ) {e : Engine F}
      → ((d : ℤ) → pos 0 ≤ℤ d → pos 0 ≤ℤ seconds d)
      → Reach o (fresh_server c w max_queue has_db) e
      → let v = build_live_state seconds now e in
        (v.in_flight ≡ pos (length e.active_tickets))
        × (pos 0 ≤ℤ v.available)
        × (pos 0 ≤ℤ v.shared_remaining)
        × ((k : ℤ) → v.window_display ≡ left k → pos 0 ≤ℤ k)
  unfolding build_live_state
  build_live_state-figures o c w max_queue has_db seconds now {e} h p =
      let s = server-IsSound o c w max_queue has_db p in
      (
        s.flight,
        ground arith,
        s.state_valid.shared_nonneg,
        λ k. window_display-left seconds now e.state {k = k} h,
      )
