-- ===== src/Store/Totals.antt =====
-- QueryStats and QueryStatsSince of internal/db/db.go. AVG is a parameter,
-- the mean as a float; a sum is exact, since SQLite refuses one that overflows.
use ns_cas.Base.{
  ℕ, suc, ◌+◌, ◌≤◌, ◌≡◌, refl, ap, subst, Bool, true, false, ◌&&◌, ◌||◌, not, String, str_eq, List,
  [], ◌∷◌, none, some, if◌then◌else◌, arith,
}
use ns_cas.Base.Int.{ℤ, pos, ◌≤ℤ◌, ◌+ℤ◌, leb_ℤ, ltb_ℤ, eqb_ℤ}
use ns_cas.Store.{Row, LogRow, Store}

-- The CASE tests.
unfoldable pub is_429 : LogRow → Bool
is_429 r = eqb_ℤ r.status_code (pos 429)

unfoldable pub is_4xx : LogRow → Bool
is_4xx r =
    leb_ℤ (pos 400) r.status_code
    && ltb_ℤ r.status_code (pos 500)
    && not (eqb_ℤ r.status_code (pos 429))

unfoldable pub is_5xx : LogRow → Bool
is_5xx r = leb_ℤ (pos 500) r.status_code && ltb_ℤ r.status_code (pos 600)

unfoldable pub count_if : (LogRow → Bool) → List (Row LogRow) → ℕ
count_if test [] = 0
count_if test (r ∷ rs) = let rest = count_if test rs in if test r.value then suc rest else rest

unfoldable pub sum_usage : List (Row LogRow) → ℤ
sum_usage [] = pos 0
sum_usage (r ∷ rs) = r.value.implied_legacy_usage +ℤ sum_usage rs

abbrev pub any_row : LogRow → Bool
any_row r = true

-- Stats and PeriodStats, which have the same fields.
pub record Stats (F : Type 0) : Type 0 where
  pub total_requests : ℕ
  pub total_legacy_usage : ℤ
  pub total_429s : ℕ
  pub total_4xx : ℕ
  pub total_5xx : ℕ
  pub avg_latency_ms : F

unfoldable pub select_rows : (LogRow → Bool) → List (Row LogRow) → List (Row LogRow)
select_rows test [] = []
select_rows test (r ∷ rs) =
    let rest = select_rows test rs in if test r.value then r ∷ rest else rest

-- api_recv_at >= ?, which NULL does not satisfy, AND appliance_id = ? for a name.
unfoldable pub is_recent : ℤ → String → LogRow → Bool
is_recent since appliance r =
    elim r.api_recv_at [ none ↦ false | some t ↦ leb_ℤ since t ]
    && (str_eq appliance "" || str_eq r.appliance_id appliance)

module _ {F : Type 0} (average : List ℤ → F) where
  unfoldable pub latencies : List (Row LogRow) → List ℤ
  latencies [] = []
  latencies (r ∷ rs) = r.value.estimated_latency_ms ∷ latencies rs

  unfoldable pub stats_of : List (Row LogRow) → Stats F
  stats_of rows = record {
    total_requests = count_if any_row rows;
    total_legacy_usage = sum_usage rows;
    total_429s = count_if is_429 rows;
    total_4xx = count_if is_4xx rows;
    total_5xx = count_if is_5xx rows;
    avg_latency_ms = average (latencies rows);
  }

  unfoldable pub query_stats : Store → Stats F
  query_stats s = stats_of s.api_logs.rows

  unfoldable pub query_stats_since : ℤ → String → Store → Stats F
  query_stats_since since appliance s =
      stats_of (select_rows (is_recent since appliance) s.api_logs.rows)

-- The codes of the three tests are apart.
classes_apart :
    (rows : List (Row LogRow))
    → count_if is_429 rows + count_if is_4xx rows + count_if is_5xx rows ≤ count_if any_row rows
unfolding count_if is_429 is_4xx is_5xx
classes_apart [] = omega arith
classes_apart (r ∷ rows) = ground (arith, classes_apart rows)

-- Rows that pass one test count as much at most as rows that pass a weaker one.
select_rows_mono :
    (of : LogRow → Bool) (t u : LogRow → Bool) (rows : List (Row LogRow))
    → ((r : LogRow) → t r ≡ true → u r ≡ true)
    → count_if of (select_rows t rows) ≤ count_if of (select_rows u rows)
unfolding count_if select_rows
select_rows_mono of t u [] h = omega arith
select_rows_mono of t u (r ∷ rows) h = ground (arith, select_rows_mono of t u rows h, h r.value)

select_all : (rows : List (Row LogRow)) → select_rows any_row rows ≡ rows
unfolding select_rows
select_all [] = refl
select_all (r ∷ rows) = ap (◌∷◌ r) (select_all rows)

is_recent_mono :
    (since later : ℤ) (appliance : String) (r : LogRow)
    → since ≤ℤ later
    → is_recent later appliance r ≡ true
    → is_recent since appliance r ≡ true
unfolding is_recent
is_recent_mono since later appliance r h e = ground arith

-- The order of the counts of two figures.
abbrev pub IsWithin : {F : Type 0} → Stats F → Stats F → Type 0
IsWithin p s =
    (p.total_requests ≤ s.total_requests)
    × (p.total_429s ≤ s.total_429s)
    × (p.total_4xx ≤ s.total_4xx)
    × (p.total_5xx ≤ s.total_5xx)

module _ {F : Type 0} (average : List ℤ → F) where
  stats_of_mono :
      (t u : LogRow → Bool) (rows : List (Row LogRow))
      → ((r : LogRow) → t r ≡ true → u r ≡ true)
      → IsWithin (stats_of average (select_rows t rows)) (stats_of average (select_rows u rows))
  unfolding stats_of
  stats_of_mono t u rows h = (
    select_rows_mono any_row t u rows h,
    select_rows_mono is_429 t u rows h,
    select_rows_mono is_4xx t u rows h,
    select_rows_mono is_5xx t u rows h,
  )

  pub query_stats_since-IsWithin :
      (since later : ℤ) (appliance : String) (s : Store)
      → since ≤ℤ later
      → IsWithin
          (query_stats_since average later appliance s)
          (query_stats_since average since appliance s)
  unfolding query_stats_since
  query_stats_since-IsWithin since later appliance s h =
      stats_of_mono (is_recent later appliance) (is_recent since appliance) s.api_logs.rows
        (λ r. is_recent_mono since later appliance r h)

  -- In the figures of QueryStats and of QueryStatsSince, the 429 responses, the other 4xx and the
  -- 5xx together are at most the requests, and none of the counts since a time and for an
  -- appliance exceeds the count of all time.
  pub query_stats-bounds :
      (since : ℤ) (appliance : String) (s : Store)
      → let all = query_stats average s in
        let p = query_stats_since average since appliance s in
        (all.total_429s + all.total_4xx + all.total_5xx ≤ all.total_requests)
        × (p.total_429s + p.total_4xx + p.total_5xx ≤ p.total_requests)
        × IsWithin p all
  unfolding query_stats query_stats_since stats_of
  query_stats-bounds since appliance s =
      let rows = s.api_logs.rows in
      let test = is_recent since appliance in
      (
        classes_apart rows,
        classes_apart (select_rows test rows),
        subst (λ all. IsWithin (stats_of average (select_rows test rows)) (stats_of average all))
            (select_all rows) (stats_of_mono test any_row rows (λ r _. refl)),
      )
