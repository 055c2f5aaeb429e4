-- ===== src/Dashboard/Template/Complete.antt =====
-- When the template of internal/dashboard/dashboard.go comes to its end.
use ns_cas.Base.{
  ℕ, ◌≤◌, ◌≡◌, refl, sym, ◌∙◌, Bool, true, false, String, str_eq, eq_iff, List, [], ◌∷◌, Option,
  none, some, leb, length, All, All-mono, Bool-cases, inl, inr, ◌⊎◌, ◌↔◌, arith,
}
use ns_cas.Base.Int.{ℤ}
use ns_cas.Store.{Row, LogRow, WindowRow, AnomalyRow}
use ns_cas.Dashboard.{Page}
use ns_cas.Dashboard.Template.Tables.{
  Rendered, row_written, row_cut, finish_row, Rows, next_row, range_rows, Section, is_uncut,
  is_finished, section, section_after, log_cells, window_cells, anomaly_cells, execute,
}
use ns_cas.Dashboard.Template.Cells.{utf8, slice_6, as_bytes, token_cell}

-- At least six bytes.
abbrev pub IsSliced : String → Type 0
IsSliced s = 6 ≤ length (utf8 s)

abbrev pub IsShown : String → Type 0
IsShown s = (s ≡ "") ⊎ IsSliced s

abbrev is_some : {A : Type 0} → Option A → Bool
is_some none = false
is_some (some a) = true

abbrev is_written : {A B : Type 0} → Rendered A B → Bool
is_written (row_written row) = true
is_written (row_cut front) = false

is_written-finish_row :
    {A B C : Type 0} (front : A) (row : C → B) (token : Option C)
    → is_written (finish_row front row token) ≡ is_some token
is_written-finish_row front row none = refl
is_written-finish_row front row (some token) = refl

is_some-as_bytes : (v : Option (List ℕ)) → is_some (as_bytes v) ≡ is_some v
is_some-as_bytes none = refl
is_some-as_bytes (some bs) = refl

slice_6-some : (s : String) → (is_some (slice_6 s) ≡ true) ↔ IsSliced s
unfolding slice_6
slice_6-some s = elim (Bool-cases (leb 6 (length (utf8 s)))) [
  | inl hit ↦ (λ h. ground (arith, hit), λ h. rw hit refl)
  | inr miss ↦ (λ h. cc (rw miss at h), λ h. ground (arith, miss, h))
]

pub IsSliced-of : (s : String) → IsShown s → str_eq s "" ≡ false → IsSliced s
IsSliced-of s (inl e) miss = cc ((eq_iff s "").1 e, miss)
IsSliced-of s (inr h) miss = h

token_cell-some : (s : String) → (is_some (token_cell s) ≡ true) ↔ IsShown s
unfolding token_cell
token_cell-some s = elim (Bool-cases (str_eq s "")) [
  | inl hit ↦ (λ h. inl ((eq_iff s "").0 hit), λ h. rw hit refl)
  | inr miss ↦ (
    λ h. inr ((slice_6-some s).0 (sym (is_some-as_bytes (slice_6 s)) ∙ (rw miss at h))),
    λ h. rw miss (is_some-as_bytes (slice_6 s) ∙ (slice_6-some s).1 (IsSliced-of s h miss)),
  )
]

module _ {A B C : Type 0} (cells : C → Rendered A B) where
  abbrev AreWritten : List C → Type 0
  AreWritten = All (λ row. is_written (cells row) ≡ true)

  next_row-finished :
      (cs : Rendered A B) (rest : Rows A B)
      → (is_uncut (next_row cs rest).cut ≡ true)
        ↔ (is_written cs ≡ true) × (is_uncut rest.cut ≡ true)
  next_row-finished (row_cut front) rest = (λ h. cc, λ h. h.0)
  next_row-finished (row_written row) rest = (λ h. (refl, h), λ h. h.1)

  range_rows-finished :
      (rows : List C) → (is_uncut (range_rows cells rows).cut ≡ true) ↔ AreWritten rows
  unfolding range_rows
  range_rows-finished [] = (λ h. tt, λ h. refl)
  range_rows-finished (row ∷ rows) =
      let n = next_row-finished (cells row) (range_rows cells rows) in
      let r = range_rows-finished rows in
      (λ h. let p = n.0 h in (p.0, r.0 p.1), λ h. n.1 (h.0, r.1 h.1))

  section-finished :
      (line : String) (rows : List C)
      → (is_finished (section line cells rows) ≡ true) ↔ AreWritten rows
  unfolding section
  section-finished line [] = (λ h. tt, λ h. refl)
  section-finished line (row ∷ rows) = range_rows-finished (row ∷ rows)

section_after-finished :
    {A B : Type 0} (finished : Bool) (next : Section A B)
    → (is_finished (section_after finished next) ≡ true)
      ↔ (finished ≡ true) × (is_finished next ≡ true)
unfolding section_after
section_after-finished true next = (λ h. (refl, h), λ h. h.1)
section_after-finished false next = (λ h. cc, λ h. h.0)

All-iff :
    {A : Type 0} (P Q : A → Type 0) → ((a : A) → P a ↔ Q a) → (xs : List A) → All P xs ↔ All Q xs
All-iff P Q f xs = (All-mono P Q (λ a. (f a).0) xs, All-mono Q P (λ a. (f a).1) xs)

iff_trans : {A B C : Type 0} → A ↔ B → B ↔ C → A ↔ C
iff_trans p q = (λ a. q.0 (p.0 a), λ c. p.1 (q.1 c))

module _ (show_time : ℤ → List ℕ) (show_whole : ℤ → String) where
  logs-finished :
      (line : String) (rows : List (Row LogRow))
      → (is_finished (section line (log_cells show_time show_whole) rows) ≡ true)
        ↔ All (λ r. IsSliced r.value.token) rows
  unfolding log_cells
  logs-finished line rows = iff_trans (section-finished _ line rows) (
      All-iff _ _
        (λ (r : Row LogRow).
          rw (is_written-finish_row _ _ (slice_6 r.value.token)) (slice_6-some r.value.token))
        rows)

  windows-finished :
      (line : String) (rows : List (Row WindowRow))
      → (is_finished (section line (window_cells show_time show_whole) rows) ≡ true)
        ↔ All (λ r. IsShown r.value.trigger_token) rows
  unfolding window_cells
  windows-finished line rows = iff_trans (section-finished _ line rows) (
      All-iff _ _
        (λ (r : Row WindowRow).
          rw (is_written-finish_row _ _ (token_cell r.value.trigger_token))
            (token_cell-some r.value.trigger_token))
        rows)

  anomalies-finished :
      (line : String) (rows : List (Row AnomalyRow))
      → (is_finished (section line (anomaly_cells show_time show_whole) rows) ≡ true)
        ↔ All (λ r. IsShown r.value.token) rows
  unfolding anomaly_cells
  anomalies-finished line rows = iff_trans (section-finished _ line rows) (
      All-iff _ _
        (λ (r : Row AnomalyRow).
          rw (is_written-finish_row _ _ (token_cell r.value.token)) (token_cell-some r.value.token))
        rows)

-- The template comes to its end exactly if the token of every log row has at least six bytes, and
-- the token of every window row and every anomaly row is empty or has at least six bytes.
pub execute-finished :
    {G : Type 0} (show_time : ℤ → List ℕ) (show_whole : ℤ → String) (show_tenths : G → String)
    (page : Page G)
    → ((execute show_time show_whole show_tenths page).finished ≡ true)
      ↔ All (λ r. IsSliced r.value.token) page.logs
        × All (λ r. IsShown r.value.trigger_token) page.windows
        × All (λ r. IsShown r.value.token) page.anomalies
unfolding execute
execute-finished show_time show_whole show_tenths page =
    let logs = logs-finished show_time show_whole "No requests recorded yet" page.logs in
    let windows = windows-finished show_time show_whole "No window detections yet" page.windows in
    let anomalies =
      anomalies-finished show_time show_whole "No anomalies recorded" page.anomalies in
    let second =
      section_after-finished _
        (section "No window detections yet" (window_cells show_time show_whole) page.windows) in
    let third =
      section_after-finished _
        (section "No anomalies recorded" (anomaly_cells show_time show_whole) page.anomalies) in
    (
      λ h.
          let p = third.0 h in let q = second.0 p.0 in (logs.0 q.0, windows.0 q.1, anomalies.0 p.1),
      λ h. third.1 (second.1 (logs.1 h.0, windows.1 h.1), anomalies.1 h.2),
    )
