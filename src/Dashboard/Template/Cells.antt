-- ===== src/Dashboard/Template/Cells.antt =====
-- The cells of the tables of the page in internal/dashboard/dashboard.go (dashboardHTML). A string is
-- its code points, and `utf8` gives its bytes.
use Prim.Native.Char.{code}
use ns_cas.Base.{
  ℕ, ltb, ◌+◌, ◌/◌, ◌%◌, ◌++◌, String, str_eq, List, [], ◌∷◌, Option, none, some, leb, length,
  if◌then◌else◌,
}
use ns_cas.Base.Int.{ℤ, pos, ltb_ℤ, eqb_ℤ}
use ns_cas.Messages.{Detail}
use ns_cas.Dashboard.{deref, slice_at}
use ns_cas.Dashboard.Template.{Text, words, number, bytes, Span}

-- The bytes of a code point, and of a text.
abbrev pub utf8_bytes : ℕ → List ℕ
utf8_bytes c =
    if ltb c 0x80
    then c ∷ []
    else if ltb c 0x800
    then (0xc0 + c / 64) ∷ (0x80 + c % 64) ∷ []
    else if ltb c 0x10000
    then (0xe0 + c / 4096) ∷ (0x80 + c / 64 % 64) ∷ (0x80 + c % 64) ∷ []
    else (0xf0 + c / 262144) ∷ (0x80 + c / 4096 % 64) ∷ (0x80 + c / 64 % 64) ∷ (0x80 + c % 64) ∷ []

abbrev pub utf8 : String → List ℕ
utf8 String.[] = []
utf8 (String.◌∷◌ c s) = utf8_bytes (code c) ++ utf8 s

-- {{slice s 0 6}}, on bytes: an error if there are fewer.
unfoldable pub slice_6 : String → Option (List ℕ)
slice_6 s = if leb 6 (length (utf8 s)) then some (slice_at 6 (utf8 s)).0 else none

abbrev pub as_bytes : Option (List ℕ) → Option Text
as_bytes none = none
as_bytes (some bs) = some (bytes bs)

-- {{if .Token}}{{slice .Token 0 6}}…{{else}}-{{end}}.
unfoldable pub token_cell : String → Option Text
token_cell s = if str_eq s "" then some (words "-") else as_bytes (slice_6 s)

unfoldable pub priority_cell : String → Span
priority_cell class =
    if str_eq class "P1_HIGH"
    then record { class = "tag p1"; text = words "P1" }
    else if str_eq class "P2_MEDIUM"
    then record { class = "tag p2"; text = words "P2" }
    else record { class = "tag p3"; text = words "P3" }

unfoldable pub status_code_cell : ℤ → Span
status_code_cell code =
    if eqb_ℤ code (pos 200)
    then record { class = "status-ok"; text = words "200" }
    else if eqb_ℤ code (pos 429)
    then record { class = "status-err"; text = words "429" }
    else record { class = "status-warn"; text = number code }

unfoldable pub status_cell : Option ℤ → Span
status_cell none = record { class = "status-warn"; text = words "?" }
status_cell (some code) = status_code_cell (deref (pos 0) (some code))

unfoldable pub remaining_cell : Option ℤ → Text
remaining_cell none = words "-"
remaining_cell (some n) = number (deref (pos 0) (some n))

abbrev pub usage_text : ℤ → Span
usage_text n =
    if ltb_ℤ (pos 0) n
    then record { class = "status-warn"; text = number n }
    else record { class = ""; text = words "0" }

unfoldable pub usage_cell : Option ℤ → Span
usage_cell none = record { class = ""; text = words "-" }
usage_cell (some n) = usage_text (deref (pos 0) (some n))

unfoldable pub detected_cell : String → Span
detected_cell via =
    if str_eq via "49_trigger"
    then record { class = "tag det-primary"; text = words "49-trigger" }
    else if str_eq via "ns_headers"
    then record { class = "tag det-primary"; text = words "ns-headers" }
    else if str_eq via "cas_window"
    then record { class = "tag det-fallback"; text = words "cas-window" }
    else record { class = "tag det-fallback"; text = words "fallback" }

-- The cells of a row, those first that stand before its token.
pub record LogFront : Type 0 where
  pub id : ℕ
  pub acquired_at : List ℕ
  pub appliance_id : String
  pub priority : Span
  pub status : Span
  pub remaining : Text
  pub latency : Text
  pub usage : Span
  pub acquired : List ℕ

pub record LogCells : Type 0 where
  pub front : LogFront
  pub token : List ℕ

pub record WindowFront : Type 0 where
  pub id : ℕ
  pub logged_at : List ℕ
  pub detected_via : Span
  pub window_start : List ℕ
  pub window_end : List ℕ

pub record WindowCells : Type 0 where
  pub front : WindowFront
  pub trigger_token : Text
  pub logged : List ℕ

pub record AnomalyFront : Type 0 where
  pub id : ℕ
  pub logged_at : List ℕ
  pub event_type : String
  pub appliance_id : String

pub record AnomalyCells : Type 0 where
  pub front : AnomalyFront
  pub token : Text
  pub detail : Detail
  pub logged : List ℕ
