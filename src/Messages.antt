-- ===== src/Messages.antt =====
-- The requests and reports of internal/handlers/engine.go, and what the engine hands to the
-- analytics database (internal/db/db.go) and to the subscribers. The writes run in goroutines of
-- their own and return nothing, so each is an effect in the order in which it is started.
use ns_cas.Base.{◌+◌, ◌^◌, ◌-◌, ◌/◌, Bool, ◌||◌, String, List, [], ◌∷◌, if◌then◌else◌}
use ns_cas.Base.Int.{ℤ, pos, negsuc, ◌-ℤ◌, ltb_ℤ, eqb_ℤ, sub_ℕ}

pub record Report : Type 0 where
  pub token : String
  pub appliance_id : String
  pub priority_class : String
  pub next_priority_class : String
  pub backlog : ℤ
  pub queued_at : ℤ
  pub acquired_at : ℤ
  pub api_sent_at : ℤ
  pub api_recv_at : ℤ
  pub ns_remaining : ℤ
  pub ns_reset : ℤ
  pub ns_rate_limit : ℤ
  pub ns_policy : String
  pub status_code : ℤ
  pub retry_after : ℤ

pub record AcquireRequest : Type 0 where
  pub appliance_id : String
  pub priority_class : String
  pub backlog : ℤ

pub record ActiveTicket : Type 0 where
  pub token : String
  pub appliance_id : String
  pub issued_at : ℤ
  pub expected_remaining : ℤ

-- EstimatedLatencyMs is a float64 in the source; it holds a whole number of milliseconds, below
-- 2 ^ 53, and so is an integer here.
pub record LogEntry : Type 0 where
  pub token : String
  pub appliance_id : String
  pub priority_class : String
  pub queued_at : ℤ
  pub acquired_at : ℤ
  pub api_sent_at : ℤ
  pub api_recv_at : ℤ
  pub ns_remaining : ℤ
  pub ns_reset : ℤ
  pub status_code : ℤ
  pub estimated_latency_ms : ℤ
  pub expected_remaining : ℤ
  pub implied_legacy_usage : ℤ

pub record WindowEntry : Type 0 where
  pub window_start : ℤ
  pub window_end : ℤ
  pub detected_via : String
  pub trigger_token : String

-- The values that the detail text of an anomaly is formatted from.
pub data Detail : Type 0 where
  known_token : String → Detail
  budget : ℤ → ℤ → ℤ → ℤ → ℤ → Detail
  age_ms : ℤ → Detail

pub data Effect : Type 0 where
  write_log : LogEntry → Effect
  write_window : WindowEntry → Effect
  write_anomaly : String → String → String → Detail → Effect
  broadcast : Effect

-- recordLog, recordWindow and recordAnomaly do nothing without a database.
unfoldable pub record_effect : Bool → Effect → List Effect
record_effect has_db e = if has_db then e ∷ [] else []

-- time.Time.Sub stops at the ends of int64.
unfoldable pub sub_time : ℤ → ℤ → ℤ
sub_time a b =
    let d = a -ℤ b in
    if ltb_ℤ (pos (2 ^ 63 - 1)) d
    then pos (2 ^ 63 - 1)
    else if ltb_ℤ d (negsuc (2 ^ 63 - 1))
    then negsuc (2 ^ 63 - 1)
    else d

-- time.Duration.Milliseconds, which rounds towards 0.
unfoldable pub milliseconds : ℤ → ℤ
milliseconds (pos n) = pos (n / 10 ^ 6)
milliseconds (negsuc n) = sub_ℕ 0 ((n + 1) / 10 ^ 6)

unfoldable pub latency_ms : ℤ → ℤ → ℤ
latency_ms sent recv =
    if eqb_ℤ sent (pos 0) || eqb_ℤ recv (pos 0) then pos 0 else milliseconds (sub_time recv sent)

unfoldable pub build_entry : Report → ActiveTicket → ℤ → LogEntry
build_entry r ticket implied_legacy = record {
  token = r.token;
  appliance_id = r.appliance_id;
  priority_class = r.priority_class;
  queued_at = r.queued_at;
  acquired_at = r.acquired_at;
  api_sent_at = r.api_sent_at;
  api_recv_at = r.api_recv_at;
  ns_remaining = r.ns_remaining;
  ns_reset = r.ns_reset;
  status_code = r.status_code;
  estimated_latency_ms = latency_ms r.api_sent_at r.api_recv_at;
  expected_remaining = ticket.expected_remaining;
  implied_legacy_usage = implied_legacy;
}
