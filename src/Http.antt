-- ===== src/Http.antt =====
-- internal/handlers/http.go. A handler runs in parts: the part up to the long poll, which takes the
-- state's lock once at most, and the part after it. The body of a request is what the JSON decoder
-- made of it: a value, or the text of its error. The times of /status are kept as they are; their text is
-- time.Format's.
pub mod Answers
pub mod Polls
pub mod Settling
pub mod Exchanges
use ns_cas.Base.{
  ℕ, ◌≡◌, Bool, true, false, ◌&&◌, ◌||◌, not, String, str_eq, List, [], ◌∷◌, Option, none, some,
  if◌then◌else◌, ◌==◌, join,
}
use ns_cas.Base.Int.{ℤ, pos, ◌-ℤ◌, ltb_ℤ, eqb_ℤ, wrap64}
use ns_cas.Dict
use ns_cas.State.{State, policy_window}
use ns_cas.Queue.{Floats, len}
use ns_cas.Messages.{Report, AcquireRequest}
use ns_cas.Engine.{Engine, Reply, Outcome, try_acquire, remove_from_queue}
use ns_cas.Reports.{try_report_and_acquire}
use ns_cas.Dispatcher.{consume_queue_token}

-- The paths that RegisterRoutes wires.
pub data Route : Type 0 where
  to_acquire to_report to_report_and_acquire to_status to_healthz : Route

unfoldable pub route : String → Option Route
route path =
    if str_eq path "/acquire"
    then some to_acquire
    else if str_eq path "/report"
    then some to_report
    else if str_eq path "/report-and-acquire"
    then some to_report_and_acquire
    else if str_eq path "/status"
    then some to_status
    else if str_eq path "/healthz"
    then some to_healthz
    else none

pub data Body (A : Type 0) : Type 0 where
  decoded : A → Body A
  undecodable : String → Body A

-- http.Error with a code and a text, a JSON object of strings, a bare code, or nothing at all.
pub data Response : Type 0 where
  error : ℕ → String → Response
  json : ℕ → List (String × String) → Response
  code_only : ℕ → Response
  unanswered : Response

-- Up to the long poll: the answer, or the channel to wait on.
pub data Answer : Type 0 where
  done : Response → Answer
  poll : Option ℕ → Answer

abbrev pub method_not_allowed : Response
method_not_allowed = error 405 "method not allowed"

abbrev pub proceed_with : String → Response
proceed_with token = json 200 (("action", "PROCEED") ∷ ("token", token) ∷ [])

abbrev pub queue_full : Response
queue_full = error 503 "{\"error\":\"queue full\"}"

-- What is left of a reply that is not an error.
abbrev pub token_or_poll : Reply → Answer
token_or_poll r = if str_eq r.token "" then poll r.ch else done (proceed_with r.token)

unfoldable pub acquire_answer : Reply → Answer
acquire_answer r =
    if r.code == 409
    then done (error 409 "{\"error\":\"appliance already holds an active ticket\"}")
    else if r.code == 503
    then done queue_full
    else token_or_poll r

unfoldable pub report_answer : Reply → Answer
report_answer r =
    if r.code == 409
    then done (error 409 "{\"error\":\"report failed: unmatched token\"}")
    else if r.code == 429
    then done (json 429 (("action", "LOCKDOWN") ∷ []))
    else if r.code == 503
    then done queue_full
    else token_or_poll r

unfoldable pub with_default_class : AcquireRequest → AcquireRequest
with_default_class req =
    if str_eq req.priority_class "" then record req { priority_class = "P2_MEDIUM" } else req

unfoldable pub has_names : Report → Bool
has_names r = not (str_eq r.token "" || str_eq r.appliance_id "")

-- What the `select` of a long poll receives.
pub data Wakeup : Type 0 where
  received : Bool → Wakeup
  timed_out disconnected : Wakeup

-- After the long poll, the same for both handlers.
unfoldable pub collected : Option String → Response
collected none = error 500 "{\"error\":\"internal error\"}"
collected (some tok) = proceed_with tok

-- The response of /report, and the report that a goroutine of its own is given.
unfoldable pub report_begin : String → Body Report → Response × Option Report
report_begin method (undecodable err) = (
  if str_eq method "POST" then error 400 (join "bad request: " err) else method_not_allowed,
  none,
)
report_begin method (decoded r) =
    if not (str_eq method "POST")
    then (method_not_allowed, none)
    else if has_names r
    then (code_only 204, some r)
    else (error 400 "bad request: token and appliance_id required", none)

module _ {F : Type 0} where
  abbrev pub unchanged : Answer → Engine F → Outcome F Answer
  unchanged a e = record { engine = e; value = a; effects = [] }

  -- A request whose body was decoded.
  unfoldable pub acquire_decoded :
      Floats F → AcquireRequest → String → ℤ → ℤ → Engine F → Outcome F Answer
  acquire_decoded o req tok now later e =
      let out = try_acquire o (with_default_class req) tok now later e in
      if str_eq req.appliance_id ""
      then unchanged (done (error 400 "bad request: appliance_id required")) e
      else record { engine = out.engine; value = acquire_answer out.value; effects = out.effects }

  unfoldable pub acquire_begin :
      Floats F → String → Body AcquireRequest → String → ℤ → ℤ → Engine F → Outcome F Answer
  acquire_begin o method (undecodable err) tok now later e =
      if str_eq method "POST"
      then unchanged (done (error 400 "bad request: appliance_id required")) e
      else unchanged (done method_not_allowed) e
  acquire_begin o method (decoded req) tok now later e =
      let out = acquire_decoded o req tok now later e in
      if str_eq method "POST" then out else unchanged (done method_not_allowed) e

  unfoldable pub poll_end : String → Wakeup → Engine F → Engine F × Response
  poll_end id (received true) e = let (t, found) = consume_queue_token id e in (t, collected found)
  poll_end id (received false) e =
      (remove_from_queue id e, error 503 "{\"error\":\"no slot available\"}")
  poll_end id timed_out e =
      (remove_from_queue id e, error 503 "{\"error\":\"timeout waiting for slot\"}")
  poll_end id disconnected e = (remove_from_queue id e, unanswered)

  unfoldable pub report_and_acquire_decoded :
      Floats F → Report → String → ℤ → ℤ → ℤ → Engine F → Outcome F Answer
  report_and_acquire_decoded o r tok reported now later e =
      let out = try_report_and_acquire o r tok reported now later e in
      if has_names r
      then record { engine = out.engine; value = report_answer out.value; effects = out.effects }
      else unchanged (done (error 400 "bad request: token and appliance_id required")) e

  unfoldable pub report_and_acquire_begin :
      Floats F → String → Body Report → String → ℤ → ℤ → ℤ → Engine F → Outcome F Answer
  report_and_acquire_begin o method (undecodable err) tok reported now later e =
      if str_eq method "POST"
      then unchanged (done (error 400 (join "bad request: " err))) e
      else unchanged (done method_not_allowed) e
  report_and_acquire_begin o method (decoded r) tok reported now later e =
      let out = report_and_acquire_decoded o r tok reported now later e in
      if str_eq method "POST" then out else unchanged (done method_not_allowed) e

-- GET /healthz.
unfoldable pub handle_healthz : Response
handle_healthz = json 200 (("status", "ok") ∷ [])

-- GET /status.
pub record Status : Type 0 where
  pub calibrated : Bool
  pub bucket_limit : ℤ
  pub local_remaining : ℤ
  pub in_flight : ℤ
  pub available : ℤ
  pub queue_depth : ℕ
  pub lockdown_active : Bool
  pub lockdown_until : Option ℤ
  pub window_active : Bool
  pub window_end_time : Option ℤ
  pub policy_window_sec : ℤ
  pub active_appliances : List String
  pub sustained_limit : ℤ
  pub sustained_baseline : ℤ
  pub sustained_used : ℤ
  pub sustained_remaining : ℤ
  pub sustained_window_sec : ℤ
  pub sustained_window_end : Option ℤ
  pub penalties : ℤ

abbrev pub floor_0 : ℤ → ℤ
floor_0 n = if ltb_ℤ n (pos 0) then pos 0 else n

abbrev pub when : Bool → ℤ → Option ℤ
when b t = if b then some t else none

module _ {F : Type 0} where
  unfoldable pub status_of : Engine F → Status
  status_of e = record {
    calibrated = e.state.calibrated;
    bucket_limit = e.state.bucket_limit;
    local_remaining = e.state.local_remaining;
    in_flight = e.state.in_flight;
    available = floor_0 (wrap64 (e.state.local_remaining -ℤ e.state.in_flight));
    queue_depth = len e.queue;
    lockdown_active = e.state.lockdown_active;
    lockdown_until = when e.state.lockdown_active e.state.lockdown_until;
    window_active = e.state.window_active;
    window_end_time = when e.state.window_active e.state.window_end_time;
    policy_window_sec = policy_window e.state;
    active_appliances = Dict.keys e.active_tickets;
    sustained_limit = e.state.sustained_limit;
    sustained_baseline = e.state.config.sustained_limit;
    sustained_used = e.state.sustained_used;
    sustained_remaining = floor_0 (wrap64 (e.state.sustained_limit -ℤ e.state.sustained_used));
    sustained_window_sec = e.state.sustained_window_sec;
    sustained_window_end =
        when (not (eqb_ℤ e.state.sustained_window_end (pos 0))) e.state.sustained_window_end;
    penalties = e.state.penalties;
  }

  -- `none` is the refusal of a method other than GET.
  unfoldable pub handle_status : String → Engine F → Option Status
  handle_status method e = if str_eq method "GET" then some (status_of e) else none
