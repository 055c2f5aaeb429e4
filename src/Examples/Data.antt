-- ===== src/Examples/Data.antt =====
-- The concrete data of the examples: whole numbers as priorities, states, requests and reports.
use native.Mathlib.Nat.{mul-le-mul_left}
use ns_cas.Base.{
  ℕ, ◌+◌, ◌*◌, ◌/◌, ◌≡◌, refl, inr, true, false, String, List, [], ◌∷◌, none, ltb, arith,
}
use ns_cas.Base.Int.{ℤ, pos, negsuc, ◌≤ℤ◌}
use ns_cas.State.{State, Config}
use ns_cas.State.Invariant.{IsValid, IsConfig}
use ns_cas.Queue.{Floats, Item, Queue}
use ns_cas.Queue.Sort.{FloatOrder}
use ns_cas.Queue.Order.{FloatMono}
use ns_cas.Messages.{AcquireRequest, Report, ActiveTicket}
use ns_cas.Engine.{Engine}

-- Whole seconds.
abbrev pub whole_seconds : ℤ → ℕ
whole_seconds (pos n) = n / 1000000000
whole_seconds (negsuc n) = 0

abbrev pub whole : Floats ℕ
whole = record {
  of_int = λ n. n;
  add = λ a b. a + b;
  mul = λ a b. a * b;
  gtb = λ a b. ltb b a;
  duration_seconds = whole_seconds;
}

pub whole-FloatOrder : FloatOrder whole
whole-FloatOrder = record { asym = λ a b h. ground arith; trans = λ a b c h k. ground arith }

seconds_monotone : (a b : ℤ) → a ≤ℤ b → ltb (whole_seconds b) (whole_seconds a) ≡ false
seconds_monotone (pos a) (pos b) h = ground arith
seconds_monotone (pos a) (negsuc b) h = ground arith
seconds_monotone (negsuc a) (pos b) h = ground arith
seconds_monotone (negsuc a) (negsuc b) h = ground arith

product_monotone : (w x y : ℕ) → ltb y x ≡ false → ltb (w * y) (w * x) ≡ false
product_monotone w x y h = ground (arith, mul-le-mul_left {m = x} {n = y} w (ground arith))

pub whole-FloatMono : FloatMono whole
whole-FloatMono = record {
  add_mono = λ a x y h. ground arith;
  mul_mono = λ w x y _ h. product_monotone w x y h;
  seconds_mono = seconds_monotone;
}

-- A calibrated server, 10 s into a burst window of 30 s, with one unit of the sustained allowance
-- used.
abbrev pub settings : Config
settings = record {
  bucket_limit = pos 50;
  policy_window_sec = pos 30;
  sustained_limit = pos 300;
  sustained_window_sec = pos 900;
  sustained_min_limit = pos 25;
  sustained_max_limit = pos 1200;
}

abbrev pub ready : State
ready = record {
  config = settings;
  bucket_limit = pos 50;
  local_remaining = pos 40;
  in_flight = pos 0;
  policy_window_sec = pos 30;
  calibrated = true;
  window_active = true;
  window_start_time = pos 1000000000;
  window_end_time = pos 31000000000;
  sustained_window_sec = pos 900;
  sustained_limit = pos 300;
  sustained_window_end = pos 901000000000;
  sustained_used = pos 1;
  penalty_in_window = false;
  penalties = pos 0;
  lockdown_active = false;
  lockdown_until = pos 0;
  window_opened = false;
  demand_sum = λ _. pos 0;
  class_remaining = λ _. pos 0;
  shared_remaining = pos 50;
}

settings-IsConfig : IsConfig settings
settings-IsConfig = record {
  bucket_pos = ground arith;
  policy_pos = ground arith;
  window_pos = ground arith;
  min_pos = ground arith;
  min-le-limit = ground arith;
  limit-le-max = ground arith;
}

pub ready-IsValid : IsValid ready
ready-IsValid = record {
  config_valid = settings-IsConfig;
  bucket_pos = ground arith;
  policy_pos = ground arith;
  window_pos = ground arith;
  min-le-limit = ground arith;
  limit-le-max = ground arith;
  used_nonneg = ground arith;
  used-le-limit = inr (ground arith);
  started_calibrated = inr refl;
  shared_nonneg = ground arith;
}

abbrev pub at_10 : ℤ
at_10 = pos 11000000000

abbrev pub waiting : String → ℤ → ℕ → Item ℕ
waiting id queued c = record {
  appliance_id = id;
  priority_class = "P2";
  base_priority = 50;
  queued_at = queued;
  backlog = pos 0;
  response_chan = c;
}

abbrev pub two_waiting : Queue ℕ
two_waiting = record {
  items = waiting "b" (pos 2000000000) 0 ∷ waiting "c" (pos 5000000000) 1 ∷ [];
  aging_weight = 2;
}

abbrev pub no_waiting : Queue ℕ
no_waiting = record { items = []; aging_weight = 2 }

abbrev pub serving : State → Queue ℕ → List (String × ActiveTicket) → Engine ℕ
serving s q tickets = record {
  state = s;
  active_tickets = tickets;
  queue = q;
  max_queue = pos 100;
  has_db = true;
  notify_pending = 0;
  chans = λ _. none;
  next_chan = 2;
  queue_tokens = [];
  pending_store = none;
}

abbrev pub request : String → AcquireRequest
request id = record { appliance_id = id; priority_class = "P2"; backlog = pos 3 }

abbrev pub held : ActiveTicket
held = record {
  token = "t0";
  appliance_id = "a";
  issued_at = pos 2000000000;
  expected_remaining = pos 39;
}

-- The report on the ticket `held`: a plain response with 39 units left.
abbrev pub plain_report : Report
plain_report = record {
  token = "t0";
  appliance_id = "a";
  priority_class = "P2";
  next_priority_class = "P1";
  backlog = pos 2;
  queued_at = pos 1000000000;
  acquired_at = pos 2000000000;
  api_sent_at = pos 3000000000;
  api_recv_at = pos 4000000000;
  ns_remaining = pos 39;
  ns_reset = pos 20;
  ns_rate_limit = pos 50;
  ns_policy = "";
  status_code = pos 200;
  retry_after = pos 0;
}
