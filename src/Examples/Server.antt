-- ===== src/Examples/Server.antt =====
-- Runs of the server: requests, reports, dispatch rounds and reaper passes.
use mathlib.Core.List.{Nodup, Nodup-cons, Nodup-nil, not-mem-nil, mem-cons}
use mathlib.Core.Logic.Or
use mathlib.Core.Bool.{false≢true}
use mathlib.Core.HLevel.{⊥_prop}
use ns_cas.Base.{ℕ, ◌≡◌, refl, sym, ◌∙◌, true, false, String, str_eq, eq_iff, [], ◌∷◌, length}
use ns_cas.Base.Int.{pos, wrap64, ◌-ℤ◌, int_laws}
use ns_cas.Dict
use ns_cas.State.{
  note_headers, consume_window_opened, adopt_remaining, adopt_policy, adopt_limit, clamp_remaining,
  was_stale,
}
use ns_cas.State.Spending.{
  can_dispatch, can_dispatch_unlocked, has_budget, roll_sustained_window, refresh_remaining,
}
use ns_cas.Policy.{
  parse_policy_window, first_window, split_on, part_window, after_prefix, trim_space, trim_right,
  trim_left,
}
use ns_cas.Queue.{has_item, has_appliance}
use ns_cas.Engine.{Engine, try_acquire, check_dispatch, add_demand, acquire_slot}
use ns_cas.Reports.{
  observe_quota, headers_from, settle, calibrate, free_slot, process_report, handle_report,
  try_report_and_acquire, next_class,
}
use ns_cas.Base.{none, some}
use ns_cas.Safety.Replay.{Later, reported, afterwards, report_once}
use ns_cas.Dispatcher.{Round, ticket_reaper}
use ns_cas.Safety.Slots.{IsSound, new-IsSound, in_flight-IsValid}
use ns_cas.Safety.System.{here, next, acquire, reaping, fresh_server, server-IsSound}
use ns_cas.Safety.Grants.{Granted, try_acquire-Granted, try_report_and_acquire-Granted}
use ns_cas.Safety.Lockdown.{IsLocked}
use ns_cas.Safety.Bootstrap.{IsCold, Attempt, attempts, cold_grants_all}
use ns_cas.Examples.Data.{
  settings, ready, ready-IsValid, at_10, whole, two_waiting, no_waiting, serving, request, held,
  plain_report,
}

-- A server whose one ticket was given to "a".
abbrev busy : Engine ℕ
busy = serving (record ready { in_flight = pos 1 }) no_waiting (("a", held) ∷ [])

server-IsSound_example :
    IsSound
      (ticket_reaper
        (pos 9)
        (try_acquire whole
          (request "a")
          "t1"
          (pos 5)
          (pos 6)
          (fresh_server settings 2 (pos 100) true)).engine).engine
server-IsSound_example =
    server-IsSound whole settings 2 (pos 100) true
      (next (next here (acquire (request "a") "t1" (pos 5) (pos 6))) (reaping (pos 9)))

busy_granted : (try_acquire whole (request "b") "t1" at_10 at_10 busy).value.token ≡ "t1"
unfolding try_acquire Dict.lookup has_appliance has_item acquire_slot check_dispatch can_dispatch
    add_demand can_dispatch_unlocked has_budget roll_sustained_window refresh_remaining wrap64 ◌-ℤ◌
busy_granted = refl

pub differ : (a b : String) → str_eq a b ≡ false → ¬ (a ≡ b)
differ a b h e = false≢true (sym h ∙ (eq_iff a b).1 e)

try_acquire-Granted_example :
    Granted
      (check_dispatch at_10 (add_demand "P2" (pos 3) busy)).0
      (try_acquire whole (request "b") "t1" at_10 at_10 busy).engine
      "b"
      (try_acquire whole (request "b") "t1" at_10 at_10 busy).value.token
try_acquire-Granted_example =
    try_acquire-Granted whole (request "b") "t1" at_10 at_10 busy refl
      (λ e. differ "t1" "" refl (sym busy_granted ∙ e))

next_granted :
    (try_report_and_acquire whole plain_report "t1" at_10 at_10 at_10 busy).value.token ≡ "t1"
unfolding try_report_and_acquire process_report observe_quota consume_window_opened note_headers
    adopt_remaining headers_from adopt_policy adopt_limit parse_policy_window first_window split_on
    part_window after_prefix settle calibrate free_slot clamp_remaining was_stale Dict.lookup
    acquire_slot check_dispatch can_dispatch add_demand can_dispatch_unlocked has_budget
    roll_sustained_window refresh_remaining wrap64 ◌-ℤ◌ trim_space trim_right trim_left
next_granted = refl

try_report_and_acquire-Granted_example :
    let before =
      (check_dispatch at_10 (
        add_demand
          (next_class plain_report)
          (pos 2)
          (process_report plain_report at_10 busy).engine)).0 in
    Granted before
      (try_report_and_acquire whole plain_report "t1" at_10 at_10 at_10 busy).engine
      "a"
      (try_report_and_acquire whole plain_report "t1" at_10 at_10 at_10 busy).value.token
try_report_and_acquire-Granted_example =
    try_report_and_acquire-Granted whole plain_report "t1" at_10 at_10 at_10 busy
      (λ e. differ "t1" "" refl (sym next_granted ∙ e))

-- A server that serves a penalty until 20 s.
abbrev penalised_server : Engine ℕ
penalised_server =
    serving (record ready { lockdown_active = true; lockdown_until = pos 20000000000 }) two_waiting
      []

abbrev one_round : Round
one_round = record { checked_at = at_10; popped_at = at_10; issued_at = at_10; fresh_token = "t2" }

penalised_server-IsLocked : IsLocked at_10 penalised_server.state
penalised_server-IsLocked = record { active = refl; early = omega int_laws }

-- A server before its first report, and two requests.
abbrev unreported : Engine ℕ
unreported = serving (record ready { calibrated = false; local_remaining = pos 1 }) no_waiting []

abbrev attempt_by : String → String → Attempt
attempt_by id tok = record {
  request = request id;
  fresh_token = tok;
  checked_at = pos 5;
  issued_at = pos 6;
}

unreported-IsCold : IsCold unreported.state
unreported-IsCold = record { uncalibrated = refl; unlocked = refl; budget = omega int_laws }

two_ids : Nodup {A = String} ("a" ∷ "b" ∷ [])
two_ids = Nodup-cons.1 (
  λ m. Or.elim ⊥_prop (mem-cons.0 m) (differ "a" "b" refl) not-mem-nil,
  Nodup-cons.1 (not-mem-nil, Nodup-nil),
)

cold_grants_all_example :
    length
      (attempts whole (attempt_by "a" "t1" ∷ attempt_by "b" "t2" ∷ []) unreported).active_tickets
    ≡ 2
cold_grants_all_example =
    cold_grants_all whole (attempt_by "a" "t1" ∷ attempt_by "b" "t2" ∷ []) unreported
      unreported-IsCold two_ids

abbrev fresh : Engine ℕ
fresh = fresh_server settings 2 (pos 100) true

fresh-IsSound : IsSound fresh
fresh-IsSound = new-IsSound settings 2 (pos 100) true

busy-IsSound : IsSound busy
busy-IsSound = record {
  state_valid = in_flight-IsValid ready (pos 1) ready-IsValid;
  flight = refl;
  distinct = Nodup-cons.1 (not-mem-nil, Nodup-nil);
}

abbrev crowded : Engine ℕ
crowded = serving ready two_waiting []

crowded-IsSound : IsSound crowded
crowded-IsSound = record {
  state_valid = ready-IsValid;
  flight = refl;
  distinct = Nodup-cons.1 (
    λ m. Or.elim ⊥_prop (mem-cons.0 m) (differ "b" "c" refl) not-mem-nil,
    Nodup-cons.1 (not-mem-nil, Nodup-nil),
  );
}

reported_ok : (process_report plain_report at_10 busy).value.ok ≡ true
unfolding process_report Dict.lookup
reported_ok = refl

-- "a" reports, and takes a new ticket; then it sends the first report again.
abbrev a_reported : Engine ℕ
a_reported = (handle_report plain_report at_10 busy).engine

abbrev a_again : Engine ℕ
a_again = (try_acquire whole (request "a") "t7" at_10 at_10 a_reported).engine

a_goes_on : Later whole plain_report busy a_again
a_goes_on =
    afterwards (reported at_10 reported_ok) (acquire (request "a") "t7" at_10 at_10)
      (differ "t7" "t0" refl)

report_once_example :
    ((process_report plain_report at_10 a_again).value.ok ≡ false)
    × ((process_report plain_report at_10 a_again).engine ≡ a_again)
report_once_example =
    report_once whole plain_report plain_report at_10 busy busy-IsSound a_goes_on refl refl

abbrev pending : Engine ℕ
pending = record busy { pending_store = some ("b", "t2") }

none_stored : Dict.lookup "b" pending.queue_tokens ≡ none
unfolding Dict.lookup
none_stored = refl
