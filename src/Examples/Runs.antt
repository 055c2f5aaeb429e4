-- ===== src/Examples/Runs.antt =====
-- Runs of the server from its start.
use mathlib.Core.List.{Mem, Sublist}
use ns_cas.Base.{
  ◌^◌, ◌*◌, ◌+◌, ◌≤◌, Option, String, ℕ, length, ◌≡◌, ◌≢◌, refl, sym, ◌∙◌, true, false, some, none,
  List, [], ◌∷◌, arith, ◌<◌,
}
use ns_cas.Base.Int.{◌≤ℤ◌, int_laws, pos, wrap64, ◌-ℤ◌, ◌+ℤ◌}
use ns_cas.Engine.{Engine, try_acquire}
use ns_cas.Reports.{handle_report}
use ns_cas.Queue.{Item, len, enqueue}
use ns_cas.Dict
use ns_cas.Messages.{ActiveTicket, Report}
use ns_cas.Dispatcher.{
  store_queue_token, consume_queue_token, shut_down, Round, Turn, resume, resume_after, stop, again,
  dispatch_round, dispatch_pass,
}
use ns_cas.Safety.System.{Reach, here, next, acquire, report, fresh_server}
use ns_cas.Safety.Lockdown.Penalty.{PenaltyRun, locked, still_locked, penalty_grants_nothing}
use ns_cas.Safety.Quiet.{QuietReach, calm, and_then, quiet_stays_covered}
use ns_cas.Safety.Work.{Ends, dispatch_pass-Ends}
use ns_cas.Safety.Pass.{Admits, no_turn, first_turn, store_queue_token-queue, dispatch_pass_stops}
use ns_cas.Queue.Waiting.{len-enqueue}
use ns_cas.Safety.Wiring.Background.{IsTold, dispatch_round-IsTold}
use ns_cas.Safety.Wiring.Collect.{told_collects}
use ns_cas.Safety.Wiring.Shutdown.{IsDrained, shut_down-IsDrained}
use ns_cas.Ledger.{Kind, Asked, Moves}
use ns_cas.Ledger.Requests.{ledger}
use ns_cas.Ledger.Simulation.{server_refines_ledger}
use ns_cas.Examples.Web.{one_ticket, ticket_of_a}
use ns_cas.Examples.Data.{
  settings, ready, whole, two_waiting, waiting, serving, request, plain_report, at_10,
}

abbrev some_round : Round
some_round = record { checked_at = at_10; popped_at = at_10; issued_at = at_10; fresh_token = "t2" }

-- Two waiters, and turns for four rounds, during the first of which "d" joins.
abbrev crowd : Engine ℕ
crowd = serving ready two_waiting []

abbrev quiet_turn : Turn ℕ
quiet_turn = record { readings = some_round; before_store = λ e. e; after_store = λ e. e }

abbrev joining : Turn ℕ
joining = record quiet_turn {
  after_store = λ e. record e { queue = enqueue (waiting "d" (pos 9) 2) e.queue };
}

abbrev four_turns : List (Turn ℕ)
four_turns = joining ∷ quiet_turn ∷ quiet_turn ∷ quiet_turn ∷ []

none_new :
    (held : Option (String × String)) (e : Engine ℕ)
    → len (resume_after held quiet_turn e).queue ≤ len e.queue + 0
none_new none e = omega arith
none_new (some entry) e = rw (store_queue_token-queue e) (omega arith)

nobody_joins : (e : Engine ℕ) → len (resume quiet_turn e).queue ≤ len e.queue + 0
nobody_joins e = none_new e.pending_store e

one_new :
    (held : Option (String × String)) (e : Engine ℕ)
    → len (resume_after held joining e).queue ≤ len e.queue + 1
one_new none e = omega arith
one_new (some entry) e =
    rw (len-enqueue (waiting "d" (pos 9) 2) (store_queue_token e).queue, store_queue_token-queue e)
      (omega arith)

one_joins : (e : Engine ℕ) → len (resume joining e).queue ≤ len e.queue + 1
one_joins e = one_new e.pending_store e

one_newcomer : Admits 1 four_turns
one_newcomer =
    first_turn 1 one_joins
      (first_turn 0 nobody_joins (first_turn 0 nobody_joins (first_turn 0 nobody_joins no_turn)))

two_wait : len crowd.queue + 1 < 4
unfolding len
two_wait = omega arith

dispatch_pass_stops_example : (dispatch_pass whole four_turns crowd).1 ≡ stop
dispatch_pass_stops_example = dispatch_pass_stops whole four_turns crowd one_newcomer two_wait

dispatch_pass-Ends_example : Ends whole four_turns crowd (dispatch_pass whole four_turns crowd).0
dispatch_pass-Ends_example = dispatch_pass-Ends whole four_turns crowd one_newcomer two_wait

abbrev start : Engine ℕ
start = fresh_server settings 2 (pos 100) true

abbrev first_request : Engine ℕ
first_request = (try_acquire whole (request "a") "t1" (pos 5) (pos 6) start).engine

abbrev second_request : Engine ℕ
second_request = (try_acquire whole (request "b") "t2" (pos 7) (pos 8) first_request).engine

first_reached : Reach whole start first_request
first_reached = next here (acquire (request "a") "t1" (pos 5) (pos 6))

server_refines_ledger_example :
    (ks : List Kind) × Asked "b" ks × Moves (ledger first_request) ks (ledger second_request)
server_refines_ledger_example =
    server_refines_ledger whole settings 2 (pos 100) true first_reached
      (acquire (request "b") "t2" (pos 7) (pos 8))

-- The report of "a" is a penalty of 5 s; "b" then has to wait, and is served long after.
abbrev pub penalty : Report
penalty = record plain_report { token = "t1"; status_code = pos 429; retry_after = pos 5 }

abbrev punished : Engine ℕ
punished = (handle_report penalty (pos 20) first_request).engine

abbrev queued : Engine ℕ
queued = (try_acquire whole (request "b") "t2" (pos 30) (pos 40) punished).engine

queued_reached : Reach whole start queued
queued_reached =
    next (next first_reached (report penalty (pos 20)))
      (acquire (request "b") "t2" (pos 30) (pos 40))

abbrev late_round : Round
late_round = record {
  checked_at = pos 10000000000000;
  popped_at = pos 10000000000000;
  issued_at = pos 10000000000000;
  fresh_token = "t3";
}

served_late : (dispatch_round whole late_round queued).1 ≡ again
unfolding ns_cas.State.clamp_config ns_cas.State.new_of ns_cas.State.new ns_cas.State.seconds
    ns_cas.State.reset_class_budgets ns_cas.State.open_window ns_cas.State.adopt_limit
    ns_cas.State.adopt_policy ns_cas.State.was_stale ns_cas.State.adopt_remaining
    ns_cas.State.note_headers ns_cas.State.Spending.refresh_remaining
    ns_cas.State.Spending.restart_sustained ns_cas.State.Spending.roll_sustained_window
    ns_cas.State.Spending.has_budget ns_cas.State.Spending.can_dispatch_unlocked
    ns_cas.State.Spending.can_dispatch ns_cas.State.Spending.deduct_sustained
    ns_cas.State.Spending.has_class_quota ns_cas.State.Spending.has_shared_quota
    ns_cas.State.Penalties.halve ns_cas.State.Penalties.cut_limit
    ns_cas.State.Penalties.note_penalty ns_cas.Queue.new ns_cas.Queue.len ns_cas.Queue.enqueue
    ns_cas.Queue.pop_best ns_cas.Queue.sort_by_effective ns_cas.Queue.sort_slice_stable
    ns_cas.Queue.insert_item ns_cas.Messages.sub_time ns_cas.Queue.has_item
    ns_cas.Queue.has_appliance ns_cas.Engine.new_engine ns_cas.Engine.count_grant
    ns_cas.Engine.new_ticket ns_cas.Engine.try_acquire ns_cas.Engine.acquire_slot
    ns_cas.Engine.check_dispatch ns_cas.Engine.add_demand ns_cas.Engine.add_waiter
    ns_cas.Engine.issue_ticket ns_cas.Engine.notify ns_cas.Reports.headers_from
    ns_cas.Reports.calibrate ns_cas.Reports.free_slot ns_cas.Reports.settle
    ns_cas.Reports.serve_penalty ns_cas.Reports.process_report ns_cas.Reports.handle_report
    ns_cas.Dispatcher.pay_quota ns_cas.Dispatcher.dispatch_round ns_cas.Policy.trim_left
    ns_cas.Policy.trim_right ns_cas.Policy.trim_space ns_cas.Policy.split_on
    ns_cas.Policy.after_prefix ns_cas.Policy.part_window ns_cas.Policy.first_window
    ns_cas.Policy.parse_policy_window ns_cas.Classes.normalise_class ns_cas.Classes.allocate
    ns_cas.Classes.shared_of ns_cas.Dict.lookup ns_cas.Dict.erase ns_cas.Dict.insert
    ns_cas.Base.Int.◌+ℤ◌ ns_cas.Base.Int.◌-ℤ◌ ns_cas.Base.Int.wrap64 ns_cas.Base.Int.scale
    ns_cas.Float64.floor_product ns_cas.Float64.product_bits ns_cas.Float64.round53
    ns_cas.Float64.round_share ns_cas.Float64.round_share_ℕ ns_cas.Float64.quotient_bits
served_late = refl

dispatch_round-IsTold_example :
    (item : Item ℕ) × Mem item queued.queue.items
    × IsTold item "t3" (dispatch_round whole late_round queued).0
dispatch_round-IsTold_example =
    dispatch_round-IsTold whole settings 2 (pos 100) true late_round queued_reached served_late

told_collects_example :
    let t = (dispatch_round whole late_round queued).0 in
    (item : Item ℕ) × Mem item queued.queue.items
    × ((ticket : ActiveTicket) × (Dict.lookup item.appliance_id t.active_tickets ≡ some ticket)
        × (ticket.token ≡ "t3"))
    × ((consume_queue_token item.appliance_id (store_queue_token t)).1 ≡ some "t3")
    × ((consume_queue_token item.appliance_id t).1
        ≡ Dict.lookup item.appliance_id queued.queue_tokens)
told_collects_example =
    told_collects whole settings 2 (pos 100) true late_round queued_reached served_late

shut_down-IsDrained_example : IsDrained queued (shut_down queued)
shut_down-IsDrained_example = shut_down-IsDrained whole settings 2 (pos 100) true queued_reached

-- The report of "a" calibrates the server; then "b" asks.
abbrev plain : Report
plain = record plain_report { token = "t1" }

abbrev calm_server : Engine ℕ
calm_server = (handle_report plain (pos 20) first_request).engine

calm_reached : Reach whole start calm_server
calm_reached = next first_reached (report plain (pos 20))

calm_figures :
    (calm_server.state.calibrated ≡ true)
    × (calm_server.state.in_flight ≡ pos 0)
    × (calm_server.state.local_remaining ≡ pos 39)
    × (calm_server.state.bucket_limit ≡ pos 50)
unfolding ns_cas.State.clamp_config ns_cas.State.new_of ns_cas.State.new ns_cas.State.seconds
    ns_cas.State.reset_class_budgets ns_cas.State.open_window ns_cas.State.adopt_limit
    ns_cas.State.adopt_policy ns_cas.State.was_stale ns_cas.State.adopt_remaining
    ns_cas.State.note_headers ns_cas.State.Spending.refresh_remaining
    ns_cas.State.Spending.restart_sustained ns_cas.State.Spending.roll_sustained_window
    ns_cas.State.Spending.has_budget ns_cas.State.Spending.can_dispatch_unlocked
    ns_cas.State.Spending.can_dispatch ns_cas.State.Spending.deduct_sustained
    ns_cas.State.Spending.has_class_quota ns_cas.State.Spending.has_shared_quota
    ns_cas.State.Penalties.halve ns_cas.State.Penalties.cut_limit
    ns_cas.State.Penalties.note_penalty ns_cas.Queue.new ns_cas.Queue.len ns_cas.Queue.enqueue
    ns_cas.Queue.pop_best ns_cas.Queue.sort_by_effective ns_cas.Queue.sort_slice_stable
    ns_cas.Queue.insert_item ns_cas.Messages.sub_time ns_cas.Queue.has_item
    ns_cas.Queue.has_appliance ns_cas.Engine.new_engine ns_cas.Engine.count_grant
    ns_cas.Engine.new_ticket ns_cas.Engine.try_acquire ns_cas.Engine.acquire_slot
    ns_cas.Engine.check_dispatch ns_cas.Engine.add_demand ns_cas.Engine.add_waiter
    ns_cas.Engine.issue_ticket ns_cas.Engine.notify ns_cas.Reports.headers_from
    ns_cas.Reports.calibrate ns_cas.Reports.free_slot ns_cas.Reports.settle
    ns_cas.Reports.serve_penalty ns_cas.Reports.process_report ns_cas.Reports.handle_report
    ns_cas.Dispatcher.pay_quota ns_cas.Dispatcher.dispatch_round ns_cas.Policy.trim_left
    ns_cas.Policy.trim_right ns_cas.Policy.trim_space ns_cas.Policy.split_on
    ns_cas.Policy.after_prefix ns_cas.Policy.part_window ns_cas.Policy.first_window
    ns_cas.Policy.parse_policy_window ns_cas.Classes.normalise_class ns_cas.Classes.allocate
    ns_cas.Classes.shared_of ns_cas.Dict.lookup ns_cas.Dict.erase ns_cas.Dict.insert
    ns_cas.Base.Int.◌+ℤ◌ ns_cas.Base.Int.◌-ℤ◌ ns_cas.Base.Int.wrap64 ns_cas.Base.Int.scale
    ns_cas.Float64.floor_product ns_cas.Float64.product_bits ns_cas.Float64.round53
    ns_cas.Float64.round_share ns_cas.Float64.round_share_ℕ ns_cas.Float64.quotient_bits
    ns_cas.Reports.observe_quota ns_cas.State.consume_window_opened ns_cas.State.clamp_remaining
calm_figures = (refl, refl, refl, refl)

abbrev busy_server : Engine ℕ
busy_server = (try_acquire whole (request "b") "t2" (pos 30) (pos 40) calm_server).engine

busy_run : QuietReach whole calm_server busy_server
busy_run = and_then calm (acquire (request "b") "t2" (pos 30) (pos 40)) tt

quiet_stays_covered_example :
    (pos (length busy_server.active_tickets) ≤ℤ busy_server.state.local_remaining)
    × (busy_server.state.local_remaining ≤ℤ busy_server.state.bucket_limit)
quiet_stays_covered_example =
    quiet_stays_covered whole settings 2 (pos 100) true calm_reached calm_figures.0
      (rw (calm_figures.1, calm_figures.2) (omega int_laws))
      (rw (calm_figures.2, calm_figures.3) (omega int_laws)) (rw calm_figures.3 (omega int_laws))
      busy_run

-- The ticket of "a" is reported as a 429 with a Retry-After of 5 s; then "b" asks.
abbrev stern : Report
stern = record plain_report { status_code = pos 429; retry_after = pos 5 }

abbrev silenced : Engine ℕ
silenced = (handle_report stern (pos 20) one_ticket).engine

abbrev refused_b : Engine ℕ
refused_b = (try_acquire whole (request "b") "t2" (pos 30) (pos 40) silenced).engine

b_waits : PenaltyRun whole (pos 20 +ℤ pos (10 ^ 9 * 5)) silenced refused_b
b_waits = still_locked locked (acquire (request "b") "t2" (pos 30) (pos 40)) (omega int_laws)

penalty_grants_nothing_example :
    Sublist refused_b.active_tickets (Dict.erase "a" one_ticket.active_tickets)
    × (refused_b.state.lockdown_active ≡ true)
    × (refused_b.state.lockdown_until ≡ pos 20 +ℤ pos (10 ^ 9 * 5))
penalty_grants_nothing_example =
    penalty_grants_nothing whole stern (pos 20) 5 one_ticket ticket_of_a refl refl refl
      (omega arith) (omega arith) b_waits
