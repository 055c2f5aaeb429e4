-- ===== src/Safety/Quiet.antt =====
-- The engine of internal/handlers/engine.go while no report arrives: requests, dispatch rounds, timeouts,
-- collections, reaper passes and the shutdown, in any order.
use ns_cas.Base.{
  ◌^◌, Bool-cases, inl, inr, ◌≡◌, refl, subst, sym, Bool, true, String, ◌||◌, Option, none, some,
  length, arith, if_cases, ltb,
}
use ns_cas.Base.Int.{ℤ, pos, ◌-ℤ◌, ◌≤ℤ◌, ◌<ℤ◌, int_laws}
use ns_cas.State.{State, Config}
use ns_cas.State.Dispatch.{CanGrant}
use ns_cas.Queue.{has_appliance, Floats, Item, Queue}
use ns_cas.Messages.{AcquireRequest}
use ns_cas.Chan.{try_send}
use ns_cas.Engine.{
  Engine, Reply, notify, add_waiter, check_dispatch, issue_ticket, grant_from_queue, acquire_slot,
  holds_ticket, add_demand, try_acquire, remove_from_queue,
}
use ns_cas.Dispatcher.{
  Next, Round, drop_ticket, hand_over, serve, serve_best, dispatch_round, store_entry,
  store_queue_token, consume_queue_token, ticket_reaper, shut_down, reap,
}
use ns_cas.Safety.Slots.{IsSound}
use ns_cas.Safety.Grants.{check_dispatch-CanGrant}
use ns_cas.Safety.Background.{reap_counts}
use ns_cas.Safety.System.{
  take_answer, Step, acquire, report, report_and_acquire, give_up, answer, collect, round, store,
  reaping, shutdown, Reach, Step-IsSound, fresh_server, server-IsSound,
}
use ns_cas.Safety.Budget.{
  IsCovered, can_dispatch-IsCovered, count_grant-IsCovered, give_back-IsCovered, charged_back,
  IsPaidFor, pay_quota-IsPaidFor,
}

module _ {F : Type 0} where
  -- A step that is not a report.
  abbrev pub IsQuiet : {o : Floats F} {e t : Engine F} → Step o e t → Type 0
  IsQuiet (acquire req tok now later) = Unit
  IsQuiet (report r now) = ⊥
  IsQuiet (report_and_acquire r tok reported now later) = ⊥
  IsQuiet (give_up id) = Unit
  IsQuiet (answer c) = Unit
  IsQuiet (collect id) = Unit
  IsQuiet (round r h) = Unit
  IsQuiet store = Unit
  IsQuiet (reaping now) = Unit
  IsQuiet shutdown = Unit

  pub data QuietReach (o : Floats F) (e : Engine F) : Engine F → Type 0 where
    calm : QuietReach o e e
    and_then :
        {t u : Engine F} → QuietReach o e t → (st : Step o t u) → IsQuiet st → QuietReach o e u

  check_dispatch-IsCovered :
      (now : ℤ) (e : Engine F) → IsCovered e.state → IsCovered (check_dispatch now e).0.state
  unfolding check_dispatch
  check_dispatch-IsCovered now e c = can_dispatch-IsCovered now e.state c

  acquire_slot-IsCovered :
      (o : Floats F) (id class : String) (backlog : ℤ) (tok : String) (now later : ℤ) (e : Engine F)
      → IsCovered e.state
      → IsCovered (acquire_slot o id class backlog tok now later e).0.state
  unfolding acquire_slot issue_ticket add_waiter
  acquire_slot-IsCovered o id class backlog tok now later e c =
      let t = check_dispatch-IsCovered now e c in
      if_cases (λ (r : Engine F × Reply). IsCovered r.0.state) (check_dispatch now e).1
        (λ ok. count_grant-IsCovered _ (check_dispatch-CanGrant now e c.calibrated ok) t)
        (λ _. if_cases (λ (r : Engine F × Reply). IsCovered r.0.state) _ (λ _. t) (λ _. t))

  add_demand-IsCovered :
      (class : String) (backlog : ℤ) (e : Engine F)
      → IsCovered e.state
      → IsCovered (add_demand class backlog e).state
  unfolding add_demand
  add_demand-IsCovered class backlog e c = record {
    calibrated = c.calibrated;
    nonneg = c.nonneg;
    flight = c.flight;
    remaining = c.remaining;
    limit = c.limit;
  }

  try_acquire-IsCovered :
      (o : Floats F) (req : AcquireRequest) (tok : String) (now later : ℤ) (e : Engine F)
      → IsCovered e.state
      → IsCovered (try_acquire o req tok now later e).engine.state
  unfolding try_acquire
  try_acquire-IsCovered o req tok now later e c =
      let demanded = add_demand req.priority_class req.backlog e in
      elim (Bool-cases (
        holds_ticket req.appliance_id e.active_tickets || has_appliance req.appliance_id e.queue)) [
          | inl known ↦ rw known c
          | inr idle ↦ rw idle (
              acquire_slot-IsCovered o req.appliance_id req.priority_class req.backlog tok now later
                demanded (add_demand-IsCovered req.priority_class req.backlog e c))
        ]

  -- A ticket handed over stays in flight; one that is not goes back.
  hand_over-IsCovered :
      (it : Item F) (tok : String) (e : Engine F)
      → pos 0 ≤ℤ (e.state.in_flight -ℤ pos 1)
      → IsCovered e.state
      → IsCovered (hand_over it tok e).state
  unfolding hand_over drop_ticket
  hand_over-IsCovered it tok e h c =
      if_cases (λ (t : Engine F). IsCovered t.state) (try_send it.response_chan true e.chans).1
        (λ _. c) (λ _. give_back-IsCovered e.state 1 h c)

  serve-IsCovered :
      (it : Item F) (q : Queue F) (r : Round) (paid : Option State) (e : Engine F)
      → IsPaidFor paid
      → IsCovered e.state
      → IsCovered (serve it q r paid e).0.state
  unfolding grant_from_queue issue_ticket
  serve-IsCovered it q r none e p c = c
  serve-IsCovered it q r (some s) e p c =
      hand_over-IsCovered it r.fresh_token
        (grant_from_queue it r.fresh_token r.issued_at (record e { state = s; queue = q }))
        (charged_back s p.0) (count_grant-IsCovered s p.1 p.0)

  serve_best-IsCovered :
      (popped : Option (Item F × Queue F)) (r : Round) (e : Engine F)
      → CanGrant e.state
      → IsCovered e.state
      → IsCovered (serve_best popped r e).0.state
  serve_best-IsCovered none r e g c = c
  serve_best-IsCovered (some (it, q)) r e g c =
      serve-IsCovered it q r _ e (pay_quota-IsPaidFor it.priority_class e.state g c) c

  dispatch_round-IsCovered :
      (o : Floats F) (r : Round) (e : Engine F)
      → IsCovered e.state
      → IsCovered (dispatch_round o r e).0.state
  unfolding dispatch_round
  dispatch_round-IsCovered o r e c =
      let t = check_dispatch-IsCovered r.checked_at e c in
      if_cases (λ (p : Engine F × Next). IsCovered p.0.state) (check_dispatch r.checked_at e).1
        (λ ok.
          serve_best-IsCovered _ r _ (check_dispatch-CanGrant r.checked_at e c.calibrated ok) t)
        (λ _. t)

  store_entry-IsCovered :
      (entry : Option (String × String)) (e : Engine F)
      → IsCovered e.state
      → IsCovered (store_entry entry e).state
  store_entry-IsCovered none e c = c
  store_entry-IsCovered (some p) e c = c

  notify-state : (e : Engine F) → (notify e).state ≡ e.state
  unfolding notify
  notify-state e =
      if_cases (λ (t : Engine F). t.state ≡ e.state) (ltb e.notify_pending 64) (λ _. refl)
        (λ _. refl)

  ticket_reaper-IsCovered :
      (now : ℤ) (e : Engine F)
      → IsSound e
      → IsCovered e.state
      → IsCovered (ticket_reaper now e).engine.state
  unfolding ticket_reaper
  ticket_reaper-IsCovered now e s c =
      let r = reap e.has_db now e.active_tickets in
      subst IsCovered (sym (notify-state _)) (
        give_back-IsCovered e.state r.removed
          (rw s.flight (omega (int_laws, reap_counts e.has_db now e.active_tickets))) c)

  Step-IsCovered :
      {o : Floats F} {e t : Engine F} (st : Step o e t)
      → IsQuiet st
      → IsSound e
      → IsCovered e.state
      → IsCovered t.state
  unfolding take_answer remove_from_queue consume_queue_token store_queue_token shut_down
  Step-IsCovered {o} {e} (acquire req tok now later) q s c =
      try_acquire-IsCovered o req tok now later e c
  Step-IsCovered (report r now) q s c = absurd q
  Step-IsCovered (report_and_acquire r tok reported now later) q s c = absurd q
  Step-IsCovered (give_up id) q s c = c
  Step-IsCovered (answer ch) q s c = c
  Step-IsCovered (collect id) q s c = c
  Step-IsCovered {o} {e} (round r h) q s c = dispatch_round-IsCovered o r e c
  Step-IsCovered {o} {e} store q s c = store_entry-IsCovered e.pending_store e c
  Step-IsCovered {o} {e} (reaping now) q s c = ticket_reaper-IsCovered now e s c
  Step-IsCovered shutdown q s c = c

  QuietReach-IsSound : {o : Floats F} {e t : Engine F} → IsSound e → QuietReach o e t → IsSound t
  QuietReach-IsSound s calm = s
  QuietReach-IsSound {o} s (and_then p st q) = Step-IsSound o st (QuietReach-IsSound s p)

  QuietReach-IsCovered :
      {o : Floats F} {e t : Engine F}
      → IsSound e
      → IsCovered e.state
      → QuietReach o e t
      → IsCovered t.state
  QuietReach-IsCovered s c calm = c
  QuietReach-IsCovered s c (and_then p st q) =
      Step-IsCovered st q (QuietReach-IsSound s p) (QuietReach-IsCovered s c p)

  -- From every reachable calibrated state whose tickets in flight are within the remaining
  -- budget, and that within a burst limit below 2 ^ 63: as long as no report arrives, in whatever
  -- order requests, timeouts, dispatch rounds, token stores and collections, reaper passes and
  -- the shutdown come, the number of tickets on record never exceeds the remaining budget, nor
  -- that the burst limit.
  pub quiet_stays_covered :
      (o : Floats F) (c : Config) (w : F) (max_queue : ℤ) (has_db : Bool) {e t : Engine F}
      → Reach o (fresh_server c w max_queue has_db) e
      → e.state.calibrated ≡ true
      → e.state.in_flight ≤ℤ e.state.local_remaining
      → e.state.local_remaining ≤ℤ e.state.bucket_limit
      → e.state.bucket_limit <ℤ pos (2 ^ 63)
      → QuietReach o e t
      → (pos (length t.active_tickets) ≤ℤ t.state.local_remaining)
        × (t.state.local_remaining ≤ℤ t.state.bucket_limit)
  quiet_stays_covered o c w max_queue has_db {e} {t} p calibrated flight remaining limit quiet =
      let s = server-IsSound o c w max_queue has_db p in
      let covered : IsCovered e.state = record {
        calibrated = calibrated;
        nonneg = ground (arith, s.flight);
        flight = flight;
        remaining = remaining;
        limit = limit;
      } in
      let after = QuietReach-IsCovered s covered quiet in
      (
        subst (λ n. n ≤ℤ t.state.local_remaining) (QuietReach-IsSound s quiet).flight after.flight,
        after.remaining,
      )
