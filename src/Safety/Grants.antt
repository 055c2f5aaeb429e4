-- ===== src/Safety/Grants.antt =====
-- What a granted ticket means for the quota, on each of the paths that grant one.
use ns_cas.Base.{◌≡◌, ◌≢◌, refl, true, false, String, str_eq, Option, none, some, if_cases}
use ns_cas.Base.Int.{ℤ, pos, ◌+ℤ◌, ◌-ℤ◌, ◌≤ℤ◌, eqb_ℤ, int_laws, wrap64, wrap64_pred}
use ns_cas.Dict
use ns_cas.State.{State, consume_window_opened}
use ns_cas.State.Spending.{deduct_sustained}
use ns_cas.State.Penalties.{note_penalty}
use ns_cas.State.Dispatch.{CanGrant, can_dispatch-CanGrant}
use ns_cas.State.Frame.{note_headers-calibrated}
use ns_cas.Queue.{Floats}
use ns_cas.Messages.{ActiveTicket, AcquireRequest, Report}
use ns_cas.Engine.{
  Engine, Reply, ReportResult, Outcome, notify, count_grant, new_ticket, issue_ticket,
  check_dispatch, acquire_slot, add_demand, try_acquire,
}
use ns_cas.Reports.{
  headers_from, settle, serve_penalty, observe_quota, process_ticket, process_report,
  try_report_and_acquire, next_class,
}
use ns_cas.Safety.Slots.{lookup-issue_ticket}

-- From the state in which CanDispatch said yes to the state after the grant: the allowance is
-- charged for exactly one, stays within its limit, no penalty is being served, and the tickets in
-- flight, this one included, are within the reported budget, in int64 arithmetic.
pub record Charged (before after : State) : Type 0 where
  pub unlocked : after.lockdown_active ≡ false
  pub one_flight : after.in_flight ≡ before.in_flight +ℤ pos 1
  pub one_used : after.sustained_used ≡ before.sustained_used +ℤ pos 1
  pub sustained : after.sustained_used ≤ℤ after.sustained_limit
  pub burst : pos 0 ≤ℤ wrap64 (after.local_remaining -ℤ after.in_flight)

count_grant-Charged : (s : State) → CanGrant s → Charged s (count_grant s)
unfolding count_grant deduct_sustained
count_grant-Charged s g = record {
  unlocked = g.unlocked;
  one_flight = refl;
  one_used = refl;
  sustained = omega (int_laws, g.sustained);
  burst =
      wrap64_pred (s.local_remaining -ℤ s.in_flight) (s.local_remaining -ℤ (s.in_flight +ℤ pos 1))
        g.burst (omega int_laws);
}

module _ {F : Type 0} where
  -- The ticket on record for an appliance carries the token that it was given, and what was left
  -- of the budget when it was granted.
  pub record Granted (before after : Engine F) (id tok : String) : Type 0 where
    pub ticket : ActiveTicket
    pub on_record : Dict.lookup id after.active_tickets ≡ some ticket
    pub same_token : ticket.token ≡ tok
    pub expected :
        ticket.expected_remaining ≡ wrap64 (after.state.local_remaining -ℤ after.state.in_flight)
    pub charged : Charged before.state after.state

  pub issue_ticket-Granted :
      (id tok : String) (now : ℤ) (e : Engine F)
      → CanGrant e.state
      → Granted e (issue_ticket id tok now e) id tok
  unfolding issue_ticket new_ticket
  issue_ticket-Granted id tok now e g = record {
    ticket = new_ticket id tok now (count_grant e.state);
    on_record = lookup-issue_ticket id tok now e;
    same_token = refl;
    expected = refl;
    charged = count_grant-Charged e.state g;
  }

  pub check_dispatch-CanGrant :
      (now : ℤ) (e : Engine F)
      → e.state.calibrated ≡ true
      → (check_dispatch now e).1 ≡ true
      → CanGrant (check_dispatch now e).0.state
  unfolding check_dispatch
  check_dispatch-CanGrant now e c ok = can_dispatch-CanGrant now e.state c ok

  -- An acquire that answers with a token.
  abbrev pub Grants : Engine F → String → Engine F × Reply → Type 0
  Grants before id r = r.1.token ≢ "" → Granted before r.0 id r.1.token

  acquire_slot-Grants :
      (o : Floats F) (id class : String) (backlog : ℤ) (tok : String) (now later : ℤ) (e : Engine F)
      → e.state.calibrated ≡ true
      → Grants (check_dispatch now e).0 id (acquire_slot o id class backlog tok now later e)
  unfolding acquire_slot
  acquire_slot-Grants o id class backlog tok now later e c =
      let t = (check_dispatch now e).0 in
      if_cases (Grants t id) (check_dispatch now e).1
        (λ ok _. issue_ticket-Granted id tok later t (check_dispatch-CanGrant now e c ok))
        (λ _. if_cases (Grants t id) _ (λ _ h. absurd (h refl)) (λ _ h. absurd (h refl)))

  -- On a calibrated server, whenever TryAcquire answers with a token, a ticket with that token is
  -- on record for the appliance with what is left of the budget, and from the state in which
  -- CanDispatch said yes the grant counts one ticket in flight and one unit of the sustained
  -- allowance, which stays within its limit, while no penalty is served and the tickets in flight
  -- stay within the remaining budget.
  pub try_acquire-Granted :
      (o : Floats F) (req : AcquireRequest) (tok : String) (now later : ℤ) (e : Engine F)
      → e.state.calibrated ≡ true
      → (try_acquire o req tok now later e).value.token ≢ ""
      → Granted
          (check_dispatch now (add_demand req.priority_class req.backlog e)).0
          (try_acquire o req tok now later e).engine
          req.appliance_id
          (try_acquire o req tok now later e).value.token
  unfolding try_acquire add_demand
  try_acquire-Granted o req tok now later e c =
      if_cases
        (λ (out : Outcome F Reply).
          out.value.token ≢ ""
          → Granted (check_dispatch now (add_demand req.priority_class req.backlog e)).0 out.engine
              req.appliance_id out.value.token)
        _ (λ _ h. absurd (h refl))
        (λ _.
          acquire_slot-Grants o req.appliance_id req.priority_class req.backlog tok now later
            (add_demand req.priority_class req.backlog e) c)

  abbrev Calibrates : Outcome F ReportResult → Type 0
  Calibrates out = out.value.ok ≡ true → out.engine.state.calibrated ≡ true

  process_ticket-Calibrates :
      (r : Report) (now : ℤ) (found : Option ActiveTicket) (e : Engine F)
      → Calibrates (process_ticket r now found e)
  unfolding serve_penalty observe_quota note_penalty consume_window_opened
  process_ticket-Calibrates r now none e = λ ok. cc
  process_ticket-Calibrates r now (some t) e =
      if_cases Calibrates (str_eq t.token r.token)
        (λ _.
          if_cases Calibrates (eqb_ℤ r.status_code (pos 429))
            (λ _ _. note_headers-calibrated (headers_from r) r.api_recv_at (settle r e.state))
            (λ _ _. note_headers-calibrated (headers_from r) r.api_recv_at (settle r e.state)))
        (λ _ ok. cc)

  -- The first report that matches calibrates the server.
  process_report-Calibrates :
      (r : Report) (now : ℤ) (e : Engine F) → Calibrates (process_report r now e)
  unfolding process_report
  process_report-Calibrates r now e = process_ticket-Calibrates r now _ e

  Granted-notify :
      {id tok : String} (e t : Engine F) → Granted e t id tok → Granted e (notify t) id tok
  unfolding notify
  Granted-notify {id} {tok} e t g =
      if_cases (λ u. Granted e u id tok) _
        (λ _. record {
          ticket = g.ticket;
          on_record = g.on_record;
          same_token = g.same_token;
          expected = g.expected;
          charged = g.charged;
        })
        (λ _. g)

  -- Whenever TryReportAndAcquire answers with a token, a ticket with that token is on record for
  -- the appliance with what is left of the budget, and from the state in which CanDispatch said
  -- yes after the report the grant counts one ticket in flight and one unit of the sustained
  -- allowance, which stays within its limit, while no penalty is served and the tickets in flight
  -- stay within the remaining budget.
  pub try_report_and_acquire-Granted :
      (o : Floats F) (r : Report) (tok : String) (reported now later : ℤ) (e : Engine F)
      → (try_report_and_acquire o r tok reported now later e).value.token ≢ ""
      → let before =
          (check_dispatch now
            (add_demand (next_class r) r.backlog (process_report r reported e).engine)).0 in
        Granted before
          (try_report_and_acquire o r tok reported now later e).engine
          r.appliance_id
          (try_report_and_acquire o r tok reported now later e).value.token
  unfolding try_report_and_acquire add_demand
  try_report_and_acquire-Granted o r tok reported now later e =
      let e₁ = (process_report r reported e).engine in
      let before = (check_dispatch now (add_demand (next_class r) r.backlog e₁)).0 in
      let Goal = λ (out : Outcome F Reply).
        out.value.token ≢ "" → Granted before out.engine r.appliance_id out.value.token in
      if_cases Goal (process_report r reported e).value.ok
        (λ ok.
          if_cases Goal (process_report r reported e).value.is_lockdown (λ _ h. absurd (h refl))
            (λ _ h. Granted-notify before _ (
              acquire_slot-Grants o r.appliance_id (next_class r) r.backlog tok now later
                (add_demand (next_class r) r.backlog e₁) (process_report-Calibrates r reported e ok)
                h)))
        (λ _ h. absurd (h refl))
