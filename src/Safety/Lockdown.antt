-- ===== src/Safety/Lockdown.antt =====
-- The paths of internal/handlers/engine.go that grant a ticket, while a penalty is served.
pub mod Penalty
use mathlib.Core.Bool.{false≢true}
use ns_cas.Base.{
  ◌⊎◌, ◌≡◌, refl, sym, ap, ◌∙◌, Bool, true, false, String, str_eq, Option, none, some, arith,
  if_cases, ◌||◌, inl, inr,
}
use ns_cas.Base.Int.{ℤ, pos, ◌<ℤ◌, eqb_ℤ}
use ns_cas.State.{State, consume_window_opened}
use ns_cas.State.Frame.{note_headers-lockdown}
use ns_cas.State.Dispatch.{can_dispatch_locked}
use ns_cas.Queue.{Floats, has_appliance}
use ns_cas.Messages.{ActiveTicket, AcquireRequest, Report}
use ns_cas.Engine.{
  Engine, Reply, ReportResult, Outcome, check_dispatch, acquire_slot, add_demand, try_acquire,
  holds_ticket,
}
use ns_cas.Reports.{
  headers_from, settle, calibrate, free_slot, observe_quota, process_ticket, process_report,
  try_report_and_acquire, next_class,
}
use ns_cas.Dispatcher.{Round, stop, dispatch_round}

-- A penalty is being served at `now`.
pub record IsLocked (now : ℤ) (s : State) : Type 0 where
  pub active : s.lockdown_active ≡ true
  pub early : now <ℤ s.lockdown_until

pub settle-lockdown :
    (r : Report) (s : State)
    → ((settle r s).lockdown_active ≡ s.lockdown_active)
      × ((settle r s).lockdown_until ≡ s.lockdown_until)
unfolding settle calibrate free_slot
settle-lockdown r s = ground arith

observe_quota-IsLocked :
    (now : ℤ) (db : Bool) (r : Report) (s : State)
    → IsLocked now s
    → IsLocked now (observe_quota db r (settle r s)).0
unfolding observe_quota consume_window_opened
observe_quota-IsLocked now db r s l =
    let (a, u) = note_headers-lockdown (headers_from r) r.api_recv_at (settle r s) in
    let (a', u') = settle-lockdown r s in
    record { active = a ∙ a' ∙ l.active; early = rw (u ∙ u') l.early }

module _ {F : Type 0} where
  pub check_dispatch_locked :
      (now : ℤ) (e : Engine F) → IsLocked now e.state → check_dispatch now e ≡ (e, false)
  unfolding check_dispatch
  check_dispatch_locked now e l =
      ap (λ r. (record e { state = r.0 }, r.1)) (can_dispatch_locked now e.state l.active l.early)

  abbrev NoToken : Engine F × Reply → Type 0
  NoToken r = r.1.token ≡ ""

  acquire_slot_locked :
      (o : Floats F) (id class : String) (backlog : ℤ) (tok : String) (now later : ℤ) (e : Engine F)
      → IsLocked now e.state
      → NoToken (acquire_slot o id class backlog tok now later e)
  unfolding acquire_slot
  acquire_slot_locked o id class backlog tok now later e l =
      if_cases NoToken (check_dispatch now e).1
        (λ ok. absurd (false≢true (sym (ap (λ r. r.1) (check_dispatch_locked now e l)) ∙ ok)))
        (λ _. if_cases NoToken _ (λ _. refl) (λ _. refl))

  add_demand-IsLocked :
      (now : ℤ) (class : String) (backlog : ℤ) (e : Engine F)
      → IsLocked now e.state
      → IsLocked now (add_demand class backlog e).state
  unfolding add_demand
  add_demand-IsLocked now class backlog e l = record { active = l.active; early = l.early }

  try_acquire_locked :
      (o : Floats F) (req : AcquireRequest) (tok : String) (now later : ℤ) (e : Engine F)
      → IsLocked now e.state
      → (try_acquire o req tok now later e).value.token ≡ ""
  unfolding try_acquire
  try_acquire_locked o req tok now later e l =
      if_cases (λ (out : Outcome F Reply). out.value.token ≡ "")
        (holds_ticket req.appliance_id e.active_tickets || has_appliance req.appliance_id e.queue)
        (λ _. refl)
        (λ _.
          acquire_slot_locked o req.appliance_id req.priority_class req.backlog tok now later
            (add_demand req.priority_class req.backlog e)
            (add_demand-IsLocked now req.priority_class req.backlog e l))

  pub dispatch_round_locked :
      (o : Floats F) (r : Round) (e : Engine F)
      → IsLocked r.checked_at e.state
      → dispatch_round o r e ≡ (e, stop)
  unfolding dispatch_round
  dispatch_round_locked o r e l = rw (check_dispatch_locked r.checked_at e l)

  -- Either the report is a 429 itself or the lockdown is as it was.
  abbrev KeepsLock : ℤ → Outcome F ReportResult → Type 0
  KeepsLock now out = (out.value.is_lockdown ≡ true) ⊎ IsLocked now out.engine.state

  process_ticket-KeepsLock :
      (r : Report) (reported now : ℤ) (found : Option ActiveTicket) (e : Engine F)
      → IsLocked now e.state
      → KeepsLock now (process_ticket r reported found e)
  process_ticket-KeepsLock r reported now none e l = inr l
  process_ticket-KeepsLock r reported now (some t) e l =
      if_cases (KeepsLock now) (str_eq t.token r.token)
        (λ _.
          if_cases (KeepsLock now) (eqb_ℤ r.status_code (pos 429)) (λ _. inl refl)
            (λ _. inr (observe_quota-IsLocked now e.has_db r e.state l)))
        (λ _. inr l)

  try_report_and_acquire_locked :
      (o : Floats F) (r : Report) (tok : String) (reported now later : ℤ) (e : Engine F)
      → IsLocked now e.state
      → (try_report_and_acquire o r tok reported now later e).value.token ≡ ""
  unfolding try_report_and_acquire process_report
  try_report_and_acquire_locked o r tok reported now later e l =
      let out = process_report r reported e in
      let Goal = λ (u : Outcome F Reply). u.value.token ≡ "" in
      if_cases Goal out.value.ok
        (λ _.
          if_cases Goal out.value.is_lockdown (λ _. refl)
            (λ other. elim (process_ticket-KeepsLock r reported now _ e l) [
              | inl is ↦ absurd (false≢true (sym other ∙ is))
              | inr l' ↦
                  acquire_slot_locked o r.appliance_id (next_class r) r.backlog tok now later _
                    (add_demand-IsLocked now (next_class r) r.backlog _ l')
            ]))
        (λ _. refl)

  -- While a penalty is served at the times at which CanDispatch reads the clock, no path grants a
  -- ticket: TryAcquire and TryReportAndAcquire answer with no token, and a round of the dispatch
  -- loop leaves the engine as it is and stops.
  pub locked_grants_nothing :
      (o : Floats F) (req : AcquireRequest) (rep : Report) (r : Round) (tok : String)
      (reported now later : ℤ) (e : Engine F)
      → IsLocked now e.state
      → IsLocked r.checked_at e.state
      → ((try_acquire o req tok now later e).value.token ≡ "")
        × ((try_report_and_acquire o rep tok reported now later e).value.token ≡ "")
        × (dispatch_round o r e ≡ (e, stop))
  locked_grants_nothing o req rep r tok reported now later e l k = (
    try_acquire_locked o req tok now later e l,
    try_report_and_acquire_locked o rep tok reported now later e l,
    dispatch_round_locked o r e k,
  )
