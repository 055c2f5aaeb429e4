-- ===== src/Engine.antt =====
-- The engine of internal/handlers/engine.go: acquiring tickets and processing reports. Each
-- function is the code between taking the state's lock and releasing it, so it is one atomic step.
-- A token of the uuid package and each reading of time.Now are arguments. The package's token map
-- stands in the record too.
use ns_cas.Base.{
  ℕ, suc, Bool, true, false, ◌||◌, ◌==◌, String, List, [], ◌∷◌, Option, none, some, ltb,
  if◌then◌else◌,
}
use ns_cas.Base.Int.{ℤ, pos, ◌+ℤ◌, ◌-ℤ◌, leb_ℤ, wrap64}
use ns_cas.Classes.{base_priority?, normalise_class, update}
use ns_cas.Dict
use ns_cas.Chan.{Chans, set_chan}
use ns_cas.State.{State}
use ns_cas.State.Spending.{can_dispatch, deduct_sustained}
use ns_cas.Queue.{Floats, Item, Queue, len, enqueue, has_appliance, remove}
use ns_cas.Messages.{AcquireRequest, ActiveTicket, LogEntry, Effect, broadcast}

pub record Engine (F : Type 0) : Type 0 where
  pub state : State
  pub active_tickets : List (String × ActiveTicket)
  pub queue : Queue F
  pub max_queue : ℤ
  pub has_db : Bool
  pub notify_pending : ℕ  -- values waiting in notifyChan
  pub chans : Chans
  pub next_chan : ℕ  -- channels from this number on have not been made
  pub queue_tokens : List (String × String)
  pub pending_store : Option (String × String)  -- the dispatch loop's next storeQueueToken

-- (token, ch, code): "", nil and 0 are the zero values.
pub record Reply : Type 0 where
  pub token : String
  pub ch : Option ℕ
  pub code : ℕ

abbrev pub refused : ℕ → Reply
refused code = record { token = ""; ch = none; code = code }

abbrev pub proceed : String → Reply
proceed token = record { token = token; ch = none; code = 0 }

abbrev pub wait_on : ℕ → Reply
wait_on c = record { token = ""; ch = some c; code = 0 }

pub record ReportResult : Type 0 where
  pub ok : Bool
  pub is_lockdown : Bool
  pub log_entry : Option LogEntry

-- An atomic step's new engine, result and effects.
pub record Outcome (F A : Type 0) : Type 0 where
  pub engine : Engine F
  pub value : A
  pub effects : List Effect

unfoldable pub count_grant : State → State
count_grant s = deduct_sustained (record s { in_flight = s.in_flight +ℤ pos 1 })

abbrev pub holds_ticket : String → List (String × ActiveTicket) → Bool
holds_ticket id m = elim (Dict.lookup id m) [ none ↦ false | some _ ↦ true ]

-- The subscribers hear of a grant and of a new waiter.
abbrev pub on_success : Reply → List Effect → List Effect
on_success r effects = if r.code == 0 then effects else []

unfoldable pub new_ticket : String → String → ℤ → State → ActiveTicket
new_ticket id tok now s = record {
  token = tok;
  appliance_id = id;
  issued_at = now;
  expected_remaining = wrap64 (s.local_remaining -ℤ s.in_flight);
}

module _ {F : Type 0} where
  -- NewEngine, before its goroutines take their first step.
  unfoldable pub new_engine : State → Queue F → ℤ → Bool → Engine F
  new_engine s q max_queue has_db = record {
    state = s;
    active_tickets = [];
    queue = q;
    max_queue = max_queue;
    has_db = has_db;
    notify_pending = 0;
    chans = λ _. none;
    next_chan = 0;
    queue_tokens = [];
    pending_store = none;
  }

  -- notifyChan holds 64 values at most.
  unfoldable pub notify : Engine F → Engine F
  notify e =
      if ltb e.notify_pending 64 then record e { notify_pending = suc e.notify_pending } else e

  unfoldable pub base_priority : Floats F → String → F
  base_priority o class = elim (base_priority? class) [ none ↦ o.of_int 50 | some n ↦ o.of_int n ]

  unfoldable pub add_demand : String → ℤ → Engine F → Engine F
  add_demand class backlog e =
      let name = normalise_class class in
      let demand = wrap64 (e.state.demand_sum name +ℤ (pos 1 +ℤ backlog)) in
      record e { state = record e.state { demand_sum = update e.state.demand_sum name demand } }

  -- The ticket of a grant, by any of the three paths that grant one.
  unfoldable pub issue_ticket : String → String → ℤ → Engine F → Engine F
  issue_ticket id tok now e =
      let s = count_grant e.state in
      record e {
        state = s;
        active_tickets = Dict.insert id (new_ticket id tok now s) e.active_tickets;
      }

  unfoldable pub grant_from_queue : Item F → String → ℤ → Engine F → Engine F
  grant_from_queue item tok now e = issue_ticket item.appliance_id tok now e

  -- A new waiter at the end of the queue, with a channel of its own.
  unfoldable pub add_waiter : Floats F → String → String → ℤ → ℤ → Engine F → Engine F
  add_waiter o id class backlog now e = record e {
    chans = set_chan e.next_chan none e.chans;
    next_chan = suc e.next_chan;
    queue =
        enqueue
          (record {
            appliance_id = id;
            priority_class = class;
            base_priority = base_priority o class;
            queued_at = now;
            backlog = backlog;
            response_chan = e.next_chan;
          })
          e.queue;
  }

  unfoldable pub check_dispatch : ℤ → Engine F → Engine F × Bool
  check_dispatch now e = let (s, ok) = can_dispatch now e.state in (record e { state = s }, ok)

  -- The end of an acquire: a ticket at once, a refusal, or a place in the queue.
  unfoldable pub acquire_slot :
      Floats F → String → String → ℤ → String → ℤ → ℤ → Engine F → Engine F × Reply
  acquire_slot o id class backlog tok now later e =
      let (t, ok) = check_dispatch now e in
      if ok
      then (issue_ticket id tok later t, proceed tok)
      else if leb_ℤ t.max_queue (pos (len t.queue))
      then (t, refused 503)
      else (add_waiter o id class backlog later t, wait_on t.next_chan)

  unfoldable pub try_acquire :
      Floats F → AcquireRequest → String → ℤ → ℤ → Engine F → Outcome F Reply
  try_acquire o req tok now later e =
      let (t, reply) =
        acquire_slot o req.appliance_id req.priority_class req.backlog tok now later
          (add_demand req.priority_class req.backlog e) in
      if holds_ticket req.appliance_id e.active_tickets || has_appliance req.appliance_id e.queue
      then record { engine = e; value = refused 409; effects = [] }
      else record { engine = t; value = reply; effects = on_success reply (broadcast ∷ []) }

  unfoldable pub remove_from_queue : String → Engine F → Engine F
  remove_from_queue id e = record e { queue = (remove id e.queue).0 }
