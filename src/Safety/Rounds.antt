-- ===== src/Safety/Rounds.antt =====
-- What a round of the dispatch loop does when it serves a waiter.
use ns_cas.Base.{◌≡◌, ◌≢◌, refl, true, false, String, Option, none, some, ◌⊎◌, if_cases}
use ns_cas.Base.Int.{pos, ◌-ℤ◌, ◌≤ℤ◌, ◌<ℤ◌}
use ns_cas.Chan.{is_empty}
use ns_cas.State.{State}
use ns_cas.State.Dispatch.{CanGrant}
use ns_cas.Queue.{Floats, Item, Queue, pop_best}
use ns_cas.Engine.{Engine, issue_ticket, grant_from_queue}
use ns_cas.Dispatcher.{Next, again, Round, hand_over, drop_ticket, serve}
use ns_cas.Safety.Grants.{Granted}

-- A grant from the queue is paid for by its class or, if the class has nothing left, by the pool.
abbrev pub IsPaidFor : String → State → State → Type 0
IsPaidFor class s t =
    (pos 0 <ℤ s.class_remaining class)
      × (t.class_remaining class ≡ s.class_remaining class -ℤ pos 1)
      × (t.shared_remaining ≡ s.shared_remaining)
    ⊎ (s.class_remaining class ≤ℤ pos 0)
      × (pos 0 <ℤ s.shared_remaining)
      × (t.shared_remaining ≡ s.shared_remaining -ℤ pos 1)
      × (t.class_remaining ≡ s.class_remaining)

-- The same budgets of the classes and of the pool.
abbrev HasBudgets : State → State → Type 0
HasBudgets s t = (t.class_remaining ≡ s.class_remaining) × (t.shared_remaining ≡ s.shared_remaining)

-- Paying leaves all that CanDispatch looked at.
record Pays (class : String) (s t : State) : Type 0 where
  pub paid : IsPaidFor class s t
  pub others : (other : String) → other ≢ class → t.class_remaining other ≡ s.class_remaining other
  pub grant : CanGrant t

abbrev PaysIf : String → State → Option State → Type 0
PaysIf class s r = (t : State) → r ≡ some t → Pays class s t

module _ {F : Type 0} where
  -- The waiter's end of the hand-over: the channel takes the value and the token waits for the
  -- token map, or the channel was full and the ticket is taken back.
  abbrev pub IsHandedOver : Item F → String → Engine F → Engine F → Type 0
  IsHandedOver item tok before after =
      (before.chans item.response_chan ≡ none)
        × (after.chans item.response_chan ≡ some true)
        × (after.pending_store ≡ some (item.appliance_id, tok))
        × Granted before after item.appliance_id tok
      ⊎ (is_empty (before.chans item.response_chan) ≡ false)
        × (after.state.in_flight ≡ before.state.in_flight)
        × (after.chans ≡ before.chans)
        × (after.pending_store ≡ before.pending_store)

  -- From the state `t` in which CanDispatch said yes to the engine after the round.
  pub record IsServed (o : Floats F) (r : Round) (t after : Engine F) : Type 0 where
    pub item : Item F
    pub rest : Queue F
    pub charged : State
    pub popped : pop_best o r.popped_at t.queue ≡ some (item, rest)
    pub queue : after.queue ≡ rest
    pub paid : IsPaidFor item.priority_class t.state after.state
    pub others :
        (class : String)
        → class ≢ item.priority_class
        → after.state.class_remaining class ≡ t.state.class_remaining class
    pub handed : IsHandedOver item r.fresh_token (record t { state = charged; queue = rest }) after

  abbrev Serves : Floats F → Round → Engine F → Engine F × Next → Type 0
  Serves o r t p = p.1 ≡ again → IsServed o r t p.0

  hand_over-queue :
      (item : Item F) (tok : String) (e : Engine F) → (hand_over item tok e).queue ≡ e.queue
  unfolding hand_over drop_ticket
  hand_over-queue item tok e =
      if_cases (λ (t : Engine F). t.queue ≡ e.queue) _ (λ _. refl) (λ _. refl)

  pub serve-queue :
      (item : Item F) (rest : Queue F) (r : Round) (s : State) (t : Engine F)
      → (serve item rest r (some s) t).0.queue ≡ rest
  unfolding grant_from_queue issue_ticket
  serve-queue item rest r s t = hand_over-queue item r.fresh_token _
