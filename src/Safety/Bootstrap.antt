-- ===== src/Safety/Bootstrap.antt =====
-- Before the first report: what CanDispatch answers on a server that is not calibrated.
use mathlib.Core.List.{Perm, perm_middle, Mem, Nodup, Nodup-cons, mem-append}
use mathlib.Core.List.Perm
use mathlib.Core.Logic.Or
use ns_cas.Base.{
  suc, ◌+◌, ◌≡◌, refl, ap, ◌∙◌, true, false, String, List, [], ◌∷◌, ◌++◌, length, arith, ◌||◌,
}
use ns_cas.Base.Int.{ℤ, pos, ◌<ℤ◌}
use ns_cas.Dict
use ns_cas.State.{State}
use ns_cas.State.Spending.{can_dispatch, can_dispatch_unlocked, deduct_sustained}
use ns_cas.Queue.{Floats, has_appliance}
use ns_cas.Queue.Waiting.{ids, has_appliance_absent}
use ns_cas.Messages.{AcquireRequest}
use ns_cas.Engine.{
  Engine, Reply, Outcome, count_grant, issue_ticket, check_dispatch, acquire_slot, add_demand,
  try_acquire, holds_ticket,
}
use ns_cas.Safety.Slots.{names}

-- A server that has had no report: the budget is the one that New assumed.
pub record IsCold (s : State) : Type 0 where
  pub uncalibrated : s.calibrated ≡ false
  pub unlocked : s.lockdown_active ≡ false
  pub budget : pos 0 <ℤ s.local_remaining

can_dispatch_cold : (now : ℤ) (s : State) → IsCold s → can_dispatch now s ≡ (s, true)
unfolding can_dispatch can_dispatch_unlocked
can_dispatch_cold now s c = simp (c.unlocked, c.uncalibrated) (ground arith)

-- One request in a sequence: its token and its readings of the clock.
pub record Attempt : Type 0 where
  pub request : AcquireRequest
  pub fresh_token : String
  pub checked_at : ℤ
  pub issued_at : ℤ

abbrev pub attempt_ids : List Attempt → List String
attempt_ids [] = []
attempt_ids (a ∷ as') = a.request.appliance_id ∷ attempt_ids as'

module _ {F : Type 0} where
  abbrev pub attempt : Floats F → Attempt → Engine F → Outcome F Reply
  attempt o a e = try_acquire o a.request a.fresh_token a.checked_at a.issued_at e

  abbrev pub attempts : Floats F → List Attempt → Engine F → Engine F
  attempts o [] e = e
  attempts o (a ∷ as') e = attempts o as' (attempt o a e).engine

  idle :
      (id : String) (e : Engine F)
      → ¬ Mem id (names e)
      → (holds_ticket id e.active_tickets || has_appliance id e.queue) ≡ false
  idle id e h =
      rw
        (
          Dict.lookup_absent id e.active_tickets (λ m. h (mem-append.1 (Or.inr m))),
          holds_ticket,
          has_appliance_absent id e.queue (λ m. h (mem-append.1 (Or.inl m))),
        )
        refl

  add_demand-IsCold :
      (class : String) (backlog : ℤ) (e : Engine F)
      → IsCold e.state
      → IsCold (add_demand class backlog e).state
  unfolding add_demand
  add_demand-IsCold class backlog e c = record {
    uncalibrated = c.uncalibrated;
    unlocked = c.unlocked;
    budget = c.budget;
  }

  check_dispatch_cold : (now : ℤ) (e : Engine F) → IsCold e.state → check_dispatch now e ≡ (e, true)
  unfolding check_dispatch
  check_dispatch_cold now e c =
      ap (λ r. (record e { state = r.0 }, r.1)) (can_dispatch_cold now e.state c)

  attempt_cold :
      (o : Floats F) (a : Attempt) (e : Engine F)
      → IsCold e.state
      → ¬ Mem a.request.appliance_id (names e)
      → (attempt o a e).engine
        ≡ issue_ticket a.request.appliance_id a.fresh_token a.issued_at
            (add_demand a.request.priority_class a.request.backlog e)
  unfolding try_acquire acquire_slot
  attempt_cold o a e c absent =
      rw
        (
          idle a.request.appliance_id e absent,
          check_dispatch_cold a.checked_at (add_demand a.request.priority_class a.request.backlog e)
              (add_demand-IsCold a.request.priority_class a.request.backlog e c),
        )
        refl

  -- The engine that a granted attempt leaves.
  abbrev granted : Attempt → Engine F → Engine F
  granted a e =
      issue_ticket a.request.appliance_id a.fresh_token a.issued_at
        (add_demand a.request.priority_class a.request.backlog e)

  granted-IsCold : (a : Attempt) (e : Engine F) → IsCold e.state → IsCold (granted a e).state
  unfolding issue_ticket add_demand count_grant deduct_sustained
  granted-IsCold a e c = record {
    uncalibrated = c.uncalibrated;
    unlocked = c.unlocked;
    budget = c.budget;
  }

  granted_tickets :
      (a : Attempt) (e : Engine F)
      → ¬ Mem a.request.appliance_id (names e)
      → length (granted a e).active_tickets ≡ suc (length e.active_tickets)
  unfolding issue_ticket add_demand Dict.insert
  granted_tickets a e absent =
      ap (λ m. suc (length m))
        (Dict.erase_absent a.request.appliance_id e.active_tickets (
          Dict.lookup_absent a.request.appliance_id e.active_tickets
            (λ m. absent (mem-append.1 (Or.inr m)))))

  granted_names :
      (a : Attempt) (e : Engine F)
      → ¬ Mem a.request.appliance_id (names e)
      → Perm (names (granted a e)) (a.request.appliance_id ∷ names e)
  unfolding issue_ticket add_demand Dict.insert
  granted_names a e absent =
      rw
        (Dict.erase_absent a.request.appliance_id e.active_tickets (
          Dict.lookup_absent a.request.appliance_id e.active_tickets
            (λ m. absent (mem-append.1 (Or.inr m)))))
        (perm_middle (ids e.queue) (Dict.keys e.active_tickets))

  granted_distinct :
      (a : Attempt) (others : List String) (e : Engine F)
      → ¬ Mem a.request.appliance_id (names e)
      → Nodup (a.request.appliance_id ∷ others ++ names e)
      → Nodup (others ++ names (granted a e))
  granted_distinct a others e absent d =
      Perm.nodup
        (Perm.symm (
          Perm.trans (Perm.append_left others (granted_names a e absent))
            (perm_middle others (names e))))
        d

  -- On a server that is not calibrated, serves no penalty and has a positive remaining figure,
  -- every request of a sequence is granted at once, however long the sequence is, if the
  -- appliances are different and none of them waits or holds a ticket: the number of tickets
  -- grows by the length of the sequence.
  pub cold_grants_all :
      (o : Floats F) (as' : List Attempt) (e : Engine F)
      → IsCold e.state
      → Nodup (attempt_ids as' ++ names e)
      → length (attempts o as' e).active_tickets ≡ length as' + length e.active_tickets
  cold_grants_all o [] e c d = omega arith
  cold_grants_all o (a ∷ as') e c d =
      let absent : ¬ Mem a.request.appliance_id (names e) =
        λ m. (Nodup-cons.0 d).0 (mem-append.1 (Or.inr m)) in
      ap (λ t. length (attempts o as' t).active_tickets) (attempt_cold o a e c absent)
      ∙ cold_grants_all o as' (granted a e) (granted-IsCold a e c)
          (granted_distinct a (attempt_ids as') e absent d)
      ∙ omega (arith, granted_tickets a e absent)
