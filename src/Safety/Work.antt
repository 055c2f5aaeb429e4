-- ===== src/Safety/Work.antt =====
-- When dispatchLoop of internal/handlers/engine.go comes to its `break`.

use ns_cas.Base.{
  ℕ, suc, ◌+◌, ◌<◌, ◌≡◌, refl, ap, false, String, List, [], ◌∷◌, ◌++◌, none, some, length, arith,
  inl, inr, ◌⊎◌, ◌↔◌, Bool-cases, Option-cases,
}
use ns_cas.State.{State}
use ns_cas.State.Spending.{has_class_quota, has_shared_quota}
use ns_cas.Queue.{Floats, Item, Queue, pop_best, len}
use ns_cas.Queue.Sort.{pop_best-none}
use ns_cas.Engine.{Engine, check_dispatch}
use ns_cas.Dispatcher.{
  Next, again, stop, Round, Turn, resume, pay_quota, dispatch_round, dispatch_pass, go_on,
}
use ns_cas.Safety.Pass.{len-pop_best, dispatch_round-Shrinks, Admits, no_turn, first_turn}

Next-cases : (n : Next) → (n ≡ again) ⊎ (n ≡ stop)
Next-cases again = inl refl
Next-cases stop = inr refl

pay_quota-none :
    (class : String) (s : State)
    → (pay_quota class s ≡ none) ↔ (has_class_quota s class ≡ false) × (has_shared_quota s ≡ false)
unfolding pay_quota
pay_quota-none class s = elim (Bool-cases (has_class_quota s class)) [
  | inl own ↦ (λ h. cc (rw own at h), λ h. cc (h.0, own))
  | inr none_left ↦ elim (Bool-cases (has_shared_quota s)) [
    | inl shared ↦ (λ h. cc (rw (none_left, shared) at h), λ h. cc (h.1, shared))
    | inr nothing ↦ (λ h. (none_left, nothing), λ h. rw (none_left, nothing) refl)
  ]
]

module _ {F : Type 0} where
  -- Why a round has nothing to do: CanDispatch says no, nobody waits, or neither the class of the best
  -- waiter nor the shared pool has a unit left.
  pub data IsBlocked (o : Floats F) (r : Round) (e : Engine F) : Type 0 where
    says_no : (check_dispatch r.checked_at e).1 ≡ false → IsBlocked o r e
    nobody : len e.queue ≡ 0 → IsBlocked o r e
    unpaid :
        (item : Item F) (rest : Queue F)
        → pop_best o r.popped_at e.queue ≡ some (item, rest)
        → has_class_quota (check_dispatch r.checked_at e).0.state item.priority_class ≡ false
        → has_shared_quota (check_dispatch r.checked_at e).0.state ≡ false
        → IsBlocked o r e

  stop-IsBlocked :
      (o : Floats F) (r : Round) (e : Engine F)
      → ((dispatch_round o r e).1 ≡ stop)
      → IsBlocked o r e
  unfolding dispatch_round check_dispatch len
  stop-IsBlocked o r e = elim (Bool-cases (check_dispatch r.checked_at e).1) [
    | inr denied ↦ λ h. says_no denied
    | inl granted ↦ elim (Option-cases (pop_best o r.popped_at e.queue)) [
      | inl empty ↦ λ h. nobody (ap length (pop_best-none o r.popped_at e.queue empty))
      | inr found ↦
          elim (Option-cases
            (pay_quota found.0.0.priority_class (check_dispatch r.checked_at e).0.state)) [
              | inl unpaid_for ↦ λ h.
                  let p = (pay_quota-none found.0.0.priority_class _).0 unpaid_for in
                  unpaid found.0.0 found.0.1 found.1 p.0 p.1
              | inr paid ↦ λ h. cc (rw (granted, found.1, paid.1) at h)
            ]
    ]
  ]

  IsBlocked-stop :
      (o : Floats F) (r : Round) (e : Engine F) → IsBlocked o r e → (dispatch_round o r e).1 ≡ stop
  unfolding dispatch_round check_dispatch
  IsBlocked-stop o r e (says_no denied) = rw denied refl
  IsBlocked-stop o r e (nobody n) = elim (Option-cases (pop_best o r.popped_at e.queue)) [
    | inl empty ↦ elim (Bool-cases (check_dispatch r.checked_at e).1) [
      | inl granted ↦ rw (granted, empty) refl
      | inr denied ↦ rw denied refl
    ]
    | inr found ↦ absurd (omega (arith, n, len-pop_best o r.popped_at e.queue found.1))
  ]
  IsBlocked-stop o r e (unpaid item rest found own shared) =
      elim (Bool-cases (check_dispatch r.checked_at e).1) [
        | inl granted ↦
            rw (granted, found, (pay_quota-none item.priority_class _).1 (own, shared)) refl
        | inr denied ↦ rw denied refl
      ]

  -- A round stops exactly when it is blocked.
  pub dispatch_round-IsBlocked :
      (o : Floats F) (r : Round) (e : Engine F)
      → ((dispatch_round o r e).1 ≡ stop) ↔ IsBlocked o r e
  dispatch_round-IsBlocked o r e = (stop-IsBlocked o r e, IsBlocked-stop o r e)

  shrunk :
      (o : Floats F) (r : Round) (e : Engine F)
      → (dispatch_round o r e).1 ≡ again
      → len e.queue ≡ suc (len (dispatch_round o r e).0.queue)
  shrunk o r e h = elim (dispatch_round-Shrinks o r e) [ inl stops ↦ cc | inr p ↦ p.1 ]

  -- Rounds that go on, each with what the server does until the loop has the lock again.
  pub data Rounds (o : Floats F) : Engine F → List (Turn F) → Engine F → Type 0 where
    no_round : {e : Engine F} → Rounds o e [] e
    first_round :
        (turn : Turn F) {turns : List (Turn F)} {e t : Engine F}
        → (dispatch_round o turn.readings e).1 ≡ again
        → Rounds o (resume turn (dispatch_round o turn.readings e).0) turns t
        → Rounds o e (turn ∷ turns) t

  -- How a pass ends: rounds that go on, and one that has nothing to do.
  pub record Ends (o : Floats F) (turns : List (Turn F)) (e t : Engine F) : Type 0 where
    pub done : List (Turn F)
    pub last : Turn F
    pub unused : List (Turn F)
    pub split : turns ≡ done ++ last ∷ unused
    pub before : Engine F
    pub rounds : Rounds o e done before
    pub blocked : IsBlocked o last.readings before
    pub result : t ≡ (dispatch_round o last.readings before).0

  Ends-later :
      {o : Floats F} {turn : Turn F} {turns : List (Turn F)} {e t : Engine F}
      → (dispatch_round o turn.readings e).1 ≡ again
      → Ends o turns (resume turn (dispatch_round o turn.readings e).0) t
      → Ends o (turn ∷ turns) e t
  Ends-later {o} {turn} {turns} h d = record {
    done = turn ∷ d.done;
    last = d.last;
    unused = d.unused;
    split = ap (◌∷◌ turn) d.split;
    before = d.before;
    rounds = first_round turn h d.rounds;
    blocked = d.blocked;
    result = d.result;
  }

  go_on-cases :
      (P : Engine F → Type 0) (p rest : Engine F × Next)
      → (p.1 ≡ stop → P p.0)
      → (p.1 ≡ again → P rest.0)
      → P (go_on p.1 rest p.0).0
  go_on-cases P (t, stop) rest h k = h refl
  go_on-cases P (t, again) rest h k = k refl

  -- A pass of the dispatch loop over a queue of n waiters, in which at most m more join while the
  -- loop has released the lock between its rounds, serves as long as it can if it is given more
  -- than n + m rounds: after rounds that go on, each followed by its token store and by whatever
  -- the other goroutines do around it, it ends with a round at which CanDispatch says no, or
  -- nobody waits, or neither the class of the best waiter nor the shared pool has a unit left.
  pub dispatch_pass-Ends :
      (o : Floats F) (turns : List (Turn F)) (e : Engine F) {m : ℕ}
      → Admits m turns
      → len e.queue + m < length turns
      → Ends o turns e (dispatch_pass o turns e).0
  unfolding dispatch_pass
  dispatch_pass-Ends o [] e no_turn h = absurd (omega arith)
  dispatch_pass-Ends o (turn ∷ turns) e (first_turn arrivals {more} joins rest) h =
      let t = (dispatch_round o turn.readings e).0 in
      go_on-cases (Ends o (turn ∷ turns) e) (dispatch_round o turn.readings e)
        (dispatch_pass o turns (resume turn t))
        (λ stops. record {
          done = [];
          last = turn;
          unused = turns;
          split = refl;
          before = e;
          rounds = no_round;
          blocked = (dispatch_round-IsBlocked o turn.readings e).0 stops;
          result = refl;
        })
        (λ goes_on. Ends-later goes_on (
          dispatch_pass-Ends o turns (resume turn t) {m = more} rest
            (omega (arith, shrunk o turn.readings e goes_on, joins t))))
