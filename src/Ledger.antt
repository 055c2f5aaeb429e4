-- ===== src/Ledger.antt =====
-- An abstract view of the server of internal/handlers/engine.go: who waits and who holds a ticket.
-- Quotas, times, tokens, priorities and channels are forgotten, and the order of the names is too.
use mathlib.Core.List.{Perm, Mem, Sublist}
use ns_cas.Base.{Bool, true, false, String, List, [], ◌∷◌, ◌++◌}
pub mod Requests
pub mod Rounds
pub mod Simulation

pub record Ledger : Type 0 where
  pub waiting : List String
  pub holding : List String

abbrev pub everyone : Ledger → List String
everyone l = l.waiting ++ l.holding

-- What may happen to a ledger.
pub data Kind : Type 0 where
  granting entering promoting leaving releasing : String → Kind
  expiring closing : Kind

-- An appliance that is not on the ledger may be given a ticket or a place in the line; a waiter may
-- be given a ticket, or leave; a holder may give a ticket back; tickets may expire, and the line may
-- close.
pub data Move (l : Ledger) : Kind → Ledger → Type 0 where
  grant :
      (id : String)
      → ¬ Mem id (everyone l)
      → Move l (granting id) (record l { holding = id ∷ l.holding })
  enter :
      (id : String)
      → ¬ Mem id (everyone l)
      → Move l (entering id) (record l { waiting = id ∷ l.waiting })
  promote :
      (id : String) (others : List String)
      → Perm l.waiting (id ∷ others)
      → Move l (promoting id) (record { waiting = others; holding = id ∷ l.holding })
  leave :
      (id : String) (others : List String)
      → Perm l.waiting (id ∷ others)
      → Move l (leaving id) (record l { waiting = others })
  release :
      (id : String) (others : List String)
      → Perm l.holding (id ∷ others)
      → Move l (releasing id) (record l { holding = others })
  expire :
      (others : List String)
      → Sublist others l.holding
      → Move l expiring (record l { holding = others })
  close : Move l closing (record l { waiting = [] })

-- A sequence of moves, the latest first; the order of the names may change at any time.
pub data Moves (l : Ledger) : List Kind → Ledger → Type 0 where
  none_made : Moves l [] l
  then_move :
      {k : Kind} {ks : List Kind} {m n : Ledger} → Moves l ks m → Move m k n → Moves l (k ∷ ks) n
  reordered :
      {ks : List Kind} {m : Ledger} (waiting holding : List String)
      → Moves l ks m
      → Perm m.waiting waiting
      → Perm m.holding holding
      → Moves l ks (record { waiting = waiting; holding = holding })

pub one-Move : {l m : Ledger} {k : Kind} → Move l k m → Moves l (k ∷ []) m
one-Move s = then_move none_made s

pub Moves-trans :
    {l m : Ledger} {ks js : List Kind} {n : Ledger}
    → Moves l ks m
    → Moves m js n
    → Moves l (js ++ ks) n
Moves-trans p none_made = p
Moves-trans p (then_move q s) = then_move (Moves-trans p q) s
Moves-trans p (reordered waiting holding q a b) = reordered waiting holding (Moves-trans p q) a b

-- What a request, a report that is accepted or not, both at once, a timeout and a round of the dispatch loop may do.
pub data Asked (id : String) : List Kind → Type 0 where
  not_served : Asked id []
  granted : Asked id (granting id ∷ [])
  queued : Asked id (entering id ∷ [])

pub data Reported (id : String) : Bool → List Kind → Type 0 where
  unknown : Reported id false []
  settled : Reported id true (releasing id ∷ [])

pub data Exchanged (id : String) : List Kind → Type 0 where
  not_accepted : Exchanged id []
  exchanged : {ks : List Kind} → Asked id ks → Exchanged id (ks ++ releasing id ∷ [])

pub data GaveUp (id : String) : List Kind → Type 0 where
  was_gone : GaveUp id []
  left : GaveUp id (leaving id ∷ [])

pub data Served : List Kind → Type 0 where
  nobody : Served []
  served : (id : String) → Served (promoting id ∷ [])

pub data Exactly (ks : List Kind) : List Kind → Type 0 where
  exactly : Exactly ks ks
