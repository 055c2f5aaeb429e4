-- ===== src/Http/Polls.antt =====
-- The handlers of internal/handlers/http.go as sequences of the server's atomic steps, the end of a
-- long poll, and the figures of /status.

use mathlib.Core.List.{Mem, Nodup, Nodup-cons, Nodup-append}
use mathlib.Core.List.Perm
use ns_cas.Base.{
  ◌≡◌, refl, ap, ◌∙◌, Bool, true, false, String, str_eq, if_cases, Bool-cases, inl, inr, ◌⊎◌, arith,
  length,
}
use ns_cas.Base.Int.{ℤ, pos, ◌≤ℤ◌}
use ns_cas.Dict
use ns_cas.State.{Config}
use ns_cas.Queue.{Floats, Queue, remove, has_item}
use ns_cas.Queue.Waiting.{ids, remove_item-perm, remove_item_absent, has_item-false}
use ns_cas.Messages.{Report, AcquireRequest}
use ns_cas.Engine.{Engine, Outcome, remove_from_queue}
use ns_cas.Safety.Slots.{IsSound}
use ns_cas.Safety.System.{
  acquire, report_and_acquire, give_up, collect, Reach, next, fresh_server, server-IsSound,
}
use ns_cas.Http.{
  Body, decoded, undecodable, Answer, Wakeup, received, timed_out, disconnected, acquire_decoded,
  acquire_begin, report_and_acquire_decoded, report_and_acquire_begin, poll_end, status_of,
  with_default_class,
}

module _ {F : Type 0} where
  pub remove-Absent : (id : String) (q : Queue F) → Nodup (ids q) → ¬ Mem id (ids (remove id q).0)
  unfolding remove
  remove-Absent id q d = elim (Bool-cases (has_item id q.items)) [
    | inl hit ↦ (Nodup-cons.0 (Perm.nodup (remove_item-perm id q.items hit) d)).0
    | inr miss ↦ rw (remove_item_absent id q.items miss) (has_item-false id q.items miss)
  ]

  -- Without a slot the appliance no longer waits, and its ticket, if it was given one meanwhile,
  -- stays on record.
  abbrev IsGivenUp : String → Engine F → Engine F → Type 0
  IsGivenUp id e t =
      (¬ Mem id (ids t.queue)) × (t.active_tickets ≡ e.active_tickets) × (t.state ≡ e.state)

  remove_from_queue-IsGivenUp :
      (id : String) (e : Engine F) → IsSound e → IsGivenUp id e (remove_from_queue id e)
  unfolding remove_from_queue
  remove_from_queue-IsGivenUp id e s =
      (remove-Absent id e.queue (Nodup-append.0 s.distinct).0, refl, refl)

  -- In every state that a fresh server can reach, a long poll that ends in any way but by
  -- receiving true, by a timeout, a client that has gone or a closed queue, leaves no entry of
  -- the appliance in the queue, and leaves the tickets and the quota state as they were; so a
  -- ticket that the appliance was given meanwhile stays on record.
  pub poll_end_gives_up :
      (o : Floats F) (c : Config) (w : F) (max_queue : ℤ) (has_db : Bool) (id : String) (k : Wakeup)
      {e : Engine F}
      → Reach o (fresh_server c w max_queue has_db) e
      → let t = (poll_end id k e).0 in
        (k ≡ received true)
        ⊎ (¬ Mem id (ids t.queue)) × (t.active_tickets ≡ e.active_tickets) × (t.state ≡ e.state)
  unfolding poll_end
  poll_end_gives_up o c w max_queue has_db id (received true) p = inl refl
  poll_end_gives_up o c w max_queue has_db id (received false) {e} p =
      inr (remove_from_queue-IsGivenUp id e (server-IsSound o c w max_queue has_db p))
  poll_end_gives_up o c w max_queue has_db id timed_out {e} p =
      inr (remove_from_queue-IsGivenUp id e (server-IsSound o c w max_queue has_db p))
  poll_end_gives_up o c w max_queue has_db id disconnected {e} p =
      inr (remove_from_queue-IsGivenUp id e (server-IsSound o c w max_queue has_db p))

  pub poll_end-Reach :
      (o : Floats F) (id : String) (k : Wakeup) {s e : Engine F}
      → Reach o s e
      → Reach o s (poll_end id k e).0
  unfolding poll_end
  poll_end-Reach o id (received true) p = next p (collect id)
  poll_end-Reach o id (received false) p = next p (give_up id)
  poll_end-Reach o id timed_out p = next p (give_up id)
  poll_end-Reach o id disconnected p = next p (give_up id)

  pub acquire_begin-Reach :
      (o : Floats F) (method tok : String) (body : Body AcquireRequest) (now later : ℤ)
      {s e : Engine F}
      → Reach o s e
      → Reach o s (acquire_begin o method body tok now later e).engine
  unfolding acquire_begin acquire_decoded
  acquire_begin-Reach o method tok (undecodable text) now later {s} p =
      if_cases (λ (out : Outcome F Answer). Reach o s out.engine) (str_eq method "POST") (λ _. p)
        (λ _. p)
  acquire_begin-Reach o method tok (decoded req) now later {s} p =
      if_cases (λ (out : Outcome F Answer). Reach o s out.engine) (str_eq method "POST")
        (λ _.
          if_cases (λ (out : Outcome F Answer). Reach o s out.engine) (str_eq req.appliance_id "")
            (λ _. p) (λ _. next p (acquire (with_default_class req) tok now later)))
        (λ _. p)

  pub report_and_acquire_begin-Reach :
      (o : Floats F) (method tok : String) (body : Body Report) (reported now later : ℤ)
      {s e : Engine F}
      → Reach o s e
      → Reach o s (report_and_acquire_begin o method body tok reported now later e).engine
  unfolding report_and_acquire_begin report_and_acquire_decoded
  report_and_acquire_begin-Reach o method tok (undecodable text) reported now later {s} p =
      if_cases (λ (out : Outcome F Answer). Reach o s out.engine) (str_eq method "POST") (λ _. p)
        (λ _. p)
  report_and_acquire_begin-Reach o method tok (decoded r) reported now later {s} p =
      if_cases (λ (out : Outcome F Answer). Reach o s out.engine) (str_eq method "POST")
        (λ _.
          if_cases (λ (out : Outcome F Answer). Reach o s out.engine) _
            (λ _. next p (report_and_acquire r tok reported now later)) (λ _. p))
        (λ _. p)

  pub handlers-Reach :
      (o : Floats F) (method id tok : String) (req : Body AcquireRequest) (rep : Body Report)
      (k : Wakeup) (reported now later : ℤ) {s e : Engine F}
      → Reach o s e
      → Reach o s (acquire_begin o method req tok now later e).engine
        × Reach o s (report_and_acquire_begin o method rep tok reported now later e).engine
        × Reach o s (poll_end id k e).0
  handlers-Reach o method id tok req rep k reported now later p = (
    acquire_begin-Reach o method tok req now later p,
    report_and_acquire_begin-Reach o method tok rep reported now later p,
    poll_end-Reach o id k p,
  )

  -- In every state that a fresh server can reach, the answer of /status shows as many tickets in
  -- flight as it lists active appliances, its available and remaining sustained figures are not
  -- negative, and its sustained baseline is at most the configured ceiling.
  pub status_of-figures :
      (o : Floats F) (c : Config) (w : F) (max_queue : ℤ) (has_db : Bool) {e : Engine F}
      → Reach o (fresh_server c w max_queue has_db) e
      → let s = status_of e in
        (s.in_flight ≡ pos (length s.active_appliances))
        × (pos 0 ≤ℤ s.available)
        × (pos 0 ≤ℤ s.sustained_remaining)
        × (s.sustained_baseline ≤ℤ e.state.config.sustained_max_limit)
  unfolding status_of
  status_of-figures o c w max_queue has_db {e} p =
      let s = server-IsSound o c w max_queue has_db p in
      (
        s.flight ∙ ap pos (Dict.length-keys e.active_tickets),
        ground arith,
        ground arith,
        s.state_valid.config_valid.limit-le-max,
      )
