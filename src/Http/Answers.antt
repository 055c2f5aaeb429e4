-- ===== src/Http/Answers.antt =====
-- What the answers of handleAcquire in internal/handlers/http.go say of the engine.
use ns_cas.Base.{
  ◌≡◌, ◌≢◌, refl, ap, Bool, ◌∙◌, subst, true, false, String, str_eq, eq_iff, [], ◌∷◌, ◌++◌, some,
  if_cases, ◌||◌, Bool-cases, inl, inr, ◌⊎◌, arith,
}
use ns_cas.Base.Int.{ℤ, pos, ◌≤ℤ◌, leb_ℤ}
use ns_cas.Dict
use ns_cas.Queue.{Floats, len, has_appliance}
use ns_cas.Queue.Waiting.{ids, ids-enqueue}
use ns_cas.Messages.{AcquireRequest, ActiveTicket}
use ns_cas.Engine.{
  Engine, Reply, Outcome, refused, proceed, wait_on, acquire_slot, check_dispatch, add_demand,
  add_waiter, issue_ticket, try_acquire, holds_ticket, count_grant, new_ticket,
}
use ns_cas.Http.{
  Body, decoded, undecodable, Answer, done, poll, error, queue_full, method_not_allowed,
  proceed_with, acquire_answer, with_default_class, acquire_decoded, acquire_begin,
}
use ns_cas.Safety.Slots.{lookup-issue_ticket}

pub str_ne : (a b : String) → a ≢ b → str_eq a b ≡ false
str_ne a b h = elim (Bool-cases (str_eq a b)) [
  | inl hit ↦ absurd (h ((eq_iff a b).0 hit))
  | inr miss ↦ miss
]

le_of_leb : (a b : ℤ) → leb_ℤ a b ≡ true → a ≤ℤ b
le_of_leb a b h = ground arith

same_id : (req : AcquireRequest) → (with_default_class req).appliance_id ≡ req.appliance_id
unfolding with_default_class
same_id req =
    if_cases (λ (q : AcquireRequest). q.appliance_id ≡ req.appliance_id)
      (str_eq req.priority_class "") (λ _. refl) (λ _. refl)

module _ {F : Type 0} where
  -- What the part of an acquire that may grant does, beside the quota: a ticket with the token on
  -- record, nothing because the queue is full, or a place at the end of the queue.
  pub record IsGiven (id tok : String) (e t : Engine F) : Type 0 where
    pub ticket : ActiveTicket
    pub on_record : Dict.lookup id t.active_tickets ≡ some ticket
    pub same_token : ticket.token ≡ tok
    pub same_queue : t.queue ≡ e.queue

  pub record IsFull (e t : Engine F) : Type 0 where
    pub no_room : e.max_queue ≤ℤ pos (len e.queue)
    pub same_queue : t.queue ≡ e.queue
    pub same_tickets : t.active_tickets ≡ e.active_tickets

  pub record IsQueued (id : String) (e t : Engine F) : Type 0 where
    pub room : leb_ℤ e.max_queue (pos (len e.queue)) ≡ false
    pub last : ids t.queue ≡ ids e.queue ++ id ∷ []
    pub same_tickets : t.active_tickets ≡ e.active_tickets

  abbrev pub SlotCases : String → String → Engine F → Engine F × Reply → Type 0
  SlotCases id tok e r =
      (r.1 ≡ proceed tok) × IsGiven id tok e r.0
      ⊎ (r.1 ≡ refused 503) × IsFull e r.0
      ⊎ (r.1 ≡ wait_on e.next_chan) × IsQueued id e r.0

  -- The same queue and tickets.
  abbrev pub Frame : Engine F → Engine F → Type 0
  Frame t e =
      (t.queue ≡ e.queue)
      × (t.active_tickets ≡ e.active_tickets)
      × (t.max_queue ≡ e.max_queue)
      × (t.next_chan ≡ e.next_chan)

  check_dispatch-Frame : (now : ℤ) (t e : Engine F) → Frame t e → Frame (check_dispatch now t).0 e
  unfolding check_dispatch
  check_dispatch-Frame now t e h = h

  add_demand-Frame :
      (class : String) (backlog : ℤ) (e : Engine F) → Frame (add_demand class backlog e) e
  unfolding add_demand
  add_demand-Frame class backlog e = (refl, refl, refl, refl)

  IsGiven-here :
      (id tok : String) (now : ℤ) (e t : Engine F)
      → t.queue ≡ e.queue
      → IsGiven id tok e (issue_ticket id tok now t)
  unfolding issue_ticket new_ticket
  IsGiven-here id tok now e t h = record {
    ticket = new_ticket id tok now (count_grant t.state);
    on_record = lookup-issue_ticket id tok now t;
    same_token = refl;
    same_queue = h;
  }

  IsQueued-here :
      (o : Floats F) (id class : String) (backlog now : ℤ) (e t : Engine F)
      → t.queue ≡ e.queue
      → t.active_tickets ≡ e.active_tickets
      → leb_ℤ e.max_queue (pos (len e.queue)) ≡ false
      → IsQueued id e (add_waiter o id class backlog now t)
  unfolding add_waiter
  IsQueued-here o id class backlog now e t q m free = record {
    room = free;
    last = ids-enqueue _ t.queue ∙ ap (λ w. ids w ++ id ∷ []) q;
    same_tickets = m;
  }

  pub acquire_slot-cases :
      (o : Floats F) (id class : String) (backlog : ℤ) (tok : String) (now later : ℤ)
      (d e : Engine F)
      → Frame d e
      → SlotCases id tok e (acquire_slot o id class backlog tok now later d)
  unfolding acquire_slot
  acquire_slot-cases o id class backlog tok now later d e same =
      let t = (check_dispatch now d).0 in
      let (q, m, k, c) = check_dispatch-Frame now d e same in
      if_cases (SlotCases id tok e) (check_dispatch now d).1
        (λ _. inl (refl, IsGiven-here id tok later e t q))
        (λ _.
          if_cases (SlotCases id tok e) (leb_ℤ t.max_queue (pos (len t.queue)))
            (λ full. inr (
              inl (
                refl,
                record {
                  no_room =
                      subst (λ w. e.max_queue ≤ℤ pos (len w)) q
                        (subst (λ n. n ≤ℤ pos (len t.queue)) k
                          (le_of_leb t.max_queue (pos (len t.queue)) full));
                  same_queue = q;
                  same_tickets = m;
                },
              )))
            (λ free. inr (
              inr (
                ap wait_on c,
                IsQueued-here o id class backlog later e t q m (
                    subst (λ w. leb_ℤ e.max_queue (pos (len w)) ≡ false) q
                      (subst (λ n. leb_ℤ n (pos (len t.queue)) ≡ false) k free)),
              ))))

  -- Whether the appliance holds a ticket or waits.
  abbrev pub is_busy : String → Engine F → Bool
  is_busy id e = holds_ticket id e.active_tickets || has_appliance id e.queue

  -- A request that none of the tests of handleAcquire and TryAcquire turns away.
  pub record IsAdmitted (method : String) (body : Body AcquireRequest) (req : AcquireRequest)
      (e : Engine F) : Type 0 where
    pub posted : method ≡ "POST"
    pub request : body ≡ decoded req
    pub named : str_eq req.appliance_id "" ≡ false
    pub idle : is_busy req.appliance_id e ≡ false

  -- The answers of handleAcquire, each with what it says of the engine before and after.
  pub data IsAnswered (method tok : String) (body : Body AcquireRequest) (e t : Engine F)
      : Answer → Type 0 where
    wrong_method :
        str_eq method "POST" ≡ false
        → t ≡ e
        → IsAnswered method tok body e t (done method_not_allowed)
    undecoded :
        (text : String)
        → method ≡ "POST"
        → body ≡ undecodable text
        → t ≡ e
        → IsAnswered method tok body e t (done (error 400 "bad request: appliance_id required"))
    nameless :
        (req : AcquireRequest)
        → method ≡ "POST"
        → body ≡ decoded req
        → req.appliance_id ≡ ""
        → t ≡ e
        → IsAnswered method tok body e t (done (error 400 "bad request: appliance_id required"))
    busy :
        (req : AcquireRequest)
        → method ≡ "POST"
        → body ≡ decoded req
        → str_eq req.appliance_id "" ≡ false
        → is_busy req.appliance_id e ≡ true
        → t ≡ e
        → IsAnswered method tok body e t
            (done (error 409 "{\"error\":\"appliance already holds an active ticket\"}"))
    full :
        (req : AcquireRequest)
        → IsAdmitted method body req e
        → IsFull e t
        → IsAnswered method tok body e t (done queue_full)
    granted :
        (req : AcquireRequest)
        → IsAdmitted method body req e
        → IsGiven req.appliance_id tok e t
        → IsAnswered method tok body e t (done (proceed_with tok))
    waits :
        (req : AcquireRequest)
        → IsAdmitted method body req e
        → IsQueued req.appliance_id e t
        → IsAnswered method tok body e t (poll (some e.next_chan))

  slot_answered :
      (tok : String) (req : AcquireRequest) (e : Engine F) (r : Engine F × Reply)
      → str_eq tok "" ≡ false
      → IsAdmitted "POST" (decoded req) req e
      → SlotCases req.appliance_id tok e r
      → IsAnswered "POST" tok (decoded req) e r.0 (acquire_answer r.1)
  unfolding acquire_answer
  slot_answered tok req e r h a (inl (reply, g)) = rw (reply, h) (granted req a g)
  slot_answered tok req e r h a (inr (inl (reply, g))) = rw reply (full req a g)
  slot_answered tok req e r h a (inr (inr (reply, g))) = rw reply (waits req a g)

  busy_answered :
      (tok : String) (req : AcquireRequest) (e : Engine F)
      → str_eq req.appliance_id "" ≡ false
      → is_busy req.appliance_id e ≡ true
      → IsAnswered "POST" tok (decoded req) e e (acquire_answer (refused 409))
  unfolding acquire_answer
  busy_answered tok req e name held = busy req refl refl name held refl

  try_acquire_answered :
      (o : Floats F) (tok : String) (now later : ℤ) (req q : AcquireRequest) (e : Engine F)
      → str_eq tok "" ≡ false
      → str_eq req.appliance_id "" ≡ false
      → q.appliance_id ≡ req.appliance_id
      → IsAnswered "POST" tok
          (decoded req)
          e
          (try_acquire o q tok now later e).engine
          (acquire_answer (try_acquire o q tok now later e).value)
  unfolding try_acquire
  try_acquire_answered o tok now later req q e h name same =
      let r =
        acquire_slot o q.appliance_id q.priority_class q.backlog tok now later
          (add_demand q.priority_class q.backlog e) in
      if_cases
        (λ (out : Outcome F Reply).
          IsAnswered "POST" tok (decoded req) e out.engine (acquire_answer out.value))
        _ (λ held. busy_answered tok req e name (subst (λ id. is_busy id e ≡ true) same held))
        (λ idle.
          slot_answered tok req e r h
            (record {
              posted = refl;
              request = refl;
              named = name;
              idle = subst (λ id. is_busy id e ≡ false) same idle;
            })
            (subst (λ id. SlotCases id tok e r) same
              (acquire_slot-cases o q.appliance_id q.priority_class q.backlog tok now later _ e
                (add_demand-Frame q.priority_class q.backlog e))))

  decoded_answered :
      (o : Floats F) (tok : String) (now later : ℤ) (req : AcquireRequest) (e : Engine F)
      → str_eq tok "" ≡ false
      → IsAnswered "POST" tok
          (decoded req)
          e
          (acquire_decoded o req tok now later e).engine
          (acquire_decoded o req tok now later e).value
  unfolding acquire_decoded
  decoded_answered o tok now later req e h =
      if_cases
        (λ (out : Outcome F Answer). IsAnswered "POST" tok (decoded req) e out.engine out.value)
        (str_eq req.appliance_id "")
        (λ empty. nameless req refl refl ((eq_iff req.appliance_id "").0 empty) refl)
        (λ name.
          try_acquire_answered o tok now later req (with_default_class req) e h name (same_id req))

  -- If the fresh token is not empty, the first part of handleAcquire answers in one of seven
  -- ways, each with what it says of the engine: 405 for a method other than POST; for a POST, 400
  -- for a body that does not decode, 400 for an empty appliance, and 409 for a named appliance
  -- that waits or holds a ticket; all of these leave the engine as it is; and for a POST with a
  -- named appliance that neither waits nor holds a ticket, 503 when the queue is full, with queue
  -- and tickets as they were; PROCEED with the token, when a ticket with that token is on record
  -- and the queue is as it was; or a wait on the new channel, when the queue had room and the
  -- appliance now stands last in it.
  pub acquire_begin-IsAnswered :
      (o : Floats F) (method tok : String) (body : Body AcquireRequest) (now later : ℤ)
      (e : Engine F)
      → tok ≢ ""
      → IsAnswered method tok body e
          (acquire_begin o method body tok now later e).engine
          (acquire_begin o method body tok now later e).value
  unfolding acquire_begin
  acquire_begin-IsAnswered o method tok (undecodable text) now later e h =
      if_cases
        (λ (out : Outcome F Answer).
          IsAnswered method tok (undecodable text) e out.engine out.value)
        (str_eq method "POST") (λ post. undecoded text ((eq_iff method "POST").0 post) refl refl)
        (λ wrong. wrong_method wrong refl)
  acquire_begin-IsAnswered o method tok (decoded req) now later e h =
      if_cases
        (λ (out : Outcome F Answer). IsAnswered method tok (decoded req) e out.engine out.value)
        (str_eq method "POST")
        (λ post.
          rw ((eq_iff method "POST").0 post)
            (decoded_answered o tok now later req e (str_ne tok "" h)))
        (λ wrong. wrong_method wrong refl)
