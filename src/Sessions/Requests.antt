-- ===== src/Sessions/Requests.antt =====
-- What a request over HTTP (internal/handlers/http.go) does to the queue and to the channels: nothing,
-- or one entry at the end with the channel that the handler waits on.
use mathlib.Core.List.{map-append}
use ns_cas.Base.{
  ℕ, suc, ◌≡◌, refl, sym, ap, ◌∙◌, subst, String, str_eq, List, [], ◌∷◌, ◌++◌, map, Option, none,
  some, if_cases, ◌⊎◌, inl, inr, ◌==◌,
}
use ns_cas.Base.Int.{ℤ}
use ns_cas.Chan.{set_chan}
use ns_cas.Queue.{Floats, Queue, enqueue}
use ns_cas.Messages.{Report, AcquireRequest}
use ns_cas.Engine.{
  Engine, Reply, Outcome, wait_on, check_dispatch, add_demand, add_waiter, acquire_slot,
  try_acquire,
}
use ns_cas.Reports.{process_report, try_report_and_acquire, next_class}
use ns_cas.Http.{
  Answer, decoded, acquire_answer, report_answer, token_or_poll, acquire_decoded, acquire_begin,
  report_and_acquire_decoded, report_and_acquire_begin, with_default_class,
}
use ns_cas.Sessions.{line_of}
use ns_cas.Sessions.Same.{
  Same, Same-refl, Same-trans, check_dispatch-Same, issue_ticket-Same, add_demand-Same,
  process_report-Same, notify-Same,
}

-- A reply without a channel opens no poll.
token_or_poll-line : (r : Reply) → r.ch ≡ none → line_of (token_or_poll r) ≡ none
unfolding line_of
token_or_poll-line r h = if_cases (λ a. line_of a ≡ none) (str_eq r.token "") (λ _. h) (λ _. refl)

acquire_answer-line : (r : Reply) → r.ch ≡ none → line_of (acquire_answer r) ≡ none
unfolding acquire_answer line_of
acquire_answer-line r h =
    if_cases (λ a. line_of a ≡ none) (r.code == 409) (λ _. refl)
      (λ _.
        if_cases (λ a. line_of a ≡ none) (r.code == 503) (λ _. refl) (λ _. token_or_poll-line r h))

report_answer-line : (r : Reply) → r.ch ≡ none → line_of (report_answer r) ≡ none
unfolding report_answer line_of
report_answer-line r h =
    if_cases (λ a. line_of a ≡ none) (r.code == 409) (λ _. refl)
      (λ _.
        if_cases (λ a. line_of a ≡ none) (r.code == 429) (λ _. refl)
          (λ _.
            if_cases (λ a. line_of a ≡ none) (r.code == 503) (λ _. refl)
              (λ _. token_or_poll-line r h)))

class_id : (req : AcquireRequest) → (with_default_class req).appliance_id ≡ req.appliance_id
unfolding with_default_class
class_id req =
    if_cases (λ (q : AcquireRequest). q.appliance_id ≡ req.appliance_id)
      (str_eq req.priority_class "") (λ _. refl) (λ _. refl)

module _ {F : Type 0} where
  -- The waiters with their channels.
  abbrev pub entries : Queue F → List (String × ℕ)
  entries q = map (λ it. (it.appliance_id, it.response_chan)) q.items

  pub record Enters (id : String) (e t : Engine F) : Type 0 where
    pub queue : entries t.queue ≡ entries e.queue ++ (id, e.next_chan) ∷ []
    pub chans : t.chans ≡ set_chan e.next_chan none e.chans
    pub next_chan : t.next_chan ≡ suc e.next_chan

  -- With the channel, if any, that the handler is given.
  pub data Opens (id : String) (e t : Engine F) : Option ℕ → Type 0 where
    stays : Same e t → Opens id e t none
    enters : Enters id e t → Opens id e t (some e.next_chan)

  abbrev SlotOpens : String → Engine F → Engine F × Reply → Type 0
  SlotOpens id e r = Same e r.0 × (r.1.ch ≡ none) ⊎ Enters id e r.0 × (r.1 ≡ wait_on e.next_chan)

  Enters-after : {id : String} {e d t : Engine F} → Same e d → Enters id d t → Enters id e t
  Enters-after {id} {e} {d} {t} s n = record {
    queue = n.queue ∙ (λ i. entries (s.queue i) ++ (id, s.next_chan i) ∷ []);
    chans = n.chans ∙ (λ i. set_chan (s.next_chan i) none (s.chans i));
    next_chan = n.next_chan ∙ ap suc s.next_chan;
  }

  Enters-before : {id : String} {e t u : Engine F} → Enters id e t → Same t u → Enters id e u
  Enters-before n s = record {
    queue = ap entries s.queue ∙ n.queue;
    chans = s.chans ∙ n.chans;
    next_chan = s.next_chan ∙ n.next_chan;
  }

  SlotOpens-after :
      {id : String} {e d : Engine F} {r : Engine F × Reply}
      → Same e d
      → SlotOpens id d r
      → SlotOpens id e r
  SlotOpens-after s (inl (p, h)) = inl (Same-trans s p, h)
  SlotOpens-after s (inr (n, h)) = inr (Enters-after s n, h ∙ ap wait_on s.next_chan)

  SlotOpens-before :
      {id : String} {e t u : Engine F} {reply : Reply}
      → SlotOpens id e (t, reply)
      → Same t u
      → SlotOpens id e (u, reply)
  SlotOpens-before (inl (p, h)) s = inl (Same-trans p s, h)
  SlotOpens-before (inr (n, h)) s = inr (Enters-before n s, h)

  add_waiter-Enters :
      (o : Floats F) (id class : String) (backlog now : ℤ) (e : Engine F)
      → Enters id e (add_waiter o id class backlog now e)
  unfolding add_waiter enqueue
  add_waiter-Enters o id class backlog now e = record {
    queue = map-append _ e.queue.items _;
    chans = refl;
    next_chan = refl;
  }

  acquire_slot-SlotOpens :
      (o : Floats F) (id class : String) (backlog : ℤ) (tok : String) (now later : ℤ) (e : Engine F)
      → SlotOpens id e (acquire_slot o id class backlog tok now later e)
  unfolding acquire_slot
  acquire_slot-SlotOpens o id class backlog tok now later e =
      let t = (check_dispatch now e).0 in
      SlotOpens-after (check_dispatch-Same now e) (
        if_cases (SlotOpens id t) (check_dispatch now e).1
          (λ _. inl (issue_ticket-Same id tok later t, refl))
          (λ _.
            if_cases (SlotOpens id t) _ (λ _. inl (Same-refl t, refl))
              (λ _. inr (add_waiter-Enters o id class backlog later t, refl))))

  demand_slot-SlotOpens :
      (o : Floats F) (id class name : String) (backlog more : ℤ) (tok : String) (now later : ℤ)
      (e : Engine F)
      → SlotOpens id e (acquire_slot o id class backlog tok now later (add_demand name more e))
  demand_slot-SlotOpens o id class name backlog more tok now later e =
      SlotOpens-after (add_demand-Same name more e)
        (acquire_slot-SlotOpens o id class backlog tok now later _)

  try_acquire-SlotOpens :
      (o : Floats F) (req : AcquireRequest) (tok : String) (now later : ℤ) (e : Engine F)
      → let out = try_acquire o req tok now later e in
        SlotOpens req.appliance_id e (out.engine, out.value)
  unfolding try_acquire
  try_acquire-SlotOpens o req tok now later e =
      if_cases (λ (out : Outcome F Reply). SlotOpens req.appliance_id e (out.engine, out.value)) _
        (λ _. inl (Same-refl e, refl))
        (λ _.
          demand_slot-SlotOpens o req.appliance_id req.priority_class req.priority_class req.backlog
            req.backlog tok now later e)

  try_report_and_acquire-SlotOpens :
      (o : Floats F) (r : Report) (tok : String) (reported now later : ℤ) (e : Engine F)
      → let out = try_report_and_acquire o r tok reported now later e in
        SlotOpens r.appliance_id e (out.engine, out.value)
  unfolding try_report_and_acquire
  try_report_and_acquire-SlotOpens o r tok reported now later e =
      let Goal = λ (out : Outcome F Reply). SlotOpens r.appliance_id e (out.engine, out.value) in
      let p = process_report-Same r reported e in
      if_cases Goal (process_report r reported e).value.ok
        (λ _.
          if_cases Goal (process_report r reported e).value.is_lockdown
            (λ _. inl (Same-trans p (notify-Same _), refl))
            (λ _.
              SlotOpens-before
                (SlotOpens-after p (
                  demand_slot-SlotOpens o r.appliance_id (next_class r) (next_class r) r.backlog
                    r.backlog tok now later _))
                (notify-Same _)))
        (λ _. inl (p, refl))

  acquire_answer-Opens :
      (id : String) (e t : Engine F) (r : Reply)
      → SlotOpens id e (t, r)
      → Opens id e t (line_of (acquire_answer r))
  unfolding acquire_answer line_of
  acquire_answer-Opens id e t r (inl (p, h)) =
      subst (Opens id e t) (sym (acquire_answer-line r h)) (stays p)
  acquire_answer-Opens id e t r (inr (n, h)) = rw h (enters n)

  report_answer-Opens :
      (id : String) (e t : Engine F) (r : Reply)
      → SlotOpens id e (t, r)
      → Opens id e t (line_of (report_answer r))
  unfolding report_answer line_of
  report_answer-Opens id e t r (inl (p, h)) =
      subst (Opens id e t) (sym (report_answer-line r h)) (stays p)
  report_answer-Opens id e t r (inr (n, h)) = rw h (enters n)

  -- An outcome whose answer is not from the engine.
  abbrev Goal : String → Engine F → Outcome F Answer → Type 0
  Goal id e out = Opens id e out.engine (line_of out.value)

  pub acquire_begin-Opens :
      (o : Floats F) (method : String) (req : AcquireRequest) (tok : String) (now later : ℤ)
      (e : Engine F)
      → let out = acquire_begin o method (decoded req) tok now later e in
        Opens req.appliance_id e out.engine (line_of out.value)
  unfolding acquire_begin acquire_decoded line_of
  acquire_begin-Opens o method req tok now later e =
      let id = req.appliance_id in
      let q = with_default_class req in
      let out = try_acquire o q tok now later e in
      if_cases (Goal id e) (str_eq method "POST")
        (λ _.
          if_cases (Goal id e) (str_eq id "") (λ _. stays (Same-refl e))
            (λ _. acquire_answer-Opens id e out.engine out.value (
              subst (λ k. SlotOpens k e (out.engine, out.value)) (class_id req)
                (try_acquire-SlotOpens o q tok now later e))))
        (λ _. stays (Same-refl e))

  pub report_and_acquire_begin-Opens :
      (o : Floats F) (method : String) (r : Report) (tok : String) (reported now later : ℤ)
      (e : Engine F)
      → let out = report_and_acquire_begin o method (decoded r) tok reported now later e in
        Opens r.appliance_id e out.engine (line_of out.value)
  unfolding report_and_acquire_begin report_and_acquire_decoded line_of
  report_and_acquire_begin-Opens o method r tok reported now later e =
      let id = r.appliance_id in
      if_cases (Goal id e) (str_eq method "POST")
        (λ _.
          if_cases (Goal id e) _
            (λ _.
              report_answer-Opens id e _ _
                (try_report_and_acquire-SlotOpens o r tok reported now later e))
            (λ _. stays (Same-refl e)))
        (λ _. stays (Same-refl e))
