-- ===== src/Http/Exchanges.antt =====
-- What the answers of handleReportAndAcquire in internal/handlers/http.go say of the engine.
use ns_cas.Base.{
  ◌≡◌, ◌≢◌, refl, sym, ◌∙◌, true, false, String, str_eq, eq_iff, [], ◌∷◌, some, if_cases, inl, inr,
  join,
}
use ns_cas.Base.Int.{ℤ, pos, eqb_ℤ}
use ns_cas.Dict
use ns_cas.Queue.{Floats}
use ns_cas.Messages.{Report}
use ns_cas.Engine.{Engine, Reply, Outcome, refused, notify, acquire_slot, add_demand}
use ns_cas.Reports.{process_report, try_report_and_acquire, next_class}
use ns_cas.Http.{
  Body, decoded, undecodable, Answer, done, poll, error, json, queue_full, method_not_allowed,
  proceed_with, report_answer, has_names, report_and_acquire_decoded, report_and_acquire_begin,
}
use ns_cas.Http.Settling.{
  without_ticket, is_known, process_report-Settled, SlotCases-same, notify-same,
}
use ns_cas.Http.Answers.{str_ne, IsGiven, IsFull, IsQueued, SlotCases, Frame, acquire_slot-cases}

module _ {F : Type 0} where
  -- A report that goes on to the acquire.
  pub record IsCleared (method : String) (body : Body Report) (r : Report) (e : Engine F)
      : Type 0 where
    pub posted : method ≡ "POST"
    pub request : body ≡ decoded r
    pub named : has_names r ≡ true
    pub known : is_known r e ≡ true
    pub no_penalty : eqb_ℤ r.status_code (pos 429) ≡ false

  -- The answers of handleReportAndAcquire, each with what it says of the engine before and after.
  pub data IsExchanged (method tok : String) (body : Body Report) (e t : Engine F)
      : Answer → Type 0 where
    wrong_method :
        str_eq method "POST" ≡ false
        → t ≡ e
        → IsExchanged method tok body e t (done method_not_allowed)
    undecoded :
        (text : String)
        → method ≡ "POST"
        → body ≡ undecodable text
        → t ≡ e
        → IsExchanged method tok body e t (done (error 400 (join "bad request: " text)))
    nameless :
        (r : Report)
        → method ≡ "POST"
        → body ≡ decoded r
        → has_names r ≡ false
        → t ≡ e
        → IsExchanged method tok body e t
            (done (error 400 "bad request: token and appliance_id required"))
    unmatched :
        (r : Report)
        → method ≡ "POST"
        → body ≡ decoded r
        → has_names r ≡ true
        → is_known r e ≡ false
        → t ≡ e
        → IsExchanged method tok body e t
            (done (error 409 "{\"error\":\"report failed: unmatched token\"}"))
    locked :
        (r : Report)
        → method ≡ "POST"
        → body ≡ decoded r
        → has_names r ≡ true
        → is_known r e ≡ true
        → eqb_ℤ r.status_code (pos 429) ≡ true
        → t.queue ≡ e.queue
        → t.active_tickets ≡ Dict.erase r.appliance_id e.active_tickets
        → IsExchanged method tok body e t (done (json 429 (("action", "LOCKDOWN") ∷ [])))
    full :
        (r : Report)
        → IsCleared method body r e
        → IsFull (without_ticket r.appliance_id e) t
        → IsExchanged method tok body e t (done queue_full)
    granted :
        (r : Report)
        → IsCleared method body r e
        → IsGiven r.appliance_id tok (without_ticket r.appliance_id e) t
        → IsExchanged method tok body e t (done (proceed_with tok))
    waits :
        (r : Report)
        → IsCleared method body r e
        → IsQueued r.appliance_id (without_ticket r.appliance_id e) t
        → IsExchanged method tok body e t (poll (some e.next_chan))

  slot_answered :
      (tok : String) (r : Report) (e t : Engine F) (reply : Reply)
      → str_eq tok "" ≡ false
      → IsCleared "POST" (decoded r) r e
      → SlotCases r.appliance_id tok (without_ticket r.appliance_id e) (t, reply)
      → IsExchanged "POST" tok (decoded r) e t (report_answer reply)
  unfolding report_answer
  slot_answered tok r e t reply h k (inl (p, g)) = rw (p, h) (granted r k g)
  slot_answered tok r e t reply h k (inr (inl (p, g))) = rw p (full r k g)
  slot_answered tok r e t reply h k (inr (inr (p, g))) = rw p (waits r k g)

  unmatched_answered :
      (tok : String) (r : Report) (e t : Engine F)
      → has_names r ≡ true
      → is_known r e ≡ false
      → t ≡ e
      → IsExchanged "POST" tok (decoded r) e t (report_answer (refused 409))
  unfolding report_answer
  unmatched_answered tok r e t names k h = unmatched r refl refl names k h

  locked_answered :
      (tok : String) (r : Report) (e t : Engine F)
      → has_names r ≡ true
      → is_known r e ≡ true
      → eqb_ℤ r.status_code (pos 429) ≡ true
      → t.queue ≡ e.queue
      → t.active_tickets ≡ Dict.erase r.appliance_id e.active_tickets
      → IsExchanged "POST" tok (decoded r) e t (report_answer (refused 429))
  unfolding report_answer
  locked_answered tok r e t names k l q m = locked r refl refl names k l q m

  add_demand-Frame :
      (class : String) (backlog : ℤ) (e b : Engine F)
      → Frame e b
      → Frame (add_demand class backlog e) b
  unfolding add_demand
  add_demand-Frame class backlog e b h = h

  try_report_and_acquire_answered :
      (o : Floats F) (tok : String) (reported now later : ℤ) (r : Report) (e : Engine F)
      → str_eq tok "" ≡ false
      → has_names r ≡ true
      → let out = try_report_and_acquire o r tok reported now later e in
        IsExchanged "POST" tok (decoded r) e out.engine (report_answer out.value)
  unfolding try_report_and_acquire
  try_report_and_acquire_answered o tok reported now later r e h names =
      let Goal = λ (out : Outcome F Reply).
        IsExchanged "POST" tok (decoded r) e out.engine (report_answer out.value) in
      let res = process_report r reported e in
      let s = process_report-Settled r reported e in
      let id = r.appliance_id in
      let (t, reply) =
        acquire_slot o id (next_class r) r.backlog tok now later
          (add_demand (next_class r) r.backlog res.engine) in
      if_cases Goal res.value.ok
        (λ ok.
          let k = sym s.same_ok ∙ ok in
          let fr = s.frame k in
          if_cases Goal res.value.is_lockdown
            (λ lock.
              let n = notify-same res.engine in
              locked_answered tok r e (notify res.engine) names k (sym (s.locks k) ∙ lock)
                (n.0 ∙ fr.0) (n.1 ∙ fr.1))
            (λ other.
              let n = notify-same t in
              slot_answered tok r e (notify t) reply h
                (record {
                  posted = refl;
                  request = refl;
                  named = names;
                  known = k;
                  no_penalty = sym (s.locks k) ∙ other;
                })
                (SlotCases-same id tok (without_ticket id e) t (notify t) reply n.0 n.1 (
                  acquire_slot-cases o id (next_class r) r.backlog tok now later _
                    (without_ticket id e)
                    (add_demand-Frame (next_class r) r.backlog res.engine (without_ticket id e)
                      fr)))))
        (λ no.
          let k = sym s.same_ok ∙ no in unmatched_answered tok r e res.engine names k (s.kept k))

  decoded_answered :
      (o : Floats F) (tok : String) (reported now later : ℤ) (r : Report) (e : Engine F)
      → str_eq tok "" ≡ false
      → let out = report_and_acquire_decoded o r tok reported now later e in
        IsExchanged "POST" tok (decoded r) e out.engine out.value
  unfolding report_and_acquire_decoded
  decoded_answered o tok reported now later r e h =
      if_cases
        (λ (out : Outcome F Answer). IsExchanged "POST" tok (decoded r) e out.engine out.value)
        (has_names r)
        (λ names. try_report_and_acquire_answered o tok reported now later r e h names)
        (λ no. nameless r refl refl no refl)

  -- If the fresh token is not empty, the first part of handleReportAndAcquire answers in one of
  -- eight ways, each with what it says of the engine: 405 for a method other than POST; for a
  -- POST, 400 for a body that does not decode or lacks a name, and 409 for a report whose token
  -- is not that of the ticket of its appliance; all of these leave the engine as it is; LOCKDOWN
  -- with 429 for a known report of status 429, with the ticket gone and the queue as it was; and
  -- for a known report of another status, with the ticket of the appliance taken off the record
  -- first, 503 when the queue is full, PROCEED with the token when a ticket with that token is on
  -- record, or a wait on the new channel when the queue had room and the appliance now stands
  -- last in it.
  pub report_and_acquire_begin-IsExchanged :
      (o : Floats F) (method tok : String) (body : Body Report) (reported now later : ℤ)
      (e : Engine F)
      → tok ≢ ""
      → let out = report_and_acquire_begin o method body tok reported now later e in
        IsExchanged method tok body e out.engine out.value
  unfolding report_and_acquire_begin
  report_and_acquire_begin-IsExchanged o method tok (undecodable text) reported now later e h =
      if_cases
        (λ (out : Outcome F Answer).
          IsExchanged method tok (undecodable text) e out.engine out.value)
        (str_eq method "POST") (λ post. undecoded text ((eq_iff method "POST").0 post) refl refl)
        (λ wrong. wrong_method wrong refl)
  report_and_acquire_begin-IsExchanged o method tok (decoded r) reported now later e h =
      if_cases
        (λ (out : Outcome F Answer). IsExchanged method tok (decoded r) e out.engine out.value)
        (str_eq method "POST")
        (λ post.
          rw ((eq_iff method "POST").0 post)
            (decoded_answered o tok reported now later r e (str_ne tok "" h)))
        (λ wrong. wrong_method wrong refl)
