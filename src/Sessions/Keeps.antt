-- ===== src/Sessions/Keeps.antt =====
-- Steps that take waiters out of the queue only after they have told them (the dispatch loop of
-- internal/handlers/engine.go, DrainAll of internal/queue/queue.go), or not at all.
use mathlib.Core.Bool.{Bool-set}
use mathlib.Core.List.{Perm, Mem, mem-cons, not-mem-nil, map-append, append-nil, perm_middle}
use mathlib.Core.List.Perm
use mathlib.Core.Logic.Or
use mathlib.Core.Logic.{◌∨₁◌, ∨₁_prop}
use ns_cas.Base.{
  ℕ, ◌≤◌, ◌≡◌, refl, sym, ap, subst, Bool, true, false, String, List, [], ◌∷◌, map, Option, none,
  some, if_cases, arith,
}
use ns_cas.Base.Int.{ℤ}
use ns_cas.Chan.{Chans, set_chan, try_send, is_empty}
use ns_cas.State.{State}
use ns_cas.Queue.{Floats, Item, Queue, enqueue, pop_best, send_all, drain_all}
use ns_cas.Queue.Sort.{pop_best-perm}
use ns_cas.Engine.{Engine, check_dispatch, issue_ticket, grant_from_queue}
use ns_cas.Dispatcher.{
  Next, Round, pay_quota, drop_ticket, hand_over, serve, serve_best, dispatch_round, shut_down,
}
use ns_cas.Sessions.Same.{Same, Same-refl, check_dispatch-Same}
use ns_cas.Sessions.Requests.{entries}

-- A value waits in the channel.
abbrev pub IsFilled : ℕ → Chans → Type 0
IsFilled c cs = is_empty (cs c) ≡ false

try_send-IsFilled : (c : ℕ) (b : Bool) (cs : Chans) → IsFilled c (try_send c b cs).0
unfolding try_send set_chan
try_send-IsFilled c b cs = ground arith

try_send-keeps : (c d : ℕ) (b : Bool) (cs : Chans) → IsFilled c cs → IsFilled c (try_send d b cs).0
unfolding try_send set_chan
try_send-keeps c d b cs h = ground arith

module _ {F : Type 0} where
  send_all-keeps :
      (c : ℕ) (b : Bool) (its : List (Item F)) (cs : Chans)
      → IsFilled c cs
      → IsFilled c (send_all b its cs)
  unfolding send_all
  send_all-keeps c b [] cs h = h
  send_all-keeps c b (it ∷ its) cs h =
      send_all-keeps c b its _ (try_send-keeps c it.response_chan b cs h)

  pub record Keeps (e t : Engine F) : Type 0 where
    pub made : e.next_chan ≤ t.next_chan
    pub waiting :
        (id : String) (c : ℕ)
        → Mem (id, c) (entries e.queue)
        → Mem (id, c) (entries t.queue) ∨₁ IsFilled c t.chans
    pub filled : (c : ℕ) → IsFilled c e.chans → IsFilled c t.chans
    pub no_more :
        (id : String) (c : ℕ) → Mem (id, c) (entries t.queue) → Mem (id, c) (entries e.queue)

  pub Same-Keeps : {e t : Engine F} → Same e t → Keeps e t
  Same-Keeps {e} {t} s = record {
    made = omega (arith, s.next_chan);
    waiting = λ id c m. Or.inl (subst (λ q. Mem (id, c) (entries q)) (sym s.queue) m);
    filled = λ c h. subst (IsFilled c) (sym s.chans) h;
    no_more = λ id c m. subst (λ q. Mem (id, c) (entries q)) s.queue m;
  }

  pub Keeps-trans : {e t u : Engine F} → Keeps e t → Keeps t u → Keeps e u
  Keeps-trans p q = record {
    made = omega (arith, p.made, q.made);
    waiting =
        λ id c m. Or.elim ∨₁_prop (p.waiting id c m) (q.waiting id c) (λ h. Or.inr (q.filled c h));
    filled = λ c h. q.filled c (p.filled c h);
    no_more = λ id c m. p.no_more id c (q.no_more id c m);
  }

  abbrev pub entry_of : Item F → String × ℕ
  entry_of it = (it.appliance_id, it.response_chan)

  send_all-fills :
      (id : String) (c : ℕ) (b : Bool) (its : List (Item F)) (cs : Chans)
      → Mem (id, c) (map entry_of its)
      → IsFilled c (send_all b its cs)
  unfolding send_all
  send_all-fills id c b [] cs m = absurd (not-mem-nil m)
  send_all-fills id c b (it ∷ its) cs m =
      Or.elim (Bool-set (is_empty (send_all b its (try_send it.response_chan b cs).0 c)) false)
        (mem-cons.0 m)
        (λ p. send_all-keeps c b its _ (
          subst (λ k. IsFilled k (try_send it.response_chan b cs).0) (sym (ap (λ w. w.1) p))
            (try_send-IsFilled it.response_chan b cs)))
        (send_all-fills id c b its _)

  pub shut_down-Keeps : (e : Engine F) → Keeps e (shut_down e)
  unfolding shut_down drain_all
  shut_down-Keeps e = record {
    made = omega arith;
    waiting = λ id c m. Or.inr (send_all-fills id c false e.queue.items e.chans m);
    filled = λ c h. send_all-keeps c false e.queue.items e.chans h;
    no_more = λ id c m. absurd (not-mem-nil m);
  }

  -- One waiter is taken out of the queue and told.
  record IsServed (it : Item F) (e t : Engine F) : Type 0 where
    pub rest : Perm (entries e.queue) (entry_of it ∷ entries t.queue)
    pub told : t.chans ≡ (try_send it.response_chan true e.chans).0
    pub next_chan : t.next_chan ≡ e.next_chan

  IsServed-Keeps : {it : Item F} {e t : Engine F} → IsServed it e t → Keeps e t
  IsServed-Keeps {it} {e} {t} s = record {
    made = omega (arith, s.next_chan);
    waiting = λ id c m.
        Or.elim ∨₁_prop (mem-cons.0 ((Perm.mem_iff s.rest).0 m))
          (λ p. Or.inr (
            subst (λ k. IsFilled k t.chans) (sym (ap (λ w. w.1) p))
              (subst (IsFilled it.response_chan) (sym s.told)
                (try_send-IsFilled it.response_chan true e.chans))))
          Or.inl;
    filled =
        λ c h. subst (IsFilled c) (sym s.told) (try_send-keeps c it.response_chan true e.chans h);
    no_more = λ id c m. (Perm.mem_iff s.rest).1 (mem-cons.1 (Or.inr m));
  }

  hand_over-chans :
      (it : Item F) (tok : String) (e : Engine F)
      → (hand_over it tok e).chans ≡ (try_send it.response_chan true e.chans).0
  unfolding hand_over try_send drop_ticket
  hand_over-chans it tok e = ground arith

  hand_over-queue :
      (it : Item F) (tok : String) (e : Engine F)
      → ((hand_over it tok e).queue ≡ e.queue) × ((hand_over it tok e).next_chan ≡ e.next_chan)
  unfolding hand_over try_send drop_ticket
  hand_over-queue it tok e = (ground arith, ground arith)

  entries-enqueue :
      (it : Item F) (q : Queue F) → Perm (entry_of it ∷ entries q) (entries (enqueue it q))
  unfolding enqueue
  entries-enqueue it q =
      rw (map-append entry_of q.items (it ∷ []))
        (Perm.symm (rw append-nil at (perm_middle {a = entry_of it} (entries q) [])))

  serve-Keeps :
      (it : Item F) (q : Queue F) (r : Round) (paid : Option State) (e : Engine F)
      → Perm (entries e.queue) (entry_of it ∷ entries q)
      → Keeps e (serve it q r paid e).0
  unfolding enqueue grant_from_queue issue_ticket
  serve-Keeps it q r none e p =
      let back : Perm (entries e.queue) (entries (enqueue it q)) =
        Perm.trans p (entries-enqueue it q) in
      record {
        made = omega arith;
        waiting = λ id c m. Or.inl ((Perm.mem_iff back).0 m);
        filled = λ c h. h;
        no_more = λ id c m. (Perm.mem_iff back).1 m;
      }
  serve-Keeps it q r (some s) e p =
      let d = grant_from_queue it r.fresh_token r.issued_at (record e { state = s; queue = q }) in
      let h = hand_over-queue it r.fresh_token d in
      IsServed-Keeps {it = it} (record {
        rest = subst (λ k. Perm (entries e.queue) (entry_of it ∷ entries k)) (sym h.0) p;
        told = hand_over-chans it r.fresh_token d;
        next_chan = h.1;
      })

  serve_best-Keeps :
      (o : Floats F) (now : ℤ) (r : Round) (popped : Option (Item F × Queue F)) (e : Engine F)
      → pop_best o now e.queue ≡ popped
      → Keeps e (serve_best popped r e).0
  serve_best-Keeps o now r none e p = Same-Keeps (Same-refl e)
  serve_best-Keeps o now r (some (it, q)) e p =
      serve-Keeps it q r (pay_quota it.priority_class e.state) e
        (Perm.map entry_of (pop_best-perm o now e.queue p))

  pub dispatch_round-Keeps :
      (o : Floats F) (r : Round) (e : Engine F) → Keeps e (dispatch_round o r e).0
  unfolding dispatch_round
  dispatch_round-Keeps o r e =
      let t = (check_dispatch r.checked_at e).0 in
      let s = Same-Keeps (check_dispatch-Same r.checked_at e) in
      if_cases (λ (p : Engine F × Next). Keeps e p.0) (check_dispatch r.checked_at e).1
        (λ _.
          Keeps-trans s (serve_best-Keeps o r.popped_at r (pop_best o r.popped_at t.queue) t refl))
        (λ _. s)
