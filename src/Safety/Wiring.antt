-- ===== src/Safety/Wiring.antt =====
-- The channels of the waiters (`ResponseChan` in internal/queue/queue.go): an item's channel is its
-- own, has been made, and is empty as long as the item waits.
pub mod Steps
pub mod Background
pub mod Shutdown
pub mod Collect
use mathlib.Core.List
use mathlib.Core.List.{
  Perm, Mem, Nodup, Nodup-cons, Nodup-nil, Sublist, not-mem-nil, mem-cons, mem_of_ne_of_mem,
  map-append, perm_middle, append-nil,
}
use mathlib.Core.List.Perm
use mathlib.Core.List.Nodup
use mathlib.Core.List.Sublist
use mathlib.Core.Logic.Or
use mathlib.Core.HLevel.{⊥_prop}
use ns_cas.Base.{
  ℕ, suc, ◌+◌, ◌<◌, ◌==◌, ◌≡◌, ◌≢◌, refl, sym, ap, ◌∙◌, subst, Bool, true, false, String, str_eq,
  List, [], ◌∷◌, ◌++◌, map, Option, none, some, arith, ltb, if_cases, if◌then◌else◌, Bool-cases,
  inl, inr, ◌⊎◌,
}
use ns_cas.Base.Int.{ℤ, pos, eqb_ℤ}
use ns_cas.State.{State}
use ns_cas.Chan.{Chans, set_chan}
use ns_cas.Queue.{Floats, Item, Queue, pop_best, enqueue, remove, remove_item}
use ns_cas.Queue.Sort.{pop_best-perm}
use ns_cas.Messages.{Report, AcquireRequest, ActiveTicket}
use ns_cas.Engine.{
  Engine, Reply, Outcome, ReportResult, notify, add_waiter, check_dispatch, issue_ticket,
  acquire_slot, add_demand, try_acquire,
}
use ns_cas.Reports.{
  process_ticket, process_report, handle_report, try_report_and_acquire, next_class,
}

pub record Wired (made : ℕ) (chans : Chans) (cs : List ℕ) : Type 0 where
  pub free : (c : ℕ) → Mem c cs → (c < made) × (chans c ≡ none)
  pub distinct : Nodup cs

set_chan-other :
    (c d : ℕ) (v : Option Bool) (chans : Chans) → c ≢ d → set_chan c v chans d ≡ chans d
unfolding set_chan
set_chan-other c d v chans h = ground arith

pub set_chan_self : (c : ℕ) (v : Option Bool) (chans : Chans) → set_chan c v chans c ≡ v
unfolding set_chan
set_chan_self c v chans = ground arith

set_chan-none : (c d : ℕ) (chans : Chans) → chans d ≡ none → set_chan c none chans d ≡ none
unfolding set_chan
set_chan-none c d chans h = ground arith

pub Wired-Perm :
    {made : ℕ} {chans : Chans} {cs ds : List ℕ}
    → Perm cs ds
    → Wired made chans cs
    → Wired made chans ds
Wired-Perm p w = record {
  free = λ c m. w.free c ((Perm.mem_iff p).1 m);
  distinct = Perm.nodup p w.distinct;
}

pub Wired-Sublist :
    {made : ℕ} {chans : Chans} {cs ds : List ℕ}
    → Sublist ds cs
    → Wired made chans cs
    → Wired made chans ds
Wired-Sublist p w = record {
  free = λ c m. w.free c (Sublist.subset p c m);
  distinct = Nodup.sublist p w.distinct;
}

-- The channel of the first may change.
pub Wired-tail :
    (v : Option Bool) {made : ℕ} {chans : Chans} {c : ℕ} {cs : List ℕ}
    → Wired made chans (c ∷ cs)
    → Wired made (set_chan c v chans) cs
Wired-tail v {chans} {c} {cs} w =
    let d = Nodup-cons.0 w.distinct in
    record {
      free = λ k m.
          let o = w.free k (mem-cons.1 (Or.inr m)) in
          (o.0, set_chan-other c k v chans (λ e. d.0 (subst (λ x. Mem x cs) (sym e) m)) ∙ o.1);
      distinct = d.1;
    }

pub Wired-new :
    {made : ℕ} {chans : Chans} {cs : List ℕ}
    → Wired made chans cs
    → Wired (suc made) (set_chan made none chans) (made ∷ cs)
Wired-new {made} {chans} w = record {
  free = λ k m. elim (Bool-cases (k == made)) [
    | inl hit ↦ ground (arith, set_chan_self made none chans)
    | inr miss ↦
        let o = w.free k (mem_of_ne_of_mem (λ e. ground (arith, e)) m) in
        (omega (arith, o.0), set_chan-none made k chans o.1)
  ];
  distinct = Nodup-cons.1 (λ m. absurd (omega (arith, (w.free made m).0)), w.distinct);
}

pub Wired-take :
    (c : ℕ) {made : ℕ} {chans : Chans} {cs : List ℕ}
    → Wired made chans cs
    → Wired made (set_chan c none chans) cs
Wired-take c {chans} w = record {
  free = λ k m. let o = w.free k m in (o.0, set_chan-none c k chans o.1);
  distinct = w.distinct;
}

pub Wired-nil : (made : ℕ) (chans : Chans) → Wired made chans []
Wired-nil made chans = record { free = λ c m. absurd (not-mem-nil m); distinct = Nodup-nil }

module _ {F : Type 0} where
  abbrev pub item_lines : List (Item F) → List ℕ
  item_lines = map (λ it. it.response_chan)

  -- The channels of the waiters.
  abbrev pub lines : Queue F → List ℕ
  lines q = item_lines q.items

  unfoldable pub IsWired : Engine F → Type 0
  IsWired e = Wired e.next_chan e.chans (lines e.queue)

  pub lines-pop_best :
      (o : Floats F) (now : ℤ) (q : Queue F) {best : Item F} {rest : Queue F}
      → pop_best o now q ≡ some (best, rest)
      → Perm (lines q) (best.response_chan ∷ lines rest)
  lines-pop_best o now q e = Perm.map _ (pop_best-perm o now q e)

  pub lines-enqueue :
      (item : Item F) (q : Queue F) → Perm (item.response_chan ∷ lines q) (lines (enqueue item q))
  unfolding enqueue
  lines-enqueue item q =
      rw (map-append (λ (it : Item F). it.response_chan) q.items (item ∷ []))
        (Perm.symm (rw append-nil at (perm_middle {a = item.response_chan} (lines q) [])))

  pub remove_item-lines :
      (id : String) (its : List (Item F))
      → Sublist (item_lines (remove_item id its)) (item_lines its)
  unfolding remove_item
  remove_item-lines id [] = Sublist.refl []
  remove_item-lines id (it ∷ its) =
      if_cases (λ r. Sublist (item_lines r) (it.response_chan ∷ item_lines its))
        (str_eq it.appliance_id id) (λ _. Sublist.cons it.response_chan (Sublist.refl _))
        (λ _. Sublist.cons-cons it.response_chan (remove_item-lines id its))
