-- ===== src/Sessions/Steps.antt =====
-- The open polls of internal/handlers/http.go against the queue and the channels: what opening a poll,
-- and closing one, does to them.

use mathlib.Core.List.{Mem, not-mem-nil, mem-cons, mem-append}
use mathlib.Core.Logic.Or
use mathlib.Core.Logic.{◌∨₁◌, ∨₁_prop}
use mathlib.Core.Option
use native.Mathlib.Nat.{ℕ_set}
use ns_cas.Base.{
  ℕ, ◌<◌, ◌≡◌, ◌≢◌, refl, sym, ap, ◌∙◌, subst, String, str_eq, eq_iff, [], ◌∷◌, Option, none, some,
  arith, Bool-cases, inl, inr, ◌⊎◌,
}
use ns_cas.Chan.{Chans, set_chan}
use ns_cas.Engine.{Engine}
use ns_cas.Sessions.{Polls, set_poll, open_poll}
use ns_cas.Sessions.Requests.{entries, Enters, Opens, stays, enters}
use ns_cas.Sessions.Keeps.{IsFilled, Keeps, Same-Keeps}

pub set_poll_self : (id : String) (v : Option ℕ) (polls : Polls) → set_poll id v polls id ≡ v
unfolding set_poll
set_poll_self id v polls = rw ((eq_iff id id).1 refl) refl

pub set_poll_other :
    (id k : String) (v : Option ℕ) (polls : Polls) → k ≢ id → set_poll id v polls k ≡ polls k
unfolding set_poll
set_poll_other id k v polls h = elim (Bool-cases (str_eq k id)) [
  | inl hit ↦ absurd (h ((eq_iff k id).0 hit))
  | inr miss ↦ rw miss refl
]

-- The polls left when one has closed.
pub set_poll-none :
    (id k : String) (polls : Polls) {c : ℕ}
    → set_poll id none polls k ≡ some c
    → (k ≢ id) × (polls k ≡ some c)
unfolding set_poll
set_poll-none id k polls {c} h = elim (Bool-cases (str_eq k id)) [
  | inl hit ↦ cc (rw hit at h)
  | inr miss ↦ (λ e. cc ((eq_iff k id).1 e, miss), rw miss at h)
]

-- An open poll is the poll that has just opened, or another.
pub set_poll-cases :
    (id k : String) (n : ℕ) (polls : Polls) {c : ℕ}
    → set_poll id (some n) polls k ≡ some c
    → (k ≡ id) × (c ≡ n) ⊎ (k ≢ id) × (polls k ≡ some c)
unfolding set_poll
set_poll-cases id k n polls {c} h = elim (Bool-cases (str_eq k id)) [
  | inl hit ↦ inl ((eq_iff k id).0 hit, sym (Option.some-injective n c (rw hit at h)))
  | inr miss ↦ inr (λ e. cc ((eq_iff k id).1 e, miss), rw miss at h)
]

-- A new channel is made empty; the others keep their values.
fresh-IsFilled : (c n : ℕ) (cs : Chans) → c < n → IsFilled c cs → IsFilled c (set_chan n none cs)
unfolding set_chan
fresh-IsFilled c n cs h f = ground arith

new_poll :
    (id k : String) (c n : ℕ) (polls : Polls)
    → Mem {A = String × ℕ} (k, c) ((id, n) ∷ [])
    → set_poll id (some n) polls k ≡ some c
new_poll id k c n polls m =
    Or.elim (Option.is_set ℕ_set (set_poll id (some n) polls k) (some c)) (mem-cons.0 m)
      (λ p.
        ap (set_poll id (some n) polls) (ap (λ w. w.0) p)
        ∙ set_poll_self id (some n) polls
        ∙ ap (λ w. some w.1) (sym p))
      (λ nothing. absurd (not-mem-nil nothing))

module _ {F : Type 0} where
  -- The open polls are the entries of the queue, and those whose channel holds their answer.
  pub record IsMatched (e : Engine F) (polls : Polls) : Type 0 where
    pub made : (id : String) (c : ℕ) → polls id ≡ some c → c < e.next_chan
    pub each :
        (id : String) (c : ℕ)
        → polls id ≡ some c
        → Mem (id, c) (entries e.queue) ∨₁ IsFilled c e.chans
    pub owned : (id : String) (c : ℕ) → Mem (id, c) (entries e.queue) → polls id ≡ some c
    pub distinct : (id k : String) (c : ℕ) → polls id ≡ some c → polls k ≡ some c → id ≡ k

  pub Keeps-IsMatched :
      {e t : Engine F} {polls : Polls} → Keeps e t → IsMatched e polls → IsMatched t polls
  Keeps-IsMatched p m = record {
    made = λ id c h. omega (arith, p.made, m.made id c h);
    each = λ id c h. Or.elim ∨₁_prop (m.each id c h) (p.waiting id c) (λ f. Or.inr (p.filled c f));
    owned = λ id c h. m.owned id c (p.no_more id c h);
    distinct = m.distinct;
  }

  Enters-IsMatched :
      {id : String} {e t : Engine F} {polls : Polls}
      → Enters id e t
      → polls id ≡ none
      → IsMatched e polls
      → IsMatched t (set_poll id (some e.next_chan) polls)
  Enters-IsMatched {id} {e} {t} {polls} n free m = record {
    made = λ k c h. elim (set_poll-cases id k e.next_chan polls h) [
      | inl p ↦ omega (arith, n.next_chan, p.1)
      | inr p ↦ omega (arith, n.next_chan, m.made k c p.1)
    ];
    each = λ k c h. elim (set_poll-cases id k e.next_chan polls h) [
      | inl p ↦ Or.inl (
          subst (Mem (k, c)) (sym n.queue)
            (mem-append.1 (Or.inr (mem-cons.1 (Or.inl (λ i. (p.0 i, p.1 i)))))))
      | inr p ↦
          Or.elim ∨₁_prop (m.each k c p.1)
            (λ q. Or.inl (subst (Mem (k, c)) (sym n.queue) (mem-append.1 (Or.inl q))))
            (λ f. Or.inr (
              subst (IsFilled c) (sym n.chans)
                (fresh-IsFilled c e.next_chan e.chans (m.made k c p.1) f)))
    ];
    owned = λ k c q.
        Or.elim (Option.is_set ℕ_set (set_poll id (some e.next_chan) polls k) (some c))
          (mem-append.0 (subst (Mem (k, c)) n.queue q))
          (λ old.
            let h = m.owned k c old in
            set_poll_other id k (some e.next_chan) polls (λ p. cc (ap polls p, h, free)) ∙ h)
          (λ new. new_poll id k c e.next_chan polls new);
    distinct = λ k l c h h'. elim (set_poll-cases id k e.next_chan polls h) [
      | inl p ↦ elim (set_poll-cases id l e.next_chan polls h') [
        | inl q ↦ p.0 ∙ sym q.0
        | inr q ↦ absurd (omega (arith, p.1, m.made l c q.1))
      ]
      | inr p ↦ elim (set_poll-cases id l e.next_chan polls h') [
        | inl q ↦ absurd (omega (arith, q.1, m.made k c p.1))
        | inr q ↦ m.distinct k l c p.1 q.1
      ]
    ];
  }

  pub Opens-IsMatched :
      {id : String} {e t : Engine F} {polls : Polls} {line : Option ℕ}
      → Opens id e t line
      → polls id ≡ none
      → IsMatched e polls
      → IsMatched t (open_poll id line polls)
  unfolding open_poll
  Opens-IsMatched (stays p) free m = Keeps-IsMatched (Same-Keeps p) m
  Opens-IsMatched (enters n) free m = Enters-IsMatched n free m

  -- An appliance loses its entry and no other one does; the channels of the others keep their values.
  pub record Drops (id : String) (polls : Polls) (e t : Engine F) : Type 0 where
    pub next_chan : t.next_chan ≡ e.next_chan
    pub waiting :
        (k : String) (c : ℕ) → k ≢ id → Mem (k, c) (entries e.queue) → Mem (k, c) (entries t.queue)
    pub filled :
        (k : String) (c : ℕ) → k ≢ id → polls k ≡ some c → IsFilled c e.chans → IsFilled c t.chans
    pub gone :
        (k : String) (c : ℕ)
        → Mem (k, c) (entries t.queue)
        → (k ≢ id) × Mem (k, c) (entries e.queue)

  pub Drops-IsMatched :
      {id : String} {e t : Engine F} {polls : Polls}
      → Drops id polls e t
      → IsMatched e polls
      → IsMatched t (set_poll id none polls)
  Drops-IsMatched {id} {e} {t} {polls} d m = record {
    made = λ k c h. omega (arith, d.next_chan, m.made k c (set_poll-none id k polls h).1);
    each = λ k c h.
        let p = set_poll-none id k polls h in
        Or.elim ∨₁_prop (m.each k c p.1) (λ q. Or.inl (d.waiting k c p.0 q))
          (λ f. Or.inr (d.filled k c p.0 p.1 f));
    owned = λ k c q. let g = d.gone k c q in set_poll_other id k none polls g.0 ∙ m.owned k c g.1;
    distinct = λ k l c h h'.
        m.distinct k l c (set_poll-none id k polls h).1 (set_poll-none id l polls h').1;
  }
