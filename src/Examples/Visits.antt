-- ===== src/Examples/Visits.antt =====
-- Appliances that come and go over HTTP, with their open polls.
use mathlib.Core.List.{Mem}
use mathlib.Core.Logic.{◌∨₁◌}
use ns_cas.Base.{ℕ, ◌≡◌, refl, String, Option, none, some, true}
use ns_cas.Base.Int.{pos}
use ns_cas.Sessions.{
  Site, no_polls, set_poll, open_poll, site_acquire, asks, reports, Turns, no_turn, one_more,
}
use ns_cas.Sessions.Requests.{entries}
use ns_cas.Sessions.Keeps.{IsFilled}
use ns_cas.Sessions.Open.{fresh_site, no_poll_stranded}
use ns_cas.Reports.{handle_report}
use ns_cas.Examples.Data.{settings, whole, request}
use ns_cas.Examples.Runs.{penalty}

abbrev opened : Site ℕ
opened = fresh_site settings 2 (pos 100) true

abbrev granted : Site ℕ
granted = site_acquire whole "POST" (request "a") "t1" (pos 5) (pos 6) opened

abbrev punished : Site ℕ
punished = record granted { engine = (handle_report penalty (pos 20) granted.engine).engine }

-- "b" has to wait.
abbrev waiting : Site ℕ
waiting = site_acquire whole "POST" (request "b") "t2" (pos 30) (pos 40) punished

free_b : (line : Option ℕ) → open_poll "a" line no_polls "b" ≡ none
unfolding open_poll set_poll no_polls
free_b none = refl
free_b (some c) = refl

run : Turns whole opened waiting
unfolding site_acquire no_polls
run =
    one_more
      (one_more (one_more no_turn (asks "POST" (request "a") "t1" (pos 5) (pos 6) refl))
        (reports penalty (pos 20)))
      (asks "POST" (request "b") "t2" (pos 30) (pos 40) (free_b _))

no_poll_stranded_example :
    ((id : String) (ch : ℕ)
      → waiting.polls id ≡ some ch
      → Mem (id, ch) (entries waiting.engine.queue) ∨₁ IsFilled ch waiting.engine.chans)
    × ((id : String) (ch : ℕ)
        → Mem (id, ch) (entries waiting.engine.queue)
        → waiting.polls id ≡ some ch)
    × ((id k : String) (ch : ℕ) → waiting.polls id ≡ some ch → waiting.polls k ≡ some ch → id ≡ k)
no_poll_stranded_example = no_poll_stranded whole settings 2 (pos 100) true run
