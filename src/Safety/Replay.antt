-- ===== src/Safety/Replay.antt =====
-- Two reports on one ticket (processReportUnderLock in internal/handlers/engine.go), with whatever
-- the server does in between.
use mathlib.Core.List.{mem-append}
use mathlib.Core.Logic.Or
use ns_cas.Base.{◌≡◌, ◌≢◌, refl, sym, subst, true, false, String, Option-cases, inl, inr}
use ns_cas.Base.Int.{ℤ}
use ns_cas.Dict
use ns_cas.Queue.{Floats}
use ns_cas.Messages.{Report}
use ns_cas.Engine.{Engine, Outcome, ReportResult}
use ns_cas.Reports.{process_report, handle_report, try_report_and_acquire}
use ns_cas.Http.Answers.{str_ne}
use ns_cas.Safety.Slots.{IsSound}
use ns_cas.Safety.Steps.{process_report-Processed}
use ns_cas.Safety.System.{Step}
use ns_cas.Safety.Spent.{
  absent-Avoids, lookup-Avoids, IsSpent, IsFresh, handle_report-IsSpent,
  try_report_and_acquire-IsSpent, Step-IsSpent,
}

module _ {F : Type 0} where
  -- The engines that follow an accepted report, sent alone or with an acquire, if its token is not
  -- drawn again.
  pub data Later (o : Floats F) (r : Report) (e : Engine F) : Engine F → Type 0 where
    reported :
        (now : ℤ)
        → (process_report r now e).value.ok ≡ true
        → Later o r e (handle_report r now e).engine
    exchanged :
        (fresh : String) (now acquired later : ℤ)
        → (process_report r now e).value.ok ≡ true
        → fresh ≢ r.token
        → Later o r e (try_report_and_acquire o r fresh now acquired later e).engine
    afterwards :
        {t u : Engine F} → Later o r e t → (st : Step o t u) → IsFresh r.token st → Later o r e u

  processed-IsSpent :
      (r : Report) (now : ℤ) (e : Engine F)
      → IsSound e
      → (process_report r now e).value.ok ≡ true
      → IsSpent r.appliance_id r.token (process_report r now e).engine
  processed-IsSpent r now e s ok =
      absent-Avoids r.appliance_id r.token _
        (λ m. (process_report-Processed r now e s).freed ok (mem-append.1 (Or.inr m)))

  Later-IsSpent :
      {o : Floats F} {r : Report} {e t : Engine F}
      → IsSound e
      → Later o r e t
      → IsSpent r.appliance_id r.token t
  Later-IsSpent {o} {r} {e} s (reported now ok) =
      handle_report-IsSpent r.appliance_id r.token r now e (processed-IsSpent r now e s ok)
  Later-IsSpent {o} {r} {e} s (exchanged fresh now acquired later ok n) =
      try_report_and_acquire-IsSpent r.appliance_id r.token o r fresh now acquired later e n
        (processed-IsSpent r now e s ok)
  Later-IsSpent {o} {r} s (afterwards p st n) =
      Step-IsSpent r.appliance_id r.token st n (Later-IsSpent s p)

  -- What a report leaves that matches no ticket.
  abbrev Refused : Engine F → Outcome F ReportResult → Type 0
  Refused e out = (out.value.ok ≡ false) × (out.engine ≡ e)

  spent-Refused :
      (r : Report) (now : ℤ) (e : Engine F)
      → IsSpent r.appliance_id r.token e
      → Refused e (process_report r now e)
  unfolding process_report
  spent-Refused r now e h = elim (Option-cases (Dict.lookup r.appliance_id e.active_tickets)) [
    | inl absent ↦ rw absent (refl, refl)
    | inr found ↦
        rw
          (
            found.1,
            str_ne found.0.token r.token
                (lookup-Avoids r.appliance_id r.token e.active_tickets {t = found.0} found.1 h),
          )
          (refl, refl)
  ]

  -- On a sound engine, once a report has been accepted, sent alone or with an acquire, no report
  -- of the same appliance with the same token is accepted any more, and none changes the engine,
  -- after whatever further steps of the server, in whatever order, as long as no request and no
  -- dispatch round draws that very token again.
  pub report_once :
      (o : Floats F) (r again : Report) (now : ℤ) (e : Engine F) {t : Engine F}
      → IsSound e
      → Later o r e t
      → again.appliance_id ≡ r.appliance_id
      → again.token ≡ r.token
      → ((process_report again now t).value.ok ≡ false) × ((process_report again now t).engine ≡ t)
  report_once o r again now e {t} s run id tok = spent-Refused again now t (
      subst (λ k. IsSpent again.appliance_id k t) (sym tok)
        (subst (λ k. IsSpent k r.token t) (sym id) (Later-IsSpent s run)))
