-- ===== src/Startup/Laws.antt =====
-- What cmd/cas/main.go makes of its environment.
use mathlib.Core.Option.{some-injective}
use ns_cas.Base.{
  ℕ, eq_iff, ◌<◌, ◌^◌, ◌≡◌, refl, subst, sym, ◌∙◌, String, str_eq, [], Option, none, some,
  Bool-cases, inl, inr, ◌⊎◌,
}
use ns_cas.Base.Int.{ℤ, pos}
use ns_cas.Policy.{codes, atoi, nonempty_value}
use ns_cas.Policy.Laws.{AllDigits, atoi_digits}
use ns_cas.State.Invariant.{IsValid, new-IsValid}
use ns_cas.Queue.Waiting.{ids}
use ns_cas.Queue
use ns_cas.Engine.{Engine, new_engine}
use ns_cas.Store.{Store, Opened, OpenErrors, opened, not_opened, or_error, open_store}
use ns_cas.Startup.{
  Environment, env_int, or_default, Settings, settings_from, start, launch, main_start,
}

-- What env_int finds: nothing or no number, and then the default, or a number.
pub env_int_cases :
    (env : Environment) (key : String) (def : ℤ)
    → (env key ≡ "") × (env_int env key def ≡ def)
      ⊎ (atoi (codes (env key)) ≡ none) × (env_int env key def ≡ def)
      ⊎ (atoi (codes (env key)) ≡ some (env_int env key def))
unfolding env_int
env_int_cases env key def = elim (Bool-cases (str_eq (env key) "")) [
  | inl empty ↦ inl ((eq_iff (env key) "").0 empty, rw empty refl)
  | inr set ↦ rw set (parsed (atoi (codes (env key))))
]
  where
    parsed :
        (found : Option ℤ)
        → (env key ≡ "") × (or_default def found ≡ def)
          ⊎ (found ≡ none) × (or_default def found ≡ def)
          ⊎ (found ≡ some (or_default def found))
    parsed none = inr (inl (refl, refl))
    parsed (some n) = inr (inr refl)

-- A variable of the environment whose text is decimal digits that spell a number below 2 ^ 63 is
-- read as that number, whatever the default is.
pub env_int_digits :
    (env : Environment) (key : String) (def : ℤ) {n : ℕ}
    → AllDigits (codes (env key))
    → nonempty_value (codes (env key)) ≡ some n
    → n < 2 ^ 63
    → env_int env key def ≡ pos n
env_int_digits env key def {n} h e k =
    let number = atoi_digits (codes (env key)) {n = n} h e k in
    elim (env_int_cases env key def) [
      | inl (empty, _) ↦ cc (rw empty at e)
      | inr (inl (failed, _)) ↦ cc (sym failed ∙ number)
      | inr (inr found) ↦ some-injective _ (pos n) (sym found ∙ number)
    ]

or_error-opened :
    (prefix : String) (err : Option String) (rest : Opened) {db : Store}
    → or_error prefix err rest ≡ opened db
    → (err ≡ none) × (rest ≡ opened db)
unfolding or_error
or_error-opened prefix none rest e = (refl, e)
or_error-opened prefix (some text) rest e = cc

-- None of the calls of Open fails.
abbrev pub IsClear : OpenErrors → Type 0
IsClear errs =
    (errs.opening ≡ none)
    × (errs.migration ≡ none)
    × (errs.insert_log ≡ none)
    × (errs.insert_window ≡ none)
    × (errs.insert_anomaly ≡ none)

open_store-opened :
    (errs : OpenErrors) (file : Store) {db : Store}
    → open_store errs file ≡ opened db
    → IsClear errs × (opened file ≡ opened db)
unfolding open_store
open_store-opened errs file {db} e =
    let (a, p) = or_error-opened _ errs.opening _ {db = db} e in
    let (b, q) = or_error-opened _ errs.migration _ {db = db} p in
    let (c, r) = or_error-opened _ errs.insert_log _ {db = db} q in
    let (d, t) = or_error-opened _ errs.insert_window _ {db = db} r in
    let (f, u) = or_error-opened _ errs.insert_anomaly _ {db = db} t in ((a, b, c, d, f), u)

same_store : {a b : Store} → opened a ≡ opened b → a ≡ b
same_store e = cc

module _ {F : Type 0} where
  launched :
      (s : Settings F) (o : Opened) {e : Engine F} {db : Store}
      → launch s o ≡ inr (e, db)
      → (o ≡ opened db) × (start s ≡ e)
  launched s (not_opened text) h = cc
  launched s (opened file) h = (cc, cc)

  start-IsValid :
      (s : Settings F)
      → IsValid (start s).state × ((start s).active_tickets ≡ []) × (ids (start s).queue ≡ [])
  unfolding start new_engine Queue.new
  start-IsValid s = (new-IsValid s.config, refl, refl)

  -- Whatever the environment holds, a server that main starts is one for which no call of Open
  -- has failed; the database is the file as it was, the quota state is valid, and there are no
  -- tickets and no waiters.
  pub main_start-IsValid :
      (parse : String → Option F) (one : F) (env : Environment) (errs : OpenErrors) (file : Store)
      {e : Engine F} {db : Store}
      → main_start (settings_from parse one env) errs file ≡ inr (e, db)
      → IsClear errs × (file ≡ db) × IsValid e.state × (e.active_tickets ≡ []) × (ids e.queue ≡ [])
  unfolding main_start
  main_start-IsValid parse one env errs file {e} {db} h =
      let s = settings_from parse one env in
      let (o, same) = launched s (open_store errs file) {e = e} {db = db} h in
      let (clear, kept) = open_store-opened errs file {db = db} o in
      let (valid, idle, empty) =
        subst (λ t. IsValid t.state × (t.active_tickets ≡ []) × (ids t.queue ≡ [])) same
          (start-IsValid s) in
      (clear, same_store kept, valid, idle, empty)
