-- ===== src/State/Penalties.antt =====
-- NotePenalty of internal/state/state.go: what a 429 does to the quota state.
use ns_cas.Base.{◌+◌, true, ◌/◌, if◌then◌else◌}
use ns_cas.Base.Int.{ℤ, pos, negsuc, ◌+ℤ◌, ltb_ℤ, sub_ℕ}
use ns_cas.State.{State, Config, seconds}

pub record Penalty : Type 0 where
  pub old_window_sec : ℤ
  pub new_window_sec : ℤ
  pub old_limit : ℤ
  pub new_limit : ℤ
  pub until : ℤ

-- `/= 2` on an int, which rounds towards 0.
unfoldable pub halve : ℤ → ℤ
halve (pos n) = pos (n / 2)
halve (negsuc n) = sub_ℕ 0 ((n + 1) / 2)

unfoldable pub cut_limit : Config → ℤ → ℤ
cut_limit c limit =
    if ltb_ℤ c.sustained_min_limit limit
    then if ltb_ℤ (halve limit) c.sustained_min_limit then c.sustained_min_limit else halve limit
    else limit

unfoldable pub note_penalty : ℤ → ℤ → State → State × Penalty
note_penalty retry_after now s =
    let window = if ltb_ℤ (pos 0) retry_after then retry_after else s.sustained_window_sec in
    let limit = cut_limit s.config s.sustained_limit in
    let until = now +ℤ seconds window in
    (
      record s {
        sustained_window_sec = window;
        sustained_limit = limit;
        sustained_window_end = until;
        sustained_used = limit;
        penalty_in_window = true;
        penalties = s.penalties +ℤ pos 1;
        lockdown_active = true;
        lockdown_until = until;
      },
      record {
        old_window_sec = window;
        new_window_sec = window;
        old_limit = s.sustained_limit;
        new_limit = limit;
        until = until;
      },
    )
