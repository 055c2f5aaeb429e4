-- ===== src/Dashboard/Template/Event.antt =====
-- The card "Live State" after an event of the stream and after a new page (internal/dashboard/dashboard.go).
use ns_cas.Base.{
  ◌≡◌, refl, Bool, true, false, ◌||◌, String, str_eq, if◌then◌else◌, Bool-cases, inl, inr, arith,
}
use ns_cas.Base.Int.{ℤ, pos, ◌≤ℤ◌, ltb_ℤ, eqb_ℤ}
use ns_cas.Dashboard.{WindowDisplay, dash, not_available, left, LiveState}
use ns_cas.Dashboard.Template.{
  Text, window_text, WindowContent, counted, bare, Grid, is_dash, is_not_available, render_live,
  keep_span, on_live, tick_content, tick,
}

-- After the next tick a span shows its end, whatever it showed before.
tick-keep_span :
    (now end : ℤ) (text : Text) (c : WindowContent)
    → tick_content now (keep_span end c) ≡ tick_content now (counted end text)
unfolding keep_span
tick-keep_span now end text (counted old shown) = refl
tick-keep_span now end text (bare shown) = refl

nonzero_end : (end : ℤ) → ltb_ℤ (pos 0) end ≡ true → eqb_ℤ end (pos 0) ≡ false
nonzero_end end h = ground arith

zero_end : (end : ℤ) → pos 0 ≤ℤ end → ltb_ℤ (pos 0) end ≡ false → eqb_ℤ end (pos 0) ≡ true
zero_end end h k = ground arith

content_same :
    (now : ℤ) (d : LiveState) (g : Grid)
    → pos 0 ≤ℤ d.window_end_unix
    → tick_content now (on_live d g).window_content
      ≡ tick_content now (render_live d).window_content
unfolding on_live render_live
content_same now d g h = elim (Bool-cases (ltb_ℤ (pos 0) d.window_end_unix)) [
  | inl later ↦
      rw (later, nonzero_end d.window_end_unix later)
        (tick-keep_span now d.window_end_unix (window_text d.window_display) g.window_content)
  | inr never ↦ rw (never, zero_end d.window_end_unix h never) refl
]

class_same :
    (w : WindowDisplay)
    → ◌≡◌ {A = String} (if is_dash w || is_not_available w then "status-warn" else "status-ok") (
        if is_dash w
        then "status-warn"
        else if is_not_available w
        then "status-warn"
        else "status-ok")
class_same dash = refl
class_same not_available = refl
class_same (left n) = refl

same_test : (b : Bool) → (if b then true else false) ≡ b
same_test true = refl
same_test false = refl

-- For every live state whose window ends at 0 or later, and whatever the card showed before, the
-- card after the script has handled a live event and its clock has ticked is the card that the
-- template writes for the same live state, after the same tick.
pub tick-on_live :
    (now : ℤ) (d : LiveState) (g : Grid)
    → pos 0 ≤ℤ d.window_end_unix
    → tick now (on_live d g) ≡ tick now (render_live d)
unfolding tick on_live render_live
tick-on_live now d g h i = record (tick now (render_live d)) {
  window_class = class_same d.window_display i;
  is_from_ns = same_test (str_eq d.window_accuracy "ns") i;
  window_content = content_same now d g h i;
}
