-- ===== src/Dashboard/Template.antt =====
-- The card "Live State" of the page in internal/dashboard/dashboard.go (dashboardHTML): what the template
-- writes, and what the script makes of an event `live` and of the passing of time. An element is
-- its text, with its class where that is computed; other styles are left out.
use ns_cas.Base.{ℕ, ◌/◌, Bool, true, false, ◌||◌, String, str_eq, List, if◌then◌else◌}
use ns_cas.Base.Int.{ℤ, pos, negsuc, ◌-ℤ◌, ltb_ℤ, eqb_ℤ}
use ns_cas.Http.{floor_0}
use ns_cas.Dashboard.{WindowDisplay, dash, not_available, left, LockdownDisplay, LiveState}
pub mod Cells
pub mod Tables
pub mod Event
pub mod Complete
pub mod Writes

pub data Text : Type 0 where
  bytes : List ℕ → Text
  words : String → Text
  number : ℤ → Text
  window_text : WindowDisplay → Text
  lockdown_text : LockdownDisplay → Text

-- An element with a class.
pub record Span : Type 0 where
  pub class : String
  pub text : Text

-- The remaining time of the window, with the attribute data-window-end or without it.
pub data WindowContent : Type 0 where
  counted : ℤ → Text → WindowContent
  bare : Text → WindowContent

-- The card "Live State".
pub record Grid : Type 0 where
  pub window_class : String
  pub window_content : WindowContent
  pub is_from_ns : Bool
  pub available : Span
  pub remaining : Text
  pub in_flight : Text
  pub queue_depth : Text
  pub lockdown : Span
  pub p1 : Text
  pub p2 : Text
  pub p3 : Text
  pub shared : Text

abbrev pub is_dash : WindowDisplay → Bool
is_dash dash = true
is_dash not_available = false
is_dash (left n) = false

abbrev pub is_not_available : WindowDisplay → Bool
is_not_available dash = false
is_not_available not_available = true
is_not_available (left n) = false

unfoldable pub render_live : LiveState → Grid
render_live d = record {
  window_class =
      if is_dash d.window_display
      then "status-warn"
      else if is_not_available d.window_display
      then "status-warn"
      else "status-ok";
  window_content =
      if eqb_ℤ d.window_end_unix (pos 0)
      then bare (window_text d.window_display)
      else counted d.window_end_unix (window_text d.window_display);
  is_from_ns = str_eq d.window_accuracy "ns";
  available = record {
    class = if ltb_ℤ (pos 0) d.available then "status-ok" else "status-err";
    text = number d.available;
  };
  remaining = number d.local_remaining;
  in_flight = number d.in_flight;
  queue_depth = number (pos d.queue_depth);
  lockdown = record {
    class = if d.lockdown_active then "status-err" else "status-ok";
    text = lockdown_text d.lockdown_display;
  };
  p1 = number d.p1_remaining;
  p2 = number d.p2_remaining;
  p3 = number d.p3_remaining;
  shared = number d.shared_remaining;
}

-- The span with data-window-end, or a new and empty one.
unfoldable pub keep_span : ℤ → WindowContent → WindowContent
keep_span end (counted old text) = counted end text
keep_span end (bare text) = counted end (words "")

-- The script's handler of the event `live`.
unfoldable pub on_live : LiveState → Grid → Grid
on_live d g = record {
  window_class =
      if is_dash d.window_display || is_not_available d.window_display
      then "status-warn"
      else "status-ok";
  window_content =
      if ltb_ℤ (pos 0) d.window_end_unix
      then keep_span d.window_end_unix g.window_content
      else bare (window_text d.window_display);
  is_from_ns = if str_eq d.window_accuracy "ns" then true else false;
  available = record {
    class = if ltb_ℤ (pos 0) d.available then "status-ok" else "status-err";
    text = number d.available;
  };
  remaining = number d.local_remaining;
  in_flight = number d.in_flight;
  queue_depth = number (pos d.queue_depth);
  lockdown = record {
    class = if d.lockdown_active then "status-err" else "status-ok";
    text = lockdown_text d.lockdown_display;
  };
  p1 = number d.p1_remaining;
  p2 = number d.p2_remaining;
  p3 = number d.p3_remaining;
  shared = number d.shared_remaining;
}

-- Math.floor(n / 1000).
unfoldable pub floor_seconds : ℤ → ℤ
floor_seconds (pos n) = pos (n / 1000)
floor_seconds (negsuc n) = negsuc (n / 1000)

abbrev pub tick_content : ℤ → WindowContent → WindowContent
tick_content now (counted end text) =
    counted end (window_text (left (floor_0 (floor_seconds (end -ℤ now)))))
tick_content now (bare text) = bare text

-- The script's clock, for the remaining time of the window.
unfoldable pub tick : ℤ → Grid → Grid
tick now g = record g { window_content = tick_content now g.window_content }
