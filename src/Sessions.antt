-- ===== src/Sessions.antt =====
-- The open long polls of internal/handlers/http.go beside the engine: an appliance polls on a
-- channel from the answer that puts it in the queue until its `select` receives a value, times out
-- or sees the client go. An appliance has one request open at a time.
use ns_cas.Base.{ℕ, ◌≡◌, String, str_eq, Option, none, some, if◌then◌else◌, Bool}
use ns_cas.Base.Int.{ℤ}
use ns_cas.Queue.{Floats}
use ns_cas.Messages.{Report, AcquireRequest}
use ns_cas.Engine.{Engine}
use ns_cas.Reports.{handle_report}
use ns_cas.Dispatcher.{Round, dispatch_round, store_queue_token, ticket_reaper, shut_down}
use ns_cas.Safety.System.{take_answer}
use ns_cas.Http.{
  decoded, Answer, done, poll, Wakeup, received, timed_out, disconnected, acquire_begin,
  report_and_acquire_begin, poll_end,
}
pub mod Same
pub mod Requests
pub mod Keeps
pub mod Steps
pub mod Open

-- The channel of an appliance that polls.
abbrev pub Polls : Type 0
Polls = String → Option ℕ

unfoldable pub no_polls : Polls
no_polls id = none

unfoldable pub set_poll : String → Option ℕ → Polls → Polls
set_poll id v polls k = if str_eq k id then v else polls k

-- The channel that the handler goes on to wait on.
unfoldable pub line_of : Answer → Option ℕ
line_of (done r) = none
line_of (poll ch) = ch

unfoldable pub open_poll : String → Option ℕ → Polls → Polls
open_poll id none polls = polls
open_poll id (some c) polls = set_poll id (some c) polls

pub record Site (F : Type 0) : Type 0 where
  pub engine : Engine F
  pub polls : Polls

module _ {F : Type 0} where
  -- A request of an appliance, after its body has been decoded.
  unfoldable pub site_acquire :
      Floats F → String → AcquireRequest → String → ℤ → ℤ → Site F → Site F
  site_acquire o method req tok now later s =
      let out = acquire_begin o method (decoded req) tok now later s.engine in
      record { engine = out.engine; polls = open_poll req.appliance_id (line_of out.value) s.polls }

  unfoldable pub site_exchange : Floats F → String → Report → String → ℤ → ℤ → ℤ → Site F → Site F
  site_exchange o method r tok reported now later s =
      let out = report_and_acquire_begin o method (decoded r) tok reported now later s.engine in
      record { engine = out.engine; polls = open_poll r.appliance_id (line_of out.value) s.polls }

  -- The `select` of an open poll takes the value of its channel.
  unfoldable pub site_receive : String → ℕ → Bool → Site F → Site F
  site_receive id c b s = record {
    engine = (poll_end id (received b) (take_answer c s.engine)).0;
    polls = set_poll id none s.polls;
  }

  -- The `select` of an open poll ends without a value.
  unfoldable pub site_leave : String → Wakeup → Site F → Site F
  site_leave id k s = record {
    engine = (poll_end id k s.engine).0;
    polls = set_poll id none s.polls;
  }

  pub data Turn (o : Floats F) (s : Site F) : Site F → Type 0 where
    asks :
        (method : String) (req : AcquireRequest) (tok : String) (now later : ℤ)
        → s.polls req.appliance_id ≡ none
        → Turn o s (site_acquire o method req tok now later s)
    exchanges :
        (method : String) (r : Report) (tok : String) (reported now later : ℤ)
        → s.polls r.appliance_id ≡ none
        → Turn o s (site_exchange o method r tok reported now later s)
    hears :
        (id : String) (c : ℕ) (b : Bool)
        → s.polls id ≡ some c
        → s.engine.chans c ≡ some b
        → Turn o s (site_receive id c b s)
    runs_out : (id : String) (c : ℕ) → s.polls id ≡ some c → Turn o s (site_leave id timed_out s)
    goes_away :
        (id : String) (c : ℕ) → s.polls id ≡ some c → Turn o s (site_leave id disconnected s)
    reports :
        (r : Report) (now : ℤ)
        → Turn o s (record s { engine = (handle_report r now s.engine).engine })
    dispatches :
        (r : Round)
        → s.engine.pending_store ≡ none
        → Turn o s (record s { engine = (dispatch_round o r s.engine).0 })
    stores : Turn o s (record s { engine = store_queue_token s.engine })
    reaps : (now : ℤ) → Turn o s (record s { engine = (ticket_reaper now s.engine).engine })
    shuts_down : Turn o s (record s { engine = shut_down s.engine })

  pub data Turns (o : Floats F) (s : Site F) : Site F → Type 0 where
    no_turn : Turns o s s
    one_more : {t u : Site F} → Turns o s t → Turn o t u → Turns o s u
