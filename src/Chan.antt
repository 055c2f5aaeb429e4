-- ===== src/Chan.antt =====
-- Go's `chan bool` of capacity 1, as the server uses it for waiters: channels are numbered, and
-- each holds at most one value that has not been received.
use ns_cas.Base.{ℕ, Bool, true, false, Option, none, some, ◌==◌, if◌then◌else◌}

abbrev pub Chans : Type 0
Chans = ℕ → Option Bool

unfoldable pub set_chan : ℕ → Option Bool → Chans → Chans
set_chan c v cs d = if c == d then v else cs d

abbrev pub is_empty : Option Bool → Bool
is_empty none = true
is_empty (some _) = false

-- `select { case c <- v: … default: … }`: the result says whether the value was sent.
unfoldable pub try_send : ℕ → Bool → Chans → Chans × Bool
try_send c v cs = if is_empty (cs c) then (set_chan c (some v) cs, true) else (cs, false)

-- The value waiting in a channel is taken out by its receiver.
unfoldable pub receive : ℕ → Chans → Chans × Option Bool
receive c cs = (set_chan c none cs, cs c)
