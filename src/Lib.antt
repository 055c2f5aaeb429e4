-- ===== src/Lib.antt =====
-- Models and proofs of CAS, the coordinated allocation server of this repository: it hands out
-- the rate-limited calls of one upstream API among many appliances.
--
-- The program's parts, their files, and how they correspond to the code:
--
-- * Classes models the priority classes of internal/state/state.go and the split of one window's
--   allowance among them, the computation in ResetClassBudgets. Float64 models the float64
--   division, product and rounding that it uses, exactly, on whole numbers (weights and limits
--   are whole, and a fraction is a number of units of 2 ^ -53). The search for the unit in the
--   last place runs on fuel 256, which is enough for numbers below 2 ^ 309; products of an int64
--   and a fraction stay below 2 ^ 117. Theorems about the split take a limit below 2 ^ 48.
-- * Policy models ParsePolicyWindow with strings.Split, strings.TrimSpace and strconv.Atoi as far
--   as it calls them, on code points.
-- * State models the State of internal/state/state.go: a record with the fields of the struct, and
--   a function for each method (NoteHeaders is note_headers, CanDispatch is can_dispatch,
--   NotePenalty is note_penalty, and so on, long ones in parts that are composed in order);
--   State/Spending has what the dispatch test and a grant do, State/Penalties has NotePenalty. A
--   method that reads time.Now takes the reading as an argument. A time is a count of ns since Go's
--   zero time, so that IsZero is equality with 0; a length of time wraps to 64 bits as
--   time.Duration does. A Go map with int values is a function.
-- * Dict and Chan model map[string]*T as an association list, and a chan bool of capacity 1.
-- * Queue models internal/queue/queue.go. The float64 of priorities is a type with the operations
--   that the queue calls, a parameter; sort.SliceStable is an insertion sort.
-- * Messages, Engine, Reports and Dispatcher model internal/handlers/engine.go: the requests and
--   reports; TryAcquire and the issue of a ticket; processReportUnderLock, HandleReport and
--   TryReportAndAcquire; a round of dispatchLoop, the token map, and a pass of ticketReaper. Each
--   function is the code between taking the lock of the state and releasing it, one atomic step;
--   a UUID is an argument. What a step hands to the database (internal/db/db.go) or to the
--   subscribers of the dashboard is a list of effects, since those calls return nothing.
-- * Notifier models internal/handlers/notifier.go; the engine calls its Notify, which is the effect
--   broadcast there.
-- * Http models internal/handlers/http.go. A handler is a function up to its long poll
--   (acquire_begin, report_begin, report_and_acquire_begin) and one after it (poll_end); a response
--   is a code with a text or a JSON object. What the decoder makes of a body, and what the select of
--   the long poll receives, are arguments. status_of is the answer of /status.
-- * Store models internal/db/db.go: a table is its rows in the order of their insertion with the last
--   id; Open, the three inserts and the queries (query_recent_logs, query_stats, query_stats_since,
--   query_distinct_appliances, and so on) are functions on the tables, with the SQL read as it
--   is defined. A call of the driver that fails is an argument. A column that a query turns from NULL
--   to the empty text is kept as an option. Store/Writes carries out the effects of the engine, and
--   Store/Reports follows a report from the engine to the row that the dashboard shows.
-- * Dashboard models internal/dashboard/dashboard.go: the live state, the endpoints, the data of the
--   page, and, in Dashboard/Stream, the stream of events as a sequence of wakeups.
--   Dashboard/Template is the card of the live state as the template writes it and as the page's script
--   keeps it up to date, and Dashboard/Template/Tables and Cells are the rest of the page: an
--   element is its text with its class, and a page that the template's slice has stopped is what was written
--   before.
-- * Sessions puts the open long polls of Http beside the engine: which appliance waits on which channel,
--   from the answer that puts it in the queue until its select ends.
-- * Startup models cmd/cas/main.go: the environment (a function), the settings, the start of the
--   server, and the middlewares.
-- * Safety holds what is true of the engine as a whole. Safety/System is the step relation: from the
--   server that cmd/cas/main.go starts, requests, reports, timeouts, dispatch rounds, the stores
--   and collections of queue tokens, reaper passes and the shutdown come in any order. Safety/Wiring
--   follows the channels of the waiters, Safety/Pass and Safety/Work the loop of a dispatch pass,
--   Safety/Quiet the server while no report arrives, and Safety/Lockdown the server while a penalty
--   is served.
-- * Ledger is an abstract specification of the server: who waits and who holds a ticket, as names, and
--   the moves that a request, a report, a timeout or a round may make. Ledger/Requests, Ledger/Rounds
--   and Ledger/Simulation relate the engine to it.
-- * Examples holds concrete runs.
--
-- How they interact: Engine, Reports and Dispatcher call State and Queue, and State calls Classes
-- and Policy. The client of a queued request waits on its channel; a round of the dispatch loop
-- sends on it and stores the token in the token map after it has released the lock, and the client
-- collects the token there. Http calls Engine, Reports and Dispatcher; the effects of a step go to Store
-- and Notifier; Dashboard reads the engine, Store and Notifier; Startup puts them together.
--
-- Bounds: the counters of tickets, units and slots are whole numbers without a bound; the
-- subtractions whose sign is tested, and lengths of time, wrap to 64 bits. A pass of the dispatch
-- loop is given its rounds, and with each what the other goroutines do while the loop has released
-- the lock; one more than there are waiters and newcomers being enough. The order of names in a
-- query is that of their bytes, and the template's slice counts the bytes of UTF-8.
--
-- Not modelled: the decoding and encoding of JSON, the sockets, timeouts and routing of net/http,
-- TLS and signals; the SQLite engine and its driver, beyond what the statements mean and that a call may
-- fail, and Close; the style sheet and the static markup of the dashboard, the escaping of the
-- template engine, and what the script does to filter rows, to show their age and to reload the
-- page; float64 of latencies and throughputs, which are parameters. Logging is left out.
pub mod Base
pub mod Float64
pub mod Classes
pub mod Policy
pub mod State
pub mod Dict
pub mod Chan
pub mod Queue
pub mod Messages
pub mod Engine
pub mod Reports
pub mod Dispatcher
pub mod Safety
pub mod Http
pub mod Sessions
pub mod Startup
pub mod Store
pub mod Dashboard
pub mod Ledger
pub mod Notifier
pub mod Examples
