-- ===== src/Lib.antt =====
-- gh-pool: a server that leases tasks and browser sessions to workers on GitHub runners, and the
-- keepers of the fleet. This library models the parts that keep state and proves what makes them
-- correct. Paths are from the repository's root, those in brackets from src/gh_pool/ in it.
--
-- - Base: the libraries' names, tests on numbers, lists measured by native numbers, Python's
--   dictionaries and sets with number keys.
-- - Pool (server/tasks.py, server/pool/, status.py, db/tasks.py): the task server.
--   Pool.State has the process's state and the database's columns; Pool.Queue is queue.py
--   (find, owned, touch, grab); Pool.Tasks the handlers of workers (lease, heartbeat,
--   append_events, complete); Pool.Client those of clients (create_task, cancel, retry);
--   Pool.Views the reading ones; Pool.Artifacts those of the artifacts and the list of workers;
--   Pool.Store is store.py (flush, recover) and Pool.Keeper is
--   keeper.py (the sweep). Pool.World puts them together: a step is a stretch of code between two
--   awaits, so a flush is two steps with any others between them, append_events and complete may
--   wait for their bodies between owned and the rest, and a read of the database may answer with any
--   row that it had at some time.
-- - Sessions (core/sessions.py, core/events.py, db/sessions.py): the tables as records and lists,
--   each transaction one function, since it holds the row of its session (select … for update, or
--   an update of it) to its end. Sessions.Machine has the invariant of the tables over all calls
--   in any order; Sessions.Stream what a subscriber of the events sees; Sessions.Watch the ticks of
--   server/watchdog.py and server/cleaner.py.
-- - Fleet (fleet/workers.py, fleet/runners/): Fleet.Runs is one pass of _reconcile over the
--   workflow runs of a repository, Fleet.Slots the slots of runners and the decision of scale,
--   Fleet.Messages the message queue of a scale set (runners/queue.py), Fleet.Duty the slots
--   against the pool (runners/reconcile.py), Fleet.Budget the limit of requests, Fleet.Http a call of
--   GitHub's API with its retries (runners/http.py), Fleet.Controller the loop of a controller
--   (runners/controller.py, runners/session.py), Fleet.Teardown how it leaves (runners/teardown.py).
-- - Worker (worker/__init__.py): Worker.Spool is the spool of a task's output and its sender, where a
--   request may be taken any number of times before its answer arrives; Worker.Serve what req makes of
--   an answer, the heartbeats, and the end of a task with its report.
-- - Shell (server/shell.py, shell.py): Shell.Stream is one direction of a shell, Shell.Server the
--   shells of the live tasks and their handlers, Shell.Pump the worker's pump of the output. The
--   handlers begin where the bearer's token has passed (Pool.Auth).
-- - Wire (protocol/, server/sse.py): Wire.Tunnel has the frames of a tunnel, Wire.Sse the reader of a
--   stream of events, Wire.Events its writer, Wire.Trace the context of a trace, Wire.Texts Python's
--   strip and split. The decoder of UTF-8, the texts of pydantic and what is white space are arguments.
-- - Relay (relay/tunnel.py): Relay.Stream is one stream of a tunnel, Relay.Tunnel the streams over a
--   socket, with what their readers do between two rounds of its loop.
-- - Client (client/task.py): Client.Follow is how a client follows a task's output and waits for its
--   end.
-- - Browser (browser/loop.py): Browser.Loop is how a session's runner executes the commands of its
--   stream.
-- - Tests: the theorems at concrete inputs.
--
-- Ids, tokens, names and artifact keys are numbers, since the code only compares them; times are
-- numbers of seconds on one scale; payloads, results and arguments are texts. What a random
-- source, a clock, the database, GitHub and the pool's HTTP API answer are arguments. Recursion is
-- on lists and numbers; four loops have fuel: a shell's push, for which two rounds are enough, the
-- drain of a fleet, for which those up to its deadline are, the lines of a chunk, for which its
-- characters are, and a client's polls, for which those up to the task's end are. HTTP parsing,
-- logging and metrics are left out, and so are what a command does in the browser, the command
-- line and the transports between processes.
mod Base
pub mod Pool
pub mod Sessions
pub mod Fleet
pub mod Wire
pub mod Worker
pub mod Shell
pub mod Client
pub mod Browser
pub mod Relay
mod Tests
