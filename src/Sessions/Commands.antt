-- ===== src/Sessions/Commands.antt =====
-- core/sessions.py: the commands of a session, first in first out, one at a time.
pub mod Counts
pub mod Fifo
use gh_pool.Base.{
  ℕ, ◌+◌, Bool, true, false, Option, none, some, List, [], ◌∷◌, ◌++◌, Result, ok, err, String,
  if◌then◌else◌, ◌==◌, ◌&&◌, leb, ltb,
}
use gh_pool.Base.Dict.{lookup, put, remove}
use gh_pool.Base.Members.{add}
use gh_pool.Sessions.Rows.{
  is_live, CommandStatus, queued, started, finished, failed, is_queued, is_started, CommandError,
  EventData, command_started, command_finished, command_failed, Session, Command, Tables, Sessions,
  update_where, select,
}
use gh_pool.Sessions.Publish.{publish, publish_in}
use gh_pool.Sessions.Lifecycle.{SessionError, not_found, unavailable, announce_work}

pub data Enqueued : Type 0 where
  command : ℕ → ℕ → Enqueued

-- The row that enqueue inserts.
unfoldable pub new_command : ℕ → ℕ → ℕ → String → ℕ → Command
new_command cid sid seq args timeout = record {
  id = cid;
  session_id = sid;
  seq = seq;
  args = args;
  timeout_ms = timeout;
  status = queued;
  result = none;
  error = none;
  started_at = none;
  finished_at = none;
}

unfoldable pub timeout_of : Option ℕ → Session → ℕ
timeout_of none row = row.timeout
timeout_of (some t) row = t

-- The transaction of enqueue on a live session.
unfoldable pub insert_command : ℕ → ℕ → String → Option ℕ → Session → Tables → Tables
unfolding new_command timeout_of
insert_command sid cid args timeout row db = record db {
  sessions = put sid (record row { last_cmd_seq = row.last_cmd_seq + 1 }) db.sessions;
  commands =
      db.commands ++ new_command cid sid (row.last_cmd_seq + 1) args (timeout_of timeout row) ∷ [];
}

-- enqueue: `cid` is the fresh id of the command.
unfoldable pub enqueue :
    ℕ → ℕ → String → Option ℕ → Sessions → Sessions × Result SessionError Enqueued
unfolding insert_command announce_work
enqueue sid cid args timeout s = elim (lookup sid s.db.sessions) [
  | none ↦ (s, err not_found)
  | some row ↦
      if is_live row.status
      then (
        announce_work sid (record s { db = insert_command sid cid args timeout row s.db }),
        ok (command cid (row.last_cmd_seq + 1)),
      )
      else (s, err unavailable)
]

-- A command of the session with this status.
unfoldable pub of_status : (CommandStatus → Bool) → ℕ → Command → Bool
of_status p sid c = c.session_id == sid && p c.status

-- order by seq limit 1
unfoldable pub lowest : List Command → Option Command
lowest [] = none
lowest (c ∷ cs) = elim (lowest cs) [
  | none ↦ some c
  | some d ↦ if leb c.seq d.seq then some c else some d
]

-- The update of take_next.
unfoldable pub begun : ℕ → Command → Command
begun now c = record c { status = started; started_at = some now }

unfoldable pub start_one : ℕ → ℕ → Option Command → Tables → Tables × Option Command
start_one sid now none db = (db, none)
start_one sid now (some c) db = (
  publish_in sid (command_started c.id)
      (record db { commands = update_where (λ d. d.id == c.id) (begun now) db.commands }),
  some (begun now c),
)

-- take_next: nothing while a command of the session is started, else the queued one of the lowest
-- seq. The claim on the session's row is held to the end of the transaction.
unfoldable pub take_next : ℕ → ℕ → Tables → Tables × Option Command
unfolding of_status lowest begun start_one
take_next sid now db = elim (select (of_status is_started sid) db.commands) [
  | [] ↦ start_one sid now (lowest (select (of_status is_queued sid) db.commands)) db
  | _ ∷ _ ↦ (db, none)
]

pub data Outcome : Type 0 where
  result_is : String → Outcome
  error_is : CommandError → Outcome

-- The update of complete.
unfoldable pub settled : Outcome → ℕ → Command → Command
settled (result_is r) now c = record c {
  status = finished;
  result = some r;
  error = none;
  finished_at = some now;
}
settled (error_is e) now c = record c {
  status = failed;
  result = none;
  error = some e;
  finished_at = some now;
}

unfoldable pub outcome_event : ℕ → Outcome → EventData
outcome_event cid (result_is r) = command_finished cid r
outcome_event cid (error_is e) = command_failed cid e

-- The command that complete may settle.
unfoldable pub is_current : ℕ → ℕ → Command → Bool
is_current sid cid c = c.id == cid && (c.session_id == sid && is_started c.status)

-- complete
unfoldable pub complete : ℕ → ℕ → Outcome → ℕ → Sessions → Sessions
unfolding is_current settled outcome_event announce_work
complete sid cid outcome now s = elim (select (is_current sid cid) s.db.commands) [
  | [] ↦ s
  | _ ∷ _ ↦ announce_work sid (record s {
    db = publish_in sid (outcome_event cid outcome) (record s.db {
      commands = update_where (is_current sid cid) (settled outcome now) s.db.commands;
    });
  })
]

-- publish_runner_event
unfoldable pub publish_runner_event : ℕ → EventData → Tables → Option Tables
publish_runner_event sid body db = publish sid body db

-- request_cancel
unfoldable pub request_cancel : ℕ → ℕ → Sessions → Sessions
unfolding announce_work
request_cancel sid cid s =
    let before : List ℕ = elim (lookup sid s.cancels) [ none ↦ [] | some cs ↦ cs ] in
    announce_work sid (record s { cancels = put sid (before ++ cid ∷ []) s.cancels })

-- take_cancels
unfoldable pub take_cancels : ℕ → Sessions → Sessions × List ℕ
take_cancels sid s = (
  record s { cancels = remove sid s.cancels },
  elim (lookup sid s.cancels) [ none ↦ [] | some cs ↦ cs ],
)

-- The test of expired_commands.
unfoldable pub is_expired : ℕ → Command → Bool
is_expired now c =
    is_started c.status
    && elim c.started_at [ none ↦ false | some at ↦ ltb (at + c.timeout_ms) now ]

unfoldable pub expired_commands : ℕ → Tables → List Command
unfolding is_expired
expired_commands now db = select (is_expired now) db.commands
