-- ===== src/Sessions/Lifecycle.antt =====
-- core/sessions.py: a session from its creation to its end. A transaction is one function on the
-- tables; `now` is the database's clock.
use gh_pool.Base.{
  ℕ, ◌+◌, Bool, true, false, Option, none, some, List, [], ◌∷◌, Result, ok, err, String,
  if◌then◌else◌, ◌==◌, ◌&&◌, ◌||◌, leb, ltb,
}
use gh_pool.Base.Dict.{Dict, lookup, put, remove}
use gh_pool.Base.Members.{add, discard}
use gh_pool.Sessions.Rows.{
  SessionStatus, pending, active, closed, dead, is_live, CloseReason, failed, is_queued, is_started,
  ErrorCode, CommandError, session_ready, session_closed, command_failed, Session, Command, Profile,
  Tables, Sessions, update_where, select,
}
use gh_pool.Sessions.Publish.{publish_in}

pub data SessionError : Type 0 where
  not_found unavailable too_many : SessionError

-- announce_work
unfoldable pub announce_work : ℕ → Sessions → Sessions
announce_work sid s = record s { work = add sid s.work }

count_live : Dict Session → ℕ
count_live [] = 0
count_live ((_, r) ∷ d) = (if is_live r.status then 1 else 0) + count_live d

-- The test on max_sessions.
unfoldable pub full : Option ℕ → Tables → Bool
unfolding count_live
full none db = false
full (some limit) db = leb limit (count_live db.sessions)

-- _claim_profile
unfoldable pub claim_profile : Option ℕ → Tables → Tables × Bool
claim_profile none db = (db, false)
claim_profile (some name) db = elim (lookup name db.profiles) [
  | none ↦
      let p : Profile = record { stale = false; updated_at = none } in
      (record db { profiles = put name p db.profiles }, false)
  | some p ↦ (db, p.stale)
]

-- create: `sid` and `token` are fresh.
unfoldable pub create :
    ℕ
    → ℕ
    → Option ℕ
    → String
    → ℕ
    → Option ℕ
    → Bool
    → ℕ
    → Sessions
    → Sessions × Result SessionError ℕ
unfolding full claim_profile
create sid token max_sessions params timeout profile persist now s =
    if full max_sessions s.db
    then (s, err too_many)
    else (let (db, stale) = claim_profile profile s.db in
        let row : Session = record {
          status = pending;
          params = params;
          timeout = timeout;
          profile = profile;
          persist = persist;
          state_stale = stale;
          last_seq = 0;
          last_cmd_seq = 0;
          heartbeat_at = none;
          created_at = now;
          ready_at = none;
          closed_at = none;
          runner_token = token;
        } in
        (record s { db = record db { sessions = put sid row db.sessions } }, ok sid))

abbrev pub is_pending : SessionStatus → Bool
is_pending pending = true
is_pending _ = false

-- The update of mark_ready, on a pending row.
unfoldable pub readied : ℕ → Session → Session
readied now row = record row { status = active; ready_at = some now; heartbeat_at = some now }

-- mark_ready
unfoldable pub mark_ready : ℕ → ℕ → Tables → Tables
unfolding readied
mark_ready sid now db = elim (lookup sid db.sessions) [
  | none ↦ db
  | some row ↦
      if is_pending row.status
      then publish_in sid (session_ready row.state_stale)
          (record db { sessions = put sid (readied now row) db.sessions })
      else db
]

-- heartbeat: whether the session is live
unfoldable pub heartbeat : ℕ → ℕ → Tables → Tables × Bool
heartbeat sid now db = elim (lookup sid db.sessions) [
  | none ↦ (db, false)
  | some row ↦
      if is_live row.status
      then (
        record db { sessions = put sid (record row { heartbeat_at = some now }) db.sessions },
        true,
      )
      else (db, false)
]

-- The status that a reason closes with.
unfoldable pub ending : CloseReason → SessionStatus
ending CloseReason.closed = closed
ending _ = dead

-- CommandError(code=SESSION_DEAD, message=f"session {reason}")
unfoldable pub death : CloseReason → CommandError
death CloseReason.closed = record { code = ErrorCode.session_dead; message = "session closed" }
death CloseReason.dead = record { code = ErrorCode.session_dead; message = "session dead" }
death CloseReason.timeout = record { code = ErrorCode.session_dead; message = "session timeout" }

-- A command of the session that has not ended.
unfoldable pub is_orphan : ℕ → Command → Bool
is_orphan sid c = c.session_id == sid && (is_queued c.status || is_started c.status)

-- The update of an orphan.
unfoldable pub orphaned : CommandError → ℕ → Command → Command
orphaned error now c = record c { status = failed; error = some error; finished_at = some now }

unfoldable pub publish_failures : ℕ → CommandError → List Command → Tables → Tables
publish_failures sid error [] db = db
publish_failures sid error (c ∷ cs) db =
    publish_failures sid error cs (publish_in sid (command_failed c.id error) db)

is_dead : SessionStatus → Bool
is_dead dead = true
is_dead _ = false

-- updated_at is null or updated_at < ready_at
older : Option ℕ → ℕ → Bool
older none at = true
older (some updated) at = ltb updated at

spoil : Option Profile → ℕ → ℕ → Dict Profile → Dict Profile
spoil none name at d = d
spoil (some p) name at d =
    if older p.updated_at at then put name (record p { stale = true }) d else d

-- The profile of a session that died after it was ready is stale.
unfoldable pub spoil_profile : Session → SessionStatus → Tables → Tables
unfolding is_dead older spoil
spoil_profile row status db =
    if is_dead status && row.persist
    then elim row.ready_at [
      | none ↦ db
      | some at ↦ elim row.profile [
        | none ↦ db
        | some name ↦ record db { profiles = spoil (lookup name db.profiles) name at db.profiles }
      ]
    ]
    else db

-- The update of _finish, on a live row.
unfoldable pub ended : CloseReason → ℕ → Session → Session
unfolding ending
ended reason now row = record row { status = ending reason; closed_at = some now }

-- _finish on a live session: fail its commands, spoil its profile, publish the end.
unfoldable pub finish_row : ℕ → CloseReason → ℕ → Session → Tables → Tables
unfolding ended death publish_failures spoil_profile
finish_row sid reason now row db =
    let orphans = select (is_orphan sid) db.commands in
    let db' : Tables = record db {
      sessions = put sid (ended reason now row) db.sessions;
      commands = update_where (is_orphan sid) (orphaned (death reason) now) db.commands;
    } in
    publish_in sid (session_closed reason)
      (spoil_profile row (ending reason) (publish_failures sid (death reason) orphans db'))

-- _finish
unfoldable pub finish_tx : ℕ → CloseReason → ℕ → Tables → Tables
unfolding finish_row
finish_tx sid reason now db = elim (lookup sid db.sessions) [
  | none ↦ db
  | some row ↦ if is_live row.status then finish_row sid reason now row db else db
]

-- finish
unfoldable pub finish : ℕ → CloseReason → ℕ → Sessions → Sessions
unfolding finish_tx announce_work
finish sid reason now s =
    let s' : Sessions = announce_work sid (record s {
      db = finish_tx sid reason now s.db;
      closing = discard sid s.closing;
      cancels = remove sid s.cancels;
    }) in
    record s' { work = discard sid s'.work }

-- request_close on a row of this status: a pending session ends at once, an active one is asked to.
unfoldable pub ask_to_close : ℕ → ℕ → SessionStatus → Sessions → Sessions
unfolding finish_tx announce_work
ask_to_close sid now pending s = record s { db = finish_tx sid CloseReason.closed now s.db }
ask_to_close sid now active s = announce_work sid (record s { closing = add sid s.closing })
ask_to_close sid now _ s = s

-- request_close
unfoldable pub request_close : ℕ → ℕ → Sessions → Sessions
unfolding ask_to_close
request_close sid now s = elim (lookup sid s.db.sessions) [
  | none ↦ s
  | some row ↦ ask_to_close sid now row.status s
]

-- forget: the commands and events go with the row.
unfoldable pub forget : ℕ → Tables → Tables
forget sid db = record db {
  sessions = remove sid db.sessions;
  commands = select (λ c. if c.session_id == sid then false else true) db.commands;
  events = select (λ e. if e.0 == sid then false else true) db.events;
}
