-- ===== src/Sessions/Watch.antt =====
-- server/watchdog.py and server/cleaner.py, with the queries of core/sessions.py that they ask. A
-- tick is shown as the calls it makes one after the other.
pub mod Space
use gh_pool.Base.{
  ℕ, ◌+◌, ◌-◌, Bool, true, false, Option, none, some, List, [], ◌∷◌, ◌++◌, if◌then◌else◌, ltb, leb,
}
use gh_pool.Base.Dict.{Dict, lookup}
use gh_pool.Sessions.Rows.{
  SessionStatus, pending, active, closed, dead, Session, Command, CommandError, ErrorCode,
  CloseReason, Tables, Sessions,
}
use gh_pool.Sessions.Lifecycle.{finish, forget}
use gh_pool.Sessions.Commands.{complete, request_cancel, expired_commands, error_is}

-- TIMED_OUT
abbrev pub timed_out : CommandError
timed_out = record { code = ErrorCode.timeout; message = "command timed out" }

-- A time plus a span is past; a time that is null never is.
past : Option ℕ → ℕ → ℕ → Bool
past none span now = false
past (some at) span now = ltb (at + span) now

-- The test of dead_candidates.
unfoldable pub is_candidate : ℕ → ℕ → ℕ → Session → Bool
unfolding past
is_candidate heartbeat_timeout ready_timeout now row = elim row.status [
  | active ↦ past row.heartbeat_at heartbeat_timeout now
  | pending ↦ ltb (row.created_at + ready_timeout) now
  | _ ↦ false
]

unfoldable pub ids_where : (Session → Bool) → Dict Session → List ℕ
ids_where p [] = []
ids_where p ((sid, row) ∷ d) = let rest = ids_where p d in if p row then sid ∷ rest else rest

-- dead_candidates
unfoldable pub dead_candidates : ℕ → ℕ → ℕ → Tables → List ℕ
unfolding is_candidate ids_where
dead_candidates heartbeat_timeout ready_timeout now db =
    ids_where (is_candidate heartbeat_timeout ready_timeout now) db.sessions

-- The first loop of Watchdog._tick.
unfoldable pub time_out : ℕ → List Command → Sessions → Sessions
time_out now [] s = s
time_out now (c ∷ cs) s =
    time_out now cs
      (request_cancel c.session_id c.id (complete c.session_id c.id (error_is timed_out) now s))

-- The second loop.
unfoldable pub bury : ℕ → List ℕ → Sessions → Sessions
bury now [] s = s
bury now (sid ∷ sids) s = bury now sids (finish sid CloseReason.dead now s)

-- Watchdog._tick
unfoldable pub watch : ℕ → ℕ → ℕ → Sessions → Sessions
unfolding time_out bury
watch heartbeat_timeout ready_timeout now s =
    let s' = time_out now (expired_commands now s.db) s in
    bury now (dead_candidates heartbeat_timeout ready_timeout now s'.db) s'

-- Cleaner._forget on the tables, for each of some sessions.
unfoldable pub forget_all : List ℕ → Sessions → Sessions
forget_all [] s = s
forget_all (sid ∷ sids) s = forget_all sids (record s { db = forget sid s.db })

-- The second loop of Cleaner._tick: sessions with their sizes on disk, the longest closed first,
-- until the sizes left are within the limit. It gives what it forgets and what is used then.
unfoldable pub evict : ℕ → List (ℕ × ℕ) → ℕ → List ℕ × ℕ
evict limit [] used = ([], used)
evict limit ((sid, bytes) ∷ rest) used =
    let (more, left) = evict limit rest (used - bytes) in
    if leb used limit then ([], used) else (sid ∷ more, left)

-- Cleaner._tick: `old` are the sessions closed for too long, `idle` those closed for longer than
-- the runner's grace, and `used` what the disk holds once the old ones are gone.
unfoldable pub clean : ℕ → List ℕ → List (ℕ × ℕ) → ℕ → Sessions → Sessions
unfolding forget_all evict
clean limit old idle used s =
    let s' = forget_all old s in
    if ltb limit used then forget_all (evict limit idle used).0 s' else s'
