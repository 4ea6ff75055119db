-- ===== src/Sessions/Publish.antt =====
-- Events.publish, and the numbering of a session's events.
pub mod Dense
use gh_pool.Base.{ℕ, ◌+◌, Option, none, some, List, [], ◌∷◌, ◌++◌}
use gh_pool.Base.Dict.{lookup, put}
use gh_pool.Sessions.Rows.{Session, Event, EventData, Tables}

-- publish, in a transaction on a session that is there.
unfoldable pub publish_on : ℕ → Session → EventData → Tables → Tables
publish_on session_id row body db =
    let event : Event = record { seq = row.last_seq + 1; body = body } in
    record db {
      sessions = put session_id (record row { last_seq = row.last_seq + 1 }) db.sessions;
      events = db.events ++ (session_id, event) ∷ [];
      outbox = db.outbox ++ (session_id, event) ∷ [];
    }

-- publish: none is the LookupError, which takes the transaction back.
unfoldable pub publish : ℕ → EventData → Tables → Option Tables
unfolding publish_on
publish session_id body db = elim (lookup session_id db.sessions) [
  | none ↦ none
  | some row ↦ some (publish_on session_id row body db)
]

-- A publish inside a longer transaction, on a session that the transaction has found.
unfoldable pub publish_in : ℕ → EventData → Tables → Tables
unfolding publish_on
publish_in session_id body db = elim (lookup session_id db.sessions) [
  | none ↦ db
  | some row ↦ publish_on session_id row body db
]
