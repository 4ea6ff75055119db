-- ===== src/Pool/Queue.antt =====
-- server/pool/queue.py. A function that mutates the pool returns the new pool beside its result.
pub mod Owned
pub mod Grab
use gh_pool.Base.{
  ℕ, false, Option, none, some, List, [], ◌∷◌, Result, ok, err, ◌==◌, String, if◌then◌else◌,
}
use gh_pool.Base.Dict.{lookup, put}
use gh_pool.Base.Members.{add}
use gh_pool.Pool.Status.{running, is_pending, is_running}
use gh_pool.Pool.State.{Row, Task, Worker, Pool, events_size}

-- HTTPException, by its status code.
pub data HttpError : Type 0 where
  http : ℕ → HttpError

-- from_db: the answer of a read, or the fallback and a note that the database failed. `answer` is
-- none if the read raised.
unfoldable pub from_db {ℓ} : {A : Type ℓ} → Option A → A → Pool → Pool × A
from_db (some a) fallback s = (s, a)
from_db none fallback s = (record s { db_ok = false }, fallback)

-- A row that the database returned, as the dictionary that the code makes of it.
unfoldable pub from_row : Row → Task
from_row r = record { row = r; lease_token = none; heartbeat_at = none }

or_404 : Option Task → Result HttpError Task
or_404 none = err (http 404)
or_404 (some t) = ok t

-- find: memory first, then the database. `answer` is what db.fetch gives, none if it raised.
unfoldable pub find : ℕ → Option (Option Row) → Pool → Pool × Result HttpError Task
unfolding or_404 from_row from_db
find tid answer s = elim (lookup tid s.tasks) [
  | some t ↦ (s, ok t)
  | none ↦
      let (s', r) = from_db answer none s in
      (s', or_404 (elim r [ none ↦ none | some row ↦ some (from_row row) ]))
]

-- The last test of `owned`, and the write of an adopted token.
claim : ℕ → ℕ → Task → Pool → Pool × Result HttpError Task
claim tid token t s = elim t.lease_token [
  | some held ↦ if held == token then (s, ok t) else (s, err (http 409))
  | none ↦
      if is_running t.row.status
      then (let t' : Task = record t { lease_token = some token } in
          (record s { tasks = put tid t' s.tasks }, ok t'))
      else (s, err (http 409))
]

-- owned: a missing or empty token, an unknown task and another's token are refused; a running task
-- with no token, as recovery leaves it, takes the caller's.
unfoldable pub owned : ℕ → Option ℕ → Pool → Pool × Result HttpError Task
unfolding claim
owned tid lease_token s = elim (lookup tid s.tasks) [
  | none ↦ (s, err (http 409))
  | some t ↦ elim lease_token [
    | none ↦ (s, err (http 409))
    | some token ↦ if token == 0 then (s, err (http 409)) else claim tid token t s
  ]
]

unfoldable pub touch : ℕ → Option ℕ → ℕ → Pool → Pool
touch worker_id task_id now s = elim (lookup worker_id s.workers) [
  | none ↦
      let w : Worker = record { first_seen = now; seen_at = now; task_id = task_id } in
      record s { workers = put worker_id w s.workers }
  | some w ↦ record s {
    workers = put worker_id (record w { seen_at = now; task_id = task_id }) s.workers;
  }
]

-- The answer to a worker that got a task.
pub record Lease : Type 0 where
  pub task_id : ℕ
  pub type : String
  pub payload : String
  pub lease_token : ℕ
  pub event_offset : ℕ

-- t.update(status=RUNNING, ...) of grab
unfoldable pub leased : ℕ → ℕ → ℕ → Task → Task
leased worker_id token now t = record {
  row = record t.row { status = running; worker_id = some worker_id; started_at = some now };
  lease_token = some token;
  heartbeat_at = some now;
}

-- The body of grab's loop for a pending task.
unfoldable pub grant : ℕ → ℕ → ℕ → ℕ → Task → Pool → Pool × Option Lease
unfolding leased touch
grant worker_id token now tid t s = (
  touch worker_id (some t.row.id) now (record s {
    tasks = put tid (leased worker_id token now t) s.tasks;
    dirty = add t.row.id s.dirty;
  }),
  some (record {
    task_id = t.row.id;
    type = t.row.type;
    payload = t.row.payload;
    lease_token = token;
    event_offset = events_size t.row.id s;
  }),
)

-- The loop of grab over what is left of the queue.
unfoldable pub grab_from : ℕ → ℕ → ℕ → List ℕ → Pool → Pool × Option Lease
unfolding grant
grab_from worker_id token now [] s = (record s { queue = [] }, none)
grab_from worker_id token now (tid ∷ rest) s =
    let skip = grab_from worker_id token now rest s in
    elim (lookup tid s.tasks) [
      | none ↦ skip
      | some t ↦
          if is_pending t.row.status
          then grant worker_id token now tid t (record s { queue = rest })
          else skip
    ]

-- grab: the first task of the queue that is still pending. `token` is the fresh uuid.
unfoldable pub grab : ℕ → ℕ → ℕ → Pool → Pool × Option Lease
unfolding grab_from
grab worker_id token now s = grab_from worker_id token now s.queue s
