-- ===== src/Pool/Client.antt =====
-- The task handlers of server/tasks.py that a client calls: create, cancel, retry, list, read.
use gh_pool.Base.{
  ℕ, Bool, true, false, Option, none, some, [], ◌∷◌, ◌++◌, Result, ok, err, String, str_eq,
  if◌then◌else◌, ◌&&◌, not,
}
use gh_pool.Base.Dict.{put, has}
use gh_pool.Base.Members.{add}
use gh_pool.Pool.Status.{pending, running, cancelled}
use gh_pool.Pool.State.{Row, Task, Pool, Settings, overloaded}
use gh_pool.Pool.Queue.{HttpError, http, find}

-- A new task goes to the end of the queue, is to be saved, and wakes a waiting worker.
unfoldable pub enqueue : ℕ → Row → Pool → Pool
enqueue tid row s = record s {
  tasks = put tid (record { row = row; lease_token = none; heartbeat_at = none }) s.tasks;
  queue = s.queue ++ tid ∷ [];
  dirty = add tid s.dirty;
  arrived = true;
}

-- create_task: `tid` is the fresh uuid; a missing payload is the text of an empty object.
unfoldable pub create_task :
    Settings → ℕ → String → String → Option ℕ → ℕ → Pool → Pool × Result HttpError ℕ
unfolding enqueue
create_task c tid type payload parent_id now s =
    if str_eq type ""
    then (s, err (http 400))
    else if overloaded c s
    then (s, err (http 503))
    else (
      enqueue tid
          (record {
            id = tid;
            type = type;
            payload = payload;
            status = pending;
            worker_id = none;
            error = none;
            parent_id = parent_id;
            created_at = now;
            started_at = none;
            finished_at = none;
            cancel_requested = false;
          })
          s,
      ok tid,
    )

pub data Cancelled : Type 0 where
  before_start requested already_terminal : Cancelled

-- The dictionary `t` is changed in place, and put in memory if it came from the database. While
-- the database was read another request may have put one there, which then stays.
unfoldable pub keep_found : ℕ → Bool → Task → Pool → Pool
keep_found tid fetched t s =
    let s' : Pool =
      if fetched && has tid s.tasks then s else record s { tasks = put tid t s.tasks } in
    record s' { dirty = add tid s'.dirty }

-- t.update(status=CANCELLED, ...)
unfoldable pub stopped : ℕ → Task → Task
stopped now t = record t {
  row = record t.row {
    status = cancelled;
    finished_at = some now;
    error = some "cancelled before start";
  };
}

-- t["cancel_requested"] = True
unfoldable pub asked : Task → Task
asked t = record t { row = record t.row { cancel_requested = true } }

-- cancel from the line after its call of find; `fetched` tells that `t` came from the database.
unfoldable pub cancel_found : ℕ → Bool → ℕ → Task → Pool → Pool × Cancelled
unfolding keep_found stopped asked
cancel_found tid fetched now t s = elim t.row.status [
  | pending ↦ (keep_found tid fetched (stopped now t) s, before_start)
  | running ↦ (keep_found tid fetched (asked t) s, requested)
  | _ ↦ (s, already_terminal)
]

unfoldable pub cancel_after :
    ℕ → Bool → ℕ → Pool × Result HttpError Task → Pool × Result HttpError Cancelled
unfolding cancel_found
cancel_after tid fetched now (s, err e) = (s, err e)
cancel_after tid fetched now (s, ok t) =
    let (s', answer) = cancel_found tid fetched now t s in (s', ok answer)

-- cancel with no other request during its read.
unfoldable pub cancel : ℕ → Option (Option Row) → ℕ → Pool → Pool × Result HttpError Cancelled
unfolding cancel_after
cancel tid answer now s = cancel_after tid (not (has tid s.tasks)) now (find tid answer s)

-- The row of retry's new task.
unfoldable pub retried : ℕ → ℕ → ℕ → Row → Row
retried tid nid now r = record r {
  id = nid;
  status = pending;
  worker_id = none;
  error = none;
  parent_id = some tid;
  created_at = now;
  started_at = none;
  finished_at = none;
  cancel_requested = false;
}

unfoldable pub retry_after : ℕ → ℕ → ℕ → Pool × Result HttpError Task → Pool × Result HttpError ℕ
unfolding retried enqueue
retry_after tid nid now (s, err e) = (s, err e)
retry_after tid nid now (s, ok t) = (enqueue nid (retried tid nid now t.row) s, ok nid)

-- retry: a copy of the task under the fresh id `nid`.
unfoldable pub retry : ℕ → Option (Option Row) → ℕ → ℕ → Pool → Pool × Result HttpError ℕ
unfolding retry_after
retry tid answer nid now s = retry_after tid nid now (find tid answer s)
