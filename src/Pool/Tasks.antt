-- ===== src/Pool/Tasks.antt =====
-- The task handlers of server/tasks.py that change the pool, each from the line after its check of
-- the authorization header to its end.
pub mod Fencing
use gh_pool.Base.{
  ℕ, Bool, true, false, Option, none, some, List, [], ◌∷◌, ◌++◌, Result, ok, err, String, ltb, leb,
  ◌==◌, if◌then◌else◌, length,
}
use gh_pool.Base.Dict.{lookup, put}
use gh_pool.Base.Members.{add, discard}
use gh_pool.Pool.Status.{TaskStatus, is_finished, is_reportable, from_text}
use gh_pool.Pool.State.{Task, Pool, Settings, events_of, events_size}
use gh_pool.Pool.Queue.{HttpError, http, Lease, owned, touch, grab}

-- What one pass of lease's loop gives: a task, a 204, or a wait of `left` for `arrived`.
pub data Round : Type 0 where
  granted : Lease → Round
  no_content : Round
  waiting : ℕ → Round

-- lease, up to the loop
unfoldable pub lease_start : Option ℕ → ℕ → Pool → Pool × Result HttpError ℕ
lease_start none now s = (s, err (http 400))
lease_start (some worker_id) now s =
    if worker_id == 0 then (s, err (http 400)) else (touch worker_id none now s, ok worker_id)

unfoldable pub round_after : ℕ → Pool × Option Lease → Pool × Round
round_after left (s, some l) = (s, granted l)
round_after left (s, none) = (s, if left == 0 then no_content else waiting left)

-- One pass of the loop; `left` is deadline - time.monotonic(), 0 if that is not positive.
unfoldable pub lease_round : ℕ → ℕ → ℕ → ℕ → Pool → Pool × Round
unfolding round_after
lease_round worker_id token now left s = round_after left (grab worker_id token now s)

-- What follows a wait that `arrived` ended.
unfoldable pub lease_wake : Pool → Pool
lease_wake s = record s { arrived = false }

unfoldable pub beat : ℕ → ℕ → Pool × Result HttpError Task → Pool × Result HttpError Bool
beat tid now (s, err e) = (s, err e)
beat tid now (s, ok t) =
    let s' : Pool = record s { tasks = put tid (record t { heartbeat_at = some now }) s.tasks } in
    (
      elim t.row.worker_id [
        | none ↦ s'
        | some w ↦ if w == 0 then s' else touch w (some tid) now s'
      ],
      ok t.row.cancel_requested,
    )

-- heartbeat: whether the worker is to cancel.
unfoldable pub heartbeat : ℕ → Option ℕ → ℕ → Pool → Pool × Result HttpError Bool
unfolding beat
heartbeat tid lease_token now s = beat tid now (owned tid lease_token s)

pub record Appended : Type 0 where
  pub code : ℕ
  pub offset : ℕ
  pub accepting : Bool

-- append_events under the task's lock
unfoldable pub append_locked : Settings → ℕ → ℕ → List ℕ → Pool → Pool × Appended
unfolding events_size
append_locked c tid offset body s =
    let size : ℕ = events_size tid s in
    if leb c.event_cap size
    then (s, record { code = 200; offset = size; accepting = false })
    else if offset == size
    then (let bytes : List ℕ = events_of tid s ++ body in
        (
          elim body [ [] ↦ s | _ ∷ _ ↦ record s { files = put tid bytes s.files } ],
          record { code = 200; offset = length bytes; accepting = ltb (length bytes) c.event_cap },
        ))
    else (s, record { code = 409; offset = size; accepting = true })

unfoldable pub append_owned :
    Settings → ℕ → ℕ → List ℕ → Pool × Result HttpError Task → Pool × Result HttpError Appended
unfolding append_locked
append_owned c tid offset body (s, err e) = (s, err e)
append_owned c tid offset body (s, ok t) =
    let (s', answer) =
      append_locked c tid offset body (record s { event_locks = add tid s.event_locks }) in
    (s', ok answer)

-- append_events: the body of a POST at an offset of the file, which comes with no other handler in
-- between; append_locked is what follows the waits.
unfoldable pub append_events :
    Settings → ℕ → Option ℕ → ℕ → List ℕ → Pool → Pool × Result HttpError Appended
unfolding append_owned
append_events c tid lease_token offset body s =
    append_owned c tid offset body (owned tid lease_token s)

-- `state.current.workers[w]["task_id"] = None`, if the worker is known
unfoldable pub release_worker : Option ℕ → Pool → Pool
release_worker none s = s
release_worker (some w) s = elim (lookup w s.workers) [
  | none ↦ s
  | some entry ↦ record s { workers = put w (record entry { task_id = none }) s.workers }
]

-- t.update(status=status, ...) of complete
unfoldable pub reported : TaskStatus → Option String → ℕ → Task → Task
reported status error now t = record t {
  row = record t.row { status = status; error = error; finished_at = some now };
  lease_token = none;
}

-- The writes of complete.
unfoldable pub finish_task : ℕ → TaskStatus → Option String → ℕ → Task → Pool → Pool
unfolding release_worker reported
finish_task tid status error now t s =
    let s' : Pool = release_worker t.row.worker_id (record s {
      tasks =
          put tid
            (record {
              row = record t.row { status = status; error = error; finished_at = some now };
              lease_token = none;
              heartbeat_at = t.heartbeat_at;
            })
            s.tasks;
      dirty = add tid s.dirty;
    }) in
    record s' { event_locks = discard tid s'.event_locks }

unfoldable pub complete_owned :
    ℕ
    → Option TaskStatus
    → Option String
    → ℕ
    → Pool × Result HttpError Task
    → Pool × Result HttpError TaskStatus
unfolding finish_task
complete_owned tid status error now (s, err e) = (s, err e)
complete_owned tid none error now (s, ok t) = (s, err (http 400))
complete_owned tid (some status) error now (s, ok t) =
    if is_reportable status
    then (if is_finished t.row.status
        then (s, ok t.row.status)
        else (finish_task tid status error now t s, ok status))
    else (s, err (http 400))

-- complete, with no other handler while its body comes; complete_owned, on the task as it is then, is
-- what follows that wait. `status` is the body's text, the default being "done".
unfoldable pub complete :
    ℕ → Option ℕ → String → Option String → ℕ → Pool → Pool × Result HttpError TaskStatus
unfolding complete_owned
complete tid lease_token status error now s =
    complete_owned tid (from_text status) error now (owned tid lease_token s)
