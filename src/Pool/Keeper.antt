-- ===== src/Pool/Keeper.antt =====
-- server/pool/keeper.py: what each pass of the keeper does between its waits.
pub mod Sweep
use gh_pool.Base.{
  ℕ, zero, suc, ◌+◌, ◌*◌, ◌^◌, min, Bool, false, none, some, List, [], ◌∷◌, if◌then◌else◌, ◌&&◌,
  ltb,
}
use gh_pool.Base.Dict.{Dict, lookup, put, remove, keys}
use gh_pool.Base.Members.{add, discard}
use gh_pool.Pool.Status.{lost, is_running}
use gh_pool.Pool.State.{Task, Worker, Pool, Settings}

-- _rest: the sleep after a number of failed flushes in a row
unfoldable pub rest : Settings → ℕ → ℕ
rest c zero = c.flush_every
rest c (suc failures) = min (c.flush_every * 2 ^ suc failures) c.flush_backoff_cap

-- The test of the sweep. A task with no `heartbeat_at` counts as heard of now.
unfoldable pub is_silent : Settings → ℕ → Task → Bool
is_silent c now t =
    is_running t.row.status
    && elim t.heartbeat_at [ none ↦ false | some at ↦ ltb (at + c.lost_after) now ]

-- t.update(status=LOST, ...)
unfoldable pub written_off : ℕ → Task → Task
written_off now t = record t {
  row = record t.row { status = lost; error = some "worker gone"; finished_at = some now };
  lease_token = none;
}

-- The body of the sweep's loop, for the task under one key.
unfoldable pub sweep_task : Settings → ℕ → ℕ → Pool → Pool
unfolding is_silent written_off
sweep_task c now tid s = elim (lookup tid s.tasks) [
  | none ↦ s
  | some t ↦
      if is_silent c now t
      then record s {
        tasks = put tid (written_off now t) s.tasks;
        dirty = add t.row.id s.dirty;
        event_locks = discard t.row.id s.event_locks;
      }
      else s
]

-- The sweep over list(tasks.values()), by the keys.
unfoldable pub sweep_tasks : Settings → ℕ → List ℕ → Pool → Pool
unfolding sweep_task
sweep_tasks c now [] s = s
sweep_tasks c now (tid ∷ tids) s = sweep_tasks c now tids (sweep_task c now tid s)

unfoldable pub sweep_workers : Settings → ℕ → Dict Worker → Pool → Pool
sweep_workers c now [] s = s
sweep_workers c now ((wid, w) ∷ entries) s = sweep_workers c now entries (
    if ltb (w.seen_at + c.worker_stale) now then record s { workers = remove wid s.workers } else s)

-- One pass of the keeper between its recovery and its flush.
unfoldable pub sweep : Settings → ℕ → Pool → Pool
unfolding sweep_tasks sweep_workers
sweep c now s =
    let s' : Pool = sweep_tasks c now (keys s.tasks) s in sweep_workers c now s'.workers s'

-- The counter of failed flushes.
unfoldable pub count_failure : Bool → ℕ → ℕ
count_failure flushed failures = if flushed then 0 else suc failures
