-- ===== src/Pool/Store.antt =====
-- server/pool/store.py, and `save` and `unfinished` of db/tasks.py. The database's tables are
-- dictionaries from the primary key, and a statement means what its text says: an insert that on
-- conflict updates every other column writes the whole row. flush awaits twice, so it is three
-- parts; what other requests do in between is theirs.
use gh_pool.Base.{
  Bool, Option, ℕ, true, false, none, some, List, [], ◌∷◌, ◌++◌, if◌then◌else◌, ◌&&◌, not,
}
use gh_pool.Base.Dict.{Dict, keys, lookup, put, remove, has}
use gh_pool.Base.Members.{member, update, difference_update}
use gh_pool.Pool.Status.{is_live, is_finished, is_running}
use gh_pool.Pool.State.{Row, Task, Blob, Pool}
use gh_pool.Pool.Queue.{from_row}

pub record Db : Type 0 where
  pub tasks : Dict Row
  pub artifacts : Dict Blob

-- save(db.Task, rows)
unfoldable pub save_tasks : List Row → Dict Row → Dict Row
save_tasks [] d = d
save_tasks (r ∷ rs) d = save_tasks rs (put r.id r d)

-- save(db.Artifact, rows)
unfoldable pub save_blobs : List Blob → Dict Blob → Dict Blob
save_blobs [] d = d
save_blobs (b ∷ bs) d = save_blobs bs (put b.key b d)

-- The ids and keys that a flush took, and the task rows that it sends.
pub record Flush : Type 0 where
  pub ids : List ℕ
  pub keys : List ℕ
  pub rows : List Row

-- The columns of tasks[i], for i in ids if i in tasks
unfoldable pub task_rows : List ℕ → Dict Task → List Row
task_rows [] d = []
task_rows (i ∷ ids) d =
    let rest = task_rows ids d in elim (lookup i d) [ none ↦ rest | some t ↦ t.row ∷ rest ]

unfoldable pub blob_rows : List ℕ → Dict Blob → List Blob
blob_rows [] d = []
blob_rows (k ∷ keys) d =
    let rest = blob_rows keys d in elim (lookup k d) [ none ↦ rest | some b ↦ b ∷ rest ]

unfoldable pub is_empty : List ℕ → Bool
is_empty [] = true
is_empty (_ ∷ _) = false

-- What a flush takes, and the pool that it leaves while it saves.
unfoldable pub taken : Pool → Flush
unfolding task_rows
taken s = record { ids = s.dirty; keys = s.dirty_blobs; rows = task_rows s.dirty s.tasks }

unfoldable pub cleared : Pool → Pool
cleared s = record s {
  dirty = difference_update s.dirty s.dirty;
  dirty_blobs = difference_update s.dirty_blobs s.dirty_blobs;
}

-- flush up to its first await; none if there is nothing to save, and flush returns at once.
unfoldable pub flush_begin : Pool → Pool × Option Flush
unfolding is_empty taken cleared
flush_begin s =
    if is_empty s.dirty && is_empty s.dirty_blobs then (s, none) else (cleared s, some (taken s))

-- flush where a save raised
unfoldable pub flush_failed : Flush → Pool → Pool
flush_failed f s = record s {
  dirty = update f.ids s.dirty;
  dirty_blobs = update f.keys s.dirty_blobs;
  db_ok = false;
}

-- The loops after both saves: forget a finished task and a saved artifact, unless dirty again.
unfoldable pub forget_task : List ℕ → ℕ → Dict Task → Dict Task
forget_task dirty i d = elim (lookup i d) [
  | none ↦ d
  | some t ↦ if not (member i dirty) && is_finished t.row.status then remove i d else d
]

unfoldable pub forget_tasks : List ℕ → List ℕ → Dict Task → Dict Task
unfolding forget_task
forget_tasks dirty [] d = d
forget_tasks dirty (i ∷ ids) d = forget_tasks dirty ids (forget_task dirty i d)

unfoldable pub forget_blobs : List ℕ → List ℕ → Dict Blob → Dict Blob
forget_blobs dirty [] d = d
forget_blobs dirty (k ∷ keys) d = forget_blobs dirty keys (if member k dirty then d else remove k d)

-- flush after both saves
unfoldable pub flush_done : Flush → Pool → Pool
unfolding forget_tasks forget_blobs
flush_done f s = record s {
  tasks = forget_tasks s.dirty f.ids s.tasks;
  blobs = forget_blobs s.dirty_blobs f.keys s.blobs;
  db_ok = true;
}

-- The body of recover's loop: a row that memory has is skipped; a running one waits for its worker
-- under no token, any other one is queued again.
unfoldable pub recover_row : ℕ → Row → Pool → Pool
recover_row now r s =
    if has r.id s.tasks
    then s
    else if is_running r.status
    then record s {
      tasks = put r.id (record { row = r; lease_token = none; heartbeat_at = some now }) s.tasks;
    }
    else record s { tasks = put r.id (from_row r) s.tasks; queue = s.queue ++ r.id ∷ [] }

unfoldable pub recover_rows : ℕ → List Row → Pool → Pool
unfolding recover_row
recover_rows now [] s = s
recover_rows now (r ∷ rs) s = recover_rows now rs (recover_row now r s)

-- recover, on the rows that db.unfinished returned
unfoldable pub recover : ℕ → List Row → Pool → Pool
unfolding recover_rows
recover now rows s =
    let s' : Pool = recover_rows now rows s in
    elim s'.queue [ [] ↦ s' | _ ∷ _ ↦ record s' { arrived = true } ]

unfoldable pub live_rows : List ℕ → Dict Row → List Row
live_rows [] d = []
live_rows (k ∷ ks) d =
    let rest = live_rows ks d in
    elim (lookup k d) [ none ↦ rest | some r ↦ if is_live r.status then r ∷ rest else rest ]

-- unfinished: the rows whose status is live
unfoldable pub unfinished : Dict Row → List Row
unfolding live_rows
unfinished d = live_rows (keys d) d
