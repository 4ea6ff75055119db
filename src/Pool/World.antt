-- ===== src/Pool/World.antt =====
-- The server with its database, one step for each stretch of a handler or of the keeper between
-- two awaits. `flight` is the flush that is under way; the flush lock allows one. A step may carry
-- any answer of the database, since other requests run while it is read.
pub mod Pointwise
pub mod Workers
pub mod Clients
pub mod Keeping
pub mod Flushing
pub mod Safe
pub mod Moves
pub mod Kept
pub mod History
use gh_pool.Base.{ℕ, ◌≡◌, Bool, true, false, Option, none, some, List, [], String, refl, ok}
use gh_pool.Base.Dict.{Dict, lookup, has}
use gh_pool.Pool.Status.{TaskStatus, from_text}
use gh_pool.Pool.State.{Row, Task, Pool, Settings, boot}
use gh_pool.Pool.Queue.{from_row, owned}
use gh_pool.Pool.Tasks.{
  lease_start, lease_round, lease_wake, heartbeat, append_locked, append_events, complete_owned,
  complete,
}
use gh_pool.Pool.Client.{enqueue, create_task, cancel_found, retried}
use gh_pool.Pool.Store.{
  Db, Flush, save_tasks, flush_begin, flush_failed, flush_done, recover, unfinished,
}
use gh_pool.Pool.Keeper.{sweep}

pub record World : Type 0 where
  pub pool : Pool
  pub saved : Dict Row
  pub flight : Option Flush

-- What the database will hold of the tasks once the flush under way has saved its rows.
abbrev pub settled : World → Dict Row
settled w = elim w.flight [ none ↦ w.saved | some f ↦ save_tasks f.rows w.saved ]

-- A new process over the database of an earlier one.
abbrev pub start : ℕ → Dict (List ℕ) → Dict Row → World
start now files saved = record { pool = boot now files; saved = saved; flight = none }

-- A call that leaves the database alone.
pub data Call : Pool → Pool → Type 0 where
  leases : {s : Pool} (w : Option ℕ) (now : ℕ) → Call s (lease_start w now s).0
  rounds : {s : Pool} (w token now left : ℕ) → Call s (lease_round w token now left s).0
  wakes : {s : Pool} → Call s (lease_wake s)
  beats : {s : Pool} (tid : ℕ) (token : Option ℕ) (now : ℕ) → Call s (heartbeat tid token now s).0
  appends :
      {s : Pool} (c : Settings) (tid : ℕ) (token : Option ℕ) (offset : ℕ) (body : List ℕ)
      → Call s (append_events c tid token offset body s).0
  completes :
      {s : Pool} (tid : ℕ) (token : Option ℕ) (status : String) (error : Option String) (now : ℕ)
      → Call s (complete tid token status error now s).0
  -- what append_events and complete do before they wait for the lock and for the body, and then
  owns : {s : Pool} (tid : ℕ) (token : Option ℕ) → Call s (owned tid token s).0
  completes_late :
      {s : Pool} (tid : ℕ) (t : Task) (status : String) (error : Option String) (now : ℕ)
      → lookup tid s.tasks ≡ some t
      → Call s (complete_owned tid (from_text status) error now (s, ok t)).0
  appends_late :
      {s : Pool} (c : Settings) (tid offset : ℕ) (body : List ℕ)
      → Call s (append_locked c tid offset body s).0
  creates :
      {s : Pool} (c : Settings) (tid : ℕ) (type payload : String) (parent : Option ℕ) (now : ℕ)
      → has tid s.tasks ≡ false
      → Call s (create_task c tid type payload parent now s).0
  cancels :
      {s : Pool} (tid now : ℕ) (t : Task)
      → lookup tid s.tasks ≡ some t
      → Call s (cancel_found tid false now t s).0
  -- the task was read from the database, at any time before
  cancels_read :
      {s : Pool} (tid now : ℕ) (r : Row)
      → r.id ≡ tid
      → Call s (cancel_found tid true now (from_row r) s).0
  retries :
      {s : Pool} (tid nid now : ℕ) (r : Row)
      → has nid s.tasks ≡ false
      → Call s (enqueue nid (retried tid nid now r) s)
  read_fails : {s : Pool} → Call s (record s { db_ok = false })
  sweeps : {s : Pool} (c : Settings) (now : ℕ) → Call s (sweep c now s)

pub data Step : World → World → Type 0 where
  calls : {w : World} {s : Pool} → Call w.pool s → Step w (record w { pool = s })
  recovers :
      {w : World} (now : ℕ)
      → w.flight ≡ none
      → Step w (record w { pool = recover now (unfinished w.saved) w.pool })
  -- the keeper's flush takes what is dirty
  flushes :
      {w : World} {s : Pool} (f : Flush)
      → w.flight ≡ none
      → flush_begin w.pool ≡ (s, some f)
      → Step w (record w { pool = s; flight = some f })
  -- a save raised, before or after the rows of the tasks were written
  fails :
      {w : World} (f : Flush) (written : Bool)
      → w.flight ≡ some f
      → Step w (record {
        pool = flush_failed f w.pool;
        saved = elim written [ true ↦ save_tasks f.rows w.saved | false ↦ w.saved ];
        flight = none;
      })
  lands :
      {w : World} (f : Flush)
      → w.flight ≡ some f
      → Step w
          (record { pool = flush_done f w.pool; saved = save_tasks f.rows w.saved; flight = none })

pub data Reach (v : World) : World → Type 0 where
  here : Reach v v
  next : {w x : World} → Reach v w → Step w x → Reach v x
