-- ===== src/Pool/State.antt =====
-- server/pool/state.py, server/pool/paths.py, and the columns of db/tasks.py. Ids, worker ids, lease
-- tokens and keys are numbers, since the code only compares them (0 is the empty string); times are
-- numbers on one scale; an artifact's bytes and digest stay outside.
use gh_pool.Base.{ℕ, ◌+◌, Bool, false, Option, none, some, List, [], String, length, leb}
use gh_pool.Base.Dict.{Dict, lookup}
use gh_pool.Pool.Status.{TaskStatus}

-- The columns of db.Task: what the database keeps of a task.
pub record Row : Type 0 where
  pub id : ℕ
  pub type : String
  pub payload : String
  pub status : TaskStatus
  pub worker_id : Option ℕ
  pub error : Option String
  pub parent_id : Option ℕ
  pub created_at : ℕ
  pub started_at : Option ℕ
  pub finished_at : Option ℕ
  pub cancel_requested : Bool

-- A task's dictionary in memory: the columns, and two keys that are never saved.
pub record Task : Type 0 where
  pub row : Row
  pub lease_token : Option ℕ
  pub heartbeat_at : Option ℕ

pub record Worker : Type 0 where
  pub first_seen : ℕ
  pub seen_at : ℕ
  pub task_id : Option ℕ

-- db.Artifact
pub record Blob : Type 0 where
  pub key : ℕ
  pub size : ℕ
  pub sha256 : ℕ
  pub task_id : Option ℕ
  pub created_at : ℕ

-- The two bearer tokens of the settings.
pub record Tokens : Type 0 where
  pub worker_token : String
  pub client_token : String

pub record Settings : Type 0 where
  pub event_cap : ℕ
  pub lost_after : ℕ
  pub worker_stale : ℕ
  pub flush_every : ℕ
  pub flush_backoff_cap : ℕ
  pub max_pending_writes : ℕ

-- `files` is the content of each task's events.txt under data_dir.
pub record Pool : Type 0 where
  pub tasks : Dict Task
  pub queue : List ℕ
  pub workers : Dict Worker
  pub blobs : Dict Blob
  pub dirty : List ℕ
  pub dirty_blobs : List ℕ
  pub arrived : Bool
  pub event_locks : List ℕ
  pub db_ok : Bool
  pub started_at : ℕ
  pub files : Dict (List ℕ)

-- boot, reset: a new process; the files of an earlier one stay.
unfoldable pub boot : ℕ → Dict (List ℕ) → Pool
boot now files = record {
  tasks = [];
  queue = [];
  workers = [];
  blobs = [];
  dirty = [];
  dirty_blobs = [];
  arrived = false;
  event_locks = [];
  db_ok = false;
  started_at = now;
  files = files;
}

-- Pool.pending
unfoldable pub pending_writes : Pool → ℕ
pending_writes s = length s.dirty + length s.dirty_blobs

-- Pool.overloaded
unfoldable pub overloaded : Settings → Pool → Bool
unfolding pending_writes
overloaded c s = leb c.max_pending_writes (pending_writes s)

-- The content of events.txt, empty if the file is not there.
unfoldable pub events_of : ℕ → Pool → List ℕ
events_of tid s = elim (lookup tid s.files) [ none ↦ [] | some bytes ↦ bytes ]

-- paths.events_size
unfoldable pub events_size : ℕ → Pool → ℕ
unfolding events_of
events_size tid s = length (events_of tid s)
