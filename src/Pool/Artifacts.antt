-- ===== src/Pool/Artifacts.antt =====
-- server/tasks.py: the artifacts, and the list of workers. The files under blobs_dir are a dictionary
-- from the artifact's key, whose hash names its file; a digest is a number.
pub mod Round
use gh_pool.Base.{
  ℕ, ◌-◌, Bool, true, false, Option, none, some, List, [], ◌∷◌, ◌++◌, if◌then◌else◌, leb, not,
  length, take, flatten, map, Result, ok, err,
}
use gh_pool.Base.Dict.{Dict, lookup, put, remove, values}
use gh_pool.Base.Members.{member, add, discard}
use gh_pool.Pool.State.{Blob, Pool, Worker}
use gh_pool.Pool.Queue.{HttpError, http, from_db}
use gh_pool.Pool.Views.{keep}

-- The server's memory and its files.
pub record Store : Type 0 where
  pub pool : Pool
  pub blob_files : Dict (List ℕ)

-- put_artifact: `sha256` is the digest; none are the chunks where the request or the disk raised, and
-- the part file is removed then.
unfoldable pub put_artifact :
    (List ℕ → ℕ) → ℕ → Option ℕ → ℕ → Option (List (List ℕ)) → Store → Store × Option Blob
put_artifact sha256 key task_id now none w = (w, none)
put_artifact sha256 key task_id now (some chunks) w =
    let bytes = flatten chunks in
    let row : Blob = record {
      key = key;
      size = length bytes;
      sha256 = sha256 bytes;
      task_id = task_id;
      created_at = now;
    } in
    (
      record {
        pool = record w.pool {
          blobs = put key row w.pool.blobs;
          dirty_blobs = add key w.pool.dirty_blobs;
        };
        blob_files = put key bytes w.blob_files;
      },
      some row,
    )

-- sorted(..., key=created_at, reverse=True), which keeps the order of equal keys
unfoldable pub insert_newest : Blob → List Blob → List Blob
insert_newest b [] = b ∷ []
insert_newest b (x ∷ xs) =
    let rest = insert_newest b xs in if leb x.created_at b.created_at then b ∷ x ∷ xs else x ∷ rest

unfoldable pub newest_first : List Blob → List Blob
unfolding insert_newest
newest_first [] = []
newest_first (b ∷ bs) = insert_newest b (newest_first bs)

-- list_artifacts: `has_prefix` is the test of a key, and `answer` what db.artifacts gives.
unfoldable pub list_artifacts : (ℕ → Bool) → ℕ → Option (List Blob) → Pool → Pool × List Blob
unfolding newest_first from_db keep
list_artifacts has_prefix limit answer s =
    let live : List Blob = keep (λ b. has_prefix b.key) (values s.blobs) in
    let (s', rows_from_db) = from_db answer [] s in
    let stored = keep (λ b. not (member b.key (map (λ x. x.key) live))) rows_from_db in
    (s', take limit (newest_first (live ++ stored)))

-- get_artifact
unfoldable pub get_artifact : ℕ → Store → Result HttpError (List ℕ)
get_artifact key w = elim (lookup key w.blob_files) [
  | none ↦ err (http 404)
  | some bytes ↦ ok bytes
]

-- del_artifact, which waits while a flush runs, with no other handler between its stretches. The row
-- of the database is dropped where the database answers, which is the first result.
unfoldable pub del_artifact : ℕ → Bool → Store → Bool × Store
del_artifact key answers w =
    let pool = record w.pool {
      blobs = remove key w.pool.blobs;
      dirty_blobs = discard key w.pool.dirty_blobs;
    } in
    (
      answers,
      record {
        pool = if answers then pool else record pool { db_ok = false };
        blob_files = remove key w.blob_files;
      },
    )

-- One line of the list of workers.
pub record Seen : Type 0 where
  pub id : ℕ
  pub task_id : Option ℕ
  pub idle_for : ℕ
  pub serving_for : ℕ

unfoldable pub insert_seen : ℕ × Worker → List (ℕ × Worker) → List (ℕ × Worker)
insert_seen w [] = w ∷ []
insert_seen w (x ∷ xs) =
    let rest = insert_seen w xs in if leb x.1.seen_at w.1.seen_at then w ∷ x ∷ xs else x ∷ rest

unfoldable pub by_seen : List (ℕ × Worker) → List (ℕ × Worker)
unfolding insert_seen
by_seen [] = []
by_seen (w ∷ ws) = insert_seen w (by_seen ws)

-- workers
unfoldable pub workers_seen : ℕ → Pool → List Seen
unfolding by_seen
workers_seen now s =
    map
      (λ (w : ℕ × Worker). record {
        id = w.0;
        task_id = w.1.task_id;
        idle_for = now - w.1.seen_at;
        serving_for = now - w.1.first_seen;
      })
      (by_seen s.workers)
