-- ===== src/Pool/Views.antt =====
-- What the clients read: list_tasks, task_status and read_events of server/tasks.py, and
-- server/pool/health.py.
pub mod Listing
use gh_pool.Base.{
  ℕ, ◌+◌, Bool, true, Option, none, some, List, [], ◌∷◌, ◌++◌, map, Result, ok, err, String, str_eq,
  ltb, leb, if◌then◌else◌, length, take, drop, ◌||◌, not,
}
use gh_pool.Base.Dict.{values}
use gh_pool.Base.Members.{member}
use gh_pool.Pool.Status.{TaskStatus, text}
use gh_pool.Pool.State.{Row, Task, Pool, events_of, events_size}
use gh_pool.Pool.Queue.{HttpError, find, from_db}

-- TaskView: the columns, and the size of the event file.
pub record TaskView : Type 0 where
  pub row : Row
  pub event_size : ℕ

-- public
unfoldable pub public : Pool → Row → TaskView
public s r = record { row = r; event_size = events_size r.id s }

unfoldable pub keep {ℓ} : {A : Type ℓ} → (A → Bool) → List A → List A
keep p [] = []
keep p (x ∷ xs) = let rest = keep p xs in if p x then x ∷ rest else rest

-- The test of list_tasks: no status, an empty one, or the task's.
unfoldable pub wanted : Option String → Row → Bool
wanted none r = true
wanted (some status) r = str_eq status "" || str_eq (text r.status) status

-- sorted(..., key=created_at, reverse=True), which keeps the order of equal keys
unfoldable pub insert_newest : Row → List Row → List Row
insert_newest r [] = r ∷ []
insert_newest r (x ∷ xs) =
    if leb x.created_at r.created_at then r ∷ x ∷ xs else x ∷ insert_newest r xs

unfoldable pub newest_first : List Row → List Row
unfolding insert_newest
newest_first [] = []
newest_first (r ∷ rs) = insert_newest r (newest_first rs)

unfoldable pub rows_of : Pool → List Row
rows_of s = map (λ t. t.row) (values s.tasks)

-- The rows of list_tasks before they are cut: those of the tasks in memory that were wanted, as they
-- are once the database has answered, then those of the database whose id is not among them.
unfoldable pub merged : (Row → Row) → List Row → List Row → List Row
unfolding keep
merged later live rows_from_db =
    map later live ++ keep (λ r. not (member r.id (map (λ x. x.id) live))) rows_from_db

-- list_tasks: it filters the tasks of the pool `before`, and waits for the database, which answers
-- with `answer`, none if it raised; by then the pool is `s`, and what was read of a task has become
-- `later`, since a task is one mutable dictionary.
unfoldable pub list_tasks :
    Option String → ℕ → Option (List Row) → (Row → Row) → Pool → Pool → Pool × List TaskView
unfolding merged newest_first public rows_of from_db keep wanted
list_tasks status limit answer later before s =
    let live = keep (wanted status) (rows_of before) in
    let (s', rows_from_db) = from_db answer [] s in
    (s', map (public s') (take limit (newest_first (merged later live rows_from_db))))

pub record Chunk : Type 0 where
  pub content : List ℕ
  pub event_offset : ℕ
  pub task_status : TaskStatus
  pub event_size : ℕ

-- read_events from the line after its call of find: the size is of the pool `s`, and if it is past the
-- offset, the file is read when the pool is `mid`, and the task has the status `later` when the answer
-- is made.
unfoldable pub read_found : ℕ → ℕ → Task → Pool → TaskStatus → Pool → Chunk
read_found tid offset t mid later s =
    let size : ℕ = events_size tid s in
    let content : List ℕ = if ltb offset size then drop offset (events_of tid mid) else [] in
    record {
      content = content;
      event_offset = offset + length content;
      task_status = if ltb offset size then later else t.row.status;
      event_size = size;
    }

unfoldable pub read_after :
    ℕ → ℕ → Pool → TaskStatus → Pool × Result HttpError Task → Pool × Result HttpError Chunk
unfolding read_found
read_after tid offset mid later (s, err e) = (s, err e)
read_after tid offset mid later (s, ok t) = (s, ok (read_found tid offset t mid later s))

unfoldable pub read_events :
    ℕ → Option (Option Row) → ℕ → Pool → TaskStatus → Pool → Pool × Result HttpError Chunk
unfolding read_after
read_events tid answer offset mid later s = read_after tid offset mid later (find tid answer s)
