-- ===== src/Client/Follow.antt =====
-- Task.follow and Task.wait of client/task.py: a task's output, and its end, as a client polls for
-- them. `ask` and `status` are what the server answers to the poll of a number; the sleeps between the
-- polls are left out, and `fuel` bounds their number.
pub mod Whole
use gh_pool.Base.{
  ℕ, zero, suc, ◌+◌, Bool, true, false, Option, none, some, List, [], ◌∷◌, if◌then◌else◌, leb,
  length, ◌&&◌, Result, ok, err,
}
use gh_pool.Pool.Status.{TaskStatus, is_finished, done}
use gh_pool.Pool.State.{Row, Pool}
use gh_pool.Pool.Queue.{HttpError}
use gh_pool.Pool.Views.{Chunk, read_events}

-- How a loop of polls ends: as it is meant to, by an answer that is an error, or not yet.
pub data End : Type 0 where
  finished unfinished : End
  failed : HttpError → End

-- if r.content: yield r.content
unfoldable pub yielded : List ℕ → List (List ℕ) → List (List ℕ)
yielded [] rest = rest
yielded (b ∷ bytes) rest = (b ∷ bytes) ∷ rest

-- The loop of follow, from poll `k` on.
unfoldable pub follow_from : ℕ → (ℕ → ℕ → Result HttpError Chunk) → ℕ → ℕ → List (List ℕ) × End
unfolding yielded
follow_from zero ask k offset = ([], unfinished)
follow_from (suc fuel) ask k offset = elim (ask k offset) [
  | err e ↦ ([], failed e)
  | ok c ↦
      let rest = follow_from fuel ask (suc k) c.event_offset in
      let (chunks, end) =
        if is_finished c.task_status && leb c.event_size c.event_offset
        then ([], finished)
        else rest in
      (yielded c.content chunks, end)
]

-- A server at the polls of a client: what its database answers, the states in which it finds the task
-- and in which it then reads the file, and the task's status when it answers.
pub record Polled : Type 0 where
  pub answers : ℕ → Option (Option Row)
  pub pools : ℕ → Pool
  pub mids : ℕ → Pool
  pub laters : ℕ → TaskStatus

unfoldable pub asked_of : ℕ → Polled → ℕ → ℕ → Result HttpError Chunk
unfolding read_events
asked_of tid w k offset =
    (read_events tid (w.answers k) offset (w.mids k) (w.laters k) (w.pools k)).1

-- follow
unfoldable pub follow : ℕ → ℕ → Polled → ℕ → List (List ℕ) × End
unfolding follow_from asked_of
follow fuel tid w offset = follow_from fuel (asked_of tid w) 0 offset

-- The loop of wait, from poll `k` on: the state that ends it, none if there is none in `fuel` polls.
unfoldable pub wait_from :
    ℕ → (ℕ → Result HttpError TaskStatus) → ℕ → Option (Result HttpError TaskStatus)
wait_from zero status k = none
wait_from (suc fuel) status k =
    let rest = wait_from fuel status (suc k) in
    elim (status k) [ err e ↦ some (err e) | ok s ↦ if is_finished s then some (ok s) else rest ]

-- check, once wait has come to an end: true where the task is done, false where it raises Failed.
unfoldable pub check : TaskStatus → Bool
check done = true
check _ = false
