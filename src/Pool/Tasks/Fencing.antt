-- ===== src/Pool/Tasks/Fencing.antt =====
-- After a task is completed its lease is worth nothing.
use gh_pool.Base.{ℕ, ◌≡◌, refl, true, false, Option, none, some, arith, ◌⊎◌, err, String}
use gh_pool.Base.Dict.{lookup, put}
use gh_pool.Pool.Status.{TaskStatus, running, is_running, is_reportable}
use gh_pool.Pool.State.{Task, Pool}
use gh_pool.Pool.Queue.{http, owned}
use gh_pool.Pool.Tasks.{finish_task, reported}

-- A lease is held by running tasks alone.
abbrev pub LeasedRun : Pool → Type 0
LeasedRun s =
    (j : ℕ) (t : Task)
    → lookup j s.tasks ≡ some t
    → (t.lease_token ≡ none) ⊎ (t.row.status ≡ running)

-- A finished task without a lease refuses every token.
pub owned_finished :
    (tid : ℕ) (token : Option ℕ) (t : Task) (s : Pool)
    → lookup tid s.tasks ≡ some t
    → t.lease_token ≡ none
    → is_running t.row.status ≡ false
    → owned tid token s ≡ (s, err (http 409))
unfolding owned
owned_finished tid token t s e l r = ground arith

pub finish_task-tasks :
    (tid : ℕ) (status : TaskStatus) (error : Option String) (now : ℕ) (t : Task) (s : Pool)
    → (finish_task tid status error now t s).tasks ≡ put tid (reported status error now t) s.tasks
unfolding finish_task
finish_task-tasks tid status error now t s = ground arith

pub reportable_stops : (st : TaskStatus) → is_reportable st ≡ true → is_running st ≡ false
unfolding is_reportable
reportable_stops running r = cc
reportable_stops _ r = refl
