-- ===== src/Tests/Pool.antt =====
-- The properties of the task server at concrete inputs.
use gh_pool.Base.{
  ℕ, suc, ◌≡◌, ◌≤◌, refl, true, false, none, some, [], ◌∷◌, arith, ◌⊎◌, ok, err, length,
}
use gh_pool.Base.Dict.{lookup, put, has, keys, remove}
use gh_pool.Base.Members.{add, member, difference_update, discard}
use gh_pool.Pool.Status.{running, done, pending, is_reportable, is_finished, from_text, text}
use gh_pool.Pool.State.{Row, Task, Pool, Settings, boot, overloaded}
use gh_pool.Pool.Queue.{grab, owned, http}
use gh_pool.Pool.Queue.Grab.{first_pending, Keyed, Granted, grab-first_pending}
use gh_pool.Pool.Tasks.{lease_round, complete, reported}
use gh_pool.Pool.Client.{create_task}
use gh_pool.Pool.Keeper.{sweep, written_off}
use gh_pool.Pool.Keeper.Sweep.{Swept, sweep_lem, sweep_fences}
use gh_pool.Pool.Views.{wanted, list_tasks}
use gh_pool.Pool.Views.Listing.{All, Stems, IsNewestFirst, listed, list_tasks_lem, list_tasks-stale}
use gh_pool.Pool.Store.{Flush, flush_begin, flush_done, save_tasks}
use gh_pool.Pool.World.{
  World, Reach, start, here, next, calls, creates, rounds, sweeps, completes, flushes, lands,
}
use gh_pool.Pool.World.Moves.{onward}
use gh_pool.Pool.World.Safe.{IsKeyed, IsSafe, Reach-IsSafe}
use gh_pool.Pool.World.History.{Step-onward, Step-forgets}

abbrev settings : Settings
settings = record {
  event_cap = 8;
  lost_after = 300;
  worker_stale = 120;
  flush_every = 1;
  flush_backoff_cap = 30;
  max_pending_writes = 50000;
}

-- A task is created and leased.
abbrev created : Pool
created = (create_task settings 1 "python" "{}" none 5 (boot 0 [])).0

abbrev running_pool : Pool
running_pool = (lease_round 7 42 6 0 created).0

abbrev running_world : World
running_world = record { pool = running_pool; saved = []; flight = none }

fresh_task : has 1 (boot 0 []).tasks ≡ false
unfolding boot lookup
fresh_task = refl

running_reached : Reach (start 0 [] []) running_world
running_reached =
    next (next here (calls (creates settings 1 "python" "{}" none 5 fresh_task)))
      (calls (rounds 7 42 6 0))

no_rows : IsKeyed []
unfolding lookup
no_rows k r e = cc

Reach-IsSafe_example : IsSafe running_world
unfolding lookup
Reach-IsSafe_example = Reach-IsSafe 0 [] [] no_rows running_reached

abbrev running_task : Task
running_task = record {
  row = record {
    id = 1;
    type = "python";
    payload = "{}";
    status = running;
    worker_id = some 7;
    error = none;
    parent_id = none;
    created_at = 5;
    started_at = some 6;
    finished_at = none;
    cancel_requested = false;
  };
  lease_token = some 42;
  heartbeat_at = some 6;
}

held : lookup 1 running_pool.tasks ≡ some running_task
unfolding lookup lease_round grab create_task overloaded boot put
held = refl

waiting_task : Keyed created.tasks
unfolding lookup lease_round grab create_task overloaded boot put
waiting_task j t e = ground arith

grab-first_pending_example :
    ((first_pending created.queue created.tasks ≡ none) × ((grab 7 42 6 created).1 ≡ none))
    ⊎ ((tid : ℕ) × (first_pending created.queue created.tasks ≡ some tid)
        × Granted 7 42 6 tid created (grab 7 42 6 created))
grab-first_pending_example = grab-first_pending 7 42 6 created waiting_task

abbrev done_pool : Pool
done_pool = (complete 1 (some 42) "done" none 9 running_pool).0

completed : complete 1 (some 42) "done" none 9 running_pool ≡ (done_pool, ok done)
unfolding lookup complete owned from_text is_reportable is_finished lease_round grab create_task
    overloaded boot put
completed = refl

sweep_lem_example :
    Swept settings 900
      (lookup 1 running_pool.tasks)
      (lookup 1 (sweep settings 900 running_pool).tasks)
sweep_lem_example = sweep_lem settings 900 1 running_pool

sweep_fences_example :
    owned 1 (some 42) (sweep settings 900 running_pool)
    ≡ (sweep settings 900 running_pool, err (http 409))
sweep_fences_example =
    sweep_fences settings 900 1 6 running_task (some 42) running_pool held refl refl (omega arith)

-- The row that the database has of the task before its first flush after the lease.
abbrev stale_row : Row
stale_row = record running_task.row { status = pending; worker_id = none; started_at = none }

is_wanted : wanted (some "pending") stale_row ≡ true
unfolding wanted text
is_wanted = refl

unwanted : wanted (some "pending") running_task.row ≡ false
unfolding wanted text
unwanted = refl

-- The one task has become running when the database answers.
abbrev began : Row → Row
began r = record r { status = running }

list_tasks_lem_example :
    (length (
        listed
          (list_tasks (some "pending") 10 (some (stale_row ∷ [])) began created running_pool).1)
      ≤ 10)
    × IsNewestFirst (
        listed
          (list_tasks (some "pending") 10 (some (stale_row ∷ [])) began created running_pool).1)
    × All (Stems (some "pending") (stale_row ∷ []) began created) (
        listed
          (list_tasks (some "pending") 10 (some (stale_row ∷ [])) began created running_pool).1)
list_tasks_lem_example =
    list_tasks_lem (some "pending") 10 (stale_row ∷ []) began created running_pool (is_wanted, tt)

only_task : running_pool.tasks ≡ (1, running_task) ∷ []
unfolding lookup lease_round grab create_task overloaded boot put
only_task = refl

list_tasks-stale_example :
    listed
      (list_tasks
        (some "pending")
        (suc 9)
        (some (stale_row ∷ []))
        began
        running_pool
        running_pool).1
    ≡ stale_row ∷ []
list_tasks-stale_example =
    list_tasks-stale (some "pending") 9 running_task stale_row began running_pool running_pool
      only_task unwanted

abbrev swept_world : World
swept_world = record running_world { pool = sweep settings 900 running_pool }

swept : lookup 1 swept_world.pool.tasks ≡ some (written_off 900 running_task)
unfolding lookup lease_round grab create_task overloaded boot put sweep keys
swept = refl

Step-onward_example : onward running (written_off 900 running_task).row.status ≡ true
Step-onward_example =
    Step-onward 1 running_task (written_off 900 running_task)
      (Reach-IsSafe 0 [] [] no_rows running_reached) (calls (sweeps settings 900)) held swept

abbrev done_world : World
done_world = record { pool = done_pool; saved = []; flight = none }

abbrev done_flush : Flush
done_flush = record { ids = 1 ∷ []; keys = []; rows = (reported done none 9 running_task).row ∷ [] }

abbrev flying_world : World
flying_world = record { pool = (flush_begin done_pool).0; saved = []; flight = some done_flush }

begun : flush_begin done_pool ≡ ((flush_begin done_pool).0, some done_flush)
unfolding lookup complete owned from_text is_reportable is_finished lease_round grab create_task
    overloaded boot put flush_begin add member reported
begun = refl

flying_world-IsSafe : IsSafe flying_world
unfolding lookup
flying_world-IsSafe = Reach-IsSafe 0 [] [] no_rows (
    next (next running_reached (calls (completes 1 (some 42) "done" none 9)))
      (flushes done_flush refl begun))

flying_held : lookup 1 flying_world.pool.tasks ≡ some (reported done none 9 running_task)
unfolding lookup complete owned from_text is_reportable is_finished lease_round grab create_task
    overloaded boot put flush_begin add member reported
flying_held = refl

forgotten : lookup 1 (flush_done done_flush flying_world.pool).tasks ≡ none
unfolding lookup complete owned from_text is_reportable is_finished lease_round grab create_task
    overloaded boot put flush_begin add member reported flush_done difference_update discard remove
forgotten = refl

Step-forgets_example :
    (is_finished (reported done none 9 running_task).row.status ≡ true)
    × (lookup 1 (save_tasks done_flush.rows []) ≡ some (reported done none 9 running_task).row)
Step-forgets_example =
    Step-forgets 1 (reported done none 9 running_task) flying_world-IsSafe (lands done_flush refl)
      flying_held forgotten
