-- ===== src/Tests/Worker.antt =====
-- The properties of the worker at concrete inputs.
use gh_pool.Base.{◌≡◌, ◌⊎◌, suc, refl, [], ◌∷◌, arith, some, none, true, false, err, inl}
use gh_pool.Base.Dict.{lookup, put}
use gh_pool.Pool.State.{Task, Pool, overloaded, Settings, boot, events_of}
use gh_pool.Worker.Spool.{Spool, spool_at, write, send}
use gh_pool.Worker.Spool.Exact.{IsExact, send-IsExact, write-IsExact}
use gh_pool.Pool.Status.{running, lost}
use gh_pool.Pool.Queue.{http, owned, grab}
use gh_pool.Pool.Tasks.{lease_round}
use gh_pool.Pool.Client.{create_task}
use gh_pool.Worker.Serve.{Exit, Flags, outcome, serve_end}
use gh_pool.Worker.Serve.Reports.{IsHeld, Recorded, serve_end-Recorded}

abbrev limits : Settings
limits = record {
  event_cap = 8;
  lost_after = 300;
  worker_stale = 120;
  flush_every = 1;
  flush_backoff_cap = 30;
  max_pending_writes = 50000;
}

-- The server has two bytes of an earlier run.
abbrev server : Pool
server = boot 0 ((1, 60 ∷ 61 ∷ []) ∷ [])

abbrev fresh_spool : Spool
fresh_spool = spool_at 2

fresh_spool-IsExact : IsExact (60 ∷ 61 ∷ []) 1 fresh_spool server
unfolding spool_at events_of lookup boot
fresh_spool-IsExact = record { started = refl; counted = refl; file = refl; reached = refl }

abbrev written_spool : Spool
written_spool = write 100 (λ n. []) (10 ∷ 11 ∷ 12 ∷ []) fresh_spool

written_spool-IsExact : IsExact (60 ∷ 61 ∷ []) 1 written_spool server
written_spool-IsExact =
    write-IsExact 100 (λ n. []) (60 ∷ 61 ∷ []) (10 ∷ 11 ∷ 12 ∷ []) 1 fresh_spool server
      fresh_spool-IsExact

write-IsExact_example : IsExact (60 ∷ 61 ∷ []) 1 written_spool server
write-IsExact_example =
    write-IsExact 100 (λ n. []) (60 ∷ 61 ∷ []) (10 ∷ 11 ∷ 12 ∷ []) 1 fresh_spool server
      fresh_spool-IsExact

-- The chunk is two bytes, and the request is taken twice.
send-IsExact_example :
    IsExact
      (60 ∷ 61 ∷ [])
      1
      (send limits 1 (suc 1) 1 written_spool server).0
      (send limits 1 (suc 1) 1 written_spool server).1
unfolding spool_at write
send-IsExact_example =
    send-IsExact limits (60 ∷ 61 ∷ []) 1 1 1 written_spool server written_spool-IsExact
      (omega arith)

-- A running task that worker 7 holds with the token 42, and one that ends by itself with 0.
abbrev held_pool : Pool
held_pool = (lease_round 7 42 6 0 (create_task limits 1 "python" "{}" none 5 (boot 0 [])).0).0

abbrev held_task : Task
held_task = record {
  row = record {
    id = 1;
    type = "python";
    payload = "{}";
    status = running;
    worker_id = some 7;
    error = none;
    parent_id = none;
    created_at = 5;
    started_at = some 6;
    finished_at = none;
    cancel_requested = false;
  };
  lease_token = some 42;
  heartbeat_at = some 6;
}

held : IsHeld 1 42 held_task held_pool
unfolding lookup put lease_round create_task boot grab overloaded
held = record { there = refl; mine = refl; runs = refl; real = refl }

abbrev well : Exit
well = record { killed = false; code = none }

abbrev calm : Flags
calm = record { cancel = false; stale = false }

serve_end-Recorded_example :
    ((serve_end 1 42 well calm (9 ∷ 11 ∷ []) held_pool ≡ (held_pool, lost)) × (false ≡ true))
    ⊎ ((false ≡ false)
        × Recorded 1 9 held_task held_pool
            (outcome well calm).1
            (serve_end 1 42 well calm (9 ∷ 11 ∷ []) held_pool)
            (serve_end 1 42 well calm (9 ∷ 11 ∷ []) held_pool).0.tasks)
    ⊎ ((false ≡ false)
        × (owned 1 (some 42) held_pool ≡ (held_pool, err (http 409)))
        × ((serve_end 1 42 well calm (9 ∷ 11 ∷ []) held_pool).0 ≡ held_pool))
serve_end-Recorded_example =
    serve_end-Recorded 1 42 well calm 9 (11 ∷ []) held_task held_pool (inl held)
