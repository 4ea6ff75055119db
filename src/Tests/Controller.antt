-- ===== src/Tests/Controller.antt =====
-- The properties of a controller and of its calls at concrete inputs.
use gh_pool.Base.{
  ℕ, ◌≡◌, ◌<◌, ◌⊎◌, List, [], ◌∷◌, none, some, true, false, refl, arith, if◌then◌else◌, ltb, ok,
  err,
}
use gh_pool.Base.Dict.{lookup, remove, keys}
use gh_pool.Pool.Status.{running, pending}
use gh_pool.Fleet.Budget.{Headers}
use gh_pool.Fleet.Http.{
  Attempt, fetch, guard, replied, refused, broken, rate_limited, gave_up, is_retry_status,
}
use gh_pool.Fleet.Http.Retries.{Trace, fetch-Trace}
use gh_pool.Fleet.Controller.{Session, Turn, Loop, Stand, turns}
use gh_pool.Fleet.Controller.Failures.{marks, Explains, turns-Explains}
use gh_pool.Fleet.Slots.{Slot, cancelled, cancel_all, spare}
use gh_pool.Fleet.Slots.Sizes.{Distinct}
use gh_pool.Base.Members.{member}
use gh_pool.Fleet.Messages.{Stats, Queue}
use gh_pool.Fleet.Teardown.{Poll, drain, Leave, Left, cleanup, is_busy}
use gh_pool.Fleet.Teardown.Leaving.{lets_go, Removed, Forgets, cleanup-leaves}

abbrev headers : Headers
headers = record { retry_after = none; remaining = none; reset = none }

-- The first request meets a 503, the second no answer, the third a reply.
abbrev net : ℕ → Attempt
net n = record {
  answer =
      if ltb n 1
      then refused 503 headers false
      else if ltb n 2
      then broken
      else replied 200 headers;
  now = n;
  wall = n;
  stopping = false;
}

fetch-Trace_example :
    ((0 < guard 0 none)
      × ((fetch net 0 5 none).made ≡ 0)
      × ((fetch net 0 5 none).result ≡ err (rate_limited (guard 0 none))))
    ⊎ ((guard 0 none ≡ 0) × Trace false net 0 5 1 (fetch net 0 5 none))
fetch-Trace_example = fetch-Trace net 0 4 1 none

fetched : (fetch net 0 5 none).result ≡ ok 200
unfolding fetch guard is_retry_status
fetched = refl

abbrev session : Session
session = record { id = 1; token_exp = 1000 }

-- A turn whose tick fails.
abbrev failing : Turn
failing = record {
  stop = false;
  now = 0;
  early = err gave_up;
  tick = λ s n. err gave_up;
  refreshed = none;
  reopened = none;
}

abbrev loop : Loop
loop = record { session = session; last_id = 3; failures = 0 }

abbrev failing_turns : List Turn
failing_turns = failing ∷ failing ∷ failing ∷ failing ∷ failing ∷ failing ∷ []

turns-Explains_example : Explains 0 (marks failing_turns loop) (turns failing_turns loop)
turns-Explains_example = turns-Explains failing_turns loop (omega arith)

turns_fail : turns failing_turns loop ≡ Stand.raised gave_up
unfolding turns
turns_fail = refl

-- One slot waits and one runs; a job is running when the deadline comes.
abbrev waits : Slot
waits = record {
  task_id = 1;
  name = 1;
  runner_id = 9;
  born_at = 0;
  since = 0;
  status = pending;
  spent = false;
}

abbrev runs : Slot
runs = record waits { task_id = 2; name = 2; status = running }

abbrev one_runs : Stats
one_runs = record { available = 0; assigned = 1; running = 1 }

abbrev queue : Queue
queue = record { slots = (1, waits) ∷ (2, runs) ∷ []; latest = one_runs; acked = [] }

abbrev polls : ℕ → Poll
polls n = record { forced = false; stats = some one_runs; now = if ltb n 1 then 5 else 70 }

abbrev last : Leave
last = record {
  forced = false;
  answer = λ n. cancelled;
  drops = true;
  rest_shut = 0;
  runners = some (7 ∷ []);
  deletes = λ r. true;
}

queue-Distinct : Distinct queue.slots
unfolding member keys
queue-Distinct = (refl, (refl, tt))

cleanup-leaves_example :
    (stats : Stats) × (left : Left) × ((drain 2 polls 60 0 queue).1 ≡ some stats)
    × ((cleanup 2 polls 60 0 last queue).1 ≡ some left)
    × Removed (is_busy last stats) last left
    × (lookup 2 (cleanup 2 polls 60 0 last queue).0.slots ≡ (
        if lets_go (is_busy last stats) last 2 (lookup 2 queue.slots)
        then none
        else lookup 2 queue.slots))
    × Forgets (is_busy last stats) last 2 queue.slots (cleanup 2 polls 60 0 last queue).0.slots left
cleanup-leaves_example =
    cleanup-leaves 1 polls 60 0 2 last queue (refl, (refl, tt)) queue-Distinct (omega arith)

cleaned : lookup 1 (cleanup 2 polls 60 0 last queue).0.slots ≡ none
unfolding cleanup drain lookup remove cancel_all spare
cleaned = refl
