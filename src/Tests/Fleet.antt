-- ===== src/Tests/Fleet.antt =====
-- The properties of the fleet at concrete inputs.
use gh_pool.Base.{
  max, ◌⊎◌, ℕ, ◌+◌, ◌≡◌, ◌≤◌, refl, true, false, Option, none, some, [], ◌∷◌, length, min, inl,
}
use gh_pool.Base.Dict.{keys, lookup}
use gh_pool.Base.Members.{member}
use gh_pool.Pool.Status.{pending, done, is_live}
use gh_pool.Fleet.Runs.{Run, Repo, reconcile, those, sort_of, is_started, is_pending}
use gh_pool.Fleet.Runs.Bounds.{Fits, Retires, reconcile-bounds}
use gh_pool.Fleet.Slots.{Slot, Scale, Attempt, sent, cancelled, trouble, scale, size, slots}
use gh_pool.Fleet.Slots.Scaling.{Between, scale-Between}
use gh_pool.Fleet.Messages.{Queue, Message, Tick, message, nothing, taken, tick, ticks, ack}
use gh_pool.Fleet.Messages.Repeats.{tick-repeated}
use gh_pool.Fleet.Duty.{Duty, status_is, is_gone, reconcile as check_slots}
use gh_pool.Fleet.Duty.Gone.{Listed, reconcile-drops}
use gh_pool.Fleet.Budget.{Budget, Headers, refuse, shut, asked_wait, rate_window}
use gh_pool.Fleet.Budget.Closing.{refuse-shut}

abbrev serving : Run
serving = record { id = 1; in_progress = true; age = 100 }

abbrev queued : Run
queued = record { id = 2; in_progress = false; age = 50 }

abbrev repo : Repo
repo = record { jobs = 1; ttl = 21600; recent = []; stopping = [] }

reconcile-bounds_example :
    Retires
      (serving ∷ queued ∷ [])
      (reconcile (λ i. true) (λ i. true) 1000 none (serving ∷ queued ∷ []) repo)
    × Fits 1
        (length (those (λ r. is_started (sort_of 21600 none r)) (serving ∷ queued ∷ []))
          + length (those (λ r. is_pending (sort_of 21600 none r)) (serving ∷ queued ∷ [])))
        1000
        (reconcile (λ i. true) (λ i. true) 1000 none (serving ∷ queued ∷ []) repo)
reconcile-bounds_example =
    reconcile-bounds (λ i. true) (λ i. true) 1000 none (serving ∷ queued ∷ []) repo

-- Every launch goes out, under the ids 10, 11, …
abbrev launches : ℕ → Option Attempt
launches n = some (sent (10 + n) n 1)

abbrev wish : Scale
wish = record {
  closing = false;
  jobs = 4;
  assigned = 3;
  shrinks = true;
  versioned = true;
  now = 60;
  attempts = launches;
  answer = λ i. cancelled;
}

abbrev lone_slot : Slot
lone_slot = record {
  task_id = 5;
  name = 5;
  runner_id = 0;
  born_at = 1;
  since = 1;
  status = pending;
  spent = false;
}

scale-Between_example :
    Between (min 4 3) (size ((5, lone_slot) ∷ [])) (size (scale wish ((5, lone_slot) ∷ [])))
unfolding member keys
scale-Between_example = scale-Between wish ((5, lone_slot) ∷ []) (refl, tt)

abbrev job_message : Message
job_message = record { id = 9; is_jobs = true; stats = none; offered = 3 ∷ []; retired = [] }

abbrev first_tick : Tick
first_tick = record {
  poll = message job_message;
  stopping = false;
  target = wish;
  ask = λ ids. taken 1;
  waiting = [];
}

abbrev quiet_tick : Tick
quiet_tick = record first_tick { poll = nothing }

abbrev empty_queue : Queue
empty_queue = record {
  slots = [];
  latest = record { available = 0; assigned = 0; running = 0 };
  acked = [];
}

abbrev handled_queue : Queue
handled_queue = (tick first_tick 0 empty_queue).0

first_id : (tick first_tick 0 empty_queue).1 ≡ some 9
unfolding tick
first_id = refl

later_id : (ticks (quiet_tick ∷ []) 9 handled_queue).1 ≡ some 9
unfolding ticks tick
later_id = refl

tick-repeated_example :
    tick first_tick 9 (ticks (quiet_tick ∷ []) 9 handled_queue).0
    ≡ (ack job_message (ticks (quiet_tick ∷ []) 9 handled_queue).0, some 9)
tick-repeated_example =
    tick-repeated first_tick first_tick (quiet_tick ∷ []) job_message 0 9 9 empty_queue refl refl
      refl first_id later_id refl refl

abbrev duty : Duty
duty = record {
  now = 100;
  lifetime = 3600;
  worker_stale = 120;
  taken = [];
  state = λ i. status_is done;
  answer = λ i. trouble;
}

lone_slot-Listed : Listed 5 (slots ((5, lone_slot) ∷ []))
unfolding slots
lone_slot-Listed = inl refl

reconcile-drops_example : lookup 5 (check_slots duty ((5, lone_slot) ∷ [])) ≡ none
unfolding is_gone is_live
reconcile-drops_example = reconcile-drops duty 5 ((5, lone_slot) ∷ []) lone_slot-Listed refl

abbrev open_budget : Budget
open_budget = record { left = some 7; reset_at = 0; closed_until = 0 }

abbrev refusal : Headers
refusal = record { retry_after = some 20; remaining = none; reset = none }

refuse-shut_example :
    (shut 50 open_budget ≤ shut 50 (refuse 50 5 true refusal false open_budget).0)
    × ((((true ≡ false) ⊎ (asked_wait 5 refusal false ≡ none))
          × (refuse 50 5 true refusal false open_budget ≡ (open_budget, 0)))
        ⊎ ((true ≡ true)
            × ((wait : ℕ) × (asked_wait 5 refusal false ≡ some wait))
            × ((refuse 50 5 true refusal false open_budget).1
                ≡ shut 50 (refuse 50 5 true refusal false open_budget).0)
            × (1 ≤ shut 50 (refuse 50 5 true refusal false open_budget).0)
            × (shut 50 (refuse 50 5 true refusal false open_budget).0
                ≤ max (shut 50 open_budget) rate_window)))
refuse-shut_example = refuse-shut 50 5 true refusal false open_budget
