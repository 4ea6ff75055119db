-- ===== src/Tests/Client.antt =====
-- The properties of clients at concrete inputs.
use gh_pool.Base.{
  ℕ, zero, suc, ◌≡◌, ◌⊎◌, refl, take, true, false, List, [], ◌∷◌, none, some, arith, inl, inr, ok,
  length,
}
use gh_pool.Base.Dict.{lookup}
use gh_pool.Pool.Status.{TaskStatus, running, done, is_finished}
use gh_pool.Pool.State.{Task, Pool, boot, events_of, events_size}
use gh_pool.Pool.Queue.{find}
use gh_pool.Client.Follow.{Polled, follow}
use gh_pool.Client.Follow.Whole.{IsTold, Told, follow-Told}

abbrev task_of : TaskStatus → Task
task_of status = record {
  row = record {
    id = 1;
    type = "python";
    payload = "{}";
    status = status;
    worker_id = some 7;
    error = none;
    parent_id = none;
    created_at = 5;
    started_at = some 6;
    finished_at = none;
    cancel_requested = false;
  };
  lease_token = none;
  heartbeat_at = none;
}

abbrev pool_of : TaskStatus → List ℕ → Pool
pool_of status bytes = record (boot 0 ((1, bytes) ∷ [])) { tasks = (1, task_of status) ∷ [] }

-- The task runs at the first poll and is done at the others, with a byte more.
abbrev pools : ℕ → Pool
pools zero = pool_of running (7 ∷ 8 ∷ [])
pools (suc k) = pool_of done (7 ∷ 8 ∷ 9 ∷ [])

abbrev tasks : ℕ → Task
tasks zero = task_of running
tasks (suc k) = task_of done

-- The file is read at once.
abbrev polled : Polled
polled = record {
  answers = λ k. none;
  pools = pools;
  mids = pools;
  laters = λ k. (tasks k).row.status;
}

found : (k : ℕ) → find 1 none (pools k) ≡ (pools k, ok (tasks k))
unfolding find lookup
found zero = refl
found (suc k) = refl

beginning : (k : ℕ) → events_of 1 (pools k) ≡ take (events_size 1 (pools k)) (7 ∷ 8 ∷ 9 ∷ [])
unfolding lookup events_of events_size boot
beginning zero = refl
beginning (suc k) = refl

complete_then :
    (k : ℕ)
    → (is_finished (tasks k).row.status ≡ false)
      ⊎ (events_size 1 (pools k) ≡ length {A = ℕ} (7 ∷ 8 ∷ 9 ∷ []))
unfolding lookup events_of events_size boot is_finished
complete_then zero = inl refl
complete_then (suc k) = inr refl

settled :
    (k : ℕ) → (is_finished (tasks k).row.status ≡ false) ⊎ (is_finished (tasks k).row.status ≡ true)
unfolding is_finished
settled zero = inl refl
settled (suc k) = inr refl

output-IsTold : IsTold 1 (7 ∷ 8 ∷ 9 ∷ []) polled tasks
output-IsTold = record {
  there = found;
  begun = beginning;
  grown = λ k. omega arith;
  ended = complete_then;
  stays = settled;
}

done_at_last : is_finished (tasks 1).row.status ≡ true
unfolding is_finished
done_at_last = refl

follow-Told_example : Told 1 (7 ∷ 8 ∷ 9 ∷ []) polled 1 (follow 2 1 polled 1)
follow-Told_example = follow-Told 1 (7 ∷ 8 ∷ 9 ∷ []) polled tasks output-IsTold 1 1 done_at_last
