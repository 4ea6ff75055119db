-- ===== src/Pool/World/Kept.antt =====
-- Each operation of the pool keeps its tasks and moves none back.
use gh_pool.Base.{
  ℕ, ◌≡◌, refl, Bool, true, false, Option, none, some, List, [], ◌∷◌, arith, ◌⊎◌, inl, inr,
  Bool-cases, Option-cases, if◌then◌else◌, String, Result, ok, err, str_eq,
}
use gh_pool.Base.Dict.{Dict, lookup, put, has, keys, lookup-put}
use gh_pool.Pool.Status.{
  TaskStatus, pending, running, done, failed, cancelled, lost, is_pending, is_running, is_finished,
  is_reportable,
}
use gh_pool.Pool.State.{Row, Task, Pool, Settings, overloaded}
use gh_pool.Pool.Queue.{owned, HttpError, touch, grant, leased, grab_from, grab, Lease}
use gh_pool.Pool.Queue.Owned.{There, adopt, Holds, owned_cases}
use gh_pool.Pool.Tasks.{
  lease_start, lease_round, round_after, beat, append_locked, append_owned, complete_owned,
  finish_task, reported,
}
use gh_pool.Pool.Client.{enqueue, create_task, cancel_found, stopped, asked}
use gh_pool.Pool.Keeper.{sweep, sweep_task, sweep_tasks, sweep_workers, is_silent, written_off}
use gh_pool.Pool.Store.{recover, recover_rows, recover_row}
use gh_pool.Pool.State.{Worker}
use gh_pool.Base.Dict.{remove}
use gh_pool.Pool.World.Moves.{
  onward, onward_refl, IsKept, IsKept-refl, IsKept-trans, put-IsKept, fresh-IsKept,
}

touch-tasks : (w : ℕ) (o : Option ℕ) (now : ℕ) (s : Pool) → (touch w o now s).tasks ≡ s.tasks
unfolding touch
touch-tasks w o now s = ground arith

-- A task that is still pending is handed out.
grab_from-IsKept :
    (w token now : ℕ) (q : List ℕ) (s : Pool) → IsKept s.tasks (grab_from w token now q s).0.tasks
unfolding grab_from grant onward
grab_from-IsKept w token now [] s = IsKept-refl s.tasks
grab_from-IsKept w token now (tid ∷ rest) s = elim (Option-cases (lookup tid s.tasks)) [
  | inl e ↦ rw (e, grab_from) (grab_from-IsKept w token now rest s)
  | inr (t, e) ↦
      rw (e, grab_from)
        (elim (Bool-cases (is_pending t.row.status)) [
          | inl p ↦
              rw (p, if◌then◌else◌, touch-tasks)
                (put-IsKept s.tasks tid (leased w token now t) (λ t' e'. ground arith))
          | inr p ↦ rw (p, if◌then◌else◌) (grab_from-IsKept w token now rest s)
        ])
]

pub lease_round-IsKept :
    (w token now left : ℕ) (s : Pool) → IsKept s.tasks (lease_round w token now left s).0.tasks
unfolding lease_round grab
lease_round-IsKept w token now left s =
    after_round (grab_from w token now s.queue s) (grab_from-IsKept w token now s.queue s)
  where
    after_round :
        (r : Pool × Option Lease)
        → IsKept s.tasks r.0.tasks
        → IsKept s.tasks (round_after left r).0.tasks
    after_round (s', none) k = k
    after_round (s', some l) k = k

pub lease_start-tasks :
    (w : Option ℕ) (now : ℕ) (s : Pool) → (lease_start w now s).0.tasks ≡ s.tasks
unfolding lease_start
lease_start-tasks none now s = refl
lease_start-tasks (some w) now s = ground (arith, touch-tasks w none now s)

pub owned-IsKept :
    (tid : ℕ) (token : Option ℕ) (s : Pool) → IsKept s.tasks (owned tid token s).0.tasks
owned-IsKept tid token s =
    owned_cases (λ r. IsKept s.tasks r.0.tasks) tid s token (IsKept-refl s.tasks)
      (λ k t n e l. IsKept-refl s.tasks)
      λ k t n e l r.
        put-IsKept s.tasks tid (adopt k t) λ t' e'. ground (arith, onward_refl t.row.status)

pub beat-IsKept :
    (tid : ℕ) (token : Option ℕ) (now : ℕ) (r : Pool × Result HttpError Task)
    → Holds tid token r
    → IsKept r.0.tasks (beat tid now r).0.tasks
unfolding beat touch
beat-IsKept tid token now (s, err e) h = IsKept-refl s.tasks
beat-IsKept tid token now (s, ok t) h =
    let tasks_beat : (beat tid now (s, ok t)).0.tasks
        ≡ put tid (record t { heartbeat_at = some now }) s.tasks =
      ground arith in
    rw tasks_beat (
      put-IsKept s.tasks tid (record t { heartbeat_at = some now })
        λ t' e'. ground (arith, onward_refl t.row.status))

pub append_locked-tasks :
    (c : Settings) (tid offset : ℕ) (body : List ℕ) (s : Pool)
    → (append_locked c tid offset body s).0.tasks ≡ s.tasks
unfolding append_locked
append_locked-tasks c tid offset body s = ground arith

pub append_owned-tasks :
    (c : Settings) (tid offset : ℕ) (body : List ℕ) (r : Pool × Result HttpError Task)
    → (append_owned c tid offset body r).0.tasks ≡ r.0.tasks
unfolding append_owned
append_owned-tasks c tid offset body (s, err e) = refl
append_owned-tasks c tid offset body (s, ok t) = ground arith

finish_task-tasks :
    (tid : ℕ) (status : TaskStatus) (error : Option String) (now : ℕ) (t : Task) (s : Pool)
    → (finish_task tid status error now t s).tasks ≡ put tid (reported status error now t) s.tasks
unfolding finish_task
finish_task-tasks tid status error now t s = ground arith

onward_unfinished :
    (a b : TaskStatus) → is_finished a ≡ false → is_reportable b ≡ true → onward a b ≡ true
unfolding is_finished is_reportable onward
onward_unfinished pending b f r = refl
onward_unfinished running pending f r = cc
onward_unfinished running running f r = cc
onward_unfinished running lost f r = cc
onward_unfinished running done f r = refl
onward_unfinished running failed f r = refl
onward_unfinished running cancelled f r = refl
onward_unfinished done b f r = cc
onward_unfinished failed b f r = cc
onward_unfinished cancelled b f r = cc
onward_unfinished lost b f r = cc

pub complete_owned-IsKept :
    (tid : ℕ) (status : Option TaskStatus) (error : Option String) (now : ℕ)
    (r : Pool × Result HttpError Task)
    → There tid r
    → IsKept r.0.tasks (complete_owned tid status error now r).0.tasks
unfolding complete_owned
complete_owned-IsKept tid status error now (s, err e) h = IsKept-refl s.tasks
complete_owned-IsKept tid none error now (s, ok t) h = IsKept-refl s.tasks
complete_owned-IsKept tid (some status) error now (s, ok t) h =
    elim (Bool-cases (is_reportable status)) [
      | inl r ↦
          rw (r, if◌then◌else◌)
            (elim (Bool-cases (is_finished t.row.status)) [
              | inl z ↦ rw (z, if◌then◌else◌) (IsKept-refl s.tasks)
              | inr z ↦
                  rw (z, if◌then◌else◌, finish_task-tasks tid status error now t s)
                    (put-IsKept s.tasks tid (reported status error now t) λ t' e'.
                      rw (some-injective' t t' h e') (onward_unfinished t.row.status status z r))
            ])
      | inr r ↦ rw (r, if◌then◌else◌) (IsKept-refl s.tasks)
    ]
  where
    some-injective' :
        (t t' : Task) → lookup tid s.tasks ≡ some t → lookup tid s.tasks ≡ some t' → t' ≡ t
    some-injective' t t' e e' = cc

silent_running :
    (c : Settings) (now : ℕ) (t : Task) → is_silent c now t ≡ true → t.row.status ≡ running
unfolding is_silent
silent_running c now t h = ground arith

sweep_task-IsKept :
    (c : Settings) (now tid : ℕ) (s : Pool) → IsKept s.tasks (sweep_task c now tid s).tasks
unfolding sweep_task onward
sweep_task-IsKept c now tid s = elim (Option-cases (lookup tid s.tasks)) [
  | inl e ↦ rw (e, sweep_task) (IsKept-refl s.tasks)
  | inr (t, e) ↦
      rw (e, sweep_task)
        (elim (Bool-cases (is_silent c now t)) [
          | inl z ↦
              rw (z, if◌then◌else◌)
                (put-IsKept s.tasks tid (written_off now t)
                  λ t' e'. ground (arith, silent_running c now t z))
          | inr z ↦ rw (z, if◌then◌else◌) (IsKept-refl s.tasks)
        ])
]

sweep_tasks-IsKept :
    (c : Settings) (now : ℕ) (tids : List ℕ) (s : Pool)
    → IsKept s.tasks (sweep_tasks c now tids s).tasks
unfolding sweep_tasks
sweep_tasks-IsKept c now [] s = IsKept-refl s.tasks
sweep_tasks-IsKept c now (tid ∷ tids) s =
    IsKept-trans (sweep_task-IsKept c now tid s)
      (sweep_tasks-IsKept c now tids (sweep_task c now tid s))

sweep_workers-tasks :
    (c : Settings) (now : ℕ) (ws : Dict Worker) (s : Pool)
    → (sweep_workers c now ws s).tasks ≡ s.tasks
unfolding sweep_workers
sweep_workers-tasks c now [] s = refl
sweep_workers-tasks c now ((wid, w) ∷ ws) s = ground (
  arith,
  sweep_workers-tasks c now ws (record s { workers = remove wid s.workers }),
  sweep_workers-tasks c now ws s,
)

recover_row-IsKept : (now : ℕ) (r : Row) (s : Pool) → IsKept s.tasks (recover_row now r s).tasks
unfolding recover_row
recover_row-IsKept now r s = elim (Bool-cases (has r.id s.tasks)) [
  | inl h ↦ rw (h, if◌then◌else◌) (IsKept-refl s.tasks)
  | inr h ↦
      rw (h, if◌then◌else◌)
        (elim (Bool-cases (is_running r.status)) [
          | inl z ↦ rw (z, if◌then◌else◌) (fresh-IsKept s.tasks r.id _ h)
          | inr z ↦ rw (z, if◌then◌else◌) (fresh-IsKept s.tasks r.id _ h)
        ])
]

recover_rows-IsKept :
    (now : ℕ) (rs : List Row) (s : Pool) → IsKept s.tasks (recover_rows now rs s).tasks
unfolding recover_rows
recover_rows-IsKept now [] s = IsKept-refl s.tasks
recover_rows-IsKept now (r ∷ rs) s =
    IsKept-trans (recover_row-IsKept now r s) (recover_rows-IsKept now rs (recover_row now r s))

pub recover-IsKept : (now : ℕ) (rs : List Row) (s : Pool) → IsKept s.tasks (recover now rs s).tasks
unfolding recover
recover-IsKept now rs s =
    waking (recover_rows now rs s).queue (recover_rows now rs s) (recover_rows-IsKept now rs s)
  where
    waking :
        (q : List ℕ) (v : Pool)
        → IsKept s.tasks v.tasks
        → IsKept s.tasks
            (elim q as (λ _. Pool) [ [] ↦ v | _ ∷ _ ↦ record v { arrived = true } ]).tasks
    waking [] v k = k
    waking (_ ∷ _) v k = k

pub sweep-IsKept : (c : Settings) (now : ℕ) (s : Pool) → IsKept s.tasks (sweep c now s).tasks
unfolding sweep
sweep-IsKept c now s = rw sweep_workers-tasks (sweep_tasks-IsKept c now (keys s.tasks) s)

pub create_task-IsKept :
    (c : Settings) (tid : ℕ) (type payload : String) (parent : Option ℕ) (now : ℕ) (s : Pool)
    → has tid s.tasks ≡ false
    → IsKept s.tasks (create_task c tid type payload parent now s).0.tasks
unfolding create_task enqueue
create_task-IsKept c tid type payload parent now s fresh = elim (Bool-cases (str_eq type "")) [
  | inl e ↦ rw (e, if◌then◌else◌) (IsKept-refl s.tasks)
  | inr e ↦
      rw (e, if◌then◌else◌)
        (elim (Bool-cases (overloaded c s)) [
          | inl o ↦ rw (o, if◌then◌else◌) (IsKept-refl s.tasks)
          | inr o ↦ rw (o, if◌then◌else◌) (fresh-IsKept s.tasks tid _ fresh)
        ])
]

pub cancel_found-IsKept :
    (tid : ℕ) (fetched : Bool) (now : ℕ) (t : Task) (s : Pool)
    → (fetched ≡ true) ⊎ (lookup tid s.tasks ≡ some t)
    → IsKept s.tasks (cancel_found tid fetched now t s).0.tasks
unfolding cancel_found onward
cancel_found-IsKept tid fetched now t s h = record {
  stays = λ j u e n.
      ground (arith, lookup-put tid j (stopped now t) s.tasks, lookup-put tid j (asked t) s.tasks);
  moves = λ j u u' e e'. ground (
    arith,
    lookup-put tid j (stopped now t) s.tasks,
    lookup-put tid j (asked t) s.tasks,
    onward_refl u.row.status,
  );
}
