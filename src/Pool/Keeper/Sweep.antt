-- ===== src/Pool/Keeper/Sweep.antt =====
-- What the keeper's sweep does to each task.
use mathlib.Core.Option
use gh_pool.Base.{
  ℕ, ◌+◌, ◌<◌, ◌≤◌, ◌⊎◌, ltb, ◌≡◌, refl, true, false, Option, none, some, List, [], ◌∷◌, arith,
  ◌==◌, Bool-cases, Option-cases, inl, inr, if◌then◌else◌, ◌∙◌, ap, err,
}
use gh_pool.Base.Dict.{Dict, lookup, remove, keys, lookup-put}
use gh_pool.Base.Members.{member, member-keys}
use gh_pool.Pool.Status.{TaskStatus, running, lost, is_running}
use gh_pool.Pool.State.{Task, Worker, Pool, Settings}
use gh_pool.Pool.Queue.{owned, http}
use gh_pool.Pool.Keeper.{is_silent, written_off, sweep_task, sweep_tasks, sweep_workers, sweep}

-- The task after a pass, alone.
abbrev pub judged : Settings → ℕ → Task → Task
judged c now t = if is_silent c now t then written_off now t else t

-- A task that was written off is not silent any more.
judged-judged : (c : Settings) (now : ℕ) (t : Task) → judged c now (judged c now t) ≡ judged c now t
unfolding is_silent written_off
judged-judged c now t = ground arith

-- What a sweep makes of what memory had under a key.
abbrev pub Swept : Settings → ℕ → Option Task → Option Task → Type 0
Swept c now before after =
    ((before ≡ none) × (after ≡ none))
    ⊎ ((t : Task) × (before ≡ some t)
        × (((at : ℕ) × (t.row.status ≡ running)
              × (t.heartbeat_at ≡ some at)
              × (at + c.lost_after < now)
              × (after
                  ≡ some (record t {
                    row = record t.row {
                      status = lost;
                      error = some "worker gone";
                      finished_at = some now;
                    };
                    lease_token = none;
                  })))
            ⊎ (((is_running t.row.status ≡ false)
                  ⊎ (t.heartbeat_at ≡ none)
                  ⊎ ((at : ℕ) × (t.heartbeat_at ≡ some at) × (now ≤ at + c.lost_after)))
                × (after ≡ some t))))

module _ (c : Settings) (now : ℕ) where
  after_task : ℕ → Dict Task → ℕ → Option Task
  after_task tid d j = if tid == j then Option.map (judged c now) (lookup j d) else lookup j d

  lookup-sweep_task :
      (tid j : ℕ) (s : Pool) → lookup j (sweep_task c now tid s).tasks ≡ after_task tid s.tasks j
  unfolding sweep_task after_task
  lookup-sweep_task tid j s = elim (Option-cases (lookup tid s.tasks)) [
    | inl e ↦ rw (e, sweep_task) (ground arith)
    | inr (t, e) ↦
        rw (e, sweep_task)
          (elim (Bool-cases (is_silent c now t)) [
            | inl z ↦
                rw (z, if◌then◌else◌) (ground (arith, lookup-put tid j (written_off now t) s.tasks))
            | inr z ↦ rw (z, if◌then◌else◌) (ground arith)
          ])
  ]

  map_twice :
      (o : Option Task)
      → Option.map (judged c now) (Option.map (judged c now) o) ≡ Option.map (judged c now) o
  map_twice none = refl
  map_twice (some t) = ap some (judged-judged c now t)

  lookup-sweep_tasks :
      (tids : List ℕ) (j : ℕ) (s : Pool)
      → lookup j (sweep_tasks c now tids s).tasks
        ≡ (if member j tids then Option.map (judged c now) (lookup j s.tasks) else lookup j s.tasks)
  unfolding sweep_tasks member after_task
  lookup-sweep_tasks [] j s = refl
  lookup-sweep_tasks (tid ∷ tids) j s =
      lookup-sweep_tasks tids j (sweep_task c now tid s)
      ∙ ground (arith, lookup-sweep_task tid j s, map_twice (lookup j s.tasks))

  sweep_workers-tasks : (ws : Dict Worker) (s : Pool) → (sweep_workers c now ws s).tasks ≡ s.tasks
  unfolding sweep_workers
  sweep_workers-tasks [] s = refl
  sweep_workers-tasks ((wid, w) ∷ ws) s = ground (
    arith,
    sweep_workers-tasks ws (record s { workers = remove wid s.workers }),
    sweep_workers-tasks ws s,
  )

  -- The tasks after a sweep, each judged alone.
  pub lookup-sweep :
      (j : ℕ) (s : Pool)
      → lookup j (sweep c now s).tasks ≡ Option.map (judged c now) (lookup j s.tasks)
  unfolding sweep
  lookup-sweep j s =
      rw sweep_workers-tasks
        (lookup-sweep_tasks (keys s.tasks) j s ∙ all_keys (lookup j s.tasks) refl)
    where
      all_keys :
          (o : Option Task)
          → lookup j s.tasks ≡ o
          → (if member j (keys s.tasks)
              then Option.map (judged c now) (lookup j s.tasks)
              else lookup j s.tasks)
            ≡ Option.map (judged c now) (lookup j s.tasks)
      all_keys none e = rw e (ground arith)
      all_keys (some t) e = rw (member-keys j t s.tasks e)

  unsilenced :
      (j : ℕ) (t : Task) (s : Pool)
      → lookup j s.tasks ≡ some t
      → is_silent c now t ≡ false
      → lookup j (sweep c now s).tasks ≡ some t
  unsilenced j t s e k = lookup-sweep j s ∙ rw (e, k)

  silenced :
      (j : ℕ) (t : Task) (s : Pool)
      → lookup j s.tasks ≡ some t
      → is_silent c now t ≡ true
      → lookup j (sweep c now s).tasks ≡ some (written_off now t)
  silenced j t s e k = lookup-sweep j s ∙ rw (e, k)

  -- A running task whose worker was last heard of more than `lost_after` ago is fenced off by the
  -- sweep: no lease token, not even its own, passes `owned` afterwards.
  pub sweep_fences :
      (tid at : ℕ) (t : Task) (token : Option ℕ) (s : Pool)
      → lookup tid s.tasks ≡ some t
      → t.row.status ≡ running
      → t.heartbeat_at ≡ some at
      → at + c.lost_after < now
      → owned tid token (sweep c now s) ≡ (sweep c now s, err (http 409))
  unfolding owned written_off
  sweep_fences tid at t token s e r h l =
      let silent : is_silent c now t ≡ true = unfold is_silent in ground arith in
      let after = silenced tid t s e silent in ground arith

  -- After a sweep, a task that was in memory is written off, as lost and without its lease, exactly
  -- where it was running and its last heartbeat is more than `lost_after` old; otherwise it is as it
  -- was, be it that it was not running, that it has no heartbeat at all or that the last one is young
  -- enough. Under a key without a task there is none afterwards either.
  pub sweep_lem :
      (j : ℕ) (s : Pool) → Swept c now (lookup j s.tasks) (lookup j (sweep c now s).tasks)
  unfolding written_off
  sweep_lem j s = elim (Option-cases (lookup j s.tasks)) [
    | inl e ↦ inl (e, lookup-sweep j s ∙ ap (Option.map (judged c now)) e)
    | inr (t, e) ↦
        let stays = λ (k : is_silent c now t ≡ false). unsilenced j t s e k in
        inr (
          t,
          e,
          elim (Bool-cases (is_running t.row.status)) [
            | inr r ↦ inr (inl r, stays (unfold is_silent in rw r refl))
            | inl r ↦ elim (Option-cases t.heartbeat_at) [
              | inl h ↦ inr (inr (inl h), stays (unfold is_silent in ground arith))
              | inr (at, h) ↦ elim (Bool-cases (ltb (at + c.lost_after) now)) [
                | inl l ↦
                    let silent : is_silent c now t ≡ true = unfold is_silent in ground arith in
                    inl (at, running_only t.row.status r, h, ground arith, silenced j t s e silent)
                | inr l ↦
                    inr (inr (inr (at, h, ground arith)), stays (unfold is_silent in ground arith))
              ]
            ]
          ],
        )
  ]
    where
      running_only : (st : TaskStatus) → is_running st ≡ true → st ≡ running
      running_only running h = refl
      running_only _ h = cc
