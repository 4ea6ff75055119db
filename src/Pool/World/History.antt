-- ===== src/Pool/World/History.antt =====
-- What one step of the world may do to a task in memory.
use gh_pool.Base.{ok, ℕ, ◌≡◌, refl, true, false, none, some, List, [], ◌∷◌, arith, ◌⊎◌, inl, inr}
use gh_pool.Base.Dict.{Dict, lookup, lookup-remove}
use gh_pool.Base.Members.{member}
use gh_pool.Pool.Status.{is_finished}
use gh_pool.Pool.State.{Task, Pool}
use gh_pool.Pool.Queue.{owned}
use gh_pool.Pool.Queue.Owned.{owned-Holds, owned-There}
use gh_pool.Pool.Tasks.{lease_wake, heartbeat, append_events, complete}
use gh_pool.Pool.Client.{enqueue}
use gh_pool.Pool.Store.{
  save_tasks, flush_failed, flush_done, forget_task, forget_tasks, unfinished, cleared,
}
use gh_pool.Pool.World.{
  World, Call, Step, settled, calls, recovers, flushes, fails, lands, leases, rounds, wakes, beats,
  appends, completes, owns, completes_late, appends_late, creates, cancels, cancels_read, retries,
  read_fails, sweeps,
}
use gh_pool.Pool.World.Pointwise.{AllFine}
use gh_pool.Pool.World.Moves.{onward, onward_refl, IsKept, IsKept-refl, IsKept-trans, fresh-IsKept}
use gh_pool.Pool.World.Kept.{
  lease_round-IsKept, lease_start-tasks, owned-IsKept, beat-IsKept, append_owned-tasks,
  append_locked-tasks, complete_owned-IsKept, sweep-IsKept, create_task-IsKept, cancel_found-IsKept,
  recover-IsKept,
}
use gh_pool.Pool.World.Flushing.{flush_begin-taken, forget_tasks-lookup}
use gh_pool.Pool.World.Safe.{IsSafe}

Call-IsKept : {s s' : Pool} → Call s s' → IsKept s.tasks s'.tasks
unfolding lease_wake heartbeat append_events complete enqueue
Call-IsKept {s} (leases w now) = rw (lease_start-tasks w now s) (IsKept-refl s.tasks)
Call-IsKept {s} (rounds w token now left) = lease_round-IsKept w token now left s
Call-IsKept {s} wakes = IsKept-refl s.tasks
Call-IsKept {s} (beats tid token now) =
    IsKept-trans (owned-IsKept tid token s)
      (beat-IsKept tid token now (owned tid token s) (owned-Holds tid token s))
Call-IsKept {s} (appends c tid token offset body) =
    rw (append_owned-tasks c tid offset body (owned tid token s)) (owned-IsKept tid token s)
Call-IsKept {s} (completes tid token status error now) =
    IsKept-trans (owned-IsKept tid token s)
      (complete_owned-IsKept tid _ error now (owned tid token s) (owned-There tid token s))
Call-IsKept {s} (owns tid token) = owned-IsKept tid token s
Call-IsKept {s} (completes_late tid t status error now e) =
    complete_owned-IsKept tid _ error now (s, ok t) e
Call-IsKept {s} (appends_late c tid offset body) =
    rw (append_locked-tasks c tid offset body s) (IsKept-refl s.tasks)
Call-IsKept {s} (creates c tid type payload parent now fresh) =
    create_task-IsKept c tid type payload parent now s fresh
Call-IsKept {s} (cancels tid now t e) = cancel_found-IsKept tid false now t s (inr e)
Call-IsKept {s} (cancels_read tid now r e) = cancel_found-IsKept tid true now _ s (inl refl)
Call-IsKept {s} (retries tid nid now r fresh) = fresh-IsKept s.tasks nid _ fresh
Call-IsKept {s} read_fails = IsKept-refl s.tasks
Call-IsKept {s} (sweeps c now) = sweep-IsKept c now s

-- What a landing flush forgets is finished and not dirty.
forget_tasks-gone :
    (dirty ids : List ℕ) (d : Dict Task) (j : ℕ) (t : Task)
    → lookup j d ≡ some t
    → ((is_finished t.row.status ≡ true) × (member j dirty ≡ false))
      ⊎ (lookup j (forget_tasks dirty ids d) ≡ some t)
unfolding forget_tasks forget_task
forget_tasks-gone dirty [] d j t e = inr e
forget_tasks-gone dirty (i ∷ ids) d j t e =
    ground (arith, forget_tasks-gone dirty ids (forget_task dirty i d) j t, lookup-remove i j d)

Step-moves :
    {w x : World} (j : ℕ) (t : Task)
    → IsSafe w
    → Step w x
    → lookup j w.pool.tasks ≡ some t
    → ((t' : Task) → lookup j x.pool.tasks ≡ some t' → onward t.row.status t'.row.status ≡ true)
      × (lookup j x.pool.tasks ≡ none
          → (is_finished t.row.status ≡ true) × (lookup j x.saved ≡ some t.row))
unfolding flush_failed flush_done cleared
Step-moves {w} j t v (calls c) e =
    let k = Call-IsKept c in (λ t' e'. k.moves j t t' e e', λ n. absurd (k.stays j t e n))
Step-moves {w} j t v (recovers now idle) e =
    let k = recover-IsKept now (unfinished w.saved) w.pool in
    (λ t' e'. k.moves j t t' e e', λ n. absurd (k.stays j t e n))
Step-moves {w} j t v (flushes f idle b) e =
    let (p, q) = flush_begin-taken w.saved w.pool b in
    rw p (λ t' e'. ground (arith, onward_refl t.row.status), λ n. cc)
Step-moves {w} j t v (fails f written h) e =
    (λ t' e'. ground (arith, onward_refl t.row.status), λ n. cc)
Step-moves {w} j t v (lands f h) e =
    let after : AllFine (save_tasks f.rows w.saved) w.pool = rw (h, settled) at v.fine in
    let dirty = w.pool.dirty in
    (
      λ t' e'.
          let old = forget_tasks-lookup dirty f.ids w.pool.tasks j t' e' in
          ground (arith, onward_refl t.row.status, old),
      λ n. ground (arith, forget_tasks-gone dirty f.ids w.pool.tasks j t e, after j t e),
    )

-- In a safe world, a step takes the status of a task in memory only along the edges of `onward`: a
-- pending task may change to any status, a running one to any but pending, a finished one to none.
pub Step-onward :
    {w x : World} (j : ℕ) (t t' : Task)
    → IsSafe w
    → Step w x
    → lookup j w.pool.tasks ≡ some t
    → lookup j x.pool.tasks ≡ some t'
    → onward t.row.status t'.row.status ≡ true
Step-onward j t t' v s e e' = (Step-moves j t v s e).0 t' e'

-- In a safe world, a step that removes a task from memory leaves it in the database with all its
-- columns, and its status is a finished one.
pub Step-forgets :
    {w x : World} (j : ℕ) (t : Task)
    → IsSafe w
    → Step w x
    → lookup j w.pool.tasks ≡ some t
    → lookup j x.pool.tasks ≡ none
    → (is_finished t.row.status ≡ true) × (lookup j x.saved ≡ some t.row)
Step-forgets j t v s e n = (Step-moves j t v s e).1 n
