-- ===== src/Pool/World/Keeping.antt =====
-- The keeper's recovery, sweep and flush keep what holds of each task.
use gh_pool.Base.{
  ℕ, ◌≡◌, true, none, some, List, [], ◌∷◌, arith, Bool-cases, Option-cases, inl, inr, if◌then◌else◌,
}
use gh_pool.Base.Dict.{Dict, lookup, keys, lookup-put}
use gh_pool.Base.Members.{add, member-snoc, member-add}
use gh_pool.Pool.Status.{is_live}
use gh_pool.Pool.State.{Row, Pool, Settings, Worker}
use gh_pool.Pool.Queue.{from_row}
use gh_pool.Pool.Store.{recover, recover_row, recover_rows, live_rows, unfinished}
use gh_pool.Pool.Keeper.{sweep, sweep_task, sweep_tasks, sweep_workers, is_silent, written_off}
use gh_pool.Pool.World.Pointwise.{AllFine, write-AllFine}

module _ (after : Dict Row) where
  sweep_workers-AllFine :
      (c : Settings) (now : ℕ) (ws : Dict Worker) (s : Pool)
      → AllFine after s
      → AllFine after (sweep_workers c now ws s)
  unfolding sweep_workers
  sweep_workers-AllFine c now [] s v = v
  sweep_workers-AllFine c now ((wid, w) ∷ ws) s v =
      sweep_workers-AllFine c now ws _ (λ j t e. ground (arith, v j t))

  sweep_task-AllFine :
      (c : Settings) (now tid : ℕ) (s : Pool)
      → AllFine after s
      → AllFine after (sweep_task c now tid s)
  unfolding sweep_task
  sweep_task-AllFine c now tid s v = elim (Option-cases (lookup tid s.tasks)) [
    | inl e ↦ rw (e, sweep_task) v
    | inr (t, e) ↦
        rw (e, sweep_task)
          (elim (Bool-cases (is_silent c now t)) [
            | inl z ↦
                rw (z, if◌then◌else◌)
                  (write-AllFine after s s.queue (add t.row.id s.dirty) tid (written_off now t) v
                    (ground (arith, v tid t, member-add t.row.id tid s.dirty)) (λ j. ground arith)
                    (λ j. ground (arith, member-add t.row.id j s.dirty)))
            | inr z ↦ rw (z, if◌then◌else◌) v
          ])
  ]

  sweep_tasks-AllFine :
      (c : Settings) (now : ℕ) (tids : List ℕ) (s : Pool)
      → AllFine after s
      → AllFine after (sweep_tasks c now tids s)
  unfolding sweep_tasks
  sweep_tasks-AllFine c now [] s v = v
  sweep_tasks-AllFine c now (tid ∷ tids) s v =
      sweep_tasks-AllFine c now tids (sweep_task c now tid s) (sweep_task-AllFine c now tid s v)

  pub sweep-AllFine :
      (c : Settings) (now : ℕ) (s : Pool) → AllFine after s → AllFine after (sweep c now s)
  unfolding sweep
  sweep-AllFine c now s v =
      let s' : Pool = sweep_tasks c now (keys s.tasks) s in
      sweep_workers-AllFine c now s'.workers s' (sweep_tasks-AllFine c now (keys s.tasks) s v)

  -- A row of the database enters memory as it is there.
  recover_row-AllFine :
      (now : ℕ) (r : Row) (s : Pool)
      → lookup r.id after ≡ some r
      → is_live r.status ≡ true
      → AllFine after s
      → AllFine after (recover_row now r s)
  unfolding recover_row from_row is_live
  recover_row-AllFine now r s h l v j t e = ground (
    arith,
    v j t,
    member-snoc j r.id s.queue,
    lookup-put r.id j (record { row = r; lease_token = none; heartbeat_at = some now }) s.tasks,
    lookup-put r.id j (record { row = r; lease_token = none; heartbeat_at = none }) s.tasks,
  )

  pub recover_rows-AllFine :
      (now : ℕ) (ks : List ℕ) (d : Dict Row) (s : Pool)
      → ((k : ℕ) (r : Row) → lookup k d ≡ some r → (r.id ≡ k) × (lookup k after ≡ some r))
      → AllFine after s
      → AllFine after (recover_rows now (live_rows ks d) s)
  unfolding recover_rows live_rows
  recover_rows-AllFine now [] d s h v = v
  recover_rows-AllFine now (k ∷ ks) d s h v = elim (Option-cases (lookup k d)) [
    | inl e ↦ rw (e, live_rows) (recover_rows-AllFine now ks d s h v)
    | inr (r, e) ↦
        rw (e, live_rows)
          (elim (Bool-cases (is_live r.status)) [
            | inl l ↦
                rw (l, if◌then◌else◌)
                  (recover_rows-AllFine now ks d (recover_row now r s) h
                    (recover_row-AllFine now r s (ground (arith, h k r)) l v))
            | inr l ↦ rw (l, if◌then◌else◌) (recover_rows-AllFine now ks d s h v)
          ])
  ]

  arrived-AllFine :
      (q : List ℕ) (s : Pool)
      → AllFine after s
      → AllFine after (elim q [ [] ↦ s | _ ∷ _ ↦ record s { arrived = true } ])
  arrived-AllFine [] s v j t e = v j t e
  arrived-AllFine (_ ∷ _) s v j t e = v j t e

  pub recover-AllFine :
      (now : ℕ) (d : Dict Row) (s : Pool)
      → ((k : ℕ) (r : Row) → lookup k d ≡ some r → (r.id ≡ k) × (lookup k after ≡ some r))
      → AllFine after s
      → AllFine after (recover now (unfinished d) s)
  unfolding recover unfinished
  recover-AllFine now d s h v =
      arrived-AllFine _ (recover_rows now (live_rows (keys d) d) s)
        (recover_rows-AllFine now (keys d) d s h v)
