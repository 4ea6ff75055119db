-- ===== src/Pool/World/Flushing.antt =====
-- A flush keeps what holds of each task, whichever way it ends.
use gh_pool.Base.{
  ℕ, ◌≡◌, refl, true, false, some, List, [], ◌∷◌, arith, Option-cases, ◌⊎◌, inl, inr, ◌∙◌,
}
use gh_pool.Base.Dict.{Dict, lookup, put, lookup-put, lookup-remove}
use gh_pool.Base.Members.{member, member-update}
use gh_pool.Pool.State.{Row, Task, Pool}
use gh_pool.Pool.Store.{
  Flush, save_tasks, task_rows, taken, cleared, flush_begin, flush_failed, flush_done, forget_task,
  forget_tasks,
}
use gh_pool.Pool.World.Pointwise.{AllFine}

-- The rows of a flush are under the ids that it took.
abbrev pub Within : Flush → Type 0
Within f =
    (j : ℕ) (db : Dict Row) → member j f.ids ≡ false → lookup j (save_tasks f.rows db) ≡ lookup j db

-- The rows of a flush are saved under ids that it took, and as they are in memory.
module _ (d : Dict Task) (keyed : (j : ℕ) (t : Task) → lookup j d ≡ some t → t.row.id ≡ j) where
  pub save_out :
      (ids : List ℕ) (j : ℕ) (db : Dict Row)
      → member j ids ≡ false
      → lookup j (save_tasks (task_rows ids d) db) ≡ lookup j db
  unfolding save_tasks task_rows member
  save_out [] j db h = refl
  save_out (i ∷ ids) j db h = elim (Option-cases (lookup i d)) [
    | inl e ↦ rw (e, task_rows) (save_out ids j db (ground arith))
    | inr (t, e) ↦
        rw (e, task_rows)
          (save_out ids j (put t.row.id t.row db) (ground arith)
            ∙ ground (arith, keyed i t e, lookup-put t.row.id j t.row db))
  ]

  pub save_in :
      (ids : List ℕ) (j : ℕ) (t : Task) (db : Dict Row)
      → lookup j d ≡ some t
      → (member j ids ≡ true) ⊎ (lookup j db ≡ some t.row)
      → lookup j (save_tasks (task_rows ids d) db) ≡ some t.row
  unfolding save_tasks task_rows member
  save_in [] j t db e h = ground arith
  save_in (i ∷ ids) j t db e h = elim (Option-cases (lookup i d)) [
    | inl n ↦ rw (n, task_rows) (save_in ids j t db e (ground arith))
    | inr (u, n) ↦
        rw (n, task_rows)
          (save_in ids j t (put u.row.id u.row db) e
            (ground (arith, keyed i u n, lookup-put u.row.id j u.row db)))
  ]

module _ (db : Dict Row) (s : Pool) where
  pub cleared-AllFine : AllFine db s → AllFine (save_tasks (taken s).rows db) (cleared s)
  unfolding taken cleared
  cleared-AllFine v j t e =
      let h = save_in s.tasks (λ i u h. (v i u h).keyed) s.dirty j t db e (v j t e).saved in
      ground (arith, v j t)

  pub taken-Within : AllFine db s → Within (taken s)
  unfolding taken
  taken-Within v j db' h = save_out s.tasks (λ i u h. (v i u h).keyed) s.dirty j db' h

  -- A flush that begins takes the dirty set.
  pub flush_begin-taken :
      {s' : Pool} {f : Flush} → flush_begin s ≡ (s', some f) → (s' ≡ cleared s) × (f ≡ taken s)
  unfolding flush_begin
  flush_begin-taken e = ground arith

pub flush_failed-AllFine :
    (f : Flush) (db db' : Dict Row) (s : Pool)
    → ((j : ℕ) → member j f.ids ≡ false → lookup j db' ≡ lookup j db)
    → AllFine db s
    → AllFine db' (flush_failed f s)
unfolding flush_failed
flush_failed-AllFine f db db' s h v j t e =
    ground (arith, v j t, h j, member-update j f.ids s.dirty)

-- forgetting tasks leaves the others as they are
pub forget_tasks-lookup :
    (dirty ids : List ℕ) (d : Dict Task) (j : ℕ) (t : Task)
    → lookup j (forget_tasks dirty ids d) ≡ some t
    → lookup j d ≡ some t
unfolding forget_tasks forget_task
forget_tasks-lookup dirty [] d j t e = e
forget_tasks-lookup dirty (i ∷ ids) d j t e =
    ground (arith, forget_tasks-lookup dirty ids (forget_task dirty i d) j t e, lookup-remove i j d)

pub flush_done-AllFine :
    (f : Flush) (db : Dict Row) (s : Pool) → AllFine db s → AllFine db (flush_done f s)
unfolding flush_done
flush_done-AllFine f db s v j t e =
    ground (arith, v j t (forget_tasks-lookup s.dirty f.ids s.tasks j t e))
