-- ===== src/Pool/World/Pointwise.antt =====
-- What holds of each task in memory, and that each call on the pool keeps it.
use gh_pool.Base.{ℕ, ◌≡◌, true, false, none, some, List, arith, ◌⊎◌}
use gh_pool.Base.Dict.{Dict, lookup, put, lookup-put}
use gh_pool.Base.Members.{member}
use gh_pool.Pool.Status.{running, is_pending}
use gh_pool.Pool.State.{Row, Task, Pool}

-- A task in memory is under its own id, has a lease only while it runs, waits in the queue if it is
-- pending, and is what the database will hold unless it is dirty.
pub record IsFine (queue dirty : List ℕ) (after : Dict Row) (j : ℕ) (t : Task) : Type 0 where
  pub keyed : t.row.id ≡ j
  pub leased : (t.lease_token ≡ none) ⊎ (t.row.status ≡ running)
  pub queued : (is_pending t.row.status ≡ false) ⊎ (member j queue ≡ true)
  pub saved : (member j dirty ≡ true) ⊎ (lookup j after ≡ some t.row)

abbrev pub AllFine : Dict Row → Pool → Type 0
AllFine after s = (j : ℕ) (t : Task) → lookup j s.tasks ≡ some t → IsFine s.queue s.dirty after j t

module _ (after : Dict Row) where
  -- One task is written; nobody leaves the queue or the dirty set.
  pub write-AllFine :
      (s : Pool) (queue dirty : List ℕ) (tid : ℕ) (t' : Task)
      → AllFine after s
      → IsFine queue dirty after tid t'
      → ((j : ℕ) → (member j s.queue ≡ false) ⊎ (member j queue ≡ true))
      → ((j : ℕ) → (member j s.dirty ≡ false) ⊎ (member j dirty ≡ true))
      → (j : ℕ) (t : Task) → lookup j (put tid t' s.tasks) ≡ some t
      → IsFine queue dirty after j t
  write-AllFine s queue dirty tid t' v h q d j t e =
      ground (arith, v j t, q j, d j, lookup-put tid j t' s.tasks)
