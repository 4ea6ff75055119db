-- ===== src/Pool/World/Clients.antt =====
-- The calls of the clients keep what holds of each task.
use gh_pool.Base.{
  ℕ, ◌≡◌, refl, Bool, Option, none, [], ◌∷◌, ◌++◌, arith, Bool-cases, ◌⊎◌, inl, inr, if◌then◌else◌,
  String, str_eq,
}
use gh_pool.Base.Dict.{Dict, lookup-put}
use gh_pool.Base.Members.{add, member-snoc, member-add}
use gh_pool.Pool.Status.{running}
use gh_pool.Pool.State.{Row, Task, Pool, Settings, overloaded}
use gh_pool.Pool.Client.{enqueue, create_task, cancel_found, stopped, asked}
use gh_pool.Pool.World.Pointwise.{AllFine, write-AllFine}

module _ (after : Dict Row) where
  pub enqueue-AllFine :
      (tid : ℕ) (r : Row) (s : Pool)
      → r.id ≡ tid
      → AllFine after s
      → AllFine after (enqueue tid r s)
  unfolding enqueue
  enqueue-AllFine tid r s k v =
      write-AllFine after s (s.queue ++ tid ∷ []) (add tid s.dirty) tid
        (record { row = r; lease_token = none; heartbeat_at = none }) v
        (ground (arith, member-snoc tid tid s.queue, member-add tid tid s.dirty))
        (λ j. ground (arith, member-snoc j tid s.queue))
        (λ j. ground (arith, member-add tid j s.dirty))

  pub create_task-AllFine :
      (c : Settings) (tid : ℕ) (type payload : String) (parent : Option ℕ) (now : ℕ) (s : Pool)
      → AllFine after s
      → AllFine after (create_task c tid type payload parent now s).0
  unfolding create_task
  create_task-AllFine c tid type payload parent now s v = elim (Bool-cases (str_eq type "")) [
    | inl e ↦ rw (e, if◌then◌else◌) v
    | inr e ↦
        rw (e, if◌then◌else◌)
          (elim (Bool-cases (overloaded c s)) [
            | inl o ↦ rw (o, if◌then◌else◌) v
            | inr o ↦ rw (o, if◌then◌else◌) (enqueue-AllFine tid _ s refl v)
          ])
  ]

  pub cancel_found-AllFine :
      (tid : ℕ) (fetched : Bool) (now : ℕ) (t : Task) (s : Pool)
      → t.row.id ≡ tid
      → (t.lease_token ≡ none) ⊎ (t.row.status ≡ running)
      → AllFine after s
      → AllFine after (cancel_found tid fetched now t s).0
  unfolding cancel_found
  cancel_found-AllFine tid fetched now t s k l v j t' e = ground (
    arith,
    v j t',
    lookup-put tid j (stopped now t) s.tasks,
    lookup-put tid j (asked t) s.tasks,
    member-add tid j s.dirty,
  )
