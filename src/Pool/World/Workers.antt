-- ===== src/Pool/World/Workers.antt =====
-- The calls of the workers keep what holds of each task.
use gh_pool.Base.{
  ℕ, ◌≡◌, refl, true, false, Option, none, some, List, [], ◌∷◌, arith, Bool-cases, Option-cases,
  inl, inr, if◌then◌else◌, String, Result, ok, err,
}
use gh_pool.Base.Dict.{Dict, lookup, lookup-put}
use gh_pool.Base.Members.{member, member-add}
use gh_pool.Pool.Status.{TaskStatus, pending, is_pending, is_reportable, is_finished, from_text}
use gh_pool.Pool.State.{Row, Task, Pool, Settings}
use gh_pool.Pool.Queue.{HttpError, owned, touch, grab, grab_from, grant, leased, Lease}
use gh_pool.Pool.Queue.Owned.{adopt, Holds, There, owned_cases, owned-There, owned-Holds}
use gh_pool.Pool.Tasks.{
  round_after, beat, append_locked, append_owned, complete_owned, reported, lease_start,
  lease_round, heartbeat, append_events, complete, finish_task,
}
use gh_pool.Pool.World.Pointwise.{AllFine, write-AllFine}

module _ (after : Dict Row) where
  touch-AllFine :
      (w : ℕ) (o : Option ℕ) (now : ℕ) (s : Pool)
      → AllFine after s
      → AllFine after (touch w o now s)
  unfolding touch
  touch-AllFine w o now s v j t e = ground (arith, v j t)

  pub owned-AllFine :
      (tid : ℕ) (token : Option ℕ) (s : Pool)
      → AllFine after s
      → AllFine after (owned tid token s).0
  owned-AllFine tid token s v =
      owned_cases (λ r. AllFine after r.0) tid s token v (λ k t n e l. v)
        λ k t n e l r.
          write-AllFine after s s.queue s.dirty tid (adopt k t) v (ground (arith, v tid t))
            (λ j. ground arith) (λ j. ground arith)

  beat-AllFine :
      (tid : ℕ) (token : Option ℕ) (now : ℕ) (r : Pool × Result HttpError Task)
      → Holds tid token r
      → AllFine after r.0
      → AllFine after (beat tid now r).0
  unfolding beat touch
  beat-AllFine tid token now (s, err e) h v j t' e' = v j t' e'
  beat-AllFine tid token now (s, ok t) h v j t' e =
      ground
        (arith, v j t', v tid t, lookup-put tid j (record t { heartbeat_at = some now }) s.tasks)

  pub heartbeat-AllFine :
      (tid : ℕ) (token : Option ℕ) (now : ℕ) (s : Pool)
      → AllFine after s
      → AllFine after (heartbeat tid token now s).0
  unfolding heartbeat
  heartbeat-AllFine tid token now s v =
      beat-AllFine tid token now (owned tid token s) (owned-Holds tid token s)
        (owned-AllFine tid token s v)

  pub append_locked-AllFine :
      (c : Settings) (tid offset : ℕ) (body : List ℕ) (s : Pool)
      → AllFine after s
      → AllFine after (append_locked c tid offset body s).0
  unfolding append_locked
  append_locked-AllFine c tid offset body s v j t' e = ground (arith, v j t')

  append_owned-AllFine :
      (c : Settings) (tid offset : ℕ) (body : List ℕ) (r : Pool × Result HttpError Task)
      → AllFine after r.0
      → AllFine after (append_owned c tid offset body r).0
  unfolding append_owned
  append_owned-AllFine c tid offset body (s, err e) v j t' e' = v j t' e'
  append_owned-AllFine c tid offset body (s, ok t) v j t' e = ground (arith, v j t')

  pub append_events-AllFine :
      (c : Settings) (tid : ℕ) (token : Option ℕ) (offset : ℕ) (body : List ℕ) (s : Pool)
      → AllFine after s
      → AllFine after (append_events c tid token offset body s).0
  unfolding append_events
  append_events-AllFine c tid token offset body s v =
      append_owned-AllFine c tid offset body (owned tid token s) (owned-AllFine tid token s v)

  finish_task-AllFine :
      (tid : ℕ) (status : TaskStatus) (error : Option String) (now : ℕ) (t : Task) (s : Pool)
      → t.row.id ≡ tid
      → is_pending status ≡ false
      → AllFine after s
      → AllFine after (finish_task tid status error now t s)
  unfolding finish_task
  finish_task-AllFine tid status error now t s k p v j t' e = ground (
    arith,
    v j t',
    member-add tid j s.dirty,
    member-add tid tid s.dirty,
    lookup-put tid j (reported status error now t) s.tasks,
  )

  reportable_not_pending : (st : TaskStatus) → is_reportable st ≡ true → is_pending st ≡ false
  unfolding is_reportable
  reportable_not_pending pending h = cc
  reportable_not_pending _ h = refl

  pub complete_owned-AllFine :
      (tid : ℕ) (status : Option TaskStatus) (error : Option String) (now : ℕ)
      (r : Pool × Result HttpError Task)
      → There tid r
      → AllFine after r.0
      → AllFine after (complete_owned tid status error now r).0
  unfolding complete_owned
  complete_owned-AllFine tid status error now (s, err e) h v = v
  complete_owned-AllFine tid none error now (s, ok t) h v = v
  complete_owned-AllFine tid (some status) error now (s, ok t) h v =
      elim (Bool-cases (is_reportable status)) [
        | inl r ↦
            rw (r, if◌then◌else◌)
              (elim (Bool-cases (is_finished t.row.status)) [
                | inl z ↦ rw (z, if◌then◌else◌) v
                | inr z ↦
                    rw (z, if◌then◌else◌)
                      (finish_task-AllFine tid status error now t s (v tid t h).keyed
                        (reportable_not_pending status r) v)
              ])
        | inr r ↦ rw (r, if◌then◌else◌) v
      ]

  pub complete-AllFine :
      (tid : ℕ) (token : Option ℕ) (status : String) (error : Option String) (now : ℕ) (s : Pool)
      → AllFine after s
      → AllFine after (complete tid token status error now s).0
  unfolding complete
  complete-AllFine tid token status error now s v =
      complete_owned-AllFine tid (from_text status) error now (owned tid token s)
        (owned-There tid token s) (owned-AllFine tid token s v)

  -- Only a task that is not pending may leave the queue.
  drop_head :
      (tid : ℕ) (rest : List ℕ) (s : Pool)
      → ((t : Task) → lookup tid s.tasks ≡ some t → is_pending t.row.status ≡ false)
      → AllFine after (record s { queue = tid ∷ rest })
      → AllFine after (record s { queue = rest })
  unfolding member
  drop_head tid rest s h v j t e = ground (arith, v j t, h t)

  -- As drop_head, for the task that is handed out.
  grant_head :
      (w token now tid : ℕ) (rest : List ℕ) (t : Task) (s : Pool)
      → AllFine after (record s { queue = tid ∷ rest })
      → lookup tid s.tasks ≡ some t
      → AllFine after (grant w token now tid t (record s { queue = rest })).0
  unfolding grant leased touch member
  grant_head w token now tid rest t s v h j t' e = ground (
    arith,
    v j t',
    v tid t,
    member-add t.row.id j s.dirty,
    lookup-put tid j (leased w token now t) s.tasks,
  )

  grab_from-AllFine :
      (w token now : ℕ) (q : List ℕ) (s : Pool)
      → AllFine after (record s { queue = q })
      → AllFine after (grab_from w token now q s).0
  unfolding grab_from
  grab_from-AllFine w token now [] s v = v
  grab_from-AllFine w token now (tid ∷ rest) s v = elim (Option-cases (lookup tid s.tasks)) [
    | inl e ↦
        rw (e, grab_from)
          (grab_from-AllFine w token now rest s (drop_head tid rest s (λ t e'. cc) v))
    | inr (t, e) ↦
        rw (e, grab_from)
          (elim (Bool-cases (is_pending t.row.status)) [
            | inl p ↦ rw (p, if◌then◌else◌) (grant_head w token now tid rest t s v e)
            | inr p ↦
                rw (p, if◌then◌else◌)
                  (grab_from-AllFine w token now rest s
                    (drop_head tid rest s (λ t' e'. ground arith) v))
          ])
  ]

  pub lease_round-AllFine :
      (w token now left : ℕ) (s : Pool)
      → AllFine after s
      → AllFine after (lease_round w token now left s).0
  unfolding lease_round grab
  lease_round-AllFine w token now left s v =
      after_round (grab_from w token now s.queue s) (grab_from-AllFine w token now s.queue s v)
    where
      after_round :
          (r : Pool × Option Lease) → AllFine after r.0 → AllFine after (round_after left r).0
      after_round (s', none) v' = v'
      after_round (s', some l) v' = v'

  pub lease_start-AllFine :
      (w : Option ℕ) (now : ℕ) (s : Pool) → AllFine after s → AllFine after (lease_start w now s).0
  unfolding lease_start touch
  lease_start-AllFine none now s v j t e = v j t e
  lease_start-AllFine (some w) now s v j t e = ground (arith, v j t)
