-- ===== src/Pool/Queue/Grab.antt =====
-- What a worker gets from the queue.
use gh_pool.Base.{
  ℕ, ◌≡◌, refl, true, Option, none, some, List, [], ◌∷◌, arith, Bool-cases, Option-cases, ◌⊎◌, inl,
  inr, if◌then◌else◌,
}
use gh_pool.Base.Dict.{Dict, lookup, lookup-put_self}
use gh_pool.Base.Members.{member, member-add}
use gh_pool.Pool.Status.{is_pending, pending}
use gh_pool.Pool.State.{Task, Pool, events_size}
use gh_pool.Pool.Queue.{Lease, grab, grab_from, grant, leased, touch}

-- The first id of the queue whose task is pending.
unfoldable pub first_pending : List ℕ → Dict Task → Option ℕ
first_pending [] d = none
first_pending (tid ∷ rest) d =
    let skip = first_pending rest d in
    elim (lookup tid d) [
      | none ↦ skip
      | some t ↦ if is_pending t.row.status then some tid else skip
    ]

-- Each task is under its own id.
abbrev pub Keyed : Dict Task → Type 0
Keyed d = (j : ℕ) (t : Task) → lookup j d ≡ some t → t.row.id ≡ j

-- What a worker that got the task `tid` was told, and what is in memory then.
pub record Granted (w token now tid : ℕ) (s : Pool) (r : Pool × Option Lease) : Type 0 where
  pub task : Task
  pub found : lookup tid s.tasks ≡ some task
  pub waited : task.row.status ≡ pending
  pub written : lookup tid r.0.tasks ≡ some (leased w token now task)
  pub to_save : member tid r.0.dirty ≡ true
  pub told :
      r.1
      ≡ some (record {
        task_id = tid;
        type = task.row.type;
        payload = task.row.payload;
        lease_token = token;
        event_offset = events_size tid s;
      })

grant-Granted :
    (w token now tid : ℕ) (rest : List ℕ) (t : Task) (s : Pool)
    → t.row.id ≡ tid
    → lookup tid s.tasks ≡ some t
    → t.row.status ≡ pending
    → Granted w token now tid s (grant w token now tid t (record s { queue = rest }))
unfolding grant touch events_size
grant-Granted w token now tid rest t s k e p = record {
  task = t;
  found = e;
  waited = p;
  written = ground (arith, lookup-put_self tid (leased w token now t) s.tasks);
  to_save = ground (arith, member-add tid tid s.dirty);
  told = ground arith;
}

pending_of : (t : Task) → is_pending t.row.status ≡ true → t.row.status ≡ pending
pending_of t h = ground arith

grab_from-first :
    (w token now : ℕ) (q : List ℕ) (s : Pool)
    → Keyed s.tasks
    → ((first_pending q s.tasks ≡ none) × ((grab_from w token now q s).1 ≡ none))
      ⊎ ((tid : ℕ) × (first_pending q s.tasks ≡ some tid)
          × Granted w token now tid s (grab_from w token now q s))
unfolding grab_from first_pending
grab_from-first w token now [] s k = inl (refl, refl)
grab_from-first w token now (tid ∷ rest) s k = elim (Option-cases (lookup tid s.tasks)) [
  | inl e ↦ rw (e, grab_from, first_pending) (grab_from-first w token now rest s k)
  | inr (t, e) ↦
      rw (e, grab_from, first_pending)
        (elim (Bool-cases (is_pending t.row.status)) [
          | inl p ↦
              rw (p, if◌then◌else◌)
                (inr (
                  tid,
                  refl,
                  grant-Granted w token now tid rest t s (k tid t e) e (pending_of t p),
                ))
          | inr p ↦ rw (p, if◌then◌else◌) (grab_from-first w token now rest s k)
        ])
]

-- Where each task is under its own id, `grab` hands out the first task of the queue that is still
-- pending, or nothing if there is none. The task runs from then on under the fresh token and is
-- marked to be saved; the worker is told the task's type, payload, token and event offset.
pub grab-first_pending :
    (w token now : ℕ) (s : Pool)
    → Keyed s.tasks
    → ((first_pending s.queue s.tasks ≡ none) × ((grab w token now s).1 ≡ none))
      ⊎ ((tid : ℕ) × (first_pending s.queue s.tasks ≡ some tid)
          × Granted w token now tid s (grab w token now s))
unfolding grab
grab-first_pending w token now s k = grab_from-first w token now s.queue s k
