-- ===== src/Pool/World/Safe.antt =====
-- Every reachable world is safe.
use gh_pool.Pool.Status.{from_text}
use gh_pool.Base.{ok, ℕ, ◌≡◌, refl, true, false, some, List, [], ◌∷◌, arith, inl, subst, sym}
use gh_pool.Base.Dict.{Dict, lookup, put, lookup-put}
use gh_pool.Pool.State.{Row, Pool, boot}
use gh_pool.Pool.Queue.{from_row}
use gh_pool.Pool.Tasks.{lease_wake}
use gh_pool.Pool.Client.{retried}
use gh_pool.Pool.Store.{Flush, save_tasks, taken}
use gh_pool.Pool.World.{
  World, Call, Step, Reach, settled, start, calls, recovers, flushes, fails, lands, here, next,
  leases, rounds, wakes, beats, appends, completes, owns, completes_late, appends_late, creates,
  cancels, cancels_read, retries, read_fails, sweeps,
}
use gh_pool.Pool.World.Pointwise.{AllFine}
use gh_pool.Pool.World.Workers.{
  lease_start-AllFine, lease_round-AllFine, heartbeat-AllFine, append_events-AllFine,
  complete-AllFine, complete_owned-AllFine, owned-AllFine, append_locked-AllFine,
}
use gh_pool.Pool.World.Clients.{enqueue-AllFine, create_task-AllFine, cancel_found-AllFine}
use gh_pool.Pool.World.Keeping.{sweep-AllFine, recover-AllFine}
use gh_pool.Pool.World.Flushing.{
  Within, cleared-AllFine, taken-Within, flush_begin-taken, flush_failed-AllFine,
  flush_done-AllFine,
}

-- The database has each row under its primary key.
abbrev pub IsKeyed : Dict Row → Type 0
IsKeyed d = (k : ℕ) (r : Row) → lookup k d ≡ some r → r.id ≡ k

-- Every task in memory is fine: it is under its own id, has a lease only while it runs, is in the
-- queue if it is pending, and is dirty unless the database has its columns or gets them from the
-- flush under way.
pub record IsSafe (w : World) : Type 0 where
  pub fine : AllFine (settled w) w.pool
  pub keyed : IsKeyed w.saved
  pub within : (f : Flush) → w.flight ≡ some f → Within f

save_tasks-IsKeyed : (rs : List Row) (d : Dict Row) → IsKeyed d → IsKeyed (save_tasks rs d)
unfolding save_tasks
save_tasks-IsKeyed [] d h = h
save_tasks-IsKeyed (r ∷ rs) d h =
    save_tasks-IsKeyed rs (put r.id r d) λ k r' e. ground (arith, h k r', lookup-put r.id k r d)

Call-AllFine : (after : Dict Row) {s s' : Pool} → Call s s' → AllFine after s → AllFine after s'
unfolding lease_wake from_row retried
Call-AllFine after {s} (leases w now) v = lease_start-AllFine after w now s v
Call-AllFine after {s} (rounds w token now left) v = lease_round-AllFine after w token now left s v
Call-AllFine after wakes v = λ j t e. v j t e
Call-AllFine after {s} (beats tid token now) v = heartbeat-AllFine after tid token now s v
Call-AllFine after {s} (appends c tid token offset body) v =
    append_events-AllFine after c tid token offset body s v
Call-AllFine after {s} (completes tid token status error now) v =
    complete-AllFine after tid token status error now s v
Call-AllFine after {s} (owns tid token) v = owned-AllFine after tid token s v
Call-AllFine after {s} (completes_late tid t status error now e) v =
    complete_owned-AllFine after tid (from_text status) error now (s, ok t) e v
Call-AllFine after {s} (appends_late c tid offset body) v =
    append_locked-AllFine after c tid offset body s v
Call-AllFine after {s} (creates c tid type payload parent now fresh) v =
    create_task-AllFine after c tid type payload parent now s v
Call-AllFine after {s} (cancels tid now t e) v =
    cancel_found-AllFine after tid false now t s (v tid t e).keyed (v tid t e).leased v
Call-AllFine after {s} (cancels_read tid now r e) v =
    cancel_found-AllFine after tid true now (from_row r) s e (inl refl) v
Call-AllFine after {s} (retries tid nid now r fresh) v =
    enqueue-AllFine after nid (retried tid nid now r) s refl v
Call-AllFine after read_fails v = λ j t e. v j t e
Call-AllFine after {s} (sweeps c now) v = sweep-AllFine after c now s v

-- Each step keeps the world safe.
Step-IsSafe : {w x : World} → Step w x → IsSafe w → IsSafe x
Step-IsSafe {w} (calls c) v = record {
  fine = Call-AllFine (settled w) c v.fine;
  keyed = v.keyed;
  within = v.within;
}
Step-IsSafe {w} (recovers now idle) v = record {
  fine =
      recover-AllFine (settled w) now w.saved w.pool
        (λ k r e. (v.keyed k r e, rw (idle, settled) e)) v.fine;
  keyed = v.keyed;
  within = v.within;
}
Step-IsSafe {w} (flushes f idle e) v =
    let (p, q) = flush_begin-taken w.saved w.pool e in
    let fine : AllFine w.saved w.pool = rw (idle, settled) at v.fine in
    rw (p, q)
      (record {
        fine = cleared-AllFine w.saved w.pool fine;
        keyed = v.keyed;
        within = λ g e'.
            let same : taken w.pool ≡ g = cc in
            subst Within same (taken-Within w.saved w.pool fine);
      })
Step-IsSafe {w} (fails f true e) v = record {
  fine =
      flush_failed-AllFine f (save_tasks f.rows w.saved) (save_tasks f.rows w.saved) w.pool
        (λ j m. refl) (rw (e, settled) at v.fine);
  keyed = save_tasks-IsKeyed f.rows w.saved v.keyed;
  within = λ g e'. cc;
}
Step-IsSafe {w} (fails f false e) v = record {
  fine =
      flush_failed-AllFine f (save_tasks f.rows w.saved) w.saved w.pool
        (λ j m. sym (v.within f e j w.saved m)) (rw (e, settled) at v.fine);
  keyed = v.keyed;
  within = λ g e'. cc;
}
Step-IsSafe {w} (lands f e) v = record {
  fine = flush_done-AllFine f (save_tasks f.rows w.saved) w.pool (rw (e, settled) at v.fine);
  keyed = save_tasks-IsKeyed f.rows w.saved v.keyed;
  within = λ g e'. cc;
}

-- A new process over a database that has each row under its primary key is safe, and so is every
-- world that any interleaving of requests, keeper passes, recoveries and failing or succeeding
-- flushes reaches from it. Safe means that every task in memory is under its own id, has a lease
-- only while it runs, waits in the queue if it is pending, and is marked to be saved unless the
-- database has all its columns, or gets them from the flush under way.
pub Reach-IsSafe :
    (now : ℕ) (files : Dict (List ℕ)) (saved : Dict Row) {w : World}
    → IsKeyed saved
    → Reach (start now files saved) w
    → IsSafe w
unfolding boot lookup
Reach-IsSafe now files saved k here = record { fine = λ j t e. cc; keyed = k; within = λ f e. cc }
Reach-IsSafe now files saved k (next r s) = Step-IsSafe s (Reach-IsSafe now files saved k r)
