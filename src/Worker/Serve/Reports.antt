-- ===== src/Worker/Serve/Reports.antt =====
-- The server has what the worker reports.
use gh_pool.Base.{
  ℕ, ◌≡◌, refl, true, false, Option, some, List, [], ◌∷◌, arith, ◌==◌, ok, err, String, Bool-cases,
  ◌⊎◌, inl, inr, ◌∙◌, ap,
}
use gh_pool.Base.Dict.{Dict, lookup, put, lookup-put_self}
use gh_pool.Pool.Status.{
  TaskStatus, pending, running, done, failed, cancelled, lost, is_reportable, is_finished, text,
  from_text,
}
use gh_pool.Pool.State.{Task, Pool}
use gh_pool.Pool.Queue.{http, owned}
use gh_pool.Pool.Tasks.{complete, complete_owned, finish_task, reported}
use gh_pool.Pool.Tasks.Fencing.{finish_task-tasks, owned_finished, reportable_stops}
use gh_pool.Worker.Serve.{Exit, Flags, outcome, report, serve_end}

from_text-text : (st : TaskStatus) → from_text (text st) ≡ some st
unfolding from_text text
from_text-text pending = refl
from_text-text running = refl
from_text-text done = refl
from_text-text failed = refl
from_text-text cancelled = refl
from_text-text lost = refl

outcome-reportable : (x : Exit) (f : Flags) → is_reportable (outcome x f).0 ≡ true
unfolding outcome is_reportable
outcome-reportable x f = ground arith

-- The task is held with this token.
pub record IsHeld (tid token : ℕ) (t : Task) (s : Pool) : Type 0 where
  pub there : lookup tid s.tasks ≡ some t
  pub mine : t.lease_token ≡ some token
  pub runs : t.row.status ≡ running
  pub real : (token == 0) ≡ false

owned-IsHeld :
    (tid token : ℕ) (t : Task) (s : Pool)
    → IsHeld tid token t s
    → owned tid (some token) s ≡ (s, ok t)
unfolding owned
owned-IsHeld tid token t s h = rw (h.there, owned) (ground (arith, h.mine, h.real))

-- The first report is taken.
complete-IsHeld :
    (tid token : ℕ) (status : TaskStatus) (error : Option String) (now : ℕ) (t : Task) (s : Pool)
    → IsHeld tid token t s
    → is_reportable status ≡ true
    → (complete tid (some token) (text status) error now s).0 ≡ finish_task tid status error now t s
unfolding complete complete_owned is_finished
complete-IsHeld tid token status error now t s h r =
    ap (λ o. (complete_owned tid (from_text (text status)) error now o).0)
      (owned-IsHeld tid token t s h)
    ∙ ap (λ b. (complete_owned tid b error now (s, ok t)).0) (from_text-text status)
    ∙ rw (r, h.runs) refl

-- A later one is refused.
complete-refused :
    (tid token : ℕ) (body : String) (error : Option String) (now : ℕ) (s : Pool)
    → owned tid (some token) s ≡ (s, err (http 409))
    → (complete tid (some token) body error now s).0 ≡ s
unfolding complete complete_owned
complete-refused tid token body error now s e =
    ap (λ o. (complete_owned tid (from_text body) error now o).0) e

report-refused :
    (tid token : ℕ) (status : TaskStatus) (error : Option String) (times : List ℕ) (s : Pool)
    → owned tid (some token) s ≡ (s, err (http 409))
    → report tid token status error times s ≡ s
unfolding report
report-refused tid token status error [] s e = refl
report-refused tid token status error (now ∷ times) s e =
    ap (λ p. report tid token status error times p)
      (complete-refused tid token (text status) error now s e)
    ∙ report-refused tid token status error times s e

-- However often it is taken, a report writes what its first time writes.
report-IsHeld :
    (tid token : ℕ) (status : TaskStatus) (error : Option String) (now : ℕ) (times : List ℕ)
    (t : Task) (s : Pool)
    → IsHeld tid token t s
    → is_reportable status ≡ true
    → report tid token status error (now ∷ times) s ≡ finish_task tid status error now t s
unfolding report
report-IsHeld tid token status error now times t s h r =
    let s' = finish_task tid status error now t s in
    let held : lookup tid s'.tasks ≡ some (reported status error now t) =
      rw (finish_task-tasks tid status error now t s)
        (lookup-put_self tid (reported status error now t) s.tasks) in
    let closed : owned tid (some token) s' ≡ (s', err (http 409)) =
      owned_finished tid (some token) (reported status error now t) s' held
        (unfold reported in refl) (unfold reported in reportable_stops status r) in
    ap (λ p. report tid token status error times p)
      (complete-IsHeld tid token status error now t s h r)
    ∙ report-refused tid token status error times s' closed

-- What the server has under a task after its worker's end.
abbrev pub Recorded : ℕ → ℕ → Task → Pool → Option String → Pool × TaskStatus → Dict Task → Type 0
Recorded tid now t s error r after =
    (is_reportable r.1 ≡ true) × (after ≡ put tid (reported r.1 error now t) s.tasks)

-- A worker that holds a running task and whose lease is not stale ends it on the server with the
-- status that it counts itself, which is done, failed or cancelled, with the time of the first report,
-- however often the server takes the report before its answer arrives; no other task is changed. With
-- a stale lease it counts the task as lost and the server is left as it is; and if the server has
-- taken the lease away without the worker's knowing, the report changes nothing.
pub serve_end-Recorded :
    (tid token : ℕ) (x : Exit) (f : Flags) (now : ℕ) (times : List ℕ) (t : Task) (s : Pool)
    → IsHeld tid token t s ⊎ (owned tid (some token) s ≡ (s, err (http 409)))
    → ((serve_end tid token x f (now ∷ times) s ≡ (s, lost)) × (f.stale ≡ true))
      ⊎ ((f.stale ≡ false)
          × Recorded tid now t s
              (outcome x f).1
              (serve_end tid token x f (now ∷ times) s)
              (serve_end tid token x f (now ∷ times) s).0.tasks)
      ⊎ ((f.stale ≡ false)
          × (owned tid (some token) s ≡ (s, err (http 409)))
          × ((serve_end tid token x f (now ∷ times) s).0 ≡ s))
unfolding serve_end
serve_end-Recorded tid token x f now times t s h = elim (Bool-cases f.stale) [
  | inl e ↦ rw (e, serve_end) (inl (refl, refl))
  | inr e ↦ elim h [
    | inl held ↦
        let r = outcome-reportable x f in
        let whole = report-IsHeld tid token (outcome x f).0 (outcome x f).1 now times t s held r in
        rw (e, serve_end)
          (inr (
            inl (
              refl,
              (
                r,
                ap (λ p. p.tasks) whole
                    ∙ finish_task-tasks tid (outcome x f).0 (outcome x f).1 now t s,
              ),
            )))
    | inr gone ↦
        rw (e, serve_end)
          (inr (
            inr (
              refl,
              gone,
              report-refused tid token (outcome x f).0 (outcome x f).1 (now ∷ times) s gone,
            )))
  ]
]
