-- ===== src/Worker/Serve.antt =====
-- The worker's side of a lease: what req makes of an answer, the heartbeats, how a task ends, and its
-- report to the server. The process, its signals and the clocks are arguments.
pub mod Reports
use gh_pool.Base.{
  ℕ, zero, suc, Bool, true, false, Option, none, some, List, [], ◌∷◌, if◌then◌else◌, ltb, ◌==◌,
  ◌&&◌, ◌||◌, not, Result, ok, err, String,
}
use gh_pool.Pool.Status.{TaskStatus, done, failed, cancelled, lost, text}
use gh_pool.Pool.State.{Pool}
use gh_pool.Pool.Queue.{HttpError}
use gh_pool.Pool.Tasks.{complete}

-- What becomes of a request: its answer, Permanent, or another try. No status is a broken connection.
pub data Verdict : Type 0 where
  returns permanent : ℕ → Verdict
  repeats : Verdict

-- req, on one answer
unfoldable pub verdict : Option ℕ → Verdict
verdict none = repeats
verdict (some code) =
    if ltb code 400 || code == 204 || code == 409
    then returns code
    else if ltb code 500 && not (code == 429)
    then permanent code
    else repeats

-- req: the answer that ends it, of those that come; none if all are repeated.
unfoldable pub request : List (Option ℕ) → Option (Result ℕ ℕ)
unfolding verdict
request [] = none
request (answer ∷ answers) =
    let rest = request answers in
    elim (verdict answer) [
      | returns code ↦ some (ok code)
      | permanent code ↦ some (err code)
      | repeats ↦ rest
    ]

-- The two events that a heartbeat sets.
pub record Flags : Type 0 where
  pub cancel : Bool
  pub stale : Bool

-- What req gives a heartbeat, and what an answer of 200 says of a cancel.
pub data Beat : Type 0 where
  rejected : Beat
  answered : ℕ → Bool → Beat

-- heartbeat: the events after these beats, and whether it beats on.
unfoldable pub heartbeats : List Beat → Flags → Flags × Bool
heartbeats [] f = (f, true)
heartbeats (rejected ∷ beats) f = (record f { stale = true }, false)
heartbeats (answered code cancel ∷ beats) f =
    let rest = heartbeats beats f in
    if code == 409
    then (record f { stale = true }, false)
    else if cancel
    then (record f { cancel = true }, false)
    else rest

-- How the process of a task came to its end: by itself, or after it was told to stop; its exit code
-- is none for 0, and otherwise the text that tells of it.
pub record Exit : Type 0 where
  pub killed : Bool
  pub code : Option String

-- The status of a task that is reported, and its error.
unfoldable pub outcome : Exit → Flags → TaskStatus × Option String
outcome x f =
    if x.killed && f.cancel
    then (cancelled, some "cancelled by client")
    else elim x.code [ none ↦ (done, none) | some told ↦ (failed, some told) ]

-- The report, which the server takes at each of these times before the answer that arrives.
unfoldable pub report : ℕ → ℕ → TaskStatus → Option String → List ℕ → Pool → Pool
report tid token status error [] s = s
report tid token status error (now ∷ times) s =
    report tid token status error times (complete tid (some token) (text status) error now s).0

-- _serve, from the process's end on: a stale lease is not reported.
unfoldable pub serve_end : ℕ → ℕ → Exit → Flags → List ℕ → Pool → Pool × TaskStatus
unfolding outcome report
serve_end tid token x f times s =
    let (status, error) = outcome x f in
    if f.stale then (s, lost) else (report tid token status error times s, status)
