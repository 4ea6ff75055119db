-- ===== src/Fleet/Controller.antt =====
-- fleet/runners/controller.py and session.py: the loop of a controller, over its message session.
-- What GitHub answers in a turn is an argument, and so is how the tick ends (Fleet.Messages.tick);
-- the waits between the turns are left out.
pub mod Failures
use gh_pool.Base.{
  ℕ, zero, suc, ◌+◌, Bool, true, false, Option, none, some, List, [], ◌∷◌, if◌then◌else◌, ltb, leb,
  ◌==◌, ◌||◌, Result, ok, err,
}
use gh_pool.Fleet.Http.{FetchError, rate_limited, http_error, gave_up}

-- MAX_LOOP_FAILURES, TOKEN_SKEW
abbrev pub max_loop_failures : ℕ
max_loop_failures = 5

abbrev pub token_skew : ℕ
token_skew = 300

-- SESSION_STATUSES
unfoldable pub is_session_status : ℕ → Bool
is_session_status n = n == 401 || n == 404 || n == 409

pub record Session : Type 0 where
  pub id : ℕ
  pub token_exp : ℕ

-- What a turn meets: the stop flag, the clock, what a refresh before it answers, how the tick ends
-- with the session and the last id, and, if the session is lost, a refresh and a reopen of it.
pub record Turn : Type 0 where
  pub stop : Bool
  pub now : ℕ
  pub early : Result FetchError Session
  pub tick : Session → ℕ → Result FetchError ℕ
  pub refreshed : Option Session
  pub reopened : Option Session

pub record Loop : Type 0 where
  pub session : Session
  pub last_id : ℕ
  pub failures : ℕ

-- fresh: the session as it is while its token is good for longer than the skew.
unfoldable pub fresh : Turn → Session → Result FetchError Session
fresh t session = if ltb (t.now + token_skew) session.token_exp then ok session else t.early

-- reopen, in recover: the session of before is kept where it fails; none is a reset of -1.
unfoldable pub reopen : Turn → Session → Session × Option ℕ
reopen t session = elim t.reopened [ none ↦ (session, none) | some new ↦ (new, some 0) ]

-- recover
unfoldable pub recover : Turn → ℕ → Session → Session × Option ℕ
unfolding reopen
recover t status session =
    if status == 401
    then elim t.refreshed [ some new ↦ (new, none) | none ↦ reopen t session ]
    else reopen t session

-- session = _fresh(ctx, session); last_id = _tick(ctx, session, last_id, stop): the session that the
-- turn has then, and how the tick ends.
unfoldable pub attempt : Turn → Loop → Session × Result FetchError ℕ
unfolding fresh
attempt t l = elim (fresh t l.session) [
  | err e ↦ (l.session, err e)
  | ok session ↦ (session, t.tick session l.last_id)
]

-- One failure more, or the exception again where that is one too many.
unfoldable pub count_failure : FetchError → Loop → Result FetchError Loop
count_failure e l =
    if leb max_loop_failures (suc l.failures)
    then err e
    else ok (record l { failures = suc l.failures })

-- After `except HttpError`: the session is recovered.
unfoldable pub recovered : Turn → ℕ → Loop → Loop
unfolding recover
recovered t status l =
    let (session, reset) = recover t status l.session in
    record l { session = session; last_id = elim reset [ none ↦ l.last_id | some n ↦ n ] }

unfoldable pub on_error : Turn → FetchError → Loop → Result FetchError Loop
unfolding count_failure recovered
on_error t (rate_limited waiting) l = ok (record l { failures = 0 })
on_error t gave_up l = count_failure gave_up l
on_error t (http_error status) l =
    if is_session_status status
    then elim (count_failure (http_error status) l) [
      | err e ↦ err e
      | ok l' ↦ ok (recovered t status l')
    ]
    else err (http_error status)

-- The try of one turn.
unfoldable pub turn : Turn → Loop → Result FetchError Loop
unfolding attempt on_error
turn t l =
    let (session, r) = attempt t l in
    let l' = record l { session = session } in
    elim r [
      | ok last_id ↦ ok (record l' { last_id = last_id; failures = 0 })
      | err e ↦ on_error t e l'
    ]

-- How the loop stands after the turns: still going, left because of the stop flag, or by an
-- exception.
pub data Stand : Type 0 where
  going : Loop → Stand
  stopped : Loop → Stand
  raised : FetchError → Stand

-- while not stop.is_set()
unfoldable pub turns : List Turn → Loop → Stand
unfolding turn
turns [] l = going l
turns (t ∷ ts) l =
    let next : Stand = elim (turn t l) [ err e ↦ raised e | ok l' ↦ turns ts l' ] in
    if t.stop then stopped l else next
