-- ===== src/Fleet/Http.antt =====
-- fleet/runners/http.py: one call of GitHub's API, with its retries. What the network answers to each
-- attempt is an argument, with the clocks at the time and whether the pause after it found the stop
-- flag set; the length of that pause is left out.
pub mod Retries
use gh_pool.Base.{
  ℕ, zero, suc, ◌+◌, Bool, true, false, Option, none, some, if◌then◌else◌, ltb, ◌==◌, ◌&&◌, ◌||◌,
  not, Result, ok, err,
}
use gh_pool.Fleet.Budget.{Budget, Headers, observe, refuse, shut}

-- What urlopen gives: a reply, an HTTPError (`marked` is a marker of the limit in its body), or
-- another exception.
pub data Answer : Type 0 where
  replied : ℕ → Headers → Answer
  refused : (status : ℕ) → Headers → (marked : Bool) → Answer
  broken : Answer

pub record Attempt : Type 0 where
  pub answer : Answer
  pub now : ℕ
  pub wall : ℕ
  pub stopping : Bool

-- RateLimited with its wait, HttpError with its status, RunnerError at the end of the attempts.
pub data FetchError : Type 0 where
  rate_limited : ℕ → FetchError
  http_error : ℕ → FetchError
  gave_up : FetchError

-- RETRY_STATUSES
unfoldable pub is_retry_status : ℕ → Bool
is_retry_status n = n == 408 || n == 429 || n == 500 || n == 502 || n == 503 || n == 504

-- RATE_STATUSES
unfoldable pub is_rate_status : ℕ → Bool
is_rate_status n = n == 403 || n == 429

-- guard, for a fetch that is given a budget.
unfoldable pub guard : ℕ → Option Budget → ℕ
unfolding shut
guard now none = 0
guard now (some b) = shut now b

-- budget.observe, where there is one.
unfoldable pub observed : Attempt → Headers → Option Budget → Option Budget
unfolding observe
observed a h none = none
observed a h (some b) = some (observe a.now a.wall h b)

-- budget.refuse, where there is one.
unfoldable pub refused_by : Attempt → ℕ → Headers → Bool → Option Budget → Option Budget × ℕ
unfolding refuse
refused_by a status h marked none = (none, 0)
refused_by a status h marked (some b) =
    let (b', waiting) = refuse a.now a.wall (is_rate_status status) h marked b in (some b', waiting)

-- The budget, the number of requests made, and the end.
pub record Fetched : Type 0 where
  pub budget : Option Budget
  pub made : ℕ
  pub result : Result FetchError ℕ

-- The end of a round: the last attempt, a second stop, or the next round.
unfoldable pub again : Bool → Bool → Bool → Fetched → Fetched → Fetched
again last stopping hurried given_up rest = if last || stopping && hurried then given_up else rest

-- One answer: the end of the loop, or what comes after the attempt.
unfoldable pub judge : Attempt → Answer → ℕ → Option Budget → (Option Budget → Fetched) → Fetched
unfolding observed refused_by
judge a (replied status h) n b next = record {
  budget = observed a h b;
  made = suc n;
  result = ok status;
}
judge a broken n b next = next b
judge a (refused status h marked) n b next =
    let (b', waiting) = refused_by a status h marked (observed a h b) in
    if ltb 0 waiting
    then record { budget = b'; made = suc n; result = err (rate_limited waiting) }
    else if not (is_retry_status status)
    then record { budget = b'; made = suc n; result = err (http_error status) }
    else next b'

-- The loop of fetch, from attempt `n` on, with `left` attempts.
unfoldable pub fetch_from : (ℕ → Attempt) → ℕ → ℕ → Bool → Option Budget → Fetched
unfolding judge again
fetch_from net zero n hurried b = record { budget = b; made = n; result = err gave_up }
fetch_from net (suc left) n hurried b =
    let a = net n in
    judge a a.answer n b (λ b'.
      again (left == 0) a.stopping hurried
        (record { budget = b'; made = suc n; result = err gave_up })
        (fetch_from net left (suc n) (hurried || a.stopping) b'))

-- fetch
unfoldable pub fetch : (ℕ → Attempt) → ℕ → ℕ → Option Budget → Fetched
unfolding guard fetch_from
fetch net now attempts b =
    let waiting = guard now b in
    if ltb 0 waiting
    then record { budget = b; made = 0; result = err (rate_limited waiting) }
    else fetch_from net attempts 0 false b
