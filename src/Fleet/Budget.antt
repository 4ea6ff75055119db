-- ===== src/Fleet/Budget.antt =====
-- fleet/runners/budget.py: the limit of GitHub's REST API. Seconds are numbers; the headers are
-- read already, a text that is no number being none.
pub mod Closing
use gh_pool.Base.{
  ℕ, ◌+◌, ◌-◌, min, max, Bool, true, false, Option, none, some, if◌then◌else◌, ◌==◌, ◌||◌,
}

pub record Budget : Type 0 where
  pub left : Option ℕ
  pub reset_at : ℕ
  pub closed_until : ℕ

pub record Headers : Type 0 where
  pub retry_after : Option ℕ
  pub remaining : Option ℕ
  pub reset : Option ℕ

-- RATE_WINDOW, RATE_BLIND_WAIT
abbrev pub rate_window : ℕ
rate_window = 3600

abbrev pub rate_blind_wait : ℕ
rate_blind_wait = 60

-- Budget.observe: `now` is the monotonic clock and `wall` the time of day.
unfoldable pub observe : ℕ → ℕ → Headers → Budget → Budget
observe now wall h b = elim h.remaining [
  | none ↦ b
  | some left ↦ record b {
    left = some left;
    reset_at = elim h.reset [ none ↦ b.reset_at | some at ↦ now + (at - wall) ];
  }
]

-- The wait until the reset, where nothing remains and its time is told.
until_reset : ℕ → Option ℕ → Option ℕ → Option ℕ
until_reset wall (some left) (some at) = if left == 0 then some (at - wall) else none
until_reset wall (some left) none = none
until_reset wall none _ = none

-- The wait that the headers, or a marker in the body, ask for.
unfoldable pub asked_wait : ℕ → Headers → Bool → Option ℕ
unfolding until_reset
asked_wait wall h marked = elim h.retry_after [
  | some wait ↦ some wait
  | none ↦ elim (until_reset wall h.remaining h.reset) [
    | some wait ↦ some wait
    | none ↦ if marked then some rate_blind_wait else none
  ]
]

-- Budget.refuse: `limited` is whether the status is one of RATE_STATUSES.
unfoldable pub refuse : ℕ → ℕ → Bool → Headers → Bool → Budget → Budget × ℕ
unfolding asked_wait
refuse now wall limited h marked b =
    if limited
    then elim (asked_wait wall h marked) [
      | none ↦ (b, 0)
      | some wait ↦
          let closed = max b.closed_until (now + min (max wait 1) rate_window) in
          (record b { left = some 0; closed_until = closed }, closed - now)
    ]
    else (b, 0)

-- Budget.shut
unfoldable pub shut : ℕ → Budget → ℕ
shut now b = b.closed_until - now
