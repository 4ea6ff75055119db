-- ===== src/Fleet/Http/Retries.antt =====
-- Which requests fetch makes, and how it ends.
use gh_pool.Base.{
  ℕ, zero, suc, ◌+◌, ◌-◌, ◌≤◌, ◌<◌, ◌≡◌, refl, Bool, true, false, Option, none, some, arith, ltb,
  ◌==◌, ◌&&◌, ◌||◌, not, Result, ok, err, ◌⊎◌, inl, inr, Bool-cases, Option-cases, sym, ◌∙◌, ap,
  subst,
}
use gh_pool.Fleet.Budget.{Budget, Headers, refuse, asked_wait}
use gh_pool.Fleet.Http.{
  Answer, Attempt, FetchError, Fetched, is_retry_status, is_rate_status, guard, observed,
  refused_by, again, judge, fetch_from, fetch, replied, refused, broken, rate_limited, http_error,
  gave_up,
}

abbrev pub is_some {ℓ} : {A : Type ℓ} → Option A → Bool
is_some none = false
is_some (some a) = true

-- The answer tells a fetch with a budget to wait for the limit, whatever the budget is.
abbrev pub asks : Bool → Attempt → Answer → Bool
asks budgeted a (replied status h) = false
asks budgeted a broken = false
asks budgeted a (refused status h marked) =
    budgeted && (is_rate_status status && is_some (asked_wait a.wall h marked))

-- The answer is one after which the request is made again.
abbrev pub is_retried : Bool → Attempt → Answer → Bool
is_retried budgeted a (replied status h) = false
is_retried budgeted a broken = true
is_retried budgeted a (refused status h marked) =
    is_retry_status status && not (asks budgeted a (refused status h marked))

-- Why a fetch ends with its attempt `last`, at most `bound` attempts being made: for its end, what
-- the last answer was; in the end of the attempts, that they were used up, or two pauses found stop.
abbrev pub Ended : Bool → (ℕ → Attempt) → ℕ → ℕ → Result FetchError ℕ → Type 0
Ended budgeted net bound last (ok status) = (h : Headers) × ((net last).answer ≡ replied status h)
Ended budgeted net bound last (err (rate_limited waiting)) =
    (asks budgeted (net last) (net last).answer ≡ true) × (0 < waiting)
Ended budgeted net bound last (err (http_error status)) =
    (h : Headers) × (marked : Bool) × ((net last).answer ≡ refused status h marked)
    × (is_retry_status status ≡ false)
    × (asks budgeted (net last) (net last).answer ≡ false)
Ended budgeted net bound last (err gave_up) =
    (is_retried budgeted (net last) (net last).answer ≡ true)
    × ((suc last ≡ bound)
        ⊎ ((net last).stopping ≡ true) × (j : ℕ) × (j < last) × ((net j).stopping ≡ true))

-- The requests of a fetch from its attempt `n` on, with `k` any attempt.
pub record Trace (budgeted : Bool) (net : ℕ → Attempt) (n bound k : ℕ) (f : Fetched) : Type 0 where
  pub ran : suc n ≤ f.made
  pub within : f.made ≤ bound
  pub before : (k < n) ⊎ (f.made ≤ suc k) ⊎ (is_retried budgeted (net k) (net k).answer ≡ true)
  pub ended : Ended budgeted net bound (f.made - 1) f.result

refuse-asks :
    (now wall : ℕ) (limited : Bool) (h : Headers) (marked : Bool) (b : Budget)
    → ltb 0 (refuse now wall limited h marked b).1 ≡ (limited && is_some (asked_wait wall h marked))
unfolding refuse
refuse-asks now wall false h marked b = refl
refuse-asks now wall true h marked b = elim (Option-cases (asked_wait wall h marked)) [
  | inl e ↦ rw (e, refuse) refl
  | inr (w, e) ↦ rw (e, refuse) (ground arith)
]

is_some-observed :
    (a : Attempt) (h : Headers) (b : Option Budget) → is_some (observed a h b) ≡ is_some b
unfolding observed
is_some-observed a h none = refl
is_some-observed a h (some b) = refl

is_some-refused_by :
    (a : Attempt) (status : ℕ) (h : Headers) (marked : Bool) (b : Option Budget)
    → is_some (refused_by a status h marked b).0 ≡ is_some b
unfolding refused_by
is_some-refused_by a status h marked none = refl
is_some-refused_by a status h marked (some b) = refl

refused_by-asks :
    (a : Attempt) (status : ℕ) (h : Headers) (marked : Bool) (b : Option Budget)
    → ltb 0 (refused_by a status h marked b).1 ≡ asks (is_some b) a (refused status h marked)
unfolding refused_by
refused_by-asks a status h marked none = refl
refused_by-asks a status h marked (some b) =
    refuse-asks a.now a.wall (is_rate_status status) h marked b

abbrev given_up : Option Budget → ℕ → Fetched
given_up b n = record { budget = b; made = suc n; result = err gave_up }

-- The loop ends with attempt `n`.
here-Trace :
    (budgeted : Bool) (net : ℕ → Attempt) (n left k : ℕ) (b : Option Budget)
    (r : Result FetchError ℕ)
    → Ended budgeted net (n + suc left) n r
    → Trace budgeted net n (n + suc left) k (record { budget = b; made = suc n; result = r })
here-Trace budgeted net n left k b r e =
    let last : suc n - 1 ≡ n = omega arith in
    record {
      ran = omega arith;
      within = omega arith;
      before = ground arith;
      ended = subst (λ m. Ended budgeted net (n + suc left) m r) (sym last) e;
    }

-- The loop goes on after attempt `n`.
there-Trace :
    (budgeted : Bool) (net : ℕ → Attempt) (n bound k : ℕ) (f : Fetched)
    → is_retried budgeted (net n) (net n).answer ≡ true
    → Trace budgeted net (suc n) bound k f
    → Trace budgeted net n bound k f
there-Trace budgeted net n bound k f r t = record {
  ran = omega (arith, t.ran);
  within = t.within;
  before = elim t.before [
    | inl l ↦ elim (Bool-cases (k == n)) [
      | inl e ↦
          let same : k ≡ n = ground arith in
          inr (inr (subst (λ m. is_retried budgeted (net m) (net m).answer ≡ true) (sym same) r))
      | inr e ↦ inl (ground arith)
    ]
    | inr o ↦ inr o
  ];
  ended = t.ended;
}

-- A pause before attempt `n` has found the stop flag set, if the loop is hurried.
abbrev Hurried : (ℕ → Attempt) → ℕ → Bool → Type 0
Hurried net n hurried = (hurried ≡ false) ⊎ (j : ℕ) × (j < n) × ((net j).stopping ≡ true)

hurry :
    (net : ℕ → Attempt) (n : ℕ) (hurried : Bool)
    → Hurried net n hurried
    → Hurried net (suc n) (hurried || (net n).stopping)
hurry net n hurried (inr (j, l, e)) = inr (j, omega arith, e)
hurry net n hurried (inl f) = elim (Bool-cases (net n).stopping) [
  | inl e ↦ inr (n, omega arith, e)
  | inr e ↦ rw (f, e) (inl refl)
]

again-Trace :
    (budgeted : Bool) (net : ℕ → Attempt) (n left k : ℕ) (hurried : Bool) (b : Option Budget)
    (rest : Fetched)
    → is_retried budgeted (net n) (net n).answer ≡ true
    → Hurried net n hurried
    → (left ≡ 0) ⊎ Trace budgeted net (suc n) (n + suc left) k rest
    → Trace budgeted net n
        (n + suc left)
        k
        (again (left == 0) (net n).stopping hurried (given_up b n) rest)
unfolding again
again-Trace budgeted net n left k hurried b rest r h (inl e) =
    rw e (here-Trace budgeted net n 0 k b (err gave_up) (r, inl (omega arith)))
again-Trace budgeted net n left k hurried b rest r h (inr t) = elim (Bool-cases (left == 0)) [
  | inl e ↦
      let used_up : suc n ≡ n + suc left = ground arith in
      rw (e, again) (here-Trace budgeted net n left k b (err gave_up) (r, inl used_up))
  | inr e ↦ elim h [
    | inl f ↦
        rw (e, f, again)
          (elim (Bool-cases (net n).stopping) [
            | inl g ↦ rw (g, again) (there-Trace budgeted net n (n + suc left) k rest r t)
            | inr g ↦ rw (g, again) (there-Trace budgeted net n (n + suc left) k rest r t)
          ])
    | inr (j, l, m) ↦ elim (Bool-cases ((net n).stopping && hurried)) [
      | inl g ↦
          let stops : (net n).stopping ≡ true = ground arith in
          rw (e, g, again)
            (here-Trace budgeted net n left k b (err gave_up) (r, inr (stops, j, l, m)))
      | inr g ↦ rw (e, g, again) (there-Trace budgeted net n (n + suc left) k rest r t)
    ]
  ]
]

Answer-cases :
    (x : Answer)
    → ((status : ℕ) × (h : Headers) × (x ≡ replied status h))
      ⊎ ((status : ℕ) × (h : Headers) × (marked : Bool) × (x ≡ refused status h marked))
      ⊎ (x ≡ broken)
Answer-cases (replied status h) = inl (status, h, refl)
Answer-cases (refused status h marked) = inr (inl (status, h, marked, refl))
Answer-cases broken = inr (inr refl)

judge-Trace :
    (budgeted : Bool) (net : ℕ → Attempt) (n left k : ℕ) (b : Option Budget)
    (next : Option Budget → Fetched)
    → ((b' : Option Budget)
        → is_some b' ≡ budgeted
        → is_retried budgeted (net n) (net n).answer ≡ true
        → Trace budgeted net n (n + suc left) k (next b'))
    → is_some b ≡ budgeted
    → Trace budgeted net n (n + suc left) k (judge (net n) (net n).answer n b next)
unfolding judge
judge-Trace budgeted net n left k b next go e = elim (Answer-cases (net n).answer) [
  | inl (status, h, x) ↦
      rw (x, judge) (here-Trace budgeted net n left k (observed (net n) h b) (ok status) (h, x))
  | inr (inr x) ↦
      let retried : is_retried budgeted (net n) (net n).answer ≡ true = rw x refl in
      rw (x, judge) (go b e retried)
  | inr (inl (status, h, marked, x)) ↦
      let seen = observed (net n) h b in
      let kept : is_some seen ≡ budgeted = is_some-observed (net n) h b ∙ e in
      let told = refused_by-asks (net n) status h marked seen in
      let asked : asks (is_some seen) (net n) (refused status h marked)
          ≡ asks budgeted (net n) (net n).answer =
        rw x (ap (λ c. asks c (net n) (refused status h marked)) kept) in
      let waiting = (refused_by (net n) status h marked seen).1 in
      elim (Bool-cases (ltb 0 waiting)) [
        | inl g ↦
            rw (x, judge, g)
              (here-Trace budgeted net n left k (refused_by (net n) status h marked seen).0
                (err (rate_limited waiting)) (sym asked ∙ sym told ∙ g, ground arith))
        | inr g ↦
            let calm : asks budgeted (net n) (net n).answer ≡ false = sym asked ∙ sym told ∙ g in
            elim (Bool-cases (is_retry_status status)) [
              | inl s ↦
                  let quiet : asks budgeted (net n) (refused status h marked) ≡ false =
                    ap (λ c. asks c (net n) (refused status h marked)) (sym kept) ∙ sym told ∙ g in
                  let retried : is_retried budgeted (net n) (net n).answer ≡ true =
                    rw x (rw s (ap not quiet)) in
                  rw (x, judge, g, s)
                    (go (refused_by (net n) status h marked seen).0
                      (is_some-refused_by (net n) status h marked seen ∙ kept) retried)
              | inr s ↦
                  rw (x, judge, g, s)
                    (here-Trace budgeted net n left k (refused_by (net n) status h marked seen).0
                      (err (http_error status)) (h, marked, x, s, calm))
            ]
      ]
]

fetch_from-Trace :
    (budgeted : Bool) (net : ℕ → Attempt) (left n k : ℕ) (hurried : Bool) (b : Option Budget)
    → is_some b ≡ budgeted
    → Hurried net n hurried
    → Trace budgeted net n (n + suc left) k (fetch_from net (suc left) n hurried b)
unfolding fetch_from
fetch_from-Trace budgeted net zero n k hurried b e h =
    judge-Trace budgeted net n 0 k b
      (λ b'.
        again true (net n).stopping hurried (given_up b' n)
          (fetch_from net 0 (suc n) (hurried || (net n).stopping) b'))
      (λ b' e' r.
        again-Trace budgeted net n 0 k hurried b'
          (fetch_from net 0 (suc n) (hurried || (net n).stopping) b') r h (inl refl))
      e
fetch_from-Trace budgeted net (suc left) n k hurried b e h =
    judge-Trace budgeted net n (suc left) k b
      (λ b'.
        again (suc left == 0) (net n).stopping hurried (given_up b' n)
          (fetch_from net (suc left) (suc n) (hurried || (net n).stopping) b'))
      (λ b' e' r.
        let rest =
          fetch_from-Trace budgeted net left (suc n) k (hurried || (net n).stopping) b' e'
            (hurry net n hurried h) in
        let same : suc n + suc left ≡ n + suc (suc left) = omega arith in
        again-Trace budgeted net n (suc left) k hurried b'
          (fetch_from net (suc left) (suc n) (hurried || (net n).stopping) b') r h
          (inr (
            subst
              (λ m.
                Trace budgeted net (suc n) m k
                  (fetch_from net (suc left) (suc n) (hurried || (net n).stopping) b'))
              same rest)))
      e

-- A fetch whose budget is shut makes no request and tells how long. Any other makes at least one
-- and at most `attempts` requests, and each of them but the last had an answer after which the
-- request is made again: none at all, or a status to be retried that does not ask a fetch with a
-- budget to wait. It ends with the status of the last answer if that was a reply; rate-limited if
-- the last answer asks to wait, with a wait above nothing; with the status as an error if that is
-- none to be retried and asks for no wait; and it gives up where the last answer was to be retried,
-- the attempts being used up, or its pause and an earlier one having found the stop flag set.
pub fetch-Trace :
    (net : ℕ → Attempt) (now attempts k : ℕ) (b : Option Budget)
    → ((0 < guard now b)
        × ((fetch net now (suc attempts) b).made ≡ 0)
        × ((fetch net now (suc attempts) b).result ≡ err (rate_limited (guard now b))))
      ⊎ ((guard now b ≡ 0)
          × Trace (is_some b) net 0 (suc attempts) k (fetch net now (suc attempts) b))
unfolding fetch
fetch-Trace net now attempts k b = elim (Bool-cases (ltb 0 (guard now b))) [
  | inl e ↦ rw (e, fetch) (inl (ground arith, refl, refl))
  | inr e ↦
      let from_start = fetch_from-Trace (is_some b) net attempts 0 k false b refl (inl refl) in
      let bound : 0 + suc attempts ≡ suc attempts = omega arith in
      rw (e, fetch)
        (inr (
          ground arith,
          subst (λ m. Trace (is_some b) net 0 m k (fetch_from net (suc attempts) 0 false b)) bound
              from_start,
        ))
]
