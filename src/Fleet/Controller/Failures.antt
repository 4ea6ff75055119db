-- ===== src/Fleet/Controller/Failures.antt =====
-- When the loop of a controller ends by an exception.
use gh_pool.Base.{
  ℕ, suc, ◌<◌, ◌≡◌, refl, Bool, true, false, List, [], ◌∷◌, if◌then◌else◌, arith, leb, Result, ok,
  err, ◌⊎◌, inl, inr, Bool-cases, Result-cases, subst,
}
use gh_pool.Fleet.Http.{FetchError, rate_limited, http_error, gave_up}
use gh_pool.Fleet.Controller.{
  Turn, Loop, Stand, going, stopped, raised, max_loop_failures, is_session_status, attempt,
  count_failure, recovered, on_error, turn, turns,
}

-- How a turn ends for the count of failures: well, also where GitHub's limit was met; badly, where
-- the loop may go on; or by an HTTP status that says nothing of the session.
pub data Mark : Type 0 where
  good bad fatal : Mark

abbrev pub mark_of : Result FetchError ℕ → Mark
mark_of (ok n) = good
mark_of (err (rate_limited w)) = good
mark_of (err gave_up) = bad
mark_of (err (http_error status)) = if is_session_status status then bad else fatal

-- The marks of the turns that are run.
unfoldable pub marks : List Turn → Loop → List Mark
marks [] l = []
marks (t ∷ ts) l =
    let m = mark_of (attempt t l).1 in
    let rest : List Mark = elim (turn t l) [ err e ↦ m ∷ [] | ok l' ↦ m ∷ marks ts l' ] in
    if t.stop then [] else rest

-- The bad turns at the end of them, after `n` others.
abbrev pub streak : ℕ → List Mark → ℕ
streak n [] = n
streak n (good ∷ ms) = streak 0 ms
streak n (bad ∷ ms) = streak (suc n) ms
streak n (fatal ∷ ms) = streak n ms

abbrev pub ends_fatal : List Mark → Bool
ends_fatal [] = false
ends_fatal (fatal ∷ []) = true
ends_fatal (m ∷ ms) = ends_fatal ms

-- What the marks say of how the loop stands.
abbrev pub Explains : ℕ → List Mark → Stand → Type 0
Explains n ms (going l) = (l.failures ≡ streak n ms) × (streak n ms < max_loop_failures)
Explains n ms (stopped l) = (l.failures ≡ streak n ms) × (streak n ms < max_loop_failures)
Explains n ms (raised e) = (ends_fatal ms ≡ true) ⊎ (streak n ms ≡ max_loop_failures)

-- How a turn is marked, by how it ends.
abbrev Marked : ℕ → Mark → Result FetchError Loop → Type 0
Marked n m (ok l) =
    ((m ≡ good) × (l.failures ≡ 0))
    ⊎ ((m ≡ bad) × (l.failures ≡ suc n) × (suc n < max_loop_failures))
Marked n m (err e) = (m ≡ fatal) ⊎ ((m ≡ bad) × (suc n ≡ max_loop_failures))

failures-recovered :
    (t : Turn) (status : ℕ) (l : Loop) → (recovered t status l).failures ≡ l.failures
unfolding recovered
failures-recovered t status l = refl

on_error-Marked :
    (t : Turn) (e : FetchError) (l : Loop)
    → l.failures < max_loop_failures
    → Marked l.failures (mark_of (err e)) (on_error t e l)
unfolding on_error count_failure
on_error-Marked t (rate_limited w) l h = inl (refl, refl)
on_error-Marked t gave_up l h = elim (Bool-cases (leb max_loop_failures (suc l.failures))) [
  | inl e ↦ rw (e, on_error, count_failure) (inr (refl, ground arith))
  | inr e ↦ rw (e, on_error, count_failure) (inr (refl, refl, ground arith))
]
on_error-Marked t (http_error status) l h = elim (Bool-cases (is_session_status status)) [
  | inr s ↦ rw (s, on_error) (inl refl)
  | inl s ↦ elim (Bool-cases (leb max_loop_failures (suc l.failures))) [
    | inl e ↦ rw (s, e, on_error, count_failure) (inr (refl, ground arith))
    | inr e ↦ rw (s, e, on_error, count_failure) (inr (refl, refl, ground arith))
  ]
]

turn-Marked :
    (t : Turn) (l : Loop)
    → l.failures < max_loop_failures
    → Marked l.failures (mark_of (attempt t l).1) (turn t l)
unfolding turn
turn-Marked t l h = elim (Result-cases (attempt t l).1) [
  | inl (n, e) ↦ rw (e, turn) (inl (refl, refl))
  | inr (x, e) ↦ rw (e, turn) (on_error-Marked t x (record l { session = (attempt t l).0 }) h)
]

Explains-good : (n : ℕ) (ms : List Mark) (s : Stand) → Explains 0 ms s → Explains n (good ∷ ms) s
Explains-good n ms (going l) x = x
Explains-good n ms (stopped l) x = x
Explains-good n ms (raised e) x = x

Explains-bad :
    (n : ℕ) (ms : List Mark) (s : Stand) → Explains (suc n) ms s → Explains n (bad ∷ ms) s
Explains-bad n ms (going l) x = x
Explains-bad n ms (stopped l) x = x
Explains-bad n ms (raised e) x = x

Explains-next :
    (n : ℕ) (m : Mark) (ms : List Mark) (l : Loop) (s : Stand)
    → Marked n m (ok l)
    → Explains l.failures ms s
    → Explains n (m ∷ ms) s
Explains-next n m ms l s (inl (g, z)) x =
    rw g (Explains-good n ms s (subst (λ k. Explains k ms s) z x))
Explains-next n m ms l s (inr (b, z, h)) x =
    rw b (Explains-bad n ms s (subst (λ k. Explains k ms s) z x))

fewer :
    (n : ℕ) (m : Mark) (l : Loop)
    → n < max_loop_failures
    → Marked n m (ok l)
    → l.failures < max_loop_failures
fewer n m l h (inl (g, z)) = omega (arith, z)
fewer n m l h (inr (b, z, k)) = omega (arith, z, k)

Explains-last :
    (n : ℕ) (m : Mark) (e : FetchError) → Marked n m (err e) → Explains n (m ∷ []) (raised e)
Explains-last n m e (inl f) = rw f (inl refl)
Explains-last n m e (inr (b, z)) = rw b (inr z)

-- A controller's loop ends by an exception only if its last turn met an HTTP status that says
-- nothing of the session, or if its last five turns have all failed. In all other turns it goes on,
-- or ends because of the stop flag, with its failures counted from the last turn that went well; a
-- turn that met GitHub's limit counts as one that went well.
pub turns-Explains :
    (ts : List Turn) (l : Loop)
    → l.failures < max_loop_failures
    → Explains l.failures (marks ts l) (turns ts l)
unfolding turns marks
turns-Explains [] l h = (refl, h)
turns-Explains (t ∷ ts) l h =
    let m = mark_of (attempt t l).1 in
    let told = turn-Marked t l h in
    elim (Bool-cases t.stop) [
      | inl s ↦ rw (s, turns, marks) (refl, h)
      | inr s ↦ elim (Result-cases (turn t l)) [
        | inl (l', e) ↦
            let k : Marked l.failures m (ok l') = rw e at told in
            rw (s, e, turns, marks)
              (Explains-next l.failures m (marks ts l') l' (turns ts l') k
                (turns-Explains ts l' (fewer l.failures m l' h k)))
        | inr (x, e) ↦
            let k : Marked l.failures m (err x) = rw e at told in
            rw (s, e, turns, marks) (Explains-last l.failures m x k)
      ]
    ]
