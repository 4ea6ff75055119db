-- ===== src/Pool/Queue/Owned.antt =====
-- The cases of `owned`.
use gh_pool.Base.{
  ℕ, ◌≡◌, ◌≢◌, ◌∙◌, sym, true, Option, none, some, Result, ok, err, Bool-cases, Option-cases, inl,
  inr, arith, ◌==◌, if◌then◌else◌,
}
use gh_pool.Base.Dict.{lookup, put, lookup-put_self}
use gh_pool.Pool.Status.{is_running}
use gh_pool.Pool.State.{Task, Pool}
use gh_pool.Pool.Queue.{HttpError, http, owned, claim}

abbrev pub adopt : ℕ → Task → Task
adopt token t = record t { lease_token = some token }

module _ {ℓ} (P : Pool × Result HttpError Task → Type ℓ) (tid : ℕ) (s : Pool) where
  claim_cases :
      (token : ℕ) (t : Task)
      → P (s, err (http 409))
      → (t.lease_token ≡ some token → P (s, ok t))
      → (t.lease_token ≡ none
          → is_running t.row.status ≡ true
          → P (record s { tasks = put tid (adopt token t) s.tasks }, ok (adopt token t)))
      → P (claim tid token t s)
  unfolding claim
  claim_cases token t refused held adopted = elim (Option-cases t.lease_token) [
    | inl e ↦
        rw (e, claim)
          (elim (Bool-cases (is_running t.row.status)) [
            | inl r ↦ rw (r, if◌then◌else◌) (adopted e r)
            | inr r ↦ rw (r, if◌then◌else◌) refused
          ])
    | inr (k, e) ↦
        rw (e, claim)
          (elim (Bool-cases (k == token)) [
            | inl r ↦ rw (r, if◌then◌else◌) (held (ground arith))
            | inr r ↦ rw (r, if◌then◌else◌) refused
          ])
  ]

  -- A call is refused, or the task has the token, or it runs without one and takes it.
  pub owned_cases :
      (token : Option ℕ)
      → P (s, err (http 409))
      → ((k : ℕ) (t : Task)
          → token ≡ some k
          → lookup tid s.tasks ≡ some t
          → t.lease_token ≡ some k
          → P (s, ok t))
      → ((k : ℕ) (t : Task)
          → token ≡ some k
          → lookup tid s.tasks ≡ some t
          → t.lease_token ≡ none
          → is_running t.row.status ≡ true
          → P (record s { tasks = put tid (adopt k t) s.tasks }, ok (adopt k t)))
      → P (owned tid token s)
  unfolding owned
  owned_cases token refused held adopted = elim (Option-cases (lookup tid s.tasks)) [
    | inl e ↦ rw (e, owned) refused
    | inr (t, e) ↦ elim (Option-cases token) [
      | inl n ↦ rw (e, n, owned) refused
      | inr (k, n) ↦
          rw (e, n, owned)
            (elim (Bool-cases (k == 0)) [
              | inl z ↦ rw (z, if◌then◌else◌) refused
              | inr z ↦
                  rw (z, if◌then◌else◌) (claim_cases k t refused (held k t n e) (adopted k t n e))
            ])
    ]
  ]

-- What a successful call found is in the pool that it leaves, under its token.
abbrev pub Holds : ℕ → Option ℕ → Pool × Result HttpError Task → Type 0
Holds tid token (s, err e) = Unit
Holds tid token (s, ok t) = (lookup tid s.tasks ≡ some t) × (t.lease_token ≡ token) × (token ≢ none)

-- The task of a call that goes on is the one in memory.
abbrev pub There : ℕ → Pool × Result HttpError Task → Type 0
There tid (s, err e) = Unit
There tid (s, ok t) = lookup tid s.tasks ≡ some t

pub owned-There : (tid : ℕ) (token : Option ℕ) (s : Pool) → There tid (owned tid token s)
owned-There tid token s =
    owned_cases (There tid) tid s token tt (λ k t n e l. e)
      (λ k t n e l r. lookup-put_self tid (adopt k t) s.tasks)

pub owned-Holds : (tid : ℕ) (token : Option ℕ) (s : Pool) → Holds tid token (owned tid token s)
owned-Holds tid token s =
    owned_cases (Holds tid token) tid s token tt (λ k t n e l. (e, l ∙ sym n, λ z. cc))
      (λ k t n e l r. (lookup-put_self tid (adopt k t) s.tasks, sym n, λ z. cc))
