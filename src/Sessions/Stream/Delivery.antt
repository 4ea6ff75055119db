-- ===== src/Sessions/Stream/Delivery.antt =====
-- Which events a stream yields.
use gh_pool.Base.{
  ℕ, ◌+◌, ◌≤◌, ◌≡◌, refl, Bool, false, Option, none, some, List, [], ◌∷◌, ◌++◌, arith,
  if◌then◌else◌, ◌⊎◌,
}
use gh_pool.Sessions.Rows.{Event}
use gh_pool.Sessions.Stream.{is_closing, follow}

-- The events have the numbers n + 1, n + 2, …
abbrev pub Counts : ℕ → List Event → Type 0
Counts n [] = Unit
Counts n (e ∷ es) = (e.seq ≡ n + 1) × Counts (n + 1) es

-- The events up to the first that closes the session.
unfoldable pub until_closed : List Event → List Event
until_closed [] = []
until_closed (e ∷ es) = let rest = until_closed es in if is_closing e.body then e ∷ [] else e ∷ rest

-- The history closed the session: what follows it does not count.
record IsCut (sent : List Event) (r : List Event × Option ℕ) : Type 0 where
  over : r.1 ≡ none
  whole : (t : List Event) → until_closed (sent ++ t) ≡ r.0

-- The history was yielded whole, and `upto` is delivered.
record IsOpen (d n : ℕ) (sent : List Event) (r : List Event × Option ℕ) : Type 0 where
  upto : ℕ
  result : r ≡ (sent, some upto)
  stored : n ≤ upto
  least : (upto ≡ d) ⊎ ((upto ≡ n) × (d ≤ n))
  whole : (t : List Event) → until_closed (sent ++ t) ≡ sent ++ until_closed t

ended :
    (raised : Bool) (queued : List Event) (r : List Event × Option ℕ)
    → r.1 ≡ none
    → (follow false raised queued r).0 ≡ r.0
unfolding follow
ended raised queued (sent, none) e = refl
ended raised queued (sent, some d) e = absurd (ground arith)
