-- ===== src/Pool/Views/Listing.antt =====
-- The list of tasks that a client gets.
use gh_pool.Base.{
  ℕ, ◌≤◌, ◌≡◌, refl, Bool, true, false, Option, some, List, [], ◌∷◌, ◌++◌, map, arith, Bool-cases,
  inl, inr, ◌⊎◌, not, if◌then◌else◌, length, take, leb, zero, suc, String, ap,
}
use gh_pool.Base.Members.{member}
use gh_pool.Pool.State.{Row, Task, Pool}
use gh_pool.Pool.Views.{
  TaskView, public, keep, wanted, insert_newest, newest_first, rows_of, merged, list_tasks,
}

abbrev pub All : (Row → Type 0) → List Row → Type 0
All P [] = Unit
All P (r ∷ rs) = P r × All P rs

-- Newest first: no row is younger than the one before it.
abbrev pub IsNewestFirst : List Row → Type 0
IsNewestFirst [] = Unit
IsNewestFirst (r ∷ rs) = All (λ x. x.created_at ≤ r.created_at) rs × IsNewestFirst rs

abbrev pub ids : List Row → List ℕ
ids = map (λ r. r.id)

-- No id twice.
abbrev pub Distinct : List ℕ → Type 0
Distinct [] = Unit
Distinct (i ∷ is) = (member i is ≡ false) × Distinct is

module _ (P : Row → Type 0) where
  All-insert : (r : Row) (rs : List Row) → P r → All P rs → All P (insert_newest r rs)
  unfolding insert_newest
  All-insert r [] p h = (p, tt)
  All-insert r (x ∷ xs) p h = elim (Bool-cases (leb x.created_at r.created_at)) [
    | inl e ↦ rw (e, if◌then◌else◌) (p, h)
    | inr e ↦ rw (e, if◌then◌else◌) (h.0, All-insert r xs p h.1)
  ]

  All-newest_first : (rs : List Row) → All P rs → All P (newest_first rs)
  unfolding newest_first
  All-newest_first [] h = tt
  All-newest_first (r ∷ rs) h = All-insert r (newest_first rs) h.0 (All-newest_first rs h.1)

  All-take : (n : ℕ) (rs : List Row) → All P rs → All P (take n rs)
  All-take zero rs h = tt
  All-take (suc n) [] h = tt
  All-take (suc n) (r ∷ rs) h = (h.0, All-take n rs h.1)

  All-append : (rs qs : List Row) → All P rs → All P qs → All P (rs ++ qs)
  All-append [] qs h k = k
  All-append (r ∷ rs) qs h k = (h.0, All-append rs qs h.1 k)

All-mono : {P Q : Row → Type 0} (rs : List Row) → ((r : Row) → P r → Q r) → All P rs → All Q rs
All-mono [] f h = tt
All-mono (r ∷ rs) f h = (f r h.0, All-mono rs f h.1)

insert-IsNewestFirst :
    (r : Row) (rs : List Row) → IsNewestFirst rs → IsNewestFirst (insert_newest r rs)
unfolding insert_newest
insert-IsNewestFirst r [] h = (tt, tt)
insert-IsNewestFirst r (x ∷ xs) h = elim (Bool-cases (leb x.created_at r.created_at)) [
  | inl e ↦
      rw (e, if◌then◌else◌)
        (let le : x.created_at ≤ r.created_at = ground arith in
          ((le, All-mono xs (λ y l. omega arith) h.0), h))
  | inr e ↦
      rw (e, if◌then◌else◌)
        (
          All-insert (λ y. y.created_at ≤ x.created_at) r xs (ground arith) h.0,
          insert-IsNewestFirst r xs h.1,
        )
]

newest_first-IsNewestFirst : (rs : List Row) → IsNewestFirst (newest_first rs)
unfolding newest_first
newest_first-IsNewestFirst [] = tt
newest_first-IsNewestFirst (r ∷ rs) =
    insert-IsNewestFirst r (newest_first rs) (newest_first-IsNewestFirst rs)

take-IsNewestFirst : (n : ℕ) (rs : List Row) → IsNewestFirst rs → IsNewestFirst (take n rs)
take-IsNewestFirst zero rs h = tt
take-IsNewestFirst (suc n) [] h = tt
take-IsNewestFirst (suc n) (r ∷ rs) h =
    (All-take (λ x. x.created_at ≤ r.created_at) n rs h.0, take-IsNewestFirst n rs h.1)

length-take_le : {A : Type 0} (n : ℕ) (xs : List A) → length (take n xs) ≤ n
length-take_le zero xs = omega arith
length-take_le (suc n) [] = omega arith
length-take_le (suc n) (x ∷ xs) = omega (arith, length-take_le n xs)

abbrev pub Among : Row → List Row → Type 0
Among r [] = ⊥
Among r (x ∷ xs) = (x ≡ r) ⊎ Among r xs

All-Among : (rs : List Row) → All (λ r. Among r rs) rs
All-Among [] = tt
All-Among (r ∷ rs) = (inl refl, All-mono rs (λ x m. inr m) (All-Among rs))

keep-All :
    (P : Row → Type 0) (p : Row → Bool) (rs : List Row)
    → All P rs
    → All (λ r. (p r ≡ true) × P r) (keep p rs)
unfolding keep
keep-All P p [] h = tt
keep-All P p (r ∷ rs) h = elim (Bool-cases (p r)) [
  | inl e ↦ rw (e, if◌then◌else◌) ((e, h.0), keep-All P p rs h.1)
  | inr e ↦ rw (e, if◌then◌else◌) (keep-All P p rs h.1)
]

All-map :
    (P Q : Row → Type 0) (f : Row → Row) (rs : List Row)
    → ((r : Row) → P r → Q (f r))
    → All P rs
    → All Q (map f rs)
All-map P Q f [] g h = tt
All-map P Q f (r ∷ rs) g h = (g r h.0, All-map P Q f rs g h.1)

-- Where a row of a listing comes from: the database, which was asked for such rows, or a task that was
-- in memory and wanted when the filter was applied, as it has become since.
abbrev pub Stems : Option String → List Row → (Row → Row) → Pool → Row → Type 0
Stems status rows later before r =
    (Among r rows × (wanted status r ≡ true))
    ⊎ ((old : Row) × Among old (rows_of before) × (wanted status old ≡ true) × (later old ≡ r))

-- The rows of a listing.
abbrev pub listed : List TaskView → List Row
listed vs = map (λ v. v.row) vs

listed-public : (s : Pool) (rs : List Row) → listed (map (public s) rs) ≡ rs
unfolding public
listed-public s [] = refl
listed-public s (r ∷ rs) = ap (◌∷◌ r) (listed-public s rs)

-- A listing holds at most `limit` rows, newest first. Each comes from the database, and is wanted by
-- the filter where the database answers with such rows only, or from a task in memory that the filter
-- wanted before the database was asked, as that task has become meanwhile: its status may be another
-- by then.
pub list_tasks_lem :
    (status : Option String) (limit : ℕ) (rows : List Row) (later : Row → Row) (before s : Pool)
    → All (λ r. wanted status r ≡ true) rows
    → (length (listed (list_tasks status limit (some rows) later before s).1) ≤ limit)
      × IsNewestFirst (listed (list_tasks status limit (some rows) later before s).1)
      × All
          (Stems status rows later before)
          (listed (list_tasks status limit (some rows) later before s).1)
unfolding list_tasks merged
list_tasks_lem status limit rows later before s h =
    let live : List Row = keep (wanted status) (rows_of before) in
    let found : List Row = merged later live rows in
    let W : Row → Type 0 = Stems status rows later before in
    let from_memory : All W (map later live) =
      All-map (λ r. (wanted status r ≡ true) × Among r (rows_of before)) W later live
        (λ r m. inr (r, m.1, m.0, refl))
        (keep-All (λ r. Among r (rows_of before)) (wanted status) (rows_of before)
          (All-Among (rows_of before))) in
    let new : Row → Bool = λ r. not (member r.id (ids live)) in
    let from_db : All W (keep new rows) =
      All-mono (keep new rows) (λ r m. inl m.1)
        (keep-All (λ r. Among r rows × (wanted status r ≡ true)) new rows (both rows h)) in
    let all : All W found = All-append W (map later live) (keep new rows) from_memory from_db in
    rw (listed-public s (take limit (newest_first found))) (
      length-take_le limit (newest_first found),
      take-IsNewestFirst limit (newest_first found) (newest_first-IsNewestFirst found),
      All-take W limit (newest_first found) (All-newest_first W found all),
    )
  where
    zip_all : (P Q : Row → Type 0) (rs : List Row) → All P rs → All Q rs → All (λ r. P r × Q r) rs
    zip_all P Q [] p q = tt
    zip_all P Q (r ∷ rs) p q = ((p.0, q.0), zip_all P Q rs p.1 q.1)

    both :
        (rs : List Row)
        → All (λ r. wanted status r ≡ true) rs
        → All (λ r. Among r rs × (wanted status r ≡ true)) rs
    both rs w = zip_all (λ r. Among r rs) (λ r. wanted status r ≡ true) rs (All-Among rs) w

-- A listing by status can show a task as it is no longer: where the only task in memory is not
-- wanted and the database still has a wanted row under its id, the listing is that row.
pub list_tasks-stale :
    (status : Option String) (limit : ℕ) (t : Task) (r : Row) (later : Row → Row) (before s : Pool)
    → before.tasks ≡ (r.id, t) ∷ []
    → wanted status t.row ≡ false
    → listed (list_tasks status (suc limit) (some (r ∷ [])) later before s).1 ≡ r ∷ []
unfolding list_tasks
list_tasks-stale status limit t r later before s e w =
    let live : keep (wanted status) (rows_of before) ≡ [] = unfold keep rows_of in rw (e, w) refl in
    let found : merged later [] (r ∷ []) ≡ r ∷ [] = unfold merged keep member in refl in
    rw (live, listed-public s (take (suc limit) (newest_first (merged later [] (r ∷ [])))), found)
      (unfold newest_first insert_newest in take_one limit r)
  where
    take_one : (n : ℕ) (x : Row) → x ∷ take n [] ≡ x ∷ []
    take_one zero x = refl
    take_one (suc n) x = refl
