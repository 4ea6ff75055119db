-- ===== src/Sessions/Commands/Counts.antt =====
-- How the updates of the command table change the number of started commands and the orphans.
use gh_pool.Base.{
  ℕ, ◌+◌, ◌≤◌, ◌≡◌, refl, Bool, true, false, none, some, List, [], ◌∷◌, ◌++◌, arith, Bool-cases,
  Option-cases, ◌⊎◌, inl, inr, if◌then◌else◌, ◌==◌, leb, subst, sym, ap,
}
use gh_pool.Sessions.Rows.{Command, queued, is_started, update_where, select, CommandError}
use gh_pool.Sessions.Lifecycle.{is_orphan, orphaned}
use gh_pool.Sessions.Commands.{of_status, lowest, begun}

abbrev pub Each : (Command → Type 0) → List Command → Type 0
Each P [] = Unit
Each P (c ∷ cs) = P c × Each P cs

-- No id twice: the primary key.
abbrev pub Unique : List Command → Type 0
Unique [] = Unit
Unique (c ∷ cs) = Each (λ d. (d.id == c.id) ≡ false) cs × Unique cs

-- The number of started commands of a session.
unfoldable pub running : ℕ → List Command → ℕ
running sid [] = 0
running sid (c ∷ cs) = (if of_status is_started sid c then 1 else 0) + running sid cs

-- No command of the session is queued or started.
abbrev pub NoOrphan : ℕ → List Command → Type 0
NoOrphan sid = Each (λ c. is_orphan sid c ≡ false)

abbrev pub Among : Command → List Command → Type 0
Among c [] = ⊥
Among c (x ∷ xs) = (x ≡ c) ⊎ Among c xs

pub Each-Among :
    (P : Command → Type 0) (c : Command) (xs : List Command) → Each P xs → Among c xs → P c
Each-Among P c [] h m = absurd m
Each-Among P c (x ∷ xs) h (inl e) = subst P e h.0
Each-Among P c (x ∷ xs) h (inr m) = Each-Among P c xs h.1 m

Each-mono :
    {P Q : Command → Type 0} (xs : List Command)
    → ((c : Command) → P c → Q c)
    → Each P xs
    → Each Q xs
Each-mono [] f h = tt
Each-mono (x ∷ xs) f h = (f x h.0, Each-mono xs f h.1)

pub Each-snoc :
    (P : Command → Type 0) (xs : List Command) (c : Command)
    → Each P xs
    → P c
    → Each P (xs ++ c ∷ [])
Each-snoc P [] c h p = (p, tt)
Each-snoc P (x ∷ xs) c h p = (h.0, Each-snoc P xs c h.1 p)

-- An update whose test and write leave a property of every row alone.
pub Each-update :
    (P : Command → Type 0) (p : Command → Bool) (f : Command → Command) (xs : List Command)
    → ((c : Command) → P c → p c ≡ true → P (f c))
    → Each P xs
    → Each P (update_where p f xs)
unfolding update_where
Each-update P p f [] k h = tt
Each-update P p f (x ∷ xs) k h = elim (Bool-cases (p x)) [
  | inl e ↦ rw (e, if◌then◌else◌) (k x h.0 e, Each-update P p f xs k h.1)
  | inr e ↦ rw (e, if◌then◌else◌) (h.0, Each-update P p f xs k h.1)
]

pub Unique-update :
    (p : Command → Bool) (f : Command → Command) (xs : List Command)
    → ((c : Command) → (f c).id ≡ c.id)
    → Unique xs
    → Unique (update_where p f xs)
unfolding update_where
Unique-update p f [] k h = tt
Unique-update p f (x ∷ xs) k h =
    let same : (if p x then f x else x).id ≡ x.id = ground (arith, k x) in
    (
      rw same (Each-update (λ d. (d.id == x.id) ≡ false) p f xs (λ c e _. rw (k c) e) h.0),
      Unique-update p f xs k h.1,
    )

pub Unique-snoc :
    (xs : List Command) (c : Command)
    → Unique xs
    → Each (λ d. (d.id == c.id) ≡ false) xs
    → Unique (xs ++ c ∷ [])
Unique-snoc [] c h k = (tt, tt)
Unique-snoc (x ∷ xs) c h k =
    (Each-snoc (λ d. (d.id == x.id) ≡ false) xs c h.0 (ground arith), Unique-snoc xs c h.1 k.1)

pub running-snoc :
    (sid : ℕ) (xs : List Command) (c : Command)
    → c.status ≡ queued
    → running sid (xs ++ c ∷ []) ≡ running sid xs
unfolding running of_status
running-snoc sid [] c e = ground arith
running-snoc sid (x ∷ xs) c e = ground (arith, running-snoc sid xs c e)

-- An update to a status that is not started does not add a started command.
pub running-stop :
    (sid : ℕ) (p : Command → Bool) (f : Command → Command) (xs : List Command)
    → ((c : Command) → is_started (f c).status ≡ false)
    → running sid (update_where p f xs) ≤ running sid xs
unfolding running update_where of_status
running-stop sid p f [] k = omega arith
running-stop sid p f (x ∷ xs) k = ground (arith, running-stop sid p f xs k, k x)

pub no_running :
    (sid : ℕ) (xs : List Command) → select (of_status is_started sid) xs ≡ [] → running sid xs ≡ 0
unfolding running select
no_running sid [] e = refl
no_running sid (x ∷ xs) e = ground (arith, no_running sid xs)

update_other :
    (i : ℕ) (f : Command → Command) (xs : List Command)
    → Each (λ d. (d.id == i) ≡ false) xs
    → update_where (λ d. d.id == i) f xs ≡ xs
unfolding update_where
update_other i f [] h = refl
update_other i f (x ∷ xs) h = rw (h.0, if◌then◌else◌, update_other i f xs h.1) refl

-- Starting one command adds at most one, to its own session.
pub running-begun :
    (sid now : ℕ) (c : Command) (xs : List Command)
    → Unique xs
    → Among c xs
    → running sid (update_where (λ d. d.id == c.id) (begun now) xs)
      ≤ running sid xs + (if c.session_id == sid then 1 else 0)
unfolding running update_where of_status begun
running-begun sid now c [] u m = absurd m
running-begun sid now c (x ∷ xs) u (inl e) = rw e (
    ground (
      arith,
      ap (running sid) (
          update_other c.id (begun now) xs
            (subst (λ y. Each (λ d. (d.id == y.id) ≡ false) xs) e u.0)),
    ))
running-begun sid now c (x ∷ xs) u (inr m) =
    let other : (c.id == x.id) ≡ false = Each-Among (λ d. (d.id == x.id) ≡ false) c xs u.0 m in
    ground (arith, running-begun sid now c xs u.1 m)

-- Starting a command leaves the orphans of other sessions alone.
pub begun-NoOrphan :
    (j now : ℕ) (c : Command) (xs : List Command)
    → (c.session_id == j) ≡ false
    → Unique xs
    → Among c xs
    → NoOrphan j xs
    → NoOrphan j (update_where (λ d. d.id == c.id) (begun now) xs)
unfolding update_where begun is_orphan
begun-NoOrphan j now c [] k u m h = absurd m
begun-NoOrphan j now c (x ∷ xs) k u (inl e) h =
    let others = subst (λ y. Each (λ d. (d.id == y.id) ≡ false) xs) e u.0 in
    rw (e, update_other c.id (begun now) xs others) (ground arith, h.1)
begun-NoOrphan j now c (x ∷ xs) k u (inr m) h =
    let other : (c.id == x.id) ≡ false = Each-Among (λ d. (d.id == x.id) ≡ false) c xs u.0 m in
    (ground (arith, h.0), begun-NoOrphan j now c xs k u.1 m h.1)

-- Failing the orphans of a session leaves none.
pub orphaned-NoOrphan :
    (sid now : ℕ) (e : CommandError) (xs : List Command)
    → NoOrphan sid (update_where (is_orphan sid) (orphaned e now) xs)
unfolding update_where orphaned is_orphan
orphaned-NoOrphan sid now e [] = tt
orphaned-NoOrphan sid now e (x ∷ xs) = elim (Bool-cases (is_orphan sid x)) [
  | inl o ↦ rw (o, if◌then◌else◌) (ground arith, orphaned-NoOrphan sid now e xs)
  | inr o ↦ rw (o, if◌then◌else◌) (o, orphaned-NoOrphan sid now e xs)
]

select_head :
    (p : Command → Bool) (c x : Command) (xs : List Command)
    → p x ≡ true
    → (x ≡ c) ⊎ Among c (select p xs)
    → (Among c (select p xs) → Among c xs × (p c ≡ true))
    → Among c (x ∷ xs) × (p c ≡ true)
select_head p c x xs e (inl same) rest = (inl same, subst (λ y. p y ≡ true) same e)
select_head p c x xs e (inr m) rest = let (a, b) = rest m in (inr a, b)

pub select-Among :
    (p : Command → Bool) (c : Command) (xs : List Command)
    → Among c (select p xs)
    → Among c xs × (p c ≡ true)
unfolding select
select-Among p c [] m = absurd m
select-Among p c (x ∷ xs) m = elim (Bool-cases (p x)) [
  | inl e ↦ select_head p c x xs e (rw (e, if◌then◌else◌) at m) (λ n. select-Among p c xs n)
  | inr e ↦ let (a, b) = select-Among p c xs (rw (e, if◌then◌else◌) at m) in (inr a, b)
]

-- What `lowest` chooses is there, and no command comes before it.
pub lowest_lem :
    (c : Command) (xs : List Command)
    → lowest xs ≡ some c
    → Among c xs × Each (λ d. c.seq ≤ d.seq) xs
unfolding lowest
lowest_lem c [] e = absurd (ground arith)
lowest_lem c (x ∷ xs) e = elim (Option-cases (lowest xs)) [
  | inl n ↦
      let same : x ≡ c = ground arith in
      (inl same, (subst (λ y. c.seq ≤ y.seq) (sym same) (omega arith), none_left xs n))
  | inr (d, n) ↦ lower d (rw (n, lowest) at e) (lowest_lem d xs n)
]
  where
    none_left : (ys : List Command) → lowest ys ≡ none → Each (λ d. c.seq ≤ d.seq) ys
    none_left [] n = tt
    none_left (y ∷ ys) n = elim (Option-cases (lowest ys)) [
      | inl m ↦ absurd (ground arith)
      | inr (d, m) ↦ absurd (ground arith)
    ]

    lower :
        (d : Command)
        → (if leb x.seq d.seq then some x else some d) ≡ some c
        → Among d xs × Each (λ y. d.seq ≤ y.seq) xs
        → Among c (x ∷ xs) × Each (λ y. c.seq ≤ y.seq) (x ∷ xs)
    lower d f h = elim (Bool-cases (leb x.seq d.seq)) [
      | inl b ↦
          let same : x ≡ c = ground arith in
          let le : c.seq ≤ d.seq = ground arith in
          (inl same, (ground arith, Each-mono xs (λ y l. omega arith) h.1))
      | inr b ↦
          let same : d ≡ c = ground arith in
          let le : c.seq ≤ x.seq = ground arith in
          (
            inr (subst (λ y. Among y xs) same h.0),
            (le, subst (λ z. Each (λ y. z.seq ≤ y.seq) xs) same h.1),
          )
    ]
