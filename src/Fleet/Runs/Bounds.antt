-- ===== src/Fleet/Runs/Bounds.antt =====
-- How much one pass over a repository may stop and start.
use gh_pool.Base.{
  ℕ, zero, suc, ◌+◌, ◌-◌, ◌≤◌, ◌≡◌, refl, min, Bool, false, not, ap, ◌∙◌, Option, List, [], ◌∷◌,
  ◌++◌, if◌then◌else◌, arith, Bool-cases, inl, inr, length, length-append, take, length-take, ◌⊎◌,
  map,
}
use gh_pool.Base.Dict.{Dict}
use gh_pool.Base.Members.{member}
use gh_pool.Fleet.Runs.{
  Run, Repo, Retired, Pass, Sort, is_expired, idle_first, retire, retire_one, spent, still_young,
  to_launch, dispatch, refill, reconcile, victims, surplus, max_launch, still_there, those, sort_of,
  is_started, is_pending,
}

abbrev pub Among : Run → List Run → Type 0
Among r [] = ⊥
Among r (x ∷ xs) = (x ≡ r) ⊎ Among r xs

abbrev pub All : (Run → Type 0) → List Run → Type 0
All P [] = Unit
All P (r ∷ rs) = P r × All P rs

All-snoc : (P : Run → Type 0) (rs : List Run) (r : Run) → All P rs → P r → All P (rs ++ r ∷ [])
All-snoc P [] r h p = (p, tt)
All-snoc P (x ∷ rs) r h p = (h.0, All-snoc P rs r h.1 p)

All-append : (P : Run → Type 0) (xs ys : List Run) → All P xs → All P ys → All P (xs ++ ys)
All-append P [] ys h k = k
All-append P (x ∷ xs) ys h k = (h.0, All-append P xs ys h.1 k)

All-those : (P : Run → Type 0) (p : Run → Bool) (rs : List Run) → All P rs → All P (those p rs)
unfolding those
All-those P p [] h = tt
All-those P p (r ∷ rs) h = elim (Bool-cases (p r)) [
  | inl e ↦ rw (e, if◌then◌else◌) (h.0, All-those P p rs h.1)
  | inr e ↦ rw (e, if◌then◌else◌) (All-those P p rs h.1)
]

All-take : (P : Run → Type 0) (n : ℕ) (rs : List Run) → All P rs → All P (take n rs)
All-take P zero rs h = tt
All-take P (suc n) [] h = tt
All-take P (suc n) (r ∷ rs) h = (h.0, All-take P n rs h.1)

All-mono : {P Q : Run → Type 0} (rs : List Run) → ((r : Run) → P r → Q r) → All P rs → All Q rs
All-mono [] f h = tt
All-mono (r ∷ rs) f h = (f r h.0, All-mono rs f h.1)

All-Among : (rs : List Run) → All (λ r. Among r rs) rs
All-Among [] = tt
All-Among (r ∷ rs) = (inl refl, All-mono rs (λ x m. inr m) (All-Among rs))

-- What holds of all the runs of a repository holds of the victims.
All-victims :
    (P : Run → Type 0) (jobs ttl : ℕ) (workers : Option (Dict ℕ)) (runs : List Run)
    → All P runs
    → All P (victims jobs ttl workers runs)
unfolding victims surplus idle_first
All-victims P jobs ttl workers runs h =
    let of : (Sort → Bool) → List Run = λ p. those (λ r. p (sort_of ttl workers r)) runs in
    let kept = λ (p : Sort → Bool). All-those P (λ r. p (sort_of ttl workers r)) runs h in
    let over = length (of is_started) + length (of is_pending) - jobs in
    let all =
      All-append P (of is_expired) (surplus jobs (of is_started) (of is_pending)) (kept is_expired)
        (All-append P (take over (of is_pending)) _
          (All-take P over (of is_pending) (kept is_pending))
          (All-take P (over - length (of is_pending)) (of is_started) (kept is_started))) in
    let chosen = of is_expired ++ surplus jobs (of is_started) (of is_pending) in
    All-append P (those (λ r. not r.in_progress) chosen) _
      (All-those P (λ r. not r.in_progress) chosen all)
      (All-those P (λ r. r.in_progress) chosen all)

abbrev pub serving_count : List Run → ℕ
serving_count rs = length (those (λ r. r.in_progress) rs)

abbrev pub idle_count : List Run → ℕ
idle_count rs = length (those (λ r. not r.in_progress) rs)

count-snoc :
    (rs : List Run) (r : Run)
    → (serving_count (rs ++ r ∷ []) ≡ serving_count rs + (if r.in_progress then 1 else 0))
      × (idle_count (rs ++ r ∷ []) ≡ idle_count rs + (if r.in_progress then 0 else 1))
unfolding those
count-snoc [] r = elim (Bool-cases r.in_progress) [
  | inl e ↦ rw (e, not) (refl, refl)
  | inr e ↦ rw (e, not) (refl, refl)
]
count-snoc (x ∷ rs) r =
    let (a, b) = count-snoc rs r in
    elim (Bool-cases x.in_progress) [
      | inl e ↦ rw (e, not) (omega (arith, a), b)
      | inr e ↦ rw (e, not) (a, omega (arith, b))
    ]

-- The loop has cancelled these runs: they keep to the budgets, and its counters count them.
pub record IsFrugal (P : Run → Type 0) (gone : List Run) (st : Retired) : Type 0 where
  pub named : map (λ r. r.id) gone ≡ st.cancelled
  pub each : All P gone
  pub few : serving_count gone ≤ 1
  pub idle : idle_count gone ≤ 25
  pub costly : st.costly ≡ serving_count gone
  pub stopped : st.stopped ≡ serving_count gone + idle_count gone

map_ids-snoc :
    (rs : List Run) (r : Run) → map (λ x. x.id) (rs ++ r ∷ []) ≡ map (λ x. x.id) rs ++ r.id ∷ []
map_ids-snoc [] r = refl
map_ids-snoc (x ∷ rs) r = ap (◌∷◌ x.id) (map_ids-snoc rs r)

module _ (P : Run → Type 0) where
  retire_one-IsFrugal :
      (run : Run) (gone : List Run) (st : Retired)
      → spent run st ≡ false
      → P run
      → IsFrugal P gone st
      → IsFrugal P (gone ++ run ∷ []) (retire_one run st)
  unfolding spent retire_one
  retire_one-IsFrugal run gone st s p v =
      let (a, b) = count-snoc gone run in
      let f = v.few in
      let i = v.idle in
      let k = v.costly in
      let n = v.stopped in
      record {
        named = map_ids-snoc gone run ∙ ap (λ l. l ++ run.id ∷ []) v.named;
        each = All-snoc P gone run v.each p;
        few = ground (arith, a);
        idle = ground (arith, b);
        costly = ground (arith, a);
        stopped = ground (arith, a, b);
      }

  retire-IsFrugal :
      (agrees : ℕ → Bool) (vs gone : List Run) (st : Retired)
      → All P vs
      → IsFrugal P gone st
      → (gone' : List Run) × IsFrugal P gone' (retire agrees vs st)
  unfolding retire
  retire-IsFrugal agrees [] gone st h v = (gone, v)
  retire-IsFrugal agrees (run ∷ rest) gone st h v = elim (Bool-cases (member run.id st.stopping)) [
    | inl m ↦ rw (m, if◌then◌else◌) (retire-IsFrugal agrees rest gone st h.1 v)
    | inr m ↦ elim (Bool-cases (spent run st)) [
      | inl s ↦ rw (m, s, if◌then◌else◌) (gone, v)
      | inr s ↦ elim (Bool-cases (agrees run.id)) [
        | inl a ↦
            rw (m, s, a, if◌then◌else◌)
              (retire-IsFrugal agrees rest (gone ++ run ∷ []) (retire_one run st) h.1
                (retire_one-IsFrugal run gone st s h.0 v))
        | inr a ↦
            rw (m, s, a, if◌then◌else◌)
              (
                gone,
                record {
                  named = v.named;
                  each = v.each;
                  few = v.few;
                  idle = v.idle;
                  costly = v.costly;
                  stopped = v.stopped;
                },
              )
      ]
    ]
  ]

length-dispatch :
    (accepts : ℕ → Bool) (now n : ℕ) (recent : List ℕ)
    → (length recent ≤ length (dispatch accepts now n recent).0)
      × (length (dispatch accepts now n recent).0 ≤ length recent + n)
unfolding dispatch
length-dispatch accepts now zero recent = (omega arith, omega arith)
length-dispatch accepts now (suc n) recent =
    let (low, high) = length-dispatch accepts now n (recent ++ now ∷ []) in
    let grown = length-append recent (now ∷ []) in
    elim (Bool-cases (accepts n)) [
      | inl a ↦ rw (a, if◌then◌else◌) (omega (arith, low, grown), omega (arith, high, grown))
      | inr a ↦ rw (a, if◌then◌else◌) (omega arith, omega arith)
    ]

-- The launches of a pass, at most five, never take the runs and the fresh launches over `jobs`.
abbrev pub Fits : ℕ → ℕ → ℕ → Pass → Type 0
Fits jobs running now p =
    (p.launched ≤ 5) × ((p.launched ≡ 0) ⊎ (running + length p.repo.recent ≤ jobs))

refill-Fits :
    (accepts : ℕ → Bool) (now running : ℕ) (st : Retired) (repo : Repo)
    → Fits repo.jobs running now (refill accepts now running st repo)
unfolding refill to_launch
refill-Fits accepts now running st repo =
    let young = still_young now repo.recent in
    let launch = min (repo.jobs - (min running repo.jobs + length young)) max_launch in
    let (low, high) = length-dispatch accepts now launch young in
    (omega (arith, low, high), ground (arith, low, high))

-- The runs that a pass cancels: they are among the runs that it was given, at most one of them is in
-- progress and at most 25 are not, and the pass counts them.
pub record Retires (runs : List Run) (p : Pass) : Type 0 where
  pub gone : List Run
  pub named : map (λ r. r.id) gone ≡ p.cancelled
  pub given : All (λ r. Among r runs) gone
  pub few : serving_count gone ≤ 1
  pub idle : idle_count gone ≤ 25
  pub costly : p.costly ≡ serving_count gone
  pub retired : p.retired ≡ serving_count gone + idle_count gone

retire-Retires :
    (runs gone : List Run) (st : Retired) (p : Pass)
    → IsFrugal (λ r. Among r runs) gone st
    → st.cancelled ≡ p.cancelled
    → p.costly ≡ st.costly
    → p.retired ≡ st.stopped
    → Retires runs p
retire-Retires runs gone st p v a b c = record {
  gone = gone;
  named = v.named ∙ a;
  given = v.each;
  few = v.few;
  idle = v.idle;
  costly = b ∙ v.costly;
  retired = c ∙ v.stopped;
}

-- A pass cancels at most one run that is in progress and at most 25 that are not, all from the runs
-- that it was given, and counts them: as many as it cancels, and those in progress among them. It
-- launches at most five, and if it launches any, the runs that are started or wait and the launches of
-- the last 30 seconds, its own among them, are at most `jobs` together.
pub reconcile-bounds :
    (agrees accepts : ℕ → Bool) (now : ℕ) (workers : Option (Dict ℕ)) (runs : List Run)
    (repo : Repo)
    → Retires runs (reconcile agrees accepts now workers runs repo)
      × Fits repo.jobs
          (length (those (λ r. is_started (sort_of repo.ttl workers r)) runs)
            + length (those (λ r. is_pending (sort_of repo.ttl workers r)) runs))
          now
          (reconcile agrees accepts now workers runs repo)
unfolding reconcile
reconcile-bounds agrees accepts now workers runs repo =
    let kept : List ℕ = still_there (map (λ r. r.id) runs) repo.stopping in
    let begin : Retired = record {
      stopping = kept;
      cancelled = [];
      stopped = 0;
      costly = 0;
      raised = false;
    } in
    let P : Run → Type 0 = λ r. Among r runs in
    let vs = victims repo.jobs repo.ttl workers runs in
    let begins : IsFrugal P [] begin =
      unfold those in
      record {
        named = refl;
        each = tt;
        few = omega arith;
        idle = omega arith;
        costly = refl;
        stopped = refl;
      } in
    let (gone, v) =
      retire-IsFrugal P agrees vs [] begin
        (All-victims P repo.jobs repo.ttl workers runs (All-Among runs)) begins in
    let st = retire agrees vs begin in
    elim (Bool-cases (retire agrees vs begin).raised) [
      | inl r ↦
          rw (r, if◌then◌else◌)
            (retire-Retires runs gone st _ v refl refl refl, (omega arith, inl refl))
      | inr r ↦
          rw (r, if◌then◌else◌)
            (
              unfold refill in retire-Retires runs gone st _ v refl refl refl,
              refill-Fits accepts now _ (retire agrees vs begin) repo,
            )
    ]

-- A repository with more runs than `jobs` gives up exactly the excess, the waiting ones first.
pub length-surplus :
    (jobs : ℕ) (serving waiting : List Run)
    → length (surplus jobs serving waiting) ≡ length serving + length waiting - jobs
unfolding surplus
length-surplus jobs serving waiting =
    let over = length serving + length waiting - jobs in
    omega (
      arith,
      length-append (take over waiting) (take (over - length waiting) serving),
      length-take over waiting,
      length-take (over - length waiting) serving,
    )
