-- ===== src/Fleet/Runs.antt =====
-- fleet/workers.py: one pass over a repository's workflow runs. Ages and times are seconds; what
-- GitHub answers to a cancel and to a dispatch are parameters.
pub mod Bounds
use gh_pool.Base.{
  ℕ, zero, suc, ◌+◌, ◌-◌, min, Bool, true, false, Option, none, some, List, [], ◌∷◌, ◌++◌, map,
  if◌then◌else◌, ltb, leb, ◌==◌, not, length, take, ◌&&◌,
}
use gh_pool.Base.Dict.{Dict, lookup}
use gh_pool.Base.Members.{member, add}

abbrev pub grace : ℕ
grace = 30

abbrev pub boot_grace : ℕ
boot_grace = 2400

abbrev pub retire_budget : ℕ
retire_budget = 1

abbrev pub idle_budget : ℕ
idle_budget = 25

abbrev pub max_launch : ℕ
max_launch = 5

-- A workflow run that is not finished.
pub record Run : Type 0 where
  pub id : ℕ
  pub in_progress : Bool
  pub age : ℕ

pub record Repo : Type 0 where
  pub jobs : ℕ
  pub ttl : ℕ
  pub recent : List ℕ
  pub stopping : List ℕ

pub data Sort : Type 0 where
  started pending expired : Sort

-- A run in progress, where the pool's workers are known.
served_for : ℕ → ℕ → Option ℕ → Sort
served_for ttl age (some serving) = if ltb ttl serving then expired else started
served_for ttl age none = if ltb boot_grace age then expired else started

-- The list of _reconcile that a run goes to.
unfoldable pub sort_of : ℕ → Option (Dict ℕ) → Run → Sort
unfolding served_for
sort_of ttl workers run =
    if run.in_progress
    then elim workers [ none ↦ started | some ws ↦ served_for ttl run.age (lookup run.id ws) ]
    else if ltb ttl run.age
    then expired
    else pending

abbrev pub is_started : Sort → Bool
is_started started = true
is_started _ = false

abbrev pub is_pending : Sort → Bool
is_pending pending = true
is_pending _ = false

abbrev pub is_expired : Sort → Bool
is_expired expired = true
is_expired _ = false

unfoldable pub those : (Run → Bool) → List Run → List Run
those p [] = []
those p (r ∷ rs) = let rest = those p rs in if p r then r ∷ rest else rest

-- over and surplus: the newest that wait go first.
unfoldable pub surplus : ℕ → List Run → List Run → List Run
surplus jobs serving waiting =
    let over = length serving + length waiting - jobs in
    take over waiting ++ take (over - length waiting) serving

-- victims.sort(key=in_progress): stable, so those that are not in progress come first.
unfoldable pub idle_first : List Run → List Run
unfolding those
idle_first rs = those (λ r. not r.in_progress) rs ++ those (λ r. r.in_progress) rs

-- The loop over the victims: the runs asked to stop, its counters, and whether GitHub refused one.
pub record Retired : Type 0 where
  pub stopping : List ℕ
  pub cancelled : List ℕ
  pub stopped : ℕ
  pub costly : ℕ
  pub raised : Bool

-- The test of the budget, `used >= limit`.
unfoldable pub spent : Run → Retired → Bool
spent run st =
    if run.in_progress
    then leb retire_budget st.costly
    else leb idle_budget (st.stopped - st.costly)

-- A run that GitHub agreed to cancel.
unfoldable pub retire_one : Run → Retired → Retired
retire_one run st = record {
  stopping = add run.id st.stopping;
  cancelled = st.cancelled ++ run.id ∷ [];
  stopped = st.stopped + 1;
  costly = st.costly + (if run.in_progress then 1 else 0);
  raised = false;
}

unfoldable pub retire : (ℕ → Bool) → List Run → Retired → Retired
unfolding spent retire_one
retire agrees [] st = st
retire agrees (run ∷ rest) st =
    let skipped = retire agrees rest st in
    let more = retire agrees rest (retire_one run st) in
    if member run.id st.stopping
    then skipped
    else if spent run st
    then st
    else if agrees run.id
    then more
    else record st { stopping = add run.id st.stopping; raised = true }

-- The launches of the last `grace` seconds.
unfoldable pub still_young : ℕ → List ℕ → List ℕ
still_young now [] = []
still_young now (t ∷ ts) =
    let rest = still_young now ts in if ltb (now - t) grace then t ∷ rest else rest

-- launch
unfoldable pub to_launch : ℕ → ℕ → ℕ → ℕ
to_launch jobs running recent = min (jobs - (min running jobs + recent)) max_launch

-- The dispatches, `accepts n` being GitHub's answer to the n-th from the last; false if one is refused.
unfoldable pub dispatch : (ℕ → Bool) → ℕ → ℕ → List ℕ → List ℕ × Bool
dispatch accepts now zero recent = (recent, true)
dispatch accepts now (suc n) recent =
    let more = dispatch accepts now n (recent ++ now ∷ []) in
    if accepts n then more else (recent, false)

-- r.stopping &= the ids that are still there
unfoldable pub still_there : List ℕ → List ℕ → List ℕ
still_there ids [] = []
still_there ids (i ∷ is) = let rest = still_there ids is in if member i ids then i ∷ rest else rest

pub record Pass : Type 0 where
  pub repo : Repo
  pub cancelled : List ℕ
  pub retired : ℕ
  pub costly : ℕ
  pub launched : ℕ

-- The victims of a pass, in the order of the loop.
unfoldable pub victims : ℕ → ℕ → Option (Dict ℕ) → List Run → List Run
unfolding sort_of those surplus idle_first
victims jobs ttl workers runs =
    let of : (Sort → Bool) → List Run = λ p. those (λ r. p (sort_of ttl workers r)) runs in
    idle_first (of is_expired ++ surplus jobs (of is_started) (of is_pending))

-- The end of _reconcile, once the victims are retired.
unfoldable pub refill : (ℕ → Bool) → ℕ → ℕ → Retired → Repo → Pass
unfolding still_young to_launch dispatch
refill accepts now running st repo =
    let young = still_young now repo.recent in
    let launch = to_launch repo.jobs running (length young) in
    let (recent, all) = dispatch accepts now launch young in
    record {
      repo = record repo { recent = recent; stopping = st.stopping };
      cancelled = st.cancelled;
      retired = st.stopped;
      costly = st.costly;
      launched = length recent - length young;
    }

-- _reconcile: `runs` come newest first. A refused cancel ends the pass.
unfoldable pub reconcile : (ℕ → Bool) → (ℕ → Bool) → ℕ → Option (Dict ℕ) → List Run → Repo → Pass
unfolding retire still_there victims refill those sort_of
reconcile agrees accepts now workers runs repo =
    let kept : List ℕ = still_there (map (λ r. r.id) runs) repo.stopping in
    let st =
      retire agrees (victims repo.jobs repo.ttl workers runs)
        (record { stopping = kept; cancelled = []; stopped = 0; costly = 0; raised = false }) in
    let of : (Sort → Bool) → List Run = λ p. those (λ r. p (sort_of repo.ttl workers r)) runs in
    if st.raised
    then record {
      repo = record repo { stopping = st.stopping };
      cancelled = st.cancelled;
      retired = st.stopped;
      costly = st.costly;
      launched = 0;
    }
    else refill accepts now (length (of is_started) + length (of is_pending)) st repo
