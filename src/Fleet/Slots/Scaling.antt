-- ===== src/Fleet/Slots/Scaling.antt =====
-- One call of scale never takes the fleet past what is wanted.
use gh_pool.Base.{
  ℕ, zero, suc, Option, refl, ap, ◌+◌, ◌-◌, ◌≤◌, ◌≡◌, min, arith, length, take, length-take,
}
use gh_pool.Base.Dict.{Dict}
use gh_pool.Fleet.Slots.{
  Slot, Scale, scale, size, shrink, spare, Attempt, tried, launch_each, launch_many,
}
use gh_pool.Fleet.Slots.Sizes.{
  Distinct, size-launch_each, size_grows-launch_each, count-launch_each, size-cancel_all,
  size_falls-cancel_all,
}

-- A size after a call: between the size before it and what is wanted.
abbrev pub Between : ℕ → ℕ → ℕ → Type 0
Between want have after = (min want have ≤ after) × (after ≤ have + (want - have))

size-shrink :
    (c : Scale) (n : ℕ) (d : Dict Slot) → Distinct d → size d ≤ size (shrink c.answer n d).0 + n
unfolding shrink
size-shrink c n d h =
    let (fits, few) = size-cancel_all c.answer (take n (spare d)) d h in
    omega (arith, fits, few, length-take n (spare d))

length-tried : (n : ℕ) (attempts : ℕ → Option Attempt) → length (tried n attempts) ≡ n
unfolding tried
length-tried zero attempts = refl
length-tried (suc n) attempts = ap suc (length-tried n attempts)

-- Where no task has two slots, whatever the attempts to launch and the cancels meet, a call of scale
-- leaves the number of unspent runners between what it was and what is wanted, the smaller of
-- `jobs` and the jobs assigned: it never launches past it and never cancels below it.
pub scale-Between :
    (c : Scale) (d : Dict Slot)
    → Distinct d
    → Between (min c.jobs c.assigned) (size d) (size (scale c d))
unfolding scale shrink launch_many
scale-Between c d h =
    let want = min c.jobs c.assigned in
    let have = size d in
    let more = tried (want - have) c.attempts in
    let n = length-tried (want - have) c.attempts in
    let grown : size (launch_each c.now more d).0 ≤ have + (want - have) =
      omega (arith, size-launch_each c.now more d, count-launch_each c.now more d, n) in
    let kept = size_grows-launch_each c.now more d in
    let left = size-shrink c (have - want) d h in
    let fell = size_falls-cancel_all c.answer (take (have - want) (spare d)) d in
    (ground (arith, grown, kept, left, fell), ground (arith, grown, kept, left, fell))
