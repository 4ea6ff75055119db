-- ===== src/Fleet/Slots.antt =====
-- fleet/runners: the slots of one repository's runners (fleet.py), and how the fleet grows and
-- shrinks (provision.py, policy.py, teardown.py). Task ids, names and runner ids are numbers, a
-- runner id of 0 being none; times are readings of the monotonic clock.
pub mod Sizes
pub mod Scaling
pub mod Spare
pub mod Forgotten
use gh_pool.Base.{
  ℕ, zero, suc, ◌+◌, ◌-◌, min, Bool, true, false, Option, none, some, List, [], ◌∷◌, ◌++◌,
  if◌then◌else◌, ltb, leb, ◌==◌, not, take, ◌&&◌, ◌||◌, str_eq,
}
use gh_pool.Base.Dict.{Dict, lookup, put, remove, values}
use gh_pool.Pool.Status.{TaskStatus, pending, is_pending, text}

pub record Slot : Type 0 where
  pub task_id : ℕ
  pub name : ℕ
  pub runner_id : ℕ
  pub born_at : ℕ
  pub since : ℕ
  pub status : TaskStatus
  pub spent : Bool

-- Fleet.born
unfoldable pub born : ℕ → ℕ → ℕ → ℕ → Dict Slot → Dict Slot
born task_id name runner_id now slots =
    let slot : Slot = record {
      task_id = task_id;
      name = name;
      runner_id = runner_id;
      born_at = now;
      since = now;
      status = pending;
      spent = false;
    } in
    put task_id slot slots

-- Fleet.drop
unfoldable pub drop_slot : ℕ → Dict Slot → Dict Slot × Option Slot
drop_slot task_id slots = (remove task_id slots, lookup task_id slots)

-- Fleet.mark
unfoldable pub mark : ℕ → TaskStatus → ℕ → Dict Slot → Dict Slot
mark task_id status now slots = elim (lookup task_id slots) [
  | none ↦ slots
  | some slot ↦
      if str_eq (text slot.status) (text status)
      then slots
      else put task_id (record slot { status = status; since = now }) slots
]

-- Fleet.size
unfoldable pub size : Dict Slot → ℕ
size [] = 0
size ((_, slot) ∷ d) = (if slot.spent then 0 else 1) + size d

-- Fleet.spend: the first slot of this name that is not spent.
unfoldable pub spend : ℕ → Dict Slot → Dict Slot × Bool
spend name [] = ([], false)
spend name ((k, slot) ∷ d) =
    let (d', found) = spend name d in
    if slot.name == name && not slot.spent
    then ((k, record slot { spent = true }) ∷ d, true)
    else ((k, slot) ∷ d', found)

-- An insertion by birth, oldest first, after those of the same birth.
unfoldable pub insert_oldest : Slot → List Slot → List Slot
insert_oldest s [] = s ∷ []
insert_oldest s (x ∷ xs) =
    let rest = insert_oldest s xs in if ltb s.born_at x.born_at then s ∷ x ∷ xs else x ∷ rest

sort_oldest : List Slot → List Slot → List Slot
sort_oldest done [] = done
sort_oldest done (s ∷ xs) = sort_oldest (insert_oldest s done) xs

-- Fleet.slots
unfoldable pub slots : Dict Slot → List Slot
unfolding sort_oldest insert_oldest
slots d = sort_oldest [] (values d)

-- An insertion by birth, youngest first; equal ones keep their order.
unfoldable pub insert_youngest : Slot → List Slot → List Slot
insert_youngest s [] = s ∷ []
insert_youngest s (x ∷ xs) =
    let rest = insert_youngest s xs in if ltb x.born_at s.born_at then s ∷ x ∷ xs else x ∷ rest

sort_youngest : List Slot → List Slot → List Slot
sort_youngest done [] = done
sort_youngest done (s ∷ xs) = sort_youngest (insert_youngest s done) xs

waiting : List Slot → List Slot
waiting [] = []
waiting (s ∷ xs) =
    let rest = waiting xs in if is_pending s.status && not s.spent then s ∷ rest else rest

-- Fleet.spare
unfoldable pub spare : Dict Slot → List Slot
unfolding waiting sort_youngest insert_youngest
spare d = sort_youngest [] (waiting (values d))

-- How a launch ends: GitHub wrote no JIT config, the pool refused the task, or it went out.
pub data Attempt : Type 0 where
  no_jit : Attempt
  refused : ℕ → Attempt
  sent : ℕ → ℕ → ℕ → Attempt

-- launch: the runner of a refused task is forgotten.
unfoldable pub launch : ℕ → Attempt → Dict Slot → Dict Slot × Bool
unfolding born
launch now no_jit d = (d, false)
launch now (refused runner_id) d = (d, false)
launch now (sent task_id name runner_id) d = (born task_id name runner_id now d, true)

-- The attempts of launch_many, one after the other; none stands for one that found `stumbled` set and
-- did not try.
unfoldable pub launch_each : ℕ → List (Option Attempt) → Dict Slot → Dict Slot × ℕ
unfolding launch
launch_each now [] d = (d, 0)
launch_each now (none ∷ more) d = launch_each now more d
launch_each now (some a ∷ more) d =
    let (d', ok) = launch now a d in
    let (d'', n) = launch_each now more d' in (d'', (if ok then 1 else 0) + n)

-- for _ in range(count)
unfoldable pub tried : ℕ → (ℕ → Option Attempt) → List (Option Attempt)
tried zero attempts = []
tried (suc n) attempts = attempts n ∷ tried n attempts

-- launch_many: `attempts n` is how the attempt ends that has n others end after it.
unfoldable pub launch_many : ℕ → ℕ → (ℕ → Option Attempt) → Dict Slot → Dict Slot × ℕ
unfolding launch_each tried
launch_many now count attempts d = launch_each now (tried count attempts) d

-- What the pool answers to a cancel.
pub data Answer : Type 0 where
  cancelled missing trouble : Answer

-- cancel, once the pool has answered: a task that it does not know counts as cancelled.
unfoldable pub cancel_with : Answer → ℕ → Dict Slot → Dict Slot × Bool
unfolding drop_slot
cancel_with trouble task_id d = (d, false)
cancel_with _ task_id d = ((drop_slot task_id d).0, true)

-- cancel, on the slots; what it asks of GitHub beside that is `forgotten`.
unfoldable pub cancel : (ℕ → Answer) → ℕ → Dict Slot → Dict Slot × Bool
unfolding cancel_with
cancel answer task_id d = cancel_with (answer task_id) task_id d

-- The registration that cancel has GitHub delete: that of the runner whose slot it drops.
unfoldable pub forgotten : (ℕ → Answer) → ℕ → Dict Slot → List ℕ
forgotten answer task_id d = elim (answer task_id) [
  | trouble ↦ []
  | _ ↦ elim (lookup task_id d) [
    | none ↦ []
    | some slot ↦ if slot.runner_id == 0 then [] else slot.runner_id ∷ []
  ]
]

-- The registrations that the cancels of shrink and of cleanup have GitHub delete.
unfoldable pub forgotten_all : (ℕ → Answer) → List Slot → Dict Slot → List ℕ
unfolding forgotten cancel
forgotten_all answer [] d = []
forgotten_all answer (s ∷ xs) d =
    forgotten answer s.task_id d ++ forgotten_all answer xs (cancel answer s.task_id d).0

-- The cancels of shrink and of cleanup, and how many the pool took.
unfoldable pub cancel_all : (ℕ → Answer) → List Slot → Dict Slot → Dict Slot × ℕ
unfolding cancel
cancel_all answer [] d = (d, 0)
cancel_all answer (s ∷ xs) d =
    let (d', ok) = cancel answer s.task_id d in
    let (d'', n) = cancel_all answer xs d' in (d'', (if ok then 1 else 0) + n)

-- shrink
unfoldable pub shrink : (ℕ → Answer) → ℕ → Dict Slot → Dict Slot × ℕ
unfolding cancel_all
shrink answer surplus d = cancel_all answer (take surplus (spare d)) d

-- What a call of scale depends on: whether the fleet is closing, the target and the statistics,
-- whether a version is known, and what the launches and the cancels meet.
pub record Scale : Type 0 where
  pub closing : Bool
  pub jobs : ℕ
  pub assigned : ℕ
  pub shrinks : Bool
  pub versioned : Bool
  pub now : ℕ
  pub attempts : ℕ → Option Attempt
  pub answer : ℕ → Answer

-- scale
unfoldable pub scale : Scale → Dict Slot → Dict Slot
unfolding size shrink launch_many
scale c d =
    let want = min c.jobs c.assigned in
    let have = size d in
    if c.closing
    then d
    else if ltb want have
    then if c.shrinks then (shrink c.answer (have - want) d).0 else d
    else if want == have || not c.versioned
    then d
    else (launch_many c.now (want - have) c.attempts d).0
