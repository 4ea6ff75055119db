-- ===== src/Fleet/Slots/Sizes.antt =====
-- How the operations change the size of the fleet.
use gh_pool.Base.{
  ℕ, ◌+◌, ◌≤◌, ◌≡◌, refl, false, Option, none, some, List, [], ◌∷◌, if◌then◌else◌, arith,
  Bool-cases, inl, inr, length, ◌==◌,
}
use gh_pool.Base.Dict.{Dict, put, remove, keys}
use gh_pool.Base.Members.{member}
use gh_pool.Pool.Status.{pending}
use gh_pool.Fleet.Slots.{
  Slot, size, born, launch, launch_each, Attempt, no_jit, refused, sent, Answer, cancelled, missing,
  trouble, cancel, cancel_all, drop_slot, cancel_with,
}

-- No key twice.
abbrev pub Distinct : Dict Slot → Type 0
Distinct [] = Unit
Distinct ((k, s) ∷ d) = (member k (keys d) ≡ false) × Distinct d

size-put : (k : ℕ) (s : Slot) (d : Dict Slot) → size (put k s d) ≤ size d + 1
unfolding size put
size-put k s [] = ground arith
size-put k s ((j, x) ∷ d) = ground (arith, size-put k s d)

size_grows-put : (k : ℕ) (s : Slot) (d : Dict Slot) → s.spent ≡ false → size d ≤ size (put k s d)
unfolding size put
size_grows-put k s [] e = ground arith
size_grows-put k s ((j, x) ∷ d) e = ground (arith, size_grows-put k s d e)

pub size_grows-launch_each :
    (now : ℕ) (more : List (Option Attempt)) (d : Dict Slot)
    → size d ≤ size (launch_each now more d).0
unfolding launch_each launch born
size_grows-launch_each now [] d = omega arith
size_grows-launch_each now (none ∷ more) d = size_grows-launch_each now more d
size_grows-launch_each now (some no_jit ∷ more) d = size_grows-launch_each now more d
size_grows-launch_each now (some (refused r) ∷ more) d = size_grows-launch_each now more d
size_grows-launch_each now (some (sent t n r) ∷ more) d =
    let slot : Slot = record {
      task_id = t;
      name = n;
      runner_id = r;
      born_at = now;
      since = now;
      status = pending;
      spent = false;
    } in
    omega (arith, size_grows-launch_each now more (put t slot d), size_grows-put t slot d refl)

pub size-launch_each :
    (now : ℕ) (more : List (Option Attempt)) (d : Dict Slot)
    → size (launch_each now more d).0 ≤ size d + (launch_each now more d).1
unfolding launch_each launch born
size-launch_each now [] d = omega arith
size-launch_each now (none ∷ more) d = size-launch_each now more d
size-launch_each now (some no_jit ∷ more) d = omega (arith, size-launch_each now more d)
size-launch_each now (some (refused r) ∷ more) d = omega (arith, size-launch_each now more d)
size-launch_each now (some (sent t n r) ∷ more) d =
    let slot : Slot = record {
      task_id = t;
      name = n;
      runner_id = r;
      born_at = now;
      since = now;
      status = pending;
      spent = false;
    } in
    omega (arith, size-launch_each now more (put t slot d), size-put t slot d)

pub count-launch_each :
    (now : ℕ) (more : List (Option Attempt)) (d : Dict Slot)
    → (launch_each now more d).1 ≤ length more
unfolding launch_each launch
count-launch_each now [] d = omega arith
count-launch_each now (none ∷ more) d = omega (arith, count-launch_each now more d)
count-launch_each now (some no_jit ∷ more) d = omega (arith, count-launch_each now more d)
count-launch_each now (some (refused r) ∷ more) d = omega (arith, count-launch_each now more d)
count-launch_each now (some (sent t n r) ∷ more) d =
    omega (arith, count-launch_each now more (born t n r now d))

absent_remove : (k : ℕ) (d : Dict Slot) → member k (keys d) ≡ false → remove k d ≡ d
unfolding remove keys member
absent_remove k [] h = refl
absent_remove k ((j, x) ∷ d) h = ground (arith, absent_remove k d)

member-remove :
    (j k : ℕ) (d : Dict Slot) → member j (keys d) ≡ false → member j (keys (remove k d)) ≡ false
unfolding remove keys member
member-remove j k [] h = h
member-remove j k ((i, x) ∷ d) h = ground (arith, member-remove j k d)

remove-Distinct : (k : ℕ) (d : Dict Slot) → Distinct d → Distinct (remove k d)
unfolding remove
remove-Distinct k [] h = tt
remove-Distinct k ((j, x) ∷ d) h = elim (Bool-cases (j == k)) [
  | inl e ↦ rw (e, if◌then◌else◌) (remove-Distinct k d h.1)
  | inr e ↦ rw (e, if◌then◌else◌) (member-remove j k d h.0, remove-Distinct k d h.1)
]

size-remove : (k : ℕ) (d : Dict Slot) → Distinct d → size d ≤ size (remove k d) + 1
unfolding size remove
size-remove k [] h = omega arith
size-remove k ((j, x) ∷ d) h = elim (Bool-cases (j == k)) [
  | inl e ↦
      let same : j ≡ k = ground arith in
      let gone : remove k d ≡ d = absent_remove k d (rw same at h.0) in
      rw (e, if◌then◌else◌, gone) (ground arith)
  | inr e ↦ rw (e, if◌then◌else◌) (omega (arith, size-remove k d h.1))
]

size_falls-remove : (k : ℕ) (d : Dict Slot) → size (remove k d) ≤ size d
unfolding size remove
size_falls-remove k [] = omega arith
size_falls-remove k ((j, x) ∷ d) = ground (arith, size_falls-remove k d)

size_falls-cancel_with : (a : Answer) (k : ℕ) (d : Dict Slot) → size (cancel_with a k d).0 ≤ size d
unfolding cancel_with drop_slot
size_falls-cancel_with trouble k d = omega arith
size_falls-cancel_with cancelled k d = size_falls-remove k d
size_falls-cancel_with missing k d = size_falls-remove k d

pub size_falls-cancel_all :
    (answer : ℕ → Answer) (xs : List Slot) (d : Dict Slot)
    → size (cancel_all answer xs d).0 ≤ size d
unfolding cancel_all cancel
size_falls-cancel_all answer [] d = omega arith
size_falls-cancel_all answer (s ∷ xs) d =
    let one = cancel_with (answer s.task_id) s.task_id d in
    omega (
      arith,
      size_falls-cancel_all answer xs one.0,
      size_falls-cancel_with (answer s.task_id) s.task_id d,
    )

cancel_with-Distinct :
    (a : Answer) (k : ℕ) (d : Dict Slot) → Distinct d → Distinct (cancel_with a k d).0
unfolding cancel_with drop_slot
cancel_with-Distinct trouble k d h = h
cancel_with-Distinct cancelled k d h = remove-Distinct k d h
cancel_with-Distinct missing k d h = remove-Distinct k d h

size-cancel_with :
    (a : Answer) (k : ℕ) (d : Dict Slot)
    → Distinct d
    → size d ≤ size (cancel_with a k d).0 + (if (cancel_with a k d).1 then 1 else 0)
unfolding cancel_with drop_slot
size-cancel_with trouble k d h = omega arith
size-cancel_with cancelled k d h = size-remove k d h
size-cancel_with missing k d h = size-remove k d h

-- Each cancel takes at most one slot.
pub size-cancel_all :
    (answer : ℕ → Answer) (xs : List Slot) (d : Dict Slot)
    → Distinct d
    → (size d ≤ size (cancel_all answer xs d).0 + (cancel_all answer xs d).1)
      × ((cancel_all answer xs d).1 ≤ length xs)
unfolding cancel_all cancel
size-cancel_all answer [] d h = (omega arith, omega arith)
size-cancel_all answer (s ∷ xs) d h =
    let one = cancel_with (answer s.task_id) s.task_id d in
    let (fits, few) =
      size-cancel_all answer xs one.0 (cancel_with-Distinct (answer s.task_id) s.task_id d h) in
    let first = size-cancel_with (answer s.task_id) s.task_id d h in
    (omega (arith, fits, first), ground (arith, few))
