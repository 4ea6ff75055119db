-- ===== src/Fleet/Slots/Spare.antt =====
-- Which slots the lists of a fleet hold, and what a cancel of each of a list leaves.
use gh_pool.Base.{
  ℕ, ◌≡◌, refl, Bool, true, false, Option, none, some, List, [], ◌∷◌, if◌then◌else◌, arith, ◌==◌,
  ◌&&◌, ◌||◌, not, Bool-cases, inl, inr, ◌∙◌, ap,
}
use gh_pool.Base.Dict.{Dict, lookup, values, keys, lookup-remove, has}
use gh_pool.Base.Members.{member}
use gh_pool.Pool.Status.{is_pending}
use gh_pool.Fleet.Slots.{
  Slot, Answer, cancelled, missing, trouble, cancel, cancel_all, cancel_with, drop_slot,
  insert_oldest, sort_oldest, slots, insert_youngest, sort_youngest, waiting, spare,
}
use gh_pool.Fleet.Slots.Sizes.{Distinct}

-- Each slot stands under its task.
abbrev pub Keyed : Dict Slot → Type 0
Keyed [] = Unit
Keyed ((k, s) ∷ d) = (s.task_id ≡ k) × Keyed d

abbrev pub ids : List Slot → List ℕ
ids [] = []
ids (s ∷ xs) = s.task_id ∷ ids xs

-- The slot is there, has not started and has not run its job.
abbrev pub is_spare : Option Slot → Bool
is_spare none = false
is_spare (some s) = is_pending s.status && not s.spent

member-insert_oldest :
    (j : ℕ) (s : Slot) (xs : List Slot)
    → member j (ids (insert_oldest s xs)) ≡ (s.task_id == j || member j (ids xs))
unfolding insert_oldest member
member-insert_oldest j s [] = ground arith
member-insert_oldest j s (x ∷ xs) = ground (arith, member-insert_oldest j s xs)

member-insert_youngest :
    (j : ℕ) (s : Slot) (xs : List Slot)
    → member j (ids (insert_youngest s xs)) ≡ (s.task_id == j || member j (ids xs))
unfolding insert_youngest member
member-insert_youngest j s [] = ground arith
member-insert_youngest j s (x ∷ xs) = ground (arith, member-insert_youngest j s xs)

member-sort_oldest :
    (j : ℕ) (done xs : List Slot)
    → member j (ids (sort_oldest done xs)) ≡ (member j (ids done) || member j (ids xs))
unfolding sort_oldest member
member-sort_oldest j done [] = ground arith
member-sort_oldest j done (x ∷ xs) =
    ground (arith, member-sort_oldest j (insert_oldest x done) xs, member-insert_oldest j x done)

member-sort_youngest :
    (j : ℕ) (done xs : List Slot)
    → member j (ids (sort_youngest done xs)) ≡ (member j (ids done) || member j (ids xs))
unfolding sort_youngest member
member-sort_youngest j done [] = ground arith
member-sort_youngest j done (x ∷ xs) =
    ground
      (arith, member-sort_youngest j (insert_youngest x done) xs, member-insert_youngest j x done)

member-values : (j : ℕ) (d : Dict Slot) → Keyed d → member j (ids (values d)) ≡ has j d
unfolding member lookup
member-values j [] h = refl
member-values j ((k, s) ∷ d) h = ground (arith, member-values j d h.1)

member-waiting_absent :
    (j : ℕ) (d : Dict Slot)
    → Keyed d
    → member j (keys d) ≡ false
    → member j (ids (waiting (values d))) ≡ false
unfolding member keys waiting
member-waiting_absent j [] h n = refl
member-waiting_absent j ((k, s) ∷ d) h n = ground (arith, member-waiting_absent j d h.1)

member-waiting :
    (j : ℕ) (d : Dict Slot)
    → Keyed d
    → Distinct d
    → member j (ids (waiting (values d))) ≡ is_spare (lookup j d)
unfolding member waiting lookup
member-waiting j [] h n = refl
member-waiting j ((k, s) ∷ d) h n = elim (Bool-cases (k == j)) [
  | inl e ↦
      let same : k ≡ j = ground arith in
      let absent = member-waiting_absent j d h.1 (rw same at n.0) in
      rw (e, if◌then◌else◌) (ground (arith, absent, h.0))
  | inr e ↦ rw (e, if◌then◌else◌) (ground (arith, member-waiting j d h.1 n.1, h.0))
]

-- The slots are those of the fleet.
pub member-slots : (j : ℕ) (d : Dict Slot) → Keyed d → member j (ids (slots d)) ≡ has j d
unfolding slots member
member-slots j d h = member-sort_oldest j [] (values d) ∙ member-values j d h

-- The spare ones are those that have not started and have not run their job.
pub member-spare :
    (j : ℕ) (d : Dict Slot)
    → Keyed d
    → Distinct d
    → member j (ids (spare d)) ≡ is_spare (lookup j d)
unfolding spare member
member-spare j d h n = member-sort_youngest j [] (waiting (values d)) ∙ member-waiting j d h n

abbrev pub is_trouble : Answer → Bool
is_trouble cancelled = false
is_trouble missing = false
is_trouble trouble = true

pub lookup-cancel_with :
    (j k : ℕ) (a : Answer) (d : Dict Slot)
    → lookup j (cancel_with a k d).0 ≡ (if k == j && not (is_trouble a) then none else lookup j d)
unfolding cancel_with drop_slot
lookup-cancel_with j k cancelled d = ground (arith, lookup-remove k j d)
lookup-cancel_with j k missing d = ground (arith, lookup-remove k j d)
lookup-cancel_with j k trouble d = ground arith

-- What is left after the cancels: all but those of the list that the pool let go.
pub lookup-cancel_all :
    (j : ℕ) (answer : ℕ → Answer) (xs : List Slot) (d : Dict Slot)
    → lookup j (cancel_all answer xs d).0
      ≡ (if member j (ids xs) && not (is_trouble (answer j)) then none else lookup j d)
unfolding cancel_all cancel member
lookup-cancel_all j answer [] d = refl
lookup-cancel_all j answer (s ∷ xs) d =
    let one = (cancel_with (answer s.task_id) s.task_id d).0 in
    let rest = lookup-cancel_all j answer xs one in
    let first = lookup-cancel_with j s.task_id (answer s.task_id) d in
    elim (Bool-cases (s.task_id == j)) [
      | inl e ↦
          let same : s.task_id ≡ j = ground arith in
          let here : is_trouble (answer s.task_id) ≡ is_trouble (answer j) =
            ap (λ i. is_trouble (answer i)) same in
          ground (arith, rest, first, here)
      | inr e ↦ ground (arith, rest, first)
    ]
