-- ===== src/Fleet/Teardown/Leaving.antt =====
-- What a controller leaves behind.
use gh_pool.Base.{
  ℕ, suc, ◌+◌, ◌<◌, ◌≡◌, refl, Bool, true, false, Option, none, some, List, [], ◌==◌, ◌∙◌,
  if◌then◌else◌, arith, ltb, ◌&&◌, ◌||◌, not, Bool-cases, Option-cases, inl, inr, ◌⊎◌,
}
use gh_pool.Base.Dict.{Dict, lookup, has}
use gh_pool.Fleet.Slots.{Slot, spare, slots, forgotten_all}
use gh_pool.Base.Members.{member}
use gh_pool.Fleet.Slots.Forgotten.{Each, Goes, forgotten_all-Goes, member-forgotten_all}
use gh_pool.Fleet.Slots.Sizes.{Distinct}
use gh_pool.Fleet.Slots.Spare.{
  Keyed, ids, is_spare, is_trouble, member-slots, member-spare, lookup-cancel_all,
}
use gh_pool.Fleet.Messages.{Stats, Queue}
use gh_pool.Fleet.Teardown.{Poll, drain, Leave, Left, is_busy, asked_runners, leave, cleanup}
use gh_pool.Fleet.Teardown.Draining.{drain-ends}

-- The slot of a task is let go: it is not busy, or a spare one, and the pool takes the cancel.
abbrev pub lets_go : Bool → Leave → ℕ → Option Slot → Bool
lets_go busy c j slot = (not busy || is_spare slot) && not (is_trouble (c.answer j))

lookup-leave :
    (c : Leave) (stats : Stats) (j : ℕ) (d : Dict Slot)
    → Keyed d
    → Distinct d
    → lookup j (leave c stats d).slots_left
      ≡ (if lets_go (is_busy c stats) c j (lookup j d) then none else lookup j d)
unfolding leave
lookup-leave c stats j d h n = elim (Bool-cases (is_busy c stats)) [
  | inl b ↦
      rw (b, leave) (ground (arith, lookup-cancel_all j c.answer (spare d) d, member-spare j d h n))
  | inr b ↦
      rw (b, leave) (ground (arith, lookup-cancel_all j c.answer (slots d) d, member-slots j d h))
]

-- What was done beside the cancels, by whether jobs were still running.
abbrev pub Removed : Bool → Leave → Left → Type 0
Removed true c left = (left.removed_set ≡ false) × (left.asked ≡ [])
Removed false c left =
    (left.removed_set ≡ c.drops)
    × ((left.asked ≡ []) ⊎ ((c.rest_shut ≡ 0) × (c.runners ≡ some left.asked)))

leave-Removed :
    (c : Leave) (stats : Stats) (d : Dict Slot) → Removed (is_busy c stats) c (leave c stats d)
unfolding leave asked_runners
leave-Removed c stats d = elim (Bool-cases (is_busy c stats)) [
  | inl b ↦ rw (b, leave) (refl, refl)
  | inr b ↦
      rw (b, leave)
        (
          refl,
          (elim (Bool-cases (ltb 0 c.rest_shut)) [
            | inl e ↦ rw (e, asked_runners) (inl refl)
            | inr e ↦ elim (Option-cases c.runners) [
              | inl n ↦ rw (e, n, asked_runners) (inl refl)
              | inr (rs, n) ↦ rw (e, n, asked_runners) (inr (ground arith, refl))
            ]
          ]),
        )
]

-- What the cancels have GitHub delete: nothing but registrations of runners whose slots go, and that of
-- the slot of this task if it is let go and its runner has one.
abbrev pub Forgets : Bool → Leave → ℕ → Dict Slot → Dict Slot → Left → Type 0
Forgets busy c j d d' left =
    Each (Goes d d') left.forgotten
    × ((lets_go busy c j (lookup j d) ≡ false)
        ⊎ (lookup j d ≡ none)
        ⊎ ((slot : Slot) × (lookup j d ≡ some slot)
            × ((slot.runner_id ≡ 0) ⊎ (member slot.runner_id left.forgotten ≡ true))))

cancels-Forgets :
    (busy : Bool) (c : Leave) (j : ℕ) (d : Dict Slot) (xs : List Slot)
    → (lets_go busy c j (lookup j d) ≡ false)
      ⊎ (lookup j d ≡ none)
      ⊎ ((member j (ids xs) ≡ true) × (is_trouble (c.answer j) ≡ false))
    → (lets_go busy c j (lookup j d) ≡ false)
      ⊎ (lookup j d ≡ none)
      ⊎ ((slot : Slot) × (lookup j d ≡ some slot)
          × ((slot.runner_id ≡ 0) ⊎ (member slot.runner_id (forgotten_all c.answer xs d) ≡ true)))
cancels-Forgets busy c j d xs (inl h) = inl h
cancels-Forgets busy c j d xs (inr (inl h)) = inr (inl h)
cancels-Forgets busy c j d xs (inr (inr (m, t))) = elim (Option-cases (lookup j d)) [
  | inl e ↦ inr (inl e)
  | inr (slot, e) ↦ elim (Bool-cases (slot.runner_id == 0)) [
    | inl z ↦ inr (inr (slot, e, inl (ground arith)))
    | inr z ↦ inr (inr (slot, e, inr (member-forgotten_all c.answer j slot xs d m t e z)))
  ]
]

leave-Forgets :
    (c : Leave) (stats : Stats) (j : ℕ) (d : Dict Slot)
    → Keyed d
    → Distinct d
    → Forgets (is_busy c stats) c j d (leave c stats d).slots_left (leave c stats d)
unfolding leave
leave-Forgets c stats j d h n = elim (Bool-cases (is_busy c stats)) [
  | inl b ↦
      rw (b, leave)
        (
          forgotten_all-Goes c.answer (spare d) d,
          cancels-Forgets true c j d (spare d) (ground (arith, member-spare j d h n)),
        )
  | inr b ↦
      rw (b, leave)
        (
          forgotten_all-Goes c.answer (slots d) d,
          cancels-Forgets false c j d (slots d) (listed (lookup j d) refl),
        )
]
  where
    listed :
        (o : Option Slot)
        → lookup j d ≡ o
        → (lets_go false c j (lookup j d) ≡ false)
          ⊎ (lookup j d ≡ none)
          ⊎ ((member j (ids (slots d)) ≡ true) × (is_trouble (c.answer j) ≡ false))
    listed none e = inr (inl e)
    listed (some slot) e = elim (Bool-cases (is_trouble (c.answer j))) [
      | inl t ↦ inl (rw t (ground arith))
      | inr t ↦ inr (inr (member-slots j d h ∙ rw (e, has) refl, t))
    ]

-- A controller's cleanup comes to an end as soon as the deadline of its drain has passed. If jobs are
-- then still running and FORCE is not set, it lets only the slots go that have not started and have
-- not run their job, keeps the scale set and asks none of its listed runners to go; otherwise it lets
-- every slot go, and asks the listed runners only while the limit of requests is not shut. In both
-- cases a slot stays where the pool does not take its cancel, and the registrations that are deleted
-- with the cancels are those of the slots that go, limit or not.
pub cleanup-leaves :
    (fuel : ℕ) (polls : ℕ → Poll) (wait started j : ℕ) (c : Leave) (q : Queue)
    → Keyed q.slots
    → Distinct q.slots
    → started + wait < (polls fuel).now
    → (stats : Stats) × (left : Left) × ((drain (suc fuel) polls wait started q).1 ≡ some stats)
      × ((cleanup (suc fuel) polls wait started c q).1 ≡ some left)
      × Removed (is_busy c stats) c left
      × (lookup j (cleanup (suc fuel) polls wait started c q).0.slots
          ≡ (if lets_go (is_busy c stats) c j (lookup j q.slots) then none else lookup j q.slots))
      × Forgets
          (is_busy c stats)
          c
          j
          q.slots
          (cleanup (suc fuel) polls wait started c q).0.slots
          left
unfolding cleanup
cleanup-leaves fuel polls wait started j c q h n late =
    let (same, stats, e) = drain-ends fuel polls wait started q late in
    rw (e, cleanup)
      (rw same (
        stats,
        leave c stats q.slots,
        refl,
        refl,
        leave-Removed c stats q.slots,
        lookup-leave c stats j q.slots h n,
        leave-Forgets c stats j q.slots h n,
      ))
