-- ===== src/Fleet/Slots/Forgotten.antt =====
-- Which runners' registrations the cancels of a list have deleted.
use gh_pool.Base.{
  ℕ, ◌≡◌, refl, true, false, none, some, List, [], ◌∷◌, ◌++◌, if◌then◌else◌, arith, ◌==◌, ◌⊎◌,
  Bool-cases, Option-cases, inl, inr, ap, ==-refl,
}
use gh_pool.Base.Dict.{Dict, lookup}
use gh_pool.Base.Members.{member, member-append}
use gh_pool.Fleet.Slots.{
  Slot, Answer, cancelled, missing, trouble, cancel, cancel_all, cancel_with, forgotten,
  forgotten_all,
}
use gh_pool.Fleet.Slots.Spare.{ids, is_trouble, lookup-cancel_with, lookup-cancel_all}

abbrev pub Each : (ℕ → Type 0) → List ℕ → Type 0
Each P [] = Unit
Each P (r ∷ rs) = P r × Each P rs

Each-append : (P : ℕ → Type 0) (xs ys : List ℕ) → Each P xs → Each P ys → Each P (xs ++ ys)
Each-append P [] ys h k = k
Each-append P (x ∷ xs) ys h k = (h.0, Each-append P xs ys h.1 k)

Each-mono : (P Q : ℕ → Type 0) (xs : List ℕ) → ((r : ℕ) → P r → Q r) → Each P xs → Each Q xs
Each-mono P Q [] f h = tt
Each-mono P Q (x ∷ xs) f h = (f x h.0, Each-mono P Q xs f h.1)

-- The runner of a slot that was there, and is not once these cancels are through.
abbrev pub Goes : Dict Slot → Dict Slot → ℕ → Type 0
Goes d d' r =
    (j : ℕ) × (slot : Slot) × (lookup j d ≡ some slot) × (slot.runner_id ≡ r) × (lookup j d' ≡ none)

module _ (answer : ℕ → Answer) where
  -- What a cancel that the pool takes has deleted.
  forgotten-taken :
      (k : ℕ) (d : Dict Slot)
      → ((is_trouble (answer k) ≡ true) × (forgotten answer k d ≡ []))
        ⊎ ((is_trouble (answer k) ≡ false)
            × (forgotten answer k d ≡ (elim (lookup k d) [
              | none ↦ []
              | some slot ↦ if slot.runner_id == 0 then [] else slot.runner_id ∷ []
            ])))
  unfolding forgotten
  forgotten-taken k d = taken (answer k) refl
    where
      taken :
          (a : Answer)
          → answer k ≡ a
          → ((is_trouble (answer k) ≡ true) × (forgotten answer k d ≡ []))
            ⊎ ((is_trouble (answer k) ≡ false)
                × (forgotten answer k d ≡ (elim (lookup k d) [
                  | none ↦ []
                  | some slot ↦ if slot.runner_id == 0 then [] else slot.runner_id ∷ []
                ])))
      taken cancelled e = inr (ap is_trouble e, rw (e, forgotten) refl)
      taken missing e = inr (ap is_trouble e, rw (e, forgotten) refl)
      taken trouble e = inl (ap is_trouble e, rw (e, forgotten) refl)

  stays_gone :
      (j : ℕ) (xs : List Slot) (d : Dict Slot)
      → lookup j d ≡ none
      → lookup j (cancel_all answer xs d).0 ≡ none
  stays_gone j xs d e = ground (arith, lookup-cancel_all j answer xs d)

  -- The slots of a list that are cancelled one after the other: every registration that is deleted is
  -- that of a slot which was there and goes.
  pub forgotten_all-Goes :
      (xs : List Slot) (d : Dict Slot)
      → Each (Goes d (cancel_all answer xs d).0) (forgotten_all answer xs d)
  unfolding forgotten_all cancel cancel_all
  forgotten_all-Goes [] d = tt
  forgotten_all-Goes (s ∷ xs) d =
      let k = s.task_id in
      let one = (cancel_with (answer k) k d).0 in
      let final = (cancel_all answer xs one).0 in
      let before : (j : ℕ) (slot : Slot) → lookup j one ≡ some slot → lookup j d ≡ some slot =
        λ j slot e. ground (arith, lookup-cancel_with j k (answer k) d) in
      Each-append (Goes d final) (forgotten answer k d) (forgotten_all answer xs one)
        (own k final
          (λ t. stays_gone k xs one (ground (arith, lookup-cancel_with k k (answer k) d))))
        (Each-mono (Goes one final) (Goes d final) (forgotten_all answer xs one)
          (λ r g. (g.0, g.1, before g.0 g.1 g.2, g.3, g.4)) (forgotten_all-Goes xs one))
    where
      own :
          (k : ℕ) (d' : Dict Slot)
          → (is_trouble (answer k) ≡ false → lookup k d' ≡ none)
          → Each (Goes d d') (forgotten answer k d)
      own k d' gone = elim (forgotten-taken k d) [
        | inl (t, e) ↦ rw e tt
        | inr (t, e) ↦ elim (Option-cases (lookup k d)) [
          | inl n ↦ rw (e, n) tt
          | inr (slot, n) ↦ elim (Bool-cases (slot.runner_id == 0)) [
            | inl z ↦ rw (e, n, z, if◌then◌else◌) tt
            | inr z ↦ rw (e, n, z, if◌then◌else◌) ((k, slot, n, refl, gone t), tt)
          ]
        ]
      ]

  -- The registration of each slot that goes is deleted, if it has one.
  pub member-forgotten_all :
      (j : ℕ) (slot : Slot) (xs : List Slot) (d : Dict Slot)
      → member j (ids xs) ≡ true
      → is_trouble (answer j) ≡ false
      → lookup j d ≡ some slot
      → (slot.runner_id == 0) ≡ false
      → member slot.runner_id (forgotten_all answer xs d) ≡ true
  unfolding forgotten_all cancel member
  member-forgotten_all j slot [] d m t e z = absurd (ground arith)
  member-forgotten_all j slot (s ∷ xs) d m t e z =
      let k = s.task_id in
      let one = (cancel_with (answer k) k d).0 in
      let r = slot.runner_id in
      let split = member-append r (forgotten answer k d) (forgotten_all answer xs one) in
      elim (Bool-cases (k == j)) [
        | inl h ↦
            let same : k ≡ j = ground arith in
            let own : member r (forgotten answer j d) ≡ true = elim (forgotten-taken j d) [
              | inl (u, f) ↦ absurd (ground arith)
              | inr (u, f) ↦ rw (f, e, z, if◌then◌else◌, ==-refl r) refl
            ] in
            let own' : member r (forgotten answer k d) ≡ true = rw same own in
            ground (arith, split, own')
        | inr h ↦
            let kept : lookup j one ≡ some slot =
              ground (arith, lookup-cancel_with j k (answer k) d) in
            let m' : member j (ids xs) ≡ true = ground arith in
            let later = member-forgotten_all j slot xs one m' t kept z in
            ground (arith, split, later)
      ]
