-- ===== src/Sessions/Watch/Space.antt =====
-- How much the cleaner removes.
use gh_pool.Base.{
  ℕ, suc, ◌+◌, ◌-◌, ◌≤◌, ◌<◌, ◌≡◌, refl, List, [], ◌∷◌, map, if◌then◌else◌, arith, Bool-cases, ◌⊎◌,
  inl, inr, leb, length, take, ap,
}
use gh_pool.Sessions.Watch.{evict}

abbrev pub total : List (ℕ × ℕ) → ℕ
total [] = 0
total ((_, bytes) ∷ rest) = bytes + total rest

abbrev pub named : List (ℕ × ℕ) → List ℕ
named xs = map (λ x. x.0) xs

-- The cleaner forgets sessions from the longest closed on: those that it forgets are the first ones
-- of the list. What is used in the end is within the limit, or every session of the list is
-- forgotten; it is what was used less the sizes of the forgotten ones, or 0 where they are more. None
-- is forgotten without need: what was used before the last of the forgotten ones went was over the
-- limit.
pub evict-enough :
    (limit : ℕ) (idle : List (ℕ × ℕ)) (used : ℕ)
    → ((evict limit idle used).1 ≤ limit ⊎ ((evict limit idle used).0 ≡ named idle))
      × ((evict limit idle used).0 ≡ named (take (length (evict limit idle used).0) idle))
      × ((evict limit idle used).1 ≡ used - total (take (length (evict limit idle used).0) idle))
      × (((evict limit idle used).0 ≡ [])
          ⊎ (limit < used - total (take (length (evict limit idle used).0 - 1) idle)))
unfolding evict
evict-enough limit [] used = (inr refl, refl, omega arith, inl refl)
evict-enough limit ((sid, bytes) ∷ rest) used = elim (Bool-cases (leb used limit)) [
  | inl e ↦ rw (e, if◌then◌else◌) (inl (ground arith), refl, omega arith, inl refl)
  | inr e ↦
      let (enough, first, left, needed) = evict-enough limit rest (used - bytes) in
      rw (e, if◌then◌else◌)
        (
          elim enough [ inl h ↦ inl h | inr h ↦ inr (ap (◌∷◌ sid) h) ],
          ap (◌∷◌ sid) first,
          omega (arith, left),
          inr (needed_first (ground arith) (evict limit rest (used - bytes)).0 needed),
        )
]
  where
    needed_first :
        limit < used
        → (gone : List ℕ)
        → (gone ≡ []) ⊎ (limit < used - bytes - total (take (length gone - 1) rest))
        → limit < used - total (take (length (sid ∷ gone) - 1) ((sid, bytes) ∷ rest))
    needed_first over [] h = let size : suc 0 - 1 ≡ 0 = omega arith in rw size (omega (arith, over))
    needed_first over (g ∷ gone) (inl h) = absurd (ground arith)
    needed_first over (g ∷ gone) (inr h) =
        let one : suc (length gone) - 1 ≡ length gone = omega arith in
        let two : suc (suc (length gone)) - 1 ≡ suc (length gone) = omega arith in
        let h' = rw one at h in rw two (omega (arith, h'))
