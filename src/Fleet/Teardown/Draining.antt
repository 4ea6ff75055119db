-- ===== src/Fleet/Teardown/Draining.antt =====
-- The drain comes to its end.
use gh_pool.Base.{
  ℕ, zero, suc, ◌+◌, ◌<◌, ◌≡◌, refl, false, Option, some, arith, ltb, ◌==◌, ◌||◌, Bool-cases,
  Option-cases, inl, inr, sym, subst,
}
use gh_pool.Base.Dict.{Dict}
use gh_pool.Fleet.Slots.{Slot}
use gh_pool.Fleet.Messages.{Stats, Queue, set_stats}
use gh_pool.Fleet.Teardown.{Poll, drain_from, drain}

-- The drain has come to its end, with the slots as they were.
abbrev pub Drained : Dict Slot → Queue × Option Stats → Type 0
Drained d r = (r.0.slots ≡ d) × (stats : Stats) × (r.1 ≡ some stats)

slots-set_stats : (s : Stats) (q : Queue) → (set_stats s q).slots ≡ q.slots
unfolding set_stats
slots-set_stats s q = refl

drain_from-step :
    (fuel : ℕ) (polls : ℕ → Poll) (deadline k : ℕ) (stats : Stats) (q : Queue)
    → ((s : Stats)
        → ltb deadline (polls k).now ≡ false
        → Drained q.slots (drain_from fuel polls deadline (suc k) s (set_stats s q)))
    → Drained q.slots (drain_from (suc fuel) polls deadline k stats q)
unfolding drain_from
drain_from-step fuel polls deadline k stats q go = elim (Bool-cases (polls k).forced) [
  | inl f ↦ rw (f, drain_from) (refl, stats, refl)
  | inr f ↦ elim (Option-cases (polls k).stats) [
    | inl n ↦ rw (f, n, drain_from) (refl, stats, refl)
    | inr (s, n) ↦ elim (Bool-cases (s.running == 0 || ltb deadline (polls k).now)) [
      | inl e ↦ rw (f, n, e, drain_from) (unfold set_stats in (refl, s, refl))
      | inr e ↦ rw (f, n, e, drain_from) (go s (ground arith))
    ]
  ]
]

drain_from-ends :
    (fuel : ℕ) (polls : ℕ → Poll) (deadline k : ℕ) (stats : Stats) (q : Queue)
    → deadline < (polls (k + fuel)).now
    → Drained q.slots (drain_from (suc fuel) polls deadline k stats q)
drain_from-ends zero polls deadline k stats q late =
    let here : k + 0 ≡ k = omega arith in
    let past : deadline < (polls k).now = subst (λ m. deadline < (polls m).now) here late in
    drain_from-step 0 polls deadline k stats q (λ s e. absurd (ground arith))
drain_from-ends (suc fuel) polls deadline k stats q late =
    let next : k + suc fuel ≡ suc k + fuel = omega arith in
    let past : deadline < (polls (suc k + fuel)).now =
      subst (λ m. deadline < (polls m).now) next late in
    drain_from-step (suc fuel) polls deadline k stats q (λ s e.
      subst (λ d. Drained d (drain_from (suc fuel) polls deadline (suc k) s (set_stats s q)))
        (slots-set_stats s q) (drain_from-ends fuel polls deadline (suc k) s (set_stats s q) past))

-- A drain comes to an end, with statistics to go by, as soon as its deadline has passed at one of the
-- polls: as many rounds are enough, whatever the polls answer, and the slots stay as they were.
pub drain-ends :
    (fuel : ℕ) (polls : ℕ → Poll) (wait started : ℕ) (q : Queue)
    → started + wait < (polls fuel).now
    → Drained q.slots (drain (suc fuel) polls wait started q)
unfolding drain
drain-ends fuel polls wait started q late = elim (Bool-cases (wait == 0)) [
  | inl e ↦ rw (e, drain) (refl, q.latest, refl)
  | inr e ↦
      let first : 0 + fuel ≡ fuel = omega arith in
      let past : started + wait < (polls (0 + fuel)).now =
        subst (λ m. started + wait < (polls m).now) (sym first) late in
      rw (e, drain) (drain_from-ends fuel polls (started + wait) 0 q.latest q past)
]
