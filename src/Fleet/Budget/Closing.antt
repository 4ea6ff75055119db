-- ===== src/Fleet/Budget/Closing.antt =====
-- How long the budget stays shut.
use gh_pool.Base.{
  ℕ, ◌≤◌, ◌≡◌, refl, Bool, true, false, none, some, arith, max, ◌⊎◌, inl, inr, Option-cases,
}
use gh_pool.Fleet.Budget.{Budget, Headers, refuse, asked_wait, shut, rate_window}

-- A refusal leaves the budget as it is and answers 0 where its status tells of no rate limit or no
-- wait was asked for. Otherwise what it answers is how long the budget is shut from then on, which is
-- at least a second and at most an hour, or as long as it was shut before where that is longer. It
-- never opens the budget earlier.
pub refuse-shut :
    (now wall : ℕ) (limited : Bool) (h : Headers) (marked : Bool) (b : Budget)
    → (shut now b ≤ shut now (refuse now wall limited h marked b).0)
      × ((((limited ≡ false) ⊎ (asked_wait wall h marked ≡ none))
            × (refuse now wall limited h marked b ≡ (b, 0)))
          ⊎ ((limited ≡ true)
              × ((wait : ℕ) × (asked_wait wall h marked ≡ some wait))
              × ((refuse now wall limited h marked b).1
                  ≡ shut now (refuse now wall limited h marked b).0)
              × (1 ≤ shut now (refuse now wall limited h marked b).0)
              × (shut now (refuse now wall limited h marked b).0 ≤ max (shut now b) rate_window)))
unfolding refuse shut
refuse-shut now wall false h marked b = (omega arith, inl (inl refl, refl))
refuse-shut now wall true h marked b = elim (Option-cases (asked_wait wall h marked)) [
  | inl e ↦ rw (e, refuse) (omega arith, inl (inr refl, refl))
  | inr (wait, e) ↦
      rw (e, refuse) (omega arith, inr (refl, (wait, refl), refl, omega arith, omega arith))
]
