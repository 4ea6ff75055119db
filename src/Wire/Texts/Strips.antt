-- ===== src/Wire/Texts/Strips.antt =====
-- A text that is stripped once is stripped.
use gh_pool.Base.{
  ℕ, ◌≡◌, refl, Bool, false, [], ◌∷◌, if◌then◌else◌, ◌&&◌, Bool-cases, inl, inr, sym, ◌∙◌, ap,
}
use gh_pool.Wire.Texts.{Text, is_empty, lstrip, rstrip, strip}

module _ (p : ℕ → Bool) where
  rstrip_idem : (t : Text) → rstrip p (rstrip p t) ≡ rstrip p t
  unfolding rstrip
  rstrip_idem [] = refl
  rstrip_idem (c ∷ cs) = elim (Bool-cases (p c && is_empty (rstrip p cs))) [
    | inl e ↦ rw (e, rstrip) refl
    | inr e ↦ rw (e, rstrip) (rw (rstrip_idem cs, e) refl)
  ]

  lstrip_keeps : (c : ℕ) (cs : Text) → p c ≡ false → lstrip p (c ∷ cs) ≡ c ∷ cs
  unfolding lstrip
  lstrip_keeps c cs e = rw (e, if◌then◌else◌) refl

  rstrip_keeps : (c : ℕ) (cs : Text) → p c ≡ false → rstrip p (c ∷ cs) ≡ c ∷ rstrip p cs
  unfolding rstrip
  rstrip_keeps c cs e = rw (e, if◌then◌else◌) refl

  lstrip-rstrip : (t : Text) → lstrip p (rstrip p (lstrip p t)) ≡ rstrip p (lstrip p t)
  unfolding lstrip rstrip
  lstrip-rstrip [] = refl
  lstrip-rstrip (c ∷ cs) = elim (Bool-cases (p c)) [
    | inl e ↦ rw (e, lstrip) (lstrip-rstrip cs)
    | inr e ↦
        let kept = lstrip_keeps c cs e in
        let rest = rstrip_keeps c cs e in
        ap (λ t. lstrip p (rstrip p t)) kept
        ∙ ap (lstrip p) rest
        ∙ lstrip_keeps c (rstrip p cs) e
        ∙ sym rest
        ∙ sym (ap (rstrip p) kept)
  ]

  pub strip_idem : (t : Text) → strip p (strip p t) ≡ strip p t
  unfolding strip
  strip_idem t = ap (rstrip p) (lstrip-rstrip t) ∙ rstrip_idem (lstrip p t)
