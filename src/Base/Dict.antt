-- ===== src/Base/Dict.antt =====
-- Python's `dict` with number keys, in insertion order.
use Prim.Native.Nat.{ℕ}
use mathlib.Core.Path.{◌≡◌, refl}
use mathlib.Core.Bool.{Bool, true, false}
use mathlib.Core.Option.{Option, none, some}
use mathlib.Core.List.{List, [], ◌∷◌, map}
use native.Mathlib.Omega.{arith}
use gh_pool.Base.Tests.{◌==◌, if◌then◌else◌}

abbrev pub Dict {ℓ} : Type ℓ → Type ℓ
Dict V = List (ℕ × V)

module _ {ℓ} {V : Type ℓ} where
  -- d.get(k)
  unfoldable pub lookup : ℕ → Dict V → Option V
  lookup k [] = none
  lookup k ((j, v) ∷ d) = if j == k then some v else lookup k d

  -- d[k] = v: an old key keeps its place, a new key goes to the end.
  unfoldable pub put : ℕ → V → Dict V → Dict V
  put k v [] = (k, v) ∷ []
  put k v ((j, w) ∷ d) = if j == k then (k, v) ∷ d else (j, w) ∷ put k v d

  -- d.pop(k, None)
  unfoldable pub remove : ℕ → Dict V → Dict V
  remove k [] = []
  remove k ((j, w) ∷ d) = let rest = remove k d in if j == k then rest else (j, w) ∷ rest

  -- k in d
  abbrev pub has : ℕ → Dict V → Bool
  has k d = elim (lookup k d) [ none ↦ false | some _ ↦ true ]

  -- d.values()
  abbrev pub values : Dict V → List V
  values d = map (λ e. e.1) d

  -- list(d)
  unfoldable pub keys : Dict V → List ℕ
  keys [] = []
  keys ((j, _) ∷ d) = j ∷ keys d

  pub lookup-put :
      (k j : ℕ) (v : V) (d : Dict V)
      → lookup j (put k v d) ≡ (if k == j then some v else lookup j d)
  unfolding lookup put
  lookup-put k j v [] = refl
  lookup-put k j v ((i, w) ∷ d) = ground (arith, lookup-put k j v d)

  pub lookup-put_self : (k : ℕ) (v : V) (d : Dict V) → lookup k (put k v d) ≡ some v
  lookup-put_self k v d = ground (arith, lookup-put k k v d)

  pub lookup-remove :
      (k j : ℕ) (d : Dict V) → lookup j (remove k d) ≡ (if k == j then none else lookup j d)
  unfolding lookup remove
  lookup-remove k j [] = ground arith
  lookup-remove k j ((i, w) ∷ d) = ground (arith, lookup-remove k j d)

pub ruleset dict_laws = (lookup-put, lookup-remove)
