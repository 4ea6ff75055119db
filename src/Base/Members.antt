-- ===== src/Base/Members.antt =====
-- Python's `set` of numbers, and membership of a number in a list.
use Prim.Native.Nat.{ℕ}
use mathlib.Core.Path.{◌≡◌, refl}
use mathlib.Core.Bool.{Bool, true, false, ◌||◌, ◌&&◌, not}
use mathlib.Core.List.{List, [], ◌∷◌, ◌++◌}
use native.Mathlib.Omega.{arith}
use mathlib.Core.Option.{some}
use gh_pool.Base.Dict.{Dict, lookup, keys}
use gh_pool.Base.Tests.{◌==◌, if◌then◌else◌}

-- k in s
unfoldable pub member : ℕ → List ℕ → Bool
member k [] = false
member k (x ∷ s) = x == k || member k s

-- s.add(k)
unfoldable pub add : ℕ → List ℕ → List ℕ
add k s = if member k s then s else k ∷ s

-- s.discard(k)
unfoldable pub discard : ℕ → List ℕ → List ℕ
discard k [] = []
discard k (x ∷ s) = let rest = discard k s in if x == k then rest else x ∷ rest

-- s.update(ks)
unfoldable pub update : List ℕ → List ℕ → List ℕ
update [] s = s
update (k ∷ ks) s = add k (update ks s)

-- s.difference_update(ks)
unfoldable pub difference_update : List ℕ → List ℕ → List ℕ
difference_update [] s = s
difference_update (k ∷ ks) s = discard k (difference_update ks s)

pub member-append : (k : ℕ) (s t : List ℕ) → member k (s ++ t) ≡ member k s || member k t
unfolding member
member-append k [] t = refl
member-append k (x ∷ s) t = ground (arith, member-append k s t)

pub member-add : (k j : ℕ) (s : List ℕ) → member j (add k s) ≡ (k == j || member j s)
unfolding member add
member-add k j s = ground arith

pub member-discard : (k j : ℕ) (s : List ℕ) → member j (discard k s) ≡ (not (k == j) && member j s)
unfolding member discard
member-discard k j [] = ground arith
member-discard k j (x ∷ s) = ground (arith, member-discard k j s)

pub member-update : (j : ℕ) (ks s : List ℕ) → member j (update ks s) ≡ (member j ks || member j s)
unfolding member update
member-update j [] s = refl
member-update j (k ∷ ks) s = ground (arith, member-update j ks s, member-add k j (update ks s))

pub member-difference_update :
    (j : ℕ) (ks s : List ℕ) → member j (difference_update ks s) ≡ (not (member j ks) && member j s)
unfolding member difference_update
member-difference_update j [] s = refl
member-difference_update j (k ∷ ks) s =
    ground (arith, member-difference_update j ks s, member-discard k j (difference_update ks s))

pub difference_update_self : (j : ℕ) (s : List ℕ) → member j (difference_update s s) ≡ false
difference_update_self j s = ground (arith, member-difference_update j s s)

pub member-snoc : (j k : ℕ) (s : List ℕ) → member j (s ++ k ∷ []) ≡ (member j s || k == j)
unfolding member
member-snoc j k [] = ground arith
member-snoc j k (x ∷ s) = ground (arith, member-snoc j k s)

pub member-keys {ℓ} :
    {V : Type ℓ} (k : ℕ) (v : V) (d : Dict V) → lookup k d ≡ some v → member k (keys d) ≡ true
unfolding member lookup keys
member-keys k v [] e = cc
member-keys k v ((j, w) ∷ d) e = ground (arith, member-keys k v d)
