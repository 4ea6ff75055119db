-- ===== src/Wire/Texts.antt =====
-- Python's str, as a list of code points: strip, rstrip and split.
pub mod Strips
use Prim.Native.Char.{code}
use Prim.Native.String.{String}
use gh_pool.Base.{ℕ, Bool, true, false, List, [], ◌∷◌, if◌then◌else◌, ◌==◌, ◌&&◌}

abbrev pub Text : Type 0
Text = List ℕ

-- The code points of a literal.
unfoldable pub codes : String → Text
codes String.[] = []
codes (String.◌∷◌ c s) = code c ∷ codes s

abbrev pub is_empty : Text → Bool
is_empty [] = true
is_empty (c ∷ cs) = false

-- The text without the characters of a kind at its start, at its end, and at both.
unfoldable pub lstrip : (ℕ → Bool) → Text → Text
lstrip p [] = []
lstrip p (c ∷ cs) = let rest = lstrip p cs in if p c then rest else c ∷ cs

unfoldable pub rstrip : (ℕ → Bool) → Text → Text
rstrip p [] = []
rstrip p (c ∷ cs) = let rest = rstrip p cs in if p c && is_empty rest then [] else c ∷ rest

unfoldable pub strip : (ℕ → Bool) → Text → Text
unfolding lstrip rstrip
strip p t = rstrip p (lstrip p t)

-- One character more in the first piece.
abbrev pub onto_first : ℕ → List Text → List Text
onto_first c [] = (c ∷ []) ∷ []
onto_first c (t ∷ ts) = (c ∷ t) ∷ ts

-- t.split(sep), for a separator of one character.
unfoldable pub split_on : ℕ → Text → List Text
split_on sep [] = [] ∷ []
split_on sep (c ∷ cs) =
    let rest = split_on sep cs in if c == sep then [] ∷ rest else onto_first c rest
