-- ===== src/Shell/Stream/Reader.antt =====
-- A reader that comes back often enough misses nothing.
use gh_pool.Base.{
  ℕ, ◌+◌, ◌≤◌, ◌≡◌, refl, min, max, List, [], ◌∷◌, ◌++◌, arith, length, take, drop, length-append,
  length-drop, take-append-drop, ◌∙◌, ap, sym, take_left,
}
use gh_pool.Shell.Stream.{Stream, read, served}
use gh_pool.Shell.Stream.Window.{IsView, read-IsView, kept_from}

-- What a reader has: the first bytes of what was written, up to the offset that it reads from next.
pub record IsCaughtUp (log got : List ℕ) (offset : ℕ) : Type 0 where
  pub upto : offset ≡ length got
  pub within : offset ≤ length log
  pub exact : got ≡ take offset log

pub append-IsCaughtUp :
    (bytes log got : List ℕ) (offset : ℕ)
    → IsCaughtUp log got offset
    → IsCaughtUp (log ++ bytes) got offset
append-IsCaughtUp bytes log got offset v = record {
  upto = v.upto;
  within = omega (arith, v.within, length-append log bytes);
  exact = v.exact ∙ sym (take_left offset log bytes v.within);
}

-- A read at the offset that a reader has come to, with no more than the cap written since, brings it
-- up to date: with what it had it has everything that was written, and the next offset is the end.
pub served-IsCaughtUp :
    (s : Stream) (log got : List ℕ) (offset : ℕ)
    → IsView s log
    → IsCaughtUp log got offset
    → length log ≤ offset + s.cap
    → IsCaughtUp log (got ++ (served offset s).0) (served offset s).1
      × (got ++ (served offset s).0 ≡ log)
unfolding served
served-IsCaughtUp s log got offset v c near =
    let here = read-IsView offset s log v in
    let start : min (max offset (kept_from s.cap log)) (length log) ≡ offset =
      omega (arith, near, c.within) in
    let bytes : (read offset s).1 ≡ drop offset log =
      ap (λ r. r.1) here ∙ ap (λ n. drop n log) start in
    let from : (read offset s).0 ≡ offset = ap (λ r. r.0) here ∙ start in
    let whole : got ++ (read offset s).1 ≡ log =
      ap (λ b. got ++ b) bytes
      ∙ ap (λ g. g ++ drop offset log) c.exact
      ∙ take-append-drop offset log in
    let next : (read offset s).0 + length (read offset s).1 ≡ length log =
      omega (arith, from, ap length bytes, length-drop offset log, c.within) in
    (
      record {
        upto = next ∙ sym (ap length whole);
        within = omega (arith, next);
        exact = whole ∙ sym (ap (λ n. take n log) next ∙ take_whole log);
      },
      whole,
    )
  where
    take_whole : (xs : List ℕ) → take (length xs) xs ≡ xs
    take_whole [] = refl
    take_whole (x ∷ xs) = ap (◌∷◌ x) (take_whole xs)
