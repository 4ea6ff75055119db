-- ===== src/Shell/Stream/Window.antt =====
-- A stream is a window on everything that was appended to it.
use gh_pool.Base.{
  ℕ, zero, suc, ◌+◌, ◌-◌, ◌≡◌, refl, min, max, true, false, List, [], ◌∷◌, ◌++◌, if◌then◌else◌,
  arith, length, drop, length-append, length-drop, drop-append, drop-drop, Bool-cases, inl, inr,
  ltb, ◌==◌, sym, ◌∙◌, ap,
}
use gh_pool.Shell.Stream.{Stream, fresh, size, append, read, advance}

-- The specification: everything that was ever written, and the offset of what is still there.
abbrev pub kept_from : ℕ → List ℕ → ℕ
kept_from cap log = length log - cap

-- A read of it: from the offset, or from what is still there if that is later, or from its end.
abbrev pub read_log : ℕ → ℕ → List ℕ → ℕ × List ℕ
read_log cap offset log =
    let start = min (max offset (kept_from cap log)) (length log) in (start, drop start log)

pub record IsView (s : Stream) (log : List ℕ) : Type 0 where
  pub base : s.base ≡ kept_from s.cap log
  pub buf : s.buf ≡ drop (kept_from s.cap log) log

pub size-IsView : (s : Stream) (log : List ℕ) → IsView s log → size s ≡ length log
unfolding size
size-IsView s log v =
    let held = ap length v.buf ∙ length-drop (kept_from s.cap log) log in
    omega (arith, held, v.base)

pub append-IsView :
    (bytes : List ℕ) (s : Stream) (log : List ℕ)
    → IsView s log
    → IsView (append bytes s) (log ++ bytes)
unfolding append
append-IsView bytes s log v =
    let kept = kept_from s.cap log in
    let over = length (s.buf ++ bytes) - s.cap in
    let held = ap length v.buf ∙ length-drop kept log in
    let grown = length-append s.buf bytes in
    let whole = length-append log bytes in
    let buf : s.buf ++ bytes ≡ drop kept (log ++ bytes) =
      ap (λ b. b ++ bytes) v.buf ∙ sym (drop-append kept log bytes (omega arith)) in
    let next : kept + over ≡ kept_from s.cap (log ++ bytes) = omega (arith, held, grown, whole) in
    elim (Bool-cases (ltb 0 over)) [
      | inl e ↦
          rw (e, if◌then◌else◌)
            (record {
              base = omega (arith, next, v.base);
              buf =
                  ap (drop over) buf
                  ∙ drop-drop over kept (log ++ bytes)
                  ∙ ap (λ n. drop n (log ++ bytes)) next;
            })
      | inr e ↦
          let none_over : over ≡ 0 = ground arith in
          let same : kept ≡ kept_from s.cap (log ++ bytes) = omega (arith, next, none_over) in
          rw (e, if◌then◌else◌)
            (record { base = v.base ∙ same; buf = buf ∙ ap (λ n. drop n (log ++ bytes)) same })
    ]

pub read-IsView :
    (offset : ℕ) (s : Stream) (log : List ℕ)
    → IsView s log
    → read offset s ≡ read_log s.cap offset log
unfolding read
read-IsView offset s log v =
    let kept = kept_from s.cap log in
    let start = min (max offset kept) (length log) in
    let whole = size-IsView s log v in
    let same : min (max offset s.base) (size s) ≡ start = omega (arith, whole, v.base) in
    let from_start : kept + (start - s.base) ≡ start = omega (arith, v.base) in
    let rest : drop (start - s.base) s.buf ≡ drop start log =
      ap (drop (start - s.base)) v.buf
      ∙ drop-drop (start - s.base) kept log
      ∙ ap (λ n. drop n log) from_start in
    rw same (ap (λ (b : List ℕ). (start, b)) rest)

-- The calls on a stream, and what each returns.
pub data Call : Type 0 where
  appends : List ℕ → Call
  advances : ℕ → List ℕ → Call
  reads : ℕ → Call

pub data Reply : Type 0 where
  done : Reply
  size_is : ℕ → Reply
  bytes_are : ℕ × List ℕ → Reply

unfoldable pub run : Stream → List Call → List Reply
run s [] = []
run s (appends bytes ∷ calls) = done ∷ run (append bytes s) calls
run s (advances offset bytes ∷ calls) =
    let (s', n) = advance offset bytes s in size_is n ∷ run s' calls
run s (reads offset ∷ calls) = bytes_are (read offset s) ∷ run s calls

-- The same calls on the specification.
unfoldable pub run_log : ℕ → List ℕ → List Call → List Reply
run_log cap log [] = []
run_log cap log (appends bytes ∷ calls) = done ∷ run_log cap (log ++ bytes) calls
run_log cap log (advances offset bytes ∷ calls) =
    let log' = if offset == length log then log ++ bytes else log in
    size_is (length log') ∷ run_log cap log' calls
run_log cap log (reads offset ∷ calls) = bytes_are (read_log cap offset log) ∷ run_log cap log calls

cap-append : (bytes : List ℕ) (s : Stream) → (append bytes s).cap ≡ s.cap
unfolding append
cap-append bytes s = ground arith

pub advance-IsView :
    (offset : ℕ) (bytes : List ℕ) (s : Stream) (log : List ℕ)
    → IsView s log
    → IsView (advance offset bytes s).0 (if offset == length log then log ++ bytes else log)
      × ((advance offset bytes s).1 ≡ length (if offset == length log then log ++ bytes else log))
      × ((advance offset bytes s).0.cap ≡ s.cap)
unfolding advance
advance-IsView offset bytes s log v =
    let whole = size-IsView s log v in
    elim (Bool-cases (offset == length log)) [
      | inl e ↦
          let at_end : (offset == size s) ≡ true = rw whole e in
          let w = append-IsView bytes s log v in
          rw (e, at_end, if◌then◌else◌)
            (w, size-IsView (append bytes s) (log ++ bytes) w, cap-append bytes s)
      | inr e ↦
          let elsewhere : (offset == size s) ≡ false = rw whole e in
          rw (e, elsewhere, if◌then◌else◌) (v, whole, refl)
    ]

run-IsView :
    (s : Stream) (log : List ℕ) (calls : List Call)
    → IsView s log
    → run s calls ≡ run_log s.cap log calls
unfolding run run_log
run-IsView s log [] v = refl
run-IsView s log (appends bytes ∷ calls) v =
    let same = cap-append bytes s in
    ap (◌∷◌ done) (
      run-IsView (append bytes s) (log ++ bytes) calls (append-IsView bytes s log v)
      ∙ ap (λ c. run_log c (log ++ bytes) calls) same)
run-IsView s log (advances offset bytes ∷ calls) v =
    let (w, n, same) = advance-IsView offset bytes s log v in
    let log' = if offset == length log then log ++ bytes else log in
    let rest = run-IsView (advance offset bytes s).0 log' calls w in
    ap (λ k. size_is k ∷ run (advance offset bytes s).0 calls) n
    ∙ ap (◌∷◌ (size_is (length log'))) (rest ∙ ap (λ c. run_log c log' calls) same)
run-IsView s log (reads offset ∷ calls) v =
    ap (λ b. bytes_are b ∷ run s calls) (read-IsView offset s log v)
    ∙ ap (◌∷◌ (bytes_are (read_log s.cap offset log))) (run-IsView s log calls v)

-- A stream refines the list of everything that was ever written to it: whatever calls are made on a
-- fresh one, in any order and at any offsets, each returns what it returns on that list. A read
-- gives the list from its offset on, or from the last `cap` bytes if its offset is before them, and
-- an advance writes exactly where the list ends.
pub run-fresh : (cap : ℕ) (calls : List Call) → run (fresh cap) calls ≡ run_log cap [] calls
unfolding fresh
run-fresh cap calls =
    run-IsView (fresh cap) [] calls
      (record { base = omega arith; buf = sym (drop_nothing (0 - cap)) })
  where
    drop_nothing : (n : ℕ) → drop {A = ℕ} n [] ≡ []
    drop_nothing zero = refl
    drop_nothing (suc n) = refl
