-- ===== src/Wire/Sse/Scan.antt =====
-- The reader against one that takes the stream character by character.
use gh_pool.Base.{
  ℕ, zero, suc, ◌≤◌, ◌<◌, ◌≡◌, refl, false, none, some, List, [], ◌∷◌, ◌++◌, if◌then◌else◌, ◌==◌,
  arith, length, append_assoc, Bool-cases, Option-cases, inl, inr, sym, ◌∙◌, ap, subst,
}
use mathlib.Core.List.{append-nil}
use mathlib.Core.Option
use gh_pool.Wire.Texts.{Text}
use gh_pool.Wire.Sse.{SseMessage, Fields, split_line, on_line, read_lines}

-- The reference: a newline ends the line that is held, any other character goes to its end.
unfoldable pub scan : Text → Text → Fields → List SseMessage × Text × Fields
scan [] held f = ([], held, f)
scan (c ∷ cs) held f =
    let rest = scan cs (held ++ (c ∷ [])) f in
    let (now, f') = on_line held f in
    let (later, held', f'') = scan cs [] f' in
    if c == b'\n' then (now ++ later, held', f'') else rest

-- The buffer has no newline: all of it is held.
pub scan-none :
    (buffer held : Text) (f : Fields)
    → split_line buffer ≡ none
    → scan buffer held f ≡ ([], held ++ buffer, f)
unfolding split_line scan
scan-none [] held f e = ap (λ t. ([], t, f)) (sym (append-nil held))
scan-none (c ∷ cs) held f e = elim (Bool-cases (c == b'\n')) [
  | inl n ↦ absurd (ground arith)
  | inr n ↦ elim (Option-cases (split_line cs)) [
    | inl s ↦
        rw (n, scan)
          (scan-none cs (held ++ (c ∷ [])) f s
            ∙ ap (λ t. ([], t, f)) (append_assoc held (c ∷ []) cs))
    | inr ((line, rest), s) ↦ absurd (ground arith)
  ]
]

-- What is yielded by a line and by what follows it.
abbrev pub then_read :
    List SseMessage × Fields
    → (Fields → List SseMessage × Text × Fields)
    → List SseMessage × Text × Fields
then_read (now, f) more = let (later, held, f') = more f in (now ++ later, held, f')

-- The buffer has a newline: the line before it ends what is held, and less is left.
abbrev Cut : Text → Text → Fields → Text × Text → Type 0
Cut buffer held f p =
    (scan buffer held f ≡ then_read (on_line (held ++ p.0) f) (λ f'. scan p.1 [] f'))
    × (length p.1 < length buffer)

scan-some :
    (buffer held : Text) (f : Fields) (p : Text × Text)
    → split_line buffer ≡ some p
    → Cut buffer held f p
unfolding split_line scan
scan-some [] held f p e = absurd (ground arith)
scan-some (c ∷ cs) held f p e = elim (Bool-cases (c == b'\n')) [
  | inl n ↦
      let at_end : some ([], cs) ≡ some p = rw n at e in
      subst (Cut (c ∷ cs) held f) (Option.some-injective ([], cs) p at_end) (
        rw (n, scan)
          (
            ap (λ l. then_read (on_line l f) (λ f'. scan cs [] f')) (sym (append-nil held)),
            omega arith,
          ))
  | inr n ↦ elim (Option-cases (split_line cs)) [
    | inl s ↦ absurd (ground arith)
    | inr (q, s) ↦
        let (same, fewer) = scan-some cs (held ++ (c ∷ [])) f q s in
        let whole : some (c ∷ q.0, q.1) ≡ some p = rw (n, s) at e in
        subst (Cut (c ∷ cs) held f) (Option.some-injective (c ∷ q.0, q.1) p whole) (
          rw (n, scan)
            (
              same
                  ∙ ap (λ l. then_read (on_line l f) (λ f'. scan q.1 [] f'))
                      (append_assoc held (c ∷ []) q.0),
              omega (arith, fewer),
            ))
  ]
]

-- With as many rounds as the buffer has characters, the loop reads what the reference reads.
pub read_lines-scan :
    (fuel : ℕ) (buffer : Text) (f : Fields)
    → length buffer ≤ fuel
    → read_lines fuel buffer f ≡ scan buffer [] f
unfolding read_lines
read_lines-scan zero [] f h = unfold scan in refl
read_lines-scan zero (c ∷ cs) f h = absurd (omega arith)
read_lines-scan (suc fuel) buffer f h = elim (Option-cases (split_line buffer)) [
  | inl e ↦ rw (e, read_lines) (sym (scan-none buffer [] f e))
  | inr ((line, rest), e) ↦
      let (same, fewer) = scan-some buffer [] f (line, rest) e in
      let later = read_lines-scan fuel rest (on_line line f).1 (omega (arith, fewer)) in
      rw (e, read_lines) (ap (λ r. ((on_line line f).0 ++ r.0, r.1, r.2)) later ∙ sym same)
]

-- The reference reads a text in two pieces as it reads the whole.
pub scan-append :
    (a b held : Text) (f : Fields)
    → scan (a ++ b) held f ≡ (
        let (now, held', f') = scan a held f in
        let (later, held'', f'') = scan b held' f' in (now ++ later, held'', f''))
unfolding scan
scan-append [] b held f = refl
scan-append (c ∷ a) b held f = elim (Bool-cases (c == b'\n')) [
  | inl n ↦
      let (now, f') = on_line held f in
      let first = scan a [] f' in
      let second = scan b first.1 first.2 in
      rw (n, scan)
        (ap (λ r. (now ++ r.0, r.1, r.2)) (scan-append a b [] f')
          ∙ ap (λ ms. (ms, second.1, second.2)) (sym (append_assoc now first.0 second.0)))
  | inr n ↦ rw (n, scan) (scan-append a b (held ++ (c ∷ [])) f)
]

split_line-snoc :
    (held : Text) (c : ℕ)
    → split_line held ≡ none
    → (c == b'\n') ≡ false
    → split_line (held ++ (c ∷ [])) ≡ none
unfolding split_line
split_line-snoc [] c e n = rw (n, if◌then◌else◌) refl
split_line-snoc (x ∷ held) c e n = elim (Bool-cases (x == b'\n')) [
  | inl m ↦ absurd (ground arith)
  | inr m ↦ elim (Option-cases (split_line held)) [
    | inl s ↦ rw (m, split_line-snoc held c s n) refl
    | inr (q, s) ↦ absurd (ground arith)
  ]
]

-- What the reference holds has no newline.
pub split_line-scan :
    (text held : Text) (f : Fields)
    → split_line held ≡ none
    → split_line (scan text held f).1 ≡ none
unfolding scan
split_line-scan [] held f e = e
split_line-scan (c ∷ cs) held f e = elim (Bool-cases (c == b'\n')) [
  | inl n ↦ rw (n, scan) (split_line-scan cs [] (on_line held f).1 (unfold split_line in refl))
  | inr n ↦ rw (n, scan) (split_line-scan cs (held ++ (c ∷ [])) f (split_line-snoc held c e n))
]
