-- ===== src/Wire/Sse/Chunks.antt =====
-- The pieces in which a stream comes do not matter.
use gh_pool.Base.{ℕ, ◌≡◌, refl, none, List, [], ◌∷◌, ◌++◌, arith, length, flatten, sym, ◌∙◌, ap}
use gh_pool.Wire.Texts.{Text}
use gh_pool.Wire.Sse.{Fields, Decoder, no_fields, split_line, read_lines, parse_from, parse_sse}
use gh_pool.Wire.Sse.Scan.{scan, scan-none, scan-append, read_lines-scan, split_line-scan}

module _ {S : Type 0} (d : Decoder S) where
  -- One chunk, after a buffer without a newline, is read as its text is by the reference.
  read_lines-held :
      (buffer text : Text) (f : Fields)
      → split_line buffer ≡ none
      → read_lines (length (buffer ++ text)) (buffer ++ text) f ≡ scan text buffer f
  read_lines-held buffer text f e =
      read_lines-scan (length (buffer ++ text)) (buffer ++ text) f (omega arith)
      ∙ scan-append buffer text [] f
      ∙ ap (λ r. (r.0 ++ (scan text r.1 r.2).0, (scan text r.1 r.2).1, (scan text r.1 r.2).2))
          (scan-none buffer [] f e)

  parse_from-scan :
      (chunks : List (List ℕ)) (s : S) (buffer : Text) (f : Fields)
      → split_line buffer ≡ none
      → parse_from d chunks s buffer f ≡ (scan (d.decode s (flatten chunks)).1 buffer f).0
  unfolding parse_from
  parse_from-scan [] s buffer f e = rw (d.decode_nil s) (unfold scan in refl)
  parse_from-scan (chunk ∷ chunks) s buffer f e =
      let now = d.decode s chunk in
      let here = scan now.1 buffer f in
      let later = d.decode now.0 (flatten chunks) in
      let rest = parse_from-scan chunks now.0 here.1 here.2 (split_line-scan now.1 buffer f e) in
      ap (λ r. r.0 ++ parse_from d chunks now.0 r.1 r.2) (read_lines-held buffer now.1 f e)
      ∙ ap (λ ms. here.0 ++ ms) rest
      ∙ sym (ap (λ r. r.0) (scan-append now.1 later.1 buffer f))
      ∙ sym (ap (λ r. (scan r.1 buffer f).0) (d.decode_append s chunk (flatten chunks)))

  -- What is read of a stream, as the reference reads its text.
  pub parse_sse-scan :
      (chunks : List (List ℕ))
      → parse_sse d chunks ≡ (scan (d.decode d.start (flatten chunks)).1 [] no_fields).0
  unfolding parse_sse
  parse_sse-scan chunks = parse_from-scan chunks d.start [] no_fields (unfold split_line in refl)

-- The events that are read depend only on the bytes of the stream, not on the chunks in which they
-- come: two divisions of the same bytes, at any places, also inside a line or a character, give the
-- same events.
pub parse_sse-chunks :
    {S : Type 0} (d : Decoder S) (one other : List (List ℕ))
    → flatten one ≡ flatten other
    → parse_sse d one ≡ parse_sse d other
parse_sse-chunks d one other e =
    parse_sse-scan d one
    ∙ ap (λ b. (scan (d.decode d.start b).1 [] no_fields).0) e
    ∙ sym (parse_sse-scan d other)
