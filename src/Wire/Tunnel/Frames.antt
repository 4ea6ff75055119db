-- ===== src/Wire/Tunnel/Frames.antt =====
-- A frame is read as it was written.
use gh_pool.Base.{
  ℕ, ◌+◌, ◌*◌, ◌/◌, ◌%◌, ◌<◌, ◌≡◌, refl, some, List, ◌∷◌, ltb, ok, arith, ltb→lt, Bool-cases, inl,
  inr,
}
use gh_pool.Wire.Tunnel.{
  Op, op_open, op_head, op_data, op_text, op_eof, op_close, code, op_of, frame, parse, to_bytes,
}

op_of-code : (op : Op) → op_of (code op) ≡ some op
unfolding op_of code
op_of-code op_open = refl
op_of-code op_head = refl
op_of-code op_data = refl
op_of-code op_text = refl
op_of-code op_eof = refl
op_of-code op_close = refl

four_bytes :
    (n : ℕ)
    → n < 4294967296
    → n / 16777216 % 256 * 16777216 + n / 65536 % 256 * 65536 + n / 256 % 256 * 256 + n % 256 ≡ n
four_bytes n h = omega arith

-- A frame of a stream below 2 ^ 32 is parsed into its operation, its stream and its payload.
pub parse-frame :
    (op : Op) (stream : ℕ) (payload bytes : List ℕ)
    → frame op stream payload ≡ ok bytes
    → parse bytes ≡ ok (some op, stream, payload)
unfolding frame parse to_bytes
parse-frame op stream payload bytes e = elim (Bool-cases (ltb stream 4294967296)) [
  | inl fits ↦
      let written : code op ∷ to_bytes stream payload ≡ bytes = ground arith in
      rw (← written, op_of-code op, four_bytes stream (ltb→lt stream 4294967296 fits)) refl
  | inr over ↦ absurd (ground arith)
]
