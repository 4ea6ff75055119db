-- ===== src/Wire/Tunnel.antt =====
-- protocol/tunnel.py: the frames of a tunnel. A byte is a number; the models of the payloads are
-- encoded before they come here.
pub mod Frames
use gh_pool.Base.{
  ℕ, zero, suc, ◌+◌, ◌*◌, ◌/◌, ◌%◌, Bool, true, false, Option, none, some, List, [], ◌∷◌, ◌++◌,
  if◌then◌else◌, ltb, ◌==◌, Result, ok, err,
}

pub data Op : Type 0 where
  op_open op_head op_data op_text op_eof op_close : Op

-- int(op)
unfoldable pub code : Op → ℕ
code op_open = 1
code op_head = 2
code op_data = 3
code op_text = 4
code op_eof = 5
code op_close = 6

-- Op(n) if n is among the known ones, else None
unfoldable pub op_of : ℕ → Option Op
op_of n =
    if n == 1
    then some op_open
    else if n == 2
    then some op_head
    else if n == 3
    then some op_data
    else if n == 4
    then some op_text
    else if n == 5
    then some op_eof
    else if n == 6
    then some op_close
    else none

pub data WireError : Type 0 where
  overflow truncated : WireError

-- stream.to_bytes(4, "big"), for a number that fits
unfoldable pub to_bytes : ℕ → List ℕ → List ℕ
to_bytes n rest = n / 16777216 % 256 ∷ n / 65536 % 256 ∷ n / 256 % 256 ∷ n % 256 ∷ rest

-- frame: a stream that does not fit four bytes is an OverflowError.
unfoldable pub frame : Op → ℕ → List ℕ → Result WireError (List ℕ)
unfolding code to_bytes
frame op stream payload =
    if ltb stream 4294967296 then ok (code op ∷ to_bytes stream payload) else err overflow

-- parse: fewer than five bytes are a ValueError.
unfoldable pub parse : List ℕ → Result WireError (Option Op × ℕ × List ℕ)
unfolding op_of
parse (op ∷ a ∷ b ∷ c ∷ d ∷ body) = ok (op_of op, a * 16777216 + b * 65536 + c * 256 + d, body)
parse _ = err truncated
