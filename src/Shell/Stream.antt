-- ===== src/Shell/Stream.antt =====
-- Stream of server/shell.py: the last bytes of one direction of a shell, under their offsets.
pub mod Window
pub mod Reader
use gh_pool.Base.{
  ℕ, ◌+◌, ◌-◌, min, max, List, [], ◌∷◌, ◌++◌, if◌then◌else◌, length, drop, ltb, ◌==◌,
}

pub record Stream : Type 0 where
  pub cap : ℕ
  pub buf : List ℕ
  pub base : ℕ

-- Stream.__init__
unfoldable pub fresh : ℕ → Stream
fresh cap = record { cap = cap; buf = []; base = 0 }

-- Stream.size
unfoldable pub size : Stream → ℕ
size s = s.base + length s.buf

-- Stream.append: what is over the cap goes from the front.
unfoldable pub append : List ℕ → Stream → Stream
append bytes s =
    let buf = s.buf ++ bytes in
    let over = length buf - s.cap in
    if ltb 0 over
    then record s { buf = drop over buf; base = s.base + over }
    else record s { buf = buf }

-- Stream.read: where it starts, and what it reads.
unfoldable pub read : ℕ → Stream → ℕ × List ℕ
unfolding size
read offset s = let start = min (max offset s.base) (size s) in (start, drop (start - s.base) s.buf)

-- _advance: an append at the end, and the size that is answered.
unfoldable pub advance : ℕ → List ℕ → Stream → Stream × ℕ
unfolding size append
advance offset bytes s = let s' = if offset == size s then append bytes s else s in (s', size s')

-- _served: the bytes, and the offset that follows them.
unfoldable pub served : ℕ → Stream → List ℕ × ℕ
unfolding read
served offset s = let (start, bytes) = read offset s in (bytes, start + length bytes)
