-- ===== src/Worker/Spool.antt =====
-- The spool of a task's output and its sender, against the server's append_events.
pub mod Exact
use gh_pool.Base.{
  ℕ, zero, suc, ◌+◌, ◌-◌, Bool, true, false, Option, none, some, List, [], ◌∷◌, ◌++◌, if◌then◌else◌,
  ltb, leb, length, take, drop, ◌==◌,
}
use gh_pool.Pool.State.{Pool, Settings}
use gh_pool.Pool.Tasks.{Appended, append_locked}

-- Spool: `bytes` is the content of its file.
pub record Spool : Type 0 where
  pub bytes : List ℕ
  pub base : ℕ
  pub size : ℕ
  pub sent : ℕ
  pub dropped : ℕ
  pub stopped : Bool

-- Spool.__init__
unfoldable pub spool_at : ℕ → Spool
spool_at base = record {
  bytes = [];
  base = base;
  size = base;
  sent = base;
  dropped = 0;
  stopped = false;
}

-- The bytes that follow a text.
unfoldable pub extend : List ℕ → Spool → Spool
extend text p = record p { bytes = p.bytes ++ text; size = p.size + length text }

-- Spool.write: `cap` is SPOOL_CAP, and `marker n` tells of n dropped bytes.
unfoldable pub write : ℕ → (ℕ → List ℕ) → List ℕ → Spool → Spool
unfolding extend
write cap marker text p =
    if p.stopped
    then p
    else if ltb cap (p.size - p.sent)
    then record p { dropped = p.dropped + length text }
    else extend text
        (if p.dropped == 0 then p else extend (marker p.dropped) (record p { dropped = 0 }))

-- Spool.read_at
unfoldable pub read_at : ℕ → ℕ → Spool → List ℕ
read_at offset n p = take n (drop (offset - p.base) p.bytes)

-- req, while the task's lease is held, so that owned lets it through: the server takes the request
-- `more` times before the answer that arrives. A stale lease ends the sender.
unfoldable pub post : Settings → ℕ → ℕ → ℕ → List ℕ → Pool → Pool × Appended
post c tid zero offset body s = append_locked c tid offset body s
post c tid (suc more) offset body s =
    post c tid more offset body (append_locked c tid offset body s).0

-- What the sender does with an answer.
unfoldable pub on_answer : Appended → Spool → Spool
on_answer a p = record p { sent = a.offset; stopped = if a.accepting then p.stopped else true }

-- A round of sender that has something to send; CHUNK is `chunk`.
unfoldable pub send : Settings → ℕ → ℕ → ℕ → Spool → Pool → Spool × Pool
unfolding read_at post on_answer
send c tid chunk more p s = elim (read_at p.sent chunk p) [
  | [] ↦ (record p { sent = p.size }, s)
  | b ∷ bs ↦ let (s', a) = post c tid more p.sent (b ∷ bs) s in (on_answer a p, s')
]
