-- ===== src/Shell/Pump.antt =====
-- shell.py: the worker's pumps. A round of push is one request to push_out of server/shell.py, which
-- `call` repeats after a broken connection and after an answer of 429 or from 500 on.
pub mod Exact
use gh_pool.Base.{
  ℕ, zero, suc, ◌+◌, ◌-◌, Bool, true, false, List, [], ◌∷◌, ◌++◌, if◌then◌else◌, leb, length, drop,
  Result, ok, err,
}
use gh_pool.Shell.Stream.{Stream, advance, served}

-- How the server takes one request of call: whether find_shell lets it through at each time before the
-- one whose answer arrives, and at that one; it answers 404, 409 or 410 where it does not.
pub record Takes : Type 0 where
  pub earlier : List Bool
  pub last : Bool

pub data PushError : Type 0 where
  gone unfinished : PushError

take_from : List Bool → Bool → ℕ → List ℕ → Stream → Stream × Result PushError ℕ
take_from [] last offset bytes s =
    let (s', end) = advance offset bytes s in if last then (s', ok end) else (s, err gone)
take_from (b ∷ earlier) last offset bytes s =
    take_from earlier last offset bytes (if b then (advance offset bytes s).0 else s)

-- call, on push_out; Gone is an answer below 500 other than 429.
unfoldable pub post : Takes → ℕ → List ℕ → Stream → Stream × Result PushError ℕ
unfolding take_from
post takes offset bytes s = take_from takes.earlier takes.last offset bytes s

-- push: the offset that is sent, beside the stream. Its loop goes on while something is pending;
-- `fuel` bounds its rounds, and unfinished is its end.
unfoldable pub push : ℕ → (ℕ → Takes) → ℕ → List ℕ → Stream → Stream × Result PushError ℕ
unfolding post
push fuel takes sent [] s = (s, ok sent)
push zero takes sent (b ∷ pending) s = (s, err unfinished)
push (suc fuel) takes sent (b ∷ pending) s =
    let (s', answer) = post (takes fuel) sent (b ∷ pending) s in
    elim answer [
      | err e ↦ (s', err e)
      | ok moved ↦
          let rest = push fuel takes moved (drop (moved - sent) (b ∷ pending)) s' in
          if leb moved sent then (s', err gone) else rest
    ]

-- pump_out, on the pieces that the terminal gives one after the other; `takes n` is about the piece
-- with n after it.
unfoldable pub pump_out :
    ℕ → (ℕ → ℕ → Takes) → List (List ℕ) → ℕ → Stream → Stream × Result PushError ℕ
unfolding push
pump_out fuel takes [] sent s = (s, ok sent)
pump_out fuel takes (piece ∷ pieces) sent s =
    let (s', r) = push fuel (takes (length pieces)) sent piece s in
    elim r [ err e ↦ (s', err e) | ok sent' ↦ pump_out fuel takes pieces sent' s' ]
