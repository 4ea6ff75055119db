-- ===== src/Relay/Stream/Trace.antt =====
-- What happens to a stream, one thing after the other.
use gh_pool.Base.{
  ℕ, ◌≤◌, ◌≡◌, Bool, true, false, List, [], ◌∷◌, ◌++◌, if◌then◌else◌, ◌⊎◌, length, append_assoc,
  ◌∙◌, ap,
}
use gh_pool.Wire.Texts.{Text}
use gh_pool.Wire.Tunnel.{Op, op_head}
use gh_pool.Relay.Stream.{
  Payloads, Stream, stream_size, fail, Offered, took, failed, overflowed, raised, offer, read,
}

abbrev pub Item : Type 0
Item = Op × List ℕ

-- What happens to a stream: a frame, a read, its reader's close, or the tunnel's end.
pub data Act : Type 0 where
  offers : Op → List ℕ → Act
  reads shuts : Act
  fails : Text → Act

-- A stream, the frames that its reader has had, whether the stream has failed, and whether an
-- exception has ended the tunnel's loop.
pub record Traced : Type 0 where
  pub stream : Stream
  pub had : List Item
  pub has_failed : Bool
  pub ended : Bool

unfoldable pub after_offer : Stream × Offered → Traced → Traced
after_offer (s, took) t = record t { stream = s }
after_offer (s, failed) t = record t { stream = s; has_failed = true }
after_offer (s, overflowed) t = record t { stream = s; has_failed = true }
after_offer (s, raised) t = record t { ended = true }

unfoldable pub act : Payloads → Act → Traced → Traced
unfolding after_offer
act k (offers op payload) t = after_offer (offer k op payload t.stream) t
act k shuts t = record t { stream = record t.stream { gone = true } }
act k (fails reason) t = record t { stream = fail k reason t.stream; has_failed = true }
act k reads t = elim t.stream.queue [
  | [] ↦ t
  | item ∷ rest ↦ record t {
    stream = (read k t.stream).0;
    had = if t.has_failed then t.had else t.had ++ (item ∷ []);
  }
]

unfoldable pub acts : Payloads → List Act → Traced → Traced
unfolding act
acts k [] t = t
acts k (a ∷ as_) t = let t' = act k a t in let rest = acts k as_ t' in if t'.ended then t' else rest

-- The frames that are offered, but for the heads.
abbrev pub frames : List Act → List Item
frames [] = []
frames (offers op_head payload ∷ rest) = frames rest
frames (offers op payload ∷ rest) = (op, payload) ∷ frames rest
frames (_ ∷ rest) = frames rest

abbrev pub Prefix : List Item → List Item → Type 0
Prefix xs whole = (rest : List Item) × (whole ≡ xs ++ rest)

-- After the frames `past`: those that the reader had and those that wait for it are all of them
-- while the stream is not gone, and the first of them otherwise.
pub record IsOrdered (past : List Item) (t : Traced) : Type 0 where
  pub short : length t.stream.queue ≤ stream_size
  pub first : Prefix t.had past
  pub whole :
      (t.has_failed ≡ true) × (t.stream.gone ≡ true)
      ⊎ (t.has_failed ≡ false) × (t.stream.gone ≡ true) × Prefix (t.had ++ t.stream.queue) past
      ⊎ (t.has_failed ≡ false) × (t.stream.gone ≡ false) × (past ≡ t.had ++ t.stream.queue)

pub Prefix-append : (xs ys more : List Item) → Prefix xs ys → Prefix xs (ys ++ more)
Prefix-append xs ys more (rest, e) =
    (rest ++ more, ap (λ l. l ++ more) e ∙ append_assoc xs rest more)
