-- ===== src/Relay/Stream/Taken.antt =====
-- What one frame does to the order of a stream.
use gh_pool.Base.{
  ℕ, ◌≤◌, ◌≡◌, refl, true, false, List, [], ◌∷◌, ◌++◌, arith, ◌⊎◌, inl, inr, Bool-cases,
  Option-cases, length, length-append, leb, append_assoc, sym, ◌∙◌, ap,
}
use mathlib.Core.List.{append-nil}
use gh_pool.Wire.Tunnel.{Op, op_open, op_head, op_data, op_text, op_eof, op_close}
use gh_pool.Relay.Stream.{
  Payloads, Head, awaited, told, broken, Stream, stream_size, fail, Offered, took, failed,
  overflowed, raised, enqueue, on_head, on_close, take_in,
}
use gh_pool.Relay.Stream.Trace.{
  Item, offers, Traced, after_offer, frames, Prefix, IsOrdered, Prefix-append,
}

-- What a frame leaves of a stream that is not gone.
abbrev pub Taken : List Item → Stream → Stream × Offered → Type 0
Taken fr s (s', took) =
    (s'.gone ≡ false) × (s'.queue ≡ s.queue ++ fr) × (length s'.queue ≤ stream_size)
Taken fr s (s', failed) = (s'.gone ≡ true) × (length s'.queue ≤ stream_size)
Taken fr s (s', overflowed) = (s'.gone ≡ true) × (length s'.queue ≤ stream_size)
Taken fr s (s', raised) = Unit

enqueue-Taken :
    (k : Payloads) (op : Op) (payload : List ℕ) (s : Stream)
    → s.gone ≡ false
    → Taken ((op, payload) ∷ []) s (enqueue k op payload s)
unfolding enqueue
enqueue-Taken k op payload s g = elim (Bool-cases (leb stream_size (length s.queue))) [
  | inl e ↦ rw (e, enqueue) (unfold fail in (refl, omega arith))
  | inr e ↦
      let longer = length-append s.queue ((op, payload) ∷ []) in
      rw (e, enqueue) (g, refl, ground (arith, longer))
]

on_head-Taken :
    (k : Payloads) (payload : List ℕ) (h : Head) (s : Stream)
    → s.gone ≡ false
    → length s.queue ≤ stream_size
    → Taken [] s (on_head k payload h s)
unfolding on_head
on_head-Taken k payload awaited s g l = elim (Option-cases (k.head_of payload)) [
  | inl e ↦ rw (e, on_head) tt
  | inr (h, e) ↦ rw (e, on_head) (g, sym (append-nil s.queue), l)
]
on_head-Taken k payload (told n) s g l = (g, sym (append-nil s.queue), l)
on_head-Taken k payload (broken e) s g l = (g, sym (append-nil s.queue), l)

on_close-Taken :
    (k : Payloads) (payload : List ℕ) (h : Head) (s : Stream)
    → s.gone ≡ false
    → Taken ((op_close, payload) ∷ []) s (on_close k payload h s)
unfolding on_close
on_close-Taken k payload awaited s g = elim (Option-cases (k.error_of payload)) [
  | inl e ↦ rw (e, on_close) tt
  | inr (r, e) ↦ rw (e, on_close) (unfold fail in (refl, omega arith))
]
on_close-Taken k payload (told n) s g = enqueue-Taken k op_close payload s g
on_close-Taken k payload (broken e) s g = enqueue-Taken k op_close payload s g

pub take_in-Taken :
    (k : Payloads) (op : Op) (payload : List ℕ) (s : Stream)
    → s.gone ≡ false
    → length s.queue ≤ stream_size
    → Taken (frames (offers op payload ∷ [])) s (take_in k op payload s)
unfolding take_in
take_in-Taken k op_head payload s g l = on_head-Taken k payload s.head s g l
take_in-Taken k op_close payload s g l = on_close-Taken k payload s.head s g
take_in-Taken k op_open payload s g l = enqueue-Taken k op_open payload s g
take_in-Taken k op_data payload s g l = enqueue-Taken k op_data payload s g
take_in-Taken k op_text payload s g l = enqueue-Taken k op_text payload s g
take_in-Taken k op_eof payload s g l = enqueue-Taken k op_eof payload s g

-- The loop's end by an exception keeps what the reader had; anything else keeps the order.
abbrev pub Goes : List Item → Traced → Type 0
Goes past t = ((t.ended ≡ true) × Prefix t.had past) ⊎ ((t.ended ≡ false) × IsOrdered past t)

pub after_offer-Goes :
    (past fr : List Item) (t : Traced) (r : Stream × Offered)
    → t.ended ≡ false
    → IsOrdered past t
    → t.has_failed ≡ false
    → past ≡ t.had ++ t.stream.queue
    → Taken fr t.stream r
    → Goes (past ++ fr) (after_offer r t)
unfolding after_offer
after_offer-Goes past fr t (s, took) n o f e (g, q, l) = inr (
  n,
  record {
    short = l;
    first = Prefix-append t.had past fr o.first;
    whole = inr (
        inr (
          f,
          g,
          ap (λ x. x ++ fr) e ∙ append_assoc t.had t.stream.queue fr ∙ ap (λ x. t.had ++ x) (sym q),
        ));
  },
)
after_offer-Goes past fr t (s, failed) n o f e (g, l) =
    inr
      (n, record { short = l; first = Prefix-append t.had past fr o.first; whole = inl (refl, g) })
after_offer-Goes past fr t (s, overflowed) n o f e (g, l) =
    inr
      (n, record { short = l; first = Prefix-append t.had past fr o.first; whole = inl (refl, g) })
after_offer-Goes past fr t (s, raised) n o f e x = inl (refl, Prefix-append t.had past fr o.first)

-- A stream that is gone takes nothing more.
pub gone-Goes :
    (past fr : List Item) (t : Traced)
    → t.ended ≡ false
    → IsOrdered past t
    → t.stream.gone ≡ true
    → Goes (past ++ fr) t
gone-Goes past fr t n o g = inr (
  n,
  record {
    short = o.short;
    first = Prefix-append t.had past fr o.first;
    whole = elim o.whole [
      | inl x ↦ inl x
      | inr (inl (f, g', p)) ↦ inr (inl (f, g', Prefix-append (t.had ++ t.stream.queue) past fr p))
      | inr (inr (f, g', e)) ↦ absurd (ground arith)
    ];
  },
)
