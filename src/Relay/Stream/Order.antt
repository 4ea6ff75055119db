-- ===== src/Relay/Stream/Order.antt =====
-- A reader gets the frames of a stream in their order.
use gh_pool.Base.{
  ℕ, ◌≤◌, ◌≡◌, refl, true, false, List, [], ◌∷◌, ◌++◌, if◌then◌else◌, arith, ◌⊎◌, inl, inr,
  Bool-cases, List-cases, length, append_assoc, sym, ◌∙◌, ap, subst,
}
use mathlib.Core.List.{append-nil}
use gh_pool.Wire.Texts.{Text}
use gh_pool.Wire.Tunnel.{Op, op_open, op_head, op_data, op_text, op_eof, op_close}
use gh_pool.Relay.Stream.{
  Payloads, Stream, new_stream, stream_size, fail, Offered, take_in, offer, read,
}
use gh_pool.Relay.Stream.Woken.{offer_present, offer_absent}
use gh_pool.Relay.Stream.Trace.{
  Item, Act, offers, reads, shuts, fails, Traced, after_offer, act, acts, frames, Prefix, IsOrdered,
  Prefix-append,
}
use gh_pool.Relay.Stream.Taken.{Goes, take_in-Taken, after_offer-Goes, gone-Goes}

offers-Goes :
    (k : Payloads) (op : Op) (payload : List ℕ) (past : List Item) (t : Traced)
    → t.ended ≡ false
    → IsOrdered past t
    → Goes (past ++ frames (offers op payload ∷ [])) (after_offer (offer k op payload t.stream) t)
offers-Goes k op payload past t n o =
    let fr = frames (offers op payload ∷ []) in
    let after = λ (r : Stream × Offered). Goes (past ++ fr) (after_offer r t) in
    elim (Bool-cases t.stream.gone) [
      | inl g ↦
          subst after (sym (offer_absent k op payload t.stream g))
            (unfold after_offer in gone-Goes past fr t n o g)
      | inr g ↦ subst after (sym (offer_present k op payload t.stream g)) (elim o.whole [
        | inl (f, g') ↦ absurd (ground arith)
        | inr (inl (f, g', p)) ↦ absurd (ground arith)
        | inr (inr (f, g', e)) ↦
            after_offer-Goes past fr t (take_in k op payload t.stream) n o f e
              (take_in-Taken k op payload t.stream g o.short)
      ])
    ]

-- The reader's own close leaves the queue.
shuts-Goes :
    (past : List Item) (t : Traced)
    → t.ended ≡ false
    → IsOrdered past t
    → Goes past (record t { stream = record t.stream { gone = true } })
shuts-Goes past t n o = inr (
  n,
  record {
    short = o.short;
    first = o.first;
    whole = elim o.whole [
      | inl (f, g) ↦ inl (f, refl)
      | inr (inl (f, g, p)) ↦ inr (inl (f, refl, p))
      | inr (inr (f, g, e)) ↦
          inr (inl (f, refl, ([], e ∙ sym (append-nil (t.had ++ t.stream.queue)))))
    ];
  },
)

fails-Goes :
    (k : Payloads) (reason : Text) (past : List Item) (t : Traced)
    → t.ended ≡ false
    → IsOrdered past t
    → Goes past (record t { stream = fail k reason t.stream; has_failed = true })
unfolding fail
fails-Goes k reason past t n o =
    inr (n, record { short = omega arith; first = o.first; whole = inl (refl, refl) })

-- The first frame that waits is had next.
moved :
    (had rest past : List Item) (item : Item)
    → Prefix (had ++ (item ∷ rest)) past
    → Prefix ((had ++ (item ∷ [])) ++ rest) past
moved had rest past item (more, e) =
    (more, e ∙ ap (λ l. l ++ more) (sym (append_assoc had (item ∷ []) rest)))

shorter : (had rest past : List Item) → Prefix (had ++ rest) past → Prefix had past
shorter had rest past (more, e) = (rest ++ more, e ∙ append_assoc had rest more)

read_rest :
    (k : Payloads) (s : Stream) (item : Item) (rest : List Item)
    → s.queue ≡ item ∷ rest
    → (read k s).0 ≡ record s { queue = rest }
unfolding read
read_rest k s item rest q = rw (q, read) refl

-- After a read of `item`, with `rest` behind it.
had_one :
    (past : List Item) (t : Traced) (item : Item) (rest : List Item)
    → t.ended ≡ false
    → IsOrdered past t
    → t.stream.queue ≡ item ∷ rest
    → Goes past (record t {
      stream = record t.stream { queue = rest };
      had = if t.has_failed then t.had else t.had ++ (item ∷ []);
    })
had_one past t item rest n o q =
    let fewer : length rest ≤ stream_size = omega (arith, ap length q, o.short) in
    elim o.whole [
      | inl (f, g) ↦
          rw f (inr (n, record { short = fewer; first = o.first; whole = inl (refl, g) }))
      | inr (inl (f, g, p)) ↦
          let here = moved t.had rest past item (rw q at p) in
          rw f (
            inr (
              n,
              record {
                short = fewer;
                first = shorter (t.had ++ (item ∷ [])) rest past here;
                whole = inr (inl (refl, g, here));
              },
            ))
      | inr (inr (f, g, e)) ↦
          let here : past ≡ (t.had ++ (item ∷ [])) ++ rest =
            (rw q at e) ∙ sym (append_assoc t.had (item ∷ []) rest) in
          rw f (
            inr (
              n,
              record { short = fewer; first = (rest, here); whole = inr (inr (refl, g, here)) },
            ))
    ]

reads-Goes :
    (k : Payloads) (past : List Item) (t : Traced)
    → t.ended ≡ false
    → IsOrdered past t
    → Goes past (act k reads t)
unfolding act
reads-Goes k past t n o = elim (List-cases t.stream.queue) [
  | inl q ↦ rw (q, act) (inr (n, o))
  | inr (item, rest, q) ↦
      let after = λ (s : Stream).
        Goes past
          (record t { stream = s; had = if t.has_failed then t.had else t.had ++ (item ∷ []) }) in
      rw (q, act)
        (subst after (sym (read_rest k t.stream item rest q)) (had_one past t item rest n o q))
]

act-Goes :
    (k : Payloads) (a : Act) (past : List Item) (t : Traced)
    → t.ended ≡ false
    → IsOrdered past t
    → Goes (past ++ frames (a ∷ [])) (act k a t)
act-Goes k (offers op payload) past t n o = unfold act in offers-Goes k op payload past t n o
act-Goes k reads past t n o =
    subst (λ p. Goes p (act k reads t)) (sym (append-nil past)) (reads-Goes k past t n o)
act-Goes k shuts past t n o =
    subst (λ p. Goes p (act k shuts t)) (sym (append-nil past))
      (unfold act in shuts-Goes past t n o)
act-Goes k (fails reason) past t n o =
    subst (λ p. Goes p (act k (fails reason) t)) (sym (append-nil past))
      (unfold act in fails-Goes k reason past t n o)

frames-cons : (a : Act) (rest : List Act) → frames (a ∷ rest) ≡ frames (a ∷ []) ++ frames rest
frames-cons (offers op_head payload) rest = refl
frames-cons (offers op_open payload) rest = refl
frames-cons (offers op_data payload) rest = refl
frames-cons (offers op_text payload) rest = refl
frames-cons (offers op_eof payload) rest = refl
frames-cons (offers op_close payload) rest = refl
frames-cons reads rest = refl
frames-cons shuts rest = refl
frames-cons (fails reason) rest = refl

acts-Goes :
    (k : Payloads) (as_ : List Act) (past : List Item) (t : Traced)
    → t.ended ≡ false
    → IsOrdered past t
    → Goes (past ++ frames as_) (acts k as_ t)
unfolding acts
acts-Goes k [] past t n o = subst (λ p. Goes p t) (sym (append-nil past)) (inr (n, o))
acts-Goes k (a ∷ as_) past t n o =
    let t' = act k a t in
    let whole : (past ++ frames (a ∷ [])) ++ frames as_ ≡ past ++ frames (a ∷ as_) =
      append_assoc past (frames (a ∷ [])) (frames as_)
      ∙ ap (λ l. past ++ l) (sym (frames-cons a as_)) in
    elim (act-Goes k a past t n o) [
      | inl (e, p) ↦
          rw (e, acts)
            (inl (
              e,
              subst (Prefix t'.had) whole
                  (Prefix-append t'.had (past ++ frames (a ∷ [])) (frames as_) p),
            ))
      | inr (e, o') ↦
          rw (e, acts)
            (subst (λ l. Goes l (acts k as_ t')) whole
              (acts-Goes k as_ (past ++ frames (a ∷ [])) t' e o'))
    ]

-- A new stream, before anything happens.
abbrev pub untouched : Traced
untouched = record { stream = new_stream; had = []; has_failed = false; ended = false }

-- The queue of a stream holds at most 256 frames, and its reader has had, of the frames that were
-- offered, the heads left out, the first ones, in their order and with none missing, however the
-- frames, the reads, the reader's close and failures come one after the other. As long as the stream
-- is not gone and no exception has ended the tunnel's loop, those that the reader has not had are all
-- in the queue.
pub acts-ordered :
    (k : Payloads) (as_ : List Act)
    → Prefix (acts k as_ untouched).had (frames as_)
      × (((acts k as_ untouched).ended ≡ true)
          ⊎ ((length (acts k as_ untouched).stream.queue ≤ stream_size)
              × (((acts k as_ untouched).stream.gone ≡ true)
                  ⊎ (frames as_
                      ≡ (acts k as_ untouched).had ++ (acts k as_ untouched).stream.queue))))
acts-ordered k as_ = elim (acts-Goes k as_ [] untouched refl start) [
  | inl (e, p) ↦ (p, inl e)
  | inr (e, o) ↦ (
    o.first,
    inr (
      o.short,
      (elim o.whole [
        | inl (f, g) ↦ inl g
        | inr (inl (f, g, p)) ↦ inl g
        | inr (inr (f, g, all)) ↦ inr all
      ]),
    ),
  )
]
  where
    start : IsOrdered [] untouched
    start =
        unfold new_stream in
        record { short = omega arith; first = ([], refl); whole = inr (inr (refl, refl, refl)) }
