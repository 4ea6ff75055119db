-- ===== src/Relay/Tunnel/Watched.antt =====
-- What keeps a stream reachable, or fails it.
use gh_pool.Base.{
  ℕ, suc, ◌≤◌, ◌≡◌, refl, Bool, true, false, Option, some, List, arith, ◌⊎◌, inl, inr, Bool-cases,
  Option-cases, Result-cases, ◌==◌, sym, ◌∙◌, ap, subst,
}
use gh_pool.Base.Dict.{lookup, put, lookup-put, lookup-put_self}
use gh_pool.Base.Members.{member, add, discard, member-add, member-discard}
use gh_pool.Wire.Texts.{Text}
use gh_pool.Wire.Tunnel.{Op, op_open, op_close, parse}
use gh_pool.Relay.Stream.{
  Payloads, Stream, new_stream, Offered, took, failed, overflowed, raised, too_far, take_in, offer,
  read,
}
use gh_pool.Relay.Tunnel.{
  Tunnel, send, forget, open_stream, settle, offer_to, receive, close, read_of,
}
use gh_pool.Relay.Stream.Woken.{IsWoken, Left, take_in-Left, offer_present, offer_absent}

-- The stream of a reader: it can still be reached by the frames of the runner, or has failed.
pub record IsWatched (k : Payloads) (j : ℕ) (t : Tunnel) : Type 0 where
  pub stream : Stream
  pub there : lookup j t.objects ≡ some stream
  pub known : j ≤ t.next_id
  pub watched : ((stream.gone ≡ false) × (member j t.live ≡ true)) ⊎ IsWoken k stream

-- The parts of a tunnel that a watched stream depends on.
same-IsWatched :
    (k : Payloads) (j : ℕ) (t t' : Tunnel)
    → lookup j t'.objects ≡ lookup j t.objects
    → member j t'.live ≡ member j t.live
    → t.next_id ≤ t'.next_id
    → IsWatched k j t
    → IsWatched k j t'
same-IsWatched k j t t' o l n w = record {
  stream = w.stream;
  there = o ∙ w.there;
  known = omega (arith, n, w.known);
  watched = elim w.watched [ inl (g, m) ↦ inl (g, l ∙ m) | inr x ↦ inr x ];
}

-- send changes the frames sent and alive alone.
abbrev Sent : Tunnel → Tunnel → Type 0
Sent t t' = (t'.objects ≡ t.objects) × (t'.live ≡ t.live) × (t'.next_id ≡ t.next_id)

send-Sent :
    (takes : Bool) (op : Op) (id : ℕ) (payload : List ℕ) (t : Tunnel)
    → Sent t (send takes op id payload t).0
unfolding send
send-Sent takes op id payload t = (ground arith, ground arith, ground arith)

send-IsWatched :
    (k : Payloads) (j : ℕ) (takes : Bool) (op : Op) (id : ℕ) (payload : List ℕ) (t : Tunnel)
    → IsWatched k j t
    → IsWatched k j (send takes op id payload t).0
send-IsWatched k j takes op id payload t w =
    let (o, l, n) = send-Sent takes op id payload t in
    same-IsWatched k j t (send takes op id payload t).0 (ap (lookup j) o) (ap (member j) l)
      (omega (arith, n)) w

-- What happens to another stream.
module _ (k : Payloads) (j id : ℕ) (apart : (id == j) ≡ false) where
  forget-IsWatched : (t : Tunnel) → IsWatched k j t → IsWatched k j (forget id t)
  unfolding forget
  forget-IsWatched t w =
      same-IsWatched k j t (record t { live = discard id t.live }) refl
        (ground (arith, member-discard id j t.live)) (omega arith) w

  put-IsWatched :
      (s : Stream) (t : Tunnel)
      → IsWatched k j t
      → IsWatched k j (record t { objects = put id s t.objects })
  put-IsWatched s t w =
      same-IsWatched k j t (record t { objects = put id s t.objects })
        (ground (arith, lookup-put id j s t.objects)) refl (omega arith) w

  settle-IsWatched :
      (takes : Bool) (o : Offered) (t : Tunnel)
      → IsWatched k j t
      → IsWatched k j (settle k takes id o t).0
  unfolding settle
  settle-IsWatched takes took t w = w
  settle-IsWatched takes raised t w = w
  settle-IsWatched takes failed t w = forget-IsWatched t w
  settle-IsWatched takes overflowed t w =
      send-IsWatched k j takes op_close id (k.close_bytes (some too_far)) (forget id t)
        (forget-IsWatched t w)

  offer_to-IsWatched :
      (takes : Bool) (op : Op) (payload : List ℕ) (t : Tunnel)
      → IsWatched k j t
      → IsWatched k j (offer_to k takes op id payload t).0
  unfolding offer_to
  offer_to-IsWatched takes op payload t w = elim (Option-cases (lookup id t.objects)) [
    | inl e ↦ rw (e, offer_to) w
    | inr (s, e) ↦
        let r = offer k op payload s in
        rw (e, offer_to)
          (settle-IsWatched takes r.1 (record t { objects = put id r.0 t.objects })
            (put-IsWatched r.0 t w))
  ]

  pub close-IsWatched :
      (takes : Bool) (error : Option Text) (t : Tunnel)
      → IsWatched k j t
      → IsWatched k j (close k takes id error t)
  unfolding close
  close-IsWatched takes error t w = elim (Option-cases (lookup id t.objects)) [
    | inl e ↦ rw (e, close) w
    | inr (s, e) ↦ elim (Bool-cases s.gone) [
      | inl g ↦ rw (e, close, g) w
      | inr g ↦
          let put_back = record t { objects = put id (record s { gone = true }) t.objects } in
          rw (e, close, g)
            (send-IsWatched k j takes op_close id (k.close_bytes error) (forget id put_back)
              (forget-IsWatched put_back (put-IsWatched (record s { gone = true }) t w)))
    ]
  ]

  pub read_of-IsWatched : (t : Tunnel) → IsWatched k j t → IsWatched k j (read_of k id t)
  unfolding read_of
  read_of-IsWatched t w = elim (Option-cases (lookup id t.objects)) [
    | inl e ↦ rw (e, read_of) w
    | inr (s, e) ↦ rw (e, read_of) (put-IsWatched (read k s).0 t w)
  ]

-- A stream that is opened is another one.
pub open_stream-IsWatched :
    (k : Payloads) (j : ℕ) (takes : Bool) (message : List ℕ) (t : Tunnel)
    → IsWatched k j t
    → IsWatched k j (open_stream takes message t).0
unfolding open_stream
open_stream-IsWatched k j takes message t w =
    let id = suc t.next_id in
    let apart : (id == j) ≡ false = ground (arith, w.known) in
    let made = record t {
      objects = put id new_stream t.objects;
      live = add id t.live;
      next_id = id;
    } in
    let first : IsWatched k j made =
      same-IsWatched k j t made (ground (arith, lookup-put id j new_stream t.objects))
        (ground (arith, member-add id j t.live)) (omega arith) w in
    let after = send-IsWatched k j takes op_open id message made first in
    elim (Bool-cases (send takes op_open id message made).1) [
      | inl e ↦ rw (e, open_stream) after
      | inr e ↦
          rw (e, open_stream)
            (forget-IsWatched k j id apart (send takes op_open id message made).0 after)
    ]

-- A woken stream stays so, wherever it stands.
woken-IsWatched :
    (k : Payloads) (j : ℕ) (s : Stream) (t : Tunnel)
    → lookup j t.objects ≡ some s
    → j ≤ t.next_id
    → IsWoken k s
    → IsWatched k j t
woken-IsWatched k j s t e n x = record { stream = s; there = e; known = n; watched = inr x }

settle_own-IsWatched :
    (k : Payloads) (j : ℕ) (takes : Bool) (s : Stream) (o : Offered) (t : Tunnel)
    → lookup j t.objects ≡ some s
    → j ≤ t.next_id
    → member j t.live ≡ true
    → Left k (s, o)
    → IsWatched k j (settle k takes j o t).0
unfolding settle forget
settle_own-IsWatched k j takes s took t e n m l = record {
  stream = s;
  there = e;
  known = n;
  watched = inl (l, m);
}
settle_own-IsWatched k j takes s raised t e n m l = record {
  stream = s;
  there = e;
  known = n;
  watched = inl (l, m);
}
settle_own-IsWatched k j takes s failed t e n m l =
    woken-IsWatched k j s (record t { live = discard j t.live }) e n l
settle_own-IsWatched k j takes s overflowed t e n m l =
    send-IsWatched k j takes op_close j (k.close_bytes (some too_far))
      (record t { live = discard j t.live })
      (woken-IsWatched k j s (record t { live = discard j t.live }) e n l)

offer_own-IsWatched :
    (k : Payloads) (j : ℕ) (takes : Bool) (op : Op) (payload : List ℕ) (t : Tunnel)
    → IsWatched k j t
    → IsWatched k j (offer_to k takes op j payload t).0
unfolding offer_to
offer_own-IsWatched k j takes op payload t w =
    let after = λ (r : Stream × Offered).
      IsWatched k j (settle k takes j r.1 (record t { objects = put j r.0 t.objects })).0 in
    elim w.watched [
      | inr x ↦
          let back = record t { objects = put j w.stream t.objects } in
          rw (w.there, offer_to)
            (subst after (sym (offer_absent k op payload w.stream x.over)) (
              unfold settle in
              woken-IsWatched k j w.stream back (lookup-put_self j w.stream t.objects) w.known x))
      | inl (g, m) ↦
          let r = take_in k op payload w.stream in
          let back = record t { objects = put j r.0 t.objects } in
          rw (w.there, offer_to)
            (subst after (sym (offer_present k op payload w.stream g)) (
              settle_own-IsWatched k j takes r.0 r.1 back (lookup-put_self j r.0 t.objects) w.known
                m (take_in-Left k op payload w.stream g)))
    ]

pub receive-IsWatched :
    (k : Payloads) (j : ℕ) (takes : Bool) (message : List ℕ) (t : Tunnel)
    → IsWatched k j t
    → IsWatched k j (receive k takes message t).0
unfolding receive
receive-IsWatched k j takes message t w = elim (Result-cases (parse message)) [
  | inr (e, x) ↦ rw (x, receive) w
  | inl ((op, id, payload), x) ↦ elim (Option-cases op) [
    | inl n ↦ rw (x, receive, n) w
    | inr (o, n) ↦ elim (Bool-cases (member id t.live)) [
      | inr m ↦ rw (x, receive, n, m) w
      | inl m ↦ elim (Bool-cases (id == j)) [
        | inr a ↦ rw (x, receive, n, m) (offer_to-IsWatched k j id a takes o payload t w)
        | inl a ↦
            let same : j ≡ id = ground arith in
            let own = offer_own-IsWatched k j takes o payload t w in
            rw (x, receive, n, m)
              (subst (λ i. IsWatched k j (offer_to k takes o i payload t).0) same own)
      ]
    ]
  ]
]
