-- ===== src/Relay/Tunnel/Awake.antt =====
-- No reader of a tunnel is left waiting.
use gh_pool.Base.{
  ℕ, ◌≡◌, refl, true, false, some, List, [], ◌∷◌, arith, ◌⊎◌, inl, inr, Bool-cases, Option-cases,
  ◌==◌, ◌∙◌, subst,
}
use gh_pool.Base.Dict.{Dict, lookup, lookup-put, lookup-put_self}
use gh_pool.Base.Members.{member}
use gh_pool.Wire.Texts.{Text}
use gh_pool.Relay.Stream.{Payloads, Stream, fail, down, read, on_item}
use gh_pool.Relay.Tunnel.{
  Tunnel, went_away, fail_at, fail_all, shutdown, Event, received, opened, closed, was_read, happen,
  serve,
}
use gh_pool.Relay.Stream.Woken.{is_awaited, IsWoken, fail-IsWoken}
use gh_pool.Relay.Tunnel.Watched.{
  IsWatched, open_stream-IsWatched, receive-IsWatched, close-IsWatched, read_of-IsWatched,
}

-- The reader of the stream does nothing meanwhile: it waits.
abbrev pub IsQuiet : ℕ → List Event → Type 0
IsQuiet j [] = Unit
IsQuiet j (closed takes id error ∷ es) = ((id == j) ≡ false) × IsQuiet j es
IsQuiet j (was_read id ∷ es) = ((id == j) ≡ false) × IsQuiet j es
IsQuiet j (e ∷ es) = IsQuiet j es

fail_at-own :
    (k : Payloads) (j : ℕ) (objects : Dict Stream) (s : Stream)
    → lookup j objects ≡ some s
    → lookup j (fail_at k j objects) ≡ some (fail k went_away s)
unfolding fail_at
fail_at-own k j objects s e = rw (e, fail_at) (lookup-put_self j (fail k went_away s) objects)

fail_at-other :
    (k : Payloads) (j id : ℕ) (objects : Dict Stream)
    → (id == j) ≡ false
    → lookup j (fail_at k id objects) ≡ lookup j objects
unfolding fail_at
fail_at-other k j id objects a = elim (Option-cases (lookup id objects)) [
  | inl e ↦ rw (e, fail_at) refl
  | inr (s, e) ↦ rw (e, fail_at) (ground (arith, lookup-put id j (fail k went_away s) objects))
]

fail_all-IsWoken :
    (k : Payloads) (j : ℕ) (ids : List ℕ) (objects : Dict Stream) (s : Stream)
    → lookup j objects ≡ some s
    → IsWoken k s ⊎ (member j ids ≡ true)
    → (s' : Stream) × (lookup j (fail_all k ids objects) ≡ some s') × IsWoken k s'
unfolding fail_all member
fail_all-IsWoken k j [] objects s e (inl x) = (s, e, x)
fail_all-IsWoken k j [] objects s e (inr m) = absurd (ground arith)
fail_all-IsWoken k j (id ∷ ids) objects s e h = elim (Bool-cases (id == j)) [
  | inl a ↦
      let same : j ≡ id = ground arith in
      let here =
        subst (λ i. lookup j (fail_at k i objects) ≡ some (fail k went_away s)) same
          (fail_at-own k j objects s e) in
      fail_all-IsWoken k j ids (fail_at k id objects) (fail k went_away s) here
        (inl (fail-IsWoken k went_away s))
  | inr a ↦
      let here = fail_at-other k j id objects a ∙ e in
      let still : IsWoken k s ⊎ (member j ids ≡ true) = elim h [
        | inl x ↦ inl x
        | inr m ↦ inr (ground arith)
      ] in
      fail_all-IsWoken k j ids (fail_at k id objects) s here still
]

shutdown-IsWoken :
    (k : Payloads) (j : ℕ) (t : Tunnel)
    → IsWatched k j t
    → (s : Stream) × (lookup j (shutdown k t).objects ≡ some s) × IsWoken k s
unfolding shutdown
shutdown-IsWoken k j t w =
    fail_all-IsWoken k j t.live t.objects w.stream w.there
      (elim w.watched [ inl (g, m) ↦ inr m | inr x ↦ inl x ])

happen-IsWatched :
    (k : Payloads) (j : ℕ) (e : Event) (t : Tunnel)
    → IsQuiet j (e ∷ [])
    → IsWatched k j t
    → IsWatched k j (happen k e t).0
unfolding happen
happen-IsWatched k j (received takes message) t q w = receive-IsWatched k j takes message t w
happen-IsWatched k j (opened takes message) t q w = open_stream-IsWatched k j takes message t w
happen-IsWatched k j (closed takes id error) t q w = close-IsWatched k j id q.0 takes error t w
happen-IsWatched k j (was_read id) t q w = read_of-IsWatched k j id q.0 t w

first-IsQuiet :
    (j : ℕ) (e : Event) (es : List Event) → IsQuiet j (e ∷ es) → IsQuiet j (e ∷ []) × IsQuiet j es
first-IsQuiet j (received takes message) es q = (tt, q)
first-IsQuiet j (opened takes message) es q = (tt, q)
first-IsQuiet j (closed takes id error) es q = ((q.0, tt), q.1)
first-IsQuiet j (was_read id) es q = ((q.0, tt), q.1)

serve-IsWoken :
    (k : Payloads) (j : ℕ) (es : List Event) (t : Tunnel)
    → IsQuiet j es
    → IsWatched k j t
    → (s : Stream) × (lookup j (serve k es t).objects ≡ some s) × IsWoken k s
unfolding serve
serve-IsWoken k j [] t q w = shutdown-IsWoken k j t w
serve-IsWoken k j (e ∷ es) t q w =
    let (now, later) = first-IsQuiet j e es q in
    let w' = happen-IsWatched k j e t now w in
    elim (Bool-cases (happen k e t).1) [
      | inl g ↦ rw (g, serve) (serve-IsWoken k j es (happen k e t).0 later w')
      | inr g ↦ rw (g, serve) (shutdown-IsWoken k j (happen k e t).0 w')
    ]

serve-down :
    (k : Payloads) (es : List Event) (t : Tunnel)
    → ((serve k es t).alive ≡ false) × ((serve k es t).live ≡ [])
unfolding serve shutdown
serve-down k [] t = (refl, refl)
serve-down k (e ∷ es) t = elim (Bool-cases (happen k e t).1) [
  | inl g ↦ rw (g, serve) (serve-down k es (happen k e t).0)
  | inr g ↦ rw (g, serve) (refl, refl)
]

-- However a tunnel comes to its end, by a disconnect or by an exception, and whatever frames came,
-- streams were opened and other readers did before, no reader is left waiting on a stream that could
-- be reached: its next read is TunnelDown with a reason, and the head that it may wait for has come or
-- is broken. The tunnel is not alive then, and no stream is left in it.
pub serve-wakes :
    (k : Payloads) (j : ℕ) (es : List Event) (t : Tunnel)
    → IsQuiet j es
    → IsWatched k j t
    → ((serve k es t).alive ≡ false)
      × ((serve k es t).live ≡ [])
      × (s : Stream) × (reason : Text) × (lookup j (serve k es t).objects ≡ some s)
      × ((read k s).1 ≡ down reason)
      × (is_awaited s.head ≡ false)
unfolding read on_item
serve-wakes k j es t q w =
    let (s, e, x) = serve-IsWoken k j es t q w in
    let (a, l) = serve-down k es t in
    (
      a,
      l,
      s,
      x.reason,
      e,
      rw (x.left, read)
          (rw (k.close_bytes_full (some x.reason), k.error_of_close (some x.reason), on_item) refl),
      x.settled,
    )
