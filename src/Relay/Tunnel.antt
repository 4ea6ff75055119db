-- ===== src/Relay/Tunnel.antt =====
-- Tunnel of relay/tunnel.py: the streams over one socket. A stream's object outlives its place in
-- _streams, so `objects` has all that were made and `live` the keys of _streams. Whether the socket
-- takes a frame is an argument.
pub mod Watched
pub mod Awake
use gh_pool.Base.{
  ℕ, suc, Bool, true, false, Option, none, some, List, [], ◌∷◌, ◌++◌, if◌then◌else◌, Result, ok,
  err,
}
use gh_pool.Base.Dict.{Dict, lookup, put}
use gh_pool.Base.Members.{member, add, discard}
use gh_pool.Wire.Texts.{Text, codes, is_empty}
use gh_pool.Wire.Tunnel.{Op, op_open, op_close, parse}
use gh_pool.Relay.Stream.{
  Payloads, Stream, new_stream, fail, offer, Offered, took, failed, overflowed, raised, too_far,
  read,
}

pub record Tunnel : Type 0 where
  pub objects : Dict Stream
  pub live : List ℕ
  pub next_id : ℕ
  pub alive : Bool
  pub sent : List (Op × ℕ × List ℕ)

-- Tunnel.__init__
unfoldable pub new_tunnel : Tunnel
new_tunnel = record { objects = []; live = []; next_id = 0; alive = true; sent = [] }

-- send: false is TunnelDown.
unfoldable pub send : Bool → Op → ℕ → List ℕ → Tunnel → Tunnel × Bool
send takes op id payload t =
    if t.alive
    then (if takes
        then (record t { sent = t.sent ++ ((op, id, payload) ∷ []) }, true)
        else (record t { alive = false }, false))
    else (t, false)

-- forget
unfoldable pub forget : ℕ → Tunnel → Tunnel
forget id t = record t { live = discard id t.live }

-- open: none is TunnelDown.
unfoldable pub open_stream : Bool → List ℕ → Tunnel → Tunnel × Option ℕ
unfolding send forget new_stream
open_stream takes message t =
    let id = suc t.next_id in
    let made = record t {
      objects = put id new_stream t.objects;
      live = add id t.live;
      next_id = id;
    } in
    let (t', there) = send takes op_open id message made in
    if there then (t', some id) else (forget id t', none)

-- What an offer asks of the tunnel, once the stream is written back; false is an exception.
unfoldable pub settle : Payloads → Bool → ℕ → Offered → Tunnel → Tunnel × Bool
unfolding send forget
settle k takes id took t = (t, true)
settle k takes id raised t = (t, false)
settle k takes id failed t = (forget id t, true)
settle k takes id overflowed t =
    ((send takes op_close id (k.close_bytes (some too_far)) (forget id t)).0, true)

-- stream.offer, for a stream among _streams
unfoldable pub offer_to : Payloads → Bool → Op → ℕ → List ℕ → Tunnel → Tunnel × Bool
unfolding settle
offer_to k takes op id payload t = elim (lookup id t.objects) [
  | none ↦ (t, true)
  | some s ↦
      let (s', o) = offer k op payload s in
      settle k takes id o (record t { objects = put id s' t.objects })
]

-- A round of serve: a message that is no frame is an exception, an unknown operation or stream is
-- passed over.
unfoldable pub receive : Payloads → Bool → List ℕ → Tunnel → Tunnel × Bool
unfolding offer_to
receive k takes message t = elim (parse message) [
  | err e ↦ (t, false)
  | ok (op, id, payload) ↦ elim op [
    | none ↦ (t, true)
    | some o ↦ if member id t.live then offer_to k takes o id payload t else (t, true)
  ]
]

-- Stream.close
unfoldable pub close : Payloads → Bool → ℕ → Option Text → Tunnel → Tunnel
unfolding send forget
close k takes id error t = elim (lookup id t.objects) [
  | none ↦ t
  | some s ↦
      if s.gone
      then t
      else (send takes op_close id (k.close_bytes error)
          (forget id (record t { objects = put id (record s { gone = true }) t.objects }))).0
]

-- Stream.read, of a stream's reader
unfoldable pub read_of : Payloads → ℕ → Tunnel → Tunnel
unfolding read
read_of k id t = elim (lookup id t.objects) [
  | none ↦ t
  | some s ↦ record t { objects = put id (read k s).0 t.objects }
]

abbrev pub went_away : Text
went_away = codes "the runner went away"

-- stream.fail, for one of _streams
unfoldable pub fail_at : Payloads → ℕ → Dict Stream → Dict Stream
unfolding fail
fail_at k id objects = elim (lookup id objects) [
  | none ↦ objects
  | some s ↦ put id (fail k went_away s) objects
]

-- The streams of shutdown's loop.
unfoldable pub fail_all : Payloads → List ℕ → Dict Stream → Dict Stream
unfolding fail_at
fail_all k [] objects = objects
fail_all k (id ∷ ids) objects = fail_all k ids (fail_at k id objects)

-- shutdown
unfoldable pub shutdown : Payloads → Tunnel → Tunnel
unfolding fail_all
shutdown k t = record t { objects = fail_all k t.live t.objects; live = []; alive = false }

-- What may come between two rounds of serve, and a round.
pub data Event : Type 0 where
  received : (takes : Bool) → List ℕ → Event
  opened : (takes : Bool) → List ℕ → Event
  closed : (takes : Bool) → ℕ → Option Text → Event
  was_read : ℕ → Event

unfoldable pub happen : Payloads → Event → Tunnel → Tunnel × Bool
unfolding receive open_stream close read_of
happen k (received takes message) t = receive k takes message t
happen k (opened takes message) t = ((open_stream takes message t).0, true)
happen k (closed takes id error) t = (close k takes id error t, true)
happen k (was_read id) t = (read_of k id t, true)

-- serve: it ends with the events, by a disconnect, or at an exception, and shuts the tunnel down.
unfoldable pub serve : Payloads → List Event → Tunnel → Tunnel
unfolding happen shutdown
serve k [] t = shutdown k t
serve k (e ∷ es) t =
    let (t', goes_on) = happen k e t in
    let rest = serve k es t' in if goes_on then rest else shutdown k t'
