-- ===== src/Relay/Stream.antt =====
-- Stream of relay/tunnel.py: one stream of a tunnel, from its frames to its reader. The models of the
-- payloads are pydantic's, and a parameter; none is a payload that does not fit its model.
pub mod Woken
pub mod Trace
pub mod Taken
pub mod Order
use gh_pool.Base.{
  ℕ, Bool, true, false, Option, none, some, List, [], ◌∷◌, ◌++◌, if◌then◌else◌, leb, length, ◌≡◌,
}
use gh_pool.Wire.Texts.{Text, codes, is_empty}
use gh_pool.Wire.Tunnel.{Op, op_open, op_head, op_data, op_text, op_eof, op_close}

-- payload or b"{}"
unfoldable pub or_object : List ℕ → List ℕ
or_object [] = 123 ∷ 125 ∷ []
or_object (b ∷ bytes) = b ∷ bytes

-- A Head's status, a Close's error, and the bytes of a Close, which are not empty and read as it.
pub record Payloads : Type 0 where
  pub head_of : List ℕ → Option ℕ
  pub error_of : List ℕ → Option (Option Text)
  pub close_bytes : Option Text → List ℕ
  pub error_of_close : (e : Option Text) → error_of (close_bytes e) ≡ some e
  pub close_bytes_full : (e : Option Text) → or_object (close_bytes e) ≡ close_bytes e

-- The future of the head.
pub data Head : Type 0 where
  awaited : Head
  told : ℕ → Head
  broken : Text → Head

pub record Stream : Type 0 where
  pub head : Head
  pub gone : Bool
  pub queue : List (Op × List ℕ)

-- QUEUE_SIZE
abbrev pub stream_size : ℕ
stream_size = 256

-- Stream.__init__
unfoldable pub new_stream : Stream
new_stream = record { head = awaited; gone = false; queue = [] }

unfoldable pub break_head : Text → Head → Head
break_head reason awaited = broken reason
break_head reason h = h

-- fail, but for the owner's forget.
unfoldable pub fail : Payloads → Text → Stream → Stream
unfolding break_head
fail k reason s = record {
  head = break_head reason s.head;
  gone = true;
  queue = (op_close, k.close_bytes (some reason)) ∷ [];
}

-- What an offer asks of the tunnel: nothing, to forget the stream, that and to tell the runner, or to
-- end by an exception.
pub data Offered : Type 0 where
  took failed overflowed raised : Offered

abbrev pub too_far : Text
too_far = codes "the viewer fell too far behind"

-- Close.error or "closed"
unfoldable pub or_closed : Option Text → Text
or_closed none = codes "closed"
or_closed (some e) = if is_empty e then codes "closed" else e

-- put_nowait
unfoldable pub enqueue : Payloads → Op → List ℕ → Stream → Stream × Offered
unfolding fail
enqueue k op payload s =
    if leb stream_size (length s.queue)
    then (fail k too_far s, overflowed)
    else (record s { queue = s.queue ++ ((op, payload) ∷ []) }, took)

-- A HEAD sets the future once.
unfoldable pub on_head : Payloads → List ℕ → Head → Stream → Stream × Offered
on_head k payload awaited s = elim (k.head_of payload) [
  | none ↦ (s, raised)
  | some h ↦ (record s { head = told h }, took)
]
on_head k payload h s = (s, took)

-- A CLOSE before the head fails the stream.
unfoldable pub on_close : Payloads → List ℕ → Head → Stream → Stream × Offered
unfolding fail or_closed enqueue
on_close k payload awaited s = elim (k.error_of payload) [
  | none ↦ (s, raised)
  | some e ↦ (fail k (or_closed e) s, failed)
]
on_close k payload h s = enqueue k op_close payload s

-- offer, on a stream that is not gone
unfoldable pub take_in : Payloads → Op → List ℕ → Stream → Stream × Offered
unfolding on_head on_close enqueue
take_in k op_head payload s = on_head k payload s.head s
take_in k op_close payload s = on_close k payload s.head s
take_in k op_open payload s = enqueue k op_open payload s
take_in k op_data payload s = enqueue k op_data payload s
take_in k op_text payload s = enqueue k op_text payload s
take_in k op_eof payload s = enqueue k op_eof payload s

-- offer
unfoldable pub offer : Payloads → Op → List ℕ → Stream → Stream × Offered
unfolding take_in
offer k op payload s = if s.gone then (s, took) else take_in k op payload s

-- How a read ends: it waits, has an item, the stream has ended, or TunnelDown.
pub data Read : Type 0 where
  waits ended : Read
  got : Op × List ℕ → Read
  down : Text → Read
  read_raises : Read

-- What read makes of an item.
unfoldable pub on_item : Payloads → Op → List ℕ → Read
unfolding or_object
on_item k op_close payload = elim (k.error_of (or_object payload)) [
  | none ↦ read_raises
  | some e ↦ elim e [ none ↦ ended | some reason ↦ down reason ]
]
on_item k op payload = got (op, payload)

-- read
unfoldable pub read : Payloads → Stream → Stream × Read
unfolding on_item
read k s = elim s.queue [
  | [] ↦ (s, waits)
  | (op, payload) ∷ rest ↦ (record s { queue = rest }, on_item k op payload)
]
