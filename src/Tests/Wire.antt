-- ===== src/Tests/Wire.antt =====
-- The properties of the formats at concrete inputs.
use gh_pool.Base.{
  ℕ, zero, suc, none, Bool, ◌==◌, ◌≡◌, refl, some, List, [], ◌∷◌, ◌++◌, ok, map, flatten, take,
  drop,
}
use gh_pool.Wire.Texts.{Text, rstrip, lstrip, strip, split_on}
use gh_pool.Wire.Trace.{TraceContext, parse_trace}
use gh_pool.Wire.Trace.Carried.{Carries, parse_trace-Carries}
use gh_pool.Wire.Sse.{Decoder, parse_sse, split_line, join_lines}
use gh_pool.Wire.Events.{Encoder, Frame, Round, silent, came, pump, written, encode, id_lines}
use gh_pool.Wire.Events.Told.{IsSafe, events, parse_sse-pump}
use gh_pool.Wire.Tunnel.{frame, parse, op_data}
use gh_pool.Wire.Tunnel.Frames.{parse-frame}

framed : frame op_data 258 (7 ∷ []) ≡ ok (3 ∷ 0 ∷ 0 ∷ 1 ∷ 2 ∷ 7 ∷ [])
unfolding frame
framed = refl

parse-frame_example : parse (3 ∷ 0 ∷ 0 ∷ 1 ∷ 2 ∷ 7 ∷ []) ≡ ok (some op_data, 258, 7 ∷ [])
parse-frame_example = parse-frame op_data 258 (7 ∷ []) (3 ∷ 0 ∷ 0 ∷ 1 ∷ 2 ∷ 7 ∷ []) framed

-- Bytes that are characters.
abbrev plain : Decoder (Unit {0})
plain = record {
  start = tt;
  decode = λ s b. (s, b);
  decode_nil = λ s. refl;
  decode_append = λ s a b. refl;
}

abbrev plain_bytes : Encoder plain
plain_bytes = record {
  bytes = λ t. t;
  bytes_nil = refl;
  bytes_append = λ a b. refl;
  decode_bytes = λ t. refl;
}

-- A frame of the text "a" with the data "7" and the number "1".
abbrev small : Frame
small = record { name = b'a' ∷ []; content = b'7' ∷ []; id = some (b'1' ∷ []) }

small-IsSafe : IsSafe small
small-IsSafe = record {
  name = unfold split_line rstrip in record { one_line = refl; no_return = refl };
  content = unfold split_line rstrip in record { one_line = refl; no_return = refl };
  id = unfold split_line rstrip in record { one_line = refl; no_return = refl };
}

abbrev rounds : List Round
rounds = silent ∷ came small ∷ []

-- The stream in one chunk, and with one byte in a chunk of its own.
abbrev stream_bytes : List ℕ
stream_bytes = flatten (map plain_bytes.bytes (pump rounds))

abbrev in_pieces : List (List ℕ)
in_pieces = take 1 stream_bytes ∷ drop 1 stream_bytes ∷ []

pieces-whole : flatten in_pieces ≡ stream_bytes
unfolding pump written encode id_lines join_lines
pieces-whole = refl

parse_sse-pump_example : parse_sse plain in_pieces ≡ events rounds
parse_sse-pump_example =
    parse_sse-pump plain plain_bytes rounds in_pieces (small-IsSafe, tt) pieces-whole

-- A header with a blank before it.
abbrev ones : ℕ → Text
ones zero = []
ones (suc n) = b'1' ∷ ones n

abbrev context : TraceContext
context = record {
  traceparent = (b'0' ∷ b'0' ∷ b'-' ∷ ones 32) ++ ((b'-' ∷ ones 16) ++ (b'-' ∷ b'0' ∷ b'1' ∷ []));
  tracestate = none;
}

abbrev is_blank : ℕ → Bool
is_blank c = c == b' '

context_parsed : parse_trace is_blank (some (b' ' ∷ context.traceparent)) none ≡ some context
unfolding parse_trace strip rstrip lstrip split_on
context_parsed = refl

parse_trace-Carries_example : Carries is_blank context
parse_trace-Carries_example =
    parse_trace-Carries is_blank (some (b' ' ∷ context.traceparent)) none context context_parsed
