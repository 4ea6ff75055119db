-- ===== src/Wire/Trace.antt =====
-- protocol/trace.py: the context of a trace, as it is carried in headers. Which characters are white
-- space is Python's, and an argument.
pub mod Carried
use gh_pool.Base.{
  ℕ, ◌≤◌, Bool, true, false, Option, none, some, List, [], ◌∷◌, if◌then◌else◌, ◌==◌, leb, ltb, ◌&&◌,
  ◌||◌, not, length,
}
use gh_pool.Wire.Texts.{Text, is_empty, strip, split_on}

pub record TraceContext : Type 0 where
  pub traceparent : Text
  pub tracestate : Option Text

-- char in _HEX
unfoldable pub is_hex : ℕ → Bool
is_hex c = leb b'0' c && leb c b'9' || leb b'a' c && leb c b'f'

unfoldable pub all_hex : Text → Bool
unfolding is_hex
all_hex [] = true
all_hex (c ∷ cs) = is_hex c && all_hex cs

-- _hex
unfoldable pub hex : Text → ℕ → Bool
unfolding all_hex
hex value n = length value == n && all_hex value

-- _significant
unfoldable pub significant : Text → Bool
significant value = not (is_empty (strip (λ c. c == b'0') value))

-- A comparison of a version with a literal of two characters.
abbrev pub is_pair : ℕ → ℕ → Text → Bool
is_pair a b (x ∷ y ∷ []) = x == a && y == b
is_pair a b _ = false

-- The checks of parse on the fields, in their order.
unfoldable pub is_valid : List Text → Bool
unfolding hex significant
is_valid (version ∷ trace_id ∷ span_id ∷ flags ∷ more) =
    hex version 2
    && (not (is_pair b'f' b'f' version)
        && (hex trace_id 32
            && (significant trace_id
                && (hex span_id 16
                    && (significant span_id
                        && (hex flags 2
                            && not (is_pair b'0' b'0' version && ltb 0 (length more))))))))
is_valid _ = false

-- _state
unfoldable pub state : (ℕ → Bool) → Option Text → Option Text
state is_space none = none
state is_space (some t) =
    let candidate = strip is_space t in
    if is_empty candidate || ltb 512 (length candidate) then none else some candidate

-- TraceContext.parse
unfoldable pub parse_trace : (ℕ → Bool) → Option Text → Option Text → Option TraceContext
unfolding is_valid state
parse_trace is_space none tracestate = none
parse_trace is_space (some t) tracestate =
    let candidate = strip is_space t in
    if is_valid (split_on b'-' candidate)
    then some (record { traceparent = candidate; tracestate = state is_space tracestate })
    else none

-- The two headers.
pub record Carrier : Type 0 where
  pub traceparent : Option Text
  pub tracestate : Option Text

-- TraceContext.from_headers
unfoldable pub from_headers : (ℕ → Bool) → Carrier → Option TraceContext
unfolding parse_trace
from_headers is_space h = parse_trace is_space h.traceparent h.tracestate

-- TraceContext.headers
unfoldable pub headers : TraceContext → Carrier
headers c = record { traceparent = some c.traceparent; tracestate = c.tracestate }

-- fields[1]; a context has it.
unfoldable pub second : List Text → Text
second (_ ∷ t ∷ _) = t
second _ = []

-- TraceContext.trace_id
unfoldable pub trace_id : TraceContext → Text
unfolding second
trace_id c = second (split_on b'-' c.traceparent)

-- trace_id_of
unfoldable pub trace_id_of : (ℕ → Bool) → Option Text → Option Text
unfolding parse_trace trace_id
trace_id_of is_space traceparent = elim (parse_trace is_space traceparent none) [
  | none ↦ none
  | some c ↦ some (trace_id c)
]
