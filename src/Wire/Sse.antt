-- ===== src/Wire/Sse.antt =====
-- protocol/sse.py: the reader of a stream of events. Text is a list of code points; the incremental
-- decoder of bytes is Python's, and a parameter.
pub mod Scan
pub mod Chunks
use gh_pool.Base.{
  ℕ, zero, suc, ◌+◌, ◌≡◌, Bool, true, false, Option, none, some, List, [], ◌∷◌, ◌++◌, if◌then◌else◌,
  ◌==◌, ◌&&◌, length, flatten,
}
use gh_pool.Wire.Texts.{Text, is_empty, rstrip}

pub record SseMessage : Type 0 where
  pub event : Text
  pub content : Text
  pub id : Option Text

-- codecs.getincrementaldecoder: what is decoded of the bytes so far, whatever pieces they come in.
pub record Decoder (S : Type 0) : Type 0 where
  pub start : S
  pub decode : S → List ℕ → S × Text
  pub decode_nil : (s : S) → decode s [] ≡ (s, [])
  pub decode_append :
      (s : S) (a b : List ℕ)
      → decode s (a ++ b)
        ≡ ((decode (decode s a).0 b).0, (decode s a).1 ++ (decode (decode s a).0 b).1)

-- The fields of the event that is being read.
pub record Fields : Type 0 where
  pub event : Text
  pub lines : List Text
  pub id : Option Text

abbrev pub message_text : Text
message_text = b'm' ∷ b'e' ∷ b's' ∷ b's' ∷ b'a' ∷ b'g' ∷ b'e' ∷ []

abbrev pub event_field : Text
event_field = b'e' ∷ b'v' ∷ b'e' ∷ b'n' ∷ b't' ∷ b':' ∷ []

abbrev pub id_field : Text
id_field = b'i' ∷ b'd' ∷ b':' ∷ []

abbrev pub data_field : Text
data_field = b'd' ∷ b'a' ∷ b't' ∷ b'a' ∷ b':' ∷ []

unfoldable pub no_fields : Fields
no_fields = record { event = message_text; lines = []; id = none }

-- buffer.split("\n", 1), where there is a newline.
unfoldable pub split_line : Text → Option (Text × Text)
split_line [] = none
split_line (c ∷ cs) =
    if c == b'\n'
    then some ([], cs)
    else elim (split_line cs) [ none ↦ none | some (line, rest) ↦ some (c ∷ line, rest) ]

-- line.rstrip("\r")
abbrev pub strip_returns : Text → Text
strip_returns line = rstrip (λ c. c == b'\r') line

-- line.removeprefix(prefix), where it starts with it.
unfoldable pub after_prefix : Text → Text → Option Text
after_prefix [] line = some line
after_prefix (p ∷ ps) [] = none
after_prefix (p ∷ ps) (c ∷ cs) = if c == p then after_prefix ps cs else none

-- .removeprefix(" ")
unfoldable pub after_space : Text → Text
after_space [] = []
after_space (c ∷ cs) = if c == b' ' then cs else c ∷ cs

-- "\n".join(data)
unfoldable pub join_lines : List Text → Text
join_lines [] = []
join_lines (line ∷ []) = line
join_lines (line ∷ more ∷ lines) = line ++ (b'\n' ∷ join_lines (more ∷ lines))

-- The blank line: the event, if it has data.
unfoldable pub dispatched : Fields → List SseMessage
unfolding join_lines
dispatched f = elim f.lines [
  | [] ↦ []
  | _ ∷ _ ↦ record { event = f.event; content = join_lines f.lines; id = f.id } ∷ []
]

-- A line that is not blank.
unfoldable pub on_field : Text → Fields → Fields
unfolding after_prefix after_space
on_field line f = elim (after_prefix (b':' ∷ []) line) [
  | some _ ↦ f
  | none ↦ elim (after_prefix event_field line) [
    | some rest ↦ record f { event = after_space rest }
    | none ↦ elim (after_prefix id_field line) [
      | some rest ↦ record f { id = some (after_space rest) }
      | none ↦ elim (after_prefix data_field line) [
        | some rest ↦ record f { lines = f.lines ++ (after_space rest ∷ []) }
        | none ↦ f
      ]
    ]
  ]
]

-- One line of the stream.
unfoldable pub on_line : Text → Fields → List SseMessage × Fields
unfolding rstrip dispatched on_field no_fields
on_line raw f =
    let line = strip_returns raw in
    if is_empty line then (dispatched f, no_fields) else ([], on_field line f)

-- while "\n" in buffer: what is yielded, the buffer and the fields after it.
unfoldable pub read_lines : ℕ → Text → Fields → List SseMessage × Text × Fields
unfolding split_line on_line
read_lines zero buffer f = ([], buffer, f)
read_lines (suc fuel) buffer f = elim (split_line buffer) [
  | none ↦ ([], buffer, f)
  | some (line, rest) ↦
      let (now, f') = on_line line f in
      let (later, buffer', f'') = read_lines fuel rest f' in (now ++ later, buffer', f'')
]

-- parse_sse, from a state of the decoder, a buffer and fields on. The loop of a chunk takes a
-- character of the buffer at least, so as many rounds are enough.
unfoldable pub parse_from :
    {S : Type 0} → Decoder S → List (List ℕ) → S → Text → Fields → List SseMessage
unfolding read_lines
parse_from d [] s buffer f = []
parse_from d (chunk ∷ chunks) s buffer f =
    let (s', text) = d.decode s chunk in
    let whole = buffer ++ text in
    let (now, buffer', f') = read_lines (length whole) whole f in
    now ++ parse_from d chunks s' buffer' f'

-- parse_sse
unfoldable pub parse_sse : {S : Type 0} → Decoder S → List (List ℕ) → List SseMessage
unfolding parse_from
parse_sse d chunks = parse_from d chunks d.start [] no_fields
