-- ===== src/Wire/Events.antt =====
-- server/sse.py: the writer of a stream of events. The texts of a frame's number and of its data are
-- Python's and pydantic's; what the source yields, and when nothing comes for KEEPALIVE, is given.
pub mod Told
use gh_pool.Base.{ℕ, ◌+◌, Option, none, some, List, [], ◌∷◌, ◌++◌, map, ◌≡◌}
use gh_pool.Wire.Texts.{Text}
use gh_pool.Wire.Sse.{Decoder, join_lines, event_field, id_field, data_field}

-- str.encode, which the response applies to each text: the decoder undoes it.
pub record Encoder {S : Type 0} (d : Decoder S) : Type 0 where
  pub bytes : Text → List ℕ
  pub bytes_nil : bytes [] ≡ []
  pub bytes_append : (a b : Text) → bytes (a ++ b) ≡ bytes a ++ bytes b
  pub decode_bytes : (t : Text) → (d.decode d.start (bytes t)).1 ≡ t

pub record Frame : Type 0 where
  pub name : Text
  pub content : Text
  pub id : Option Text

-- Frame.id, if it is there.
unfoldable pub id_lines : Option Text → List Text
id_lines none = []
id_lines (some id) = (id_field ++ (b' ' ∷ id)) ∷ []

-- _encode
unfoldable pub encode : Frame → Text
unfolding id_lines join_lines
encode f =
    join_lines (
      id_lines f.id ++ ((event_field ++ (b' ' ∷ f.name)) ∷ (data_field ++ (b' ' ∷ f.content)) ∷ []))
    ++ (b'\n' ∷ b'\n' ∷ [])

abbrev pub retry_line : Text
retry_line =
    b'r' ∷ b'e' ∷ b't' ∷ b'r' ∷ b'y' ∷ b':' ∷ b' ' ∷ b'1' ∷ b'0' ∷ b'0' ∷ b'0' ∷ b'\n' ∷ b'\n' ∷ []

abbrev pub ping_line : Text
ping_line = b':' ∷ b' ' ∷ b'p' ∷ b'i' ∷ b'n' ∷ b'g' ∷ b'\n' ∷ b'\n' ∷ []

-- A round of _pump: nothing came, or a frame; the rounds end with the source.
pub data Round : Type 0 where
  silent : Round
  came : Frame → Round

unfoldable pub written : Round → Text
unfolding encode
written silent = ping_line
written (came f) = encode f

-- _pump
unfoldable pub pump : List Round → List Text
unfolding written
pump rounds = retry_line ∷ map written rounds
