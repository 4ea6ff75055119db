-- ===== src/Wire/Events/Told.antt =====
-- What a reader makes of a written stream.
use gh_pool.Base.{
  ℕ, ◌≡◌, refl, Option, none, some, List, [], ◌∷◌, ◌++◌, map, flatten, append_assoc, sym, ◌∙◌, ap,
}
use gh_pool.Wire.Texts.{Text, rstrip}
use gh_pool.Wire.Sse.{
  SseMessage, Fields, Decoder, no_fields, split_line, strip_returns, on_line, on_field, dispatched,
  join_lines, after_prefix, after_space, parse_sse, event_field, id_field, data_field,
}
use gh_pool.Wire.Sse.Scan.{scan, scan-none, scan-append, then_read}
use gh_pool.Wire.Sse.Chunks.{parse_sse-scan}
use gh_pool.Wire.Events.{
  Encoder, Frame, id_lines, encode, Round, silent, came, written, pump, retry_line, ping_line,
}

-- A text that stands in a line as it is: no newline in it, and no return at its end.
pub record IsPlain (t : Text) : Type 0 where
  pub one_line : split_line t ≡ none
  pub no_return : strip_returns t ≡ t

-- A line and what follows it.
scan-line :
    (line rest : Text) (f : Fields)
    → split_line line ≡ none
    → scan (line ++ (b'\n' ∷ rest)) [] f ≡ then_read (on_line line f) (λ f'. scan rest [] f')
scan-line line rest f e =
    scan-append line (b'\n' ∷ rest) [] f
    ∙ ap
        (λ r. (
          r.0 ++ (scan (b'\n' ∷ rest) r.1 r.2).0,
          (scan (b'\n' ∷ rest) r.1 r.2).1,
          (scan (b'\n' ∷ rest) r.1 r.2).2,
        ))
        (scan-none line [] f e)
    ∙ (unfold scan in refl)

on_line-event :
    (t : Text) (f : Fields)
    → strip_returns t ≡ t
    → on_line (event_field ++ (b' ' ∷ t)) f ≡ ([], record f { event = t })
unfolding on_line rstrip on_field after_prefix after_space
on_line-event t f e = rw e refl

on_line-id :
    (t : Text) (f : Fields)
    → strip_returns t ≡ t
    → on_line (id_field ++ (b' ' ∷ t)) f ≡ ([], record f { id = some t })
unfolding on_line rstrip on_field after_prefix after_space
on_line-id t f e = rw e refl

on_line-data :
    (t : Text) (f : Fields)
    → strip_returns t ≡ t
    → on_line (data_field ++ (b' ' ∷ t)) f ≡ ([], record f { lines = f.lines ++ (t ∷ []) })
unfolding on_line rstrip on_field after_prefix after_space
on_line-data t f e = rw e refl

line-event : (t : Text) → split_line t ≡ none → split_line (event_field ++ (b' ' ∷ t)) ≡ none
unfolding split_line
line-event t e = rw e refl

line-id : (t : Text) → split_line t ≡ none → split_line (id_field ++ (b' ' ∷ t)) ≡ none
unfolding split_line
line-id t e = rw e refl

line-data : (t : Text) → split_line t ≡ none → split_line (data_field ++ (b' ' ∷ t)) ≡ none
unfolding split_line
line-data t e = rw e refl

-- The event and the data of a frame, and the blank line after them.
scan-body :
    (name content rest : Text) (f : Fields)
    → IsPlain name
    → IsPlain content
    → f.lines ≡ []
    → scan
        ((event_field ++ (b' ' ∷ name))
          ++ (b'\n' ∷ ((data_field ++ (b' ' ∷ content)) ++ (b'\n' ∷ b'\n' ∷ rest))))
        []
        f
      ≡ then_read
          (record { event = name; content = content; id = f.id } ∷ [], no_fields)
          (λ f'. scan rest [] f')
scan-body name content rest f n c none_yet =
    let named : Fields = record f { event = name } in
    let whole : Fields = record named { lines = f.lines ++ (content ∷ []) } in
    scan-line (event_field ++ (b' ' ∷ name))
      ((data_field ++ (b' ' ∷ content)) ++ (b'\n' ∷ b'\n' ∷ rest)) f (line-event name n.one_line)
    ∙ ap
        (λ r.
          then_read r
            (λ f'. scan ((data_field ++ (b' ' ∷ content)) ++ (b'\n' ∷ b'\n' ∷ rest)) [] f'))
        (on_line-event name f n.no_return)
    ∙ scan-line (data_field ++ (b' ' ∷ content)) (b'\n' ∷ rest) named (line-data content c.one_line)
    ∙ ap (λ r. then_read r (λ f'. scan (b'\n' ∷ rest) [] f'))
        (on_line-data content named c.no_return)
    ∙ ap (λ ls. scan (b'\n' ∷ rest) [] (record named { lines = ls ++ (content ∷ []) })) none_yet
    ∙ (unfold scan on_line rstrip dispatched join_lines in refl)

-- The event of a frame, as a reader has it.
abbrev pub message : Frame → SseMessage
message f = record { event = f.name; content = f.content; id = f.id }

abbrev pub PlainId : Option Text → Type 0
PlainId none = Unit
PlainId (some t) = IsPlain t

pub record IsSafe (f : Frame) : Type 0 where
  pub name : IsPlain f.name
  pub content : IsPlain f.content
  pub id : PlainId f.id

abbrev told : SseMessage → Text → List SseMessage × Text × Fields
told m rest = then_read (m ∷ [], no_fields) (λ f'. scan rest [] f')

-- The bytes of a frame, bracketed as they are read.
bracket :
    (a b rest : Text)
    → ((a ++ (b'\n' ∷ b)) ++ (b'\n' ∷ b'\n' ∷ [])) ++ rest
      ≡ a ++ (b'\n' ∷ (b ++ (b'\n' ∷ b'\n' ∷ rest)))
bracket a b rest =
    append_assoc (a ++ (b'\n' ∷ b)) (b'\n' ∷ b'\n' ∷ []) rest
    ∙ append_assoc a (b'\n' ∷ b) (b'\n' ∷ b'\n' ∷ rest)

encode-scan :
    (name content : Text) (id : Option Text) (rest : Text)
    → IsPlain name
    → IsPlain content
    → PlainId id
    → scan (encode (record { name = name; content = content; id = id }) ++ rest) [] no_fields
      ≡ told (record { event = name; content = content; id = id }) rest
unfolding encode id_lines join_lines
encode-scan name content none rest n c i =
    ap (λ t. scan t [] no_fields)
      (bracket (event_field ++ (b' ' ∷ name)) (data_field ++ (b' ' ∷ content)) rest)
    ∙ scan-body name content rest no_fields n c (unfold no_fields in refl)
    ∙ (unfold no_fields in refl)
encode-scan name content (some id) rest n c i =
    let event = event_field ++ (b' ' ∷ name) in
    let content_line = data_field ++ (b' ' ∷ content) in
    let numbered : Fields = record no_fields { id = some id } in
    ap (λ t. scan t [] no_fields)
      (append_assoc ((id_field ++ (b' ' ∷ id)) ++ (b'\n' ∷ (event ++ (b'\n' ∷ content_line))))
          (b'\n' ∷ b'\n' ∷ []) rest
        ∙ append_assoc (id_field ++ (b' ' ∷ id)) (b'\n' ∷ (event ++ (b'\n' ∷ content_line)))
            (b'\n' ∷ b'\n' ∷ rest)
        ∙ ap (λ t. (id_field ++ (b' ' ∷ id)) ++ (b'\n' ∷ t))
            (append_assoc event (b'\n' ∷ content_line) (b'\n' ∷ b'\n' ∷ rest)))
    ∙ scan-line (id_field ++ (b' ' ∷ id))
        (event ++ (b'\n' ∷ (content_line ++ (b'\n' ∷ b'\n' ∷ rest)))) no_fields
        (line-id id i.one_line)
    ∙ ap
        (λ r.
          then_read r
            (λ f'. scan (event ++ (b'\n' ∷ (content_line ++ (b'\n' ∷ b'\n' ∷ rest)))) [] f'))
        (on_line-id id no_fields i.no_return)
    ∙ scan-body name content rest numbered n c (unfold no_fields in refl)

-- The events of the rounds: those that came.
unfoldable pub events : List Round → List SseMessage
events [] = []
events (silent ∷ rounds) = events rounds
events (came f ∷ rounds) = message f ∷ events rounds

abbrev pub AllSafe : List Round → Type 0
AllSafe [] = Unit
AllSafe (silent ∷ rounds) = AllSafe rounds
AllSafe (came f ∷ rounds) = IsSafe f × AllSafe rounds

ping-scan : (rest : Text) → scan (ping_line ++ rest) [] no_fields ≡ scan rest [] no_fields
unfolding scan on_line rstrip on_field after_prefix dispatched no_fields
ping-scan rest = refl

retry-scan : (rest : Text) → scan (retry_line ++ rest) [] no_fields ≡ scan rest [] no_fields
unfolding scan on_line rstrip on_field after_prefix dispatched no_fields
retry-scan rest = refl

rounds-scan :
    (rounds : List Round)
    → AllSafe rounds
    → scan (flatten (map written rounds)) [] no_fields ≡ (events rounds, [], no_fields)
unfolding written events
rounds-scan [] h = unfold scan in refl
rounds-scan (silent ∷ rounds) h = ping-scan (flatten (map written rounds)) ∙ rounds-scan rounds h
rounds-scan (came f ∷ rounds) h =
    encode-scan f.name f.content f.id (flatten (map written rounds)) h.0.name h.0.content h.0.id
    ∙ ap (λ r. (message f ∷ r.0, r.1, r.2)) (rounds-scan rounds h.1)

bytes-flatten :
    {S : Type 0} (d : Decoder S) (u : Encoder d) (texts : List Text)
    → flatten (map u.bytes texts) ≡ u.bytes (flatten texts)
bytes-flatten d u [] = sym u.bytes_nil
bytes-flatten d u (t ∷ texts) =
    ap (λ b. u.bytes t ++ b) (bytes-flatten d u texts) ∙ sym (u.bytes_append t (flatten texts))

-- A reader gets exactly the frames that came, in their order, each with its name, data and number,
-- however many pings stand between them and in whatever chunks the bytes of the stream come; no text
-- of a frame has a newline in it or a return at its end.
pub parse_sse-pump :
    {S : Type 0} (d : Decoder S) (u : Encoder d) (rounds : List Round) (chunks : List (List ℕ))
    → AllSafe rounds
    → flatten chunks ≡ flatten (map u.bytes (pump rounds))
    → parse_sse d chunks ≡ events rounds
unfolding pump
parse_sse-pump d u rounds chunks h e =
    let text = flatten (pump rounds) in
    parse_sse-scan d chunks
    ∙ ap (λ b. (scan (d.decode d.start b).1 [] no_fields).0) (e ∙ bytes-flatten d u (pump rounds))
    ∙ ap (λ t. (scan t [] no_fields).0) (u.decode_bytes text)
    ∙ ap (λ r. r.0) (retry-scan (flatten (map written rounds)) ∙ rounds-scan rounds h)
