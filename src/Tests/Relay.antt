-- ===== src/Tests/Relay.antt =====
-- The properties of a tunnel at concrete inputs.
use gh_pool.Base.{
  zero, suc, ℕ, ◌≡◌, ◌≤◌, ◌⊎◌, ◌++◌, refl, true, false, Option, none, some, List, [], ◌∷◌, arith,
  length, inl,
}
use gh_pool.Base.Dict.{lookup, put}
use gh_pool.Base.Members.{member, add}
use gh_pool.Wire.Texts.{Text}
use gh_pool.Wire.Tunnel.{op_head, op_data}
use gh_pool.Relay.Stream.{or_object, Payloads, Stream, stream_size, read, down, offer, new_stream}
use gh_pool.Relay.Stream.Trace.{Act, offers, reads, acts, frames, Prefix}
use gh_pool.Relay.Stream.Order.{untouched, acts-ordered}
use gh_pool.Relay.Stream.Woken.{is_awaited}
use gh_pool.Relay.Tunnel.{Tunnel, new_tunnel, open_stream, serve, Event, received, opened}
use gh_pool.Relay.Tunnel.Watched.{IsWatched}
use gh_pool.Relay.Tunnel.Awake.{serve-wakes}

-- A Head is its status, and a Close a mark and its text.
abbrev first_of : List ℕ → Option ℕ
first_of [] = none
first_of (n ∷ _) = some n

abbrev error_in : List ℕ → Option (Option Text)
error_in [] = some none
error_in (zero ∷ _) = some none
error_in (suc _ ∷ text) = some (some text)

abbrev bytes_of : Option Text → List ℕ
bytes_of none = 0 ∷ []
bytes_of (some text) = 1 ∷ text

bytes-error : (e : Option Text) → error_in (bytes_of e) ≡ some e
bytes-error none = refl
bytes-error (some text) = refl

bytes_full : (e : Option Text) → or_object (bytes_of e) ≡ bytes_of e
unfolding or_object
bytes_full none = refl
bytes_full (some text) = refl

abbrev payloads : Payloads
payloads = record {
  head_of = first_of;
  error_of = error_in;
  close_bytes = bytes_of;
  error_of_close = bytes-error;
  close_bytes_full = bytes_full;
}

abbrev some_acts : List Act
some_acts =
    offers op_head (200 ∷ []) ∷ offers op_data (1 ∷ []) ∷ reads ∷ offers op_data (2 ∷ []) ∷ []

acts-ordered_example :
    Prefix (acts payloads some_acts untouched).had (frames some_acts)
    × (((acts payloads some_acts untouched).ended ≡ true)
        ⊎ ((length (acts payloads some_acts untouched).stream.queue ≤ stream_size)
            × (((acts payloads some_acts untouched).stream.gone ≡ true)
                ⊎ (frames some_acts
                    ≡ (acts payloads some_acts untouched).had
                      ++ (acts payloads some_acts untouched).stream.queue))))
acts-ordered_example = acts-ordered payloads some_acts

acts_had : (acts payloads some_acts untouched).had ≡ (op_data, 1 ∷ []) ∷ []
unfolding acts offer read new_stream
acts_had = refl

-- Stream 1 is open and waits for its head; a message is no frame.
abbrev one_open : Tunnel
one_open = (open_stream true [] new_tunnel).0

one-IsWatched : IsWatched payloads 1 one_open
unfolding open_stream new_tunnel new_stream lookup put add member
one-IsWatched = record {
  stream = new_stream;
  there = refl;
  known = omega arith;
  watched = inl (refl, refl);
}

abbrev bad_frame : List Event
bad_frame = opened true [] ∷ received true (7 ∷ []) ∷ []

serve-wakes_example :
    ((serve payloads bad_frame one_open).alive ≡ false)
    × ((serve payloads bad_frame one_open).live ≡ [])
    × (s : Stream) × (reason : Text) × (lookup 1 (serve payloads bad_frame one_open).objects
        ≡ some s)
    × ((read payloads s).1 ≡ down reason)
    × (is_awaited s.head ≡ false)
serve-wakes_example = serve-wakes payloads 1 bad_frame one_open tt one-IsWatched
