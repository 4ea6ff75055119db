-- ===== src/Sessions/Publish/Dense.antt =====
-- The events of each session are numbered 1, 2, 3, … without a gap, up to its last_seq.
use gh_pool.Base.{
  ℕ, zero, suc, ◌+◌, ◌≡◌, Option, none, some, List, [], ◌∷◌, ◌++◌, arith, Option-cases, inl, inr,
  ◌==◌, if◌then◌else◌, Bool-cases,
}
use gh_pool.Base.Dict.{Dict, lookup, put, lookup-put}
use gh_pool.Sessions.Rows.{Session, Event, EventData, Tables}
use gh_pool.Sessions.Publish.{publish_on, publish_in}

-- The numbers of one session's events, in the order of their insertion.
unfoldable pub seqs_of : ℕ → List (ℕ × Event) → List ℕ
seqs_of sid [] = []
seqs_of sid ((j, e) ∷ es) = let rest = seqs_of sid es in if j == sid then e.seq ∷ rest else rest

-- 1, 2, …, n
unfoldable pub upto : ℕ → List ℕ
upto zero = []
upto (suc n) = upto n ++ suc n ∷ []

abbrev pub last_seq_of : Option Session → ℕ
last_seq_of none = 0
last_seq_of (some r) = r.last_seq

abbrev pub IsDense : Tables → Type 0
IsDense db = (sid : ℕ) → seqs_of sid db.events ≡ upto (last_seq_of (lookup sid db.sessions))

pub seqs_of-snoc :
    (sid j : ℕ) (e : Event) (es : List (ℕ × Event))
    → seqs_of sid (es ++ (j, e) ∷ [])
      ≡ (if j == sid then seqs_of sid es ++ e.seq ∷ [] else seqs_of sid es)
unfolding seqs_of
seqs_of-snoc sid j e [] = ground arith
seqs_of-snoc sid j e ((i, f) ∷ es) = ground (arith, seqs_of-snoc sid j e es)

publish_on-IsDense :
    (session_id : ℕ) (row : Session) (body : EventData) (db : Tables)
    → lookup session_id db.sessions ≡ some row
    → IsDense db
    → IsDense (publish_on session_id row body db)
unfolding publish_on upto
publish_on-IsDense session_id row body db e v sid =
    let event : Event = record { seq = row.last_seq + 1; body = body } in
    let one : row.last_seq + 1 ≡ suc row.last_seq = omega arith in
    let grown : upto (row.last_seq + 1) ≡ upto row.last_seq ++ (row.last_seq + 1) ∷ [] = rw one in
    rw (seqs_of-snoc sid session_id event db.events, lookup-put)
      (elim (Bool-cases (session_id == sid)) [
        | inl h ↦ rw (h, if◌then◌else◌) (ground (arith, v sid))
        | inr h ↦ rw (h, if◌then◌else◌) (v sid)
      ])

pub publish_in-IsDense :
    (session_id : ℕ) (body : EventData) (db : Tables)
    → IsDense db
    → IsDense (publish_in session_id body db)
unfolding publish_in
publish_in-IsDense session_id body db v = elim (Option-cases (lookup session_id db.sessions)) [
  | inl e ↦ rw (e, publish_in) v
  | inr (row, e) ↦ rw (e, publish_in) (publish_on-IsDense session_id row body db e v)
]

-- A write of a session that keeps its last_seq keeps the numbering.
pub write-IsDense :
    (sid : ℕ) (r r' : Session) (d : Dict Session) (events : List (ℕ × Event))
    → lookup sid d ≡ some r
    → r'.last_seq ≡ r.last_seq
    → ((j : ℕ) → seqs_of j events ≡ upto (last_seq_of (lookup j d)))
    → (j : ℕ) → seqs_of j events ≡ upto (last_seq_of (lookup j (put sid r' d)))
write-IsDense sid r r' d events e k v j = ground (arith, v j, lookup-put sid j r' d)
