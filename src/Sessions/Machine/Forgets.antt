-- ===== src/Sessions/Machine/Forgets.antt =====
-- Sessions.create and Sessions.forget keep the tables sound.
use gh_pool.Base.{
  ℕ, ◌≤◌, ◌≡◌, refl, Bool, true, false, Option, none, List, [], ◌∷◌, arith, Bool-cases, inl, inr,
  if◌then◌else◌, ◌==◌, String,
}
use gh_pool.Base.Dict.{lookup, put, lookup-put, lookup-remove}
use gh_pool.Sessions.Rows.{Session, Event, Command, Tables, Sessions, is_live, select}
use gh_pool.Sessions.Publish.Dense.{seqs_of, upto}
use gh_pool.Sessions.Lifecycle.{create, full, claim_profile, forget, is_orphan}
use gh_pool.Sessions.Commands.Counts.{Each, Unique, running}
use gh_pool.Sessions.Machine.{IsSound}
use gh_pool.Sessions.Machine.Ends.{same-IsSound}

-- A new live session without events.
insert-IsSound :
    (sid : ℕ) (r : Session) (db : Tables)
    → lookup sid db.sessions ≡ none
    → r.last_seq ≡ 0
    → is_live r.status ≡ true
    → IsSound db
    → IsSound (record db { sessions = put sid r db.sessions })
insert-IsSound sid r db e k l v = record {
  dense = λ j. ground (arith, v.dense j, lookup-put sid j r db.sessions);
  single = v.single;
  unique = v.unique;
  settled_over = λ j. elim (v.settled_over j) [
    | inl o ↦ inl (ground (arith, lookup-put sid j r db.sessions))
    | inr o ↦ inr o
  ];
}

claim_profile-IsSound :
    (name : Option ℕ) (db : Tables) → IsSound db → IsSound (claim_profile name db).0
unfolding claim_profile
claim_profile-IsSound name db =
    same-IsSound db (claim_profile name db).0 (ground arith) (ground arith) (ground arith)

claim_profile-sessions :
    (name : Option ℕ) (db : Tables) → (claim_profile name db).0.sessions ≡ db.sessions
unfolding claim_profile
claim_profile-sessions name db = ground arith

pub create-IsSound :
    (sid token : ℕ) (limit : Option ℕ) (params : String) (timeout : ℕ) (profile : Option ℕ)
    (persist : Bool) (now : ℕ) (s : Sessions)
    → lookup sid s.db.sessions ≡ none
    → IsSound s.db
    → IsSound (create sid token limit params timeout profile persist now s).0.db
unfolding create is_live
create-IsSound sid token limit params timeout profile persist now s e v =
    elim (Bool-cases (full limit s.db)) [
      | inl h ↦ rw (h, create, if◌then◌else◌) v
      | inr h ↦
          rw (h, create, if◌then◌else◌)
            (insert-IsSound sid _ (claim_profile profile s.db).0
              (rw (claim_profile-sessions profile s.db) e) refl refl
              (claim_profile-IsSound profile s.db v))
    ]

seqs_of-forgotten :
    (j sid : ℕ) (es : List (ℕ × Event))
    → seqs_of j (select (λ e. if e.0 == sid then false else true) es)
      ≡ (if sid == j then [] else seqs_of j es)
unfolding seqs_of select
seqs_of-forgotten j sid [] = ground arith
seqs_of-forgotten j sid ((i, e) ∷ es) = ground (arith, seqs_of-forgotten j sid es)

Each-select :
    (P : Command → Type 0) (p : Command → Bool) (xs : List Command)
    → Each P xs
    → Each P (select p xs)
unfolding select
Each-select P p [] h = tt
Each-select P p (x ∷ xs) h = elim (Bool-cases (p x)) [
  | inl e ↦ rw (e, if◌then◌else◌) (h.0, Each-select P p xs h.1)
  | inr e ↦ rw (e, if◌then◌else◌) (Each-select P p xs h.1)
]

Unique-select : (p : Command → Bool) (xs : List Command) → Unique xs → Unique (select p xs)
unfolding select
Unique-select p [] h = tt
Unique-select p (x ∷ xs) h = elim (Bool-cases (p x)) [
  | inl e ↦
      rw (e, if◌then◌else◌)
        (Each-select (λ d. (d.id == x.id) ≡ false) p xs h.0, Unique-select p xs h.1)
  | inr e ↦ rw (e, if◌then◌else◌) (Unique-select p xs h.1)
]

running-select :
    (j : ℕ) (p : Command → Bool) (xs : List Command) → running j (select p xs) ≤ running j xs
unfolding running select
running-select j p [] = omega arith
running-select j p (x ∷ xs) = ground (arith, running-select j p xs)

pub forget-IsSound : (sid : ℕ) (db : Tables) → IsSound db → IsSound (forget sid db)
unfolding forget upto
forget-IsSound sid db v = record {
  dense = λ j.
      rw (seqs_of-forgotten j sid db.events)
        (ground (arith, v.dense j, lookup-remove sid j db.sessions));
  single = λ j.
      let fewer = running-select j (λ c. if c.session_id == sid then false else true) db.commands in
      let old : running j db.commands ≤ 1 = v.single j in omega arith;
  unique = Unique-select (λ c. if c.session_id == sid then false else true) db.commands v.unique;
  settled_over = λ j. elim (v.settled_over j) [
    | inl o ↦ inl (ground (arith, lookup-remove sid j db.sessions))
    | inr o ↦ inr (
        Each-select (λ c. is_orphan j c ≡ false) (λ c. if c.session_id == sid then false else true)
          db.commands o)
  ];
}
