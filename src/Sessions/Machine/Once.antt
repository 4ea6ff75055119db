-- ===== src/Sessions/Machine/Once.antt =====
-- A session ends once.
use gh_pool.Base.{
  ℕ, ◌≡◌, refl, true, false, none, List, [], ◌∷◌, arith, Bool-cases, Option-cases, inl, inr, ◌∙◌,
  ap, sym,
}
use gh_pool.Base.Dict.{lookup, put, lookup-put}
use gh_pool.Sessions.Rows.{
  Session, Command, CommandError, Tables, CloseReason, is_live, command_failed, session_closed,
  SessionStatus, select, update_where,
}
use gh_pool.Sessions.Publish.{publish_in}
use gh_pool.Sessions.Lifecycle.{
  finish_tx, finish_row, ended, ending, is_orphan, orphaned, death, publish_failures, spoil_profile,
}
use gh_pool.Sessions.Machine.{over, publish_in-over}

publish_failures-over :
    (j sid : ℕ) (e : CommandError) (cs : List Command) (db : Tables)
    → over (lookup j (publish_failures sid e cs db).sessions) ≡ over (lookup j db.sessions)
unfolding publish_failures
publish_failures-over j sid e [] db = refl
publish_failures-over j sid e (c ∷ cs) db =
    publish_failures-over j sid e cs (publish_in sid (command_failed c.id e) db)
    ∙ publish_in-over j sid (command_failed c.id e) db

spoil_profile-sessions :
    (row : Session) (status : SessionStatus) (db : Tables)
    → (spoil_profile row status db).sessions ≡ db.sessions
unfolding spoil_profile
spoil_profile-sessions row status db = ground arith

ending-over : (reason : CloseReason) → is_live (ending reason) ≡ false
unfolding ending is_live
ending-over CloseReason.closed = refl
ending-over CloseReason.dead = refl
ending-over CloseReason.timeout = refl

finish_row-over :
    (sid now : ℕ) (reason : CloseReason) (r : Session) (db : Tables)
    → over (lookup sid (finish_row sid reason now r db).sessions) ≡ true
unfolding finish_row ended
finish_row-over sid now reason r db =
    let orphans = select (is_orphan sid) db.commands in
    let db' : Tables = record db {
      sessions = put sid (ended reason now r) db.sessions;
      commands = update_where (is_orphan sid) (orphaned (death reason) now) db.commands;
    } in
    publish_in-over sid sid (session_closed reason) _
    ∙ rw
        (spoil_profile-sessions r (ending reason) (publish_failures sid (death reason) orphans db'))
        (publish_failures-over sid sid (death reason) orphans db'
          ∙ ground (arith, lookup-put sid sid (ended reason now r) db.sessions, ending-over reason))

finish_tx-over :
    (sid now : ℕ) (reason : CloseReason) (db : Tables)
    → over (lookup sid db.sessions) ≡ true
    → finish_tx sid reason now db ≡ db
unfolding finish_tx
finish_tx-over sid now reason db o = elim (Option-cases (lookup sid db.sessions)) [
  | inl e ↦ rw (e, finish_tx) refl
  | inr (r, e) ↦
      let ended : is_live r.status ≡ false = ground arith in rw (e, finish_tx, ended) refl
]

finish_tx-missing :
    (sid now : ℕ) (reason : CloseReason) (db : Tables)
    → lookup sid db.sessions ≡ none
    → finish_tx sid reason now db ≡ db
unfolding finish_tx
finish_tx-missing sid now reason db e = rw (e, finish_tx) refl

-- The first end of a session stands: a finish after a finish, with whatever reason and time, leaves
-- the tables as they are. No second event is published, and no profile is spoilt again.
pub finish_tx-once :
    (sid now later : ℕ) (reason other : CloseReason) (db : Tables)
    → finish_tx sid other later (finish_tx sid reason now db) ≡ finish_tx sid reason now db
unfolding finish_tx
finish_tx-once sid now later reason other db = elim (Option-cases (lookup sid db.sessions)) [
  | inl e ↦
      let same = finish_tx-missing sid now reason db e in
      ap (finish_tx sid other later) same ∙ finish_tx-missing sid later other db e ∙ sym same
  | inr (r, e) ↦ elim (Bool-cases (is_live r.status)) [
    | inl p ↦
        let done : finish_tx sid reason now db ≡ finish_row sid reason now r db =
          rw (e, finish_tx, p) refl in
        rw done (
          finish_tx-over sid later other (finish_row sid reason now r db)
            (finish_row-over sid now reason r db))
    | inr p ↦
        let same : finish_tx sid reason now db ≡ db = rw (e, finish_tx, p) refl in
        rw same (finish_tx-over sid later other db (ground arith))
  ]
]
