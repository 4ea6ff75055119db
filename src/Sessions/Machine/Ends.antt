-- ===== src/Sessions/Machine/Ends.antt =====
-- Sessions._finish keeps the tables sound: a session that ends has nothing left to do.
use gh_pool.Base.{
  ℕ, ◌≤◌, ◌≡◌, refl, false, some, List, [], ◌∷◌, arith, Bool-cases, Option-cases, inl, inr,
  if◌then◌else◌, ◌==◌,
}
use gh_pool.Base.Dict.{lookup, put, lookup-put}
use gh_pool.Sessions.Rows.{
  Session, Command, CommandError, Tables, CloseReason, is_live, update_where, select,
  command_failed, session_closed, SessionStatus,
}
use gh_pool.Sessions.Publish.{publish_in}
use gh_pool.Sessions.Publish.Dense.{write-IsDense}
use gh_pool.Sessions.Lifecycle.{
  finish_tx, finish_row, ended, ending, is_orphan, orphaned, death, publish_failures, spoil_profile,
}
use gh_pool.Sessions.Commands.Counts.{
  running, Each-update, Unique-update, running-stop, orphaned-NoOrphan,
}
use gh_pool.Sessions.Machine.{IsSound, publish_in-IsSound}

publish_failures-IsSound :
    (sid : ℕ) (e : CommandError) (cs : List Command) (db : Tables)
    → IsSound db
    → IsSound (publish_failures sid e cs db)
unfolding publish_failures
publish_failures-IsSound sid e [] db v = v
publish_failures-IsSound sid e (c ∷ cs) db v =
    publish_failures-IsSound sid e cs (publish_in sid (command_failed c.id e) db)
      (publish_in-IsSound sid (command_failed c.id e) db v)

pub same-IsSound :
    (db db' : Tables)
    → db'.sessions ≡ db.sessions
    → db'.commands ≡ db.commands
    → db'.events ≡ db.events
    → IsSound db
    → IsSound db'
same-IsSound db db' s c e v = record {
  dense = rw (s, e) v.dense;
  single = rw c v.single;
  unique = rw c v.unique;
  settled_over = rw (s, c) v.settled_over;
}

spoil_profile-IsSound :
    (row : Session) (status : SessionStatus) (db : Tables)
    → IsSound db
    → IsSound (spoil_profile row status db)
unfolding spoil_profile
spoil_profile-IsSound row status db =
    same-IsSound db (spoil_profile row status db) (ground arith) (ground arith) (ground arith)

-- The writes of _finish before its events.
ended_rows-IsSound :
    (sid now : ℕ) (reason : CloseReason) (r : Session) (db : Tables)
    → lookup sid db.sessions ≡ some r
    → IsSound db
    → IsSound (record db {
      sessions = put sid (ended reason now r) db.sessions;
      commands = update_where (is_orphan sid) (orphaned (death reason) now) db.commands;
    })
unfolding ended orphaned
ended_rows-IsSound sid now reason r db e v = record {
  dense = write-IsDense sid r (ended reason now r) db.sessions db.events e refl v.dense;
  single = λ j.
      let fewer =
        running-stop j (is_orphan sid) (orphaned (death reason) now) db.commands (λ c. refl) in
      let old : running j db.commands ≤ 1 = v.single j in omega arith;
  unique =
      Unique-update (is_orphan sid) (orphaned (death reason) now) db.commands (λ c. refl) v.unique;
  settled_over = λ j. elim (Bool-cases (sid == j)) [
    | inl h ↦
        let same : j ≡ sid = ground arith in
        inr (rw same (orphaned-NoOrphan sid now (death reason) db.commands))
    | inr h ↦ elim (v.settled_over j) [
      | inl o ↦ inl (ground (arith, lookup-put sid j (ended reason now r) db.sessions))
      | inr o ↦ inr (
          Each-update (λ c. is_orphan j c ≡ false) (is_orphan sid) (orphaned (death reason) now)
            db.commands (λ c k l. unfold is_orphan in ground arith) o)
    ]
  ];
}

finish_row-IsSound :
    (sid now : ℕ) (reason : CloseReason) (r : Session) (db : Tables)
    → lookup sid db.sessions ≡ some r
    → IsSound db
    → IsSound (finish_row sid reason now r db)
unfolding finish_row
finish_row-IsSound sid now reason r db e v = publish_in-IsSound sid (session_closed reason) _ (
    spoil_profile-IsSound r (ending reason) _ (
      publish_failures-IsSound sid (death reason) (select (is_orphan sid) db.commands) _
        (ended_rows-IsSound sid now reason r db e v)))

pub finish_tx-IsSound :
    (sid now : ℕ) (reason : CloseReason) (db : Tables)
    → IsSound db
    → IsSound (finish_tx sid reason now db)
unfolding finish_tx
finish_tx-IsSound sid now reason db v = elim (Option-cases (lookup sid db.sessions)) [
  | inl e ↦ rw (e, finish_tx) v
  | inr (r, e) ↦
      rw (e, finish_tx)
        (elim (Bool-cases (is_live r.status)) [
          | inl p ↦ rw (p, if◌then◌else◌) (finish_row-IsSound sid now reason r db e v)
          | inr p ↦ rw (p, if◌then◌else◌) v
        ])
]
