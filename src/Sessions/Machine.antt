-- ===== src/Sessions/Machine.antt =====
-- The transactions on the tables, and what holds of every reachable set of tables: events are
-- numbered without a gap, at most one command of a session is started, and nothing is left to do
-- for a session that is over.
pub mod Runs
pub mod Ends
pub mod Forgets
pub mod Once
pub mod Steps
use gh_pool.Base.{
  ℕ, ◌+◌, ◌≤◌, ◌≡◌, refl, Bool, true, false, Option, none, some, List, [], ◌∷◌, ◌++◌, arith, not,
  Bool-cases, Option-cases, ◌⊎◌, inl, inr, if◌then◌else◌, ◌==◌, String, sym, ◌∙◌, ◌||◌, ◌&&◌,
}
use gh_pool.Base.Dict.{Dict, lookup, put, lookup-put}
use gh_pool.Sessions.Rows.{
  Session, Command, Tables, EventData, CloseReason, is_live, is_started, is_queued, update_where,
  select, pending, SessionStatus,
}
use gh_pool.Sessions.Publish.{publish_in, publish_on}
use gh_pool.Sessions.Publish.Dense.{
  IsDense, publish_in-IsDense, write-IsDense, last_seq_of, seqs_of, upto,
}
use gh_pool.Sessions.Lifecycle.{
  mark_ready, readied, is_pending, heartbeat, finish_tx, finish_row, ended, ending, is_orphan,
  orphaned, death, publish_failures, spoil_profile,
}
use gh_pool.Sessions.Commands.{
  insert_command, new_command, timeout_of, take_next, start_one, begun, lowest, of_status,
  is_current, settled, Outcome, outcome_event,
}
use gh_pool.Sessions.Commands.Counts.{
  Each, Unique, NoOrphan, running, Among, Each-snoc, Each-update, Unique-update, Unique-snoc,
  running-snoc, running-stop, running-begun, no_running, select-Among, lowest_lem,
}

-- The session is there and not live.
abbrev over : Option Session → Bool
over none = false
over (some row) = not (is_live row.status)

pub record IsSound (db : Tables) : Type 0 where
  pub dense : IsDense db
  pub single : (sid : ℕ) → running sid db.commands ≤ 1
  pub unique : Unique db.commands
  pub settled_over : (sid : ℕ) → (over (lookup sid db.sessions) ≡ false) ⊎ NoOrphan sid db.commands

pub publish_in-over :
    (j sid : ℕ) (body : EventData) (db : Tables)
    → over (lookup j (publish_in sid body db).sessions) ≡ over (lookup j db.sessions)
unfolding publish_in
publish_in-over j sid body db = elim (Option-cases (lookup sid db.sessions)) [
  | inl e ↦ rw (e, publish_in)
  | inr (row, e) ↦
      rw (e, publish_in)
        (ground (arith, lookup-put sid j (record row { last_seq = row.last_seq + 1 }) db.sessions))
]

publish_in-commands :
    (sid : ℕ) (body : EventData) (db : Tables) → (publish_in sid body db).commands ≡ db.commands
unfolding publish_in
publish_in-commands sid body db = ground arith

pub publish_in-IsSound :
    (sid : ℕ) (body : EventData) (db : Tables) → IsSound db → IsSound (publish_in sid body db)
publish_in-IsSound sid body db v = record {
  dense = publish_in-IsDense sid body db v.dense;
  single = λ j. rw (publish_in-commands sid body db) (v.single j);
  unique = rw (publish_in-commands sid body db) v.unique;
  settled_over =
      λ j. rw (publish_in-commands sid body db, publish_in-over j sid body db) (v.settled_over j);
}

-- A write of a session that stays live or stays over, with its numbering.
pub write-IsSound :
    (sid : ℕ) (r r' : Session) (db : Tables)
    → lookup sid db.sessions ≡ some r
    → r'.last_seq ≡ r.last_seq
    → is_live r'.status ≡ true
    → IsSound db
    → IsSound (record db { sessions = put sid r' db.sessions })
write-IsSound sid r r' db e k l v = record {
  dense = write-IsDense sid r r' db.sessions db.events e k v.dense;
  single = v.single;
  unique = v.unique;
  settled_over = λ j. elim (v.settled_over j) [
    | inl o ↦ inl (ground (arith, lookup-put sid j r' db.sessions))
    | inr o ↦ inr o
  ];
}

pub mark_ready-IsSound : (sid now : ℕ) (db : Tables) → IsSound db → IsSound (mark_ready sid now db)
unfolding mark_ready is_live
mark_ready-IsSound sid now db v = elim (Option-cases (lookup sid db.sessions)) [
  | inl e ↦ rw (e, mark_ready) v
  | inr (r, e) ↦
      rw (e, mark_ready)
        (elim (Bool-cases (is_pending r.status)) [
          | inl p ↦
              rw (p, if◌then◌else◌)
                (publish_in-IsSound sid _ _ (write-IsSound sid r (readied now r) db e refl refl v))
          | inr p ↦ rw (p, if◌then◌else◌) v
        ])
]

pub heartbeat-IsSound : (sid now : ℕ) (db : Tables) → IsSound db → IsSound (heartbeat sid now db).0
unfolding heartbeat
heartbeat-IsSound sid now db v = elim (Option-cases (lookup sid db.sessions)) [
  | inl e ↦ rw (e, heartbeat) v
  | inr (r, e) ↦
      rw (e, heartbeat)
        (elim (Bool-cases (is_live r.status)) [
          | inl p ↦
              rw (p, if◌then◌else◌)
                (write-IsSound sid r (record r { heartbeat_at = some now }) db e refl p v)
          | inr p ↦ rw (p, if◌then◌else◌) v
        ])
]

pub insert_command-IsSound :
    (sid cid : ℕ) (args : String) (timeout : Option ℕ) (r : Session) (db : Tables)
    → lookup sid db.sessions ≡ some r
    → is_live r.status ≡ true
    → Each (λ d. (d.id == cid) ≡ false) db.commands
    → IsSound db
    → IsSound (insert_command sid cid args timeout r db)
unfolding insert_command
insert_command-IsSound sid cid args timeout r db e l fresh v =
    let w = write-IsSound sid r (record r { last_cmd_seq = r.last_cmd_seq + 1 }) db e refl l v in
    record {
      dense = w.dense;
      single = λ j.
          rw
            (running-snoc j db.commands
              (new_command cid sid (r.last_cmd_seq + 1) args (timeout_of timeout r)) refl)
            (v.single j);
      unique =
          Unique-snoc db.commands
            (new_command cid sid (r.last_cmd_seq + 1) args (timeout_of timeout r)) v.unique fresh;
      settled_over = λ j. elim (Bool-cases (sid == j)) [
        | inl h ↦ inl (
            ground (
              arith,
              lookup-put sid j (record r { last_cmd_seq = r.last_cmd_seq + 1 }) db.sessions,
            ))
        | inr h ↦ elim (w.settled_over j) [
          | inl o ↦ inl o
          | inr o ↦ inr (
              Each-snoc (λ c. is_orphan j c ≡ false) db.commands
                (new_command cid sid (r.last_cmd_seq + 1) args (timeout_of timeout r)) o
                (unfold is_orphan in ground arith))
        ]
      ];
    }
