-- ===== src/Sessions/Commands/Fifo.antt =====
-- Which command Sessions.take_next starts.
use gh_pool.Base.{
  ℕ, ◌≤◌, ◌≡◌, refl, true, none, some, List, [], ◌∷◌, Option-cases, List-cases, ◌⊎◌, inl, inr,
  Option, ◌==◌, ◌+◌, ◌++◌, Bool, map, if◌then◌else◌, ap, ◌∙◌, arith,
}
use gh_pool.Sessions.Rows.{
  Command, Tables, Session, EventData, is_started, is_queued, select, started, command_started,
  update_where,
}
use gh_pool.Base.Dict.{lookup, lookup-put_self}
use gh_pool.Sessions.Publish.{publish_in, publish_on}
use gh_pool.Sessions.Commands.{take_next, start_one, begun, lowest, of_status}
use gh_pool.Sessions.Commands.Counts.{Each, Among, select-Among, lowest_lem}

-- The command that was started, and why it was its turn.
pub record IsTurn (sid : ℕ) (c : Command) (db : Tables) : Type 0 where
  pub there : Among c db.commands
  pub waited : of_status is_queued sid c ≡ true
  pub alone : select (of_status is_started sid) db.commands ≡ []
  pub first : Each (λ d. c.seq ≤ d.seq) (select (of_status is_queued sid) db.commands)

-- Nothing is started, and why not.
abbrev pub IsIdle : ℕ → Tables → Type 0
IsIdle sid db =
    ((c : Command) × (cs : List Command) × (select (of_status is_started sid) db.commands ≡ c ∷ cs))
    ⊎ (lowest (select (of_status is_queued sid) db.commands) ≡ none)

-- The command is started: it is given to the runner as it stands in the table from then on, every row
-- under another id is as it was, and the session's events end with the one that tells of the start.
pub record Starts (sid now : ℕ) (c : Command) (db : Tables) (r : Tables × Option Command)
    : Type 0 where
  pub given : r.1 ≡ some (record c { status = started; started_at = some now })
  pub rows :
      r.0.commands
      ≡ map
          (λ d. if d.id == c.id then record d { status = started; started_at = some now } else d)
          db.commands
  pub told :
      (lookup sid db.sessions ≡ none)
      ⊎ ((row : Session) × (lookup sid db.sessions ≡ some row)
          × (r.0.events
              ≡ db.events
                ++ (sid, record { seq = row.last_seq + 1; body = command_started c.id }) ∷ [])
          × (lookup sid r.0.sessions ≡ some (record row { last_seq = row.last_seq + 1 })))

update_where-map :
    (p : Command → Bool) (f : Command → Command) (cs : List Command)
    → update_where p f cs ≡ map (λ d. if p d then f d else d) cs
unfolding update_where
update_where-map p f [] = refl
update_where-map p f (c ∷ cs) = ap (◌∷◌ (if p c then f c else c)) (update_where-map p f cs)

commands-publish_in :
    (sid : ℕ) (body : EventData) (db : Tables) → (publish_in sid body db).commands ≡ db.commands
unfolding publish_in publish_on
commands-publish_in sid body db = ground arith

publish_in_there :
    (sid : ℕ) (body : EventData) (row : Session) (db : Tables)
    → lookup sid db.sessions ≡ some row
    → ((publish_in sid body db).events
        ≡ db.events ++ (sid, record { seq = row.last_seq + 1; body = body }) ∷ [])
      × (lookup sid (publish_in sid body db).sessions
          ≡ some (record row { last_seq = row.last_seq + 1 }))
unfolding publish_in publish_on
publish_in_there sid body row db e =
    let row' : Session = record row { last_seq = row.last_seq + 1 } in
    rw (e, publish_in) (refl, lookup-put_self sid row' db.sessions)

start_one-Starts :
    (sid now : ℕ) (c : Command) (db : Tables) → Starts sid now c db (start_one sid now (some c) db)
unfolding start_one begun
start_one-Starts sid now c db =
    let update : Command → Command = begun now in
    let db' : Tables = record db {
      commands = update_where (λ d. d.id == c.id) update db.commands;
    } in
    record {
      given = refl;
      rows =
          commands-publish_in sid (command_started c.id) db'
          ∙ update_where-map (λ d. d.id == c.id) update db.commands;
      told = elim (Option-cases (lookup sid db.sessions)) [
        | inl e ↦ inl e
        | inr (row, e) ↦
            let (told, numbered) = publish_in_there sid (command_started c.id) row db' e in
            inr (row, e, told, numbered)
      ];
    }

start_one-fifo :
    (sid now : ℕ) (db : Tables)
    → select (of_status is_started sid) db.commands ≡ []
    → ((start_one sid now (lowest (select (of_status is_queued sid) db.commands)) db ≡ (db, none))
        × IsIdle sid db)
      ⊎ ((c : Command) × Starts sid now c db
            (start_one sid now (lowest (select (of_status is_queued sid) db.commands)) db)
          × IsTurn sid c db)
unfolding start_one
start_one-fifo sid now db free =
    elim (Option-cases (lowest (select (of_status is_queued sid) db.commands))) [
      | inl e ↦ inl (rw e refl, inr e)
      | inr (c, e) ↦
          let (among, first) = lowest_lem c (select (of_status is_queued sid) db.commands) e in
          let (there, waited) = select-Among (of_status is_queued sid) c db.commands among in
          inr (
            c,
            rw e (start_one-Starts sid now c db),
            record { there = there; waited = waited; alone = free; first = first },
          )
    ]

-- take_next either starts nothing and writes nothing, because a command of the session is started
-- or none is queued, or it starts a queued command of the session while no other is started, and
-- no queued command of the session has a lower seq. It then marks the command's row as started,
-- leaves the rows under other ids, and, if the session is there, publishes the start under the
-- session's next number.
pub take_next-fifo :
    (sid now : ℕ) (db : Tables)
    → ((take_next sid now db ≡ (db, none)) × IsIdle sid db)
      ⊎ ((c : Command) × Starts sid now c db (take_next sid now db) × IsTurn sid c db)
unfolding take_next
take_next-fifo sid now db = elim (List-cases (select (of_status is_started sid) db.commands)) [
  | inl e ↦
      let queued = select (of_status is_queued sid) db.commands in
      let one : take_next sid now db ≡ start_one sid now (lowest queued) db =
        rw (e, take_next) refl in
      rw one (start_one-fifo sid now db e)
  | inr (c, cs, e) ↦
      let none_taken : take_next sid now db ≡ (db, none) = rw (e, take_next) refl in
      inl (none_taken, inl (c, cs, e))
]
