-- ===== src/Sessions/Machine/Runs.antt =====
-- Sessions.take_next and Sessions.complete keep the tables sound.
use gh_pool.Base.{
  ℕ, ◌≤◌, ◌≡◌, refl, true, false, [], arith, Bool-cases, Option-cases, List-cases, inl, inr, ◌==◌,
}
use gh_pool.Sessions.Rows.{
  Command, Tables, Sessions, is_started, is_queued, update_where, select, command_started,
}
use gh_pool.Sessions.Lifecycle.{is_orphan, announce_work}
use gh_pool.Sessions.Commands.{
  take_next, start_one, begun, lowest, of_status, is_current, settled, complete, Outcome,
  outcome_event, result_is, error_is,
}
use gh_pool.Sessions.Commands.Counts.{
  Among, Each-Among, Each-update, Unique-update, running, running-stop, running-begun, no_running,
  begun-NoOrphan, select-Among, lowest_lem,
}
use gh_pool.Sessions.Machine.{IsSound, publish_in-IsSound}

begun_row-IsSound :
    (sid now : ℕ) (c : Command) (db : Tables)
    → select (of_status is_started sid) db.commands ≡ []
    → Among c db.commands
    → of_status is_queued sid c ≡ true
    → IsSound db
    → IsSound (record db { commands = update_where (λ d. d.id == c.id) (begun now) db.commands })
unfolding begun
begun_row-IsSound sid now c db free among queued v = record {
  dense = v.dense;
  single = λ j.
      let now_running = running-begun j now c db.commands v.unique among in
      let old : running j db.commands ≤ 1 = v.single j in
      let none_running : running sid db.commands ≡ 0 = no_running sid db.commands free in
      unfold of_status in
      elim (Bool-cases (c.session_id == j)) [
        | inl h ↦
            let same : j ≡ sid = ground arith in
            let zero_running : running j db.commands ≡ 0 = rw same none_running in ground arith
        | inr h ↦ ground arith
      ];
  unique = Unique-update (λ d. d.id == c.id) (begun now) db.commands (λ d. refl) v.unique;
  settled_over = λ j. elim (v.settled_over j) [
    | inl o ↦ inl o
    | inr o ↦
        let not_orphan : is_orphan j c ≡ false =
          Each-Among (λ d. is_orphan j d ≡ false) c db.commands o among in
        let elsewhere : (c.session_id == j) ≡ false = unfold is_orphan of_status in ground arith in
        inr (begun-NoOrphan j now c db.commands elsewhere v.unique among o)
  ];
}

start_one-IsSound :
    (sid now : ℕ) (db : Tables)
    → select (of_status is_started sid) db.commands ≡ []
    → IsSound db
    → IsSound (start_one sid now (lowest (select (of_status is_queued sid) db.commands)) db).0
unfolding start_one
start_one-IsSound sid now db free v =
    elim (Option-cases (lowest (select (of_status is_queued sid) db.commands))) [
      | inl e ↦ rw e v
      | inr (c, e) ↦
          let found = lowest_lem c (select (of_status is_queued sid) db.commands) e in
          let (among, queued) = select-Among (of_status is_queued sid) c db.commands found.0 in
          rw e (
            publish_in-IsSound sid (command_started c.id) _
              (begun_row-IsSound sid now c db free among queued v))
    ]

pub take_next-IsSound : (sid now : ℕ) (db : Tables) → IsSound db → IsSound (take_next sid now db).0
unfolding take_next
take_next-IsSound sid now db v = elim (List-cases (select (of_status is_started sid) db.commands)) [
  | inl e ↦ rw (e, take_next) (start_one-IsSound sid now db e v)
  | inr (c, cs, e) ↦ rw (e, take_next) v
]

settled-status : (o : Outcome) (now : ℕ) (c : Command) → is_started (settled o now c).status ≡ false
unfolding settled
settled-status (result_is r) now c = refl
settled-status (error_is e) now c = refl

settled-queued : (o : Outcome) (now : ℕ) (c : Command) → is_queued (settled o now c).status ≡ false
unfolding settled
settled-queued (result_is r) now c = refl
settled-queued (error_is e) now c = refl

settled-id : (o : Outcome) (now : ℕ) (c : Command) → (settled o now c).id ≡ c.id
unfolding settled
settled-id (result_is r) now c = refl
settled-id (error_is e) now c = refl

settled_rows-IsSound :
    (sid cid now : ℕ) (o : Outcome) (db : Tables)
    → IsSound db
    → IsSound
        (record db { commands = update_where (is_current sid cid) (settled o now) db.commands })
settled_rows-IsSound sid cid now o db v = record {
  dense = v.dense;
  single = λ j.
      let fewer =
        running-stop j (is_current sid cid) (settled o now) db.commands (settled-status o now) in
      let old : running j db.commands ≤ 1 = v.single j in omega arith;
  unique =
      Unique-update (is_current sid cid) (settled o now) db.commands (settled-id o now) v.unique;
  settled_over = λ j. elim (v.settled_over j) [
    | inl e ↦ inl e
    | inr e ↦ inr (
        Each-update (λ c. is_orphan j c ≡ false) (is_current sid cid) (settled o now) db.commands
          (λ c h k.
            unfold is_orphan in ground (arith, settled-status o now c, settled-queued o now c))
          e)
  ];
}

pub complete-IsSound :
    (sid cid now : ℕ) (o : Outcome) (s : Sessions)
    → IsSound s.db
    → IsSound (complete sid cid o now s).db
unfolding complete announce_work
complete-IsSound sid cid now o s v = elim (List-cases (select (is_current sid cid) s.db.commands)) [
  | inl e ↦ rw (e, complete) v
  | inr (c, cs, e) ↦
      rw (e, complete)
        (publish_in-IsSound sid (outcome_event cid o) _ (settled_rows-IsSound sid cid now o s.db v))
]
