-- ===== src/Browser/Loop.antt =====
-- Runner of browser/loop.py: the commands of a session's stream, executed one at a time. What a
-- command does in the browser, and whether the browser and the display are alive, are arguments.
pub mod Order
pub mod Reports
use gh_pool.Base.{
  ℕ, Bool, true, false, Option, none, some, List, [], ◌∷◌, ◌++◌, if◌then◌else◌, ◌==◌,
}

-- How a command ends for the server: well, with an error of its own, or cancelled.
pub data Outcome : Type 0 where
  succeeded failed cancelled : Outcome

-- _run: in actions.dispatch, or handing back what came of it.
pub data Phase : Type 0 where
  dispatching : Phase
  reporting : Outcome → Phase

-- The task of _current, until it is done.
pub record Current : Type 0 where
  pub id : ℕ
  pub phase : Phase

-- What became of a command: its outcome was handed back, or the call that hands it back raised, or
-- its task was cancelled meanwhile.
pub data Settled : Type 0 where
  reported lost : ℕ → Outcome → Settled
  dropped : ℕ → Settled

-- _consume: in its loop; left with true or false; left by an exception.
pub data Reading : Type 0 where
  on told untold died : Reading

-- `waiting` is the command that _consume holds in _await_current, `received` those that it has read.
pub record Runner : Type 0 where
  pub current : Option Current
  pub waiting : Option ℕ
  pub settled : List Settled
  pub received : List ℕ
  pub reading : Reading

-- Runner.__init__
unfoldable pub new_runner : Runner
new_runner = record { current = none; waiting = none; settled = []; received = []; reading = on }

-- task.cancel(), on a task that is not done: a dispatch ends in CancelledError, a report is cut off.
unfoldable pub cancel_task : Current → Runner → Runner
cancel_task c r = elim c.phase [
  | dispatching ↦ record r { current = some (record c { phase = reporting cancelled }) }
  | reporting o ↦ record r { current = none; settled = r.settled ++ (dropped c.id ∷ []) }
]

-- The task is created, or the loop dies.
unfoldable pub start_command : Bool → ℕ → Runner → Runner
start_command healthy id r =
    if healthy
    then record r { current = some (record { id = id; phase = dispatching }); waiting = none }
    else record r { reading = died; waiting = some id }

-- _await_current is over: a command that waited for it starts.
unfoldable pub resume : Bool → Runner → Runner
unfolding start_command
resume healthy r = elim r.current [
  | some c ↦ r
  | none ↦ elim r.waiting [
    | none ↦ r
    | some id ↦ elim r.reading [ on ↦ start_command healthy id r | _ ↦ r ]
  ]
]

-- A message of the stream.
pub data Message : Type 0 where
  close other : Message
  cancel command : ℕ → Message

-- The body of _consume's loop.
unfoldable pub on_message : Bool → Message → Runner → Runner
unfolding cancel_task start_command
on_message healthy other r = r
on_message healthy close r =
    let r' = record r { reading = told } in elim r.current [ none ↦ r' | some c ↦ cancel_task c r' ]
on_message healthy (cancel id) r = elim r.current [
  | none ↦ r
  | some c ↦ if c.id == id then cancel_task c r else r
]
on_message healthy (command id) r =
    let r' = record r { received = r.received ++ (id ∷ []) } in
    elim r.current [ none ↦ start_command healthy id r' | some c ↦ record r' { waiting = some id } ]

-- What may happen next: a message, the end of the stream, a heartbeat that is answered by the end of
-- the session, the end of a dispatch, the end of a report and whether it was handed back. A message is
-- read only in the loop, and not while a command waits.
pub data Event : Type 0 where
  reads : (healthy : Bool) → Message → Event
  stream_ends session_ends : Event
  dispatched : Outcome → Event
  answered : (healthy handed : Bool) → Event

-- The end of a dispatch.
unfoldable pub on_dispatched : Outcome → Runner → Runner
on_dispatched o r = elim r.current [
  | none ↦ r
  | some c ↦ elim c.phase [
    | dispatching ↦ record r { current = some (record c { phase = reporting o }) }
    | reporting p ↦ r
  ]
]

-- The end of a report: an exception of it is only logged.
unfoldable pub on_answered : Bool → Bool → Runner → Runner
unfolding resume
on_answered healthy handed r = elim r.current [
  | none ↦ r
  | some c ↦ elim c.phase [
    | dispatching ↦ r
    | reporting o ↦
        let s = if handed then reported c.id o else lost c.id o in
        resume healthy (record r { current = none; settled = r.settled ++ (s ∷ []) })
  ]
]

-- _beat: consume.cancel(), which ends the loop wherever it waits.
unfoldable pub on_session_end : Runner → Runner
on_session_end r = elim r.reading [ on ↦ record r { reading = untold } | _ ↦ r ]

unfoldable pub is_reading : Runner → Bool
is_reading r = elim r.reading [ on ↦ elim r.waiting [ none ↦ true | some id ↦ false ] | _ ↦ false ]

unfoldable pub happen : Event → Runner → Runner
unfolding on_message on_dispatched on_answered on_session_end is_reading
happen (reads healthy m) r = if is_reading r then resume healthy (on_message healthy m r) else r
happen stream_ends r = if is_reading r then record r { reading = untold } else r
happen (dispatched o) r = on_dispatched o r
happen session_ends r = on_session_end r
happen (answered healthy handed) r = on_answered healthy handed r

unfoldable pub run : List Event → Runner → Runner
unfolding happen
run [] r = r
run (e ∷ es) r = run es (happen e r)
