-- ===== src/Browser/Loop/Reports.antt =====
-- A command's outcome is handed back unless its task is cancelled.
use gh_pool.Base.{
  ℕ, ◌≡◌, refl, Bool, true, false, none, List, [], ◌∷◌, ◌++◌, arith, ◌⊎◌, inl, inr, Bool-cases,
  Option-cases, ◌∙◌, ap,
}
use gh_pool.Browser.Loop.{
  Outcome, Settled, reported, lost, dropped, Runner, new_runner, start_command, resume, Message,
  close, other, cancel, command, on_message, Event, reads, stream_ends, session_ends,
  on_session_end, dispatched, answered, on_dispatched, on_answered, happen, run, is_reading,
}
use gh_pool.Browser.Loop.Order.{all_reported, stops, IsInOrder, run-IsInOrder, Phase-cases}

all_reported-snoc :
    (ss : List Settled) (id : ℕ) (o : Outcome)
    → all_reported (ss ++ (reported id o ∷ [])) ≡ all_reported ss
all_reported-snoc [] id o = refl
all_reported-snoc (reported i x ∷ ss) id o = all_reported-snoc ss id o
all_reported-snoc (lost i x ∷ ss) id o = refl
all_reported-snoc (dropped i ∷ ss) id o = refl

settled-start_command :
    (healthy : Bool) (id : ℕ) (r : Runner) → (start_command healthy id r).settled ≡ r.settled
unfolding start_command
settled-start_command true id r = refl
settled-start_command false id r = refl

settled-resume : (healthy : Bool) (r : Runner) → (resume healthy r).settled ≡ r.settled
unfolding resume start_command
settled-resume healthy r = ground arith

settled-command :
    (healthy : Bool) (id : ℕ) (r : Runner) → (on_message healthy (command id) r).settled ≡ r.settled
unfolding on_message start_command
settled-command healthy id r = ground arith

settled-on_dispatched : (x : Outcome) (r : Runner) → (on_dispatched x r).settled ≡ r.settled
unfolding on_dispatched
settled-on_dispatched x r = ground arith

abbrev Same : Runner → Runner → Type 0
Same r r' = all_reported r'.settled ≡ all_reported r.settled

-- A message that leaves what is settled.
settled-reads :
    (healthy : Bool) (m : Message) (r : Runner)
    → (on_message healthy m r).settled ≡ r.settled
    → (happen (reads healthy m) r).settled ≡ r.settled
unfolding happen
settled-reads healthy m r e = elim (Bool-cases (is_reading r)) [
  | inl g ↦ rw (g, happen) (settled-resume healthy (on_message healthy m r) ∙ e)
  | inr g ↦ rw (g, happen) refl
]

settled-stream_ends : (r : Runner) → (happen stream_ends r).settled ≡ r.settled
unfolding happen
settled-stream_ends r = elim (Bool-cases (is_reading r)) [
  | inl g ↦ rw (g, happen) refl
  | inr g ↦ rw (g, happen) refl
]

settled-session_ends : (r : Runner) → (on_session_end r).settled ≡ r.settled
unfolding on_session_end
settled-session_ends r = ground arith

answered-Same : (healthy : Bool) (r : Runner) → Same r (on_answered healthy true r)
unfolding on_answered
answered-Same healthy r = elim (Option-cases r.current) [
  | inl e ↦ rw (e, on_answered) refl
  | inr (c, e) ↦ elim (Phase-cases c.phase) [
    | inl p ↦ rw (e, p, on_answered) refl
    | inr (y, p) ↦
        let r' = record r { current = none; settled = r.settled ++ (reported c.id y ∷ []) } in
        rw (e, p, on_answered)
          (ap all_reported (settled-resume healthy r') ∙ all_reported-snoc r.settled c.id y)
  ]
]

-- An event that cancels nothing drops nothing.
happen-Same : (e : Event) (r : Runner) → (stops (e ∷ []) ≡ true) ⊎ Same r (happen e r)
happen-Same (reads healthy close) r = inl refl
happen-Same (reads healthy (cancel id)) r = inl refl
happen-Same (reads healthy other) r =
    inr (ap all_reported (settled-reads healthy other r (unfold on_message in refl)))
happen-Same (reads healthy (command id)) r =
    inr (ap all_reported (settled-reads healthy (command id) r (settled-command healthy id r)))
happen-Same stream_ends r = inr (ap all_reported (settled-stream_ends r))
happen-Same (dispatched x) r = inr (unfold happen in ap all_reported (settled-on_dispatched x r))
happen-Same session_ends r =
    inr (unfold happen on_session_end in ap all_reported (settled-session_ends r))
happen-Same (answered healthy true) r = inr (unfold happen in answered-Same healthy r)
happen-Same (answered healthy false) r = inl refl

stops-cons : (e : Event) (es : List Event) → (stops (e ∷ []) ≡ true) ⊎ (stops (e ∷ es) ≡ stops es)
stops-cons (reads healthy close) es = inl refl
stops-cons (reads healthy (cancel id)) es = inl refl
stops-cons (reads healthy other) es = inr refl
stops-cons (reads healthy (command id)) es = inr refl
stops-cons stream_ends es = inr refl
stops-cons (dispatched x) es = inr refl
stops-cons session_ends es = inr refl
stops-cons (answered healthy true) es = inr refl
stops-cons (answered healthy false) es = inl refl

stops_first : (e : Event) (es : List Event) → stops (e ∷ []) ≡ true → stops (e ∷ es) ≡ true
stops_first (reads healthy close) es h = refl
stops_first (reads healthy (cancel id)) es h = refl
stops_first (reads healthy other) es h = absurd (ground arith)
stops_first (reads healthy (command id)) es h = absurd (ground arith)
stops_first stream_ends es h = absurd (ground arith)
stops_first (dispatched x) es h = absurd (ground arith)
stops_first session_ends es h = absurd (ground arith)
stops_first (answered healthy true) es h = absurd (ground arith)
stops_first (answered healthy false) es h = refl

run-reported :
    (es : List Event) (r : Runner)
    → all_reported r.settled ≡ true
    → (stops es ≡ true) ⊎ (all_reported (run es r).settled ≡ true)
unfolding run
run-reported [] r a = inr a
run-reported (e ∷ es) r a = elim (happen-Same e r) [
  | inl h ↦ inl (stops_first e es h)
  | inr same ↦ elim (stops-cons e es) [
    | inl h ↦ inl (stops_first e es h)
    | inr rest ↦ elim (run-reported es (happen e r) (same ∙ a)) [
      | inl h ↦ inl (rest ∙ h)
      | inr g ↦ inr g
    ]
  ]
]

-- Whatever happens to a runner, in whatever order, the commands that it has read from its stream are
-- those that were settled, then the one that is under way, then the one that waits for it, in the
-- order in which they were read: each is executed at most once, none is passed over, and none starts
-- before the one before it is settled. None waits where nothing is under way, but in a loop that has
-- died or was ended by a heartbeat. Unless a message has cancelled a task or the call that hands back
-- an outcome has failed, each command that was settled had its outcome handed back.
pub run-new :
    (es : List Event)
    → IsInOrder (run es new_runner)
      × ((stops es ≡ true) ⊎ (all_reported (run es new_runner).settled ≡ true))
unfolding new_runner
run-new es = (
  run-IsInOrder es new_runner (record { order = refl; awake = inl refl; held = inl refl }),
  run-reported es new_runner refl,
)
