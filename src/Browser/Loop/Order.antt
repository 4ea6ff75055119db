-- ===== src/Browser/Loop/Order.antt =====
-- The commands of a session are executed one after the other, in the order in which they come.
use gh_pool.Base.{
  ℕ, ◌≡◌, refl, Bool, true, false, Option, none, some, List, [], ◌∷◌, ◌++◌, arith, ◌==◌, ◌⊎◌,
  if◌then◌else◌, inl, inr, append_assoc, Bool-cases, Option-cases, sym, ◌∙◌, ap,
}
use mathlib.Core.List.{append-nil}
use gh_pool.Browser.Loop.{
  Outcome, Phase, dispatching, reporting, Current, Settled, reported, lost, dropped, Reading, on,
  told, untold, died, Runner, cancel_task, start_command, resume, Message, close, other, cancel,
  command, on_message, Event, reads, stream_ends, session_ends, on_session_end, dispatched,
  answered, on_dispatched, on_answered, is_reading, happen, run,
}

abbrev pub id_of : Settled → ℕ
id_of (reported id o) = id
id_of (lost id o) = id
id_of (dropped id) = id

abbrev pub settled_ids : List Settled → List ℕ
settled_ids [] = []
settled_ids (s ∷ ss) = id_of s ∷ settled_ids ss

abbrev pub current_ids : Option Current → List ℕ
current_ids none = []
current_ids (some c) = c.id ∷ []

abbrev pub waiting_ids : Option ℕ → List ℕ
waiting_ids none = []
waiting_ids (some id) = id ∷ []

abbrev pub all_reported : List Settled → Bool
all_reported [] = true
all_reported (reported id o ∷ ss) = all_reported ss
all_reported (lost id o ∷ ss) = false
all_reported (dropped id ∷ ss) = false

-- The messages that cancel a task, and the reports that fail.
abbrev pub stops : List Event → Bool
stops [] = false
stops (reads healthy close ∷ es) = true
stops (reads healthy (cancel id) ∷ es) = true
stops (answered healthy false ∷ es) = true
stops (_ ∷ es) = stops es

-- The loop was left by an exception, or without having been told.
abbrev pub Over : Runner → Type 0
Over r = (r.reading ≡ died) ⊎ (r.reading ≡ untold)

-- The commands that were settled, the one under way and the one that waits are those that were read;
-- nothing waits in the loop for a task that is done.
pub record IsInOrder (r : Runner) : Type 0 where
  pub order : settled_ids r.settled ++ (current_ids r.current ++ waiting_ids r.waiting) ≡ r.received
  pub awake : (r.waiting ≡ none) ⊎ ((c : Current) × (r.current ≡ some c)) ⊎ Over r
  pub held : (r.waiting ≡ none) ⊎ (r.reading ≡ on) ⊎ Over r

settled_ids-snoc :
    (ss : List Settled) (s : Settled)
    → settled_ids (ss ++ (s ∷ [])) ≡ settled_ids ss ++ (id_of s ∷ [])
settled_ids-snoc [] s = refl
settled_ids-snoc (x ∷ ss) s = ap (λ l. id_of x ∷ l) (settled_ids-snoc ss s)

-- One command is settled, and the rest stays.
settle :
    (ss : List Settled) (s : Settled) (rest : List ℕ)
    → settled_ids (ss ++ (s ∷ [])) ++ rest ≡ settled_ids ss ++ (id_of s ∷ rest)
settle ss s rest =
    ap (λ l. l ++ rest) (settled_ids-snoc ss s) ∙ append_assoc (settled_ids ss) (id_of s ∷ []) rest

pub Phase-cases : (p : Phase) → (p ≡ dispatching) ⊎ ((x : Outcome) × (p ≡ reporting x))
Phase-cases dispatching = inl refl
Phase-cases (reporting x) = inr (x, refl)

cancel_task-IsInOrder :
    (c : Current) (r : Runner)
    → r.current ≡ some c
    → r.waiting ≡ none
    → IsInOrder r
    → IsInOrder (cancel_task c r)
unfolding cancel_task
cancel_task-IsInOrder c r e w o = elim (Phase-cases c.phase) [
  | inl p ↦ rw (p, cancel_task) (record { order = same ∙ o.order; awake = inl w; held = inl w })
  | inr (x, p) ↦
      rw (p, cancel_task)
        (record {
          order = settle r.settled (dropped c.id) (waiting_ids r.waiting) ∙ same ∙ o.order;
          awake = inl w;
          held = inl w;
        })
]
  where
    same :
        settled_ids r.settled ++ (c.id ∷ waiting_ids r.waiting)
        ≡ settled_ids r.settled ++ (current_ids r.current ++ waiting_ids r.waiting)
    same = ap (λ x. settled_ids r.settled ++ (current_ids x ++ waiting_ids r.waiting)) (sym e)

start_command-IsInOrder :
    (healthy : Bool) (id : ℕ) (r : Runner)
    → settled_ids r.settled ++ (id ∷ []) ≡ r.received
    → r.current ≡ none
    → IsInOrder (start_command healthy id r)
unfolding start_command
start_command-IsInOrder true id r e n = record { order = e; awake = inl refl; held = inl refl }
start_command-IsInOrder false id r e n = record {
  order = ap (λ x. settled_ids r.settled ++ (current_ids x ++ (id ∷ []))) n ∙ e;
  awake = inr (inr (inl refl));
  held = inr (inr (inl refl));
}

-- What _await_current leaves: a command that waited starts.
resume-IsInOrder :
    (healthy : Bool) (r : Runner)
    → settled_ids r.settled ++ (current_ids r.current ++ waiting_ids r.waiting) ≡ r.received
    → (r.waiting ≡ none) ⊎ (r.reading ≡ on) ⊎ Over r
    → IsInOrder (resume healthy r)
unfolding resume
resume-IsInOrder healthy r e h = elim (Option-cases r.current) [
  | inr (c, x) ↦ rw (x, resume) (record { order = e; awake = inr (inl (c, x)); held = h })
  | inl x ↦ elim (Option-cases r.waiting) [
    | inl w ↦ rw (x, w, resume) (record { order = e; awake = inl w; held = h })
    | inr (id, w) ↦
        let alone : settled_ids r.settled ++ (id ∷ []) ≡ r.received =
          sym (
            ap (λ y. settled_ids r.settled ++ (current_ids y ++ waiting_ids r.waiting)) x
            ∙ ap (λ y. settled_ids r.settled ++ waiting_ids y) w)
          ∙ e in
        elim h [
          | inl n ↦ absurd (apart (sym n ∙ w))
          | inr (inl o) ↦ rw (x, w, o, resume) (start_command-IsInOrder healthy id r alone x)
          | inr (inr (inl d)) ↦
              rw (x, w, d, resume)
                (record { order = e; awake = inr (inr (inl d)); held = inr (inr (inl d)) })
          | inr (inr (inr d)) ↦
              rw (x, w, d, resume)
                (record { order = e; awake = inr (inr (inr d)); held = inr (inr (inr d)) })
        ]
  ]
]
  where
    apart : {id : ℕ} → ◌≡◌ {A = Option ℕ} none (some id) → ⊥
    apart e = cc

order_bare :
    (r : Runner)
    → IsInOrder r
    → r.waiting ≡ none
    → settled_ids r.settled ++ current_ids r.current ≡ r.received
order_bare r o w =
    ap (λ x. settled_ids r.settled ++ x) (sym (append-nil (current_ids r.current)))
    ∙ ap (λ x. settled_ids r.settled ++ (current_ids r.current ++ waiting_ids x)) (sym w)
    ∙ o.order

command-IsInOrder :
    (healthy : Bool) (id : ℕ) (r : Runner)
    → IsInOrder r
    → r.reading ≡ on
    → r.waiting ≡ none
    → IsInOrder (on_message healthy (command id) r)
unfolding on_message
command-IsInOrder healthy id r o n w =
    let bare = order_bare r o w in
    let r' = record r { received = r.received ++ (id ∷ []) } in
    elim (Option-cases r.current) [
      | inl x ↦
          let empty : settled_ids r.settled ≡ r.received =
            sym (append-nil (settled_ids r.settled))
            ∙ sym (ap (λ y. settled_ids r.settled ++ current_ids y) x)
            ∙ bare in
          rw (x, on_message)
            (start_command-IsInOrder healthy id r' (ap (λ l. l ++ (id ∷ [])) empty) x)
      | inr (c, x) ↦
          rw (x, on_message)
            (record {
              order =
                  ap (λ y. settled_ids r.settled ++ (current_ids y ++ (id ∷ []))) x
                  ∙ ap (λ y. settled_ids r.settled ++ (y ++ (id ∷ []))) (sym (ap current_ids x))
                  ∙ sym (append_assoc (settled_ids r.settled) (current_ids r.current) (id ∷ []))
                  ∙ ap (λ l. l ++ (id ∷ [])) bare;
              awake = inr (inl (c, x));
              held = inr (inl n);
            })
    ]

close-IsInOrder :
    (healthy : Bool) (r : Runner)
    → IsInOrder r
    → r.waiting ≡ none
    → IsInOrder (on_message healthy close r)
unfolding on_message
close-IsInOrder healthy r o w =
    let closed : IsInOrder (record r { reading = told }) = record {
      order = o.order;
      awake = inl w;
      held = inl w;
    } in
    elim (Option-cases r.current) [
      | inl x ↦ rw (x, on_message) closed
      | inr (c, x) ↦
          rw (x, on_message) (cancel_task-IsInOrder c (record r { reading = told }) x w closed)
    ]

cancel-IsInOrder :
    (healthy : Bool) (id : ℕ) (r : Runner)
    → IsInOrder r
    → r.waiting ≡ none
    → IsInOrder (on_message healthy (cancel id) r)
unfolding on_message
cancel-IsInOrder healthy id r o w = elim (Option-cases r.current) [
  | inl x ↦ rw (x, on_message) o
  | inr (c, x) ↦ elim (Bool-cases (c.id == id)) [
    | inl e ↦ rw (x, on_message, e) (cancel_task-IsInOrder c r x w o)
    | inr e ↦ rw (x, on_message, e) o
  ]
]

on_message-IsInOrder :
    (healthy : Bool) (m : Message) (r : Runner)
    → IsInOrder r
    → r.reading ≡ on
    → r.waiting ≡ none
    → IsInOrder (on_message healthy m r)
on_message-IsInOrder healthy (command id) r o n w = command-IsInOrder healthy id r o n w
on_message-IsInOrder healthy other r o n w = unfold on_message in o
on_message-IsInOrder healthy close r o n w = close-IsInOrder healthy r o w
on_message-IsInOrder healthy (cancel id) r o n w = cancel-IsInOrder healthy id r o w

-- The loop reads only where it is on and holds nothing.
reading_on : (r : Runner) → is_reading r ≡ true → (r.reading ≡ on) × (r.waiting ≡ none)
unfolding is_reading
reading_on r e = (ground (arith), ground (arith))

reads-IsInOrder :
    (healthy : Bool) (m : Message) (r : Runner)
    → IsInOrder r
    → IsInOrder (happen (reads healthy m) r)
unfolding happen
reads-IsInOrder healthy m r o = elim (Bool-cases (is_reading r)) [
  | inr e ↦ rw (e, happen) o
  | inl e ↦
      let (n, w) = reading_on r e in
      let next = on_message-IsInOrder healthy m r o n w in
      rw (e, happen) (resume-IsInOrder healthy (on_message healthy m r) next.order next.held)
]

stream_ends-IsInOrder : (r : Runner) → IsInOrder r → IsInOrder (happen stream_ends r)
unfolding happen
stream_ends-IsInOrder r o = elim (Bool-cases (is_reading r)) [
  | inr e ↦ rw (e, happen) o
  | inl e ↦
      let (n, w) = reading_on r e in
      rw (e, happen) (record { order = o.order; awake = inl w; held = inl w })
]

on_dispatched-IsInOrder : (x : Outcome) (r : Runner) → IsInOrder r → IsInOrder (on_dispatched x r)
unfolding on_dispatched
on_dispatched-IsInOrder x r o = elim (Option-cases r.current) [
  | inl e ↦ rw (e, on_dispatched) o
  | inr (c, e) ↦ elim (Phase-cases c.phase) [
    | inr (y, p) ↦ rw (e, p, on_dispatched) o
    | inl p ↦
        rw (e, p, on_dispatched)
          (record {
            order =
                ap (λ y. settled_ids r.settled ++ (current_ids y ++ waiting_ids r.waiting)) (sym e)
                ∙ o.order;
            awake = inr (inl (record c { phase = reporting x }, refl));
            held = o.held;
          })
  ]
]

id_of_report :
    (id : ℕ) (o : Outcome) (handed : Bool)
    → id_of (if handed then reported id o else lost id o) ≡ id
id_of_report id o true = refl
id_of_report id o false = refl

on_session_end-IsInOrder : (r : Runner) → IsInOrder r → IsInOrder (on_session_end r)
unfolding on_session_end
on_session_end-IsInOrder r o = ends r.reading refl
  where
    ends : (x : Reading) → r.reading ≡ x → IsInOrder (on_session_end r)
    ends on e =
        rw (e, on_session_end)
          (record { order = o.order; awake = over o.awake; held = inr (inr (inr refl)) })
      where
        over :
            (r.waiting ≡ none) ⊎ ((c : Current) × (r.current ≡ some c)) ⊎ Over r
            → (r.waiting ≡ none)
              ⊎ ((c : Current) × (r.current ≡ some c))
              ⊎ Over (record r { reading = untold })
        over (inl w) = inl w
        over (inr (inl c)) = inr (inl c)
        over (inr (inr d)) = inr (inr (inr refl))
    ends told e = rw (e, on_session_end) o
    ends untold e = rw (e, on_session_end) o
    ends died e = rw (e, on_session_end) o

on_answered-IsInOrder :
    (healthy handed : Bool) (r : Runner) → IsInOrder r → IsInOrder (on_answered healthy handed r)
unfolding on_answered
on_answered-IsInOrder healthy handed r o = elim (Option-cases r.current) [
  | inl e ↦ rw (e, on_answered) o
  | inr (c, e) ↦ elim (Phase-cases c.phase) [
    | inl p ↦ rw (e, p, on_answered) o
    | inr (y, p) ↦
        let s = if handed then reported c.id y else lost c.id y in
        let own = id_of_report c.id y handed in
        let r' = record r { current = none; settled = r.settled ++ (s ∷ []) } in
        rw (e, p, on_answered)
          (resume-IsInOrder healthy r'
            (settle r.settled s (waiting_ids r.waiting)
              ∙ ap (λ i. settled_ids r.settled ++ (i ∷ waiting_ids r.waiting)) own
              ∙ ap (λ z. settled_ids r.settled ++ (current_ids z ++ waiting_ids r.waiting)) (sym e)
              ∙ o.order)
            o.held)
  ]
]

pub run-IsInOrder : (es : List Event) (r : Runner) → IsInOrder r → IsInOrder (run es r)
unfolding run
run-IsInOrder [] r o = o
run-IsInOrder (reads healthy m ∷ es) r o =
    run-IsInOrder es (happen (reads healthy m) r) (reads-IsInOrder healthy m r o)
run-IsInOrder (stream_ends ∷ es) r o =
    run-IsInOrder es (happen stream_ends r) (stream_ends-IsInOrder r o)
run-IsInOrder (dispatched x ∷ es) r o =
    run-IsInOrder es (happen (dispatched x) r) (unfold happen in on_dispatched-IsInOrder x r o)
run-IsInOrder (session_ends ∷ es) r o =
    run-IsInOrder es (happen session_ends r) (unfold happen in on_session_end-IsInOrder r o)
run-IsInOrder (answered healthy handed ∷ es) r o =
    run-IsInOrder es (happen (answered healthy handed) r)
      (unfold happen in on_answered-IsInOrder healthy handed r o)
