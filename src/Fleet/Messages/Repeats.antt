-- ===== src/Fleet/Messages/Repeats.antt =====
-- A message that GitHub delivers again is not handled again.
use gh_pool.Base.{
  ℕ, ◌≤◌, ◌<◌, ◌≡◌, refl, Bool, true, false, Option, none, some, List, [], ◌∷◌, if◌then◌else◌,
  arith, Bool-cases, inl, inr, ◌==◌, leb, not, ◌&&◌, ◌⊎◌, Option-cases,
}
use gh_pool.Fleet.Messages.{
  Queue, Message, Tick, Poll, fails, nothing, message, tick, ticks, on_poll, on_message,
  after_message, after_silence, handle, pick_up, ack,
}

-- The last id does not fall; an exception has none.
abbrev pub Rises : ℕ → Queue × Option ℕ → Type 0
Rises last_id (q, none) = Unit
Rises last_id (q, some n) = last_id ≤ n

after_message-Rises :
    (last_id : ℕ) (m : Message) (r : Queue × Bool)
    → (m.id ≡ 0) ⊎ (last_id < m.id)
    → Rises last_id (after_message last_id m r)
unfolding after_message
after_message-Rises last_id m (q, true) h = ground arith
after_message-Rises last_id m (q, false) h = tt

after_silence-Rises : (last_id : ℕ) (r : Queue × Bool) → Rises last_id (after_silence last_id r)
unfolding after_silence
after_silence-Rises last_id (q, true) = omega arith
after_silence-Rises last_id (q, false) = tt

on_message-Rises :
    (t : Tick) (last_id : ℕ) (m : Message) (q : Queue) → Rises last_id (on_message t last_id m q)
unfolding on_message
on_message-Rises t last_id m q = elim (Bool-cases (not (m.id == 0) && leb m.id last_id)) [
  | inl e ↦ rw (e, if◌then◌else◌) (omega arith)
  | inr e ↦
      rw (e, if◌then◌else◌)
        (after_message-Rises last_id m (handle t.target t.ask m q) (ground arith))
]

on_poll-Rises :
    (t : Tick) (p : Poll) (last_id : ℕ) (q : Queue) → Rises last_id (on_poll t p last_id q)
unfolding on_poll
on_poll-Rises t fails last_id q = tt
on_poll-Rises t nothing last_id q = elim (Bool-cases t.stopping) [
  | inl e ↦ rw (e, if◌then◌else◌) (omega arith)
  | inr e ↦ rw (e, if◌then◌else◌) (after_silence-Rises last_id (pick_up t.target t.ask t.waiting q))
]
on_poll-Rises t (message m) last_id q = elim (Bool-cases t.stopping) [
  | inl e ↦ rw (e, if◌then◌else◌) (omega arith)
  | inr e ↦ rw (e, if◌then◌else◌) (on_message-Rises t last_id m q)
]

Rises-to : (last_id n : ℕ) (r : Queue × Option ℕ) → Rises last_id r → r.1 ≡ some n → last_id ≤ n
Rises-to last_id n (q, none) h e = absurd (ground arith)
Rises-to last_id n (q, some k) h e = ground arith

ticks_rise :
    (ts : List Tick) (last_id n : ℕ) (q : Queue) → (ticks ts last_id q).1 ≡ some n → last_id ≤ n
unfolding ticks tick
ticks_rise [] last_id n q e = ground arith
ticks_rise (t ∷ ts) last_id n q e = elim (Option-cases (on_poll t t.poll last_id q).1) [
  | inl o ↦ absurd (ground arith)
  | inr (k, o) ↦
      let first =
        Rises-to last_id k (on_poll t t.poll last_id q) (on_poll-Rises t t.poll last_id q) o in
      let later = ticks_rise ts k n (on_poll t t.poll last_id q).0 (rw (o, ticks) at e) in
      omega arith
]

after_message_id :
    (last_id n : ℕ) (m : Message) (r : Queue × Bool)
    → (m.id == 0) ≡ false
    → (after_message last_id m r).1 ≡ some n
    → n ≡ m.id
unfolding after_message
after_message_id last_id n m (q, true) h e = ground arith
after_message_id last_id n m (q, false) h e = absurd (ground arith)

tick_past :
    (t : Tick) (m : Message) (last_id n : ℕ) (q : Queue)
    → t.poll ≡ message m
    → t.stopping ≡ false
    → (m.id == 0) ≡ false
    → (tick t last_id q).1 ≡ some n
    → m.id ≤ n
unfolding tick on_poll on_message
tick_past t m last_id n q p s h e =
    let opened : (on_message t last_id m q).1 ≡ some n = rw (p, s, if◌then◌else◌) at e in
    elim (Bool-cases (leb m.id last_id)) [
      | inl b ↦ ground arith
      | inr b ↦
          let handled : (after_message last_id m (handle t.target t.ask m q)).1 ≡ some n =
            rw (h, b, if◌then◌else◌) at opened in
          let same = after_message_id last_id n m (handle t.target t.ask m q) h handled in
          omega (arith, same)
    ]

-- A message with an id is handled once: when a tick has returned after it, and any number of ticks
-- have returned after that, a tick that is given the message again acknowledges it and does nothing
-- else, to the runners, the statistics or the last id.
pub tick-repeated :
    (t u : Tick) (ts : List Tick) (m : Message) (last_id n k : ℕ) (q : Queue)
    → (m.id == 0) ≡ false
    → t.poll ≡ message m
    → t.stopping ≡ false
    → (tick t last_id q).1 ≡ some n
    → (ticks ts n (tick t last_id q).0).1 ≡ some k
    → u.poll ≡ message m
    → u.stopping ≡ false
    → tick u k (ticks ts n (tick t last_id q).0).0
      ≡ (ack m (ticks ts n (tick t last_id q).0).0, some k)
unfolding tick on_poll on_message
tick-repeated t u ts m last_id n k q h p s e f p' s' =
    let past = tick_past t m last_id n q p s h e in
    let later = ticks_rise ts n k (tick t last_id q).0 f in
    let known : leb m.id k ≡ true = ground (arith, past, later) in
    rw (p', s', h, known, if◌then◌else◌) refl
