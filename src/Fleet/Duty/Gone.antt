-- ===== src/Fleet/Duty/Gone.antt =====
-- A slot whose task is over is dropped.
use gh_pool.Base.{ℕ, ◌≡◌, true, none, List, [], ◌∷◌, arith, Option-cases, ◌⊎◌, inl, inr, subst}
use gh_pool.Base.Dict.{Dict, lookup, lookup-put, lookup-remove}
use gh_pool.Pool.Status.{TaskStatus}
use gh_pool.Fleet.Slots.{
  Slot, Answer, cancelled, missing, trouble, cancel, cancel_with, drop_slot, mark, slots,
}
use gh_pool.Fleet.Duty.{
  Seen, unknown, blind, status_is, Duty, on_state, on_slot, on_slots, reconcile, is_gone,
}

lookup-cancel :
    (j : ℕ) (a : Answer) (k : ℕ) (d : Dict Slot)
    → lookup j d ≡ none
    → lookup j (cancel_with a k d).0 ≡ none
unfolding cancel_with drop_slot
lookup-cancel j trouble k d e = e
lookup-cancel j cancelled k d e = ground (arith, lookup-remove k j d)
lookup-cancel j missing k d e = ground (arith, lookup-remove k j d)

lookup-mark :
    (j k : ℕ) (status : TaskStatus) (now : ℕ) (d : Dict Slot)
    → lookup j d ≡ none
    → lookup j (mark k status now d) ≡ none
unfolding mark
lookup-mark j k status now d e = elim (Option-cases (lookup k d)) [
  | inl n ↦ rw (n, mark) e
  | inr (s, n) ↦
      rw (n, mark) (ground (arith, lookup-put k j (record s { status = status; since = now }) d))
]

lookup-on_state :
    (c : Duty) (j k : ℕ) (seen : Seen) (d : Dict Slot)
    → lookup j d ≡ none
    → lookup j (on_state c k seen d) ≡ none
unfolding on_state drop_slot cancel
lookup-on_state c j k unknown d e = ground (arith, lookup-remove k j d)
lookup-on_state c j k blind d e = e
lookup-on_state c j k (status_is status) d e =
    let marked = lookup-mark j k status c.now d e in
    ground (
      arith,
      lookup-remove k j d,
      marked,
      lookup-cancel j (c.answer k) k (mark k status c.now d) marked,
    )

lookup-on_slot :
    (c : Duty) (j : ℕ) (s : Slot) (d : Dict Slot)
    → lookup j d ≡ none
    → lookup j (on_slot c s d) ≡ none
unfolding on_slot drop_slot cancel
lookup-on_slot c j s d e = ground (
  arith,
  lookup-remove s.task_id j (cancel_with (c.answer s.task_id) s.task_id d).0,
  lookup-cancel j (c.answer s.task_id) s.task_id d e,
  lookup-on_state c j s.task_id (c.state s.task_id) d e,
)

lookup-on_slots :
    (c : Duty) (j : ℕ) (xs : List Slot) (d : Dict Slot)
    → lookup j d ≡ none
    → lookup j (on_slots c xs d) ≡ none
unfolding on_slots
lookup-on_slots c j [] d e = e
lookup-on_slots c j (s ∷ xs) d e = lookup-on_slots c j xs (on_slot c s d) (lookup-on_slot c j s d e)

gone-on_state :
    (c : Duty) (j : ℕ) (seen : Seen) (d : Dict Slot)
    → is_gone seen ≡ true
    → lookup j (on_state c j seen d) ≡ none
unfolding on_state is_gone drop_slot
gone-on_state c j unknown d g = ground (arith, lookup-remove j j d)
gone-on_state c j blind d g = absurd (ground arith)
gone-on_state c j (status_is status) d g = ground (arith, lookup-remove j j d)

gone-on_slot :
    (c : Duty) (s : Slot) (d : Dict Slot)
    → is_gone (c.state s.task_id) ≡ true
    → lookup s.task_id (on_slot c s d) ≡ none
unfolding on_slot drop_slot cancel
gone-on_slot c s d g = ground (
  arith,
  lookup-remove s.task_id s.task_id (cancel_with (c.answer s.task_id) s.task_id d).0,
  gone-on_state c s.task_id (c.state s.task_id) d g,
)

-- A slot of this task is among the slots.
abbrev pub Listed : ℕ → List Slot → Type 0
Listed j [] = ⊥
Listed j (s ∷ xs) = (s.task_id ≡ j) ⊎ Listed j xs

gone-on_slots :
    (c : Duty) (j : ℕ) (xs : List Slot) (d : Dict Slot)
    → Listed j xs
    → is_gone (c.state j) ≡ true
    → lookup j (on_slots c xs d) ≡ none
unfolding on_slots
gone-on_slots c j [] d m g = absurd m
gone-on_slots c j (s ∷ xs) d (inl e) g =
    lookup-on_slots c j xs (on_slot c s d)
      (subst (λ y. lookup y (on_slot c s d) ≡ none) e (gone-on_slot c s d (rw e g)))
gone-on_slots c j (s ∷ xs) d (inr m) g = gone-on_slots c j xs (on_slot c s d) m g

-- After a pass no slot is left under a task of which the pool says that it is over, or that it does
-- not know, whatever it answers to the cancels and for the other slots.
pub reconcile-drops :
    (c : Duty) (j : ℕ) (d : Dict Slot)
    → Listed j (slots d)
    → is_gone (c.state j) ≡ true
    → lookup j (reconcile c d) ≡ none
unfolding reconcile
reconcile-drops c j d m g = gone-on_slots c j (slots d) d m g
