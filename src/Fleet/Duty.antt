-- ===== src/Fleet/Duty.antt =====
-- fleet/runners/reconcile.py: the slots against what the pool says of their tasks.
pub mod Gone
use gh_pool.Base.{
  ℕ, ◌+◌, ◌-◌, ◌≤◌, ◌≡◌, refl, Bool, true, false, Option, none, some, List, [], ◌∷◌, if◌then◌else◌,
  ltb, ◌&&◌, not, arith, Bool-cases, Option-cases, ◌⊎◌, inl, inr, ◌==◌, str_eq, ◌∙◌, ◌||◌,
}
use gh_pool.Base.Dict.{Dict, lookup, put, remove, lookup-put, lookup-remove}
use gh_pool.Base.Members.{member}
use gh_pool.Pool.Status.{TaskStatus, is_live, is_running, text}
use gh_pool.Fleet.Slots.{
  Slot, Answer, cancelled, missing, trouble, cancel, cancel_with, drop_slot, mark, slots, size,
  born,
}

-- TIMEOUT_GRACE
abbrev pub timeout_grace : ℕ
timeout_grace = 480

-- What the pool says of a task: it does not know it, it does not answer, or a status.
pub data Seen : Type 0 where
  unknown blind : Seen
  status_is : TaskStatus → Seen

-- What a pass meets: the clock, the target's lifetime, WORKER_STALE, the tasks that workers hold,
-- and the pool's answers.
pub record Duty : Type 0 where
  pub now : ℕ
  pub lifetime : ℕ
  pub worker_stale : ℕ
  pub taken : List ℕ
  pub state : ℕ → Seen
  pub answer : ℕ → Answer

-- Slot.age, after mark may have moved `since`
age_of : ℕ → Option Slot → ℕ
age_of now none = 0
age_of now (some slot) = now - slot.since

-- The worker with this runner is gone.
unfoldable pub is_deserted : Duty → ℕ → TaskStatus → Dict Slot → Bool
unfolding age_of
is_deserted c task_id status d =
    is_running status
    && (elim c.taken [ [] ↦ false | _ ∷ _ ↦ not (member task_id c.taken) ]
        && ltb c.worker_stale (age_of c.now (lookup task_id d)))

-- The part of the loop that has the task's state.
unfoldable pub on_state : Duty → ℕ → Seen → Dict Slot → Dict Slot
unfolding cancel drop_slot mark is_deserted
on_state c task_id unknown d = (drop_slot task_id d).0
on_state c task_id blind d = d
on_state c task_id (status_is status) d =
    let d' = mark task_id status c.now d in
    if not (is_live status)
    then (drop_slot task_id d).0
    else if is_deserted c task_id status d'
    then (cancel c.answer task_id d').0
    else d'

-- The loop of reconcile on one slot.
unfoldable pub on_slot : Duty → Slot → Dict Slot → Dict Slot
unfolding on_state cancel drop_slot
on_slot c slot d =
    if ltb (c.lifetime + timeout_grace) (c.now - slot.born_at)
    then (drop_slot slot.task_id (cancel c.answer slot.task_id d).0).0
    else on_state c slot.task_id (c.state slot.task_id) d

unfoldable pub on_slots : Duty → List Slot → Dict Slot → Dict Slot
unfolding on_slot
on_slots c [] d = d
on_slots c (s ∷ xs) d = on_slots c xs (on_slot c s d)

-- reconcile
unfoldable pub reconcile : Duty → Dict Slot → Dict Slot
unfolding on_slots
reconcile c d = on_slots c (slots d) d

-- adopt: the tasks that the pool says are ours.
unfoldable pub adopt : ℕ → List (ℕ × ℕ × TaskStatus) → Dict Slot → Dict Slot
unfolding born mark
adopt now [] d = d
adopt now ((task_id, name, status) ∷ rows) d =
    adopt now rows (mark task_id status now (born task_id name 0 now d))

-- The pool says that the task is over, or does not know it.
unfoldable pub is_gone : Seen → Bool
is_gone unknown = true
is_gone blind = false
is_gone (status_is status) = not (is_live status)
