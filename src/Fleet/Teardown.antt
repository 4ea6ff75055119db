-- ===== src/Fleet/Teardown.antt =====
-- fleet/runners/teardown.py: how a controller leaves. What GitHub, the pool and the clocks answer is
-- an argument; the waits between the polls are left out.
pub mod Draining
pub mod Leaving
use gh_pool.Base.{
  ℕ, zero, suc, ◌+◌, Bool, true, false, Option, none, some, List, [], ◌∷◌, if◌then◌else◌, ltb, ◌==◌,
  ◌&&◌, ◌||◌, not,
}
use gh_pool.Base.Dict.{Dict}
use gh_pool.Fleet.Slots.{Slot, Answer, spare, slots, cancel_all, forgotten_all}
use gh_pool.Fleet.Messages.{Stats, Queue, set_stats}

-- One round of drain: FORCE, the statistics if they could be asked, and the clock after that.
pub record Poll : Type 0 where
  pub forced : Bool
  pub stats : Option Stats
  pub now : ℕ

-- The loop of drain, from round `k` on, with the statistics read so far; none is the end of `fuel`.
unfoldable pub drain_from : ℕ → (ℕ → Poll) → ℕ → ℕ → Stats → Queue → Queue × Option Stats
unfolding set_stats
drain_from zero polls deadline k stats q = (q, none)
drain_from (suc fuel) polls deadline k stats q =
    let p = polls k in
    let rest = λ (s : Stats). drain_from fuel polls deadline (suc k) s (set_stats s q) in
    if p.forced then (q, some stats) else elim p.stats [
      | none ↦ (q, some stats)
      | some s ↦ if s.running == 0 || ltb deadline p.now then (set_stats s q, some s) else rest s
    ]

-- drain: `wait` is the target's, and `started` the clock at its start.
unfoldable pub drain : ℕ → (ℕ → Poll) → ℕ → ℕ → Queue → Queue × Option Stats
unfolding drain_from
drain fuel polls wait started q =
    if wait == 0 then (q, some q.latest) else drain_from fuel polls (started + wait) 0 q.latest q

-- What the end meets: FORCE after the drain, the pool's answers to the cancels, whether the scale set
-- is dropped, how long REST is shut, the runners if they can be listed, and which can be deleted.
pub record Leave : Type 0 where
  pub forced : Bool
  pub answer : ℕ → Answer
  pub drops : Bool
  pub rest_shut : ℕ
  pub runners : Option (List ℕ)
  pub deletes : ℕ → Bool

-- What is left, and what was done: the cancels that the pool took, the registrations that they had
-- deleted, whether the scale set is gone, and the runners of the scale set that were asked to go.
pub record Left : Type 0 where
  pub slots_left : Dict Slot
  pub cancelled : ℕ
  pub forgotten : List ℕ
  pub removed_set : Bool
  pub asked : List ℕ
  pub removed : ℕ

-- sum(delete_runner(…))
unfoldable pub delete_all : (ℕ → Bool) → List ℕ → ℕ
delete_all deletes [] = 0
delete_all deletes (r ∷ rs) = (if deletes r then 1 else 0) + delete_all deletes rs

-- bool(stats.running) and not FORCE.is_set()
unfoldable pub is_busy : Leave → Stats → Bool
is_busy c stats = not (stats.running == 0) && not c.forced

-- The runners that are asked to go, unless REST is shut or they cannot be listed.
unfoldable pub asked_runners : Leave → List ℕ
asked_runners c = if ltb 0 c.rest_shut then [] else elim c.runners [ none ↦ [] | some rs ↦ rs ]

-- cleanup, after the drain.
unfoldable pub leave : Leave → Stats → Dict Slot → Left
unfolding is_busy asked_runners delete_all
leave c stats d =
    let busy = is_busy c stats in
    let leaving = if busy then spare d else slots d in
    let (d', n) = cancel_all c.answer leaving d in
    let gone = forgotten_all c.answer leaving d in
    if busy
    then record {
      slots_left = d';
      cancelled = n;
      forgotten = gone;
      removed_set = false;
      asked = [];
      removed = 0;
    }
    else record {
      slots_left = d';
      cancelled = n;
      forgotten = gone;
      removed_set = c.drops;
      asked = asked_runners c;
      removed = delete_all c.deletes (asked_runners c);
    }

-- cleanup: the message session is closed first, whatever comes of it.
unfoldable pub cleanup : ℕ → (ℕ → Poll) → ℕ → ℕ → Leave → Queue → Queue × Option Left
unfolding drain leave
cleanup fuel polls wait started c q =
    let (q', drained) = drain fuel polls wait started q in
    elim drained [
      | none ↦ (q', none)
      | some stats ↦
          let left = leave c stats q'.slots in (record q' { slots = left.slots_left }, some left)
    ]
