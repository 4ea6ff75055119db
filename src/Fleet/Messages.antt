-- ===== src/Fleet/Messages.antt =====
-- fleet/runners/queue.py and the statistics of state.py: the messages of a scale set. What GitHub
-- answers is an argument; an id of 0 is none, as to_int reads it.
pub mod Repeats
use gh_pool.Base.{
  ℕ, zero, suc, ◌+◌, Bool, true, false, Option, none, some, List, [], ◌∷◌, ◌++◌, if◌then◌else◌, ltb,
  leb, ◌==◌, ◌&&◌, ◌||◌, not,
}
use gh_pool.Base.Dict.{Dict}
use gh_pool.Fleet.Slots.{Slot, Scale, scale, spend}

pub record Stats : Type 0 where
  pub available : ℕ
  pub assigned : ℕ
  pub running : ℕ

-- The runners of the set, Latest, and the ids of the messages that were acknowledged.
pub record Queue : Type 0 where
  pub slots : Dict Slot
  pub latest : Stats
  pub acked : List ℕ

-- Latest.set
unfoldable pub set_stats : Stats → Queue → Queue
set_stats stats q = record q { latest = stats }

-- Latest.took
unfoldable pub took : ℕ → Queue → Queue
took n q = record q { latest = record q.latest { assigned = q.latest.assigned + n } }

pub record Message : Type 0 where
  pub id : ℕ
  pub is_jobs : Bool
  pub stats : Option Stats
  pub offered : List ℕ
  pub retired : List ℕ

-- How a request for jobs ends: some were taken, GitHub refused, or an error that is passed on.
pub data Acquired : Type 0 where
  taken : ℕ → Acquired
  refused raises : Acquired

-- acquire: nothing is asked for no ids.
unfoldable pub acquire : (List ℕ → Acquired) → List ℕ → Acquired
acquire ask [] = taken 0
acquire ask (i ∷ is) = ask (i ∷ is)

-- for name in retired: fleet.spend(name)
unfoldable pub spend_all : List ℕ → Dict Slot → Dict Slot
spend_all [] d = d
spend_all (name ∷ names) d = spend_all names (spend name d).0

-- scale on the statistics at hand
unfoldable pub rescale : Scale → Queue → Queue
rescale c q = record q { slots = scale (record c { assigned = q.latest.assigned }) q.slots }

-- What follows an acquire; false where its error is passed on.
unfoldable pub after_acquire : Scale → Acquired → Queue → Queue × Bool
unfolding took rescale
after_acquire c (taken n) q = (rescale c (if n == 0 then q else took n q), true)
after_acquire c refused q = (rescale c q, true)
after_acquire c raises q = (q, false)

-- The statistics that a message brings.
unfoldable pub with_stats : Option Stats → Queue → Queue
unfolding set_stats
with_stats none q = q
with_stats (some stats) q = set_stats stats q

-- handle
unfoldable pub handle : Scale → (List ℕ → Acquired) → Message → Queue → Queue × Bool
unfolding acquire spend_all after_acquire with_stats
handle c ask m q =
    if m.is_jobs
    then (let q' = with_stats m.stats q in
        after_acquire c (acquire ask m.offered)
          (record q' { slots = spend_all m.retired q'.slots }))
    else (q, true)

-- pick_up: `waiting` are the ids of the jobs that can be acquired.
unfoldable pub pick_up : Scale → (List ℕ → Acquired) → List ℕ → Queue → Queue × Bool
unfolding acquire after_acquire rescale
pick_up c ask waiting q =
    if q.latest.available == 0 && q.latest.assigned == 0
    then (rescale c q, true)
    else after_acquire c (acquire ask waiting) q

-- ack: nothing is acknowledged without an id, and an error of GitHub is only logged.
unfoldable pub ack : Message → Queue → Queue
ack m q = if m.id == 0 then q else record q { acked = q.acked ++ m.id ∷ [] }

-- A poll: an HTTP error, which is passed on, no message, or one.
pub data Poll : Type 0 where
  fails nothing : Poll
  message : Message → Poll

-- What one tick meets.
pub record Tick : Type 0 where
  pub poll : Poll
  pub stopping : Bool
  pub target : Scale
  pub ask : List ℕ → Acquired
  pub waiting : List ℕ

-- The last id after a message was handled; none is an exception.
unfoldable pub after_message : ℕ → Message → Queue × Bool → Queue × Option ℕ
unfolding ack
after_message last_id m (q, true) = (ack m q, some (if m.id == 0 then last_id else m.id))
after_message last_id m (q, false) = (q, none)

unfoldable pub after_silence : ℕ → Queue × Bool → Queue × Option ℕ
after_silence last_id (q, true) = (q, some last_id)
after_silence last_id (q, false) = (q, none)

-- A message that came: one that was handled before is only acknowledged again.
unfoldable pub on_message : Tick → ℕ → Message → Queue → Queue × Option ℕ
unfolding handle ack after_message
on_message t last_id m q =
    if not (m.id == 0) && leb m.id last_id
    then (ack m q, some last_id)
    else after_message last_id m (handle t.target t.ask m q)

unfoldable pub on_poll : Tick → Poll → ℕ → Queue → Queue × Option ℕ
unfolding on_message pick_up after_silence
on_poll t fails last_id q = (q, none)
on_poll t nothing last_id q =
    if t.stopping
    then (q, some last_id)
    else after_silence last_id (pick_up t.target t.ask t.waiting q)
on_poll t (message m) last_id q = if t.stopping then (q, some last_id) else on_message t last_id m q

-- tick
unfoldable pub tick : Tick → ℕ → Queue → Queue × Option ℕ
unfolding on_poll
tick t last_id q = on_poll t t.poll last_id q

-- The ticks of a session one after the other, up to the first that is an exception.
unfoldable pub ticks : List Tick → ℕ → Queue → Queue × Option ℕ
unfolding tick
ticks [] last_id q = (q, some last_id)
ticks (t ∷ ts) last_id q =
    let (q', next_id) = tick t last_id q in
    elim next_id [ none ↦ (q', none) | some n ↦ ticks ts n q' ]
