-- ===== src/Tests/Sessions.antt =====
-- The properties of the sessions at concrete inputs.
use gh_pool.Base.{
  ℕ, ◌≡◌, refl, false, none, some, [], ◌∷◌, arith, inl, ◌⊎◌, take, length, ◌-◌, ◌≤◌, ◌<◌,
}
use gh_pool.Base.Dict.{lookup}
use gh_pool.Sessions.Rows.{Sessions, Command, Event, CloseReason, runner, session_closed}
use gh_pool.Sessions.Lifecycle.{create, finish_tx}
use gh_pool.Sessions.Commands.{enqueue, take_next}
use gh_pool.Sessions.Commands.Fifo.{IsTurn, IsIdle, Starts, take_next-fifo}
use gh_pool.Sessions.Publish.Dense.{seqs_of, upto}
use gh_pool.Sessions.Commands.Counts.{running}
use gh_pool.Sessions.Machine.{IsSound}
use gh_pool.Sessions.Machine.Once.{finish_tx-once}
use gh_pool.Sessions.Machine.Steps.{Reach, here, next, creates, enqueues, takes, Reach-IsSound}
use gh_pool.Sessions.Watch.{evict}
use gh_pool.Sessions.Watch.Space.{evict-enough, named, total}

abbrev empty : Sessions
empty = record {
  db = record { sessions = []; commands = []; events = []; profiles = []; outbox = [] };
  cancels = [];
  work = [];
  closing = [];
}

empty-IsSound : IsSound empty.db
unfolding running seqs_of upto lookup
empty-IsSound = record {
  dense = λ j. refl;
  single = λ j. omega arith;
  unique = tt;
  settled_over = λ j. inl refl;
}

abbrev opened : Sessions
opened = (create 1 11 (some 4) "{}" 30 none false 100 empty).0

abbrev asked_once : Sessions
asked_once = (enqueue 1 5 "goto" none opened).0

abbrev begun_once : Sessions
begun_once = record asked_once { db = (take_next 1 101 asked_once.db).0 }

no_row : lookup 1 empty.db.sessions ≡ none
unfolding lookup
no_row = refl

no_command : opened.db.commands ≡ []
unfolding create
no_command = cc

begun_reached : Reach empty begun_once
begun_reached =
    next
      (next (next here (creates 1 11 (some 4) "{}" 30 none false 100 no_row))
        (enqueues 1 5 "goto" none (rw no_command tt)))
      (takes 1 101)

begun_once-IsSound : IsSound begun_once.db
begun_once-IsSound = Reach-IsSound empty-IsSound begun_reached

Reach-IsSound_example : IsSound begun_once.db
Reach-IsSound_example = Reach-IsSound empty-IsSound begun_reached

take_next-fifo_example :
    ((take_next 1 101 asked_once.db ≡ (asked_once.db, none)) × IsIdle 1 asked_once.db)
    ⊎ ((c : Command) × Starts 1 101 c asked_once.db (take_next 1 101 asked_once.db)
        × IsTurn 1 c asked_once.db)
take_next-fifo_example = take_next-fifo 1 101 asked_once.db

finish_tx-once_example :
    finish_tx 1 CloseReason.timeout 120 (finish_tx 1 CloseReason.dead 110 begun_once.db)
    ≡ finish_tx 1 CloseReason.dead 110 begun_once.db
finish_tx-once_example = finish_tx-once 1 110 120 CloseReason.dead CloseReason.timeout begun_once.db

abbrev numbered : ℕ → Event
numbered n = record { seq = n; body = runner "tick" }

abbrev closing : ℕ → Event
closing n = record { seq = n; body = session_closed CloseReason.closed }

evict-enough_example :
    ((evict 10 ((1, 20) ∷ (2, 5) ∷ []) 30).1 ≤ 10
      ⊎ ((evict 10 ((1, 20) ∷ (2, 5) ∷ []) 30).0 ≡ named ((1, 20) ∷ (2, 5) ∷ [])))
    × ((evict 10 ((1, 20) ∷ (2, 5) ∷ []) 30).0
        ≡ named (take (length (evict 10 ((1, 20) ∷ (2, 5) ∷ []) 30).0) ((1, 20) ∷ (2, 5) ∷ [])))
    × ((evict 10 ((1, 20) ∷ (2, 5) ∷ []) 30).1
        ≡ 30
          - total (take (length (evict 10 ((1, 20) ∷ (2, 5) ∷ []) 30).0) ((1, 20) ∷ (2, 5) ∷ [])))
    × (((evict 10 ((1, 20) ∷ (2, 5) ∷ []) 30).0 ≡ [])
        ⊎ (10
            < 30
              - total (
                  take
                    (length (evict 10 ((1, 20) ∷ (2, 5) ∷ []) 30).0 - 1)
                    ((1, 20) ∷ (2, 5) ∷ []))))
evict-enough_example = evict-enough 10 ((1, 20) ∷ (2, 5) ∷ []) 30
