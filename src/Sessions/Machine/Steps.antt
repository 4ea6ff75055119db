-- ===== src/Sessions/Machine/Steps.antt =====
-- The calls of Sessions as steps: the requests of the server's handlers, the watchdog's and the
-- cleaner's, in any order. A transaction holds the row of its session to its end, so it is one step.
use gh_pool.Base.{
  ℕ, ◌≡◌, Bool, false, Option, none, some, ◌==◌, String, Option-cases, Bool-cases, inl, inr,
  if◌then◌else◌, arith, subst,
}
use gh_pool.Base.Dict.{lookup}
use gh_pool.Sessions.Rows.{
  Tables, Sessions, EventData, CloseReason, is_live, SessionStatus, pending, active, closed, dead,
}
use gh_pool.Sessions.Publish.{publish, publish_in}
use gh_pool.Sessions.Lifecycle.{
  create, mark_ready, heartbeat, finish, ask_to_close, request_close, forget, announce_work,
}
use gh_pool.Sessions.Commands.{
  enqueue, take_next, complete, publish_runner_event, request_cancel, take_cancels, Outcome,
}
use gh_pool.Sessions.Commands.Counts.{Each}
use gh_pool.Sessions.Machine.{
  IsSound, mark_ready-IsSound, heartbeat-IsSound, insert_command-IsSound, publish_in-IsSound,
}
use gh_pool.Sessions.Machine.Runs.{take_next-IsSound, complete-IsSound}
use gh_pool.Sessions.Machine.Ends.{finish_tx-IsSound}
use gh_pool.Sessions.Machine.Forgets.{create-IsSound, forget-IsSound}

pub data Step : Sessions → Sessions → Type 0 where
  creates :
      {s : Sessions} (sid token : ℕ) (limit : Option ℕ) (params : String) (timeout : ℕ)
      (profile : Option ℕ) (persist : Bool) (now : ℕ)
      → lookup sid s.db.sessions ≡ none
      → Step s (create sid token limit params timeout profile persist now s).0
  readies : {s : Sessions} (sid now : ℕ) → Step s (record s { db = mark_ready sid now s.db })
  beats : {s : Sessions} (sid now : ℕ) → Step s (record s { db = (heartbeat sid now s.db).0 })
  -- the id is fresh
  enqueues :
      {s : Sessions} (sid cid : ℕ) (args : String) (timeout : Option ℕ)
      → Each (λ d. (d.id == cid) ≡ false) s.db.commands
      → Step s (enqueue sid cid args timeout s).0
  takes : {s : Sessions} (sid now : ℕ) → Step s (record s { db = (take_next sid now s.db).0 })
  completes :
      {s : Sessions} (sid cid : ℕ) (o : Outcome) (now : ℕ) → Step s (complete sid cid o now s)
  publishes :
      {s : Sessions} (sid : ℕ) (body : EventData) (db : Tables)
      → publish_runner_event sid body s.db ≡ some db
      → Step s (record s { db = db })
  asks : {s : Sessions} (sid now : ℕ) → Step s (request_close sid now s)
  finishes :
      {s : Sessions} (sid : ℕ) (reason : CloseReason) (now : ℕ) → Step s (finish sid reason now s)
  cancels : {s : Sessions} (sid cid : ℕ) → Step s (request_cancel sid cid s)
  collects : {s : Sessions} (sid : ℕ) → Step s (take_cancels sid s).0
  forgets : {s : Sessions} (sid : ℕ) → Step s (record s { db = forget sid s.db })

pub data Reach (r : Sessions) : Sessions → Type 0 where
  here : Reach r r
  next : {s t : Sessions} → Reach r s → Step s t → Reach r t

enqueue-IsSound :
    (sid cid : ℕ) (args : String) (timeout : Option ℕ) (s : Sessions)
    → Each (λ d. (d.id == cid) ≡ false) s.db.commands
    → IsSound s.db
    → IsSound (enqueue sid cid args timeout s).0.db
unfolding enqueue announce_work
enqueue-IsSound sid cid args timeout s fresh v = elim (Option-cases (lookup sid s.db.sessions)) [
  | inl e ↦ rw (e, enqueue) v
  | inr (r, e) ↦
      rw (e, enqueue)
        (elim (Bool-cases (is_live r.status)) [
          | inl p ↦
              rw (p, if◌then◌else◌) (insert_command-IsSound sid cid args timeout r s.db e p fresh v)
          | inr p ↦ rw (p, if◌then◌else◌) v
        ])
]

publish-in :
    (sid : ℕ) (body : EventData) (db db' : Tables)
    → publish sid body db ≡ some db'
    → publish_in sid body db ≡ db'
unfolding publish publish_in
publish-in sid body db db' e = elim (Option-cases (lookup sid db.sessions)) [
  | inl k ↦ absurd (ground arith)
  | inr (r, k) ↦ ground arith
]

ask_to_close-IsSound :
    (sid now : ℕ) (status : SessionStatus) (s : Sessions)
    → IsSound s.db
    → IsSound (ask_to_close sid now status s).db
unfolding ask_to_close announce_work
ask_to_close-IsSound sid now pending s v = finish_tx-IsSound sid now CloseReason.closed s.db v
ask_to_close-IsSound sid now active s v = v
ask_to_close-IsSound sid now closed s v = v
ask_to_close-IsSound sid now dead s v = v

request_close-IsSound :
    (sid now : ℕ) (s : Sessions) → IsSound s.db → IsSound (request_close sid now s).db
unfolding request_close
request_close-IsSound sid now s v = elim (Option-cases (lookup sid s.db.sessions)) [
  | inl e ↦ rw (e, request_close) v
  | inr (r, e) ↦ rw (e, request_close) (ask_to_close-IsSound sid now r.status s v)
]

Step-IsSound : {s t : Sessions} → Step s t → IsSound s.db → IsSound t.db
unfolding finish announce_work publish_runner_event request_cancel take_cancels
Step-IsSound (creates {s} sid token limit params timeout profile persist now e) v =
    create-IsSound sid token limit params timeout profile persist now s e v
Step-IsSound (readies {s} sid now) v = mark_ready-IsSound sid now s.db v
Step-IsSound (beats {s} sid now) v = heartbeat-IsSound sid now s.db v
Step-IsSound (enqueues {s} sid cid args timeout fresh) v =
    enqueue-IsSound sid cid args timeout s fresh v
Step-IsSound (takes {s} sid now) v = take_next-IsSound sid now s.db v
Step-IsSound (completes {s} sid cid o now) v = complete-IsSound sid cid now o s v
Step-IsSound (publishes {s} sid body db e) v =
    subst IsSound (publish-in sid body s.db db e) (publish_in-IsSound sid body s.db v)
Step-IsSound (asks {s} sid now) v = request_close-IsSound sid now s v
Step-IsSound (finishes {s} sid reason now) v = finish_tx-IsSound sid now reason s.db v
Step-IsSound (cancels {s} sid cid) v = v
Step-IsSound (collects {s} sid) v = v
Step-IsSound (forgets {s} sid) v = forget-IsSound sid s.db v

-- Whatever the order of calls since a sound start: the events of each session are numbered
-- 1, 2, …, last_seq in the order of their insertion, at most one command of a session is started,
-- no two commands have one id, and a session that is closed or dead has no queued or started command.
pub Reach-IsSound : {r s : Sessions} → IsSound r.db → Reach r s → IsSound s.db
Reach-IsSound v here = v
Reach-IsSound v (next before step) = Step-IsSound step (Reach-IsSound v before)
