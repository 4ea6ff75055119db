-- ===== src/Tests/Shell.antt =====
-- The properties of shells at concrete inputs.
use gh_pool.Base.{ℕ, ◌⊎◌, ◌≡◌, ◌⊎◌, List, [], ◌∷◌, ◌++◌, refl, arith, none, true}
use gh_pool.Base.Dict.{Dict, lookup}
use gh_pool.Pool.State.{Pool, Settings, boot}
use gh_pool.Pool.Client.{create_task}
use gh_pool.Shell.Stream.{Stream, fresh, append, advance, served, size, read}
use gh_pool.Shell.Stream.Window.{IsView, append-IsView, Call, Reply, run, run_log, run-fresh}
use gh_pool.Shell.Stream.Reader.{IsCaughtUp, served-IsCaughtUp}
use gh_pool.Shell.Server.{Shell, new_shell, find_shell, is_serving}
use gh_pool.Shell.Server.Live.{Answers, find_shell_lem}
use gh_pool.Shell.Pump.{Takes}

abbrev calls : List Call
calls =
    Call.appends (1 ∷ 2 ∷ 3 ∷ [])
    ∷ Call.reads 0
    ∷ Call.advances 3 (4 ∷ [])
    ∷ Call.advances 3 (5 ∷ [])
    ∷ Call.reads 3
    ∷ []

-- Two bytes are kept; the second advance is late and writes nothing.
run-fresh_example : run (fresh 2) calls ≡ run_log 2 [] calls
run-fresh_example = run-fresh 2 calls

replies_told :
    run (fresh 2) calls
    ≡ Reply.done
      ∷ Reply.bytes_are (1, 2 ∷ 3 ∷ [])
      ∷ Reply.size_is 4
      ∷ Reply.size_is 4
      ∷ Reply.bytes_are (3, 4 ∷ [])
      ∷ []
unfolding run fresh append read advance size
replies_told = refl

fresh-IsView : IsView (fresh 4) []
unfolding fresh
fresh-IsView = record { base = refl; buf = refl }

abbrev shown : Stream
shown = append (7 ∷ 8 ∷ 9 ∷ []) (fresh 4)

shown-IsView : IsView shown (7 ∷ 8 ∷ 9 ∷ [])
shown-IsView = append-IsView (7 ∷ 8 ∷ 9 ∷ []) (fresh 4) [] fresh-IsView

served-IsCaughtUp_example :
    IsCaughtUp (7 ∷ 8 ∷ 9 ∷ []) ((7 ∷ []) ++ (served 1 shown).0) (served 1 shown).1
    × ((7 ∷ []) ++ (served 1 shown).0 ≡ 7 ∷ 8 ∷ 9 ∷ [])
served-IsCaughtUp_example =
    served-IsCaughtUp shown (7 ∷ 8 ∷ 9 ∷ []) (7 ∷ []) 1 shown-IsView
      (record { upto = refl; within = omega arith; exact = refl })
      (unfold append fresh in omega arith)

-- Each request is taken twice, the first answer being lost.
abbrev takes : ℕ → ℕ → Takes
takes piece round = record { earlier = true ∷ []; last = true }

abbrev settings : Settings
settings = record {
  event_cap = 8;
  lost_after = 300;
  worker_stale = 120;
  flush_every = 1;
  flush_backoff_cap = 30;
  max_pending_writes = 50000;
}

abbrev created : Pool
created = (create_task settings 1 "shell" "{}" none 5 (boot 0 [])).0

-- Task 1 is a shell and gets one; shell 2 has no task any more, and goes.
abbrev shells : Dict Shell
shells = (2, new_shell 4 3) ∷ []

find_shell_lem_example :
    Answers 4 9 (lookup 1 created.tasks) (lookup 1 shells) (find_shell 4 9 1 created shells).1
    × ((is_serving (lookup 2 created.tasks) ≡ true)
        ⊎ (lookup 2 (find_shell 4 9 1 created shells).0 ≡ none))
find_shell_lem_example = find_shell_lem 4 9 1 2 created shells
