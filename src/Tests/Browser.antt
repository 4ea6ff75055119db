-- ===== src/Tests/Browser.antt =====
-- The properties of a browser's runner at concrete inputs.
use gh_pool.Base.{◌≡◌, ◌⊎◌, refl, true, List, [], ◌∷◌}
use gh_pool.Browser.Loop.{
  Event, reads, dispatched, answered, command, cancel, succeeded, cancelled, reported, new_runner,
  run, happen, is_reading, on_message, start_command, resume, on_dispatched, on_answered,
  cancel_task,
}
use gh_pool.Browser.Loop.Order.{IsInOrder, stops, all_reported}
use gh_pool.Browser.Loop.Reports.{run-new}

-- Command 5 is cancelled while it is dispatched, and command 6 waits for it.
abbrev events : List Event
events =
    reads true (command 5)
    ∷ reads true (cancel 5)
    ∷ reads true (command 6)
    ∷ answered true true
    ∷ dispatched succeeded
    ∷ answered true true
    ∷ []

run-new_example :
    IsInOrder (run events new_runner)
    × ((stops events ≡ true) ⊎ (all_reported (run events new_runner).settled ≡ true))
run-new_example = run-new events

both_settled : (run events new_runner).settled ≡ reported 5 cancelled ∷ reported 6 succeeded ∷ []
unfolding run new_runner happen is_reading on_message start_command resume on_dispatched on_answered
    cancel_task
both_settled = refl
