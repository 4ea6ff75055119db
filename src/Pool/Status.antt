-- ===== src/Pool/Status.antt =====
-- status.py: the states of a task.
use gh_pool.Base.{Bool, true, false, Option, none, some, String, str_eq, if◌then◌else◌}

pub data TaskStatus : Type 0 where
  pending running done failed cancelled lost : TaskStatus

-- self in LIVE
unfoldable pub is_live : TaskStatus → Bool
is_live pending = true
is_live running = true
is_live _ = false

-- self in REPORTABLE
unfoldable pub is_reportable : TaskStatus → Bool
is_reportable done = true
is_reportable failed = true
is_reportable cancelled = true
is_reportable _ = false

-- status in FINISHED, where FINISHED = (*REPORTABLE, LOST)
unfoldable pub is_finished : TaskStatus → Bool
unfolding is_reportable
is_finished lost = true
is_finished s = is_reportable s

-- The text of a member of the enumeration.
unfoldable pub text : TaskStatus → String
text pending = "pending"
text running = "running"
text done = "done"
text failed = "failed"
text cancelled = "cancelled"
text lost = "lost"

-- The member that a text from a request equals.
unfoldable pub from_text : String → Option TaskStatus
from_text s =
    if str_eq s "pending"
    then some pending
    else if str_eq s "running"
    then some running
    else if str_eq s "done"
    then some done
    else if str_eq s "failed"
    then some failed
    else if str_eq s "cancelled"
    then some cancelled
    else if str_eq s "lost"
    then some lost
    else none

-- The test on a status that is an equation with one member.
abbrev pub is_pending : TaskStatus → Bool
is_pending pending = true
is_pending _ = false

abbrev pub is_running : TaskStatus → Bool
is_running running = true
is_running _ = false
