-- ===== src/Sessions/Rows.antt =====
-- The rows of db/sessions.py and the state of core/sessions.py. Ids, profile names and tokens are
-- numbers, times are numbers on one scale, the arguments and results of commands are texts.
use gh_pool.Base.{ℕ, Bool, true, false, Option, List, [], ◌∷◌, String, if◌then◌else◌}
use gh_pool.Base.Dict.{Dict}

pub data SessionStatus : Type 0 where
  pending active closed dead : SessionStatus

-- SessionStatus.live, and `status in ('pending', 'active')` of the statements
unfoldable pub is_live : SessionStatus → Bool
is_live pending = true
is_live active = true
is_live _ = false

pub data CloseReason : Type 0 where
  closed dead timeout : CloseReason

pub data CommandStatus : Type 0 where
  queued started finished failed : CommandStatus

abbrev pub is_queued : CommandStatus → Bool
is_queued queued = true
is_queued _ = false

abbrev pub is_started : CommandStatus → Bool
is_started started = true
is_started _ = false

pub data ErrorCode : Type 0 where
  timeout not_found intercepted navigation_failed cancelled session_dead runner_error : ErrorCode

pub record CommandError : Type 0 where
  pub code : ErrorCode
  pub message : String

-- The events that the server publishes itself; `runner` is any that a runner posts.
pub data EventData : Type 0 where
  session_ready : Bool → EventData
  session_closed : CloseReason → EventData
  command_started : ℕ → EventData
  command_finished : ℕ → String → EventData
  command_failed : ℕ → CommandError → EventData
  runner : String → EventData

pub record Event : Type 0 where
  pub seq : ℕ
  pub body : EventData

pub record Session : Type 0 where
  pub status : SessionStatus
  pub params : String
  pub timeout : ℕ
  pub profile : Option ℕ
  pub persist : Bool
  pub state_stale : Bool
  pub last_seq : ℕ
  pub last_cmd_seq : ℕ
  pub heartbeat_at : Option ℕ
  pub created_at : ℕ
  pub ready_at : Option ℕ
  pub closed_at : Option ℕ
  pub runner_token : ℕ

pub record Command : Type 0 where
  pub id : ℕ
  pub session_id : ℕ
  pub seq : ℕ
  pub args : String
  pub timeout_ms : ℕ
  pub status : CommandStatus
  pub result : Option String
  pub error : Option CommandError
  pub started_at : Option ℕ
  pub finished_at : Option ℕ

pub record Profile : Type 0 where
  pub stale : Bool
  pub updated_at : Option ℕ

-- The tables. `outbox` lists what the hooks after a commit hand to `_dispatch`, in order.
pub record Tables : Type 0 where
  pub sessions : Dict Session
  pub commands : List Command
  pub events : List (ℕ × Event)
  pub profiles : Dict Profile
  pub outbox : List (ℕ × Event)

-- Sessions: the tables and what the process keeps.
pub record Sessions : Type 0 where
  pub db : Tables
  pub cancels : Dict (List ℕ)
  pub work : List ℕ
  pub closing : List ℕ

-- An update of the rows of a table that pass a test.
unfoldable pub update_where {ℓ} : {A : Type ℓ} → (A → Bool) → (A → A) → List A → List A
update_where p f [] = []
update_where p f (x ∷ xs) = (if p x then f x else x) ∷ update_where p f xs

-- The rows that pass a test.
unfoldable pub select {ℓ} : {A : Type ℓ} → (A → Bool) → List A → List A
select p [] = []
select p (x ∷ xs) = let rest = select p xs in if p x then x ∷ rest else rest
