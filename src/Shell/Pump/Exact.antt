-- ===== src/Shell/Pump/Exact.antt =====
-- What the terminal writes comes to the server whole, once and in order.
use gh_pool.Base.{ℕ, ◌≡◌, Bool, false, err, ◌⊎◌, take, List, ◌++◌, length, ok, Result, flatten}
use gh_pool.Shell.Stream.{Stream}
use gh_pool.Shell.Stream.Window.{IsView}
use gh_pool.Shell.Pump.{Takes, PushError, gone}

-- The server's stream shows `log`, and the worker counts all of it as sent.
abbrev pub IsLevel : List ℕ → ℕ → Stream → Type 0
IsLevel log sent s = IsView s log × (sent ≡ length log)

-- The answer to a request at the end of which the stream shows `log`: how long it is, or that the
-- shell is gone where the last take was refused.
abbrev Tells : Bool → List ℕ → Stream × Result PushError ℕ → Type 0
Tells last log r = IsView r.0 log × ((r.1 ≡ ok (length log)) ⊎ ((r.1 ≡ err gone) × (last ≡ false)))

-- What pushed bytes leave: nothing pending, and a stream that shows them after what it showed.
abbrev pub Pushed : List ℕ → Stream × Result PushError ℕ → Type 0
Pushed log r = IsView r.0 log × (r.1 ≡ ok (length log))

-- The pump has ended because the server refused a request, and what came to the stream are whole
-- pieces, the first ones.
pub record Refused (takes : ℕ → ℕ → Takes) (pieces : List (List ℕ)) (log : List ℕ)
    (r : Stream × Result PushError ℕ) : Type 0 where
  pub answer : r.1 ≡ err gone
  pub piece : ℕ
  pub round : ℕ
  pub refused : (takes piece round).last ≡ false
  pub count : ℕ
  pub shown : IsView r.0 (log ++ flatten (take count pieces))
