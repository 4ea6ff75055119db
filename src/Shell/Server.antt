-- ===== src/Shell/Server.antt =====
-- The shells of server/shell.py: one for each live task of that type, made when it is first asked
-- for. Times are seconds.
pub mod Live
use gh_pool.Base.{
  ℕ, ◌-◌, Bool, true, false, Option, none, some, List, [], ◌∷◌, if◌then◌else◌, ltb, Result, ok, err,
  str_eq, not, ◌&&◌, ◌==◌,
}
use gh_pool.Base.Dict.{Dict, lookup, put, remove}
use gh_pool.Pool.Status.{TaskStatus, is_finished}
use gh_pool.Pool.State.{Task, Pool}
use gh_pool.Pool.Queue.{HttpError, http}
use gh_pool.Shell.Stream.{Stream, fresh, size, advance, served}

pub record Shell : Type 0 where
  pub out : Stream
  pub inp : Stream
  pub cols : ℕ
  pub rows : ℕ
  pub seen_at : ℕ

-- Shell.__init__
unfoldable pub new_shell : ℕ → ℕ → Shell
new_shell cap now = record { out = fresh cap; inp = fresh cap; cols = 80; rows = 24; seen_at = now }

-- The task is in memory and not finished.
unfoldable pub is_serving : Option Task → Bool
is_serving none = false
is_serving (some t) = not (is_finished t.row.status)

-- _sweep
unfoldable pub sweep_shells : Dict Task → Dict Shell → Dict Shell
unfolding is_serving
sweep_shells tasks [] = []
sweep_shells tasks ((tid, shell) ∷ rest) =
    let rest' = sweep_shells tasks rest in
    if is_serving (lookup tid tasks) then (tid, shell) ∷ rest' else rest'

-- SHELLS.setdefault(tid, Shell())
unfoldable pub set_default : ℕ → Shell → Dict Shell → Dict Shell × Shell
set_default tid shell shells = elim (lookup tid shells) [
  | some old ↦ (shells, old)
  | none ↦ (put tid shell shells, shell)
]

-- _shell, once the task is looked up: 410 for a task that is gone or finished, 409 for another type.
unfoldable pub shell_of : ℕ → ℕ → ℕ → Option Task → Dict Shell → Dict Shell × Result HttpError Shell
unfolding new_shell set_default
shell_of cap now tid none shells = (shells, err (http 410))
shell_of cap now tid (some t) shells =
    let (shells', shell) = set_default tid (new_shell cap now) shells in
    if is_finished t.row.status
    then (shells, err (http 410))
    else if str_eq t.row.type "shell"
    then (shells', ok shell)
    else (shells, err (http 409))

-- _shell
unfoldable pub find_shell : ℕ → ℕ → ℕ → Pool → Dict Shell → Dict Shell × Result HttpError Shell
unfolding shell_of sweep_shells
find_shell cap now tid s shells =
    shell_of cap now tid (lookup tid s.tasks) (sweep_shells s.tasks shells)

-- A handler's work on the shell that _shell gives.
unfoldable pub with_shell {ℓ} :
    {A : Type ℓ}
    → ℕ
    → (Shell → Shell × Result HttpError A)
    → Dict Shell × Result HttpError Shell
    → Dict Shell × Result HttpError A
with_shell tid work (shells, err e) = (shells, err e)
with_shell tid work (shells, ok shell) = let (shell', r) = work shell in (put tid shell' shells, r)

abbrev pub seen : ℕ → Shell → Shell
seen now shell = record shell { seen_at = now }

pub record Described : Type 0 where
  pub out_size : ℕ
  pub in_size : ℕ
  pub cols_now : ℕ
  pub rows_now : ℕ

-- describe
unfoldable pub describe : ℕ → ℕ → ℕ → Pool → Dict Shell → Dict Shell × Result HttpError Described
unfolding find_shell with_shell
describe cap now tid s shells =
    with_shell tid
      (λ shell. (
        seen now shell,
        ok (record {
          out_size = size shell.out;
          in_size = size shell.inp;
          cols_now = shell.cols;
          rows_now = shell.rows;
        }),
      ))
      (find_shell cap now tid s shells)

-- push_out
unfoldable pub push_out :
    ℕ → ℕ → ℕ → ℕ → List ℕ → Pool → Dict Shell → Dict Shell × Result HttpError ℕ
unfolding find_shell with_shell
push_out cap now tid offset bytes s shells =
    with_shell tid
      (λ shell. let (out, n) = advance offset bytes shell.out in (record shell { out = out }, ok n))
      (find_shell cap now tid s shells)

-- push_in
unfoldable pub push_in :
    ℕ → ℕ → ℕ → ℕ → List ℕ → Pool → Dict Shell → Dict Shell × Result HttpError ℕ
unfolding find_shell with_shell
push_in cap now tid offset bytes s shells =
    with_shell tid
      (λ shell.
        let (inp, n) = advance offset bytes shell.inp in
        (record (seen now shell) { inp = inp }, ok n))
      (find_shell cap now tid s shells)

-- pull_out, where nothing was to wait for or the wait is over.
unfoldable pub pull_out :
    ℕ → ℕ → ℕ → ℕ → Pool → Dict Shell → Dict Shell × Result HttpError (List ℕ × ℕ)
unfolding find_shell with_shell
pull_out cap now tid offset s shells =
    with_shell tid (λ shell. (seen now shell, ok (served offset shell.out)))
      (find_shell cap now tid s shells)

-- pull_in, likewise: 410 where no client has been seen for longer than `shell_idle`.
unfoldable pub pull_in :
    ℕ → ℕ → ℕ → ℕ → ℕ → Pool → Dict Shell → Dict Shell × Result HttpError (List ℕ × ℕ)
unfolding find_shell with_shell
pull_in cap shell_idle now tid offset s shells =
    with_shell tid
      (λ shell. (
        shell,
        (if ltb shell_idle (now - shell.seen_at)
            then err (http 410)
            else ok (served offset shell.inp)),
      ))
      (find_shell cap now tid s shells)

-- set_size
unfoldable pub set_size :
    ℕ → ℕ → ℕ → ℕ → ℕ → Pool → Dict Shell → Dict Shell × Result HttpError (Unit {0})
unfolding find_shell with_shell
set_size cap now tid cols rows s shells =
    with_shell tid (λ shell. (record (seen now shell) { cols = cols; rows = rows }, ok tt))
      (find_shell cap now tid s shells)
