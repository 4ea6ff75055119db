-- ===== src/Shell/Server/Live.antt =====
-- When a shell can be reached.
use gh_pool.Base.{
  ℕ, ◌≡◌, refl, true, false, Option, none, some, [], ◌∷◌, if◌then◌else◌, arith, Bool-cases,
  Option-cases, inl, inr, Result, ok, err, str_eq, ◌⊎◌, ap, ◌∙◌,
}
use gh_pool.Base.Dict.{Dict, lookup, lookup-put}
use gh_pool.Pool.Status.{is_finished}
use gh_pool.Pool.State.{Task, Pool}
use gh_pool.Pool.Queue.{HttpError, http}
use gh_pool.Shell.Server.{
  Shell, new_shell, is_serving, sweep_shells, set_default, shell_of, find_shell,
}

lookup-sweep_shells :
    (tid : ℕ) (tasks : Dict Task) (shells : Dict Shell)
    → lookup tid (sweep_shells tasks shells)
      ≡ (if is_serving (lookup tid tasks) then lookup tid shells else none)
unfolding sweep_shells lookup
lookup-sweep_shells tid tasks [] = ground arith
lookup-sweep_shells tid tasks ((k, shell) ∷ rest) =
    ground (arith, lookup-sweep_shells tid tasks rest)

-- The shell that a request finds: the one of before, or a new one.
abbrev pub kept_or_new : ℕ → ℕ → Option Shell → Shell
kept_or_new cap now none = new_shell cap now
kept_or_new cap now (some shell) = shell

-- What a request for the shell of a task is answered, by the task in memory.
abbrev pub Answers : ℕ → ℕ → Option Task → Option Shell → Result HttpError Shell → Type 0
Answers cap now none old r = r ≡ err (http 410)
Answers cap now (some t) old r =
    ((is_finished t.row.status ≡ true) × (r ≡ err (http 410)))
    ⊎ ((is_finished t.row.status ≡ false)
        × (str_eq t.row.type "shell" ≡ false)
        × (r ≡ err (http 409)))
    ⊎ ((is_finished t.row.status ≡ false)
        × (str_eq t.row.type "shell" ≡ true)
        × (r ≡ ok (kept_or_new cap now old)))

set_default-kept :
    (cap now tid : ℕ) (d : Dict Shell)
    → (set_default tid (new_shell cap now) d).1 ≡ kept_or_new cap now (lookup tid d)
unfolding set_default
set_default-kept cap now tid d = ground arith

lookup-set_default :
    (tid j : ℕ) (shell : Shell) (d : Dict Shell)
    → (lookup j (set_default tid shell d).0 ≡ lookup j d) ⊎ (tid ≡ j)
unfolding set_default
lookup-set_default tid j shell d = ground (arith, lookup-put tid j shell d)

swept :
    (tid : ℕ) (t : Task) (tasks : Dict Task) (shells : Dict Shell)
    → lookup tid tasks ≡ some t
    → is_finished t.row.status ≡ false
    → lookup tid (sweep_shells tasks shells) ≡ lookup tid shells
unfolding is_serving
swept tid t tasks shells e f = ground (arith, lookup-sweep_shells tid tasks shells)

-- A request for a shell is answered 410 if its task is not in memory or finished, also where the
-- shell was in use until then, 409 if the task is of another type, and otherwise with the shell as
-- it was left, or a new one. Afterwards no shell is left under a task that is not in memory or is
-- finished, whichever task was asked for.
pub find_shell_lem :
    (cap now tid j : ℕ) (s : Pool) (shells : Dict Shell)
    → Answers cap now (lookup tid s.tasks) (lookup tid shells) (find_shell cap now tid s shells).1
      × ((is_serving (lookup j s.tasks) ≡ true)
          ⊎ (lookup j (find_shell cap now tid s shells).0 ≡ none))
unfolding find_shell shell_of is_serving
find_shell_lem cap now tid j s shells = elim (Option-cases (lookup tid s.tasks)) [
  | inl e ↦
      rw (e, find_shell, shell_of) (refl, ground (arith, lookup-sweep_shells j s.tasks shells))
  | inr (t, e) ↦
      let d = sweep_shells s.tasks shells in
      let chosen = set_default-kept cap now tid d in
      let others = lookup-set_default tid j (new_shell cap now) d in
      let left = lookup-sweep_shells j s.tasks shells in
      elim (Bool-cases (is_finished t.row.status)) [
        | inl f ↦ rw (e, find_shell, shell_of, f) (inl (refl, refl), ground (arith, left))
        | inr f ↦
            let same = swept tid t s.tasks shells e f in
            elim (Bool-cases (str_eq t.row.type "shell")) [
              | inl g ↦
                  rw (e, find_shell, shell_of, f, g)
                    (
                      inr (inr (refl, refl, ap ok (chosen ∙ ap (kept_or_new cap now) same))),
                      ground (arith, others, left),
                    )
              | inr g ↦
                  rw (e, find_shell, shell_of, f, g)
                    (inr (inl (refl, refl, refl)), ground (arith, left))
            ]
      ]
]
