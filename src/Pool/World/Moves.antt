-- ===== src/Pool/World/Moves.antt =====
-- A task's status only moves along the edges of the README's diagram, and a task leaves memory only
-- when it is finished and saved.
use gh_pool.Base.{ℕ, ◌≡◌, ◌≢◌, refl, Bool, true, false, none, some, arith, inl, inr, Option-cases}
use gh_pool.Base.Dict.{Dict, lookup, put, has, lookup-put}
use gh_pool.Pool.Status.{TaskStatus, pending, running, done, failed, cancelled, lost}
use gh_pool.Pool.State.{Task}

-- Along pending → running → done | failed | cancelled | lost, any number of edges; a task that
-- waits may be cancelled, and a finished one stays as it is.
unfoldable pub onward : TaskStatus → TaskStatus → Bool
onward pending _ = true
onward running pending = false
onward running _ = true
onward done done = true
onward done _ = false
onward failed failed = true
onward failed _ = false
onward cancelled cancelled = true
onward cancelled _ = false
onward lost lost = true
onward lost _ = false

-- No task goes, and none moves back.
pub record IsKept (d d' : Dict Task) : Type 0 where
  pub stays : (j : ℕ) (t : Task) → lookup j d ≡ some t → lookup j d' ≢ none
  pub moves :
      (j : ℕ) (t t' : Task)
      → lookup j d ≡ some t
      → lookup j d' ≡ some t'
      → onward t.row.status t'.row.status ≡ true

pub onward_refl : (s : TaskStatus) → onward s s ≡ true
unfolding onward
onward_refl pending = refl
onward_refl running = refl
onward_refl done = refl
onward_refl failed = refl
onward_refl cancelled = refl
onward_refl lost = refl

onward_trans : (a b c : TaskStatus) → onward a b ≡ true → onward b c ≡ true → onward a c ≡ true
unfolding onward
onward_trans a b c h k = ground arith

pub IsKept-refl : (d : Dict Task) → IsKept d d
IsKept-refl d = record {
  stays = λ j t e n. cc;
  moves = λ j t t' e e'. ground (arith, onward_refl t.row.status);
}

pub IsKept-trans : {d e f : Dict Task} → IsKept d e → IsKept e f → IsKept d f
IsKept-trans {d} {e} {f} k l = record {
  stays = λ j t h n. elim (Option-cases (lookup j e)) [
    | inl m ↦ k.stays j t h m
    | inr (u, m) ↦ l.stays j u m n
  ];
  moves = λ j t t' h n. elim (Option-cases (lookup j e)) [
    | inl m ↦ absurd (k.stays j t h m)
    | inr (u, m) ↦ onward_trans _ _ _ (k.moves j t u h m) (l.moves j u t' m n)
  ];
}

-- One task is written.
pub put-IsKept :
    (d : Dict Task) (tid : ℕ) (u : Task)
    → ((t : Task) → lookup tid d ≡ some t → onward t.row.status u.row.status ≡ true)
    → IsKept d (put tid u d)
put-IsKept d tid u h = record {
  stays = λ j t e n. ground (arith, lookup-put tid j u d);
  moves = λ j t t' e e'. ground (arith, lookup-put tid j u d, h t, onward_refl t.row.status);
}

pub fresh-IsKept : (d : Dict Task) (tid : ℕ) (u : Task) → has tid d ≡ false → IsKept d (put tid u d)
fresh-IsKept d tid u f = put-IsKept d tid u λ t e. ground arith
