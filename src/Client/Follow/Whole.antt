-- ===== src/Client/Follow/Whole.antt =====
-- What a client has that follows a task.
use gh_pool.Base.{
  ℕ, zero, suc, ◌+◌, ◌≤◌, ◌<◌, ◌≡◌, refl, Bool, true, false, List, [], ◌∷◌, ◌++◌, if◌then◌else◌,
  arith, leb, ltb, length, take, drop, flatten, length-drop, append_assoc, take-append-drop,
  drop-append, drop_all, ◌&&◌, Result, ok, Bool-cases, inl, inr, ◌⊎◌, sym, ◌∙◌, ap, subst,
}
use mathlib.Core.List.{append-nil}
use gh_pool.Pool.Status.{is_finished}
use gh_pool.Pool.State.{Task, events_of, events_size}
use gh_pool.Pool.Queue.{HttpError, find}
use gh_pool.Pool.Views.{Chunk, read_found, read_events, read_after}
use gh_pool.Client.Follow.{End, finished, yielded, follow_from, Polled, asked_of, follow}

-- The server at a client's polls: it finds the task, in memory or in the database; the file that it
-- reads holds the beginning of `whole`, and does not shrink meanwhile; it holds all of it once the
-- task is finished; and a finished task stays so.
pub record IsTold (tid : ℕ) (whole : List ℕ) (w : Polled) (tasks : ℕ → Task) : Type 0 where
  pub there : (k : ℕ) → find tid (w.answers k) (w.pools k) ≡ (w.pools k, ok (tasks k))
  pub begun : (k : ℕ) → events_of tid (w.mids k) ≡ take (events_size tid (w.mids k)) whole
  pub grown : (k : ℕ) → events_size tid (w.pools k) ≤ events_size tid (w.mids k)
  pub ended :
      (k : ℕ)
      → (is_finished (tasks k).row.status ≡ false) ⊎ (events_size tid (w.pools k) ≡ length whole)
  pub stays :
      (k : ℕ) → (is_finished (tasks k).row.status ≡ false) ⊎ (is_finished (w.laters k) ≡ true)

-- At this poll the task was finished when the server answered, and its output had grown since the
-- server had read it.
abbrev pub Outran : ℕ → List ℕ → Polled → ℕ → Type 0
Outran tid whole w k =
    (is_finished (w.laters k) ≡ true) × (events_size tid (w.mids k) < length whole)

flatten-yielded :
    (bytes : List ℕ) (rest : List (List ℕ)) → flatten (yielded bytes rest) ≡ bytes ++ flatten rest
unfolding yielded
flatten-yielded [] rest = refl
flatten-yielded (b ∷ bytes) rest = refl

abbrev is_end : Chunk → Bool
is_end c = is_finished c.task_status && leb c.event_size c.event_offset

follow_from-ok :
    (fuel k offset : ℕ) (ask : ℕ → ℕ → Result HttpError Chunk) (c : Chunk)
    → ask k offset ≡ ok c
    → follow_from (suc fuel) ask k offset ≡ (
        let r = if is_end c then ([], finished) else follow_from fuel ask (suc k) c.event_offset in
        (yielded c.content r.0, r.1))
unfolding follow_from
follow_from-ok fuel k offset ask c e = rw (e, follow_from) refl

-- What a client has that began at `offset` and has come to the end: all, or a rest is missing.
pub record Told (tid : ℕ) (whole : List ℕ) (w : Polled) (offset : ℕ) (r : List (List ℕ) × End)
    : Type 0 where
  pub ends : r.1 ≡ finished
  pub rest : List ℕ
  pub joined : flatten r.0 ++ rest ≡ drop offset whole
  pub missed : (rest ≡ []) ⊎ ((k : ℕ) × Outran tid whole w k)

-- The answer to a poll.
record IsNext (tid : ℕ) (whole : List ℕ) (w : Polled) (t : Task) (k offset : ℕ) (c : Chunk)
    : Type 0 where
  joined : c.content ++ drop c.event_offset whole ≡ drop offset whole
  reached : c.event_size ≤ c.event_offset
  ended :
      (is_finished c.task_status ≡ false) ⊎ (length whole ≤ c.event_offset) ⊎ Outran tid whole w k
  told : (is_finished t.row.status ≡ false) ⊎ (is_finished c.task_status ≡ true)

module _ (tid : ℕ) (whole : List ℕ) (w : Polled) (tasks : ℕ → Task)
    (told : IsTold tid whole w tasks) where
  abbrev answer : ℕ → ℕ → Chunk
  answer k offset = read_found tid offset (tasks k) (w.mids k) (w.laters k) (w.pools k)

  -- A read of the file.
  read-IsNext :
      (k offset : ℕ)
      → ltb offset (events_size tid (w.pools k)) ≡ true
      → IsNext tid whole w (tasks k) k offset (answer k offset)
  unfolding read_found events_size
  read-IsNext k offset e =
      let bytes = events_of tid (w.mids k) in
      let n = length bytes in
      let grown = told.grown k in
      let before : offset ≤ n = ground (arith, grown) in
      let at_end : offset + length (drop offset bytes) ≡ n =
        omega (arith, length-drop offset bytes) in
      let split : drop offset bytes ++ drop n whole ≡ drop offset whole =
        sym (drop-append offset bytes (drop n whole) before)
        ∙ ap (λ x. drop offset (x ++ drop n whole)) (told.begun k)
        ∙ ap (drop offset) (take-append-drop n whole) in
      rw (e, if◌then◌else◌)
        (record {
          joined = ap (λ m. drop offset bytes ++ drop m whole) at_end ∙ split;
          reached = omega (arith, at_end, grown);
          ended = outrun at_end;
          told = told.stays k;
        })
    where
      outrun :
          {m : ℕ}
          → m ≡ length (events_of tid (w.mids k))
          → (is_finished (w.laters k) ≡ false) ⊎ (length whole ≤ m) ⊎ Outran tid whole w k
      outrun {m} h = elim (Bool-cases (is_finished (w.laters k))) [
        | inr f ↦ inl f
        | inl f ↦ elim (Bool-cases (leb (length whole) m)) [
          | inl l ↦ inr (inl (ground arith))
          | inr l ↦ inr (inr (f, ground (arith, h)))
        ]
      ]

  -- Nothing to read.
  unread-IsNext :
      (k offset : ℕ)
      → ltb offset (events_size tid (w.pools k)) ≡ false
      → IsNext tid whole w (tasks k) k offset (answer k offset)
  unfolding read_found events_size
  unread-IsNext k offset e =
      let same : offset + 0 ≡ offset = omega arith in
      rw (e, if◌then◌else◌)
        (record {
          joined = ap (λ m. drop m whole) same;
          reached = ground arith;
          ended = elim (told.ended k) [ inl f ↦ inl f | inr l ↦ inr (inl (ground (arith, l))) ];
          told = own;
        })
    where
      own : (is_finished (tasks k).row.status ≡ false) ⊎ (is_finished (tasks k).row.status ≡ true)
      own = elim (Bool-cases (is_finished (tasks k).row.status)) [ inl f ↦ inr f | inr f ↦ inl f ]

  answer-IsNext : (k offset : ℕ) → IsNext tid whole w (tasks k) k offset (answer k offset)
  answer-IsNext k offset = elim (Bool-cases (ltb offset (events_size tid (w.pools k)))) [
    | inl e ↦ read-IsNext k offset e
    | inr e ↦ unread-IsNext k offset e
  ]

  asked : (k offset : ℕ) → asked_of tid w k offset ≡ ok (answer k offset)
  unfolding asked_of read_events read_after
  asked k offset = ap (λ r. (read_after tid offset (w.mids k) (w.laters k) r).1) (told.there k)

  -- A poll that is the last one.
  last-Told :
      (k offset : ℕ) (c : Chunk)
      → IsNext tid whole w (tasks k) k offset c
      → is_end c ≡ true
      → Told tid whole w offset (yielded c.content [], finished)
  last-Told k offset c x g = record {
    ends = refl;
    rest = drop c.event_offset whole;
    joined =
        ap (λ l. l ++ drop c.event_offset whole)
          (flatten-yielded c.content [] ∙ append-nil c.content)
        ∙ x.joined;
    missed = elim x.ended [
      | inl f ↦ absurd (ground arith)
      | inr (inl l) ↦ inl (drop_all c.event_offset whole l)
      | inr (inr o) ↦ inr (k, o)
    ];
  }

  -- A poll with others after it.
  more-Told :
      (k offset : ℕ) (c : Chunk) (r : List (List ℕ) × End)
      → IsNext tid whole w (tasks k) k offset c
      → Told tid whole w c.event_offset r
      → Told tid whole w offset (yielded c.content r.0, r.1)
  more-Told k offset c r x t = record {
    ends = t.ends;
    rest = t.rest;
    joined =
        ap (λ l. l ++ t.rest) (flatten-yielded c.content r.0)
        ∙ append_assoc c.content (flatten r.0) t.rest
        ∙ ap (λ l. c.content ++ l) t.joined
        ∙ x.joined;
    missed = t.missed;
  }

  -- A poll that finds the task finished is the last one.
  is_last :
      (k offset : ℕ) (c : Chunk)
      → IsNext tid whole w (tasks k) k offset c
      → is_finished (tasks k).row.status ≡ true
      → is_end c ≡ true
  is_last k offset c x f =
      let reached = x.reached in
      elim x.told [ inl g ↦ absurd (ground arith) | inr g ↦ ground (arith, reached) ]

  follow_from-Told :
      (fuel k offset : ℕ)
      → is_finished (tasks (k + fuel)).row.status ≡ true
      → Told tid whole w offset (follow_from (suc fuel) (asked_of tid w) k offset)
  follow_from-Told zero k offset f =
      let here : k + 0 ≡ k = omega arith in
      let now = subst (λ m. is_finished (tasks m).row.status ≡ true) here f in
      let c = answer k offset in
      let x = answer-IsNext k offset in
      let g = is_last k offset c x now in
      rw (follow_from-ok 0 k offset (asked_of tid w) c (asked k offset), g, if◌then◌else◌)
        (last-Told k offset c x g)
  follow_from-Told (suc fuel) k offset f =
      let next : k + suc fuel ≡ suc k + fuel = omega arith in
      let later = subst (λ m. is_finished (tasks m).row.status ≡ true) next f in
      let c = answer k offset in
      let x = answer-IsNext k offset in
      let asked_once = follow_from-ok (suc fuel) k offset (asked_of tid w) c (asked k offset) in
      elim (Bool-cases (is_end c)) [
        | inl g ↦ rw (asked_once, g, if◌then◌else◌) (last-Told k offset c x g)
        | inr g ↦
            rw (asked_once, g, if◌then◌else◌)
              (more-Told k offset c (follow_from (suc fuel) (asked_of tid w) (suc k) c.event_offset)
                x (follow_from-Told fuel (suc k) c.event_offset later))
      ]

  -- A client that follows a task comes to its end as soon as a poll finds the task finished, as many
  -- rounds being enough, and has then, in chunks one after the other, the output from its offset on,
  -- without a gap or a repetition. Nothing is missing at the end of it unless, at some poll, the output
  -- grew and the task finished between the server's read of the file and its answer. This holds where
  -- each poll finds the task, the file is the beginning of the output and does not shrink, it is all
  -- of it once the task is finished, and a finished task stays so.
  pub follow-Told :
      (fuel offset : ℕ)
      → is_finished (tasks fuel).row.status ≡ true
      → Told tid whole w offset (follow (suc fuel) tid w offset)
  unfolding follow
  follow-Told fuel offset f =
      let first : fuel ≡ 0 + fuel = omega arith in
      follow_from-Told fuel 0 offset (subst (λ m. is_finished (tasks m).row.status ≡ true) first f)
