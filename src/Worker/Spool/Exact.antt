-- ===== src/Worker/Spool/Exact.antt =====
-- The server's file is what the worker wrote, without a gap and without a repetition.
use gh_pool.Base.{
  ℕ, zero, suc, ◌+◌, ◌-◌, ◌≤◌, ◌<◌, ◌≡◌, refl, Bool, true, false, List, [], ◌∷◌, ◌++◌,
  if◌then◌else◌, arith, length, take, drop, length-append, append_assoc, take_left, Bool-cases,
  List-cases, inl, inr, ap, ◌∙◌, sym, leb, ltb, ◌==◌, ==-refl, ◌⊎◌, subst, min, length-take,
  length-drop,
}
use gh_pool.Base.Dict.{put, lookup-put_self}
use gh_pool.Pool.State.{Pool, Settings, events_of, events_size}
use gh_pool.Pool.Tasks.{Appended, append_locked}
use gh_pool.Worker.Spool.{Spool, extend, write, read_at, post, on_answer, send}

-- After `head`, which was there before, the server has the first bytes of the spool, as many as the
-- worker counts as sent.
pub record IsExact (head : List ℕ) (tid : ℕ) (p : Spool) (s : Pool) : Type 0 where
  pub started : p.base ≡ length head
  pub counted : p.size ≡ p.base + length p.bytes
  pub file : events_of tid s ≡ head ++ take (p.sent - p.base) p.bytes
  pub reached : p.sent ≡ length (events_of tid s)

take-length : (m : ℕ) (xs : List ℕ) → take (length (take m xs)) xs ≡ take m xs
take-length zero xs = refl
take-length (suc m) [] = refl
take-length (suc m) (x ∷ xs) = ap (◌∷◌ x) (take-length m xs)

take_nothing : (k : ℕ) → take {A = ℕ} k [] ≡ []
take_nothing zero = refl
take_nothing (suc k) = refl

-- A chunk read after the first n bytes makes the first n bytes longer.
take-grow :
    (n m : ℕ) (xs : List ℕ)
    → take (n + length (take m (drop n xs))) xs ≡ take n xs ++ take m (drop n xs)
take-grow zero m xs =
    let e : 0 + length (take m xs) ≡ length (take m xs) = omega arith in rw e (take-length m xs)
take-grow (suc n) m [] = take_nothing (suc n + length (take m [])) ∙ sym (take_nothing m)
take-grow (suc n) m (x ∷ xs) =
    let e : suc n + length (take m (drop n xs)) ≡ suc (n + length (take m (drop n xs))) =
      omega arith in
    rw e (ap (◌∷◌ x) (take-grow n m xs))

-- Nothing was appended, and the answer tells the size of the file.
abbrev pub Untaken : ℕ → Pool → Pool × Appended → Type 0
Untaken tid s r = (r.0 ≡ s) × (r.1.offset ≡ events_size tid s)

-- The body was appended once or not at all, and the answer tells the size of the file then.
abbrev pub Ends : ℕ → List ℕ → Pool → Pool × Appended → Type 0
Ends tid body s r =
    ((events_of tid r.0 ≡ events_of tid s) ⊎ (events_of tid r.0 ≡ events_of tid s ++ body))
    × (r.1.offset ≡ length (events_of tid r.0))

-- An append elsewhere than at the end of the file changes nothing and tells the size.
append_elsewhere :
    (c : Settings) (tid offset : ℕ) (body : List ℕ) (s : Pool)
    → (offset == events_size tid s) ≡ false
    → Untaken tid s (append_locked c tid offset body s)
unfolding append_locked
append_elsewhere c tid offset body s e = (ground arith, ground arith)

-- Once it was taken, an append that is repeated finds the file longer.
pub post-elsewhere :
    (c : Settings) (tid more offset : ℕ) (body : List ℕ) (s : Pool)
    → (offset == events_size tid s) ≡ false
    → Untaken tid s (post c tid more offset body s)
unfolding post
post-elsewhere c tid zero offset body s e = append_elsewhere c tid offset body s e
post-elsewhere c tid (suc more) offset body s e =
    let (same, told) = append_elsewhere c tid offset body s e in
    subst (λ y. Untaken tid s (post c tid more offset body y)) (sym same)
      (post-elsewhere c tid more offset body s e)

pub events_of-put :
    (tid : ℕ) (bytes : List ℕ) (s : Pool)
    → events_of tid (record s { files = put tid bytes s.files }) ≡ bytes
unfolding events_of
events_of-put tid bytes s = rw (events_of, lookup-put_self tid bytes s.files) refl

-- An append at the end of the file is taken whole, or not at all once the file has its cap.
append_end :
    (c : Settings) (tid b : ℕ) (bs : List ℕ) (s : Pool)
    → (((append_locked c tid (events_size tid s) (b ∷ bs) s).0 ≡ s)
        × ((append_locked c tid (events_size tid s) (b ∷ bs) s).1.offset ≡ events_size tid s))
      ⊎ ((events_of tid (append_locked c tid (events_size tid s) (b ∷ bs) s).0
            ≡ events_of tid s ++ b ∷ bs)
          × ((append_locked c tid (events_size tid s) (b ∷ bs) s).1.offset
              ≡ length (events_of tid s ++ b ∷ bs)))
unfolding append_locked
append_end c tid b bs s = elim (Bool-cases (leb c.event_cap (events_size tid s))) [
  | inl e ↦ rw (e, if◌then◌else◌) (inl (refl, refl))
  | inr e ↦
      rw (e, ==-refl (events_size tid s), if◌then◌else◌)
        (inr (events_of-put tid (events_of tid s ++ b ∷ bs) s, refl))
]

-- However often the request is taken, its body is in the file at most once, and the answer tells
-- how long the file is.
post_end :
    (c : Settings) (tid more b : ℕ) (bs : List ℕ) (s : Pool)
    → Ends tid (b ∷ bs) s (post c tid more (events_size tid s) (b ∷ bs) s)
unfolding post events_size
post_end c tid zero b bs s = elim (append_end c tid b bs s) [
  | inl (same, told) ↦
      (inl (ap (events_of tid) same), told ∙ sym (ap (λ x. length (events_of tid x)) same))
  | inr (grown, told) ↦ (inr grown, told ∙ sym (ap length grown))
]
post_end c tid (suc more) b bs s = elim (append_end c tid b bs s) [
  | inl (same, told) ↦
      subst (λ y. Ends tid (b ∷ bs) s (post c tid more (events_size tid s) (b ∷ bs) y)) (sym same)
        (post_end c tid more b bs s)
  | inr (grown, told) ↦
      let s1 = (append_locked c tid (events_size tid s) (b ∷ bs) s).0 in
      let longer : length (events_of tid s1) ≡ length (events_of tid s) + suc (length bs) =
        ap length grown ∙ length-append (events_of tid s) (b ∷ bs) in
      let apart : (events_size tid s == events_size tid s1) ≡ false = ground (arith, longer) in
      let (kept, now_told) = post-elsewhere c tid more (events_size tid s) (b ∷ bs) s1 apart in
      (
        inr (ap (events_of tid) kept ∙ grown),
        now_told ∙ sym (ap (λ x. length (events_of tid x)) kept),
      )
]

started_before :
    (head : List ℕ) (tid : ℕ) (p : Spool) (s : Pool) → IsExact head tid p s → p.base ≤ p.sent
started_before head tid p s v =
    let size = ap length v.file ∙ length-append head (take (p.sent - p.base) p.bytes) in
    omega (arith, size, v.reached, v.started)

answered-IsExact :
    (head : List ℕ) (tid m : ℕ) (body : List ℕ) (p : Spool) (s : Pool) (r : Pool × Appended)
    → IsExact head tid p s
    → take m (drop (p.sent - p.base) p.bytes) ≡ body
    → Ends tid body s r
    → IsExact head tid (on_answer r.1 p) r.0
unfolding on_answer
answered-IsExact head tid m body p s r v e (inl same, told) = record {
  started = v.started;
  counted = v.counted;
  file =
      let still : r.1.offset ≡ p.sent = told ∙ ap length same ∙ sym v.reached in
      same ∙ v.file ∙ ap (λ k. head ++ take (k - p.base) p.bytes) (sym still);
  reached = told;
}
answered-IsExact head tid m body p s r v e (inr grown, told) = record {
  started = v.started;
  counted = v.counted;
  file =
      let k = p.sent - p.base in
      let before = started_before head tid p s v in
      let longer : r.1.offset ≡ length (events_of tid s) + length body =
        told ∙ ap length grown ∙ length-append (events_of tid s) body in
      let at : r.1.offset - p.base ≡ k + length body = omega (arith, longer, before, v.reached) in
      let joined : take (k + length body) p.bytes ≡ take k p.bytes ++ body =
        subst (λ y. take (k + length y) p.bytes ≡ take k p.bytes ++ y) e (take-grow k m p.bytes) in
      grown
      ∙ ap (λ y. y ++ body) v.file
      ∙ append_assoc head (take k p.bytes) body
      ∙ ap (λ y. head ++ y) (sym joined)
      ∙ ap (λ n. head ++ take n p.bytes) (sym at);
  reached = told;
}

-- While the lease is held, a round of the sender that has something to send keeps the server's file
-- exact, whatever the size of a chunk, however often the request is taken and whether or not the
-- file is at its cap: after the bytes that it had at the start of the lease, it has the first bytes
-- of the spool, each once, up to the offset that the worker counts as sent.
pub send-IsExact :
    (c : Settings) (head : List ℕ) (tid chunk more : ℕ) (p : Spool) (s : Pool)
    → IsExact head tid p s
    → p.sent < p.size
    → IsExact head tid (send c tid (suc chunk) more p s).0 (send c tid (suc chunk) more p s).1
unfolding send read_at events_size
send-IsExact c head tid chunk more p s v l =
    elim (List-cases (take (suc chunk) (drop (p.sent - p.base) p.bytes))) [
      | inl e ↦
          let before = started_before head tid p s v in
          let size : min (suc chunk) (length p.bytes - (p.sent - p.base)) ≡ 0 =
            sym (
              length-take (suc chunk) (drop (p.sent - p.base) p.bytes)
              ∙ ap (min (suc chunk)) (length-drop (p.sent - p.base) p.bytes))
            ∙ ap length e in
          absurd (omega (arith, size, before, l, v.counted))
      | inr (b, bs, e) ↦
          let ends : Ends tid (b ∷ bs) s (post c tid more p.sent (b ∷ bs) s) =
            subst (λ n. Ends tid (b ∷ bs) s (post c tid more n (b ∷ bs) s)) (sym v.reached)
              (post_end c tid more b bs s) in
          rw (e, send)
            (answered-IsExact head tid (suc chunk) (b ∷ bs) p s (post c tid more p.sent (b ∷ bs) s)
              v e ends)
    ]

extend-IsExact :
    (head text : List ℕ) (tid : ℕ) (p : Spool) (s : Pool)
    → IsExact head tid p s
    → IsExact head tid (extend text p) s
unfolding extend
extend-IsExact head text tid p s v =
    let k = p.sent - p.base in
    let size = ap length v.file ∙ length-append head (take k p.bytes) in
    let first : k ≤ length p.bytes =
      omega (arith, size, length-take k p.bytes, v.reached, v.started) in
    record {
      started = v.started;
      counted = omega (arith, v.counted, length-append p.bytes text);
      file = v.file ∙ ap (λ y. head ++ y) (sym (take_left k p.bytes text first));
      reached = v.reached;
    }

undropped-IsExact :
    (head : List ℕ) (tid n : ℕ) (p : Spool) (s : Pool)
    → IsExact head tid p s
    → IsExact head tid (record p { dropped = n }) s
undropped-IsExact head tid n p s v = record {
  started = v.started;
  counted = v.counted;
  file = v.file;
  reached = v.reached;
}

branch-IsExact :
    (head : List ℕ) (tid : ℕ) (s : Pool) (b : Bool) (x y : Spool)
    → IsExact head tid x s
    → IsExact head tid y s
    → IsExact head tid (if b then x else y) s
branch-IsExact head tid s true x y h k = h
branch-IsExact head tid s false x y h k = k

-- A write to the spool, kept, dropped or preceded by the marker of what was dropped, keeps the
-- server's file exact.
pub write-IsExact :
    (cap : ℕ) (marker : ℕ → List ℕ) (head text : List ℕ) (tid : ℕ) (p : Spool) (s : Pool)
    → IsExact head tid p s
    → IsExact head tid (write cap marker text p) s
unfolding write
write-IsExact cap marker head text tid p s v =
    let marked = undropped-IsExact head tid 0 p s v in
    branch-IsExact head tid s p.stopped p _ v (
      branch-IsExact head tid s (ltb cap (p.size - p.sent))
        (record p { dropped = p.dropped + length text }) _
        (undropped-IsExact head tid (p.dropped + length text) p s v)
        (extend-IsExact head text tid
          (if p.dropped == 0 then p else extend (marker p.dropped) (record p { dropped = 0 })) s
          (branch-IsExact head tid s (p.dropped == 0) p
            (extend (marker p.dropped) (record p { dropped = 0 })) v
            (extend-IsExact head (marker p.dropped) tid (record p { dropped = 0 }) s marked))))
