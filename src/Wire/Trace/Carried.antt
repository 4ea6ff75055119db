-- ===== src/Wire/Trace/Carried.antt =====
-- A context that is carried in headers arrives as it was.
use gh_pool.Base.{
  ℕ, ◌≡◌, refl, Bool, true, Option, none, some, List, [], ◌∷◌, ltb, ◌||◌, length, arith, Bool-cases,
  inl, inr, subst,
}
use mathlib.Core.Option
use gh_pool.Wire.Texts.{Text, is_empty, strip, split_on}
use gh_pool.Wire.Texts.Strips.{strip_idem}
use gh_pool.Wire.Trace.{
  TraceContext, all_hex, hex, is_valid, significant, state, parse_trace, from_headers, headers,
  second, trace_id, trace_id_of,
}

-- The state of a state is itself.
state_idem :
    (is_space : ℕ → Bool) (t : Option Text) → state is_space (state is_space t) ≡ state is_space t
unfolding state
state_idem is_space none = refl
state_idem is_space (some t) =
    elim (Bool-cases (is_empty (strip is_space t) || ltb 512 (length (strip is_space t)))) [
      | inl e ↦ rw (e, state) refl
      | inr e ↦ rw (e, state) (rw (strip_idem is_space t, e) refl)
    ]

-- The trace's id, of fields that pass the checks.
second-is_valid :
    (fields : List Text)
    → is_valid fields ≡ true
    → (length (second fields) ≡ 32)
      × (all_hex (second fields) ≡ true)
      × (significant (second fields) ≡ true)
unfolding is_valid second hex
second-is_valid (version ∷ trace ∷ span ∷ flags ∷ more) v =
    (ground arith, ground arith, ground arith)
second-is_valid [] v = absurd (ground arith)
second-is_valid (a ∷ []) v = absurd (ground arith)
second-is_valid (a ∷ b ∷ []) v = absurd (ground arith)
second-is_valid (a ∷ b ∷ c ∷ []) v = absurd (ground arith)

-- What is parsed of a header is carried on unchanged, and names a trace.
abbrev pub Carries : (ℕ → Bool) → TraceContext → Type 0
Carries is_space c =
    (from_headers is_space (headers c) ≡ some c)
    × (trace_id_of is_space (some c.traceparent) ≡ some (trace_id c))
    × (length (trace_id c) ≡ 32)
    × (all_hex (trace_id c) ≡ true)
    × (significant (trace_id c) ≡ true)

parsed-Carries :
    (is_space : ℕ → Bool) (t : Text) (tracestate : Option Text)
    → is_valid (split_on b'-' (strip is_space t)) ≡ true
    → Carries is_space
        (record { traceparent = strip is_space t; tracestate = state is_space tracestate })
unfolding from_headers headers trace_id trace_id_of
parsed-Carries is_space t tracestate v =
    let same = strip_idem is_space t in
    let parsed = second-is_valid (split_on b'-' (strip is_space t)) v in
    (
      rw (same, v, state_idem is_space tracestate) refl,
      rw (same, v, trace_id_of) refl,
      parsed.0,
      parsed.1,
      parsed.2,
    )

-- A context that is parsed of two headers, whatever white space stands around them, is carried on
-- unchanged: the headers that are made of it parse to the same context. Its trace's id is what
-- trace_id_of finds in its header, has 32 hexadecimal digits, and they are not all zeros.
pub parse_trace-Carries :
    (is_space : ℕ → Bool) (traceparent tracestate : Option Text) (c : TraceContext)
    → parse_trace is_space traceparent tracestate ≡ some c
    → Carries is_space c
unfolding parse_trace
parse_trace-Carries is_space none tracestate c e = absurd (ground arith)
parse_trace-Carries is_space (some t) tracestate c e =
    elim (Bool-cases (is_valid (split_on b'-' (strip is_space t)))) [
      | inl v ↦
          let found : TraceContext = record {
            traceparent = strip is_space t;
            tracestate = state is_space tracestate;
          } in
          let same : some found ≡ some c = rw v at e in
          subst (Carries is_space) (Option.some-injective found c same)
            (parsed-Carries is_space t tracestate v)
      | inr v ↦ absurd (ground arith)
    ]
