-- ===== src/Relay/Stream/Woken.antt =====
-- A stream that has failed wakes its reader.
use gh_pool.Base.{
  ℕ, ◌≡◌, refl, Bool, true, false, some, List, [], ◌∷◌, if◌then◌else◌, inl, inr, Bool-cases,
  Option-cases, length, leb, ap,
}
use gh_pool.Wire.Texts.{Text}
use gh_pool.Wire.Tunnel.{Op, op_open, op_head, op_data, op_text, op_eof, op_close}
use gh_pool.Relay.Stream.{
  Payloads, Head, awaited, told, broken, Stream, stream_size, break_head, fail, Offered, took,
  failed, overflowed, raised, too_far, or_closed, enqueue, on_head, on_close, take_in, offer,
}

abbrev pub is_awaited : Head → Bool
is_awaited awaited = true
is_awaited h = false

-- The stream has failed: its reader finds a CLOSE with the reason, and the head has come or is broken.
pub record IsWoken (k : Payloads) (s : Stream) : Type 0 where
  pub reason : Text
  pub over : s.gone ≡ true
  pub left : s.queue ≡ (op_close, k.close_bytes (some reason)) ∷ []
  pub settled : is_awaited s.head ≡ false

not_awaited : (reason : Text) (h : Head) → is_awaited (break_head reason h) ≡ false
unfolding break_head
not_awaited reason awaited = refl
not_awaited reason (told n) = refl
not_awaited reason (broken e) = refl

pub fail-IsWoken : (k : Payloads) (reason : Text) (s : Stream) → IsWoken k (fail k reason s)
unfolding fail
fail-IsWoken k reason s = record {
  reason = reason;
  over = refl;
  left = refl;
  settled = not_awaited reason s.head;
}

-- What an offer leaves of a stream that is not gone.
abbrev pub Left : Payloads → Stream × Offered → Type 0
Left k (s, took) = s.gone ≡ false
Left k (s, raised) = s.gone ≡ false
Left k (s, failed) = IsWoken k s
Left k (s, overflowed) = IsWoken k s

enqueue-Left :
    (k : Payloads) (op : Op) (payload : List ℕ) (s : Stream)
    → s.gone ≡ false
    → Left k (enqueue k op payload s)
unfolding enqueue
enqueue-Left k op payload s g = elim (Bool-cases (leb stream_size (length s.queue))) [
  | inl e ↦ rw (e, enqueue) (fail-IsWoken k too_far s)
  | inr e ↦ rw (e, enqueue) g
]

on_head-Left :
    (k : Payloads) (payload : List ℕ) (h : Head) (s : Stream)
    → s.gone ≡ false
    → Left k (on_head k payload h s)
unfolding on_head
on_head-Left k payload awaited s g = elim (Option-cases (k.head_of payload)) [
  | inl e ↦ rw (e, on_head) g
  | inr (h, e) ↦ rw (e, on_head) g
]
on_head-Left k payload (told n) s g = g
on_head-Left k payload (broken e) s g = g

on_close-Left :
    (k : Payloads) (payload : List ℕ) (h : Head) (s : Stream)
    → s.gone ≡ false
    → Left k (on_close k payload h s)
unfolding on_close
on_close-Left k payload awaited s g = elim (Option-cases (k.error_of payload)) [
  | inl e ↦ rw (e, on_close) g
  | inr (r, e) ↦ rw (e, on_close) (fail-IsWoken k (or_closed r) s)
]
on_close-Left k payload (told n) s g = enqueue-Left k op_close payload s g
on_close-Left k payload (broken e) s g = enqueue-Left k op_close payload s g

pub take_in-Left :
    (k : Payloads) (op : Op) (payload : List ℕ) (s : Stream)
    → s.gone ≡ false
    → Left k (take_in k op payload s)
unfolding take_in
take_in-Left k op_head payload s g = on_head-Left k payload s.head s g
take_in-Left k op_close payload s g = on_close-Left k payload s.head s g
take_in-Left k op_open payload s g = enqueue-Left k op_open payload s g
take_in-Left k op_data payload s g = enqueue-Left k op_data payload s g
take_in-Left k op_text payload s g = enqueue-Left k op_text payload s g
take_in-Left k op_eof payload s g = enqueue-Left k op_eof payload s g

pub offer_present :
    (k : Payloads) (op : Op) (payload : List ℕ) (s : Stream)
    → s.gone ≡ false
    → offer k op payload s ≡ take_in k op payload s
unfolding offer
offer_present k op payload s g = ap (λ b. if b then (s, took) else take_in k op payload s) g

pub offer_absent :
    (k : Payloads) (op : Op) (payload : List ℕ) (s : Stream)
    → s.gone ≡ true
    → offer k op payload s ≡ (s, took)
unfolding offer
offer_absent k op payload s g = ap (λ b. if b then (s, took) else take_in k op payload s) g
