-- ===== src/Sessions/Stream.antt =====
-- core/events.py: a subscription's queue and the stream of one session's events.
pub mod Delivery
use gh_pool.Base.{
  ℕ, ◌+◌, Bool, true, false, Option, none, some, List, [], ◌∷◌, ◌++◌, String, if◌then◌else◌, leb,
  ltb, length,
}
use gh_pool.Sessions.Rows.{Event, EventData, session_closed}

abbrev pub queue_size : ℕ
queue_size = 1000

-- Subscription: what waits in its queue, the oldest first.
pub record Subscription : Type 0 where
  pub queue : List Event
  pub overflow : Bool

abbrev pub subscribed : Subscription
subscribed = record { queue = []; overflow = false }

-- Subscription.offer
unfoldable pub offer : Event → Subscription → Subscription
offer e sub =
    if sub.overflow
    then sub
    else (if ltb (length sub.queue) queue_size
        then record sub { queue = sub.queue ++ e ∷ [] }
        else record sub { overflow = true })

unfoldable pub offers : List Event → Subscription → Subscription
offers [] sub = sub
offers (e ∷ es) sub = offers es (offer e sub)

-- Subscription.get: an event, nothing yet, or SubscriberOverflow.
pub data Got : Type 0 where
  event : Event → Got
  waits : Got
  overflowed : Got

unfoldable pub get : Subscription → Subscription × Got
get sub =
    if sub.overflow
    then (sub, overflowed)
    else elim sub.queue [ [] ↦ (sub, waits) | e ∷ es ↦ (record sub { queue = es }, event e) ]

abbrev pub is_closing : EventData → Bool
is_closing (session_closed _) = true
is_closing _ = false

-- The events that `stream` yields for some queued ones, and what it has delivered then; none once
-- it has returned.
unfoldable pub live : ℕ → List Event → List Event × Option ℕ
live delivered [] = ([], some delivered)
live delivered (e ∷ es) =
    let skipped = live delivered es in
    let (more, at) = live e.seq es in
    if leb e.seq delivered
    then skipped
    else if is_closing e.body
    then (e ∷ [], none)
    else (e ∷ more, at)

-- The part of `stream` that yields the history.
unfoldable pub replay : ℕ → List Event → List Event × Option ℕ
replay delivered [] = ([], some delivered)
replay delivered (e ∷ es) =
    let (more, at) = replay e.seq es in if is_closing e.body then (e ∷ [], none) else (e ∷ more, at)

-- order by seq, where seq > after_seq, on rows that stand in the order of their seq
unfoldable pub history : ℕ → List Event → List Event
history after [] = []
history after (e ∷ es) = let rest = history after es in if leb e.seq after then rest else e ∷ rest

-- What follows the history: nothing if it closed the session or the session was over.
unfoldable pub follow : Bool → Bool → List Event → List Event × Option ℕ → List Event × Bool
unfolding live
follow over raised queued (sent, none) = (sent, false)
follow over raised queued (sent, some delivered) =
    let (more, at) = live delivered queued in
    if over then (sent, false) else (sent ++ more, elim at [ none ↦ false | some d ↦ raised ])

-- stream, and whether it ends with SubscriberOverflow: `stored` are the session's events when the
-- history is read, `queued` those that it takes from its subscription, in the order in which they were
-- offered, `raised` whether the subscription has overflowed when they are taken, so that the next get
-- raises, and `over` is what `_over` said.
unfoldable pub stream : ℕ → Bool → Bool → List Event → List Event → List Event × Bool
unfolding replay history follow
stream after over raised stored queued =
    follow over raised queued (replay after (history after stored))
