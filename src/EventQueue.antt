-- ===== src/EventQueue.antt =====
-- crates/lantern-core/src/node.rs, `Shared::emit` and `Node::poll`: the two event queues of a node,
-- the bounded channel of plain events and the queue of channel records, and how a caller drains them.
pub mod Poll
pub mod Emit
mod Tests
use xivlantern_dalamud.Prelude.{
  ℕ, zero, suc, ◌+◌, ◌%◌, ◌^◌, Bool, true, false, not, Option, none, some, List, [], ◌∷◌, ◌++◌, ltb,
  if◌then◌else◌, length,
}
use xivlantern_dalamud.Event.{Event}
use xivlantern_dalamud.Delivery.{Delivery, channel_of, push_to, pop}

-- The fields of `Shared` and `Node` that hold events: `history_events`, the channel between `ev` and
-- `events` with its capacity, `poll_history_turn`, and `stats.events_dropped`.
pub record EventQueue : Type 0 where
  pub history : Delivery
  pub channel : List Event
  pub capacity : ℕ
  pub history_turn : Bool
  pub events_dropped : ℕ

-- `fetch_add(1)` on an `AtomicU64`
unfoldable pub wrapping_inc : ℕ → ℕ
wrapping_inc n = (n + 1) % 2 ^ 64

unfoldable pub try_send : EventQueue → Event → EventQueue
unfolding wrapping_inc
try_send q event =
    if ltb (length q.channel) q.capacity
    then record q { channel = q.channel ++ event ∷ [] }
    else record q { events_dropped = wrapping_inc q.events_dropped }

unfoldable pub emit_record : EventQueue → Delivery × Bool → EventQueue
unfolding wrapping_inc
emit_record q (history, evicted) = record q {
  history = history;
  events_dropped = if evicted then wrapping_inc q.events_dropped else q.events_dropped;
}

-- The events that `emit` gives to the record queue are those that have a room there.
unfoldable pub emit : EventQueue → Event → EventQueue
emit q event = elim (channel_of event) [
  | none ↦ try_send q event
  | some room ↦ emit_record q (push_to q.history room event)
]

unfoldable pub try_recv : EventQueue → List Event → EventQueue × Option Event
try_recv q [] = (q, none)
try_recv q (event ∷ channel) = (record q { channel = channel }, some event)

-- `none` is a panic of `Delivery::pop`.
unfoldable pub pop_history : EventQueue → Option (EventQueue × Option Event)
pop_history q = elim (pop q.history) [
  | none ↦ none
  | some r ↦ some (record q { history = r.0 }, r.1)
]

unfoldable pub or_recv : EventQueue × Option Event → EventQueue × Option Event
unfolding try_recv
or_recv (q, some event) = (q, some event)
or_recv (q, none) = try_recv q q.channel

unfoldable pub or_history : EventQueue × Option Event → Option (EventQueue × Option Event)
unfolding pop_history
or_history (q, some event) = some (q, some event)
or_history (q, none) = pop_history q

-- The event of one round, from one queue or else from the other.
unfoldable pub next_event : Bool → EventQueue → Option (EventQueue × Option Event)
unfolding try_recv
next_event true q = elim (pop_history q) [ none ↦ none | some r ↦ some (or_recv r) ]
next_event false q = or_history (try_recv q q.channel)

unfoldable pub put_first :
    Event → Option (EventQueue × List Event) → Option (EventQueue × List Event)
put_first event none = none
put_first event (some (q, out)) = some (q, event ∷ out)

-- The loop: `max` is how much room `out` has left.
unfoldable pub poll_loop : ℕ → Bool → EventQueue → Option (EventQueue × List Event)
poll_loop zero history_first q = some (q, [])
poll_loop (suc max) history_first q = elim (next_event history_first q) [
  | none ↦ none
  | some (q', none) ↦ some (q', [])
  | some (q', some event) ↦ put_first event (poll_loop max (not history_first) q')
]

unfoldable pub poll : ℕ → EventQueue → Option (EventQueue × List Event)
poll max q = poll_loop max q.history_turn (record q { history_turn = not q.history_turn })
