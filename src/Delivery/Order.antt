-- ===== src/Delivery/Order.antt =====
-- Which events of node/history/delivery.rs wait, and in which order rooms are served.
use mathlib.Core.Option.{get_or}
use xivlantern_dalamud.Prelude.{
  any-append, ◌≡◌, refl, Bool, true, false, Option, none, some, List, [], ◌∷◌, ◌++◌, arith, any,
  nat_eq, bytes_eq,
}
use xivlantern_dalamud.HashMap
use xivlantern_dalamud.HashMap.{HashMap}
use xivlantern_dalamud.HashMap.Laws
use xivlantern_dalamud.Event.{Event, channel_record, RoomHandle}
use xivlantern_dalamud.Delivery.{
  Delivery, is_record, is_cleared, channel_of, has_encoded, is_pending, make_space, enqueue,
  push_to, push,
}

is_pending-append_self :
    (event : Event) (queue : List Event)
    → is_record event ≡ true
    → is_pending event (queue ++ event ∷ []) ≡ true
unfolding is_pending has_encoded is_record any
is_pending-append_self (channel_record room peer encoded historical) queue h = ground (
  arith,
  any-append (has_encoded encoded) queue (channel_record room peer encoded historical ∷ []),
  bytes_eq.equals_iff encoded encoded,
)
is_pending-append_self event queue h = absurd (ground arith)

record_or_cleared :
    (event : Event) (room : RoomHandle)
    → channel_of event ≡ some room
    → is_cleared event ≡ false
    → is_record event ≡ true
unfolding channel_of is_record is_cleared
record_or_cleared event room e c = ground arith

-- What was just taken in is not taken in again.
enqueue_twice :
    (queue : List Event) (event : Event) (room : RoomHandle)
    → channel_of event ≡ some room
    → enqueue (enqueue queue event).0 event ≡ ((enqueue queue event).0, false)
unfolding enqueue
enqueue_twice queue event room e =
    ground (arith, record_or_cleared event room e, is_pending-append_self event (make_space queue))

push_to_twice :
    (d : Delivery) (room : RoomHandle) (event : Event)
    → channel_of event ≡ some room
    → push_to (push_to d room event).0 room event ≡ ((push_to d room event).0, false)
unfolding push_to
push_to_twice d room event e =
    let queue = (enqueue (get_or (HashMap.get d.rooms room) []) event).0 in
    ground (
      arith,
      nat_eq.equals_iff room room,
      Laws.get-insert d.rooms room room queue,
      Laws.contains_key-get (HashMap.insert d.rooms room queue) room,
      Laws.insert_self (HashMap.insert d.rooms room queue) room queue,
      enqueue_twice (get_or (HashMap.get d.rooms room) []) event room e,
    )

-- A channel event that is pushed again at once changes nothing and evicts nothing.
pub push_twice :
    (d d' : Delivery) (event : Event) (evicted : Bool)
    → push d event ≡ some (d', evicted)
    → push d' event ≡ some (d', false)
unfolding push
push_twice d d' event evicted h = by_room (channel_of event) refl h
  where
    by_room :
        (o : Option RoomHandle)
        → channel_of event ≡ o
        → elim o [ none ↦ none | some room ↦ some (push_to d room event) ] ≡ some (d', evicted)
        → push d' event ≡ some (d', false)
    by_room none e k = absurd (cc)
    by_room (some room) e k = rw (e, push) (ground (arith, push_to_twice d room event e))
