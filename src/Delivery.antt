-- ===== src/Delivery.antt =====
-- crates/lantern-core/src/node/history/delivery.rs: the bounded queue of channel records, one queue
-- for each joined room, served in turn.
pub mod Queue
pub mod Purge
pub mod Valid
pub mod Removal
pub mod Run
pub mod Order
pub mod Latest
pub mod Fair
pub mod Tests
use mathlib.Core.Option.{get_or}
use xivlantern_dalamud.Prelude.{
  ℕ, Bool, true, false, not, Option, none, some, List, [], ◌∷◌, ◌++◌, ◌==◌, leb, if◌then◌else◌,
  retain, any, count_if, nat_eq, bytes_eq,
}
use xivlantern_dalamud.HashMap
use xivlantern_dalamud.HashMap.{HashMap}
use xivlantern_dalamud.Bytes.{Bytes}
use xivlantern_dalamud.Event.{Event, channel_record, channel_history_cleared, PeerId, RoomHandle}

-- `channel_history::MAX_RECORDS`
abbrev pub max_records : ℕ
max_records = 256

-- `active` is a set: a map to nothing.
pub record Delivery : Type 0 where
  pub active : HashMap RoomHandle (Unit {0})
  pub rooms : HashMap RoomHandle (List Event)
  pub ready : List RoomHandle

abbrev pub empty : Delivery
empty = record { active = []; rooms = []; ready = [] }

unfoldable pub register : Delivery → RoomHandle → Delivery
register d room = record d { active = HashMap.insert d.active room tt }

unfoldable pub is_record : Event → Bool
is_record (channel_record room peer encoded historical) = true
is_record _ = false

unfoldable pub is_cleared : Event → Bool
is_cleared (channel_history_cleared room) = true
is_cleared _ = false

-- The room that an event is queued for; `none` where the source is `unreachable!`.
unfoldable pub channel_of : Event → Option RoomHandle
channel_of (channel_record room peer encoded historical) = some room
channel_of (channel_history_cleared room) = some room
channel_of _ = none

-- A record with these encoded bytes.
unfoldable pub has_encoded : Bytes → Event → Bool
has_encoded encoded (channel_record room peer old historical) = old == encoded
has_encoded encoded _ = false

-- A record that waits already, byte for byte.
unfoldable pub is_pending : Event → List Event → Bool
is_pending (channel_record room peer encoded historical) queue = any (has_encoded encoded) queue
is_pending _ queue = false

unfoldable pub remove_first_record : List Event → List Event
remove_first_record [] = []
remove_first_record (x ∷ queue) = if is_record x then queue else x ∷ remove_first_record queue

-- `records >= MAX_RECORDS`
unfoldable pub is_full : List Event → Bool
is_full queue = leb max_records (count_if is_record queue)

-- A full queue gives up its oldest record.
unfoldable pub make_space : List Event → List Event
unfolding is_full
make_space queue = if is_full queue then remove_first_record queue else queue

-- The change to one room's queue, and whether an older record was evicted.
unfoldable pub enqueue : List Event → Event → List Event × Bool
enqueue queue event =
    if is_cleared event
    then (event ∷ [], false)
    else if is_pending event queue
    then (queue, false)
    else (make_space queue ++ event ∷ [], is_full queue)

unfoldable pub push_to : Delivery → RoomHandle → Event → Delivery × Bool
push_to d room event =
    if not (HashMap.contains_key d.active room)
    then (d, false)
    else let ready = if HashMap.contains_key d.rooms room then d.ready else d.ready ++ room ∷ [] in
      let (queue, evicted) = enqueue (get_or (HashMap.get d.rooms room) []) event in
      (record d { rooms = HashMap.insert d.rooms room queue; ready = ready }, evicted)

-- `none` is the panic of `unreachable!`.
unfoldable pub push : Delivery → Event → Option (Delivery × Bool)
push d event = elim (channel_of event) [ none ↦ none | some room ↦ some (push_to d room event) ]

-- The rest of `pop` once the room and its queue are known.
unfoldable pub pop_from :
    Delivery → RoomHandle → List RoomHandle → List Event → Delivery × Option Event
pop_from d room rest [] = (record d { rooms = HashMap.remove d.rooms room; ready = rest }, none)
pop_from d room rest (event ∷ []) =
    (record d { rooms = HashMap.remove d.rooms room; ready = rest }, some event)
pop_from d room rest (event ∷ next ∷ queue) = (
  record d { rooms = HashMap.insert d.rooms room (next ∷ queue); ready = rest ++ room ∷ [] },
  some event,
)

-- `none` is the panic of `unwrap` at a ready room that has no queue.
unfoldable pub pop_ready : Delivery → List RoomHandle → Option (Delivery × Option Event)
pop_ready d [] = some (d, none)
pop_ready d (room ∷ rest) = elim (HashMap.get d.rooms room) [
  | none ↦ none
  | some queue ↦ some (pop_from d room rest queue)
]

unfoldable pub pop : Delivery → Option (Delivery × Option Event)
unfolding pop_ready pop_from
pop d = pop_ready d d.ready

unfoldable pub is_by : PeerId → Event → Bool
is_by author (channel_record room peer encoded historical) = peer == author
is_by author _ = false

unfoldable pub is_empty {ℓ} : {A : Type ℓ} → List A → Bool
is_empty [] = true
is_empty (x ∷ xs) = false

unfoldable pub block_author : Delivery → PeerId → Delivery
block_author d author =
    let rooms = HashMap.map_values (retain (λ event. not (is_by author event))) d.rooms in
    let rooms' = HashMap.retain (λ room queue. not (is_empty queue)) rooms in
    record d { rooms = rooms'; ready = retain (HashMap.contains_key rooms') d.ready }

unfoldable pub forget : Delivery → RoomHandle → Delivery
forget d room = record {
  active = HashMap.remove d.active room;
  rooms = HashMap.remove d.rooms room;
  ready = retain (λ r. not (r == room)) d.ready;
}
