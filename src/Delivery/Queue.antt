-- ===== src/Delivery/Queue.antt =====
-- One room's queue in node/history/delivery.rs: what `enqueue` does to it.

use xivlantern_dalamud.Prelude.{
  any-append, ◌||◌, suc, ◌+◌, ◌≤◌, ◌<◌, ◌≡◌, refl, Bool, true, false, not, some, List, [], ◌∷◌,
  ◌++◌, arith, length, any, count_if, All, count_if-append, length-append, nat_eq, bytes_eq,
  All-append, Bool-cases, inl, inr,
}
use xivlantern_dalamud.Event.{Event, channel_record, RoomHandle}
use xivlantern_dalamud.Delivery.{
  max_records, is_record, is_cleared, channel_of, has_encoded, is_pending, remove_first_record,
  is_full, make_space, enqueue,
}

abbrev pub InRoom : RoomHandle → Event → Type 0
InRoom room event = channel_of event ≡ some room

-- No record waits twice.
abbrev pub Distinct : List Event → Type 0
Distinct [] = Unit
Distinct (x ∷ queue) = (is_pending x queue ≡ false) × Distinct queue

-- A queue, empty or not, of one room.
pub record IsQueue (room : RoomHandle) (queue : List Event) : Type 0 where
  pub bounded : count_if is_record queue ≤ max_records
  pub one_clear : count_if is_cleared queue ≤ 1
  pub in_room : All (InRoom room) queue
  pub distinct : Distinct queue

pub []-IsQueue : (room : RoomHandle) → IsQueue room []
unfolding count_if
[]-IsQueue room = record {
  bounded = omega arith;
  one_clear = omega arith;
  in_room = tt;
  distinct = tt;
}

pub length_of_InRoom :
    (room : RoomHandle) (queue : List Event)
    → All (InRoom room) queue
    → length queue ≡ count_if is_record queue + count_if is_cleared queue
unfolding count_if channel_of is_record is_cleared
length_of_InRoom room [] h = omega arith
length_of_InRoom room (x ∷ queue) h = ground (arith, length_of_InRoom room queue h.1)

-- A queue holds at most `MAX_RECORDS` records and one acknowledgement of a clear.
pub length-le_of_IsQueue :
    (room : RoomHandle) (queue : List Event) → IsQueue room queue → length queue ≤ max_records + 1
length-le_of_IsQueue room queue h =
    omega (arith, length_of_InRoom room queue h.in_room, h.bounded, h.one_clear)

module _ where
  count-remove_first_record :
      (queue : List Event)
      → count_if is_record queue ≤ suc (count_if is_record (remove_first_record queue))
  unfolding count_if remove_first_record
  count-remove_first_record [] = omega arith
  count-remove_first_record (x ∷ queue) = ground (arith, count-remove_first_record queue)

  count-remove_first_record_eq :
      (queue : List Event)
      → 0 < count_if is_record queue
      → suc (count_if is_record (remove_first_record queue)) ≡ count_if is_record queue
  unfolding count_if remove_first_record
  count-remove_first_record_eq [] h = absurd (omega arith)
  count-remove_first_record_eq (x ∷ queue) h = ground (arith, count-remove_first_record_eq queue)

  cleared-remove_first_record :
      (queue : List Event)
      → count_if is_cleared (remove_first_record queue) ≡ count_if is_cleared queue
  unfolding count_if remove_first_record is_record is_cleared
  cleared-remove_first_record [] = refl
  cleared-remove_first_record (x ∷ queue) = ground (arith, cleared-remove_first_record queue)

  All-remove_first_record {κ} :
      (P : Event → Type κ) (queue : List Event) → All P queue → All P (remove_first_record queue)
  unfolding remove_first_record
  All-remove_first_record P [] h = tt
  All-remove_first_record P (x ∷ queue) h = ground (arith, All-remove_first_record P queue h.1)

  any-remove_first_record :
      (p : Event → Bool) (queue : List Event)
      → any p queue ≡ false
      → any p (remove_first_record queue) ≡ false
  unfolding any remove_first_record
  any-remove_first_record p [] h = refl
  any-remove_first_record p (x ∷ queue) h = ground (arith, any-remove_first_record p queue)

  is_pending-remove_first_record :
      (x : Event) (queue : List Event)
      → is_pending x queue ≡ false
      → is_pending x (remove_first_record queue) ≡ false
  unfolding is_pending
  is_pending-remove_first_record (channel_record room peer encoded historical) queue h =
      any-remove_first_record (has_encoded encoded) queue h
  is_pending-remove_first_record _ queue h = refl

  pub Distinct-remove_first_record :
      (queue : List Event) → Distinct queue → Distinct (remove_first_record queue)
  unfolding remove_first_record
  Distinct-remove_first_record [] h = tt
  Distinct-remove_first_record (x ∷ queue) h =
      ground
        (arith, Distinct-remove_first_record queue h.1, is_pending-remove_first_record x queue h.0)

-- Two records with different bytes differ both ways round.
has_encoded-append :
    (x event : Event) (queue : List Event)
    → is_pending x queue ≡ false
    → is_pending event (x ∷ []) ≡ false
    → is_pending x (queue ++ event ∷ []) ≡ false
unfolding is_pending any has_encoded
has_encoded-append (channel_record room peer encoded historical) (channel_record r p e h) queue a
      b =
    ground (
      arith,
      any-append (has_encoded encoded) queue (channel_record r p e h ∷ []),
      bytes_eq.equals_iff encoded e,
      bytes_eq.equals_iff e encoded,
    )
has_encoded-append (channel_record room peer encoded historical) event queue a b =
    rw (any-append (has_encoded encoded) queue (event ∷ [])) (rw a refl)
has_encoded-append _ event queue a b = refl

pub is_pending-cons :
    (event x : Event) (queue : List Event)
    → is_pending event (x ∷ queue) ≡ (is_pending event (x ∷ []) || is_pending event queue)
unfolding is_pending any
is_pending-cons (channel_record room peer encoded historical) x queue = ground arith
is_pending-cons _ x queue = refl

Distinct-append :
    (queue : List Event) (event : Event)
    → Distinct queue
    → is_pending event queue ≡ false
    → Distinct (queue ++ event ∷ [])
Distinct-append [] event d h = (h, tt)
Distinct-append (x ∷ queue) event d h = ground (
  arith,
  is_pending-cons event x queue,
  has_encoded-append x event queue d.0,
  Distinct-append queue event d.1,
)

one_kind :
    (event : Event) {room : RoomHandle}
    → channel_of event ≡ some room
    → is_record event ≡ not (is_cleared event)
unfolding channel_of is_record is_cleared
one_kind event h = ground arith

pub is_pending-nil : (event : Event) → is_pending event [] ≡ false
unfolding is_pending any
is_pending-nil (channel_record room peer encoded historical) = refl
is_pending-nil _ = refl

remove_first_record-IsQueue :
    (room : RoomHandle) (queue : List Event)
    → IsQueue room queue
    → 0 < count_if is_record queue
    → IsQueue room (remove_first_record queue)
      × (count_if is_record (remove_first_record queue) < max_records)
remove_first_record-IsQueue room queue h pos = (
  record {
    bounded = omega (arith, count-remove_first_record_eq queue pos, h.bounded);
    one_clear = rw cleared-remove_first_record h.one_clear;
    in_room = All-remove_first_record (InRoom room) queue h.in_room;
    distinct = Distinct-remove_first_record queue h.distinct;
  },
  omega (arith, count-remove_first_record_eq queue pos, h.bounded),
)

pub count_of_is_full :
    (queue : List Event) → is_full queue ≡ true → max_records ≤ count_if is_record queue
unfolding is_full
count_of_is_full queue h = ground arith

pub count_of_not-is_full :
    (queue : List Event) → is_full queue ≡ false → count_if is_record queue < max_records
unfolding is_full
count_of_not-is_full queue h = ground arith

make_space-IsQueue :
    (room : RoomHandle) (queue : List Event)
    → IsQueue room queue
    → IsQueue room (make_space queue) × (count_if is_record (make_space queue) < max_records)
unfolding make_space
make_space-IsQueue room queue h = elim (Bool-cases (is_full queue)) [
  | inl full ↦
      let many = count_of_is_full queue full in
      rw full (remove_first_record-IsQueue room queue h (omega arith))
  | inr space ↦ rw space (h, count_of_not-is_full queue space)
]

append-IsQueue :
    (room : RoomHandle) (queue : List Event) (event : Event)
    → IsQueue room queue
    → count_if is_record queue < max_records
    → is_cleared event ≡ false
    → is_pending event queue ≡ false
    → channel_of event ≡ some room
    → IsQueue room (queue ++ event ∷ [])
unfolding count_if
append-IsQueue room queue event h space c p e = record {
  bounded = ground (arith, count_if-append is_record queue (event ∷ []));
  one_clear = ground (arith, count_if-append is_cleared queue (event ∷ []), h.one_clear);
  in_room = All-append (InRoom room) queue (event ∷ []) h.in_room (e, tt);
  distinct = Distinct-append queue event h.distinct p;
}

-- `make_space` removes nothing but a record.
is_pending-make_space :
    (event : Event) (queue : List Event)
    → is_pending event queue ≡ false
    → is_pending event (make_space queue) ≡ false
unfolding make_space
is_pending-make_space event queue h = ground (arith, is_pending-remove_first_record event queue h)

clear-IsQueue :
    (room : RoomHandle) (event : Event) → channel_of event ≡ some room → IsQueue room (event ∷ [])
unfolding count_if
clear-IsQueue room event e = record {
  bounded = ground arith;
  one_clear = ground arith;
  in_room = (e, tt);
  distinct = (is_pending-nil event, tt);
}

pub enqueue-IsQueue :
    (room : RoomHandle) (queue : List Event) (event : Event)
    → IsQueue room queue
    → channel_of event ≡ some room
    → IsQueue room (enqueue queue event).0
unfolding enqueue
enqueue-IsQueue room queue event h e = elim (Bool-cases (is_cleared event)) [
  | inl c ↦ rw c (clear-IsQueue room event e)
  | inr c ↦ elim (Bool-cases (is_pending event queue)) [
    | inl p ↦ rw (c, p) h
    | inr p ↦
        let (kept, space) = make_space-IsQueue room queue h in
        rw (c, p)
          (append-IsQueue room (make_space queue) event kept space c
            (is_pending-make_space event queue p) e)
  ]
]

-- An event that comes in leaves a queue that is not empty.
pub enqueue-pos : (queue : List Event) (event : Event) → 0 < length (enqueue queue event).0
unfolding enqueue
enqueue-pos [] event =
    ground (arith, is_pending-nil event, length-append (make_space []) (event ∷ []))
enqueue-pos (x ∷ queue) event = ground (arith, length-append (make_space (x ∷ queue)) (event ∷ []))

pub tail-IsQueue :
    (room : RoomHandle) (event : Event) (queue : List Event)
    → IsQueue room (event ∷ queue)
    → IsQueue room queue
unfolding count_if
tail-IsQueue room event queue h = record {
  bounded = ground (arith, h.bounded);
  one_clear = ground (arith, h.one_clear);
  in_room = h.in_room.1;
  distinct = h.distinct.1;
}
