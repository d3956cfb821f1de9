-- ===== src/Delivery/Valid.antt =====
-- The invariant of node/history/delivery.rs, and that every operation keeps it.
use mathlib.Core.Option.{get_or}
use mathlib.Core.Path.{subst₂}
use xivlantern_dalamud.Prelude.{
  ℕ, ◌<◌, ◌≡◌, refl, Bool, true, false, Option, none, some, List, [], ◌∷◌, ◌++◌, arith,
  if◌then◌else◌, length, count_if, count_if-append, nat_eq, bytes_eq, ◌==◌, Bool-cases,
  Option-cases, inl, inr, ◌⊎◌,
}
use xivlantern_dalamud.HashMap
use xivlantern_dalamud.HashMap.{HashMap, IsMap}
use xivlantern_dalamud.HashMap.Laws
use xivlantern_dalamud.Event.{Event, RoomHandle}
use xivlantern_dalamud.Delivery.{
  Delivery, empty, register, channel_of, push_to, pop_from, pop_ready, pop,
}
use xivlantern_dalamud.Delivery.Queue.{
  IsQueue, []-IsQueue, enqueue-IsQueue, enqueue-pos, tail-IsQueue,
}

-- 1 for a key that is present.
abbrev pub one_if : Bool → ℕ
one_if true = 1
one_if false = 0

-- A room stands in the ready list once if it has a queue, and not at all if it has none; a queue is
-- never empty, keeps its own invariant, and belongs to a joined room.
pub record IsValid (d : Delivery) : Type 0 where
  pub rooms_distinct : IsMap d.rooms
  pub ready_once :
      (room : RoomHandle)
      → count_if (nat_eq.equals room) d.ready ≡ one_if (HashMap.contains_key d.rooms room)
  pub queue_valid :
      (room : RoomHandle) (queue : List Event)
      → HashMap.get d.rooms room ≡ some queue
      → IsQueue room queue × (0 < length queue)
  pub queue_active :
      (room : RoomHandle)
      → HashMap.contains_key d.rooms room ≡ true
      → HashMap.contains_key d.active room ≡ true

pub empty-IsValid : IsValid empty
unfolding count_if HashMap.contains_key HashMap.get
empty-IsValid = record {
  rooms_distinct = tt;
  ready_once = λ room. refl;
  queue_valid = λ room queue h. ground arith;
  queue_active = λ room h. ground arith;
}

contains_key-insert :
    {V : Type 0} (m : HashMap ℕ V) (k j : ℕ) (v : V)
    → HashMap.contains_key (HashMap.insert m k v) j
      ≡ (if k == j then true else HashMap.contains_key m j)
contains_key-insert m k j v = ground (
  arith,
  Laws.contains_key-get (HashMap.insert m k v) j,
  Laws.contains_key-get m j,
  Laws.get-insert m k j v,
)

pub contains_key-remove :
    {V : Type 0} (m : HashMap ℕ V) (k j : ℕ)
    → HashMap.contains_key (HashMap.remove m k) j
      ≡ (if k == j then false else HashMap.contains_key m j)
contains_key-remove m k j = ground (
  arith,
  Laws.contains_key-get (HashMap.remove m k) j,
  Laws.contains_key-get m j,
  Laws.get-remove m k j,
)

pub register-IsValid : (d : Delivery) (room : RoomHandle) → IsValid d → IsValid (register d room)
unfolding register
register-IsValid d room h = record {
  rooms_distinct = h.rooms_distinct;
  ready_once = h.ready_once;
  queue_valid = h.queue_valid;
  queue_active = λ r c. ground (arith, contains_key-insert d.active room r tt, h.queue_active r c);
}

-- The queue that `entry(room).or_default()` finds.
pub found-IsQueue :
    (d : Delivery) (room : RoomHandle)
    → IsValid d
    → IsQueue room (get_or (HashMap.get d.rooms room) [])
found-IsQueue d room h = by_lookup (HashMap.get d.rooms room) (h.queue_valid room)
  where
    by_lookup :
        (o : Option (List Event))
        → ((queue : List Event) → o ≡ some queue → IsQueue room queue × (0 < length queue))
        → IsQueue room (get_or o [])
    by_lookup none q = []-IsQueue room
    by_lookup (some queue) q = (q queue refl).0

-- A room whose queue has just been stored, in its place in the ready list.
store-IsValid :
    (d : Delivery) (room : RoomHandle) (queue : List Event) (ready : List RoomHandle)
    → IsValid d
    → HashMap.contains_key d.active room ≡ true
    → IsQueue room queue
    → 0 < length queue
    → ((r : RoomHandle)
        → count_if (nat_eq.equals r) ready
          ≡ (if room == r then 1 else one_if (HashMap.contains_key d.rooms r)))
    → IsValid (record d { rooms = HashMap.insert d.rooms room queue; ready = ready })
store-IsValid d room queue ready h active valid pos counts = record {
  rooms_distinct = Laws.insert-IsMap d.rooms room queue h.rooms_distinct;
  ready_once = λ r. ground (arith, counts r, contains_key-insert d.rooms room r queue);
  queue_valid =
      λ r q e. stored r q (Bool-cases (room == r)) (Laws.get-insert d.rooms room r queue) e;
  queue_active = λ r c. ground (arith, contains_key-insert d.rooms room r queue, h.queue_active r);
}
  where
    stored :
        (r : RoomHandle) (q : List Event)
        → ((room == r) ≡ true) ⊎ ((room == r) ≡ false)
        → HashMap.get (HashMap.insert d.rooms room queue) r
          ≡ (if room == r then some queue else HashMap.get d.rooms r)
        → HashMap.get (HashMap.insert d.rooms room queue) r ≡ some q
        → IsQueue r q × (0 < length q)
    stored r q (inl same) found e =
        let key : room ≡ r = (nat_eq.equals_iff room r).0 same in
        let value : queue ≡ q = ground arith in
        subst₂ (λ a b. IsQueue a b × (0 < length b)) key value (valid, pos)
    stored r q (inr other) found e = h.queue_valid r q (ground arith)

joined_once :
    (d : Delivery) (room : RoomHandle)
    → IsValid d
    → (r : RoomHandle)
    → count_if
        (nat_eq.equals r)
        (if HashMap.contains_key d.rooms room then d.ready else d.ready ++ room ∷ [])
      ≡ (if room == r then 1 else one_if (HashMap.contains_key d.rooms r))
unfolding count_if
joined_once d room h r = ground (
  arith,
  h.ready_once r,
  h.ready_once room,
  count_if-append (nat_eq.equals r) d.ready (room ∷ []),
)

pub push_to-IsValid :
    (d : Delivery) (room : RoomHandle) (event : Event)
    → IsValid d
    → channel_of event ≡ some room
    → IsValid (push_to d room event).0
unfolding push_to
push_to-IsValid d room event h e = elim (Bool-cases (HashMap.contains_key d.active room)) [
  | inl active ↦ rw active (
      store-IsValid d room _ _ h active
        (enqueue-IsQueue room (get_or (HashMap.get d.rooms room) []) event (found-IsQueue d room h)
          e)
        (enqueue-pos (get_or (HashMap.get d.rooms room) []) event) (joined_once d room h))
  | inr left ↦ rw left h
]

-- A room that gives up its queue leaves both tables.
drop-IsValid :
    (d : Delivery) (room : RoomHandle) (rest : List RoomHandle)
    → IsValid d
    → d.ready ≡ room ∷ rest
    → IsValid (record d { rooms = HashMap.remove d.rooms room; ready = rest })
unfolding count_if
drop-IsValid d room rest h e = record {
  rooms_distinct = Laws.remove-IsMap d.rooms room h.rooms_distinct;
  ready_once = λ r. ground (
    arith,
    rw e at (h.ready_once r),
    rw e at (h.ready_once room),
    contains_key-remove d.rooms room r,
  );
  queue_valid = λ r q e. h.queue_valid r q (ground (arith, Laws.get-remove d.rooms room r));
  queue_active = λ r c. h.queue_active r (ground (arith, contains_key-remove d.rooms room r));
}

-- A room that keeps its queue goes behind the others.
rotate-IsValid :
    (d : Delivery) (room : RoomHandle) (rest : List RoomHandle) (queue : List Event)
    → IsValid d
    → d.ready ≡ room ∷ rest
    → HashMap.contains_key d.rooms room ≡ true
    → IsQueue room queue
    → 0 < length queue
    → IsValid (record d { rooms = HashMap.insert d.rooms room queue; ready = rest ++ room ∷ [] })
unfolding count_if
rotate-IsValid d room rest queue h e there valid pos =
    store-IsValid d room queue (rest ++ room ∷ []) h (h.queue_active room there) valid pos λ r.
      ground (
        arith,
        rw e at (h.ready_once r),
        rw e at (h.ready_once room),
        count_if-append (nat_eq.equals r) rest (room ∷ []),
      )

pub pop_from-IsValid :
    (d : Delivery) (room : RoomHandle) (rest : List RoomHandle) (queue : List Event)
    → IsValid d
    → d.ready ≡ room ∷ rest
    → HashMap.get d.rooms room ≡ some queue
    → IsValid (pop_from d room rest queue).0
unfolding pop_from
pop_from-IsValid d room rest [] h e found = drop-IsValid d room rest h e
pop_from-IsValid d room rest (event ∷ []) h e found = drop-IsValid d room rest h e
pop_from-IsValid d room rest (event ∷ next ∷ queue) h e found =
    rotate-IsValid d room rest (next ∷ queue) h e
      (ground (arith, Laws.contains_key-get d.rooms room))
      (tail-IsQueue room event (next ∷ queue) (h.queue_valid room _ found).0) (omega arith)

-- A ready room has a queue.
pub queue_of_ready :
    (d : Delivery) (room : RoomHandle) (rest : List RoomHandle)
    → IsValid d
    → d.ready ≡ room ∷ rest
    → (queue : List Event) × (HashMap.get d.rooms room ≡ some queue) × (0 < length queue)
unfolding count_if
queue_of_ready d room rest h e = by_lookup (Option-cases (HashMap.get d.rooms room))
  where
    by_lookup :
        (HashMap.get d.rooms room ≡ none)
          ⊎ ((queue : List Event) × (HashMap.get d.rooms room ≡ some queue))
        → (queue : List Event) × (HashMap.get d.rooms room ≡ some queue) × (0 < length queue)
    by_lookup (inl gone) =
        absurd (ground (arith, rw e at (h.ready_once room), Laws.contains_key-get d.rooms room))
    by_lookup (inr (queue, found)) = (queue, found, (h.queue_valid room queue found).1)

-- `pop` never reaches its `unwrap` on a missing queue, and leaves a valid state.
pub pop-IsValid :
    (d : Delivery) → IsValid d → (r : Delivery × Option Event) × (pop d ≡ some r) × IsValid r.0
unfolding pop
pop-IsValid d h = by_ready d.ready refl
  where
    by_ready :
        (ready : List RoomHandle)
        → d.ready ≡ ready
        → (r : Delivery × Option Event) × (pop_ready d ready ≡ some r) × IsValid r.0
    by_ready [] e = ((d, none), refl, h)
    by_ready (room ∷ rest) e =
        let (queue, found, pos) = queue_of_ready d room rest h e in
        (
          pop_from d room rest queue,
          rw (found, pop_ready) refl,
          pop_from-IsValid d room rest queue h e found,
        )
