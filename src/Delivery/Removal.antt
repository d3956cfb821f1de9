-- ===== src/Delivery/Removal.antt =====
-- `forget` and `block_author` of node/history/delivery.rs keep the invariant.
use mathlib.Core.Path.{subst}
use xivlantern_dalamud.Prelude.{
  ◌<◌, ◌≡◌, refl, sym, ◌∙◌, Bool, false, not, Option, none, some, List, [], ◌∷◌, arith,
  if◌then◌else◌, length, any, count_if, retain, nat_eq, ◌==◌,
}
use xivlantern_dalamud.HashMap
use xivlantern_dalamud.HashMap.{HashMap}
use xivlantern_dalamud.HashMap.Laws
use xivlantern_dalamud.Event.{Event, RoomHandle, PeerId}
use xivlantern_dalamud.Delivery.{
  Delivery, channel_of, push_to, push, is_by, is_empty, block_author, forget,
}
use xivlantern_dalamud.Delivery.Queue.{IsQueue}
use xivlantern_dalamud.Delivery.Purge.{retain-IsQueue}
use xivlantern_dalamud.Delivery.Valid.{IsValid, contains_key-remove}

count-retain_key :
    (p : RoomHandle → Bool) (ready : List RoomHandle) (r : RoomHandle)
    → count_if (nat_eq.equals r) (retain p ready)
      ≡ (if p r then count_if (nat_eq.equals r) ready else 0)
unfolding count_if retain
count-retain_key p [] r = ground arith
count-retain_key p (x ∷ ready) r = ground (arith, count-retain_key p ready r)

pub forget-IsValid : (d : Delivery) (room : RoomHandle) → IsValid d → IsValid (forget d room)
unfolding forget
forget-IsValid d room h = record {
  rooms_distinct = Laws.remove-IsMap d.rooms room h.rooms_distinct;
  ready_once = λ r. ground (
    arith,
    h.ready_once r,
    contains_key-remove d.rooms room r,
    count-retain_key (λ k. not (k == room)) d.ready r,
  );
  queue_valid = λ r q e. h.queue_valid r q (ground (arith, Laws.get-remove d.rooms room r));
  queue_active = λ r c. ground (
    arith,
    h.queue_active r,
    contains_key-remove d.rooms room r,
    contains_key-remove d.active room r,
  );
}

-- The tables of `block_author` before the ready list is cut.
abbrev pub kept_rooms : Delivery → PeerId → HashMap RoomHandle (List Event)
kept_rooms d author =
    HashMap.retain (λ room queue. not (is_empty queue))
      (HashMap.map_values (retain (λ event. not (is_by author event))) d.rooms)

abbrev pub keep_queue : PeerId → List Event → Option (List Event)
keep_queue author queue =
    let kept = retain (λ event. not (is_by author event)) queue in
    if is_empty kept then none else some kept

-- How each room reads after the records of one author are dropped.
pub get-kept_rooms :
    (d : Delivery) (author : PeerId) (r : RoomHandle)
    → IsValid d
    → HashMap.get (kept_rooms d author) r
      ≡ elim (HashMap.get d.rooms r) [ none ↦ none | some queue ↦ keep_queue author queue ]
get-kept_rooms d author r h =
    let purge = retain (λ event. not (is_by author event)) in
    ground (
      arith,
      Laws.get-retain (λ room queue. not (is_empty queue)) (HashMap.map_values purge d.rooms) r
          (Laws.map_values-IsMap purge d.rooms h.rooms_distinct),
      Laws.get-map_values purge d.rooms r,
    )

purged-IsQueue :
    (author : PeerId) (r : RoomHandle) (queue kept : List Event)
    → IsQueue r queue
    → keep_queue author queue ≡ some kept
    → IsQueue r kept × (0 < length kept)
unfolding is_empty
purged-IsQueue author r queue kept valid e =
    let (same, pos) = not_empty (retain (λ event. not (is_by author event)) queue) e in
    subst (λ q. IsQueue r q × (0 < length q)) same
      (retain-IsQueue (λ event. not (is_by author event)) r queue valid, pos)
  where
    not_empty :
        (xs : List Event)
        → (if is_empty xs then none else some xs) ≡ some kept
        → (xs ≡ kept) × (0 < length xs)
    not_empty [] h = cc
    not_empty (x ∷ xs) h = (ground arith, omega arith)

purged-IsQueue_valid :
    (d : Delivery) (author : PeerId) (r : RoomHandle) (kept : List Event)
    → IsValid d
    → HashMap.get (kept_rooms d author) r ≡ some kept
    → IsQueue r kept × (0 < length kept)
purged-IsQueue_valid d author r kept h e =
    by_lookup (HashMap.get d.rooms r) refl (get-kept_rooms d author r h)
  where
    by_lookup :
        (o : Option (List Event))
        → HashMap.get d.rooms r ≡ o
        → HashMap.get (kept_rooms d author) r
          ≡ elim o [ none ↦ none | some queue ↦ keep_queue author queue ]
        → IsQueue r kept × (0 < length kept)
    by_lookup none found reads = absurd (cc)
    by_lookup (some queue) found reads =
        purged-IsQueue author r queue kept (h.queue_valid r queue found).0 (sym reads ∙ e)

pub block_author-IsValid :
    (d : Delivery) (author : PeerId) → IsValid d → IsValid (block_author d author)
unfolding block_author
block_author-IsValid d author h = record {
  rooms_distinct = Laws.retain-IsMap _ _ (Laws.map_values-IsMap _ d.rooms h.rooms_distinct);
  ready_once = λ r. ground (
    arith,
    h.ready_once r,
    count-retain_key (HashMap.contains_key (kept_rooms d author)) d.ready r,
    Laws.contains_key-get (kept_rooms d author) r,
    Laws.contains_key-get d.rooms r,
    get-kept_rooms d author r h,
  );
  queue_valid = λ r q e. purged-IsQueue_valid d author r q h e;
  queue_active = λ r c. h.queue_active r (
      ground (
        arith,
        Laws.contains_key-get (kept_rooms d author) r,
        Laws.contains_key-get d.rooms r,
        get-kept_rooms d author r h,
      ));
}

any-retain-not :
    (p : Event → Bool) (xs : List Event) → any p (retain (λ event. not (p event)) xs) ≡ false
unfolding any retain
any-retain-not p [] = refl
any-retain-not p (x ∷ xs) = ground (arith, any-retain-not p xs)

keep_queue-eq-some :
    (author : PeerId) (queue kept : List Event)
    → keep_queue author queue ≡ some kept
    → kept ≡ retain (λ event. not (is_by author event)) queue
unfolding is_empty
keep_queue-eq-some author queue kept h =
    not_empty (retain (λ event. not (is_by author event)) queue) h
  where
    not_empty : (xs : List Event) → (if is_empty xs then none else some xs) ≡ some kept → kept ≡ xs
    not_empty [] e = absurd (cc)
    not_empty (x ∷ xs) e = ground arith

-- After an author is blocked nothing of theirs waits in any room, and what else waited still does, in
-- order.
pub block_author_lem :
    (d : Delivery) (author : PeerId) (room : RoomHandle) (kept : List Event)
    → IsValid d
    → HashMap.get (block_author d author).rooms room ≡ some kept
    → (any (is_by author) kept ≡ false)
      × ((queue : List Event) × (HashMap.get d.rooms room ≡ some queue)
          × (kept ≡ retain (λ event. not (is_by author event)) queue))
unfolding block_author
block_author_lem d author room kept h e =
    by_lookup (HashMap.get d.rooms room) refl (get-kept_rooms d author room h)
  where
    by_lookup :
        (o : Option (List Event))
        → HashMap.get d.rooms room ≡ o
        → HashMap.get (kept_rooms d author) room
          ≡ elim o [ none ↦ none | some queue ↦ keep_queue author queue ]
        → (any (is_by author) kept ≡ false)
          × ((queue : List Event) × (HashMap.get d.rooms room ≡ some queue)
              × (kept ≡ retain (λ event. not (is_by author event)) queue))
    by_lookup none found reads = absurd (cc)
    by_lookup (some queue) found reads =
        let same = keep_queue-eq-some author queue kept (sym reads ∙ e) in
        (rw same (any-retain-not (is_by author) queue), (queue, found, same))

-- A push for a room that was left changes nothing: late delivery does not bring it back.
pub push-forget :
    (d : Delivery) (room : RoomHandle) (event : Event)
    → channel_of event ≡ some room
    → push (forget d room) event ≡ some (forget d room, false)
unfolding push push_to forget
push-forget d room event e =
    ground (arith, contains_key-remove d.active room room, nat_eq.equals_iff room room)
