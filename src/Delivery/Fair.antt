-- ===== src/Delivery/Fair.antt =====
-- `pop` of node/history/delivery.rs serves the ready rooms in turn.
use xivlantern_dalamud.Prelude.{
  ℕ, zero, suc, ◌≡◌, refl, sym, ◌∙◌, append-nil, false, Option, none, some, List, [], ◌∷◌, ◌++◌,
  arith, length, count_if, count_if-append, nat_eq, ◌==◌, append_assoc,
}
use xivlantern_dalamud.HashMap
use xivlantern_dalamud.HashMap.Laws
use xivlantern_dalamud.Event.{Event, RoomHandle}
use xivlantern_dalamud.Delivery.{Delivery, pop_from, pop_ready, pop}
use xivlantern_dalamud.Delivery.Valid.{IsValid, pop_from-IsValid, queue_of_ready}

-- `n` calls of `pop`.
unfoldable pub pops : ℕ → Delivery → Option Delivery
pops zero d = some d
pops (suc n) d = elim (pop d) [ none ↦ none | some r ↦ pops n r.0 ]

-- A room goes behind the others if it has more to give.
again : RoomHandle → List Event → List RoomHandle
again room (event ∷ next ∷ queue) = room ∷ []
again room _ = []

ready-pop_from :
    (d : Delivery) (room : RoomHandle) (rest : List RoomHandle) (queue : List Event)
    → (pop_from d room rest queue).0.ready ≡ rest ++ again room queue
unfolding pop_from again
ready-pop_from d room rest [] = sym (append-nil rest)
ready-pop_from d room rest (event ∷ []) = sym (append-nil rest)
ready-pop_from d room rest (event ∷ next ∷ queue) = refl

get-pop_from :
    (d : Delivery) (first room : RoomHandle) (rest : List RoomHandle) (queue : List Event)
    → (first == room) ≡ false
    → HashMap.get (pop_from d first rest queue).0.rooms room ≡ HashMap.get d.rooms room
unfolding pop_from
get-pop_from d first room rest [] n = ground (arith, Laws.get-remove d.rooms first room)
get-pop_from d first room rest (event ∷ []) n = ground (arith, Laws.get-remove d.rooms first room)
get-pop_from d first room rest (event ∷ next ∷ queue) n =
    ground (arith, Laws.get-insert d.rooms first room (next ∷ queue))

pop_lem :
    (d : Delivery) (first : RoomHandle) (rest : List RoomHandle) (queue : List Event)
    → d.ready ≡ first ∷ rest
    → HashMap.get d.rooms first ≡ some queue
    → pop d ≡ some (pop_from d first rest queue)
unfolding pop
pop_lem d first rest queue e found = rw (e, pop_ready) (rw (found, pop_ready) refl)

event-pop_from :
    (d : Delivery) (room : RoomHandle) (rest : List RoomHandle) (event : Event) (queue : List Event)
    → (pop_from d room rest (event ∷ queue)).1 ≡ some event
unfolding pop_from
event-pop_from d room rest event [] = refl
event-pop_from d room rest event (next ∷ queue) = refl

-- A room that stands second or later is not the first one.
first_ne :
    (d : Delivery) (first : RoomHandle) (before : List RoomHandle) (room : RoomHandle)
    (after : List RoomHandle)
    → IsValid d
    → d.ready ≡ first ∷ (before ++ room ∷ after)
    → (first == room) ≡ false
unfolding count_if
first_ne d first before room after h e =
    ground (
      arith,
      rw e at (h.ready_once room),
      count_if-append (nat_eq.equals room) before (room ∷ after),
    )

-- A room with `before` ahead of it is served by the pop that follows `length before` pops, and with
-- the event that was first in its queue all along.
pub pops_fair :
    (d : Delivery) (before : List RoomHandle) (room : RoomHandle) (after : List RoomHandle)
    (event : Event) (queue : List Event)
    → IsValid d
    → d.ready ≡ before ++ room ∷ after
    → HashMap.get d.rooms room ≡ some (event ∷ queue)
    → (d' : Delivery) × (pops (length before) d ≡ some d')
      × ((r : Delivery × Option Event) × (pop d' ≡ some r) × (r.1 ≡ some event))
unfolding pops
pops_fair d [] room after event queue h e found = (
  d,
  refl,
  (
    pop_from d room after (event ∷ queue),
    pop_lem d room after (event ∷ queue) e found,
    event-pop_from d room after event queue,
  ),
)
pops_fair d (first ∷ before) room after event queue h e found =
    let (held, has, _) = queue_of_ready d first (before ++ room ∷ after) h e in
    let next = (pop_from d first (before ++ room ∷ after) held).0 in
    let (d', ran, served) =
      pops_fair next before room (after ++ again first held) event queue
        (pop_from-IsValid d first (before ++ room ∷ after) held h e has)
        (ready-pop_from d first (before ++ room ∷ after) held
          ∙ append_assoc before (room ∷ after) (again first held))
        (get-pop_from d first room (before ++ room ∷ after) held
            (first_ne d first before room after h e)
          ∙ found) in
    (d', rw (pop_lem d first (before ++ room ∷ after) held e has, pops) ran, served)
