-- ===== src/Delivery/Run.antt =====
-- Any sequence of calls of node/history/delivery.rs.
use mathlib.Core.Path.{subst}
use xivlantern_dalamud.Prelude.{
  ◌+◌, ◌≤◌, ◌≡◌, refl, Option, none, some, List, [], ◌∷◌, length, All, nat_eq,
}
use xivlantern_dalamud.HashMap
use xivlantern_dalamud.Event.{Event, RoomHandle, PeerId}
use xivlantern_dalamud.Delivery.{
  Delivery, empty, max_records, register, channel_of, push_to, push, pop, block_author, forget,
}
use xivlantern_dalamud.Delivery.Queue.{IsQueue, length-le_of_IsQueue}
use xivlantern_dalamud.Delivery.Valid.{
  IsValid, empty-IsValid, register-IsValid, push_to-IsValid, pop-IsValid,
}
use xivlantern_dalamud.Delivery.Removal.{block_author-IsValid, forget-IsValid}

pub data Call : Type 0 where
  register_room : RoomHandle → Call
  push_event : Event → Call
  pop_event : Call
  block : PeerId → Call
  forget_room : RoomHandle → Call

-- `none` is a panic.
unfoldable pub step : Delivery → Call → Option Delivery
step d (register_room room) = some (register d room)
step d (push_event event) = elim (push d event) [ none ↦ none | some r ↦ some r.0 ]
step d pop_event = elim (pop d) [ none ↦ none | some r ↦ some r.0 ]
step d (block author) = some (block_author d author)
step d (forget_room room) = some (forget d room)

unfoldable pub run : Delivery → List Call → Option Delivery
run d [] = some d
run d (call ∷ calls) = elim (step d call) [ none ↦ none | some d' ↦ run d' calls ]

-- The node pushes channel events only.
abbrev pub IsChannelCall : Call → Type 0
IsChannelCall (push_event event) = (room : RoomHandle) × (channel_of event ≡ some room)
IsChannelCall _ = Unit

step-IsValid :
    (d : Delivery) (call : Call)
    → IsValid d
    → IsChannelCall call
    → (d' : Delivery) × (step d call ≡ some d') × IsValid d'
unfolding step push
step-IsValid d (register_room room) h c = (register d room, refl, register-IsValid d room h)
step-IsValid d (push_event event) h (room, c) =
    ((push_to d room event).0, rw (c, step, push) refl, push_to-IsValid d room event h c)
step-IsValid d pop_event h c =
    let (r, popped, valid) = pop-IsValid d h in (r.0, rw (popped, step) refl, valid)
step-IsValid d (block author) h c = (block_author d author, refl, block_author-IsValid d author h)
step-IsValid d (forget_room room) h c = (forget d room, refl, forget-IsValid d room h)

pub run-IsValid :
    (d : Delivery) (calls : List Call)
    → IsValid d
    → All IsChannelCall calls
    → (d' : Delivery) × (run d calls ≡ some d') × IsValid d'
unfolding run
run-IsValid d [] h c = (d, refl, h)
run-IsValid d (call ∷ calls) h c =
    let (next, stepped, valid) = step-IsValid d call h c.0 in
    let (last, ran, kept) = run-IsValid next calls valid c.1 in (last, rw (stepped, run) ran, kept)

-- From the empty state, no sequence of calls with channel events panics, and in the state that it
-- ends in every room has at most 256 records and one clear acknowledgement pending.
pub run_bounded :
    (calls : List Call)
    → All IsChannelCall calls
    → (d : Delivery) × (run empty calls ≡ some d)
      × ((room : RoomHandle) (queue : List Event)
          → HashMap.get d.rooms room ≡ some queue
          → IsQueue room queue × (length queue ≤ max_records + 1))
run_bounded calls c =
    let (d, ran, h) = run-IsValid empty calls empty-IsValid c in
    (
      d,
      ran,
      λ room queue e.
          let valid = (h.queue_valid room queue e).0 in
          (valid, length-le_of_IsQueue room queue valid),
    )

-- Every state that calls lead to from the empty one is valid.
pub run-empty-IsValid :
    (calls : List Call) (d : Delivery)
    → All IsChannelCall calls
    → run empty calls ≡ some d
    → IsValid d
run-empty-IsValid calls d c ran =
    let (d', ran', valid) = run-IsValid empty calls empty-IsValid c in
    let same : d' ≡ d = cc in subst IsValid same valid
