-- ===== src/Delivery/Purge.antt =====
-- `block_author` of node/history/delivery.rs on one room's queue.
use xivlantern_dalamud.Prelude.{
  ◌≤◌, ◌≡◌, refl, Bool, false, List, [], ◌∷◌, arith, any, count_if, All, retain,
}
use xivlantern_dalamud.Event.{Event, channel_record, RoomHandle}
use xivlantern_dalamud.Delivery.{is_record, is_cleared, has_encoded, is_pending}
use xivlantern_dalamud.Delivery.Queue.{IsQueue, Distinct, InRoom}

module _ (p : Event → Bool) where
  count-retain :
      (q : Event → Bool) (queue : List Event) → count_if q (retain p queue) ≤ count_if q queue
  unfolding count_if retain
  count-retain q [] = omega arith
  count-retain q (x ∷ queue) = ground (arith, count-retain q queue)

  pub All-retain {κ} :
      (P : Event → Type κ) (queue : List Event) → All P queue → All P (retain p queue)
  unfolding retain
  All-retain P [] h = tt
  All-retain P (x ∷ queue) h = ground (arith, All-retain P queue h.1)

  any-retain :
      (q : Event → Bool) (queue : List Event) → any q queue ≡ false → any q (retain p queue) ≡ false
  unfolding any retain
  any-retain q [] h = refl
  any-retain q (x ∷ queue) h = ground (arith, any-retain q queue)

  is_pending-retain :
      (event : Event) (queue : List Event)
      → is_pending event queue ≡ false
      → is_pending event (retain p queue) ≡ false
  unfolding is_pending
  is_pending-retain (channel_record room peer encoded historical) queue h =
      any-retain (has_encoded encoded) queue h
  is_pending-retain _ queue h = refl

  Distinct-retain : (queue : List Event) → Distinct queue → Distinct (retain p queue)
  unfolding retain
  Distinct-retain [] h = tt
  Distinct-retain (x ∷ queue) h =
      ground (arith, Distinct-retain queue h.1, is_pending-retain x queue h.0)

  -- Whatever is dropped, the queue keeps its invariant.
  pub retain-IsQueue :
      (room : RoomHandle) (queue : List Event) → IsQueue room queue → IsQueue room (retain p queue)
  retain-IsQueue room queue h = record {
    bounded = omega (arith, count-retain is_record queue, h.bounded);
    one_clear = omega (arith, count-retain is_cleared queue, h.one_clear);
    in_room = All-retain (InRoom room) queue h.in_room;
    distinct = Distinct-retain queue h.distinct;
  }
