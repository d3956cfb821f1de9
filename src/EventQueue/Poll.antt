-- ===== src/EventQueue/Poll.antt =====
-- What a caller gets from the two event queues of a node.
use xivlantern_dalamud.Prelude.{
  ℕ, zero, suc, ◌≤◌, ◌<◌, ◌≡◌, refl, sym, ◌∙◌, ◌⊎◌, inl, inr, Bool, true, false, not, Option, none,
  some, List, [], ◌∷◌, ◌++◌, arith, length, retain, All, ap,
}
use xivlantern_dalamud.Event.{Event, RoomHandle}
use xivlantern_dalamud.Delivery.{Delivery, channel_of, pop_from, pop_ready, pop}
use xivlantern_dalamud.Delivery.Queue.{InRoom}
use xivlantern_dalamud.Delivery.Valid.{IsValid, pop_from-IsValid, queue_of_ready}
use xivlantern_dalamud.EventQueue.{
  EventQueue, try_recv, pop_history, or_recv, or_history, next_event, put_first, poll_loop, poll,
}

-- An event of the bounded channel, and no record or clear acknowledgement.
unfoldable pub is_plain : Event → Bool
is_plain event = elim (channel_of event) [ none ↦ true | some room ↦ false ]

abbrev pub IsPlain : Event → Type 0
IsPlain event = is_plain event ≡ true

-- Both queues keep their invariants.
pub record IsSound (q : EventQueue) : Type 0 where
  pub history_valid : IsValid q.history
  pub channel_plain : All IsPlain q.channel
  pub in_capacity : length q.channel ≤ q.capacity

-- What `pop` gives in a valid state: nothing, with nothing ready, or an event with a room.
pop_cases :
    (d : Delivery)
    → IsValid d
    → ((pop d ≡ some (d, none)) × (d.ready ≡ []))
      ⊎ ((d' : Delivery) × (event : Event) × (pop d ≡ some (d', some event))
          × IsValid d'
          × (is_plain event ≡ false))
unfolding pop is_plain pop_from pop_ready
pop_cases d h = by_ready d.ready refl
  where
    by_queue :
        (room : RoomHandle) (rest : List RoomHandle) (queue : List Event)
        → d.ready ≡ room ∷ rest
        → All (InRoom room) queue
        → 0 < length queue
        → IsValid (pop_from d room rest queue).0
        → (d' : Delivery) × (event : Event) × (pop_from d room rest queue ≡ (d', some event))
          × IsValid d'
          × (is_plain event ≡ false)
    by_queue room rest [] e inside pos valid = absurd (omega arith)
    by_queue room rest (event ∷ []) e inside pos valid =
        (_, event, refl, valid, rw (inside.0, is_plain) refl)
    by_queue room rest (event ∷ next ∷ queue) e inside pos valid =
        (_, event, refl, valid, rw (inside.0, is_plain) refl)

    by_ready :
        (ready : List RoomHandle)
        → d.ready ≡ ready
        → ((pop_ready d ready ≡ some (d, none)) × (d.ready ≡ []))
          ⊎ ((d' : Delivery) × (event : Event) × (pop_ready d ready ≡ some (d', some event))
              × IsValid d'
              × (is_plain event ≡ false))
    by_ready [] e = inl (refl, e)
    by_ready (room ∷ rest) e =
        let (queue, found, pos) = queue_of_ready d room rest h e in
        let valid = pop_from-IsValid d room rest queue h e found in
        let (d', event, popped, kept, channel) =
          by_queue room rest queue e (h.queue_valid room queue found).0.in_room pos valid in
        inr (d', event, rw (found, pop_ready) (ap some popped), kept, channel)

-- What one round takes out: nothing, with both queues empty, or one event of the queue it was in.
unfoldable Found : EventQueue → EventQueue → Option Event → Type 0
Found q q' none = (q.channel ≡ []) × (q'.channel ≡ []) × (q'.history.ready ≡ [])
Found q q' (some event) = retain is_plain (event ∷ []) ++ q'.channel ≡ q.channel

IsNext : EventQueue → Option (EventQueue × Option Event) → Type 0
IsNext q r =
    (q' : EventQueue) × (found : Option Event) × (r ≡ some (q', found))
    × IsSound q'
    × Found q q' found

-- The channel gives its first event.
recv_some :
    (q : EventQueue) (event : Event) (channel : List Event)
    → IsSound q
    → q.channel ≡ event ∷ channel
    → IsNext q (some (record q { channel = channel }, some event))
unfolding Found IsNext retain
recv_some q event channel h e =
    let plain = rw e at h.channel_plain in
    (
      record q { channel = channel },
      some event,
      refl,
      record {
        history_valid = h.history_valid;
        channel_plain = plain.1;
        in_capacity = omega (arith, h.in_capacity, ap length e);
      },
      rw (plain.0) (sym e),
    )

recv_lem :
    (q : EventQueue) (channel : List Event)
    → IsSound q
    → q.channel ≡ channel
    → q.history.ready ≡ []
    → IsNext q (some (try_recv q channel))
unfolding try_recv Found IsNext
recv_lem q [] h e ready = (q, none, refl, h, (e, e, ready))
recv_lem q (event ∷ channel) h e ready = recv_some q event channel h e

pop_history_lem :
    (q : EventQueue) (r : Delivery × Option Event)
    → pop q.history ≡ some r
    → pop_history q ≡ some (record q { history = r.0 }, r.1)
unfolding pop_history
pop_history_lem q r popped = rw (popped, pop_history) refl

-- An event of the record queue leaves the channel alone.
record_lem :
    (q : EventQueue) (d' : Delivery) (event : Event)
    → IsSound q
    → IsValid d'
    → is_plain event ≡ false
    → IsNext q (some (record q { history = d' }, some event))
unfolding Found IsNext retain
record_lem q d' event h valid channel = (
  record q { history = d' },
  some event,
  refl,
  record { history_valid = valid; channel_plain = h.channel_plain; in_capacity = h.in_capacity },
  rw (channel) refl,
)

history_first : (q : EventQueue) → IsSound q → IsNext q (next_event true q)
unfolding next_event or_recv
history_first q h = elim (pop_cases q.history h.history_valid) [
  | inl (popped, ready) ↦
      rw (pop_history_lem q (q.history, none) popped, next_event)
        (recv_lem q q.channel h refl ready)
  | inr (d', event, popped, valid, channel) ↦
      rw (pop_history_lem q (d', some event) popped, next_event)
        (record_lem q d' event h valid channel)
]

-- With an empty channel, the record queue's turn comes.
history_second : (q : EventQueue) → IsSound q → q.channel ≡ [] → IsNext q (pop_history q)
unfolding Found IsNext
history_second q h e = elim (pop_cases q.history h.history_valid) [
  | inl (popped, ready) ↦ (q, none, pop_history_lem q (q.history, none) popped, h, (e, e, ready))
  | inr (d', event, popped, valid, channel) ↦
      rw (pop_history_lem q (d', some event) popped) (record_lem q d' event h valid channel)
]

channel_first : (q : EventQueue) → IsSound q → IsNext q (next_event false q)
unfolding next_event or_history
channel_first q h = by_channel q.channel refl
  where
    by_channel :
        (channel : List Event) → q.channel ≡ channel → IsNext q (or_history (try_recv q channel))
    by_channel [] e = history_second q h e
    by_channel (event ∷ channel) e = recv_some q event channel h e

next_event_lem : (first : Bool) (q : EventQueue) → IsSound q → IsNext q (next_event first q)
next_event_lem true q h = history_first q h
next_event_lem false q h = channel_first q h

-- What a call of `poll` for at most `max` events does to sound queues: it takes plain events off the
-- front of the channel, in order, and stops short only when both queues are empty.
pub record IsPolled (max : ℕ) (q : EventQueue) (q' : EventQueue) (out : List Event) : Type 0 where
  pub within : length out ≤ max
  pub sound : IsSound q'
  pub in_order : retain is_plain out ++ q'.channel ≡ q.channel
  pub drained : length out < max → (q'.channel ≡ []) × (q'.history.ready ≡ [])

IsRun : ℕ → Bool → EventQueue → Type 0
IsRun max first q =
    (q' : EventQueue) × (out : List Event) × (poll_loop max first q ≡ some (q', out))
    × IsPolled max q q' out

-- The first round, and the rounds that follow.
poll_round :
    (max : ℕ) (first : Bool) (q : EventQueue)
    → ((q' : EventQueue) → IsSound q' → IsRun max (not first) q')
    → IsNext q (next_event first q)
    → IsRun (suc max) first q
unfolding poll_loop put_first retain IsNext Found IsRun
poll_round max first q rounds (q', none, found, sound, nothing) = (
  q',
  [],
  rw (found, poll_loop) refl,
  record {
    within = omega arith;
    sound = sound;
    in_order = nothing.1 ∙ sym nothing.0;
    drained = λ short. (nothing.1, nothing.2);
  },
)
poll_round max first q rounds (q', some event, found, sound, taken) =
    let (last, out, ran, rest) = rounds q' sound in
    (
      last,
      event ∷ out,
      rw (found, poll_loop) (rw (ran, put_first) refl),
      record {
        within = omega (arith, rest.within);
        sound = rest.sound;
        in_order = ground (arith, rest.in_order, taken);
        drained = λ short. rest.drained (omega arith);
      },
    )

poll_loop_lem : (max : ℕ) (first : Bool) (q : EventQueue) → IsSound q → IsRun max first q
unfolding poll_loop retain IsRun
poll_loop_lem zero first q h = (
  q,
  [],
  refl,
  record {
    within = omega arith;
    sound = h;
    in_order = refl;
    drained = λ short. absurd (omega arith);
  },
)
poll_loop_lem (suc max) first q h =
    poll_round max first q (poll_loop_lem max (not first)) (next_event_lem first q h)

-- On sound queues, whichever queue has the turn, `poll` returns (it never panics): at most `max`
-- events come out, the plain ones are the front of the channel in order, the queues stay sound, and
-- if fewer than `max` come out both queues are empty.
pub poll_lem :
    (max : ℕ) (q : EventQueue)
    → IsSound q
    → (q' : EventQueue) × (out : List Event) × (poll max q ≡ some (q', out)) × IsPolled max q q' out
unfolding poll IsRun
poll_lem max q h =
    let (q', out, ran, polled) =
      poll_loop_lem max q.history_turn (record q { history_turn = not q.history_turn })
        (record {
          history_valid = h.history_valid;
          channel_plain = h.channel_plain;
          in_capacity = h.in_capacity;
        }) in
    (
      q',
      out,
      ran,
      record {
        within = polled.within;
        sound = polled.sound;
        in_order = polled.in_order;
        drained = polled.drained;
      },
    )
