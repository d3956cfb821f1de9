-- ===== src/EventQueue/Emit.antt =====
-- What `Shared::emit` does to the two event queues of a node.
use xivlantern_dalamud.Prelude.{
  ℕ, ◌+◌, ◌≤◌, ◌<◌, ◌≡◌, refl, sym, ◌∙◌, true, some, List, [], ◌∷◌, ◌++◌, arith, length,
  length-append, length-retain, ap, retain, retain-append, All-append, append_assoc, append-nil,
  Option-cases, Bool-cases, ltb, inl, inr,
}
use xivlantern_dalamud.Event.{Event}
use xivlantern_dalamud.Delivery.{channel_of}
use xivlantern_dalamud.Delivery.Valid.{push_to-IsValid}
use xivlantern_dalamud.EventQueue.{EventQueue, try_send, emit_record, emit, poll}
use xivlantern_dalamud.EventQueue.Poll.{is_plain, IsPlain, IsSound, poll_lem}

-- One call of `emit` for each event.
unfoldable pub emit_all : EventQueue → List Event → EventQueue
emit_all q [] = q
emit_all q (event ∷ events) = emit_all (emit q event) events

-- The plain events among some.
abbrev pub plain : List Event → List Event
plain events = retain is_plain events

sent :
    (q : EventQueue) (event : Event)
    → IsSound q
    → is_plain event ≡ true
    → length q.channel < q.capacity
    → IsSound (record q { channel = q.channel ++ event ∷ [] })
sent q event h p room = record {
  history_valid = h.history_valid;
  channel_plain = All-append IsPlain q.channel (event ∷ []) h.channel_plain (p, tt);
  in_capacity = omega (arith, room, length-append q.channel (event ∷ []));
}

emit-IsSound_plain :
    (q : EventQueue) (event : Event)
    → IsSound q
    → is_plain event ≡ true
    → IsSound (try_send q event)
unfolding try_send
emit-IsSound_plain q event h p = elim (Bool-cases (ltb (length q.channel) q.capacity)) [
  | inl fits ↦ rw (fits, try_send) (sent q event h p (ground (arith)))
  | inr full ↦
      rw (full, try_send)
        (record {
          history_valid = h.history_valid;
          channel_plain = h.channel_plain;
          in_capacity = h.in_capacity;
        })
]

-- Every event that is emitted leaves the queues sound, room or no room.
emit-IsSound : (q : EventQueue) (event : Event) → IsSound q → IsSound (emit q event)
unfolding emit emit_record is_plain
emit-IsSound q event h = elim (Option-cases (channel_of event)) [
  | inl other ↦ rw (other, emit) (emit-IsSound_plain q event h (rw (other, is_plain) refl))
  | inr (room, there) ↦
      rw (there, emit)
        (record {
          history_valid = push_to-IsValid q.history room event h.history_valid there;
          channel_plain = h.channel_plain;
          in_capacity = h.in_capacity;
        })
]

-- With room in the channel, `emit` appends a plain event and no other.
channel-emit :
    (q : EventQueue) (event : Event)
    → length q.channel < q.capacity
    → (emit q event).channel ≡ q.channel ++ plain (event ∷ [])
unfolding emit emit_record try_send is_plain retain
channel-emit q event fits = ground (arith, append-nil q.channel)

capacity-emit : (q : EventQueue) (event : Event) → (emit q event).capacity ≡ q.capacity
unfolding emit emit_record try_send
capacity-emit q event = ground arith

emit_all-IsSound : (q : EventQueue) (events : List Event) → IsSound q → IsSound (emit_all q events)
unfolding emit_all
emit_all-IsSound q [] h = h
emit_all-IsSound q (event ∷ events) h =
    emit_all-IsSound (emit q event) events (emit-IsSound q event h)

channel-emit_all :
    (q : EventQueue) (events : List Event)
    → length q.channel + length events ≤ q.capacity
    → (emit_all q events).channel ≡ q.channel ++ plain events
unfolding emit_all retain
channel-emit_all q [] fits = sym (append-nil q.channel)
channel-emit_all q (event ∷ events) fits =
    let short = length-retain is_plain (event ∷ []) in
    channel-emit_all (emit q event) events (
      omega (
        arith,
        capacity-emit q event,
        ap length (channel-emit q event (omega arith)),
        length-append q.channel (plain (event ∷ [])),
        short,
      ))
    ∙ ap (λ c. c ++ plain events) (channel-emit q event (omega arith))
    ∙ append_assoc q.channel (plain (event ∷ [])) (plain events)
    ∙ ap (λ c. q.channel ++ c) (sym (retain-append is_plain (event ∷ []) events))

-- Events that are emitted into sound queues with room for them in the channel come out again: a
-- `poll` that follows returns what it returns without a panic, and when it returns fewer events than
-- it may, the plain ones are all of those that waited or were emitted, in order.
pub poll-emit_all :
    (max : ℕ) (q : EventQueue) (events : List Event)
    → IsSound q
    → length q.channel + length events ≤ q.capacity
    → (q' : EventQueue) × (out : List Event) × (poll max (emit_all q events) ≡ some (q', out))
      × (length out ≤ max)
      × (length out < max → plain out ≡ q.channel ++ plain events)
poll-emit_all max q events h fits =
    let (q', out, ran, polled) = poll_lem max (emit_all q events) (emit_all-IsSound q events h) in
    (
      q',
      out,
      ran,
      polled.within,
      λ short.
          sym (append-nil (plain out))
          ∙ ap (λ rest. plain out ++ rest) (sym (polled.drained short).0)
          ∙ polled.in_order
          ∙ channel-emit_all q events fits,
    )
