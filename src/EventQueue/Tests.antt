-- ===== src/EventQueue/Tests.antt =====
-- Runs of `emit` and `poll`, and their theorems at concrete inputs.
use xivlantern_dalamud.Prelude.{
  ℕ, ◌≤◌, ◌<◌, ◌≡◌, refl, false, none, some, List, [], ◌∷◌, ◌++◌, arith, length,
}
use xivlantern_dalamud.HashMap
use xivlantern_dalamud.Delivery
use xivlantern_dalamud.Event.{Event, log}
use xivlantern_dalamud.Delivery.{Delivery, empty, channel_of, push_to, pop, pop_ready, pop_from}
use xivlantern_dalamud.Delivery.Tests.{state, state-IsValid}
use xivlantern_dalamud.EventQueue.{
  EventQueue, poll, poll_loop, next_event, or_history, try_recv, or_recv, pop_history, put_first,
}
use xivlantern_dalamud.EventQueue.Poll.{is_plain, IsSound, IsPolled, poll_lem}
use xivlantern_dalamud.EventQueue.Emit.{emit_all, plain, poll-emit_all}

abbrev line : ℕ → Event
line n = log (n ∷ [])

-- Two rooms have records, and two lines wait in the channel.
abbrev queues : EventQueue
queues = record {
  history = state;
  channel = line 1 ∷ line 2 ∷ [];
  capacity = 16;
  history_turn = false;
  events_dropped = 0;
}

queues-IsSound : IsSound queues
unfolding is_plain channel_of
queues-IsSound = record {
  history_valid = state-IsValid;
  channel_plain = (refl, (refl, tt));
  in_capacity = omega arith;
}

poll_lem_example :
    (q' : EventQueue) × (out : List Event) × (poll 3 queues ≡ some (q', out))
    × IsPolled 3 queues q' out
poll_lem_example = poll_lem 3 queues queues-IsSound

poll-emit_all_example :
    (q' : EventQueue) × (out : List Event) × (poll 9 (emit_all queues (line 3 ∷ line 4 ∷ []))
      ≡ some (q', out))
    × (length out ≤ 9)
    × (length out < 9 → plain out ≡ queues.channel ++ plain (line 3 ∷ line 4 ∷ []))
poll-emit_all_example = poll-emit_all 9 queues (line 3 ∷ line 4 ∷ []) queues-IsSound (omega arith)

-- With the channel's turn, `poll` takes from it and from the records in turn.
alternates :
    (elim (poll 3 queues) [ none ↦ [] | some (q', out) ↦ out ])
    ≡ line 1 ∷ Delivery.Tests.line 1 1 ∷ line 2 ∷ []
unfolding poll poll_loop next_event or_history try_recv or_recv pop_history put_first pop pop_ready
    pop_from HashMap.get HashMap.insert
alternates = refl
