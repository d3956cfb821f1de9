-- ===== src/HistoryExchange/Catchup/Tests.antt =====
-- The history of a channel through a few steps.
use xivlantern_dalamud.Prelude.{
  ℕ, ◌≤◌, pos, true, false, none, List, [], ◌∷◌, nat_eq, bytes_eq, arith, count_if,
}
use xivlantern_dalamud.ChannelHistory.Tests.{toy, room, raw, line}
use xivlantern_dalamud.Delivery.{empty}
use xivlantern_dalamud.Store.History.{is_in}
use xivlantern_dalamud.HistoryExchange.Catchup.{History, history_clear}
use xivlantern_dalamud.HistoryExchange.Catchup.After.{
  Step, catches_up, goes_live, enables, blocks, apply_all,
}
use xivlantern_dalamud.HistoryExchange.Catchup.Cleared.{cleared_stays}

abbrev pub history : History
history = record {
  room = 3;
  state = record {
    topic = room;
    history_enabled = true;
    has_author = false;
    is_sealed = false;
    history_request = none;
  };
  history_generation = 7;
  rows = record { room = room; signature = 1 ∷ []; encoded = 2 ∷ []; received_at = 50 } ∷ [];
  history_revision = 0;
  history_metadata = true;
  history_cache = [];
  blocked = [];
  events = record {
    history = empty;
    channel = [];
    capacity = 8;
    history_turn = false;
    events_dropped = 0;
  };
}

abbrev some_steps : List (Step ℕ)
some_steps =
    catches_up 7 none (pos 100) line 0
    ∷ goes_live none (pos 110) (toy.public 5) raw
    ∷ enables none (pos 120) false
    ∷ catches_up 7 none (pos 130) line 1
    ∷ blocks (toy.public 5)
    ∷ []

cleared_stays_example :
    count_if (is_in room) (apply_all toy (history_clear none history) some_steps).rows ≤ 1
cleared_stays_example = cleared_stays toy history some_steps (omega arith) (omega arith)
