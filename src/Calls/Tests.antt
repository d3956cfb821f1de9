-- ===== src/Calls/Tests.antt =====
-- Runs of node/calls.rs, and its theorems at concrete inputs.
use xivlantern_dalamud.Prelude.{
  ℕ, ◌≡◌, ◌≢◌, refl, Bool, true, false, some, [], ◌∷◌, ◌++◌, bytes_beq, nat_eq, bytes_eq,
}
use xivlantern_dalamud.Bytes.{Bytes}
use xivlantern_dalamud.HashMap
use xivlantern_dalamud.Event.{PeerId}
use xivlantern_dalamud.EventQueue.{EventQueue}
use xivlantern_dalamud.Delivery.{empty}
use xivlantern_dalamud.Calls.{
  call_ring, Shared, check_open, send_call, draw_call, result_of, can_ring, start_call, ring,
}
use xivlantern_dalamud.Calls.Conversation.{IsOpen, ring_sound}

abbrev alice : PeerId
alice = 1 ∷ []

abbrev bob : PeerId
bob = 2 ∷ []

abbrev carol : PeerId
carol = 3 ∷ []

abbrev queue : EventQueue
queue = record {
  history = empty;
  channel = [];
  capacity = 16;
  history_turn = false;
  events_dropped = 0;
}

-- The node of alice, with a link to bob and to carol, and a call with each.
abbrev node : Shared
node = record {
  node_id = alice;
  closed = false;
  runtime_gone = false;
  friends = (bob, tt) ∷ (carol, tt) ∷ [];
  links = (bob, tt) ∷ (carol, tt) ∷ [];
  calls = (5, bob) ∷ (6, carol) ∷ (7, bob) ∷ [];
  commands = [];
  events = queue;
}

abbrev is_node_id : Bytes → Bool
is_node_id bytes = true

abbrev media_of : PeerId → ℕ → Bytes
media_of peer call = call ∷ peer

-- The ring of bob that draws 0 and then 9.
abbrev rings : Shared
rings = record node {
  calls = (5, bob) ∷ (6, carol) ∷ (7, bob) ∷ (9, bob) ∷ [];
  commands = (bob, call_ring 9 (9 ∷ alice)) ∷ [];
}

ring_sound_example :
    IsOpen node
    × (HashMap.contains_key node.friends bob ≡ true)
    × (HashMap.contains_key node.links bob ≡ true)
    × (◌≢◌ {A = ℕ} 9 0)
    × (HashMap.get rings.calls 9 ≡ some bob)
    × (rings.commands ≡ node.commands ++ (bob, call_ring 9 (media_of node.node_id 9)) ∷ [])
    × (rings.events ≡ node.events)
unfolding ring can_ring check_open draw_call start_call send_call result_of HashMap.contains_key
    HashMap.insert bytes_beq
ring_sound_example = ring_sound is_node_id media_of node rings bob (0 ∷ 9 ∷ []) 9 refl
