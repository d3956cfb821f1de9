-- ===== src/HistoryExchange/Tests.antt =====
-- Runs of node/history.rs and node/history/peers.rs, and their theorems at concrete inputs.
use xivlantern_dalamud.Prelude.{
  ℕ, true, false, Option, none, some, List, [], ◌∷◌, ◌++◌, nat_eq, bytes_eq, arith, take, drop, All,
}
use xivlantern_dalamud.Bytes.{Bytes}
use xivlantern_dalamud.Postcard.{Postcard}
use xivlantern_dalamud.ChannelHistory.Tests.{toy, replicate, room}
use xivlantern_dalamud.Proto.{Frame, history_offer, encode_body}
use xivlantern_dalamud.Proto.Tests.{plain_envelopes, toy_cipher}
use xivlantern_dalamud.HistoryExchange.Bounded.{
  Call, puts, puts_sealed, asks, leaves, prunes, apply_all, IsBounded, apply_all-IsBounded,
}
use xivlantern_dalamud.HistoryExchange.Requests.{Room}
use xivlantern_dalamud.HistoryExchange.Providers.{
  Happening, requests, ticks, offers, enables, happen_all, IsLimited, happen_all-IsLimited,
}
use xivlantern_dalamud.HistoryExchange.Peers.{AddressParts, known_providers_sealed}
use xivlantern_dalamud.HistoryExchange.Peers.Verified.{IsKnownIn, known_providers_sealed-AreKnown}

abbrev payload : Bytes
payload = replicate 50 7

abbrev some_calls : List Call
some_calls =
    puts 1000 1 0 (replicate 32 1) payload
    ∷ puts_sealed 2000 2 0 (replicate 32 1) payload
    ∷ asks 2500 2 0
    ∷ leaves 1
    ∷ puts 3000 3 1 (replicate 32 2) []
    ∷ prunes 70000
    ∷ []

apply_all-IsBounded_example : IsBounded (apply_all [] some_calls)
apply_all-IsBounded_example = apply_all-IsBounded [] some_calls (tt, omega arith)

abbrev quiet_room : Room
quiet_room = record {
  topic = room;
  history_enabled = true;
  has_author = false;
  is_sealed = false;
  history_request = none;
}

abbrev us : Bytes
us = toy.public 9

abbrev some_happenings : List Happening
some_happenings =
    requests 0 false (replicate 16 3)
    ∷ ticks 2500
    ∷ offers 2600 us (toy.public 5) (toy.public 5) room us (replicate 16 3) 1 50
    ∷ offers 2700 us (toy.public 5) (toy.public 5) room us (replicate 16 3) 1 50
    ∷ enables false
    ∷ ticks 16000
    ∷ []

happen_all-IsLimited_example : IsLimited (happen_all ℕ quiet_room some_happenings).history_request
happen_all-IsLimited_example = happen_all-IsLimited ℕ quiet_room some_happenings tt

-- Offers at the first attempt, with the topic and the recipient in the body, by the owner of the key 5.
abbrev read_offer : Bytes → Option (Frame ℕ × Bytes)
read_offer bytes = some (
  history_offer (take 32 bytes) (take 32 (drop 32 bytes)) (replicate 16 7) 0 (replicate 32 9) 42 5,
  drop 64 bytes,
)

abbrev offer_frames : Postcard (Frame ℕ)
offer_frames = record { to_stdvec = λ frame. none; take_from_bytes = read_offer }

abbrev key_parts : AddressParts ℕ
key_parts = record {
  Route = Unit;
  id = toy.public;
  addrs = λ addr. tt ∷ [];
  is_ip = λ route. true;
  is_relay = λ route. false;
}

abbrev packet_to : Bytes → Bytes
packet_to recipient = encode_body toy plain_envelopes 5 (room ++ recipient)

abbrev hint_rows : List (Bytes × Bytes)
hint_rows =
    (toy.public 6, packet_to us)
    ∷ (toy.public 5, packet_to (toy.public 6))
    ∷ (toy.public 5, packet_to us)
    ∷ []

abbrev known_addresses : List ℕ
known_addresses =
    known_providers_sealed key_parts toy plain_envelopes toy_cipher offer_frames room us
      (λ peer. false) none (some hint_rows)

known_providers_sealed-AreKnown_example :
    All
      (IsKnownIn key_parts room us toy plain_envelopes toy_cipher offer_frames
        (λ peer. false)
        none
        hint_rows)
      known_addresses
known_providers_sealed-AreKnown_example =
    known_providers_sealed-AreKnown key_parts room us toy plain_envelopes toy_cipher offer_frames
      (λ peer. false) none hint_rows
