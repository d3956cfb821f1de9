-- ===== src/HistoryExchange/Offer/Tests.antt =====
-- An answer to a member's request.
use xivlantern_dalamud.Prelude.{ℕ, pos, none, [], ◌∷◌}
use xivlantern_dalamud.Bytes.{Bytes}
use xivlantern_dalamud.ChannelHistory.Tests.{toy, replicate, room, raw, line, checksum}
use xivlantern_dalamud.HashMap.{get}
use xivlantern_dalamud.Proto.Tests.{plain_envelopes, toy_cipher}
use xivlantern_dalamud.HistoryExchange.Catchup.{History}
use xivlantern_dalamud.HistoryExchange.Catchup.Tests.{history}
use xivlantern_dalamud.HistoryExchange.Offer.{offer}
use xivlantern_dalamud.HistoryExchange.Offer.Served.{IsHashed}
use xivlantern_dalamud.HistoryExchange.Offer.Answered.{IsAnswer, offer-IsAnswer}

-- A toy hash of one number.
abbrev toy_hash : Bytes → Bytes
toy_hash bytes = checksum bytes ∷ []

-- The room with a record that verifies, and nothing in the cache.
abbrev with_record : History
with_record = record history {
  rows = record { room = room; signature = line.signature; encoded = raw; received_at = 50 } ∷ [];
}

nothing_cached : IsHashed toy_hash with_record.history_cache
unfolding get
nothing_cached = record { once = tt; at_hash = λ hash sn found. absurd (cc) }

offer-IsAnswer_example :
    IsAnswer toy_hash {Addr = ℕ} (toy.public 6) (replicate 16 2) 0 4 with_record (
      offer toy plain_envelopes toy_cipher toy_hash 5 none none none 100
        (pos 100)
        4
        (toy.public 6)
        room
        (replicate 16 2)
        0
        with_record)
offer-IsAnswer_example =
    offer-IsAnswer toy_hash toy plain_envelopes toy_cipher 5 none none none 100 (pos 100) 4
      (toy.public 6) room (replicate 16 2) 0 with_record nothing_cached
