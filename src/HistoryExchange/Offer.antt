-- ===== src/HistoryExchange/Offer.antt =====
-- crates/lantern-core/src/node/history.rs, `offer`: a member's request is answered with a snapshot that can then be
-- fetched. `blake3` is the hash, `instant` the monotonic clock in milliseconds and `now` the time of day.
pub mod Served
pub mod Answered
mod Tests
use Prim.Native.String.{String}
use xivlantern_dalamud.Prelude.{
  ℕ, ℤ, Bool, true, false, not, Option, none, some, List, [], ◌∷◌, length, map, retain,
  if◌then◌else◌,
}
use xivlantern_dalamud.Bytes.{Bytes}
use xivlantern_dalamud.Error.{Error, Result, ok, err}
use xivlantern_dalamud.Crypto.{Signatures}
use xivlantern_dalamud.ChannelHistory.{HistoryRecord}
use xivlantern_dalamud.ChannelHistory.Snapshot.{snapshot}
use xivlantern_dalamud.Store.History.{channel_history_read}
use xivlantern_dalamud.Ticket.Sealed.{SealedRoomTicket}
use xivlantern_dalamud.Proto.{Frame, EnvelopeCodec, history_offer}
use xivlantern_dalamud.Proto.Sealed.{Cipher}
use xivlantern_dalamud.SealedFile.{sealed_snapshot}
use xivlantern_dalamud.HistoryExchange.{Cache, get_snapshot, put, put_sealed}
use xivlantern_dalamud.HistoryExchange.Requests.{may_offer}
use xivlantern_dalamud.HistoryExchange.Catchup.{History, is_blocked}

-- The encoded records by authors who are not blocked.
unfoldable pub offered_records : History → List HistoryRecord → List Bytes
unfolding is_blocked
offered_records h rs = map (λ r. r.encoded) (retain (λ r. not (is_blocked r.author h)) rs)

module _ (s : Signatures) (envelopes : EnvelopeCodec) (cipher : Cipher) {Addr : Type 0} where
  -- `random` is what the system gives for the nonce of a sealed snapshot.
  unfoldable pub encode_records :
      s.SecretKey
      → Option (SealedRoomTicket Addr)
      → Option Bytes
      → Bytes
      → List Bytes
      → Result Bytes
  encode_records secret none random topic records = snapshot s topic records
  encode_records secret (some ticket) random topic records =
      sealed_snapshot s envelopes cipher secret ticket records random

  -- No snapshot is made of nothing.
  unfoldable pub make_snapshot :
      s.SecretKey
      → Option (SealedRoomTicket Addr)
      → Option Bytes
      → Bytes
      → List Bytes
      → Option Bytes
  make_snapshot secret sealed random topic [] = none
  make_snapshot secret sealed random topic (raw ∷ records) =
      elim (encode_records secret sealed random topic (raw ∷ records)) [
        | err e ↦ none
        | ok bytes ↦ some bytes
      ]

  unfoldable pub new_offer :
      s.SecretKey
      → Option (SealedRoomTicket Addr)
      → Option String
      → Option Bytes
      → ℤ
      → History
      → Option Bytes
  unfolding make_snapshot offered_records
  new_offer secret sealed failure random now h =
      elim (channel_history_read s failure h.rows h.state.topic now) [
        | err e ↦ none
        | ok rs ↦ make_snapshot secret sealed random h.state.topic (offered_records h rs)
      ]

-- `put_sealed` or `put`
unfoldable pub admit_snapshot : Bool → ℕ → ℕ → ℕ → Bytes → Bytes → Cache → Bool × Cache
admit_snapshot sealed instant room revision hash bytes cache =
    if sealed
    then put_sealed instant room revision hash bytes cache
    else put instant room revision hash bytes cache

unfoldable pub has_ticket {ℓ} : {T : Type ℓ} → Option T → Bool
has_ticket none = false
has_ticket (some ticket) = true

-- What an offer in the cache is asked for: hash and size, if there is one, and the cache afterwards.
unfoldable pub admit_offer :
    (Bytes → Bytes) → Bool → ℕ → ℕ → ℕ → Option Bytes → Cache → Option (Bytes × ℕ) × Cache
unfolding admit_snapshot
admit_offer blake3 sealed instant room revision none cache = (none, cache)
admit_offer blake3 sealed instant room revision (some bytes) cache =
    let (admitted, cache') =
      admit_snapshot sealed instant room revision (blake3 bytes) bytes cache in
    (if admitted then some (blake3 bytes, length bytes) else none, cache')

-- The cached offer, or a new one.
unfoldable pub or_new :
    (Bytes → Bytes)
    → Bool
    → ℕ
    → ℕ
    → ℕ
    → Option Bytes
    → Option (Bytes × ℕ) × Cache
    → Option (Bytes × ℕ) × Cache
unfolding admit_offer
or_new blake3 sealed instant room revision made (some cached, cache) = (some cached, cache)
or_new blake3 sealed instant room revision made (none, cache) =
    admit_offer blake3 sealed instant room revision made cache

module _ (s : Signatures) (envelopes : EnvelopeCodec) (cipher : Cipher) {Addr : Type 0}
    (blake3 : Bytes → Bytes) where
  -- Hash and size of what is offered, and the cache. What is made is looked at only where it is needed.
  unfoldable pub find_offer :
      s.SecretKey
      → Option (SealedRoomTicket Addr)
      → Option String
      → Option Bytes
      → ℕ
      → ℤ
      → History
      → Option (Bytes × ℕ) × Cache
  unfolding or_new has_ticket
  find_offer secret sealed failure random instant now h =
      or_new blake3 (has_ticket sealed) instant h.room h.history_revision
        (new_offer s envelopes cipher secret sealed failure random now h)
        (get_snapshot instant h.room h.history_revision h.history_cache)

  -- The frame that is broadcast, if any. `addr` is the node's own address.
  unfoldable pub offer :
      s.SecretKey
      → Option (SealedRoomTicket Addr)
      → Option String
      → Option Bytes
      → ℕ
      → ℤ
      → Addr
      → Bytes
      → Bytes
      → Bytes
      → ℕ
      → History
      → Option (Frame Addr) × History
  unfolding find_offer
  offer secret sealed failure random instant now addr to frame_topic nonce attempt h =
      if not (may_offer frame_topic attempt h.state)
      then (none, h)
      else let (found, cache) = find_offer secret sealed failure random instant now h in
        (
          elim found [
            | none ↦ none
            | some (hash, size) ↦ some (history_offer h.state.topic to nonce attempt hash size addr)
          ],
          record h { history_cache = cache },
        )
