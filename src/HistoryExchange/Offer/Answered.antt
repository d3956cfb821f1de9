-- ===== src/HistoryExchange/Offer/Answered.antt =====
-- The answer to a member's request: what it offers can be fetched.
use Prim.Native.String.{String}
use xivlantern_dalamud.Prelude.{
  ℕ, ◌≡◌, refl, ℤ, Bool, true, false, not, ◌&&◌, ◌||◌, Bool-cases, inl, inr, Option, none, some,
  leb, ltb, length, bytes_eq, if◌then◌else◌,
}
use xivlantern_dalamud.Bytes.{Bytes}
use xivlantern_dalamud.HashMap.{contains_key}
use xivlantern_dalamud.Crypto.{Signatures}
use xivlantern_dalamud.ChannelHistory.Snapshot.{snapshot_header, max_snapshot_bytes}
use xivlantern_dalamud.Ticket.Sealed.{SealedRoomTicket}
use xivlantern_dalamud.Proto.{Frame, EnvelopeCodec, history_offer}
use xivlantern_dalamud.Proto.Sealed.{Cipher}
use xivlantern_dalamud.HistoryExchange.{
  Cache, max_snapshots, max_sealed_snapshot_bytes, prune, get_snapshot, put_bounded, put,
  put_sealed,
}
use xivlantern_dalamud.HistoryExchange.Requests.{may_offer}
use xivlantern_dalamud.HistoryExchange.Catchup.{History}
use xivlantern_dalamud.HistoryExchange.Offer.{
  has_ticket, admit_snapshot, admit_offer, or_new, new_offer, find_offer, offer,
}
use xivlantern_dalamud.HistoryExchange.Offer.Served.{
  IsHashed, IsServed, IsOffered, prune-IsHashed, get_snapshot-IsOffered, enter-IsOffered,
}

module _ (blake3 : Bytes → Bytes) where
  -- What an insertion of a snapshot says is offered.
  abbrev admitted : Bytes → Bool × Cache → Option (Bytes × ℕ) × Cache
  admitted bytes (done, cache) = (if done then some (blake3 bytes, length bytes) else none, cache)

  put_bounded-IsOffered :
      (now room revision : ℕ) (bytes : Bytes) (maximum : ℕ) (cache : Cache)
      → IsHashed blake3 cache
      → IsOffered blake3 room
          (admitted bytes (put_bounded now room revision (blake3 bytes) bytes maximum cache))
  unfolding put_bounded
  put_bounded-IsOffered now room revision bytes maximum cache h =
      let kept = prune now cache in
      elim (Bool-cases (ltb (length bytes) snapshot_header || ltb maximum (length bytes))) [
        | inl bad ↦ rw bad h
        | inr good ↦
            rw good
              (elim (Bool-cases
                (not (contains_key kept (blake3 bytes)) && leb max_snapshots (length kept))) [
                  | inl full ↦ rw full (prune-IsHashed blake3 now cache h)
                  | inr room_left ↦ rw room_left (
                      enter-IsOffered blake3 now room revision bytes kept
                        (prune-IsHashed blake3 now cache h))
                ])
      ]

  admit_offer-IsOffered :
      (sealed : Bool) (instant room revision : ℕ) (made : Option Bytes) (cache : Cache)
      → IsHashed blake3 cache
      → IsOffered blake3 room (admit_offer blake3 sealed instant room revision made cache)
  unfolding admit_offer admit_snapshot put put_sealed
  admit_offer-IsOffered sealed instant room revision none cache h = h
  admit_offer-IsOffered true instant room revision (some bytes) cache h =
      put_bounded-IsOffered instant room revision bytes max_sealed_snapshot_bytes cache h
  admit_offer-IsOffered false instant room revision (some bytes) cache h =
      put_bounded-IsOffered instant room revision bytes max_snapshot_bytes cache h

  or_new-IsOffered :
      (sealed : Bool) (instant room revision : ℕ) (made : Option Bytes)
      (cached : Option (Bytes × ℕ) × Cache)
      → IsOffered blake3 room cached
      → IsOffered blake3 room (or_new blake3 sealed instant room revision made cached)
  unfolding or_new
  or_new-IsOffered sealed instant room revision made (some (hash, size), cache) h = h
  or_new-IsOffered sealed instant room revision made (none, cache) h =
      admit_offer-IsOffered sealed instant room revision made cache h

  module _ {Addr : Type 0} where
    -- The answer of a node in the state `h` to `to`: nothing, or an offer for `to` in the room's topic of what the
    -- cache serves for the room.
    abbrev pub IsAnswer :
        Bytes → Bytes → ℕ → Addr → History → Option (Frame Addr) × History → Type 0
    IsAnswer to nonce attempt addr h (none, h') = IsHashed blake3 h'.history_cache
    IsAnswer to nonce attempt addr h (some frame, h') =
        IsHashed blake3 h'.history_cache
        × ((hash : Bytes) × ((size : ℕ) × (frame
                ≡ history_offer h.state.topic to nonce attempt hash size addr)
              × IsServed blake3 h'.history_cache h.room hash size))

    framed-IsAnswer :
        (to nonce : Bytes) (attempt : ℕ) (addr : Addr) (h : History) (found : Option (Bytes × ℕ))
        (cache : Cache)
        → IsOffered blake3 h.room (found, cache)
        → IsAnswer to nonce attempt addr h (
          elim found as (λ o. Option (Frame Addr)) [
            | none ↦ none
            | some (hash, size) ↦ some (history_offer h.state.topic to nonce attempt hash size addr)
          ],
          record h { history_cache = cache },
        )
    framed-IsAnswer to nonce attempt addr h none cache o = o
    framed-IsAnswer to nonce attempt addr h (some (hash, size)) cache o =
        (o.0, (hash, (size, refl, o.1)))

    -- Whatever the request, the records, the clocks and the failures: if every snapshot of the cache stands at its
    -- hash, this stays so, and an offer that goes out names the room's topic, the member who asked, the request
    -- and a hash at which the cache then holds, for the room, a snapshot with that hash, of the size offered
    -- unless two byte strings have one hash.
    pub offer-IsAnswer :
        (s : Signatures) (envelopes : EnvelopeCodec) (cipher : Cipher) (secret : s.SecretKey)
        (sealed : Option (SealedRoomTicket Addr)) (failure : Option String) (random : Option Bytes)
        (instant : ℕ) (now : ℤ) (addr : Addr) (to frame_topic nonce : Bytes) (attempt : ℕ)
        (h : History)
        → IsHashed blake3 h.history_cache
        → IsAnswer to nonce attempt addr h (
            offer s envelopes cipher blake3 secret sealed failure random instant now addr to
              frame_topic nonce attempt h)
    unfolding offer find_offer
    offer-IsAnswer s envelopes cipher secret sealed failure random instant now addr to frame_topic
          nonce attempt h hashed =
        elim (Bool-cases (not (may_offer frame_topic attempt h.state))) [
          | inl silent ↦ rw silent hashed
          | inr answers ↦ rw answers (
              framed-IsAnswer to nonce attempt addr h _ _ (
                or_new-IsOffered (has_ticket sealed) instant h.room h.history_revision
                  (new_offer s envelopes cipher secret sealed failure random now h)
                  (get_snapshot instant h.room h.history_revision h.history_cache)
                  (get_snapshot-IsOffered blake3 instant h.room h.history_revision h.history_cache
                    hashed)))
        ]
