-- ===== src/HistoryExchange/Peers.antt =====
-- crates/lantern-core/src/node/history/peers.rs: whether a remembered offer still gives the address of a member,
-- and `known_providers_sealed` of node/history.rs, which reads the remembered offers of a room. The rows are what
-- the store returns.
pub mod Verified
use xivlantern_dalamud.Prelude.{
  ℕ, Bool, true, false, not, ◌&&◌, ◌||◌, Option, none, some, List, [], ◌∷◌, ◌==◌, nat_eq, bytes_eq,
  ltb, leb, length, any, if◌then◌else◌,
}
use xivlantern_dalamud.Bytes.{Bytes}
use xivlantern_dalamud.ChannelHistory.Snapshot.{snapshot_header}
use xivlantern_dalamud.Crypto.{Signatures}
use xivlantern_dalamud.Postcard.{Postcard}
use xivlantern_dalamud.Ticket.Sealed.{SealedRoomTicket}
use xivlantern_dalamud.Proto.{Frame, EnvelopeCodec, history_offer, decode}
use xivlantern_dalamud.Proto.Sealed.{Cipher, decode_sealed}
use xivlantern_dalamud.HistoryExchange.Requests.{maximum}

abbrev pub max_hint_bytes : ℕ
max_hint_bytes = 4096

abbrev pub max_routes : ℕ
max_routes = 8

-- `EndpointAddr` and its routes, from a library.
pub record AddressParts (Addr : Type 0) : Type 1 where
  pub Route : Type 0
  pub id : Addr → Bytes
  pub addrs : Addr → List Route
  pub is_ip : Route → Bool
  pub is_relay : Route → Bool

unfoldable pub is_sealed {ℓ} : {T : Type ℓ} → Option T → Bool
is_sealed none = false
is_sealed (some ticket) = true

module _ {Addr : Type 0} where
  unfoldable pub is_other_topic : Bytes → Option (SealedRoomTicket Addr) → Bool
  is_other_topic room none = false
  is_other_topic room (some ticket) = not (ticket.topic == room)

  module _ (parts : AddressParts Addr) where
    unfoldable pub has_bad_route : Addr → Bool
    has_bad_route provider =
        any (λ route. not (parts.is_ip route) && not (parts.is_relay route)) (parts.addrs provider)

    -- The tests of the offer in the frame.
    unfoldable pub accept_offer :
        Bytes → Bytes → Bool → Bytes → Bytes → Bytes → ℕ → ℕ → Addr → Option Addr
    unfolding has_bad_route
    accept_offer room recipient sealed author topic to attempt size provider =
        if not (topic == room)
          || (not (to == recipient)
              || (not (parts.id provider == author)
                  || (ltb 7 attempt
                      || (ltb size snapshot_header
                          || (ltb (maximum sealed) size
                              || (ltb max_routes (length (parts.addrs provider))
                                  || has_bad_route provider))))))
        then none
        else some provider

    unfoldable pub accept_frame : Bytes → Bytes → Bool → Bytes → Frame Addr → Option Addr
    unfolding accept_offer
    accept_frame room recipient sealed author
          (history_offer topic to nonce attempt hash size provider) =
        accept_offer room recipient sealed author topic to attempt size provider
    accept_frame room recipient sealed author frame = none

    module _ (s : Signatures) (envelopes : EnvelopeCodec) (cipher : Cipher)
        (frames : Postcard (Frame Addr)) where
      unfoldable pub decode_hint :
          Option (SealedRoomTicket Addr) → Bytes → Option (Bytes × Frame Addr)
      decode_hint none original = decode s envelopes frames original
      decode_hint (some ticket) original = decode_sealed s envelopes cipher frames ticket original

      unfoldable pub verified_address_sealed :
          Bytes → Bytes → Bytes → Option (SealedRoomTicket Addr) → Option Addr
      unfolding decode_hint accept_frame
      verified_address_sealed room recipient original sealed =
          if is_other_topic room sealed
          then none
          else if leb (length original) 0 || ltb max_hint_bytes (length original)
          then none
          else elim (decode_hint sealed original) [
            | none ↦ none
            | some (author, frame) ↦ accept_frame room recipient (is_sealed sealed) author frame
          ]

      -- One row of the table: the peer, and the offer as it came. `own` is the node's key.
      unfoldable pub known_provider :
          Bytes
          → Bytes
          → (Bytes → Bool)
          → Option (SealedRoomTicket Addr)
          → Bytes
          → Bytes
          → Option Addr
      unfolding verified_address_sealed
      known_provider room own is_blocked sealed peer original =
          elim (verified_address_sealed room own original sealed) [
            | none ↦ none
            | some addr ↦
                if not (parts.id addr == peer)
                  || (parts.id addr == own || is_blocked (parts.id addr))
                then none
                else some addr
          ]

      -- `none` for the rows stands for an error of the store.
      unfoldable pub known_providers_sealed :
          Bytes
          → Bytes
          → (Bytes → Bool)
          → Option (SealedRoomTicket Addr)
          → Option (List (Bytes × Bytes))
          → List Addr
      unfolding known_provider
      known_providers_sealed room own is_blocked sealed none = []
      known_providers_sealed room own is_blocked sealed (some []) = []
      known_providers_sealed room own is_blocked sealed (some ((peer, original) ∷ rows)) =
          let rest = known_providers_sealed room own is_blocked sealed (some rows) in
          elim (known_provider room own is_blocked sealed peer original) [
            | none ↦ rest
            | some addr ↦ addr ∷ rest
          ]

      unfoldable pub known_providers :
          Bytes → Bytes → (Bytes → Bool) → Option (List (Bytes × Bytes)) → List Addr
      known_providers topic own is_blocked rows =
          known_providers_sealed topic own is_blocked none rows
