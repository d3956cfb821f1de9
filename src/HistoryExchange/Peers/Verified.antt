-- ===== src/HistoryExchange/Peers/Verified.antt =====
-- What an address that is read from a remembered offer has been shown to be.
use xivlantern_dalamud.Prelude.{
  ℕ, ◌≤◌, ◌≡◌, refl, sym, ap, ◌∙◌, Bool, true, false, not, ◌||◌, Option, none, some, Option-cases,
  inl, inr, List, [], ◌∷◌, ◌++◌, ◌==◌, nat_eq, bytes_eq, bytes_beq_iff, ltb, leb, length, All,
  guarded, not-false, or_false, le_of_not-ltb, if◌then◌else◌,
}
use xivlantern_dalamud.Bytes.{Bytes}
use xivlantern_dalamud.ChannelHistory.Snapshot.{snapshot_header}
use xivlantern_dalamud.Crypto.{Signatures}
use xivlantern_dalamud.Postcard.{Postcard}
use xivlantern_dalamud.Ticket.Sealed.{SealedRoomTicket}
use xivlantern_dalamud.Proto.{
  Frame, EnvelopeCodec, history_offer, app, presence, blob_offer, blob_unoffer, hello,
  history_record, history_request, sealed_blob_offer,
}
use xivlantern_dalamud.Proto.Sealed.{Cipher}
use xivlantern_dalamud.Proto.Opened.{through}
use xivlantern_dalamud.HistoryExchange.Requests.{maximum}
use xivlantern_dalamud.HistoryExchange.Peers.{
  max_hint_bytes, max_routes, AddressParts, is_sealed, is_other_topic, has_bad_route, accept_offer,
  accept_frame, decode_hint, verified_address_sealed, known_provider, known_providers_sealed,
}

guarded_some {ℓ} :
    {A : Type ℓ} (b : Bool) (x y : A)
    → (if b then none else some x) ≡ some y
    → (b ≡ false) × (x ≡ y)
guarded_some true x y h = absurd (cc)
guarded_some false x y h = (refl, cc)

module _ {Addr : Type 0} (parts : AddressParts Addr) (room recipient : Bytes) where
  -- An offer that was made to `recipient` in `room` by the owner of the address, within the bounds.
  pub record IsAccepted (sealed : Bool) (author topic to : Bytes) (attempt size : ℕ) (addr : Addr)
      : Type 0 where
    pub in_room : topic ≡ room
    pub to_us : to ≡ recipient
    pub by_owner : parts.id addr ≡ author
    pub few_attempts : attempt ≤ 7
    pub long : snapshot_header ≤ size
    pub short : size ≤ maximum sealed
    pub few_routes : length (parts.addrs addr) ≤ max_routes
    pub good_routes : has_bad_route parts addr ≡ false

  equal_of_test : (a b : Bytes) → not (a == b) ≡ false → a ≡ b
  equal_of_test a b h = (bytes_beq_iff a b).0 (not-false _ h)

  accept_offer-IsAccepted :
      (sealed : Bool) (author topic to : Bytes) (attempt size : ℕ) (provider addr : Addr)
      → accept_offer parts room recipient sealed author topic to attempt size provider ≡ some addr
      → (provider ≡ addr) × IsAccepted sealed author topic to attempt size provider
  unfolding accept_offer
  accept_offer-IsAccepted sealed author topic to attempt size provider addr h =
      let (passes, same) = guarded_some _ provider addr h in
      let (t₁, r₁) = or_false _ _ passes in
      let (t₂, r₂) = or_false _ _ r₁ in
      let (t₃, r₃) = or_false _ _ r₂ in
      let (t₄, r₄) = or_false _ _ r₃ in
      let (t₅, r₅) = or_false _ _ r₄ in
      let (t₆, r₆) = or_false _ _ r₅ in
      let (t₇, t₈) = or_false _ _ r₆ in
      (
        same,
        record {
          in_room = equal_of_test topic room t₁;
          to_us = equal_of_test to recipient t₂;
          by_owner = equal_of_test (parts.id provider) author t₃;
          few_attempts = le_of_not-ltb 7 attempt t₄;
          long = le_of_not-ltb size snapshot_header t₅;
          short = le_of_not-ltb (maximum sealed) size t₆;
          few_routes = le_of_not-ltb max_routes (length (parts.addrs provider)) t₇;
          good_routes = t₈;
        },
      )

  -- What an offer frame says besides its address.
  pub record Offer : Type 0 where
    pub topic : Bytes
    pub to : Bytes
    pub nonce : Bytes
    pub attempt : ℕ
    pub hash : Bytes
    pub size : ℕ

  abbrev pub frame_of : Offer → Addr → Frame Addr
  frame_of o addr = history_offer o.topic o.to o.nonce o.attempt o.hash o.size addr

  accept_frame-IsAccepted :
      (sealed : Bool) (author : Bytes) (frame : Frame Addr) (addr : Addr)
      → accept_frame parts room recipient sealed author frame ≡ some addr
      → (o : Offer) × (frame ≡ frame_of o addr)
        × IsAccepted sealed author o.topic o.to o.attempt o.size addr
  unfolding accept_frame
  accept_frame-IsAccepted sealed author (history_offer topic to nonce attempt hash size provider)
        addr h =
      let (same, accepted) =
        accept_offer-IsAccepted sealed author topic to attempt size provider addr h in
      (
        record {
          topic = topic;
          to = to;
          nonce = nonce;
          attempt = attempt;
          hash = hash;
          size = size;
        },
        ap (history_offer topic to nonce attempt hash size) same,
        rw (← same) accepted,
      )
  accept_frame-IsAccepted sealed author (app b) addr h = absurd (cc)
  accept_frame-IsAccepted sealed author (presence b) addr h = absurd (cc)
  accept_frame-IsAccepted sealed author (blob_offer a b c) addr h = absurd (cc)
  accept_frame-IsAccepted sealed author (blob_unoffer b) addr h = absurd (cc)
  accept_frame-IsAccepted sealed author (hello b) addr h = absurd (cc)
  accept_frame-IsAccepted sealed author (history_record b) addr h = absurd (cc)
  accept_frame-IsAccepted sealed author (history_request a b c) addr h = absurd (cc)
  accept_frame-IsAccepted sealed author (sealed_blob_offer a b c d) addr h = absurd (cc)

  module _ (s : Signatures) (envelopes : EnvelopeCodec) (cipher : Cipher)
      (frames : Postcard (Frame Addr)) (is_blocked : Bytes → Bool)
      (sealed : Option (SealedRoomTicket Addr)) where
    -- An address that the packet of an accepted offer carries.
    pub record IsKnown (peer original : Bytes) (addr : Addr) : Type 0 where
      pub offer : Offer
      pub own_room : is_other_topic room sealed ≡ false
      pub bounded : length original ≤ max_hint_bytes
      pub carried :
          decode_hint parts s envelopes cipher frames sealed original
          ≡ some (peer, frame_of offer addr)
      pub accepted :
          IsAccepted (is_sealed sealed) peer offer.topic offer.to offer.attempt offer.size addr
      pub not_us : (peer == recipient) ≡ false
      pub welcome : is_blocked peer ≡ false

    gather :
        (peer original author : Bytes) (found addr : Addr) (frame : Frame Addr) (o : Offer)
        → is_other_topic room sealed ≡ false
        → ltb max_hint_bytes (length original) ≡ false
        → decode_hint parts s envelopes cipher frames sealed original ≡ some (author, frame)
        → frame ≡ frame_of o found
        → IsAccepted (is_sealed sealed) author o.topic o.to o.attempt o.size found
        → (not (parts.id found == peer)
            || (parts.id found == recipient || is_blocked (parts.id found)))
          ≡ false
        → found ≡ addr
        → IsKnown peer original addr
    gather peer original author found addr frame o own_room small decoded is_offer accepted passes
          same =
        let (t₁, r₁) = or_false (not (parts.id found == peer)) _ passes in
        let (t₂, t₃) = or_false (parts.id found == recipient) _ r₁ in
        let key : parts.id found ≡ peer = equal_of_test (parts.id found) peer t₁ in
        let owner : author ≡ peer = sym accepted.by_owner ∙ key in
        record {
          offer = o;
          own_room = own_room;
          bounded = le_of_not-ltb max_hint_bytes (length original) small;
          carried = rw (← same, ← owner, ← is_offer) decoded;
          accepted = rw (← same, ← owner) accepted;
          not_us = rw (← key) t₂;
          welcome = rw (← key) t₃;
        }

    known_provider-IsKnown :
        (peer original : Bytes) (addr : Addr)
        → known_provider parts s envelopes cipher frames room recipient is_blocked sealed peer
            original
          ≡ some addr
        → IsKnown peer original addr
    unfolding known_provider verified_address_sealed
    known_provider-IsKnown peer original addr h =
        let (found, verified, h₁) =
          through
            (verified_address_sealed parts s envelopes cipher frames room recipient original sealed)
            _ h in
        let (passes, same_addr) =
          guarded_some
            (not (parts.id found == peer)
              || (parts.id found == recipient || is_blocked (parts.id found)))
            found addr h₁ in
        let (own_room, h₂) = guarded (is_other_topic room sealed) _ verified in
        let (size_ok, h₃) =
          guarded (leb (length original) 0 || ltb max_hint_bytes (length original)) _ h₂ in
        let (not_empty, small) =
          or_false (leb (length original) 0) (ltb max_hint_bytes (length original)) size_ok in
        let ((author, frame), decoded, h₄) =
          through (decode_hint parts s envelopes cipher frames sealed original) _ h₃ in
        let (o, is_offer, accepted) =
          accept_frame-IsAccepted (is_sealed sealed) author frame found h₄ in
        gather peer original author found addr frame o own_room small decoded is_offer accepted
          passes same_addr

    -- A row of the table whose packet carries the address.
    pub record IsKnownIn (rows : List (Bytes × Bytes)) (addr : Addr) : Type 0 where
      pub before : List (Bytes × Bytes)
      pub peer : Bytes
      pub original : Bytes
      pub after : List (Bytes × Bytes)
      pub is_row : rows ≡ before ++ ((peer, original) ∷ after)
      pub known : IsKnown peer original addr

    later-IsKnownIn :
        (row : Bytes × Bytes) (rows : List (Bytes × Bytes)) (addrs : List Addr)
        → All (IsKnownIn rows) addrs
        → All (IsKnownIn (row ∷ rows)) addrs
    later-IsKnownIn row rows [] h = tt
    later-IsKnownIn row rows (addr ∷ addrs) h =
        let k : IsKnownIn rows addr = h.0 in
        (
          record {
            before = row ∷ k.before;
            peer = k.peer;
            original = k.original;
            after = k.after;
            is_row = ap (λ l. row ∷ l) k.is_row;
            known = k.known;
          },
          later-IsKnownIn row rows addrs h.1,
        )

    -- Every address that `known_providers_sealed` returns stands in a remembered packet of one of the rows, at most
    -- 4096 bytes long, that decodes, under the ticket of the room if the room is encrypted, to an offer by the
    -- peer of that row: made in this room to this node, by the owner of the address, in one of the first eight
    -- attempts, of a size that a fetch accepts, with at most 8 routes, each of a known kind. The peer is neither
    -- this node nor blocked.
    pub known_providers_sealed-AreKnown :
        (rows : List (Bytes × Bytes))
        → All (IsKnownIn rows) (
            known_providers_sealed parts s envelopes cipher frames room recipient is_blocked sealed
              (some rows))
    unfolding known_providers_sealed
    known_providers_sealed-AreKnown [] = tt
    known_providers_sealed-AreKnown ((peer, original) ∷ rows) =
        let later =
          later-IsKnownIn (peer, original) rows _ (known_providers_sealed-AreKnown rows) in
        elim (Option-cases (
          known_provider parts s envelopes cipher frames room recipient is_blocked sealed peer
            original)) [
              | inl nothing ↦ rw (nothing, known_providers_sealed) later
              | inr (addr, found) ↦
                  rw (found, known_providers_sealed)
                    (
                      record {
                        before = [];
                        peer = peer;
                        original = original;
                        after = rows;
                        is_row = refl;
                        known = known_provider-IsKnown peer original addr found;
                      },
                      later,
                    )
            ]
