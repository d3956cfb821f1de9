-- ===== src/Ticket/RoundTrip.antt =====
-- Printing a ticket and parsing it: every kind comes back.
use xivlantern_dalamud.Prelude.{
  ℕ, ◌+◌, ◌*◌, ◌/◌, ◌≤◌, ◌≡◌, refl, false, Option, some, All, length, length-append, arith, ltb,
  not-ltb, nat_eq, ◌==◌, not,
}
use xivlantern_dalamud.Error.{Result, ok, protocol_version}
use xivlantern_dalamud.Bytes.{Bytes}
use xivlantern_dalamud.Text.{Text, as_bytes}
use xivlantern_dalamud.Text.Laws.{IsVisible, as_bytes_lem, All-weaken, length-to_ascii_lowercase}
use xivlantern_dalamud.Postcard.{Postcard, IsCoded, from_bytes_coded, take_all}
use xivlantern_dalamud.Ticket.{Base32, print}
use xivlantern_dalamud.Ticket.Laws.{
  IsBase32, print-IsVisible, parse_body-print, strip_prefix-print, decode_body-encode,
}
use xivlantern_dalamud.Ticket.Room
use xivlantern_dalamud.Ticket.Room.{RoomTicket}
use xivlantern_dalamud.Ticket.Node
use xivlantern_dalamud.Ticket.Node.{NodeTicket}
use xivlantern_dalamud.Ticket.Friend
use xivlantern_dalamud.Ticket.Friend.{FriendInvite}
use xivlantern_dalamud.Author.{SignedAnnouncement}
use xivlantern_dalamud.Author.Channel
use xivlantern_dalamud.Ticket.Sealed
use xivlantern_dalamud.Ticket.Sealed.{SealedRoomTicket, max_sealed_ticket_bytes, validate}

-- The value prints, and its text parses to it.
abbrev pub PrintsBack {ℓ} : {T : Type ℓ} → (T → Option Text) → (Text → Result T) → T → Type ℓ
PrintsBack to_string from_str t = (text : Text) × (to_string t ≡ some text) × (from_str text ≡ ok t)

-- The test of the version that every plain kind makes.
current_version :
    (version : ℕ) → version ≡ protocol_version → not (version == protocol_version) ≡ false
current_version version h = ground arith

-- A valid sealed ticket is written in at most 8192 bytes.
valid_size :
    {Addr : Type 0} (p : Postcard (SealedRoomTicket Addr)) (t : SealedRoomTicket Addr)
    (bytes : Bytes)
    → IsCoded p t bytes
    → validate p t ≡ ok tt
    → length bytes ≤ max_sealed_ticket_bytes
unfolding validate
valid_size p t bytes coded valid = ground (arith, coded.written)

module _ (b : Base32) (bytes : Bytes) (laws : IsBase32 b bytes) where
  pub announcement-PrintsBack :
      (p : Postcard SignedAnnouncement) (signed : SignedAnnouncement)
      → IsCoded p signed bytes
      → PrintsBack (Channel.to_string b p) (Channel.from_str b p) signed
  unfolding Channel.to_string Channel.from_str Channel.from_bytes
  announcement-PrintsBack p signed coded = (
    print b Channel.announce_prefix bytes,
    rw (coded.written, Channel.to_string, Channel.to_bytes) refl,
    rw
        (
          parse_body-print b bytes laws Channel.announce_prefix (omega arith),
          from_bytes_coded p signed bytes coded,
        )
        refl,
  )

  -- A printed text is ASCII, and as long as its encoding and the prefix.
  length-print :
      (prefix : Text)
      → All IsVisible prefix
      → length (as_bytes (print b prefix bytes)) ≡ length prefix + (8 * length bytes + 4) / 5
  unfolding print
  length-print prefix visible =
      let ascii : as_bytes (print b prefix bytes) ≡ print b prefix bytes =
        as_bytes_lem _
          (All-weaken _ (λ c h. omega arith) (print-IsVisible b bytes laws prefix visible)) in
      rw (ascii, length-append, length-to_ascii_lowercase, laws.size) refl

  module _ {Addr : Type 0} where
    -- A room ticket of the protocol's version prints, and the text parses to the same ticket, when postcard and
    -- base32 keep their laws at its bytes.
    pub room-PrintsBack :
        (p : Postcard (RoomTicket Addr)) (t : RoomTicket Addr)
        → IsCoded p t bytes
        → t.version ≡ protocol_version
        → PrintsBack (Room.to_string b p) (Room.from_str b p) t
    unfolding Room.to_string Room.from_str Room.check_version Room.to_bytes Room.from_bytes
    room-PrintsBack p t coded current = (
      print b Room.prefix bytes,
      rw (coded.written, Room.to_string, Room.to_bytes) refl,
      rw
          (
            parse_body-print b bytes laws Room.prefix (omega arith),
            from_bytes_coded p t bytes coded,
            current_version t.version current,
          )
          refl,
    )

    pub node-PrintsBack :
        (p : Postcard (NodeTicket Addr)) (t : NodeTicket Addr)
        → IsCoded p t bytes
        → t.version ≡ protocol_version
        → PrintsBack (Node.to_string b p) (Node.from_str b p) t
    unfolding Node.to_string Node.from_str Node.check_version
    node-PrintsBack p t coded current = (
      print b Node.prefix bytes,
      rw (coded.written, Node.to_string) refl,
      rw
          (
            parse_body-print b bytes laws Node.prefix (omega arith),
            from_bytes_coded p t bytes coded,
            current_version t.version current,
          )
          refl,
    )

    pub friend-PrintsBack :
        (p : Postcard (FriendInvite Addr)) (t : FriendInvite Addr)
        → IsCoded p t bytes
        → t.version ≡ protocol_version
        → PrintsBack (Friend.to_string b p) (Friend.from_str b p) t
    unfolding Friend.to_string Friend.from_str Friend.check_version
    friend-PrintsBack p t coded current = (
      print b Friend.prefix bytes,
      rw (coded.written, Friend.to_string) refl,
      rw
          (
            parse_body-print b bytes laws Friend.prefix (omega arith),
            from_bytes_coded p t bytes coded,
            current_version t.version current,
          )
          refl,
    )

    -- A sealed ticket that is valid prints, and the text parses to the same ticket, when postcard and base32
    -- keep their laws at its bytes: the bound on a text's length lets every valid ticket through.
    pub sealed-PrintsBack :
        (p : Postcard (SealedRoomTicket Addr)) (t : SealedRoomTicket Addr)
        → IsCoded p t bytes
        → validate p t ≡ ok tt
        → PrintsBack (Sealed.to_string p b) (Sealed.from_str p b) t
    unfolding Sealed.to_string Sealed.from_str Sealed.from_bytes Sealed.finish
    sealed-PrintsBack p t coded valid = (
      print b Sealed.prefix bytes,
      rw (coded.written, Sealed.to_string) refl,
      rw
          (
            short,
            strip_prefix-print b bytes laws Sealed.prefix (omega arith),
            decode_body-encode b bytes laws,
            take_all p t bytes coded,
            valid,
          )
          refl,
    )
      where
        short :
            ltb
              (length Sealed.prefix + max_sealed_ticket_bytes * 8 / 5 + 2)
              (length (as_bytes (print b Sealed.prefix bytes)))
            ≡ false
        short =
            rw (length-print Sealed.prefix (omega arith))
              (not-ltb _ _ (omega (arith, valid_size p t bytes coded valid)))
