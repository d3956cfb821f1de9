-- ===== src/Ticket/Tests.antt =====
-- Runs of ticket.rs and topic.rs with the base32 of RFC 4648, and the theorems at concrete inputs.
use xivlantern_dalamud.Prelude.{
  ℕ, zero, suc, ◌+◌, ◌*◌, ◌-◌, ◌/◌, ◌%◌, ◌^◌, ◌≡◌, ◌⊎◌, refl, true, ◌&&◌, Option, none, some, [],
  ◌∷◌, arith, leb, ltb, any, length, take, drop, if◌then◌else◌, ◌==◌, nat_eq, bytes_eq, bytes_beq,
}
use xivlantern_dalamud.Bytes.{Bytes}
use xivlantern_dalamud.Utf8.{is_control}
use xivlantern_dalamud.Text.{
  Text, is_whitespace, encode_utf8, as_bytes, to_upper, to_ascii_uppercase, trim_start,
  keep_unless_blank, trim_end, trim, strip_prefix,
}
use xivlantern_dalamud.Error.{ok, err, ticket}
use xivlantern_dalamud.Postcard.{Postcard, IsCoded, from_bytes}
use xivlantern_dalamud.ChannelHistory.{codes}
use xivlantern_dalamud.ChannelHistory.Tests.{replicate}
use xivlantern_dalamud.Ticket.{Base32, decode_body, parse_body}
use xivlantern_dalamud.Ticket.Laws.{IsBase32}
use xivlantern_dalamud.Ticket.Scope.{Scope, zone, world, as_u32, from_u32}
use xivlantern_dalamud.Ticket.Topic.Separated.{Collision, derive_separated}
use xivlantern_dalamud.Ticket.Room
use xivlantern_dalamud.Ticket.Room.{RoomTicket}
use xivlantern_dalamud.Ticket.Sealed
use xivlantern_dalamud.Ticket.Sealed.{SealedRoomTicket, has_bad_field, validate}
use xivlantern_dalamud.Ticket.RoundTrip.{PrintsBack, sealed-PrintsBack}
use xivlantern_dalamud.Ticket.OneKind.{Kind, Codecs, parses, parses_one_kind}

-- The letter of a group of five bits.
abbrev letter : ℕ → ℕ
letter v = if ltb v 26 then v + 65 else v + 24

abbrev letter_value : ℕ → Option ℕ
letter_value c =
    if leb 65 c && leb c 90
    then some (c - 65)
    else if leb 50 c && leb c 55
    then some (c - 24)
    else none

-- `acc` holds `bits` bits that are not written yet, fewer than five.
abbrev encode_from : ℕ → ℕ → Bytes → Text
encode_from acc zero [] = []
encode_from acc (suc bits) [] = letter (acc * 2 ^ (5 - suc bits)) ∷ []
encode_from acc bits (byte ∷ bytes) =
    let v = acc * 256 + byte in
    let n = bits + 8 in
    let one = encode_from (v % 2 ^ (n - 5)) (n - 5) bytes in
    let two = encode_from (v % 2 ^ (n - 10)) (n - 10) bytes in
    if ltb n 10
    then letter (v / 2 ^ (n - 5)) ∷ one
    else letter (v / 2 ^ (n - 5)) ∷ letter (v / 2 ^ (n - 10) % 32) ∷ two

-- Bits that are left over are padding.
abbrev decode_from : ℕ → ℕ → Bytes → Option Bytes
decode_from acc bits [] = some []
decode_from acc bits (c ∷ text) = elim (letter_value c) [
  | none ↦ none
  | some v ↦
      let w = acc * 32 + v in
      let n = bits + 5 in
      let less = decode_from w n text in
      let more = decode_from (w % 2 ^ (n - 8)) (n - 8) text in
      if ltb n 8
      then less
      else elim more [ none ↦ none | some bytes ↦ some (w / 2 ^ (n - 8) ∷ bytes) ]
]

abbrev rfc4648 : Base32
rfc4648 = record { encode = encode_from 0 0; decode = decode_from 0 0 }

-- A codec that knows one value.
abbrev one_value : {T : Type 0} → T → Bytes → Postcard T
one_value t bytes = record {
  to_stdvec = λ u. some bytes;
  take_from_bytes = λ input.
      if take (length bytes) input == bytes then some (t, drop (length bytes) input) else none;
}

abbrev written : Bytes
written = 1 ∷ 7 ∷ 0xff ∷ 0 ∷ 128 ∷ 42 ∷ []

encodes : rfc4648.encode (codes "foobar") ≡ codes "MZXW6YTBOI"
encodes = refl

written-IsBase32 : IsBase32 rfc4648 written
written-IsBase32 = record { decodes = refl; alphabet = omega arith; size = refl }

abbrev hall : RoomTicket ℕ
hall = record {
  version = 1;
  topic = replicate 32 9;
  scope = world;
  label = codes "Limsa";
  peers = 3 ∷ [];
}

hall-IsCoded : IsCoded (one_value hall written) hall written
unfolding bytes_beq
hall-IsCoded = record { written = refl; reads = λ rest. refl }

abbrev den : SealedRoomTicket ℕ
den = record {
  version = 1;
  topic = replicate 32 4;
  label = codes "Den";
  peers = [];
  key = replicate 32 5;
}

den-IsCoded : IsCoded (one_value den written) den written
unfolding bytes_beq
den-IsCoded = record { written = refl; reads = λ rest. refl }

den_valid : validate (one_value den written) den ≡ ok tt
unfolding validate has_bad_field as_bytes encode_utf8 any is_control
den_valid = refl

sealed-PrintsBack_example :
    PrintsBack
      (Sealed.to_string (one_value den written) rfc4648)
      (Sealed.from_str (one_value den written) rfc4648)
      den
sealed-PrintsBack_example =
    sealed-PrintsBack rfc4648 written written-IsBase32 (one_value den written) den den-IsCoded
      den_valid

abbrev no_value : {T : Type 0} → Postcard T
no_value = record { to_stdvec = λ t. none; take_from_bytes = λ input. none }

abbrev codecs : Codecs ℕ
codecs = record {
  rooms = one_value hall written;
  nodes = no_value;
  friends = no_value;
  sealed_rooms = one_value den written;
  announcements = no_value;
}

-- A pasted text with blanks around it.
abbrev pasted : Text
pasted = codes "  ltroomaed76aeafi\n"

pasted_is_accepted : parses rfc4648 codecs Kind.room pasted ≡ true
unfolding Room.from_str Room.from_bytes Room.check_version parse_body decode_body from_bytes trim
    trim_start trim_end keep_unless_blank is_whitespace any strip_prefix to_ascii_uppercase to_upper
    as_bytes encode_utf8 bytes_beq
pasted_is_accepted = refl

parses_one_kind_example : Kind.room ≡ Kind.room
parses_one_kind_example =
    parses_one_kind rfc4648 codecs Kind.room Kind.room pasted pasted_is_accepted pasted_is_accepted

-- The same ticket is no sealed room.
pasted_is_not_sealed : Sealed.from_str codecs.sealed_rooms rfc4648 pasted ≡ err ticket
unfolding Sealed.from_str trim trim_start trim_end keep_unless_blank is_whitespace any strip_prefix
    as_bytes encode_utf8
pasted_is_not_sealed = refl

scopes_come_back : (scope : Scope) → from_u32 (as_u32 scope) ≡ some scope
unfolding from_u32 as_u32
scopes_come_back Scope.party = refl
scopes_come_back Scope.fc = refl
scopes_come_back Scope.zone = refl
scopes_come_back Scope.world = refl
scopes_come_back Scope.public_room = refl
scopes_come_back Scope.custom = refl

derive_separated_example :
    ((codes "app/1" ≡ codes "app/1") × (zone ≡ zone) × (codes "153" ≡ codes "153"))
    ⊎ Collision (λ input. take 32 input)
derive_separated_example =
    derive_separated (λ input. take 32 input) (codes "app/1") (codes "app/1") zone zone
      (codes "153") (codes "153") (omega arith) (omega arith) refl
