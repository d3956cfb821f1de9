-- ===== src/Ticket/OneKind.antt =====
-- A text is a ticket of one kind at most.
use xivlantern_dalamud.Prelude.{
  ℕ, ◌≡◌, refl, sym, ap, ◌∙◌, Bool, true, false, Option, none, some, ◌∷◌, ◌++◌, nat_beq,
  if◌then◌else◌,
}
use xivlantern_dalamud.Error.{Result, ok, err, ticket, ok_or, ◌>>=◌}
use xivlantern_dalamud.Bytes.{Bytes}
use xivlantern_dalamud.Text.{Text, trim, strip_prefix}
use xivlantern_dalamud.Text.Laws.{strip_prefix_sound}
use xivlantern_dalamud.Postcard.{Postcard}
use xivlantern_dalamud.Ticket.{Base32, decode_body, parse_body}
use xivlantern_dalamud.Ticket.Room
use xivlantern_dalamud.Ticket.Room.{RoomTicket}
use xivlantern_dalamud.Ticket.Node
use xivlantern_dalamud.Ticket.Node.{NodeTicket}
use xivlantern_dalamud.Ticket.Friend
use xivlantern_dalamud.Ticket.Friend.{FriendInvite}
use xivlantern_dalamud.Author.{SignedAnnouncement}
use xivlantern_dalamud.Author.Channel
use xivlantern_dalamud.Ticket.Sealed
use xivlantern_dalamud.Ticket.Sealed.{SealedRoomTicket}

pub data Kind : Type 0 where
  room : Kind
  node : Kind
  friend : Kind
  sealed : Kind
  announcement : Kind

abbrev prefix_of : Kind → Text
prefix_of room = Room.prefix
prefix_of node = Node.prefix
prefix_of friend = Friend.prefix
prefix_of sealed = Sealed.prefix
prefix_of announcement = Channel.announce_prefix

abbrev pub is_ok {ℓ} : {T : Type ℓ} → Result T → Bool
is_ok (err e) = false
is_ok (ok t) = true

pub record Codecs (Addr : Type 0) : Type 0 where
  pub rooms : Postcard (RoomTicket Addr)
  pub nodes : Postcard (NodeTicket Addr)
  pub friends : Postcard (FriendInvite Addr)
  pub sealed_rooms : Postcard (SealedRoomTicket Addr)
  pub announcements : Postcard SignedAnnouncement

-- A guard of the parser that a text has passed.
passed {ℓ κ} :
    {A : Type ℓ} {T : Type κ} (o : Option A) (next : A → Result T)
    → is_ok (ok_or o ticket >>= next) ≡ true
    → (a : A) × (o ≡ some a)
passed none next h = absurd (cc)
passed (some a) next h = (a, refl)

bound {ℓ κ} :
    {S : Type ℓ} {T : Type κ} (r : Result S) (next : S → Result T)
    → is_ok (r >>= next) ≡ true
    → is_ok r ≡ true
bound (err e) next h = h
bound (ok s) next h = refl

unless {ℓ} :
    {T : Type ℓ} (b : Bool) (r : Result T)
    → is_ok (if b then err ticket else r) ≡ true
    → is_ok r ≡ true
unless true r h = absurd (cc)
unless false r h = h

-- The third character tells the kinds apart.
third : Text → ℕ
third (a ∷ b ∷ c ∷ text) = c
third text = 0

kind_of : ℕ → Kind
kind_of c =
    if nat_beq c 114
    then room
    else if nat_beq c 110
    then node
    else if nat_beq c 102
    then friend
    else if nat_beq c 115
    then sealed
    else announcement

module _ {Addr : Type 0} (b : Base32) (codecs : Codecs Addr) where
  -- The parser of a kind accepts the text.
  abbrev pub parses : Kind → Text → Bool
  parses room s = is_ok (Room.from_str b codecs.rooms s)
  parses node s = is_ok (Node.from_str b codecs.nodes s)
  parses friend s = is_ok (Friend.from_str b codecs.friends s)
  parses sealed s = is_ok (Sealed.from_str codecs.sealed_rooms b s)
  parses announcement s = is_ok (Channel.from_str b codecs.announcements s)

  parse_body_starts :
      {T : Type 0} (prefix s : Text) (next : Bytes → Result T)
      → is_ok (parse_body b prefix s >>= next) ≡ true
      → (body : Text) × (strip_prefix prefix (trim s) ≡ some body)
  unfolding parse_body
  parse_body_starts prefix s next h =
      passed (strip_prefix prefix (trim s)) (decode_body b) (bound (parse_body b prefix s) next h)

  parses_starts :
      (k : Kind) (s : Text)
      → parses k s ≡ true
      → (body : Text) × (strip_prefix (prefix_of k) (trim s) ≡ some body)
  unfolding Room.from_str Node.from_str Friend.from_str Sealed.from_str Channel.from_str
  parses_starts room s h = parse_body_starts Room.prefix s _ h
  parses_starts node s h = parse_body_starts Node.prefix s _ h
  parses_starts friend s h = parse_body_starts Friend.prefix s _ h
  parses_starts sealed s h = passed (strip_prefix Sealed.prefix (trim s)) _ (unless _ _ h)
  parses_starts announcement s h = parse_body_starts Channel.announce_prefix s _ h

  third-prefix : (k : Kind) (body : Text) → kind_of (third (prefix_of k ++ body)) ≡ k
  unfolding third kind_of
  third-prefix room body = refl
  third-prefix node body = refl
  third-prefix friend body = refl
  third-prefix sealed body = refl
  third-prefix announcement body = refl

  kind_of_text : (k : Kind) (s : Text) → parses k s ≡ true → kind_of (third (trim s)) ≡ k
  kind_of_text k s h =
      let (body, starts) = parses_starts k s h in
      ap (λ t. kind_of (third t)) (strip_prefix_sound (prefix_of k) (trim s) body starts)
      ∙ third-prefix k body

  -- Whatever the decoders of base32 and postcard answer, a text that the parser of one kind accepts (room,
  -- node, friend, sealed room or announcement) is refused by the parser of every other kind.
  pub parses_one_kind : (j k : Kind) (s : Text) → parses j s ≡ true → parses k s ≡ true → j ≡ k
  parses_one_kind j k s hj hk = sym (kind_of_text j s hj) ∙ kind_of_text k s hk
