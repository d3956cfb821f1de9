-- ===== src/Author/Channel.antt =====
-- crates/lantern-core/src/author.rs: the text form of an announcement, the channel's topic, and the author
-- key given as hexadecimal.
use xivlantern_dalamud.Prelude.{Option, none, some, ◌++◌, ◌==◌, nat_eq, length, if◌then◌else◌}
use xivlantern_dalamud.Bytes.{Bytes}
use xivlantern_dalamud.Text.{Text, as_bytes, trim}
use xivlantern_dalamud.Error.{Result, ok, err, ticket, arg, ok_or, ◌>>=◌}
use xivlantern_dalamud.Crypto.{Signatures}
use xivlantern_dalamud.Postcard.{Postcard}
use xivlantern_dalamud.Postcard
use xivlantern_dalamud.ChannelHistory.{codes}
use xivlantern_dalamud.Ticket.{Base32, print, parse_body}
use xivlantern_dalamud.Ticket.Scope.{public_room}
use xivlantern_dalamud.Ticket.Topic.{derive}
use xivlantern_dalamud.Author.{SignedAnnouncement}

abbrev pub announce_prefix : Text
announce_prefix = codes "ltannounce"

module _ (b : Base32) (p : Postcard SignedAnnouncement) where
  -- `none` stands for the panic of `expect`.
  unfoldable pub to_bytes : SignedAnnouncement → Option Bytes
  to_bytes signed = p.to_stdvec signed

  unfoldable pub from_bytes : Bytes → Option SignedAnnouncement
  unfolding Postcard.from_bytes
  from_bytes bytes = Postcard.from_bytes p bytes

  unfoldable pub to_string : SignedAnnouncement → Option Text
  unfolding to_bytes
  to_string signed = elim (to_bytes signed) [
    | none ↦ none
    | some bytes ↦ some (print b announce_prefix bytes)
  ]

  unfoldable pub from_str : Text → Result SignedAnnouncement
  from_str s = parse_body b announce_prefix s >>= λ bytes. ok_or (from_bytes bytes) ticket

-- `data_encoding::HEXLOWER` and `HEXLOWER_PERMISSIVE`, from a library
pub record Hex : Type 0 where
  pub encode : Bytes → Text
  pub decode : Bytes → Option Bytes

-- The gossip topic of an author's channel.
unfoldable pub topic : Hex → (Bytes → Bytes) → Bytes → Bytes → Bytes
topic hex blake3 app_id author =
    derive blake3 app_id public_room (codes "author/" ++ as_bytes (hex.encode author))

-- `try_into` of a vector to `[u8; 32]`
unfoldable pub exactly_32 : Bytes → Option Bytes
exactly_32 bytes = if length bytes == 32 then some bytes else none

module _ (hex : Hex) where
  -- Parse an author public key given as 64 hex characters.
  unfoldable pub parse_author : Signatures → Text → Result Bytes
  unfolding exactly_32
  parse_author s text =
      ok_or (hex.decode (as_bytes (trim text))) (arg "author key is not hex") >>= λ bytes.
      ok_or (exactly_32 bytes) (arg "author key is not 32 bytes") >>= λ key.
      if s.is_public_key key then ok key else err (arg "not an ed25519 public key")

  -- The 32 bytes that `load_key` makes a secret key from, of the file's text.
  unfoldable pub load_key : Text → Result Bytes
  unfolding exactly_32
  load_key text =
      ok_or (hex.decode (as_bytes (trim text))) (arg "author key file is not hex") >>= λ bytes.
      ok_or (exactly_32 bytes) (arg "author key file is not 32 bytes")
