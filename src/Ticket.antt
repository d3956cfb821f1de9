-- ===== src/Ticket.antt =====
-- crates/lantern-core/src/ticket.rs: what a player copies and pastes. The four kinds share the text form,
-- postcard in base32 behind a prefix.
pub mod Scope
pub mod Topic
pub mod Room
pub mod Node
pub mod Friend
pub mod Sealed
pub mod Laws
pub mod RoundTrip
pub mod OneKind
mod Tests
use xivlantern_dalamud.Prelude.{
  ℕ, ℤ, ◌&&◌, not, Option, none, some, List, ◌++◌, ◌==◌, nat_eq, is_zero, int_leb, if◌then◌else◌,
  Bool,
}
use xivlantern_dalamud.Error.{Result, ok, err, ticket, ok_or, ◌>>=◌, protocol_version}
use xivlantern_dalamud.Bytes.{Bytes}
use xivlantern_dalamud.Text.{
  Text, as_bytes, to_ascii_uppercase, to_ascii_lowercase, trim, strip_prefix,
}

-- `data_encoding::BASE32_NOPAD`, from a library
pub record Base32 : Type 0 where
  pub encode : Bytes → Text
  pub decode : Bytes → Option Bytes

module _ (b : Base32) where
  -- `write!(f, "{PREFIX}{text}")` of the lower case encoding
  unfoldable pub print : Text → Bytes → Text
  print prefix bytes = prefix ++ to_ascii_lowercase (b.encode bytes)

  -- The bytes of the text behind a prefix.
  unfoldable pub decode_body : Text → Result Bytes
  decode_body body = ok_or (b.decode (as_bytes (to_ascii_uppercase body))) ticket

  unfoldable pub parse_body : Text → Text → Result Bytes
  unfolding decode_body
  parse_body prefix s = ok_or (strip_prefix prefix (trim s)) ticket >>= decode_body
