-- ===== src/Ticket/Friend.antt =====
-- crates/lantern-core/src/ticket.rs: `FriendInvite`, how to reach its sender, and a secret that is good once.
use xivlantern_dalamud.Prelude.{
  ℕ, ℤ, Bool, not, ◌&&◌, Option, none, some, ◌==◌, nat_eq, int_leb, is_zero, if◌then◌else◌,
}
use xivlantern_dalamud.Error.{Result, ok, err, ticket, ok_or, ◌>>=◌, protocol_version}
use xivlantern_dalamud.Bytes.{Bytes}
use xivlantern_dalamud.Text.{Text}
use xivlantern_dalamud.Postcard.{Postcard}
use xivlantern_dalamud.Postcard
use xivlantern_dalamud.ChannelHistory.{codes}
use xivlantern_dalamud.Ticket.{Base32, print, parse_body}

abbrev pub prefix : Text
prefix = codes "ltfriend"

pub record FriendInvite (Addr : Type 0) : Type 0 where
  pub version : ℕ
  pub addr : Addr
  pub secret : Bytes
  pub name : Text
  pub expires_at : ℤ
  pub nostr : Option Bytes

module _ {Addr : Type 0} where
  unfoldable pub is_expired : FriendInvite Addr → ℤ → Bool
  is_expired t now_secs = not (is_zero t.expires_at) && int_leb t.expires_at now_secs

  -- The version is that of the protocol.
  unfoldable pub check_version : FriendInvite Addr → Result (FriendInvite Addr)
  check_version t = if not (t.version == protocol_version) then err ticket else ok t

module _ {Addr : Type 0} (b : Base32) (p : Postcard (FriendInvite Addr)) where
  -- `none` stands for the panic of `expect`.
  unfoldable pub to_string : FriendInvite Addr → Option Text
  to_string t = elim (p.to_stdvec t) [ none ↦ none | some bytes ↦ some (print b prefix bytes) ]

  unfoldable pub from_str : Text → Result (FriendInvite Addr)
  unfolding check_version Postcard.from_bytes
  from_str s = parse_body b prefix s >>= λ bytes.
      ok_or (Postcard.from_bytes p bytes) ticket >>= check_version
