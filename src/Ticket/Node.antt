-- ===== src/Ticket/Node.antt =====
-- crates/lantern-core/src/ticket.rs: `NodeTicket`, for "connect straight to me".
use xivlantern_dalamud.Prelude.{ℕ, not, Option, none, some, ◌==◌, nat_eq, if◌then◌else◌}
use xivlantern_dalamud.Error.{Result, ok, err, ticket, ok_or, ◌>>=◌, protocol_version}
use xivlantern_dalamud.Text.{Text}
use xivlantern_dalamud.Postcard.{Postcard}
use xivlantern_dalamud.Postcard
use xivlantern_dalamud.ChannelHistory.{codes}
use xivlantern_dalamud.Ticket.{Base32, print, parse_body}

abbrev pub prefix : Text
prefix = codes "ltnode"

pub record NodeTicket (Addr : Type 0) : Type 0 where
  pub version : ℕ
  pub addr : Addr

module _ {Addr : Type 0} where
  unfoldable pub create : Addr → NodeTicket Addr
  create addr = record { version = protocol_version; addr = addr }

  -- The version is that of the protocol.
  unfoldable pub check_version : NodeTicket Addr → Result (NodeTicket Addr)
  check_version t = if not (t.version == protocol_version) then err ticket else ok t

module _ {Addr : Type 0} (b : Base32) (p : Postcard (NodeTicket Addr)) where
  -- `none` stands for the panic of `expect`.
  unfoldable pub to_string : NodeTicket Addr → Option Text
  to_string t = elim (p.to_stdvec t) [ none ↦ none | some bytes ↦ some (print b prefix bytes) ]

  unfoldable pub from_str : Text → Result (NodeTicket Addr)
  unfolding check_version Postcard.from_bytes
  from_str s = parse_body b prefix s >>= λ bytes.
      ok_or (Postcard.from_bytes p bytes) ticket >>= check_version
