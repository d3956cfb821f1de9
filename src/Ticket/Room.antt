-- ===== src/Ticket/Room.antt =====
-- crates/lantern-core/src/ticket.rs: `RoomTicket`, which topic to join, and somebody already in it.
use xivlantern_dalamud.Prelude.{ℕ, not, Option, none, some, List, ◌==◌, nat_eq, if◌then◌else◌}
use xivlantern_dalamud.Error.{Result, ok, err, ticket, ok_or, ◌>>=◌, protocol_version}
use xivlantern_dalamud.Bytes.{Bytes}
use xivlantern_dalamud.Text.{Text}
use xivlantern_dalamud.Postcard.{Postcard}
use xivlantern_dalamud.Postcard
use xivlantern_dalamud.ChannelHistory.{codes}
use xivlantern_dalamud.Ticket.{Base32, print, parse_body}
use xivlantern_dalamud.Ticket.Scope.{Scope}

abbrev pub prefix : Text
prefix = codes "ltroom"

pub record RoomTicket (Addr : Type 0) : Type 0 where
  pub version : ℕ
  pub topic : Bytes
  pub scope : Scope
  pub label : Text
  pub peers : List Addr

module _ {Addr : Type 0} where
  unfoldable pub create : Bytes → Scope → Text → List Addr → RoomTicket Addr
  create topic scope label peers = record {
    version = protocol_version;
    topic = topic;
    scope = scope;
    label = label;
    peers = peers;
  }

  -- The version is that of the protocol.
  unfoldable pub check_version : RoomTicket Addr → Result (RoomTicket Addr)
  check_version t = if not (t.version == protocol_version) then err ticket else ok t

module _ {Addr : Type 0} (b : Base32) (p : Postcard (RoomTicket Addr)) where
  -- `none` stands for the panic of `expect`.
  unfoldable pub to_bytes : RoomTicket Addr → Option Bytes
  to_bytes t = p.to_stdvec t

  unfoldable pub from_bytes : Bytes → Result (RoomTicket Addr)
  unfolding check_version Postcard.from_bytes
  from_bytes bytes = ok_or (Postcard.from_bytes p bytes) ticket >>= check_version

  unfoldable pub to_string : RoomTicket Addr → Option Text
  unfolding to_bytes
  to_string t = elim (to_bytes t) [ none ↦ none | some bytes ↦ some (print b prefix bytes) ]

  unfoldable pub from_str : Text → Result (RoomTicket Addr)
  from_str s = parse_body b prefix s >>= from_bytes
