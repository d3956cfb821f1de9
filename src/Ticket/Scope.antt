-- ===== src/Ticket/Scope.antt =====
-- crates/lantern-core/src/ticket.rs: `Scope`, what a room is for.
use xivlantern_dalamud.Prelude.{ℕ, Option, none, some, ◌++◌, ◌==◌, nat_eq, if◌then◌else◌}
use xivlantern_dalamud.Bytes.{Bytes}
use xivlantern_dalamud.ChannelHistory.{codes}

pub data Scope : Type 0 where
  party : Scope
  fc : Scope
  zone : Scope
  world : Scope
  public_room : Scope
  custom : Scope

-- The text, in ASCII.
unfoldable pub as_str : Scope → Bytes
as_str party = codes "party"
as_str fc = codes "fc"
as_str zone = codes "zone"
as_str world = codes "world"
as_str public_room = codes "public"
as_str custom = codes "custom"

-- `self as u32`
unfoldable pub as_u32 : Scope → ℕ
as_u32 party = 0
as_u32 fc = 1
as_u32 zone = 2
as_u32 world = 3
as_u32 public_room = 4
as_u32 custom = 5

unfoldable pub from_u32 : ℕ → Option Scope
from_u32 v =
    if v == 0
    then some party
    else if v == 1
    then some fc
    else if v == 2
    then some zone
    else if v == 3
    then some world
    else if v == 4
    then some public_room
    else if v == 5
    then some custom
    else none

-- `key` as its bytes
unfoldable pub moq_path : Scope → Bytes → Bytes
unfolding as_str
moq_path scope key = as_str scope ++ codes "/" ++ key
