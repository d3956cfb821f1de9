-- ===== src/Event.antt =====
-- crates/lantern-core/src/event.rs: what the asynchronous half tells the caller.
-- `String` is its UTF-8 bytes.
use xivlantern_dalamud.Bytes.{Bytes}
use xivlantern_dalamud.Prelude.{ℕ, ℤ, Bool, Option, none, some, List, if◌then◌else◌, ◌==◌, nat_eq}

abbrev pub PeerId : Type 0
PeerId = Bytes

abbrev pub RoomHandle : Type 0
RoomHandle = ℕ

abbrev pub ConnHandle : Type 0
ConnHandle = ℕ

abbrev pub BlobHandle : Type 0
BlobHandle = ℕ

pub record BlobMeta : Type 0 where
  pub hash : Bytes
  pub size : ℕ
  pub name : Bytes

pub data Status : Type 0 where
  invisible online away busy : Status

unfoldable pub status_of_u32 : ℕ → Option Status
status_of_u32 v =
    if v == 0
    then some invisible
    else if v == 1
    then some online
    else if v == 2
    then some away
    else if v == 3
    then some busy
    else none

unfoldable pub status_to_u32 : Status → ℕ
status_to_u32 invisible = 0
status_to_u32 online = 1
status_to_u32 away = 2
status_to_u32 busy = 3

pub data Event : Type 0 where
  ready : PeerId → Event
  room_joined : RoomHandle → Event
  room_left : RoomHandle → Event
  peer_joined : RoomHandle → PeerId → Event
  peer_left : RoomHandle → PeerId → Event
  presence : RoomHandle → PeerId → Bytes → Event
  message : RoomHandle → PeerId → Bytes → Event
  -- room, peer, encoded, historical
  channel_record : RoomHandle → PeerId → Bytes → Bool → Event
  channel_history_cleared : RoomHandle → Event
  direct : ConnHandle → PeerId → Bytes → Event
  connected : ConnHandle → PeerId → Event
  disconnected : ConnHandle → PeerId → Event
  blob_offer : RoomHandle → PeerId → BlobHandle → BlobMeta → Event
  blob_withdrawn : BlobHandle → Event
  blob_progress : BlobHandle → ℕ → ℕ → Event
  blob_done : BlobHandle → Bytes → Event
  blob_failed : BlobHandle → Bytes → Event
  ticket : ℕ → Bytes → Event
  publishing : RoomHandle → Bool → Event
  error : Bytes → Event
  log : Bytes → Event
  friend_added : ℕ → PeerId → Bytes → Event
  friend_removed : PeerId → Event
  invite_failed : ℕ → Bytes → Event
  friend_online : PeerId → Status → Bytes → Event
  friend_offline : PeerId → Event
  friend_text : PeerId → ℕ → ℤ → Bytes → Event
  friend_delivered : PeerId → ℕ → Event
  channel_invite : PeerId → Bytes → Event
  nostr_done : ℕ → Bool → Bytes → Event
  nostr_invite : Bytes → Bytes → Event
  nostr_devices : ℕ → Bytes → List PeerId → Event
  rate_limited : PeerId → Bytes → Event
  announcement : RoomHandle → Bytes → ℕ → ℤ → Bytes → Bytes → Event
  support_message : PeerId → ℕ → ℤ → Bytes → Event
  support_reply : PeerId → ℕ → ℤ → Bytes → Event
  support_delivered : PeerId → ℕ → Event
  support_failed : PeerId → ℕ → Bytes → Event
  self_test : ℕ → Bytes → Event
  call_incoming : PeerId → ℕ → Bytes → Event
  call_answered : PeerId → ℕ → Bool → Event
  call_ended : PeerId → ℕ → Event
