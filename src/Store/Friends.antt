-- ===== src/Store/Friends.antt =====
-- crates/lantern-core/src/store.rs: the tables `friends` and `friend_devices`. A table is a map from its
-- primary key, in the order of its rows; `now` is the clock, and a failure of SQLite is left out.
pub mod Tables
pub mod Kept
pub mod Run
pub mod Bound
mod Tests
use xivlantern_dalamud.Prelude.{
  ℕ, zero, suc, ℤ, pos, negsuc, ◌+◌, Bool, true, false, not, ◌&&◌, ◌||◌, Option, none, some, List,
  [], ◌∷◌, ◌==◌, nat_eq, bytes_eq, nat_beq, int_leb, length, max, if◌then◌else◌,
}
use xivlantern_dalamud.Bytes.{Bytes}
use xivlantern_dalamud.Text.{to_ascii_lowercase}
use xivlantern_dalamud.HashMap.{HashMap, get, insert, remove, update_at}
use xivlantern_dalamud.ChannelHistory.Sorting.{cmp_bytes, is_le}

pub record FriendRow : Type 0 where
  pub name : Bytes
  pub nostr_pubkey : Option Bytes
  pub added_at : ℤ

pub record DeviceEntry : Type 0 where
  pub friend_id : ℕ
  pub addr : Option Bytes
  pub added_at : ℤ
  pub last_seen : Option ℤ

pub record FriendTables : Type 0 where
  pub friends : HashMap ℕ FriendRow
  pub devices : HashMap Bytes DeviceEntry

-- The id that `friend_devices` has for a node.
unfoldable pub friend_of : FriendTables → Bytes → Option ℕ
friend_of t node_id = elim (get t.devices node_id) [ none ↦ none | some d ↦ some d.friend_id ]

unfoldable pub set_name : Bytes → FriendRow → FriendRow
set_name name row = record row { name = name }

unfoldable pub set_addr : Bytes → DeviceEntry → DeviceEntry
set_addr addr d = record d { addr = some addr }

unfoldable pub set_last_seen : ℤ → DeviceEntry → DeviceEntry
set_last_seen t d = record d { last_seen = some t }

unfoldable pub set_nostr : Bytes → FriendRow → FriendRow
set_nostr pubkey row = record row { nostr_pubkey = some pubkey }

unfoldable pub set_friend : ℕ → DeviceEntry → DeviceEntry
set_friend id d = record d { friend_id = id }

-- The rowid that SQLite gives a new row: one above the largest.
unfoldable pub next_id : HashMap ℕ FriendRow → ℕ
next_id [] = 1
next_id ((id, row) ∷ friends) = max (id + 1) (next_id friends)

-- The device is known: its friend's name, and its address if there is one.
unfoldable pub refresh_device : FriendTables → Bytes → ℕ → Bytes → Option Bytes → FriendTables
unfolding set_name set_addr
refresh_device t node_id id name addr = record {
  friends = update_at (set_name name) t.friends id;
  devices = elim addr [ none ↦ t.devices | some a ↦ update_at (set_addr a) t.devices node_id ];
}

-- A new friend with one device.
unfoldable pub insert_friend : FriendTables → Bytes → Bytes → Option Bytes → ℤ → FriendTables × ℕ
unfolding next_id
insert_friend t node_id name addr now =
    let id = next_id t.friends in
    (
      record {
        friends = insert t.friends id (record { name = name; nostr_pubkey = none; added_at = now });
        devices =
            insert t.devices node_id
              (record { friend_id = id; addr = addr; added_at = now; last_seen = none });
      },
      id,
    )

unfoldable pub friend_add : FriendTables → Bytes → Bytes → Option Bytes → ℤ → FriendTables × ℕ
unfolding friend_of
friend_add t node_id name addr now = elim (friend_of t node_id) [
  | none ↦ insert_friend t node_id name addr now
  | some id ↦ (refresh_device t node_id id name addr, id)
]

-- The three updates of `friend_touch`, each where the caller has a value.
unfoldable pub touch_name : FriendTables → Bytes → Option Bytes → FriendTables
unfolding friend_of set_name
touch_name t node_id none = t
touch_name t node_id (some name) = elim (friend_of t node_id) [
  | none ↦ t
  | some id ↦ record t { friends = update_at (set_name name) t.friends id }
]

unfoldable pub touch_addr : FriendTables → Bytes → Option Bytes → FriendTables
unfolding set_addr
touch_addr t node_id none = t
touch_addr t node_id (some addr) = record t {
  devices = update_at (set_addr addr) t.devices node_id;
}

unfoldable pub touch_last_seen : FriendTables → Bytes → Option ℤ → FriendTables
unfolding set_last_seen
touch_last_seen t node_id none = t
touch_last_seen t node_id (some at) = record t {
  devices = update_at (set_last_seen at) t.devices node_id;
}

unfoldable pub friend_touch :
    FriendTables → Bytes → Option Bytes → Option Bytes → Option ℤ → FriendTables
friend_touch t node_id name addr last_seen =
    touch_last_seen (touch_addr (touch_name t node_id name) node_id addr) node_id last_seen

-- `EXISTS (SELECT 1 FROM friend_devices WHERE friend_id = ?1)`
unfoldable pub has_device : HashMap Bytes DeviceEntry → ℕ → Bool
has_device [] id = false
has_device ((node_id, d) ∷ devices) id = if d.friend_id == id then true else has_device devices id

-- A friend left with no devices is forgotten.
unfoldable pub forget_if_alone :
    HashMap ℕ FriendRow → HashMap Bytes DeviceEntry → ℕ → HashMap ℕ FriendRow
unfolding has_device
forget_if_alone friends devices id = if has_device devices id then friends else remove friends id

-- After the devices changed, the friend that lost one.
unfoldable pub with_devices : FriendTables → HashMap Bytes DeviceEntry → ℕ → FriendTables
unfolding forget_if_alone
with_devices t devices id = record {
  friends = forget_if_alone t.friends devices id;
  devices = devices;
}

unfoldable pub friend_remove_device : FriendTables → Bytes → FriendTables × Bool
unfolding friend_of with_devices
friend_remove_device t node_id = elim (friend_of t node_id) [
  | none ↦ (t, false)
  | some id ↦ (with_devices t (remove t.devices node_id) id, true)
]

abbrev is_nostr : Bytes → FriendRow → Bool
is_nostr pubkey row = elim row.nostr_pubkey [ none ↦ false | some k ↦ k == pubkey ]

-- `SELECT id FROM friends WHERE nostr_pubkey = ?1`
unfoldable pub owner_of : HashMap ℕ FriendRow → Bytes → Option ℕ
owner_of [] pubkey = none
owner_of ((id, row) ∷ friends) pubkey =
    if is_nostr pubkey row then some id else owner_of friends pubkey

-- The friend that a verified device belongs to, when `current` had it so far.
unfoldable pub bind_to : FriendTables → Bytes → Bytes → ℕ → Option ℕ → FriendTables × ℕ
unfolding with_devices set_friend set_nostr
bind_to t node_id pubkey current none =
    (record t { friends = update_at (set_nostr pubkey) t.friends current }, current)
bind_to t node_id pubkey current (some owner) =
    if not (owner == current)
    then (with_devices t (update_at (set_friend owner) t.devices node_id) current, owner)
    else (t, owner)

-- The friend that the device is bound to, or `none` for a device of no friend.
unfoldable pub friend_bind_nostr : FriendTables → Bytes → Bytes → FriendTables × Option ℕ
unfolding friend_of owner_of bind_to
friend_bind_nostr t node_id pubkey = elim (friend_of t node_id) [
  | none ↦ (t, none)
  | some current ↦
      let (t', target) = bind_to t node_id pubkey current (owner_of t.friends pubkey) in
      (t', some target)
]

pub record DeviceRow : Type 0 where
  pub node_id : Bytes
  pub friend_id : ℕ
  pub name : Bytes
  pub addr : Option Bytes
  pub last_seen : Option ℤ
  pub nostr : Option Bytes
  -- only the order of the rows depends on it
  pub added_at : ℤ

-- `<[u8; 32]>::try_from(v).ok()`
unfoldable pub key_32 : Option Bytes → Option Bytes
key_32 none = none
key_32 (some v) = if length v == 32 then some v else none

-- `JOIN friends f ON f.id = d.friend_id`
unfoldable pub join : HashMap ℕ FriendRow → HashMap Bytes DeviceEntry → List DeviceRow
unfolding key_32
join friends [] = []
join friends ((node_id, d) ∷ devices) =
    let rest = join friends devices in
    elim (get friends d.friend_id) [
      | none ↦ rest
      | some f ↦
          record {
            node_id = node_id;
            friend_id = d.friend_id;
            name = f.name;
            addr = d.addr;
            last_seen = d.last_seen;
            nostr = key_32 f.nostr_pubkey;
            added_at = d.added_at;
          }
          ∷ rest
    ]

-- `ORDER BY f.name COLLATE NOCASE, d.added_at`
unfoldable pub is_before : DeviceRow → DeviceRow → Bool
is_before a b =
    let x = to_ascii_lowercase a.name in
    let y = to_ascii_lowercase b.name in
    not (is_le (cmp_bytes y x)) || (x == y && int_leb a.added_at b.added_at)

unfoldable pub put_device : DeviceRow → List DeviceRow → List DeviceRow
unfolding is_before
put_device x [] = x ∷ []
put_device x (y ∷ rows) = if is_before x y then x ∷ y ∷ rows else y ∷ put_device x rows

unfoldable pub in_name_order : List DeviceRow → List DeviceRow
unfolding put_device
in_name_order [] = []
in_name_order (x ∷ rows) = put_device x (in_name_order rows)

unfoldable pub friend_devices : FriendTables → List DeviceRow
unfolding join in_name_order
friend_devices t = in_name_order (join t.friends t.devices)
