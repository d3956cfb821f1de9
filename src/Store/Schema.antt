-- ===== src/Store/Schema.antt =====
-- crates/lantern-core/src/store.rs: the schema of the database and its migrations. The text of a column or an
-- index is SQLite's to read; what a statement does to the set of tables is modelled.
pub mod Upgrade
mod Tests
use Prim.Native.String.{String}
use xivlantern_dalamud.Prelude.{
  ℕ, Bool, true, false, List, [], ◌∷◌, ◌++◌, ltb, any, nat_beq, if◌then◌else◌,
}

-- The tables and the indexes, by name.
pub data Object : Type 0 where
  identity : Object
  bookmarks : Object
  bookmarks_scope : Object
  blobs : Object
  profile : Object
  friends : Object
  friend_devices : Object
  invites : Object
  messages : Object
  messages_outbox : Object
  blocked : Object
  announcements : Object
  channel_history : Object
  channel_history_received : Object
  channel_history_room_received : Object
  channel_peers : Object
  channel_peers_received : Object

-- The name's place, to compare names.
unfoldable pub place : Object → ℕ
place identity = 0
place bookmarks = 1
place bookmarks_scope = 2
place blobs = 3
place profile = 4
place friends = 5
place friend_devices = 6
place invites = 7
place messages = 8
place messages_outbox = 9
place blocked = 10
place announcements = 11
place channel_history = 12
place channel_history_received = 13
place channel_history_room_received = 14
place channel_peers = 15
place channel_peers_received = 16

-- The columns and constraints of a table, or the table and the columns of an index, as SQLite is given them.
unfoldable pub columns : Object → List String
columns identity =
    "id INTEGER PRIMARY KEY CHECK (id = 1)" ∷ "secret BLOB NOT NULL" ∷ "created_at INTEGER NOT NULL"
    ∷ []
columns bookmarks =
    "id TEXT PRIMARY KEY" ∷ "scope INTEGER NOT NULL" ∷ "title TEXT NOT NULL"
    ∷ "ticket TEXT NOT NULL" ∷ "updated_at INTEGER NOT NULL" ∷ []
columns bookmarks_scope = "ON bookmarks" ∷ "scope" ∷ "updated_at" ∷ []
columns blobs =
    "hash BLOB PRIMARY KEY" ∷ "name TEXT NOT NULL" ∷ "size INTEGER NOT NULL"
    ∷ "added_at INTEGER NOT NULL" ∷ []
columns profile = "key TEXT PRIMARY KEY" ∷ "value TEXT NOT NULL" ∷ []
columns friends =
    "id INTEGER PRIMARY KEY" ∷ "name TEXT NOT NULL" ∷ "nostr_pubkey BLOB UNIQUE"
    ∷ "added_at INTEGER NOT NULL" ∷ []
columns friend_devices =
    "node_id BLOB PRIMARY KEY"
    ∷ "friend_id INTEGER NOT NULL REFERENCES friends(id) ON DELETE CASCADE" ∷ "addr BLOB"
    ∷ "added_at INTEGER NOT NULL" ∷ "last_seen INTEGER" ∷ []
columns invites =
    "secret BLOB PRIMARY KEY" ∷ "created_at INTEGER NOT NULL" ∷ "expires_at INTEGER NOT NULL"
    ∷ "redeemed_by BLOB" ∷ "redeemed_at INTEGER" ∷ []
columns messages =
    "peer BLOB NOT NULL" ∷ "outgoing INTEGER NOT NULL" ∷ "msg_id INTEGER NOT NULL"
    ∷ "body TEXT NOT NULL" ∷ "sent_at INTEGER NOT NULL" ∷ "delivered_at INTEGER"
    ∷ "PRIMARY KEY (peer, outgoing, msg_id)" ∷ []
columns messages_outbox = "ON messages" ∷ "peer" ∷ "outgoing" ∷ "delivered_at" ∷ []
columns blocked = "node_id BLOB PRIMARY KEY" ∷ "blocked_at INTEGER NOT NULL" ∷ []
columns announcements =
    "author BLOB NOT NULL" ∷ "seq INTEGER NOT NULL" ∷ "issued_at INTEGER NOT NULL"
    ∷ "title TEXT NOT NULL" ∷ "body TEXT NOT NULL" ∷ "signed BLOB NOT NULL"
    ∷ "received_at INTEGER NOT NULL" ∷ "PRIMARY KEY (author, seq)" ∷ []
columns channel_history =
    "room BLOB NOT NULL CHECK(length(room) = 32)"
    ∷ "signature BLOB NOT NULL CHECK(length(signature) = 64)" ∷ "encoded BLOB NOT NULL"
    ∷ "received_at INTEGER NOT NULL CHECK(received_at >= 0)" ∷ "PRIMARY KEY (room, signature)" ∷ []
columns channel_history_received = "ON channel_history" ∷ "received_at" ∷ "signature" ∷ []
columns channel_history_room_received =
    "ON channel_history" ∷ "room" ∷ "received_at" ∷ "signature" ∷ []
columns channel_peers =
    "room BLOB NOT NULL CHECK(length(room) = 32)" ∷ "peer BLOB NOT NULL CHECK(length(peer) = 32)"
    ∷ "offer BLOB NOT NULL CHECK(length(offer) BETWEEN 1 AND 4096)"
    ∷ "received_at INTEGER NOT NULL CHECK(received_at >= 0)" ∷ "PRIMARY KEY(room, peer)" ∷ []
columns channel_peers_received = "ON channel_peers" ∷ "received_at" ∷ "room" ∷ "peer" ∷ []

pub record Database : Type 0 where
  pub user_version : ℕ
  pub objects : List Object

-- `CREATE .. IF NOT EXISTS`
unfoldable pub create_if_absent : List Object → Object → List Object
unfolding place
create_if_absent [] o = o ∷ []
create_if_absent (p ∷ objects) o =
    p ∷ (if nat_beq (place p) (place o) then objects else create_if_absent objects o)

unfoldable pub create_all : List Object → List Object → List Object
unfolding create_if_absent
create_all objects [] = objects
create_all objects (o ∷ more) = create_all (create_if_absent objects o) more

abbrev pub batch_1 : List Object
batch_1 = identity ∷ bookmarks ∷ bookmarks_scope ∷ blobs ∷ []

abbrev pub batch_2 : List Object
batch_2 = profile ∷ friends ∷ friend_devices ∷ invites ∷ messages ∷ messages_outbox ∷ []

abbrev pub batch_3 : List Object
batch_3 = blocked ∷ announcements ∷ []

abbrev pub batch_4 : List Object
batch_4 = channel_history ∷ channel_history_received ∷ channel_history_room_received ∷ []

abbrev pub batch_5 : List Object
batch_5 = channel_peers ∷ channel_peers_received ∷ []

-- `if version < n { execute_batch(..) }`, which ends with `PRAGMA user_version = n`. The version tested is the
-- one that was read at the start.
unfoldable pub upgrade : ℕ → ℕ → List Object → Database → Database
unfolding create_all
upgrade version n batch db =
    if ltb version n then record { user_version = n; objects = create_all db.objects batch } else db

unfoldable pub migrate : Database → Database
unfolding upgrade
migrate db =
    let version = db.user_version in
    upgrade version 5 batch_5 (
      upgrade version 4 batch_4
        (upgrade version 3 batch_3 (upgrade version 2 batch_2 (upgrade version 1 batch_1 db))))
