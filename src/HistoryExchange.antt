-- ===== src/HistoryExchange.antt =====
-- crates/lantern-core/src/node/history.rs: the bounded exchange of channel history between members. This
-- file is `Cache`, the snapshots that are offered; HistoryExchange/Requests is what a room asks for and
-- accepts, HistoryExchange/Offer what it answers, HistoryExchange/Catchup what happens to its records, and
-- HistoryExchange/Peers the offers that are remembered. Time is in milliseconds, and `elapsed` of an
-- instant that is still to come is 0.
pub mod Bounded
pub mod Requests
pub mod Providers
pub mod Peers
pub mod Catchup
pub mod Offer
mod Tests
use xivlantern_dalamud.Prelude.{
  ℕ, ◌-◌, ◌*◌, ◌+◌, Bool, true, false, not, ◌&&◌, ◌||◌, Option, none, some, List, [], ◌∷◌, ◌==◌,
  nat_eq, bytes_eq, leb, ltb, length, if◌then◌else◌,
}
use xivlantern_dalamud.Bytes.{Bytes}
use xivlantern_dalamud.HashMap.{HashMap, get, contains_key, insert, remove, retain, update_at}
use xivlantern_dalamud.ChannelHistory.Snapshot.{snapshot_header, max_snapshot_bytes}

abbrev pub request_lifetime : ℕ
request_lifetime = 15 * 1000

abbrev pub snapshot_lease : ℕ
snapshot_lease = 60 * 1000

abbrev pub max_snapshots : ℕ
max_snapshots = 32

abbrev pub max_sealed_snapshot_bytes : ℕ
max_sealed_snapshot_bytes = max_snapshot_bytes + 256

pub record Snapshot : Type 0 where
  pub rooms : HashMap ℕ (Unit {0})
  pub leased : ℕ
  pub bytes : Bytes
  pub checked : ℕ
  pub revision : ℕ

abbrev pub Cache : Type 0
Cache = HashMap Bytes Snapshot

unfoldable pub is_leased : ℕ → Snapshot → Bool
is_leased now s = ltb (now - s.leased) snapshot_lease

unfoldable pub prune : ℕ → Cache → Cache
unfolding is_leased
prune now entries = retain (λ hash s. is_leased now s) entries

-- `s.rooms.remove(&room)`, and whether a room is left
unfoldable pub without_room : ℕ → Snapshot → Snapshot
without_room room s = record s { rooms = remove s.rooms room }

unfoldable pub has_room : Snapshot → Bool
has_room s = not (leb (length s.rooms) 0)

unfoldable pub leave : ℕ → Cache → Cache
unfolding without_room has_room
leave room [] = []
leave room ((hash, s) ∷ entries) =
    let rest = leave room entries in
    if has_room (without_room room s) then (hash, without_room room s) ∷ rest else rest

-- What `get` looks for.
unfoldable pub is_fresh : ℕ → ℕ → ℕ → Snapshot → Bool
is_fresh now room revision s =
    contains_key s.rooms room && (s.revision == revision && ltb (now - s.checked) 2000)

unfoldable pub find_fresh : ℕ → ℕ → ℕ → Cache → Option (Bytes × ℕ)
unfolding is_fresh
find_fresh now room revision [] = none
find_fresh now room revision ((hash, s) ∷ entries) =
    if is_fresh now room revision s
    then some (hash, length s.bytes)
    else find_fresh now room revision entries

unfoldable pub renew_lease : ℕ → Snapshot → Snapshot
renew_lease now s = record s { leased = now }

-- The offer of a room, with its hash and size, and a lease for the time of the fetch.
unfoldable pub get_snapshot : ℕ → ℕ → ℕ → Cache → Option (Bytes × ℕ) × Cache
unfolding prune find_fresh renew_lease
get_snapshot now room revision entries =
    let kept = prune now entries in
    elim (find_fresh now room revision kept) [
      | none ↦ (none, kept)
      | some (hash, size) ↦ (some (hash, size), update_at (renew_lease now) kept hash)
    ]

-- `entry(hash).and_modify(..)`
unfoldable pub note_room : ℕ → ℕ → ℕ → Snapshot → Snapshot
note_room now room revision s = record s {
  rooms = insert s.rooms room tt;
  checked = now;
  leased = now;
  revision = revision;
}

-- `.or_insert(..)`
unfoldable pub new_snapshot : ℕ → ℕ → ℕ → Bytes → Snapshot
new_snapshot now room revision bytes = record {
  rooms = (room, tt) ∷ [];
  leased = now;
  bytes = bytes;
  checked = now;
  revision = revision;
}

unfoldable pub enter : ℕ → ℕ → ℕ → Bytes → Bytes → Cache → Cache
unfolding note_room new_snapshot
enter now room revision hash bytes entries =
    if contains_key entries hash
    then update_at (note_room now room revision) entries hash
    else insert entries hash (new_snapshot now room revision bytes)

unfoldable pub put_bounded : ℕ → ℕ → ℕ → Bytes → Bytes → ℕ → Cache → Bool × Cache
unfolding prune enter
put_bounded now room revision hash bytes maximum entries =
    let kept = prune now entries in
    if ltb (length bytes) snapshot_header || ltb maximum (length bytes)
    then (false, entries)
    else if not (contains_key kept hash) && leb max_snapshots (length kept)
    then (false, kept)
    else (true, enter now room revision hash bytes kept)

unfoldable pub put : ℕ → ℕ → ℕ → Bytes → Bytes → Cache → Bool × Cache
unfolding put_bounded
put now room revision hash bytes entries =
    put_bounded now room revision hash bytes max_snapshot_bytes entries

unfoldable pub put_sealed : ℕ → ℕ → ℕ → Bytes → Bytes → Cache → Bool × Cache
unfolding put_bounded
put_sealed now room revision hash bytes entries =
    put_bounded now room revision hash bytes max_sealed_snapshot_bytes entries
