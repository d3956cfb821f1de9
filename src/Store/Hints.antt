-- ===== src/Store/Hints.antt =====
-- crates/lantern-core/src/store.rs: the table `channel_peers` of remembered offers. A table is the list of its
-- rows; nothing depends on their order.
pub mod Whole
pub mod Limited
mod Tests
use Prim.Native.String.{String}
use xivlantern_dalamud.Prelude.{
  ℕ, ◌+◌, ◌-◌, ◌*◌, ℤ, pos, negsuc, Bool, true, false, not, ◌&&◌, ◌||◌, Option, none, some, List,
  [], ◌∷◌, ◌++◌, ◌==◌, ltb, leb, length, take, retain, map, nat_eq, bytes_eq, if◌then◌else◌,
}
use xivlantern_dalamud.Bytes.{Bytes}
use xivlantern_dalamud.Error.{arg, store, Result, ok, err}
use xivlantern_dalamud.Store.Transaction.{
  Failure, Sql, statement, pure, and_then, ◌>>=◌, ◌>>◌, write, transaction,
}
use xivlantern_dalamud.ChannelHistory.Sorting.{cmp_bytes, is_le}
use xivlantern_dalamud.Store.Counting.{in_order}

abbrev pub peer_hint_retention_ms : ℕ
peer_hint_retention_ms = 30 * 24 * 60 * 60 * 1000

abbrev pub max_peer_hint_bytes : ℕ
max_peer_hint_bytes = 4096

abbrev pub max_room_peer_hints : ℕ
max_room_peer_hints = 32

abbrev pub max_peer_hints : ℕ
max_peer_hints = 256

-- `received_at` is at least 0, by a check of the table.
pub record HintRow : Type 0 where
  pub room : Bytes
  pub peer : Bytes
  pub offer : Bytes
  pub received_at : ℕ

unfoldable pub is_room : Bytes → HintRow → Bool
is_room room row = row.room == room

-- Not `received_at < now - PEER_HINT_RETENTION_MS OR received_at > now`, for a `now` that is not negative
unfoldable pub is_current : ℕ → HintRow → Bool
is_current now row = leb now (row.received_at + peer_hint_retention_ms) && leb row.received_at now

-- `ON CONFLICT(room,peer) DO UPDATE`
unfoldable pub upsert : HintRow → List HintRow → List HintRow
upsert new [] = new ∷ []
upsert new (row ∷ rows) =
    let rest = upsert new rows in
    if row.room == new.room && row.peer == new.peer
    then record row { offer = new.offer; received_at = new.received_at } ∷ rows
    else row ∷ rest

-- `received_at DESC,peer DESC`
unfoldable pub is_later : HintRow → HintRow → Bool
is_later a b =
    ltb b.received_at a.received_at
    || (a.received_at == b.received_at && is_le (cmp_bytes b.peer a.peer))

-- `received_at DESC,room DESC,peer DESC`
unfoldable pub is_later_in_all : HintRow → HintRow → Bool
is_later_in_all a b =
    ltb b.received_at a.received_at
    || (a.received_at == b.received_at
        && (if a.room == b.room
            then is_le (cmp_bytes b.peer a.peer)
            else is_le (cmp_bytes b.room a.room)))

-- The three deletions of an insertion.
unfoldable pub delete_stale : ℕ → List HintRow → List HintRow
unfolding is_current
delete_stale now rows = retain (is_current now) rows

unfoldable pub limit_room_hints : Bytes → List HintRow → List HintRow
unfolding is_room
limit_room_hints room rows =
    take max_room_peer_hints (in_order is_later (retain (is_room room) rows))
    ++ retain (λ row. not (is_room room row)) rows

unfoldable pub limit_hints : List HintRow → List HintRow
limit_hints rows = take max_peer_hints (in_order is_later_in_all rows)

-- The statements of the transaction.
unfoldable pub upsert_and_trim : HintRow → Sql (List HintRow) (Unit {0})
unfolding upsert delete_stale limit_room_hints limit_hints and_then statement pure
upsert_and_trim new = do
  write (upsert new)
  write (delete_stale new.received_at)
  write (limit_room_hints new.room)
  write limit_hints

unfoldable pub write_hint : Failure → List HintRow → HintRow → List HintRow × Result (Unit {0})
unfolding upsert_and_trim transaction
write_hint failure rows new = transaction (upsert_and_trim new) failure rows

unfoldable pub channel_peer_hint_put :
    Failure → List HintRow → Bytes → Bytes → Bytes → ℤ → List HintRow × Result (Unit {0})
unfolding write_hint
channel_peer_hint_put failure rows room peer offer (negsuc n) =
    (rows, err (arg "invalid channel provider hint"))
channel_peer_hint_put failure rows room peer offer (pos now) =
    if leb (length offer) 0 || ltb max_peer_hint_bytes (length offer)
    then (rows, err (arg "invalid channel provider hint"))
    else write_hint failure rows
        (record { room = room; peer = peer; offer = offer; received_at = now })

-- The condition of the query of `channel_peer_hints`.
unfoldable pub is_hint : Bytes → ℕ → HintRow → Bool
unfolding is_room is_current
is_hint room now row =
    is_room room row
    && (is_current now row
        && (length row.peer == 32
            && (leb 1 (length row.offer) && leb (length row.offer) max_peer_hint_bytes)))

-- No row is received before the time 0.
unfoldable pub channel_peer_hints :
    Option String → List HintRow → Bytes → ℤ → Result (List (Bytes × Bytes))
unfolding is_hint
channel_peer_hints (some failure) rows room now = err (store failure)
channel_peer_hints none rows room (negsuc n) = ok []
channel_peer_hints none rows room (pos now) = ok (
    map (λ row. (row.peer, row.offer))
      (take max_room_peer_hints (in_order is_later (retain (is_hint room now) rows))))

-- The result is the number of rows that are deleted.
unfoldable pub channel_peer_hint_prune : Option String → List HintRow → ℤ → List HintRow × Result ℕ
unfolding delete_stale
channel_peer_hint_prune failure rows (negsuc n) =
    (rows, err (arg "invalid provider hint receipt time"))
channel_peer_hint_prune (some failure) rows (pos now) = (rows, err (store failure))
channel_peer_hint_prune none rows (pos now) =
    let rows' = delete_stale now rows in (rows', ok (length rows - length rows'))
