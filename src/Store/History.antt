-- ===== src/Store/History.antt =====
-- crates/lantern-core/src/store.rs: the table `channel_history`, its retention and its limits. A table
-- is the list of its rows; nothing depends on their order.
pub mod Whole
pub mod Retention
pub mod Readback
pub mod Insert
pub mod ReadSound
mod Tests
use Prim.Native.String.{String}
use xivlantern_dalamud.Prelude.{
  ℕ, ◌+◌, ◌-◌, ◌*◌, ℤ, pos, negsuc, Bool, true, false, not, ◌&&◌, ◌||◌, Option, none, some, List,
  [], ◌∷◌, ◌++◌, ◌==◌, ltb, leb, length, take, any, retain, map, nat_eq, bytes_eq, if◌then◌else◌,
}
use xivlantern_dalamud.Bytes.{Bytes}
use xivlantern_dalamud.Error.{Error, arg, store, Result, ok, err}
use xivlantern_dalamud.Crypto.{Signatures}
use xivlantern_dalamud.Store.Transaction.{
  Failure, Sql, statement, pure, and_then, ◌>>=◌, ◌>>◌, write, transaction,
}
use xivlantern_dalamud.ChannelHistory.{
  HistoryRecord, verify, header, signature_len, max_record_bytes,
}
use xivlantern_dalamud.ChannelHistory.Sorting.{cmp_bytes, is_le, sort}
use xivlantern_dalamud.ChannelHistory.Snapshot.{max_records, new_records}

abbrev pub retention_ms : ℕ
retention_ms = 24 * 60 * 60 * 1000

abbrev pub max_stored : ℕ
max_stored = 8192

-- `received_at` is at least 0, by a check of the table.
pub record Row : Type 0 where
  pub room : Bytes
  pub signature : Bytes
  pub encoded : Bytes
  pub received_at : ℕ

-- `ORDER BY received_at DESC, signature DESC`
unfoldable pub is_before : Row → Row → Bool
is_before a b =
    ltb b.received_at a.received_at
    || (a.received_at == b.received_at && is_le (cmp_bytes b.signature a.signature))

unfoldable pub put_row : Row → List Row → List Row
unfolding is_before
put_row x [] = x ∷ []
put_row x (y ∷ ys) = if is_before x y then x ∷ y ∷ ys else y ∷ put_row x ys

unfoldable pub newest_first : List Row → List Row
unfolding put_row
newest_first [] = []
newest_first (x ∷ rows) = put_row x (newest_first rows)

-- `LIMIT` behind that order, and also what a deletion beyond that limit leaves.
unfoldable pub newest : ℕ → List Row → List Row
unfolding newest_first
newest n rows = take n (newest_first rows)

unfoldable pub is_key : Bytes → Bytes → Row → Bool
is_key room signature row = row.room == room && row.signature == signature

unfoldable pub is_in : Bytes → Row → Bool
is_in room row = row.room == room

-- `received_at >= now - HISTORY_RETENTION_MS`, for a `now` that is not negative
unfoldable pub is_kept : ℕ → Row → Bool
is_kept now row = leb now (row.received_at + retention_ms)

-- `INSERT OR IGNORE` by the primary key
unfoldable pub insert_or_ignore : Row → List Row → List Row × Bool
unfolding is_key
insert_or_ignore row rows =
    if any (is_key row.room row.signature) rows then (rows, false) else (row ∷ rows, true)

-- The three deletions of one room's insertion.
unfoldable pub delete_old : ℕ → List Row → List Row
unfolding is_kept
delete_old now rows = retain (is_kept now) rows

unfoldable pub limit_room : Bytes → List Row → List Row
unfolding newest is_in
limit_room room rows =
    newest max_records (retain (is_in room) rows) ++ retain (λ row. not (is_in room row)) rows

unfoldable pub limit_all : List Row → List Row
unfolding newest
limit_all rows = newest max_stored rows

unfoldable pub trim : Bytes → ℕ → List Row → List Row
unfolding limit_all limit_room delete_old
trim room now rows = limit_all (limit_room room (delete_old now rows))

-- The statements of the transaction.
unfoldable pub insert_and_trim : Row → Sql (List Row) Bool
unfolding insert_or_ignore delete_old limit_room limit_all and_then statement pure
insert_and_trim row = do
  inserted ← statement (insert_or_ignore row)
  write (delete_old row.received_at)
  write (limit_room row.room)
  write limit_all
  pure inserted

unfoldable pub insert_verified :
    Failure → List Row → Bytes → HistoryRecord → ℕ → List Row × Result Bool
unfolding insert_and_trim transaction
insert_verified failure rows room r now =
    transaction
      (insert_and_trim
        (record { room = room; signature = r.signature; encoded = r.encoded; received_at = now }))
      failure rows

module _ (s : Signatures) where
  unfoldable pub channel_history_insert :
      Failure → List Row → Bytes → Bytes → ℤ → List Row × Result Bool
  channel_history_insert failure rows room encoded (negsuc n) =
      (rows, err (arg "invalid local receipt time"))
  channel_history_insert failure rows room encoded (pos now) = elim (verify s room encoded) [
    | none ↦ (rows, err (arg "invalid signed channel history record"))
    | some r ↦ insert_verified failure rows room r now
  ]

  -- The condition of the query of `channel_history_read`.
  unfoldable pub is_readable : Bytes → ℕ → Row → Bool
  unfolding is_in is_kept
  is_readable room now row =
      is_in room row
      && (is_kept now row
          && (leb (header + signature_len) (length row.encoded)
              && leb (length row.encoded) max_record_bytes))

  unfoldable pub channel_history_read :
      Option String → List Row → Bytes → ℤ → Result (List HistoryRecord)
  unfolding newest is_readable
  channel_history_read failure rows room (negsuc n) = err (arg "invalid local clock")
  channel_history_read (some failure) rows room (pos now) = err (store failure)
  channel_history_read none rows room (pos now) =
      let found = newest max_records (retain (is_readable room now) rows) in
      ok (sort (new_records s room [] (map (λ row. row.encoded) found)))

unfoldable pub channel_history_clear :
    Option String → List Row → Bytes → List Row × Result (Unit {0})
unfolding is_in
channel_history_clear (some failure) rows room = (rows, err (store failure))
channel_history_clear none rows room = (retain (λ row. not (is_in room row)) rows, ok tt)

-- The result is the number of rows that are deleted.
unfoldable pub channel_history_prune : Option String → List Row → ℤ → List Row × Result ℕ
unfolding delete_old
channel_history_prune failure rows (negsuc n) = (rows, err (arg "invalid local clock"))
channel_history_prune (some failure) rows (pos now) = (rows, err (store failure))
channel_history_prune none rows (pos now) =
    let rows' = delete_old now rows in (rows', ok (length rows - length rows'))
