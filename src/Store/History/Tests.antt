-- ===== src/Store/History/Tests.antt =====
-- Runs of the table `channel_history` of store.rs, and its theorems at concrete inputs.
use xivlantern_dalamud.Prelude.{
  ◌≡◌, refl, pos, true, none, List, [], ◌∷◌, arith, any, retain, nat_eq, bytes_eq, bytes_beq,
}
use xivlantern_dalamud.Error.{ok}
use xivlantern_dalamud.ChannelHistory.{HistoryRecord}
use xivlantern_dalamud.ChannelHistory.Distinct.{has_signature}
use xivlantern_dalamud.ChannelHistory.Tests.{toy, room, other_room, raw, line, verify_raw}
use xivlantern_dalamud.ChannelHistory.Sorting.{sort, cmp_bytes}
use xivlantern_dalamud.ChannelHistory.Snapshot.{is_seen, new_records}
use xivlantern_dalamud.Store.History.{
  Row, is_before, put_row, newest_first, newest, is_key, is_in, is_kept, insert_or_ignore,
  delete_old, limit_room, limit_all, trim, insert_verified, channel_history_insert, is_readable,
  channel_history_read,
}
use xivlantern_dalamud.Store.History.Insert.{
  IsLimited, channel_history_insert-IsLimited, channel_history_read-insert,
}
use xivlantern_dalamud.Store.History.ReadSound.{IsAuthentic, channel_history_read-IsAuthentic}

-- A row of another room, which nothing verifies.
abbrev forged : Row
forged = record { room = other_room; signature = 1 ∷ []; encoded = 2 ∷ []; received_at = 50 }

abbrev stored_row : Row
stored_row = record {
  room = room;
  signature = line.signature;
  encoded = line.encoded;
  received_at = 100;
}

stores :
    channel_history_insert toy none (forged ∷ []) room raw (pos 100)
    ≡ (stored_row ∷ forged ∷ [], ok true)
unfolding channel_history_insert insert_verified insert_or_ignore is_key bytes_beq any trim
    limit_all limit_room delete_old newest newest_first put_row is_before is_in is_kept retain
    cmp_bytes
stores = rw (verify_raw, channel_history_insert) refl

abbrev table : List Row
table = record stored_row { encoded = raw } ∷ forged ∷ []

-- The forged row does not come out.
reads : channel_history_read toy none table room (pos 100) ≡ ok (line ∷ [])
unfolding channel_history_read is_readable is_in is_kept newest newest_first put_row retain
    bytes_beq new_records is_seen any sort
reads = rw (verify_raw, new_records) refl

channel_history_insert-IsLimited_example : IsLimited room 100 (stored_row ∷ forged ∷ [])
channel_history_insert-IsLimited_example =
    channel_history_insert-IsLimited toy none (forged ∷ []) (stored_row ∷ forged ∷ []) room raw 100
      true stores

channel_history_read-insert_example :
    (rows' : List Row) × (channel_history_insert toy none (forged ∷ []) room raw (pos 100)
      ≡ (rows', ok true))
    × ((out : List HistoryRecord) × (channel_history_read toy none rows' room (pos 100) ≡ ok out)
        × (any (has_signature line.signature) out ≡ true))
unfolding is_key any bytes_beq
channel_history_read-insert_example =
    channel_history_read-insert toy (forged ∷ []) room raw 100 line verify_raw refl
      (omega arith, tt)

channel_history_read-IsAuthentic_example : IsAuthentic toy room (line ∷ [])
channel_history_read-IsAuthentic_example =
    channel_history_read-IsAuthentic toy none table room (pos 100) (line ∷ []) reads
