-- ===== src/ChannelHistory/SnapshotRoundTrip.antt =====
-- Whatever records `snapshot` of channel_history.rs is given, `read_snapshot` reads back those that
-- verify, each signature once, in order.
use xivlantern_dalamud.Prelude.{
  ◌+◌, ◌≤◌, ◌≡◌, refl, ap, ◌∙◌, true, some, List, [], ◌∷◌, ◌++◌, arith, not-ltb, any, length,
  length-append, take, drop, append-nil, All, bytes_eq,
}
use xivlantern_dalamud.Error.{ok}
use xivlantern_dalamud.Bytes.{Bytes, slice, be_bytes, be_value}
use xivlantern_dalamud.Bytes.Slices.{
  take-append, drop-drop, drop-append_whole, length-be_bytes, be_value-be_bytes,
}
use xivlantern_dalamud.Crypto.{Signatures}
use xivlantern_dalamud.ChannelHistory.{HistoryRecord, verify}
use xivlantern_dalamud.ChannelHistory.Sorting.{
  IsSorted, any-sort, sort, sort-IsSorted, sort_of_IsSorted, length-sort, All-sort,
}
use xivlantern_dalamud.ChannelHistory.Snapshot.{
  snapshot_magic, snapshot_header, max_records, max_snapshot_bytes, entries, snapshot_bytes,
  is_seen, new_records, snapshot, is_bad_header, finish, read_snapshot,
}
use xivlantern_dalamud.ChannelHistory.Distinct.{
  IsDistinct, IsFresh, Verifies, new_records-IsDistinct, new_records-Verifies, length-new_records,
  sort-IsDistinct, has_signature, new_records_complete,
}
use xivlantern_dalamud.ChannelHistory.Framing.{read_entries-entries, length-entries}

-- The header of a snapshot.
module _ (room : Bytes) (valid : List HistoryRecord) (room_len : length room ≡ 32) where
  abbrev count : Bytes
  count = be_bytes 2 (length valid)

  magic_lem : take 8 (snapshot_bytes room valid) ≡ snapshot_magic
  unfolding snapshot_bytes
  magic_lem = take-append 8 snapshot_magic (room ++ (count ++ entries valid)) refl

  drop-8 : drop 8 (snapshot_bytes room valid) ≡ room ++ (count ++ entries valid)
  unfolding snapshot_bytes
  drop-8 = drop-append_whole 8 snapshot_magic (room ++ (count ++ entries valid)) refl

  drop-40 : drop 40 (snapshot_bytes room valid) ≡ count ++ entries valid
  drop-40 =
      drop-drop 8 32 (snapshot_bytes room valid)
      ∙ ap (λ xs. drop 32 xs) drop-8
      ∙ drop-append_whole 32 room (count ++ entries valid) room_len

  room_lem : slice 8 40 (snapshot_bytes room valid) ≡ room
  room_lem = ap (λ xs. take 32 xs) drop-8 ∙ take-append 32 room (count ++ entries valid) room_len

  count_lem :
      length valid ≤ max_records → be_value (slice 40 42 (snapshot_bytes room valid)) ≡ length valid
  count_lem h =
      ap (λ xs. be_value (take 2 xs)) drop-40
      ∙ ap be_value (take-append 2 count (entries valid) (length-be_bytes 2 (length valid)))
      ∙ be_value-be_bytes 2 (length valid) (omega arith)

  drop-42 : drop snapshot_header (snapshot_bytes room valid) ≡ entries valid
  drop-42 =
      drop-drop 40 2 (snapshot_bytes room valid)
      ∙ ap (λ xs. drop 2 xs) drop-40
      ∙ drop-append_whole 2 count (entries valid) (length-be_bytes 2 (length valid))

  length-snapshot_bytes :
      length (snapshot_bytes room valid) ≡ snapshot_header + length (entries valid)
  unfolding snapshot_bytes
  length-snapshot_bytes = omega (
    arith,
    length-append room (count ++ entries valid),
    length-append count (entries valid),
    length-be_bytes 2 (length valid),
  )

-- The records that `snapshot` keeps of what it is given.
abbrev pub kept : Signatures → Bytes → List Bytes → List HistoryRecord
kept s room records = sort (new_records s room [] records)

unseen : (rs : List HistoryRecord) → IsFresh [] rs
unfolding is_seen any
unseen [] = tt
unseen (r ∷ rs) = (refl, unseen rs)

read_kept :
    (s : Signatures) (room : Bytes) (valid : List HistoryRecord)
    → length room ≡ 32
    → length valid ≤ max_records
    → All (Verifies s room) valid
    → IsDistinct valid
    → read_snapshot s room (snapshot_bytes room valid) ≡ some (sort valid)
unfolding read_snapshot is_bad_header finish
read_kept s room valid room_len few verifies distinct =
    let read = read_entries-entries s room valid [] [] verifies (unseen valid) distinct in
    let size = length-snapshot_bytes room valid room_len in
    let whole = length-entries s room valid verifies in
    rw (
      magic_lem room valid room_len,
      room_lem room valid room_len,
      count_lem room valid room_len few,
      drop-42 room valid room_len,
      not-ltb (length (snapshot_bytes room valid)) snapshot_header (omega arith),
      not-ltb max_snapshot_bytes (length (snapshot_bytes room valid)) (omega arith),
      (bytes_eq.equals_iff snapshot_magic snapshot_magic).1 refl,
      (bytes_eq.equals_iff room room).1 refl,
      not-ltb max_records (length valid) few,
      ← append-nil (entries valid),
      read,
      finish,
    )

-- What `snapshot` has checked of the list that it takes.
snapshot-eq-ok :
    (s : Signatures) (room : Bytes) (records : List Bytes) (bytes : Bytes)
    → snapshot s room records ≡ ok bytes
    → (length records ≤ max_records) × (bytes ≡ snapshot_bytes room (kept s room records))
unfolding snapshot
snapshot-eq-ok s room records bytes h = ground arith

-- A snapshot fits the size limit and is read back, whatever it was given: as records that verify,
-- each signature once, in order.
pub read_snapshot-snapshot :
    (s : Signatures) (room : Bytes) (records : List Bytes) (bytes : Bytes)
    → length room ≡ 32
    → snapshot s room records ≡ ok bytes
    → (length bytes ≤ max_snapshot_bytes)
      × (read_snapshot s room bytes ≡ some (kept s room records))
      × All (Verifies s room) (kept s room records)
      × IsDistinct (kept s room records)
      × IsSorted (kept s room records)
read_snapshot-snapshot s room records bytes room_len h =
    let (few, same) = snapshot-eq-ok s room records bytes h in
    let found = new_records s room [] records in
    let verifies = All-sort (Verifies s room) found (new_records-Verifies s room [] records) in
    let distinct = sort-IsDistinct found (new_records-IsDistinct s room [] records).1 in
    let short : length (sort found) ≤ max_records =
      omega (arith, length-sort found, length-new_records s room [] records) in
    (
      omega (
        arith,
        ap (λ xs. length xs) same,
        length-snapshot_bytes room (sort found) room_len,
        length-entries s room (sort found) verifies,
      ),
      rw same (
          read_kept s room (sort found) room_len short verifies distinct
          ∙ ap some (sort_of_IsSorted (sort found) (sort-IsSorted found))),
      verifies,
      distinct,
      sort-IsSorted found,
    )

-- No record that verifies is lost: one with its signature is among those kept.
pub kept_complete :
    (s : Signatures) (room : Bytes) (before : List Bytes) (raw : Bytes) (after : List Bytes)
    (r : HistoryRecord)
    → verify s room raw ≡ some r
    → any (has_signature r.signature) (kept s room (before ++ raw ∷ after)) ≡ true
unfolding is_seen any
kept_complete s room before raw after r h =
    any-sort (has_signature r.signature) (new_records s room [] (before ++ raw ∷ after))
    ∙ new_records_complete s room [] before raw after r h
