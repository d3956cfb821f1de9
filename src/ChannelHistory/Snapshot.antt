-- ===== src/ChannelHistory/Snapshot.antt =====
-- `snapshot` and `read_snapshot` of channel_history.rs: the framing that carries records in bulk.
use xivlantern_dalamud.Prelude.{
  ℕ, zero, suc, ◌+◌, ◌*◌, Bool, not, ◌||◌, Option, none, some, List, [], ◌∷◌, ◌++◌, ltb,
  if◌then◌else◌, length, take, drop, any, ◌==◌, nat_eq, bytes_eq,
}
use xivlantern_dalamud.Error.{Result, ok, err, too_large}
use xivlantern_dalamud.Bytes.{Bytes, slice, be_bytes, be_value}
use xivlantern_dalamud.Crypto.{Signatures}
use xivlantern_dalamud.ChannelHistory.{codes, max_record_bytes, HistoryRecord, verify}
use xivlantern_dalamud.ChannelHistory.Sorting.{sort}

abbrev pub snapshot_magic : Bytes
snapshot_magic = codes "LTHSNAP1"

abbrev pub snapshot_header : ℕ
snapshot_header = 42

abbrev pub max_records : ℕ
max_records = 256

abbrev pub max_snapshot_bytes : ℕ
max_snapshot_bytes = snapshot_header + max_records * (2 + max_record_bytes)

-- `HashSet::contains` of the signatures seen
unfoldable pub is_seen : Bytes → List Bytes → Bool
is_seen sig seen = any (λ old. old == sig) seen

-- `if let Some(record)`, then `seen.insert`: the record if it is new, and the signatures seen now.
unfoldable pub admit : List Bytes → Option HistoryRecord → List HistoryRecord × List Bytes
unfolding is_seen
admit seen none = ([], seen)
admit seen (some r) = if is_seen r.signature seen then ([], seen) else (r ∷ [], r.signature ∷ seen)

-- The length and the bytes of one record.
unfoldable pub entry : HistoryRecord → Bytes
entry r = be_bytes 2 (length r.encoded) ++ r.encoded

unfoldable pub entries : List HistoryRecord → Bytes
unfolding entry
entries [] = []
entries (r ∷ rs) = entry r ++ entries rs

unfoldable pub snapshot_bytes : Bytes → List HistoryRecord → Bytes
snapshot_bytes room valid = snapshot_magic ++ (room ++ (be_bytes 2 (length valid) ++ entries valid))

-- One round's framing: the length, then that many bytes, and the bytes behind them.
unfoldable pub take_entry : Bytes → Option (Bytes × Bytes)
take_entry rest =
    let len = be_value (take 2 rest) in
    let after = drop 2 rest in
    if ltb (length rest) 2 || (ltb max_record_bytes len || ltb (length after) len)
    then none
    else some (take len after, drop len after)

-- `records.push(record)` of a round, before the rounds that follow.
unfoldable pub push_all :
    List HistoryRecord → Option (List HistoryRecord × Bytes) → Option (List HistoryRecord × Bytes)
push_all new none = none
push_all new (some (rs, left)) = some (new ++ rs, left)

-- The first refusal of `read_snapshot`: the size, the magic bytes and the room.
unfoldable pub is_bad_header : Bytes → Bytes → Bool
is_bad_header room bytes =
    ltb (length bytes) snapshot_header
    || (ltb max_snapshot_bytes (length bytes)
        || (not (take 8 bytes == snapshot_magic) || not (slice 8 40 bytes == room)))

-- `pos != bytes.len()`, and the sort
unfoldable pub finish : Option (List HistoryRecord × Bytes) → Option (List HistoryRecord)
finish none = none
finish (some (rs, [])) = some (sort rs)
finish (some (rs, b ∷ left)) = none

module _ (s : Signatures) where
  -- Both iterator stages: records that verify, each signature once.
  unfoldable pub new_records : Bytes → List Bytes → List Bytes → List HistoryRecord
  unfolding admit
  new_records room seen [] = []
  new_records room seen (raw ∷ rest) =
      let (new, seen') = admit seen (verify s room raw) in new ++ new_records room seen' rest

  unfoldable pub snapshot : Bytes → List Bytes → Result Bytes
  snapshot room records =
      if ltb max_records (length records)
      then err too_large
      else ok (snapshot_bytes room (sort (new_records room [] records)))

  -- The loop of `read_snapshot`: `rest` is `bytes[pos..]`, and what is left of it comes back.
  unfoldable pub read_entries : Bytes → ℕ → Bytes → List Bytes → Option (List HistoryRecord × Bytes)
  read_entries room zero rest seen = some ([], rest)
  read_entries room (suc count) rest seen = elim (take_entry rest) [
    | none ↦ none
    | some (raw, next) ↦
        let (new, seen') = admit seen (verify s room raw) in
        push_all new (read_entries room count next seen')
  ]

  unfoldable pub read_snapshot : Bytes → Bytes → Option (List HistoryRecord)
  read_snapshot room bytes =
      let count = be_value (slice 40 42 bytes) in
      let read = read_entries room count (drop snapshot_header bytes) [] in
      if is_bad_header room bytes then none else if ltb max_records count then none else finish read
