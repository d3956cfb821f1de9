-- ===== src/Store/History/Insert.antt =====
-- `channel_history_insert` of crates/lantern-core/src/store.rs: the limits it keeps, and that what it
-- puts into the table can be read.
use mathlib.Core.Path.{subst}
use xivlantern_dalamud.Prelude.{
  ℕ, ◌+◌, ◌≤◌, ◌≡◌, refl, ap, sym, ◌∙◌, pos, Option-cases, inl, inr, Bool, true, false, none, some,
  List, [], ◌∷◌, arith, ◌==◌, bytes_eq, leb, length, retain, any, map, All, count_if,
}
use xivlantern_dalamud.Bytes.{Bytes}
use xivlantern_dalamud.Error.{ok}
use xivlantern_dalamud.Crypto.{Signatures}
use xivlantern_dalamud.ChannelHistory.{
  HistoryRecord, verify, header, signature_len, max_record_bytes,
}
use xivlantern_dalamud.ChannelHistory.Sorting.{sort, any-sort}
use xivlantern_dalamud.ChannelHistory.Snapshot.{max_records, new_records, is_seen}
use xivlantern_dalamud.ChannelHistory.Sound.{verify-IsVerified}
use xivlantern_dalamud.ChannelHistory.Distinct.{has_signature, verify_again, new_records_complete}
use xivlantern_dalamud.Store.History.{
  Row, retention_ms, max_stored, newest, is_key, is_in, is_kept, insert_or_ignore, trim,
  insert_verified, channel_history_insert, is_readable, channel_history_read,
}
use xivlantern_dalamud.Store.Transaction.{Failure}
use xivlantern_dalamud.Store.History.Whole.{insert_verified-IsWhole, insert_verified_done}
use xivlantern_dalamud.Store.History.Retention.{is_old, trim_bounded}
use xivlantern_dalamud.Store.History.Readback.{
  IsEarlier, All-retain, newest_head, retain_head, trim_head,
}

-- The limits of the table at a time `now`.
pub record IsLimited (room : Bytes) (now : ℕ) (rows : List Row) : Type 0 where
  pub room_rows : count_if (is_in room) rows ≤ max_records
  pub all_rows : length rows ≤ max_stored
  pub none_old : count_if (is_old now) rows ≡ 0

trim-IsLimited :
    (room : Bytes) (now : ℕ) (rows : List Row) → IsLimited room now (trim room now rows)
trim-IsLimited room now rows =
    let (room_rows, all_rows, none_old) = trim_bounded room now rows in
    record { room_rows = room_rows; all_rows = all_rows; none_old = none_old }

insert_verified-IsLimited :
    (failure : Failure) (rows rows' : List Row) (room : Bytes) (r : HistoryRecord) (now : ℕ)
    (inserted : Bool)
    → insert_verified failure rows room r now ≡ (rows', ok inserted)
    → IsLimited room now rows'
insert_verified-IsLimited failure rows rows' room r now inserted h =
    elim (insert_verified-IsWhole failure rows room r now) [
      | inl (text, told, failed) ↦ absurd (cc (failed, h))
      | inr whole ↦
          subst (IsLimited room now)
            (ap (λ p. p.0) (sym (insert_verified_done rows room r now) ∙ sym whole ∙ h))
            (trim-IsLimited room now _)
    ]

-- A call that does not fail leaves at most 256 rows of its room, at most 8192 rows in all, and no row
-- older than the retention time, whatever was in the table before.
pub channel_history_insert-IsLimited :
    (s : Signatures) (failure : Failure) (rows rows' : List Row) (room encoded : Bytes) (now : ℕ)
    (inserted : Bool)
    → channel_history_insert s failure rows room encoded (pos now) ≡ (rows', ok inserted)
    → IsLimited room now rows'
unfolding channel_history_insert
channel_history_insert-IsLimited s failure rows rows' room encoded now inserted h =
    elim (Option-cases (verify s room encoded)) [
      | inl forged ↦ absurd (cc (rw (forged, channel_history_insert) at h))
      | inr (r, verified) ↦
          insert_verified-IsLimited failure rows rows' room r now inserted
            (rw (verified, channel_history_insert) at h)
    ]

le-leb : (a b : ℕ) → a ≤ b → leb a b ≡ true
le-leb a b h = ground arith

-- A record that verifies is within the sizes that a read admits.
is_readable_lem :
    (s : Signatures) (room encoded : Bytes) (now : ℕ) (r : HistoryRecord)
    → verify s room encoded ≡ some r
    → is_readable s room now
        (record { room = room; signature = r.signature; encoded = r.encoded; received_at = now })
      ≡ true
unfolding is_readable is_in is_kept
is_readable_lem s room encoded now r verified =
    let h = verify-IsVerified s room encoded r verified in
    let size = ap length h.encoded_bytes in
    let here : (room == room) ≡ true = (bytes_eq.equals_iff room room).1 refl in
    rw here (
      rw (le-leb now (now + retention_ms) (omega arith)) (
        rw (le-leb (header + signature_len) (length r.encoded) (omega (arith, h.framed, size)))
          (le-leb (length r.encoded) max_record_bytes (omega (arith, h.short, size)))))

-- The first row of the newest ones is among the records that come out.
found_first :
    (s : Signatures) (room encoded : Bytes) (r : HistoryRecord) (after : List Bytes)
    → verify s room encoded ≡ some r
    → any (has_signature r.signature) (sort (new_records s room [] (r.encoded ∷ after))) ≡ true
unfolding is_seen any
found_first s room encoded r after verified =
    any-sort (has_signature r.signature) (new_records s room [] (r.encoded ∷ after))
    ∙ new_records_complete s room [] [] r.encoded after r (verify_again s room encoded r verified)

-- A new record that is put into the table later than everything in it is found by a read at that time:
-- a record with its signature comes out.
pub channel_history_read-insert :
    (s : Signatures) (rows : List Row) (room encoded : Bytes) (now : ℕ) (r : HistoryRecord)
    → verify s room encoded ≡ some r
    → any (is_key room r.signature) rows ≡ false
    → All (IsEarlier now) rows
    → (rows' : List Row) × (channel_history_insert s none rows room encoded (pos now)
        ≡ (rows', ok true))
      × ((out : List HistoryRecord) × (channel_history_read s none rows' room (pos now) ≡ ok out)
          × (any (has_signature r.signature) out ≡ true))
unfolding channel_history_insert channel_history_read insert_or_ignore
channel_history_read-insert s rows room encoded now r verified new earlier =
    let row : Row = record {
      room = room;
      signature = r.signature;
      encoded = r.encoded;
      received_at = now;
    } in
    let (rest, trimmed, later) = trim_head row rows earlier in
    let readable = is_readable_lem s room encoded now r verified in
    (
      row ∷ rest,
      rw (verified, channel_history_insert)
          (insert_verified_done rows room r now
            ∙ rw (new, insert_or_ignore) (ap (λ t. (t, ok true)) trimmed)),
      (
        sort (
            new_records s room [] (
              map (λ q. q.encoded)
                (newest max_records (retain (is_readable s room now) (row ∷ rest))))),
        refl,
        ap
              (λ found.
                any (has_signature r.signature)
                  (sort (new_records s room [] (map (λ q. q.encoded) found))))
              (ap (newest max_records) (retain_head (is_readable s room now) row rest readable)
                ∙ newest_head 255 row (retain (is_readable s room now) rest)
                    (All-retain (IsEarlier now) (is_readable s room now) rest later))
            ∙ found_first s room encoded r
                (map (λ q. q.encoded) (newest 255 (retain (is_readable s room now) rest))) verified,
      ),
    )
