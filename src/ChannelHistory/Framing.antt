-- ===== src/ChannelHistory/Framing.antt =====
-- What the loop of `read_snapshot` of channel_history.rs makes of the entries that `snapshot` writes.
use xivlantern_dalamud.Prelude.{
  ◌+◌, ◌*◌, ◌≤◌, ◌≡◌, refl, ap, ◌∙◌, false, some, List, [], ◌∷◌, ◌++◌, arith, ltb, length, any,
  not-ltb, length-append, take, drop, append_assoc, All,
}
use xivlantern_dalamud.Bytes.{Bytes, be_bytes, be_value}
use xivlantern_dalamud.Bytes.Slices.{
  take-append, drop-append_whole, length-be_bytes, be_value-be_bytes,
}
use xivlantern_dalamud.Crypto.{Signatures}
use xivlantern_dalamud.ChannelHistory.{max_record_bytes, HistoryRecord}
use xivlantern_dalamud.ChannelHistory.Sound.{verify-IsVerified}
use xivlantern_dalamud.ChannelHistory.Snapshot.{
  is_seen, admit, entry, entries, take_entry, push_all, read_entries,
}
use xivlantern_dalamud.ChannelHistory.Distinct.{has_signature, IsDistinct, IsFresh, Verifies}

short_of_Verifies :
    (s : Signatures) (room : Bytes) (r : HistoryRecord)
    → Verifies s room r
    → length r.encoded ≤ max_record_bytes
short_of_Verifies s room r h = (verify-IsVerified s room r.encoded r h).short

-- One entry at the front: its length, its bytes and what follows.
module _ (r : HistoryRecord) (rest : Bytes) (short : length r.encoded ≤ max_record_bytes) where
  entry-length : be_value (take 2 (entry r ++ rest)) ≡ length r.encoded
  unfolding entry
  entry-length =
      ap (λ xs. be_value (take 2 xs)) (append_assoc (be_bytes 2 (length r.encoded)) r.encoded rest)
      ∙ ap be_value (
          take-append 2 (be_bytes 2 (length r.encoded)) (r.encoded ++ rest)
            (length-be_bytes 2 (length r.encoded)))
      ∙ be_value-be_bytes 2 (length r.encoded) (omega arith)

  entry_after : drop 2 (entry r ++ rest) ≡ r.encoded ++ rest
  unfolding entry
  entry_after =
      ap (λ xs. drop 2 xs) (append_assoc (be_bytes 2 (length r.encoded)) r.encoded rest)
      ∙ drop-append_whole 2 (be_bytes 2 (length r.encoded)) (r.encoded ++ rest)
          (length-be_bytes 2 (length r.encoded))

  length-entry : length (entry r) ≡ 2 + length r.encoded
  unfolding entry
  length-entry = omega (
    arith,
    length-append {0} (be_bytes 2 (length r.encoded)),
    length-be_bytes 2 (length r.encoded),
  )

  pub take_entry-entry : take_entry (entry r ++ rest) ≡ some (r.encoded, rest)
  unfolding take_entry
  take_entry-entry =
      let (a, b, c) = length_tests in
      rw (
        entry-length,
        entry_after,
        take-append (length r.encoded) r.encoded rest refl,
        drop-append_whole (length r.encoded) r.encoded rest refl,
        a,
        b,
        c,
      )
    where
      length_tests :
          (ltb (length (entry r ++ rest)) 2 ≡ false)
          × (ltb max_record_bytes (length r.encoded) ≡ false)
          × (ltb (length (r.encoded ++ rest)) (length r.encoded) ≡ false)
      length_tests = (
        not-ltb (length (entry r ++ rest)) 2
            (omega (arith, length-append (entry r) rest, length-entry)),
        not-ltb max_record_bytes (length r.encoded) short,
        not-ltb (length (r.encoded ++ rest)) (length r.encoded)
            (omega (arith, length-append r.encoded rest)),
      )

-- A record that verifies and was not seen is admitted.
admit_new :
    (seen : List Bytes) (r : HistoryRecord)
    → is_seen r.signature seen ≡ false
    → admit seen (some r) ≡ (r ∷ [], r.signature ∷ seen)
unfolding admit
admit_new seen r h = rw h

IsFresh-next :
    (sig : Bytes) (seen : List Bytes) (rs : List HistoryRecord)
    → any (has_signature sig) rs ≡ false
    → IsFresh seen rs
    → IsFresh (sig ∷ seen) rs
unfolding any has_signature is_seen
IsFresh-next sig seen [] a f = tt
IsFresh-next sig seen (r ∷ rs) a f = ground (arith, IsFresh-next sig seen rs)

-- The loop reads back the records that were written, if they verify and none was seen.
pub read_entries-entries :
    (s : Signatures) (room : Bytes) (rs : List HistoryRecord) (tail : Bytes) (seen : List Bytes)
    → All (Verifies s room) rs
    → IsFresh seen rs
    → IsDistinct rs
    → read_entries s room (length rs) (entries rs ++ tail) seen ≡ some (rs, tail)
unfolding read_entries entries push_all
read_entries-entries s room [] tail seen v f d = refl
read_entries-entries s room (r ∷ rs) tail seen v f d =
    let rest = entries rs ++ tail in
    let framed = take_entry-entry r rest (short_of_Verifies s room r v.0) in
    let later =
      read_entries-entries s room rs tail (r.signature ∷ seen) v.1
        (IsFresh-next r.signature seen rs d.0 f.1) d.1 in
    rw (
      append_assoc (entry r) (entries rs) tail,
      framed,
      read_entries,
      v.0,
      admit_new seen r f.0,
      later,
    )

-- The entries of `n` records take at most `n` times the largest entry.
pub length-entries :
    (s : Signatures) (room : Bytes) (rs : List HistoryRecord)
    → All (Verifies s room) rs
    → length (entries rs) ≤ length rs * (2 + max_record_bytes)
unfolding entries
length-entries s room [] v = omega arith
length-entries s room (r ∷ rs) v = omega (
  arith,
  length-append (entry r) (entries rs),
  length-entry r [] (short_of_Verifies s room r v.0),
  short_of_Verifies s room r v.0,
  length-entries s room rs v.1,
)
