-- ===== src/ChannelHistory/ReadSound.antt =====
-- What `read_snapshot` of channel_history.rs gives out, whatever bytes it is handed.
use mathlib.Core.Path.{subst}
use xivlantern_dalamud.Prelude.{
  ℕ, zero, suc, ◌≤◌, ◌≡◌, refl, sym, Option, none, some, List, [], ◌∷◌, ◌++◌, arith, if◌then◌else◌,
  length, length-append, All, guarded, le_of_not-ltb, ltb, drop,
}
use xivlantern_dalamud.Bytes.{Bytes, slice, be_value}
use xivlantern_dalamud.Crypto.{Signatures}
use xivlantern_dalamud.ChannelHistory.{HistoryRecord, verify}
use xivlantern_dalamud.ChannelHistory.Sorting.{IsSorted, sort, sort-IsSorted, length-sort, All-sort}
use xivlantern_dalamud.ChannelHistory.Snapshot.{
  snapshot_header, max_records, admit, take_entry, push_all, read_entries, is_bad_header, finish,
  read_snapshot,
}
use xivlantern_dalamud.ChannelHistory.Distinct.{
  IsDistinct, IsFresh, Verifies, admit-IsDistinct, All-admit, verify_again, length-admit,
  sort-IsDistinct,
}

-- What the loop has established of the records that it gives back.
record IsRead (s : Signatures) (room : Bytes) (count : ℕ) (seen : List Bytes)
    (rs : List HistoryRecord) : Type 0 where
  few : length rs ≤ count
  verifies : All (Verifies s room) rs
  fresh : IsFresh seen rs
  distinct : IsDistinct rs

push_all-eq-some :
    (new : List HistoryRecord) (o : Option (List HistoryRecord × Bytes)) (rs : List HistoryRecord)
    (left : Bytes)
    → push_all new o ≡ some (rs, left)
    → (later : List HistoryRecord) × (o ≡ some (later, left)) × (rs ≡ new ++ later)
unfolding push_all
push_all-eq-some new none rs left h = absurd (cc)
push_all-eq-some new (some (later, end)) rs left h = (later, ground arith, ground arith)

one_more :
    (s : Signatures) (room : Bytes) (count : ℕ) (seen : List Bytes) (o : Option HistoryRecord)
    (later : List HistoryRecord)
    → ((r : HistoryRecord) → o ≡ some r → Verifies s room r)
    → IsRead s room count (admit seen o).1 later
    → IsRead s room (suc count) seen ((admit seen o).0 ++ later)
one_more s room count seen o later new ih =
    let (fresh, distinct) = admit-IsDistinct seen o later ih.fresh ih.distinct in
    record {
      few = omega (arith, length-append (admit seen o).0 later, length-admit seen o, ih.few);
      verifies = All-admit (Verifies s room) seen o later new ih.verifies;
      fresh = fresh;
      distinct = distinct;
    }

read_entries-IsRead :
    (s : Signatures) (room : Bytes) (count : ℕ) (rest : Bytes) (seen : List Bytes)
    (rs : List HistoryRecord) (left : Bytes)
    → read_entries s room count rest seen ≡ some (rs, left)
    → IsRead s room count seen rs
unfolding read_entries
read_entries-IsRead s room zero rest seen [] left h = record {
  few = omega arith;
  verifies = tt;
  fresh = tt;
  distinct = tt;
}
read_entries-IsRead s room zero rest seen (r ∷ rs) left h = absurd (ground arith)
read_entries-IsRead s room (suc count) rest seen rs left h =
    by_entry (take_entry rest) (read_entries-IsRead s room count) h
  where
    by_entry :
        (o : Option (Bytes × Bytes))
        → ((rest : Bytes) (seen : List Bytes) (rs : List HistoryRecord) (left : Bytes)
            → read_entries s room count rest seen ≡ some (rs, left)
            → IsRead s room count seen rs)
        → elim o [
          | none ↦ none
          | some (raw, next) ↦
              let (new, seen') = admit seen (verify s room raw) in
              push_all new (read_entries s room count next seen')
        ]
          ≡ some (rs, left)
        → IsRead s room (suc count) seen rs
    by_entry none ih e = absurd (cc)
    by_entry (some (raw, next)) ih e =
        let o = verify s room raw in
        let (later, read, same) = push_all-eq-some (admit seen o).0 _ rs left e in
        subst (IsRead s room (suc count) seen) (sym same)
          (one_more s room count seen o later (verify_again s room raw) (ih next _ later left read))

finish-eq-some :
    (o : Option (List HistoryRecord × Bytes)) (rs : List HistoryRecord)
    → finish o ≡ some rs
    → (read : List HistoryRecord) × (o ≡ some (read, [])) × (rs ≡ sort read)
unfolding finish
finish-eq-some none rs h = absurd (cc)
finish-eq-some (some (read, [])) rs h = (read, refl, ground arith)
finish-eq-some (some (read, b ∷ left)) rs h = absurd (cc)

-- Whatever bytes a snapshot is read from, at most 256 records come out; each one verifies for the
-- room, no signature comes twice, and they are in order.
pub read_snapshot_sound :
    (s : Signatures) (room bytes : Bytes) (rs : List HistoryRecord)
    → read_snapshot s room bytes ≡ some rs
    → (length rs ≤ max_records) × All (Verifies s room) rs × IsDistinct rs × IsSorted rs
unfolding read_snapshot
read_snapshot_sound s room bytes rs h =
    let count = be_value (slice 40 42 bytes) in
    let rest = drop snapshot_header bytes in
    let loop = read_entries s room count rest [] in
    let (_, h₁) =
      guarded (is_bad_header room bytes) (if ltb max_records count then none else finish loop) h in
    let (within, h₂) = guarded (ltb max_records count) (finish loop) h₁ in
    let (read, ran, same) = finish-eq-some loop rs h₂ in
    let all = read_entries-IsRead s room count rest [] read [] ran in
    let few = le_of_not-ltb max_records count within in
    rw same (
      omega (arith, length-sort read, all.few),
      All-sort (Verifies s room) read all.verifies,
      sort-IsDistinct read all.distinct,
      sort-IsSorted read,
    )
