-- ===== src/ChannelHistory/Distinct.antt =====
-- The records that `snapshot` of channel_history.rs keeps: verified, and each signature once.
use xivlantern_dalamud.Prelude.{
  ◌≤◌, ◌≡◌, refl, ap, ◌∙◌, Bool, true, false, Option, none, some, List, [], ◌∷◌, ◌++◌, ◌||◌, arith,
  length, length-append, any, any-append, All, ◌==◌, bytes_eq, Bool-cases, inl, inr,
}
use xivlantern_dalamud.Bytes.{Bytes}
use xivlantern_dalamud.Crypto.{Signatures}
use xivlantern_dalamud.ChannelHistory.{HistoryRecord, verify}
use xivlantern_dalamud.ChannelHistory.Sound.{verify-IsVerified}
use xivlantern_dalamud.ChannelHistory.Sorting.{insert, sort, any-insert, any-sort}
use xivlantern_dalamud.ChannelHistory.Snapshot.{is_seen, admit, new_records}

unfoldable pub has_signature : Bytes → HistoryRecord → Bool
has_signature sig r = sig == r.signature

-- No two records carry one signature.
abbrev pub IsDistinct : List HistoryRecord → Type 0
IsDistinct [] = Unit
IsDistinct (r ∷ rs) = (any (has_signature r.signature) rs ≡ false) × IsDistinct rs

-- No record carries a signature seen before.
abbrev pub IsFresh : List Bytes → List HistoryRecord → Type 0
IsFresh seen = All (λ r. is_seen r.signature seen ≡ false)

-- Reading the record's own bytes gives the record.
abbrev pub Verifies : Signatures → Bytes → HistoryRecord → Type 0
Verifies s room r = verify s room r.encoded ≡ some r

IsFresh-cons :
    (sig : Bytes) (seen : List Bytes) (rs : List HistoryRecord)
    → IsFresh (sig ∷ seen) rs
    → (any (has_signature sig) rs ≡ false) × IsFresh seen rs
unfolding is_seen has_signature any
IsFresh-cons sig seen [] h = (refl, tt)
IsFresh-cons sig seen (r ∷ rs) h =
    let (none_later, later) = IsFresh-cons sig seen rs h.1 in ground arith

pub admit-IsDistinct :
    (seen : List Bytes) (o : Option HistoryRecord) (rest : List HistoryRecord)
    → IsFresh (admit seen o).1 rest
    → IsDistinct rest
    → IsFresh seen ((admit seen o).0 ++ rest) × IsDistinct ((admit seen o).0 ++ rest)
unfolding admit
admit-IsDistinct seen none rest f d = (f, d)
admit-IsDistinct seen (some r) rest f d = elim (Bool-cases (is_seen r.signature seen)) [
  | inl old ↦ rw (old, admit) (rw (old, admit) at f, d)
  | inr new ↦
      let (apart, fresh) = IsFresh-cons r.signature seen rest (rw (new, admit) at f) in
      rw (new, admit) ((new, fresh), (apart, d))
]

pub new_records-IsDistinct :
    (s : Signatures) (room : Bytes) (seen raws : List Bytes)
    → IsFresh seen (new_records s room seen raws) × IsDistinct (new_records s room seen raws)
unfolding new_records
new_records-IsDistinct s room seen [] = (tt, tt)
new_records-IsDistinct s room seen (raw ∷ raws) =
    let (fresh, distinct) = new_records-IsDistinct s room (admit seen (verify s room raw)).1 raws in
    admit-IsDistinct seen (verify s room raw)
      (new_records s room (admit seen (verify s room raw)).1 raws) fresh distinct

pub All-admit {κ} :
    (P : HistoryRecord → Type κ) (seen : List Bytes) (o : Option HistoryRecord)
    (rest : List HistoryRecord)
    → ((r : HistoryRecord) → o ≡ some r → P r)
    → All P rest
    → All P ((admit seen o).0 ++ rest)
unfolding admit
All-admit P seen none rest new h = h
All-admit P seen (some r) rest new h = ground (arith, new r)

-- What was admitted verifies again from its own bytes.
pub verify_again :
    (s : Signatures) (room raw : Bytes) (r : HistoryRecord)
    → verify s room raw ≡ some r
    → Verifies s room r
verify_again s room raw r h =
    ap (λ b. verify s room b) (verify-IsVerified s room raw r h).encoded_bytes ∙ h

pub new_records-Verifies :
    (s : Signatures) (room : Bytes) (seen raws : List Bytes)
    → All (Verifies s room) (new_records s room seen raws)
unfolding new_records
new_records-Verifies s room seen [] = tt
new_records-Verifies s room seen (raw ∷ raws) =
    All-admit (Verifies s room) seen (verify s room raw)
      (new_records s room (admit seen (verify s room raw)).1 raws) (verify_again s room raw)
      (new_records-Verifies s room (admit seen (verify s room raw)).1 raws)

pub length-admit : (seen : List Bytes) (o : Option HistoryRecord) → length (admit seen o).0 ≤ 1
unfolding admit
length-admit seen none = omega arith
length-admit seen (some r) = ground arith

pub length-new_records :
    (s : Signatures) (room : Bytes) (seen raws : List Bytes)
    → length (new_records s room seen raws) ≤ length raws
unfolding new_records
length-new_records s room seen [] = omega arith
length-new_records s room seen (raw ∷ raws) = omega (
  arith,
  length-append {0} (admit seen (verify s room raw)).0,
  length-admit seen (verify s room raw),
  length-new_records s room (admit seen (verify s room raw)).1 raws,
)

insert-IsDistinct :
    (r : HistoryRecord) (rs : List HistoryRecord)
    → any (has_signature r.signature) rs ≡ false
    → IsDistinct rs
    → IsDistinct (insert r rs)
unfolding insert any has_signature
insert-IsDistinct r [] a d = (refl, tt)
insert-IsDistinct r (q ∷ rs) a d = ground (
  arith,
  insert-IsDistinct r rs,
  any-insert (has_signature q.signature) r rs,
  bytes_eq.equals_iff r.signature q.signature,
  bytes_eq.equals_iff q.signature r.signature,
)

pub sort-IsDistinct : (rs : List HistoryRecord) → IsDistinct rs → IsDistinct (sort rs)
unfolding sort
sort-IsDistinct [] d = tt
sort-IsDistinct (r ∷ rs) d =
    insert-IsDistinct r (sort rs) (any-sort (has_signature r.signature) rs ∙ d.0)
      (sort-IsDistinct rs d.1)

admit_seen :
    (sig : Bytes) (seen : List Bytes) (o : Option HistoryRecord)
    → is_seen sig (admit seen o).1 ≡ (is_seen sig seen || any (has_signature sig) (admit seen o).0)
unfolding admit is_seen any has_signature
admit_seen sig seen none = ground arith
admit_seen sig seen (some r) =
    ground (arith, bytes_eq.equals_iff r.signature sig, bytes_eq.equals_iff sig r.signature)

admit_covers :
    (seen : List Bytes) (r : HistoryRecord) → is_seen r.signature (admit seen (some r)).1 ≡ true
unfolding admit is_seen any
admit_covers seen r = ground (arith, bytes_eq.equals_iff r.signature r.signature)

-- A record that verifies is kept, or one with its signature is.
pub new_records_complete :
    (s : Signatures) (room : Bytes) (seen before : List Bytes) (raw : Bytes) (after : List Bytes)
    (r : HistoryRecord)
    → verify s room raw ≡ some r
    → (is_seen r.signature seen
        || any (has_signature r.signature) (new_records s room seen (before ++ raw ∷ after)))
      ≡ true
unfolding new_records
new_records_complete s room seen [] raw after r h =
    let o = verify s room raw in
    let later = new_records s room (admit seen o).1 after in
    ground (
      arith,
      any-append (has_signature r.signature) (admit seen o).0 later,
      admit_seen r.signature seen o,
      admit_covers seen r,
    )
new_records_complete s room seen (x ∷ before) raw after r h =
    let o = verify s room x in
    let later = new_records s room (admit seen o).1 (before ++ raw ∷ after) in
    ground (
      arith,
      any-append (has_signature r.signature) (admit seen o).0 later,
      admit_seen r.signature seen o,
      new_records_complete s room (admit seen o).1 before raw after r h,
    )
