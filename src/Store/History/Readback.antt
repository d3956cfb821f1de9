-- ===== src/Store/History/Readback.antt =====
-- What is put into the table of channel records can be read from it.

use xivlantern_dalamud.Prelude.{
  ℕ, zero, suc, ◌<◌, ◌≡◌, refl, ap, ◌∙◌, Bool, true, false, not, List, [], ◌∷◌, ◌++◌, arith, ◌==◌,
  bytes_eq, nat_eq, if◌then◌else◌, take, retain, All, All-append,
}
use xivlantern_dalamud.Store.History.{
  Row, max_stored, is_before, put_row, newest_first, newest, is_in, is_kept, delete_old, limit_room,
  limit_all, trim,
}
use xivlantern_dalamud.ChannelHistory.Snapshot.{max_records}

-- Received before some time.
abbrev pub IsEarlier : ℕ → Row → Type 0
IsEarlier now row = row.received_at < now

All-if :
    (P : Row → Type 0) (b : Bool) (xs ys : List Row)
    → All P xs
    → All P ys
    → All P (if b then xs else ys)
All-if P true xs ys h k = h
All-if P false xs ys h k = k

pub All-retain :
    (P : Row → Type 0) (p : Row → Bool) (rows : List Row) → All P rows → All P (retain p rows)
unfolding retain
All-retain P p [] h = tt
All-retain P p (x ∷ rows) h =
    All-if P (p x) (x ∷ retain p rows) (retain p rows) (h.0, All-retain P p rows h.1)
      (All-retain P p rows h.1)

All-put_row : (P : Row → Type 0) (x : Row) (ys : List Row) → P x → All P ys → All P (put_row x ys)
unfolding put_row
All-put_row P x [] px h = (px, tt)
All-put_row P x (y ∷ ys) px h =
    All-if P (is_before x y) (x ∷ y ∷ ys) (y ∷ put_row x ys) (px, h)
      (h.0, All-put_row P x ys px h.1)

All-newest_first : (P : Row → Type 0) (rows : List Row) → All P rows → All P (newest_first rows)
unfolding newest_first
All-newest_first P [] h = tt
All-newest_first P (x ∷ rows) h =
    All-put_row P x (newest_first rows) h.0 (All-newest_first P rows h.1)

All-take : (P : Row → Type 0) (n : ℕ) (rows : List Row) → All P rows → All P (take n rows)
All-take P zero rows h = tt
All-take P (suc n) [] h = tt
All-take P (suc n) (x ∷ rows) h = (h.0, All-take P n rows h.1)

All-newest : (P : Row → Type 0) (n : ℕ) (rows : List Row) → All P rows → All P (newest n rows)
unfolding newest
All-newest P n rows h = All-take P n (newest_first rows) (All-newest_first P rows h)

put_row_newest :
    (row : Row) (ys : List Row) → All (IsEarlier row.received_at) ys → put_row row ys ≡ row ∷ ys
unfolding put_row is_before
put_row_newest row [] h = refl
put_row_newest row (y ∷ ys) h = ground (arith, h.0)

-- The row that was received last is the first of the newest ones.
pub newest_head :
    (n : ℕ) (row : Row) (rows : List Row)
    → All (IsEarlier row.received_at) rows
    → newest (suc n) (row ∷ rows) ≡ row ∷ newest n rows
unfolding newest newest_first
newest_head n row rows h =
    ap (take (suc n))
      (put_row_newest row (newest_first rows) (All-newest_first (IsEarlier row.received_at) rows h))

pub retain_head :
    (p : Row → Bool) (row : Row) (rows : List Row)
    → p row ≡ true
    → retain p (row ∷ rows) ≡ row ∷ retain p rows
unfolding retain
retain_head p row rows h = rw h refl

retain_skip :
    (p : Row → Bool) (row : Row) (rows : List Row)
    → p row ≡ false
    → retain p (row ∷ rows) ≡ retain p rows
unfolding retain
retain_skip p row rows h = rw h refl

limit_room_head :
    (row : Row) (rows : List Row)
    → All (IsEarlier row.received_at) rows
    → (rest : List Row) × (limit_room row.room (row ∷ rows) ≡ row ∷ rest)
      × All (IsEarlier row.received_at) rest
unfolding limit_room is_in
limit_room_head row rows h =
    let P = IsEarlier row.received_at in
    let mine : (row.room == row.room) ≡ true = (bytes_eq.equals_iff row.room row.room).1 refl in
    let here = retain (is_in row.room) rows in
    let others = retain (λ r. not (is_in row.room r)) rows in
    (
      newest 255 here ++ others,
      ap (λ xs. newest max_records xs ++ retain (λ r. not (is_in row.room r)) (row ∷ rows))
            (retain_head (is_in row.room) row rows mine)
          ∙ ap (λ xs. newest max_records (row ∷ here) ++ xs)
              (retain_skip (λ r. not (is_in row.room r)) row rows (ground (arith, mine)))
          ∙ ap (λ xs. xs ++ others)
              (newest_head 255 row here (All-retain P (is_in row.room) rows h)),
      All-append P (newest 255 here) others
          (All-newest P 255 here (All-retain P (is_in row.room) rows h))
          (All-retain P (λ r. not (is_in row.room r)) rows h),
    )

-- A row that was received last stays, and the others stay older.
pub trim_head :
    (row : Row) (rows : List Row)
    → All (IsEarlier row.received_at) rows
    → (rest : List Row) × (trim row.room row.received_at (row ∷ rows) ≡ row ∷ rest)
      × All (IsEarlier row.received_at) rest
unfolding trim delete_old limit_all is_kept
trim_head row rows h =
    let now = row.received_at in
    let P = IsEarlier now in
    let young = retain (is_kept now) rows in
    let (limited, e, k) = limit_room_head row young (All-retain P (is_kept now) rows h) in
    (
      newest 8191 limited,
      ap (λ xs. newest max_stored (limit_room row.room xs))
            (retain_head (is_kept now) row rows (ground (arith)))
          ∙ ap (newest max_stored) e
          ∙ newest_head 8191 row limited k,
      All-newest P 8191 limited k,
    )
