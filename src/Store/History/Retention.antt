-- ===== src/Store/History/Retention.antt =====
-- How many channel records the table keeps, and for how long.
use xivlantern_dalamud.Prelude.{
  ℕ, ◌+◌, ◌≤◌, ◌≡◌, refl, Bool, not, List, [], ◌∷◌, arith, bytes_eq, length, length-take, retain,
  count_if, count_if-append,
}
use xivlantern_dalamud.Bytes.{Bytes}
use xivlantern_dalamud.Store.Counting.{
  count-take, count-le-length, count-retain-not, count-retain_kept, count-retain_other,
}
use xivlantern_dalamud.Store.History.{
  Row, max_stored, put_row, newest_first, newest, is_in, is_kept, delete_old, limit_room, limit_all,
  trim,
}
use xivlantern_dalamud.ChannelHistory.Snapshot.{max_records}

count-put_row :
    (p : Row → Bool) (x : Row) (ys : List Row) → count_if p (put_row x ys) ≡ count_if p (x ∷ ys)
unfolding put_row count_if
count-put_row p x [] = refl
count-put_row p x (y ∷ ys) = ground (arith, count-put_row p x ys)

count-newest_first :
    (p : Row → Bool) (rows : List Row) → count_if p (newest_first rows) ≡ count_if p rows
unfolding newest_first count_if
count-newest_first p [] = refl
count-newest_first p (x ∷ rows) =
    ground (arith, count-put_row p x (newest_first rows), count-newest_first p rows)

-- What a limit leaves has no more of any kind than before, and not more than the limit.
count-newest :
    (p : Row → Bool) (n : ℕ) (rows : List Row) → count_if p (newest n rows) ≤ count_if p rows
unfolding newest
count-newest p n rows = omega (arith, count-take p n (newest_first rows), count-newest_first p rows)

pub length-newest : (n : ℕ) (rows : List Row) → length (newest n rows) ≤ n
unfolding newest
length-newest n rows = omega (arith, length-take n (newest_first rows))

-- A row that was received before the retention time.
abbrev pub is_old : ℕ → Row → Bool
is_old now row = not (is_kept now row)

count-limit_room :
    (p : Row → Bool) (room : Bytes) (rows : List Row)
    → count_if p (limit_room room rows)
      ≤ count_if p (retain (is_in room) rows)
        + count_if p (retain (λ row. not (is_in room row)) rows)
unfolding limit_room
count-limit_room p room rows = omega (
  arith,
  count_if-append p (newest max_records (retain (is_in room) rows))
      (retain (λ row. not (is_in room row)) rows),
  count-newest p max_records (retain (is_in room) rows),
)

-- After an insertion into a room at a time `now`, and whatever was in the table before: the room has at
-- most 256 rows, the table at most 8192, and no row is older than the retention time.
pub trim_bounded :
    (room : Bytes) (now : ℕ) (rows : List Row)
    → (count_if (is_in room) (trim room now rows) ≤ max_records)
      × (length (trim room now rows) ≤ max_stored)
      × (count_if (is_old now) (trim room now rows) ≡ 0)
unfolding trim limit_all limit_room delete_old
trim_bounded room now rows =
    let young = delete_old now rows in
    let limited = limit_room room young in
    (
      omega (
        arith,
        count-newest (is_in room) max_stored limited,
        count_if-append (is_in room) (newest max_records (retain (is_in room) young))
            (retain (λ row. not (is_in room row)) young),
        count-le-length (is_in room) (newest max_records (retain (is_in room) young)),
        length-newest max_records (retain (is_in room) young),
        count-retain-not (is_in room) young,
      ),
      length-newest max_stored limited,
      omega (
        arith,
        count-newest (is_old now) max_stored limited,
        count-limit_room (is_old now) room young,
        count-retain_other (is_old now) (is_in room) young,
        count-retain_other (is_old now) (λ row. not (is_in room row)) young,
        count-retain_kept (is_kept now) rows,
      ),
    )

-- The deletions leave no more rows of the room than there were.
pub trim_fewer :
    (room : Bytes) (now : ℕ) (rows : List Row)
    → count_if (is_in room) (trim room now rows) ≤ count_if (is_in room) rows
unfolding trim limit_all delete_old
trim_fewer room now rows =
    let young = delete_old now rows in
    omega (
      arith,
      count-newest (is_in room) max_stored (limit_room room young),
      count-limit_room (is_in room) room young,
      count-retain_other (is_in room) (is_in room) young,
      count-retain-not (is_in room) young,
      count-retain_other (is_in room) (is_kept now) rows,
    )
