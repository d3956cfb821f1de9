-- ===== src/ChannelHistory/Sorting.antt =====
-- `sort` of channel_history.rs: `sort_by` of the standard library is stable, so it is written as the
-- stable insertion sort with the same comparator.
use Prim.Native.Nat.{compare, Ordering}
use Prim.Native.Nat.Ordering.{lt, eq, gt}
use xivlantern_dalamud.Prelude.{
  ℕ, suc, ℤ, pos, negsuc, ◌≡◌, refl, Bool, true, false, ◌||◌, List, [], ◌∷◌, arith, if◌then◌else◌,
  length, any, All,
}
use xivlantern_dalamud.Bytes.{Bytes}
use xivlantern_dalamud.ChannelHistory.{HistoryRecord}

-- `Ordering::then`
abbrev and_then : Ordering → Ordering → Ordering
and_then eq o = o
and_then lt o = lt
and_then gt o = gt

-- `Ord` of byte slices
unfoldable pub cmp_bytes : Bytes → Bytes → Ordering
cmp_bytes [] [] = eq
cmp_bytes [] (y ∷ ys) = lt
cmp_bytes (x ∷ xs) [] = gt
cmp_bytes (x ∷ xs) (y ∷ ys) = and_then (compare x y) (cmp_bytes xs ys)

-- `Ord` of `i64`
cmp_int : ℤ → ℤ → Ordering
cmp_int (pos m) (pos n) = compare m n
cmp_int (pos m) (negsuc n) = gt
cmp_int (negsuc m) (pos n) = lt
cmp_int (negsuc m) (negsuc n) = compare n m

unfoldable pub cmp_records : HistoryRecord → HistoryRecord → Ordering
unfolding cmp_bytes cmp_int
cmp_records a b = and_then (cmp_int a.sent_at b.sent_at) (
    and_then (cmp_bytes a.author b.author)
      (and_then (cmp_bytes a.id b.id) (cmp_bytes a.signature b.signature)))

abbrev pub is_le : Ordering → Bool
is_le gt = false
is_le _ = true

unfoldable pub in_order : HistoryRecord → HistoryRecord → Bool
in_order a b = is_le (cmp_records a b)

unfoldable pub insert : HistoryRecord → List HistoryRecord → List HistoryRecord
insert x [] = x ∷ []
insert x (y ∷ ys) = if in_order x y then x ∷ y ∷ ys else y ∷ insert x ys

unfoldable pub sort : List HistoryRecord → List HistoryRecord
unfolding insert in_order cmp_records
sort [] = []
sort (x ∷ xs) = insert x (sort xs)

-- Each record is in order with the next one.
abbrev pub IsSorted : List HistoryRecord → Type 0
IsSorted [] = Unit
IsSorted (x ∷ []) = Unit
IsSorted (x ∷ y ∷ ys) = (in_order x y ≡ true) × IsSorted (y ∷ ys)

abbrev flip : Ordering → Ordering
flip lt = gt
flip eq = eq
flip gt = lt

compare-flip : (m n : ℕ) → compare n m ≡ flip (compare m n)
compare-flip m n = ground arith

cmp_bytes-flip : (a b : Bytes) → cmp_bytes b a ≡ flip (cmp_bytes a b)
unfolding cmp_bytes
cmp_bytes-flip [] [] = refl
cmp_bytes-flip [] (y ∷ ys) = refl
cmp_bytes-flip (x ∷ xs) [] = refl
cmp_bytes-flip (x ∷ xs) (y ∷ ys) = ground (arith, compare-flip x y, cmp_bytes-flip xs ys)

cmp_int-flip : (a b : ℤ) → cmp_int b a ≡ flip (cmp_int a b)
unfolding cmp_int
cmp_int-flip (pos m) (pos n) = compare-flip m n
cmp_int-flip (pos m) (negsuc n) = refl
cmp_int-flip (negsuc m) (pos n) = refl
cmp_int-flip (negsuc m) (negsuc n) = compare-flip n m

flip-and_then : (a b : Ordering) → and_then (flip a) (flip b) ≡ flip (and_then a b)
flip-and_then lt b = refl
flip-and_then eq b = refl
flip-and_then gt b = refl

-- Exchanging the two records turns the comparison round.
cmp_records-flip : (a b : HistoryRecord) → cmp_records b a ≡ flip (cmp_records a b)
unfolding cmp_records
cmp_records-flip a b = simp (
  cmp_int-flip a.sent_at b.sent_at,
  cmp_bytes-flip a.author b.author,
  cmp_bytes-flip a.id b.id,
  cmp_bytes-flip a.signature b.signature,
  flip-and_then,
)

in_order_total : (a b : HistoryRecord) → in_order a b ≡ false → in_order b a ≡ true
unfolding in_order
in_order_total a b h = ground (arith, cmp_records-flip a b)

-- What is in front of the list goes in front of the insertion.
insert-IsSorted :
    (x : HistoryRecord) (ys : List HistoryRecord) → IsSorted ys → IsSorted (insert x ys)
unfolding insert
insert-IsSorted x [] h = tt
insert-IsSorted x (y ∷ []) h = ground (arith, in_order_total x y)
insert-IsSorted x (y ∷ z ∷ ys) h =
    ground (arith, in_order_total x y, insert-IsSorted x (z ∷ ys) h.1)

-- `sort` puts every list in order.
pub sort-IsSorted : (xs : List HistoryRecord) → IsSorted (sort xs)
unfolding sort
sort-IsSorted [] = tt
sort-IsSorted (x ∷ xs) = insert-IsSorted x (sort xs) (sort-IsSorted xs)

-- A list in order stays as it is.
pub sort_of_IsSorted : (xs : List HistoryRecord) → IsSorted xs → sort xs ≡ xs
unfolding sort
sort_of_IsSorted [] h = refl
sort_of_IsSorted (x ∷ []) h = refl
sort_of_IsSorted (x ∷ y ∷ ys) h = rw (sort_of_IsSorted (y ∷ ys) h.1) (ground arith)

pub any-insert :
    (p : HistoryRecord → Bool) (x : HistoryRecord) (ys : List HistoryRecord)
    → any p (insert x ys) ≡ (p x || any p ys)
unfolding any insert
any-insert p x [] = ground arith
any-insert p x (y ∷ ys) = ground (arith, any-insert p x ys)

pub any-sort : (p : HistoryRecord → Bool) (xs : List HistoryRecord) → any p (sort xs) ≡ any p xs
unfolding any sort
any-sort p [] = refl
any-sort p (x ∷ xs) = ground (arith, any-insert p x (sort xs), any-sort p xs)

length-insert :
    (x : HistoryRecord) (ys : List HistoryRecord) → length (insert x ys) ≡ suc (length ys)
unfolding insert
length-insert x [] = refl
length-insert x (y ∷ ys) = ground (arith, length-insert x ys)

pub length-sort : (xs : List HistoryRecord) → length (sort xs) ≡ length xs
unfolding sort
length-sort [] = refl
length-sort (x ∷ xs) = omega (arith, length-insert x (sort xs), length-sort xs)

All-insert {κ} :
    (P : HistoryRecord → Type κ) (x : HistoryRecord) (ys : List HistoryRecord)
    → P x
    → All P ys
    → All P (insert x ys)
unfolding insert
All-insert P x [] p h = (p, tt)
All-insert P x (y ∷ ys) p h = ground (arith, All-insert P x ys p h.1)

pub All-sort {κ} :
    (P : HistoryRecord → Type κ) (xs : List HistoryRecord) → All P xs → All P (sort xs)
unfolding sort
All-sort P [] h = tt
All-sort P (x ∷ xs) h = All-insert P x (sort xs) h.0 (All-sort P xs h.1)
