-- ===== src/Sequence/Names.antt =====
-- The file names of crates/lantern-cli/src/author/sequence.rs: a number in 20 decimal digits.
use xivlantern_dalamud.Prelude.{
  ℕ, zero, suc, ◌+◌, ◌-◌, ◌*◌, ◌/◌, ◌%◌, ◌^◌, ◌<◌, ◌≡◌, refl, ap, ◌∙◌, Bool, false, not, ◌&&◌,
  Option, none, some, [], ◌∷◌, ◌++◌, ◌==◌, leb, ltb, length, length-append, take, drop, any,
  any-append, bytes_eq, bytes_beq, nat_eq, if◌then◌else◌, arith, Bool-cases, inl, inr,
}
use native.Mathlib.Nat.{pow-suc}
use xivlantern_dalamud.Bytes.{Bytes}
use xivlantern_dalamud.Bytes.Slices.{take-append, drop-append_whole}

abbrev pub suffix : Bytes
suffix = 46 ∷ 114 ∷ 101 ∷ 115 ∷ 101 ∷ 114 ∷ 118 ∷ 101 ∷ 100 ∷ []

-- `{n:020}` for a width `w`, of a number with at most that many digits.
unfoldable pub decimal : ℕ → ℕ → Bytes
decimal zero n = []
decimal (suc w) n = decimal w (n / 10) ++ (48 + n % 10) ∷ []

unfoldable pub reserved_name : ℕ → Bytes
reserved_name n = decimal 20 n ++ suffix

unfoldable pub is_digit : ℕ → Bool
is_digit b = leb 48 b && leb b 57

unfoldable pub decimal_value_from : ℕ → Bytes → ℕ
decimal_value_from acc [] = acc
decimal_value_from acc (b ∷ digits) = decimal_value_from (acc * 10 + (b - 48)) digits

-- `parse::<u64>` of digits
unfoldable pub parse_u64 : Bytes → Option ℕ
unfolding decimal_value_from
parse_u64 digits = let n = decimal_value_from 0 digits in if ltb n (2 ^ 64) then some n else none

-- `strip_suffix(".reserved")`, and the filter for 20 digits.
unfoldable pub digits_of : Bytes → Option Bytes
digits_of name =
    let digits = take (length name - 9) name in
    if not (drop (length name - 9) name == suffix)
    then none
    else if length digits == 20 && not (any (λ b. not (is_digit b)) digits)
    then some digits
    else none

length-decimal : (w n : ℕ) → length (decimal w n) ≡ w
unfolding decimal
length-decimal zero n = refl
length-decimal (suc w) n =
    omega
      (arith, length-append (decimal w (n / 10)) ((48 + n % 10) ∷ []), length-decimal w (n / 10))

value_from-append :
    (xs : Bytes) (acc b : ℕ)
    → decimal_value_from acc (xs ++ b ∷ []) ≡ decimal_value_from acc xs * 10 + (b - 48)
unfolding decimal_value_from
value_from-append [] acc b = refl
value_from-append (x ∷ xs) acc b = value_from-append xs (acc * 10 + (x - 48)) b

value_from-decimal : (w n : ℕ) → n < 10 ^ w → decimal_value_from 0 (decimal w n) ≡ n
unfolding decimal decimal_value_from
value_from-decimal zero n h = omega arith
value_from-decimal (suc w) n h =
    value_from-append (decimal w (n / 10)) 0 (48 + n % 10)
    ∙ omega (arith, value_from-decimal w (n / 10) (omega (arith, pow-suc 10 w)))

digits-decimal : (w n : ℕ) → any (λ b. not (is_digit b)) (decimal w n) ≡ false
unfolding decimal any is_digit
digits-decimal zero n = refl
digits-decimal (suc w) n = ground (
  arith,
  any-append (λ b. not (is_digit b)) (decimal w (n / 10)) ((48 + n % 10) ∷ []),
  digits-decimal w (n / 10),
)

length-reserved_name : (n : ℕ) → length (reserved_name n) ≡ 29
unfolding reserved_name
length-reserved_name n = omega (arith, length-append (decimal 20 n) suffix, length-decimal 20 n)

-- No reserved number's name is another length.
pub reserved_name-ne : (n : ℕ) (name : Bytes) → length name < 29 → (reserved_name n == name) ≡ false
reserved_name-ne n name short = elim (Bool-cases (reserved_name n == name)) [
  | inl same ↦ absurd (
      omega (
        arith,
        ap length ((bytes_eq.equals_iff (reserved_name n) name).0 same),
        length-reserved_name n,
        short,
      ))
  | inr differs ↦ differs
]

-- The name of a number gives its digits back, and those the number.
pub digits_of-reserved_name : (n : ℕ) → digits_of (reserved_name n) ≡ some (decimal 20 n)
unfolding digits_of reserved_name bytes_beq
digits_of-reserved_name n =
    let long : length (decimal 20 n ++ suffix) - 9 ≡ 20 =
      omega (arith, length-append (decimal 20 n) suffix, length-decimal 20 n) in
    rw long (
      rw (take-append 20 (decimal 20 n) suffix (length-decimal 20 n)) (
        rw (drop-append_whole 20 (decimal 20 n) suffix (length-decimal 20 n))
          (rw (digits-decimal 20 n) (rw (length-decimal 20 n) refl))))

pub parse_u64-decimal : (n : ℕ) → n < 2 ^ 64 → parse_u64 (decimal 20 n) ≡ some n
unfolding parse_u64
parse_u64-decimal n h = rw (value_from-decimal 20 n (omega arith)) (ground (arith))
