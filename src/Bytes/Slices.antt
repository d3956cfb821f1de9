-- ===== src/Bytes/Slices.antt =====
-- Slices of concatenations, and that what is written big-endian is read back.
use native.Mathlib.Nat.{pow-suc}
use xivlantern_dalamud.Prelude.{
  ℕ, zero, suc, ℤ, pos, negsuc, ◌+◌, ◌*◌, ◌/◌, ◌%◌, ◌^◌, ◌<◌, ◌≡◌, refl, ap, sym, append-nil,
  append_assoc, ◌∙◌, List, [], ◌∷◌, ◌++◌, arith, take, drop, length, All-append, length-append,
}
use xivlantern_dalamud.Bytes.{
  Bytes, IsBytes, be_bytes, be_value_from, be_value, i64_bits, i64_of_bits,
}

module _ {ℓ} {A : Type ℓ} where
  pub take-append : (n : ℕ) (xs ys : List A) → length xs ≡ n → take n (xs ++ ys) ≡ xs
  take-append zero [] ys h = refl
  take-append zero (x ∷ xs) ys h = absurd (omega arith)
  take-append (suc n) [] ys h = absurd (omega arith)
  take-append (suc n) (x ∷ xs) ys h = ap (λ zs. x ∷ zs) (take-append n xs ys (omega arith))

  pub drop-append : (n m : ℕ) (xs ys : List A) → length xs ≡ n → drop (n + m) (xs ++ ys) ≡ drop m ys
  drop-append n m [] ys h = ap (λ k. drop k ys) (omega arith)
  drop-append zero m (x ∷ xs) ys h = absurd (omega arith)
  drop-append (suc n) m (x ∷ xs) ys h =
      let e : suc n + m ≡ suc (n + m) = omega arith in rw e (drop-append n m xs ys (omega arith))

  pub drop-drop : (i j : ℕ) (xs : List A) → drop (i + j) xs ≡ drop j (drop i xs)
  drop-drop zero j xs = ap (λ k. drop k xs) (let e : 0 + j ≡ j = omega arith in e)
  drop-drop (suc i) zero [] = let e : suc i + 0 ≡ suc i = omega arith in rw e
  drop-drop (suc i) (suc j) [] = let e : suc i + suc j ≡ suc (i + suc j) = omega arith in rw e
  drop-drop (suc i) j (x ∷ xs) =
      let e : suc i + j ≡ suc (i + j) = omega arith in rw e (drop-drop i j xs)

  pub drop-append_whole : (n : ℕ) (xs ys : List A) → length xs ≡ n → drop n (xs ++ ys) ≡ ys
  drop-append_whole n [] ys h = ap (λ k. drop k ys) (let e : n ≡ 0 = omega arith in e)
  drop-append_whole zero (x ∷ xs) ys h = absurd (omega arith)
  drop-append_whole (suc n) (x ∷ xs) ys h = drop-append_whole n xs ys (omega arith)

pub length-be_bytes : (w n : ℕ) → length (be_bytes w n) ≡ w
unfolding be_bytes
length-be_bytes zero n = refl
length-be_bytes (suc w) n =
    omega
      (arith, length-append (be_bytes w (n / 256)) ((n % 256) ∷ []), length-be_bytes w (n / 256))

be_value_from-append :
    (acc : ℕ) (xs : Bytes) (b : ℕ)
    → be_value_from acc (xs ++ b ∷ []) ≡ be_value_from acc xs * 256 + b
unfolding be_value_from
be_value_from-append acc [] b = refl
be_value_from-append acc (x ∷ xs) b = be_value_from-append (acc * 256 + x) xs b

pub be_value-be_bytes : (w n : ℕ) → n < 256 ^ w → be_value (be_bytes w n) ≡ n
unfolding be_value be_bytes
be_value-be_bytes zero n h = omega arith
be_value-be_bytes (suc w) n h = omega (
  arith,
  be_value_from-append 0 (be_bytes w (n / 256)) (n % 256),
  be_value-be_bytes w (n / 256) (omega (arith, pow-suc 256 w)),
)

be_bytes-IsBytes : (w n : ℕ) → IsBytes (be_bytes w n)
unfolding be_bytes
be_bytes-IsBytes zero n = tt
be_bytes-IsBytes (suc w) n =
    All-append (λ b. b < 256) (be_bytes w (n / 256)) ((n % 256) ∷ []) (be_bytes-IsBytes w (n / 256))
      (omega arith)

pub i64_bits-lt : (z : ℤ) → i64_bits z < 256 ^ 8
unfolding i64_bits
i64_bits-lt (pos n) = omega arith
i64_bits-lt (negsuc n) = omega arith

pub i64_round_trip : (n : ℕ) → n < 2 ^ 63 → i64_of_bits (i64_bits (pos n)) ≡ pos n
unfolding i64_bits i64_of_bits
i64_round_trip n h = ground arith

be_bytes-be_value_from :
    (w acc : ℕ) (xs : Bytes)
    → IsBytes xs
    → be_bytes (w + length xs) (be_value_from acc xs) ≡ be_bytes w acc ++ xs
unfolding be_bytes be_value_from
be_bytes-be_value_from w acc [] h =
    ap (λ k. be_bytes k acc) (let e : w + 0 ≡ w = omega arith in e)
    ∙ sym (append-nil (be_bytes w acc))
be_bytes-be_value_from w acc (b ∷ xs) h =
    ap (λ k. be_bytes k (be_value_from (acc * 256 + b) xs))
      (let e : w + suc (length xs) ≡ suc w + length xs = omega arith in e)
    ∙ be_bytes-be_value_from (suc w) (acc * 256 + b) xs h.1
    ∙ split
  where
    split : be_bytes (suc w) (acc * 256 + b) ++ xs ≡ be_bytes w acc ++ b ∷ xs
    split =
        let high : (acc * 256 + b) / 256 ≡ acc = omega (arith, h.0) in
        let low : (acc * 256 + b) % 256 ≡ b = omega (arith, h.0) in rw (high, low, append_assoc)

-- The bytes are those of their value.
pub be_bytes-be_value :
    (w : ℕ) (xs : Bytes) → IsBytes xs → length xs ≡ w → be_bytes w (be_value xs) ≡ xs
unfolding be_value be_bytes
be_bytes-be_value w xs h e =
    ap (λ k. be_bytes k (be_value_from 0 xs)) (let f : w ≡ 0 + length xs = omega arith in f)
    ∙ be_bytes-be_value_from 0 0 xs h
