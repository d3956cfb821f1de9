-- ===== src/Bytes.antt =====
-- Byte strings: slices, and integers written big-endian. `[u8; n]`, `Vec<u8>` and `&[u8]` are lists
-- of numbers; that their elements lie below 256 is a hypothesis, `IsBytes`, where it matters.
pub mod Slices
use xivlantern_dalamud.Prelude.{
  ℕ, zero, suc, ℤ, pos, negsuc, ◌+◌, ◌-◌, ◌*◌, ◌/◌, ◌%◌, ◌^◌, ◌<◌, List, [], ◌∷◌, ◌++◌, take, drop,
  All, ltb, if◌then◌else◌,
}

abbrev pub Bytes : Type 0
Bytes = List ℕ

abbrev pub IsBytes : Bytes → Type 0
IsBytes = All (λ b. b < 256)

-- `bytes[a..b]`, in range
abbrev pub slice : ℕ → ℕ → Bytes → Bytes
slice a b bytes = take (b - a) (drop a bytes)

-- `to_be_bytes` of an unsigned integer of `w` bytes
unfoldable pub be_bytes : ℕ → ℕ → Bytes
be_bytes zero n = []
be_bytes (suc w) n = be_bytes w (n / 256) ++ (n % 256) ∷ []

unfoldable pub be_value_from : ℕ → Bytes → ℕ
be_value_from acc [] = acc
be_value_from acc (b ∷ bytes) = be_value_from (acc * 256 + b) bytes

-- `from_be_bytes` of an unsigned integer
unfoldable pub be_value : Bytes → ℕ
unfolding be_value_from
be_value bytes = be_value_from 0 bytes

-- Two's complement, for `i64`.
unfoldable pub i64_bits : ℤ → ℕ
i64_bits (pos n) = n % 2 ^ 64
i64_bits (negsuc n) = 2 ^ 64 - 1 - n % 2 ^ 64

unfoldable pub i64_of_bits : ℕ → ℤ
i64_of_bits v = if ltb v (2 ^ 63) then pos v else negsuc (2 ^ 64 - 1 - v)
