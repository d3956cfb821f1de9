-- ===== src/Utf8.antt =====
-- `str` of the standard library: `from_utf8` and `chars` as one pass over the bytes, and
-- `char::is_control`. A text is its bytes; a text that a caller passes is one that decodes.
use xivlantern_dalamud.Prelude.{
  ℕ, zero, suc, ◌+◌, ◌-◌, ◌*◌, Bool, ◌&&◌, ◌||◌, Option, none, some, List, [], ◌∷◌, leb, ltb,
  if◌then◌else◌, ◌≡◌, refl,
}
use xivlantern_dalamud.Bytes.{Bytes}

-- How many continuation bytes are to come, the range of the next one, and the code so far.
pub record Decoder : Type 0 where
  pub need : ℕ
  pub lo : ℕ
  pub hi : ℕ
  pub code : ℕ

abbrev pub start : Decoder
start = record { need = 0; lo = 128; hi = 191; code = 0 }

abbrev expect : ℕ → ℕ → ℕ → ℕ → Option (Decoder × Option ℕ)
expect need lo hi code = some (record { need = need; lo = lo; hi = hi; code = code }, none)

within : ℕ → ℕ → ℕ → Bool
within lo hi b = leb lo b && leb b hi

-- The first byte of a character. E0, ED, F0 and F4 narrow the byte after them, so that overlong
-- forms, surrogates and codes above 10FFFF are refused.
first_byte : ℕ → Option (Decoder × Option ℕ)
unfolding within
first_byte b =
    if ltb b 0x80
    then some (start, some b)
    else if within 0xc2 0xdf b
    then expect 1 0x80 0xbf (b - 0xc0)
    else if within 0xe0 0xe0 b
    then expect 2 0xa0 0xbf 0
    else if within 0xed 0xed b
    then expect 2 0x80 0x9f 13
    else if within 0xe1 0xef b
    then expect 2 0x80 0xbf (b - 0xe0)
    else if within 0xf0 0xf0 b
    then expect 3 0x90 0xbf 0
    else if within 0xf4 0xf4 b
    then expect 3 0x80 0x8f 4
    else if within 0xf1 0xf3 b
    then expect 3 0x80 0xbf (b - 0xf0)
    else none

next_byte : Decoder → ℕ → ℕ → Option (Decoder × Option ℕ)
unfolding within
next_byte d more b =
    if within d.lo d.hi b
    then elim more [
      | zero ↦ some (start, some (d.code * 64 + (b - 0x80)))
      | suc n ↦ expect (suc n) 0x80 0xbf (d.code * 64 + (b - 0x80))
    ]
    else none

decode_byte : Decoder → ℕ → ℕ → Option (Decoder × Option ℕ)
unfolding first_byte next_byte
decode_byte d zero b = first_byte b
decode_byte d (suc more) b = next_byte d more b

abbrev emit : Option ℕ → Option (List ℕ) → Option (List ℕ)
emit none rest = rest
emit (some c) none = none
emit (some c) (some rest) = some (c ∷ rest)

chars_from : Decoder → Bytes → Option (List ℕ)
unfolding decode_byte
chars_from d [] = elim d.need [ zero ↦ some [] | suc n ↦ none ]
chars_from d (b ∷ bytes) = elim (decode_byte d d.need b) [
  | none ↦ none
  | some (d', c) ↦ emit c (chars_from d' bytes)
]

-- The characters of the bytes, or `none` where they are not UTF-8.
unfoldable pub chars : Bytes → Option (List ℕ)
unfolding chars_from
chars bytes = chars_from start bytes

-- The control characters, `Cc`.
unfoldable pub is_control : ℕ → Bool
is_control c = ltb c 0x20 || (leb 0x7f c && ltb c 0xa0)

-- "hé€😀" and a few byte strings that are no text.
decodes_text :
    chars (0x68 ∷ 0xc3 ∷ 0xa9 ∷ 0xe2 ∷ 0x82 ∷ 0xac ∷ 0xf0 ∷ 0x9f ∷ 0x98 ∷ 0x80 ∷ [])
    ≡ some (0x68 ∷ 0xe9 ∷ 0x20ac ∷ 0x1f600 ∷ [])
unfolding chars
decodes_text = refl

refuses_malformed :
    (chars (0xc0 ∷ 0x80 ∷ []) ≡ none)
    × (chars (0xed ∷ 0xa0 ∷ 0x80 ∷ []) ≡ none)
    × (chars (0xe2 ∷ 0x82 ∷ []) ≡ none)
    × (chars (0xf4 ∷ 0x90 ∷ 0x80 ∷ 0x80 ∷ []) ≡ none)
unfolding chars
refuses_malformed = (refl, refl, refl, refl)
