-- ===== src/Text/Laws.antt =====
-- Trimming, prefixes and the case of ASCII letters.
use xivlantern_dalamud.Prelude.{
  ℕ, ◌<◌, ◌≤◌, ◌≡◌, refl, false, some, List, [], ◌∷◌, ◌++◌, nat_eq, arith, length, All, any,
}
use xivlantern_dalamud.Text.{
  Text, is_whitespace, encode_utf8, as_bytes, to_upper, to_lower, to_ascii_uppercase,
  to_ascii_lowercase, trim_start, trim_end, trim, strip_prefix, keep_unless_blank,
}

-- ASCII from `0` to `z`.
abbrev pub IsVisible : ℕ → Type 0
IsVisible c = (48 ≤ c) × (c ≤ 122)

-- ASCII from `0` to `Z`, without a lower case letter.
abbrev pub IsUpper : ℕ → Type 0
IsUpper c = (48 ≤ c) × (c ≤ 90)

visible_dark : (c : ℕ) → IsVisible c → is_whitespace c ≡ false
unfolding is_whitespace any
visible_dark c h = ground arith

trim_start_lem : (text : Text) → All IsVisible text → trim_start text ≡ text
unfolding trim_start
trim_start_lem [] h = refl
trim_start_lem (c ∷ text) h = ground (arith, visible_dark c h.0)

keep_unless_blank_lem : (c : ℕ) (text : Text) → IsVisible c → keep_unless_blank c text ≡ c ∷ text
unfolding keep_unless_blank
keep_unless_blank_lem c [] h = ground (arith, visible_dark c h)
keep_unless_blank_lem c (d ∷ text) h = refl

trim_end_lem : (text : Text) → All IsVisible text → trim_end text ≡ text
unfolding trim_end
trim_end_lem [] h = refl
trim_end_lem (c ∷ text) h = rw (trim_end_lem text h.1) (keep_unless_blank_lem c text h.0)

pub trim_lem : (text : Text) → All IsVisible text → trim text ≡ text
unfolding trim
trim_lem text h = rw (trim_start_lem text h) (trim_end_lem text h)

pub strip_prefix-append :
    (pattern rest : List ℕ) → strip_prefix pattern (pattern ++ rest) ≡ some rest
unfolding strip_prefix
strip_prefix-append [] rest = refl
strip_prefix-append (p ∷ pattern) rest = ground (arith, strip_prefix-append pattern rest)

pub strip_prefix_sound :
    (pattern text rest : List ℕ) → strip_prefix pattern text ≡ some rest → text ≡ pattern ++ rest
unfolding strip_prefix
strip_prefix_sound [] text rest h = cc
strip_prefix_sound (p ∷ pattern) [] rest h = absurd (cc)
strip_prefix_sound (p ∷ pattern) (c ∷ text) rest h =
    ground (arith, strip_prefix_sound pattern text rest)

to_upper-to_lower : (c : ℕ) → IsUpper c → to_upper (to_lower c) ≡ c
unfolding to_upper to_lower
to_upper-to_lower c h = ground arith

pub to_ascii_uppercase-to_ascii_lowercase :
    (text : Text) → All IsUpper text → to_ascii_uppercase (to_ascii_lowercase text) ≡ text
unfolding to_ascii_uppercase to_ascii_lowercase
to_ascii_uppercase-to_ascii_lowercase [] h = refl
to_ascii_uppercase-to_ascii_lowercase (c ∷ text) h =
    rw (to_upper-to_lower c h.0, to_ascii_uppercase-to_ascii_lowercase text h.1)

to_lower-IsVisible : (c : ℕ) → IsUpper c → IsVisible (to_lower c)
unfolding to_lower
to_lower-IsVisible c h = ground arith

pub to_ascii_lowercase-IsVisible :
    (text : Text) → All IsUpper text → All IsVisible (to_ascii_lowercase text)
unfolding to_ascii_lowercase
to_ascii_lowercase-IsVisible [] h = tt
to_ascii_lowercase-IsVisible (c ∷ text) h =
    (to_lower-IsVisible c h.0, to_ascii_lowercase-IsVisible text h.1)

pub length-to_ascii_lowercase : (text : Text) → length (to_ascii_lowercase text) ≡ length text
unfolding to_ascii_lowercase
length-to_ascii_lowercase [] = refl
length-to_ascii_lowercase (c ∷ text) = omega (arith, length-to_ascii_lowercase text)

encode_utf8_lem : (c : ℕ) → c < 128 → encode_utf8 c ≡ c ∷ []
unfolding encode_utf8
encode_utf8_lem c h = ground arith

-- ASCII is its own UTF-8.
pub as_bytes_lem : (text : Text) → All (λ c. c < 128) text → as_bytes text ≡ text
unfolding as_bytes
as_bytes_lem [] h = refl
as_bytes_lem (c ∷ text) h = rw (encode_utf8_lem c h.0, as_bytes_lem text h.1)

pub All-weaken {κ κ'} :
    {P : ℕ → Type κ} {Q : ℕ → Type κ'} (xs : List ℕ) → ((c : ℕ) → P c → Q c) → All P xs → All Q xs
All-weaken [] f h = tt
All-weaken (x ∷ xs) f h = (f x h.0, All-weaken xs f h.1)
