-- ===== src/Ticket/Laws.antt =====
-- The text form of a ticket read back.
use xivlantern_dalamud.Prelude.{◌+◌, ◌*◌, ◌/◌, ◌≡◌, some, All, All-append, length, arith}
use xivlantern_dalamud.Error.{ok}
use xivlantern_dalamud.Bytes.{Bytes}
use xivlantern_dalamud.Text.{Text, to_ascii_lowercase, trim, strip_prefix}
use xivlantern_dalamud.Text.Laws.{
  IsVisible, IsUpper, trim_lem, strip_prefix-append, to_ascii_uppercase-to_ascii_lowercase,
  to_ascii_lowercase-IsVisible, as_bytes_lem, All-weaken,
}
use xivlantern_dalamud.Ticket.{Base32, print, decode_body, parse_body}

-- What base32 without padding documents, at some bytes: the decoder takes the encoding back, which is of
-- upper case letters and digits, eight for five bytes.
pub record IsBase32 (b : Base32) (bytes : Bytes) : Type 0 where
  pub decodes : b.decode (b.encode bytes) ≡ some bytes
  pub alphabet : All IsUpper (b.encode bytes)
  pub size : length (b.encode bytes) ≡ (8 * length bytes + 4) / 5

module _ (b : Base32) (bytes : Bytes) (laws : IsBase32 b bytes) where
  pub decode_body-encode : decode_body b (to_ascii_lowercase (b.encode bytes)) ≡ ok bytes
  unfolding decode_body
  decode_body-encode = rw (
    to_ascii_uppercase-to_ascii_lowercase (b.encode bytes) laws.alphabet,
    as_bytes_lem (b.encode bytes) (All-weaken (b.encode bytes) (λ c h. omega arith) laws.alphabet),
    laws.decodes,
  )

  module _ (prefix : Text) (visible : All IsVisible prefix) where
    pub print-IsVisible : All IsVisible (print b prefix bytes)
    unfolding print
    print-IsVisible =
        All-append IsVisible prefix _ visible
          (to_ascii_lowercase-IsVisible (b.encode bytes) laws.alphabet)

    pub trim-print : trim (print b prefix bytes) ≡ print b prefix bytes
    trim-print = trim_lem _ print-IsVisible

    pub strip_prefix-print :
        strip_prefix prefix (trim (print b prefix bytes))
        ≡ some (to_ascii_lowercase (b.encode bytes))
    strip_prefix-print = rw trim-print (unfold print in strip_prefix-append prefix _)

    pub parse_body-print : parse_body b prefix (print b prefix bytes) ≡ ok bytes
    unfolding parse_body
    parse_body-print = rw strip_prefix-print decode_body-encode
