-- ===== src/ChannelHistory.antt =====
-- crates/lantern-core/src/channel_history.rs: signed records of channel text.
pub mod Layout
pub mod RoundTrip
pub mod Sound
pub mod Sorting
pub mod Snapshot
pub mod Distinct
pub mod Framing
pub mod SnapshotRoundTrip
pub mod ReadSound
pub mod Tests
use Prim.Native.String.{String}
use Prim.Native.Char.{code}
use xivlantern_dalamud.Prelude.{
  ℕ, ℤ, pos, is_negative, ◌+◌, ◌*◌, Bool, true, false, not, ◌&&◌, ◌||◌, Option, none, some, List,
  [], ◌∷◌, ◌++◌, leb, ltb, if◌then◌else◌, length, take, drop, any, ◌==◌, nat_eq, bytes_eq,
}
use xivlantern_dalamud.Error.{Result, ok, err, Error, arg, state, ◌>>=◌, max_text}
use xivlantern_dalamud.Bytes.{Bytes, slice, be_bytes, be_value, i64_bits, i64_of_bits}
use xivlantern_dalamud.Utf8.{chars, is_control}
use xivlantern_dalamud.Crypto.{Signatures}

abbrev pub codes : String → Bytes
codes String.[] = []
codes (String.◌∷◌ c s) = code c ∷ codes s

abbrev pub record_magic : Bytes
record_magic = codes "LTHREC01"

abbrev pub domain : Bytes
domain = codes "XivLantern channel history v1" ++ 0 ∷ []

abbrev pub header : ℕ
header = 98

abbrev pub signature_len : ℕ
signature_len = 64

abbrev pub max_record_bytes : ℕ
max_record_bytes = header + max_text + signature_len

pub record HistoryRecord : Type 0 where
  pub author : Bytes
  pub room : Bytes
  pub id : Bytes
  pub sent_at : ℤ
  pub text : Bytes
  pub signature : Bytes
  pub encoded : Bytes

-- A control character that is no line break.
unfoldable pub is_bad_char : ℕ → Bool
is_bad_char c = is_control c && not (c == 10)

unfoldable pub has_bad_char : Bytes → Bool
unfolding is_bad_char
has_bad_char text = elim (chars text) [ none ↦ true | some cs ↦ any is_bad_char cs ]

-- Of bytes that are no text `chars` has no characters; `verify` refuses those before it asks.
unfoldable pub valid_text : Bytes → Bool
unfolding has_bad_char
valid_text text = ltb 0 (length text) && (leb (length text) max_text && not (has_bad_char text))

unfoldable pub signed_bytes : Bytes → Bytes
signed_bytes body = domain ++ body

-- Everything of a record but its signature.
unfoldable pub record_body : Bytes → Bytes → Bytes → ℤ → Bytes → Bytes
record_body author room id sent_at text =
    record_magic
    ++ (author
        ++ (room ++ (id ++ (be_bytes 8 (i64_bits sent_at) ++ (be_bytes 2 (length text) ++ text)))))

module _ (s : Signatures) where
  -- `random` is what the operating system gives for the 16 bytes of the id, if it gives any.
  unfoldable pub sign : s.SecretKey → Bytes → ℤ → Bytes → Option Bytes → Result Bytes
  unfolding record_body
  sign secret room sent_at text random =
      if not (valid_text text) || is_negative sent_at
      then err (arg "invalid history text or timestamp")
      else elim random [
        | none ↦ err (state "OS random source unavailable")
        | some id ↦
            let body = record_body (s.public secret) room id sent_at text in
            ok (body ++ s.sign secret (signed_bytes body))
      ]

  -- The last part of `verify`: the author's key and signature.
  unfoldable pub verify_signature : Bytes → Bytes → ℕ → ℤ → Bytes → Option HistoryRecord
  verify_signature bytes room text_len sent_at text =
      let author = slice 8 40 bytes in
      let signature = drop (header + text_len) bytes in
      if not (s.is_public_key author)
        || not (s.verify author (signed_bytes (take (header + text_len) bytes)) signature)
      then none
      else some (record {
        author = author;
        room = room;
        id = slice 72 88 bytes;
        sent_at = sent_at;
        text = text;
        signature = signature;
        encoded = bytes;
      })

  unfoldable pub verify : Bytes → Bytes → Option HistoryRecord
  verify expected_room bytes =
      let room = slice 40 72 bytes in
      let text_len = be_value (slice 96 98 bytes) in
      let sent_at = i64_of_bits (be_value (slice 88 96 bytes)) in
      let text = slice header (header + text_len) bytes in
      if ltb (length bytes) (header + signature_len)
        || (ltb max_record_bytes (length bytes) || not (take 8 bytes == record_magic))
      then none
      else if not (room == expected_room)
      then none
      else if not (length bytes == header + text_len + signature_len)
      then none
      else if is_negative sent_at || not (valid_text text)
      then none
      else verify_signature bytes room text_len sent_at text

  -- The sender of the live envelope has to be the author of the record.
  unfoldable pub verify_sender : Bytes → Bytes → Bytes → Option HistoryRecord
  verify_sender room sender bytes = elim (verify room bytes) [
    | none ↦ none
    | some r ↦ if r.author == sender then some r else none
  ]
