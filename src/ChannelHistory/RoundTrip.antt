-- ===== src/ChannelHistory/RoundTrip.antt =====
-- A record that `sign` of channel_history.rs makes is what `verify` reads.
use xivlantern_dalamud.Prelude.{
  ℕ, ℤ, pos, is_negative, ◌+◌, ◌^◌, ◌≤◌, ◌<◌, ◌≡◌, refl, ap, ◌∙◌, true, false, some, ◌++◌, arith,
  length, take, drop, bytes_eq, ltb, nat_beq,
}
use xivlantern_dalamud.Error.{ok, max_text}
use xivlantern_dalamud.Bytes.{Bytes, slice, be_bytes, be_value, i64_bits, i64_of_bits}
use xivlantern_dalamud.Bytes.Slices.{be_value-be_bytes, i64_bits-lt, i64_round_trip}
use xivlantern_dalamud.Crypto.{Signatures, IsLawful}
use xivlantern_dalamud.ChannelHistory.{
  record_magic, header, signature_len, max_record_bytes, HistoryRecord, valid_text, signed_bytes,
  record_body, sign, verify_signature, verify,
}
use xivlantern_dalamud.ChannelHistory.Layout.{
  author_lem, room_lem, id_lem, time_lem, text_len_lem, text_lem, body_lem, magic_lem, drop_text,
  length-whole,
}

-- What `verify` asks of the length.
length_tests :
    (n k : ℕ)
    → n ≡ header + k + signature_len
    → k ≤ max_text
    → (ltb n (header + signature_len) ≡ false)
      × (ltb max_record_bytes n ≡ false)
      × (nat_beq n (header + k + signature_len) ≡ true)
length_tests n k e h = ground arith

-- `verify` accepts bytes whose slices are these fields.
verify_of_fields :
    (s : Signatures) (bytes author room id text sig body : Bytes) (sent_at : ℤ)
    → take 8 bytes ≡ record_magic
    → slice 8 40 bytes ≡ author
    → slice 40 72 bytes ≡ room
    → slice 72 88 bytes ≡ id
    → i64_of_bits (be_value (slice 88 96 bytes)) ≡ sent_at
    → be_value (slice 96 98 bytes) ≡ length text
    → slice header (header + length text) bytes ≡ text
    → take (header + length text) bytes ≡ body
    → drop (header + length text) bytes ≡ sig
    → length bytes ≡ header + length text + signature_len
    → length text ≤ max_text
    → is_negative sent_at ≡ false
    → valid_text text ≡ true
    → s.is_public_key author ≡ true
    → s.verify author (signed_bytes body) sig ≡ true
    → verify s room bytes
      ≡ some (record {
        author = author;
        room = room;
        id = id;
        sent_at = sent_at;
        text = text;
        signature = sig;
        encoded = bytes;
      })
unfolding verify verify_signature
verify_of_fields s bytes author room id text sig body sent_at m a r i t l x b d n k neg v key ver =
    let (long, short, exact) = length_tests (length bytes) (length text) n k in
    rw (
      l,
      t,
      x,
      b,
      d,
      m,
      a,
      r,
      i,
      neg,
      v,
      key,
      ver,
      long,
      short,
      exact,
      (bytes_eq.equals_iff record_magic record_magic).1 refl,
      (bytes_eq.equals_iff room room).1 refl,
    )

i64_time : (t : ℕ) → t < 2 ^ 63 → i64_of_bits (be_value (be_bytes 8 (i64_bits (pos t)))) ≡ pos t
i64_time t h =
    ap i64_of_bits (be_value-be_bytes 8 (i64_bits (pos t)) (i64_bits-lt (pos t)))
    ∙ i64_round_trip t h

valid_text-length : (text : Bytes) → valid_text text ≡ true → length text ≤ max_text
unfolding valid_text
valid_text-length text h = ground arith

-- The record that `sign` signs.
abbrev pub signed_record :
    (s : Signatures) → s.SecretKey → Bytes → ℤ → Bytes → Bytes → HistoryRecord
signed_record s secret room sent_at text id =
    let body = record_body (s.public secret) room id sent_at text in
    let sig = s.sign secret (signed_bytes body) in
    record {
      author = s.public secret;
      room = room;
      id = id;
      sent_at = sent_at;
      text = text;
      signature = sig;
      encoded = body ++ sig;
    }

sign-eq-ok :
    (s : Signatures) (secret : s.SecretKey) (room text id bytes : Bytes) (sent_at : ℤ)
    → sign s secret room sent_at text (some id) ≡ ok bytes
    → (valid_text text ≡ true)
      × (is_negative sent_at ≡ false)
      × (bytes ≡ (signed_record s secret room sent_at text id).encoded)
unfolding sign
sign-eq-ok s secret room text id bytes sent_at e = ground arith

verify-signed_record :
    (s : Signatures) (secret : s.SecretKey) (room text id : Bytes) (t : ℕ)
    → IsLawful s
    → length room ≡ 32
    → length id ≡ 16
    → t < 2 ^ 63
    → valid_text text ≡ true
    → let r = signed_record s secret room (pos t) text id in verify s room r.encoded ≡ some r
verify-signed_record s secret room text id t lawful room_len id_len h v =
    let author = s.public secret in
    let body = record_body author room id (pos t) text in
    let sig = s.sign secret (signed_bytes body) in
    let author_len = lawful.length-public secret in
    let short : length text ≤ max_text = valid_text-length text v in
    verify_of_fields s (body ++ sig) author room id text sig body (pos t)
      (magic_lem author room id text sig (pos t) author_len room_len id_len)
      (author_lem author room id text sig (pos t) author_len room_len id_len)
      (room_lem author room id text sig (pos t) author_len room_len id_len)
      (id_lem author room id text sig (pos t) author_len room_len id_len)
      (ap (λ xs. i64_of_bits (be_value xs))
          (time_lem author room id text sig (pos t) author_len room_len id_len)
        ∙ i64_time t h)
      (ap be_value (text_len_lem author room id text sig (pos t) author_len room_len id_len)
        ∙ be_value-be_bytes 2 (length text) (omega arith))
      (text_lem author room id text sig (pos t) author_len room_len id_len)
      (body_lem author room id text sig (pos t) author_len room_len id_len)
      (drop_text author room id text sig (pos t) author_len room_len id_len)
      (length-whole author room id text sig (pos t) author_len room_len id_len
        ∙ ap (λ n. header + length text + n) (lawful.length-sign secret (signed_bytes body)))
      short refl v (lawful.public_valid secret) (lawful.verify-sign secret (signed_bytes body))

-- What `sign` gives out for a room, `verify` accepts for that room, and reads the fields signed.
pub verify-sign :
    (s : Signatures) (secret : s.SecretKey) (room text id bytes : Bytes) (t : ℕ)
    → IsLawful s
    → length room ≡ 32
    → length id ≡ 16
    → t < 2 ^ 63
    → sign s secret room (pos t) text (some id) ≡ ok bytes
    → (bytes ≡ (signed_record s secret room (pos t) text id).encoded)
      × (verify s room bytes ≡ some (signed_record s secret room (pos t) text id))
verify-sign s secret room text id bytes t lawful room_len id_len h e =
    let (v, _, same) = sign-eq-ok s secret room text id bytes (pos t) e in
    (same, rw same (verify-signed_record s secret room text id t lawful room_len id_len h v))
