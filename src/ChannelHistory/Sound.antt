-- ===== src/ChannelHistory/Sound.antt =====
-- What an accepted record of channel_history.rs is known to be.
use xivlantern_dalamud.Prelude.{
  ℕ, ℤ, is_negative, ◌+◌, ◌≤◌, ◌≡◌, ap, ◌∙◌, true, false, Option, none, some, arith, length, take,
  drop, bytes_eq, ◌↔◌, guarded, or_false, not-false, nat_beq_iff, le_of_not-ltb, if◌then◌else◌,
  ◌==◌,
}
use xivlantern_dalamud.Bytes.{Bytes, slice, be_value, i64_of_bits}
use xivlantern_dalamud.Crypto.{Signatures}
use xivlantern_dalamud.ChannelHistory.{
  record_magic, header, signature_len, max_record_bytes, HistoryRecord, valid_text, signed_bytes,
  verify_signature, verify, verify_sender,
}

-- What `verify` has checked of the record it returns.
pub record IsVerified (s : Signatures) (room bytes : Bytes) (r : HistoryRecord) : Type 0 where
  pub encoded_bytes : r.encoded ≡ bytes
  pub in_room : r.room ≡ room
  pub short : length bytes ≤ max_record_bytes
  pub framed : length bytes ≡ header + be_value (slice 96 98 bytes) + signature_len
  pub magic : take 8 bytes ≡ record_magic
  pub not_negative : is_negative r.sent_at ≡ false
  pub text_valid : valid_text r.text ≡ true
  pub author_valid : s.is_public_key r.author ≡ true
  pub signed :
      s.verify r.author
        (signed_bytes (take (header + be_value (slice 96 98 bytes)) bytes))
        r.signature
      ≡ true

verify_signature-fields :
    (s : Signatures) (bytes room : Bytes) (text_len : ℕ) (sent_at : ℤ) (text : Bytes)
    (r : HistoryRecord)
    → verify_signature s bytes room text_len sent_at text ≡ some r
    → (r ≡ record {
      author = slice 8 40 bytes;
      room = room;
      id = slice 72 88 bytes;
      sent_at = sent_at;
      text = text;
      signature = drop (header + text_len) bytes;
      encoded = bytes;
    })
      × (s.is_public_key (slice 8 40 bytes) ≡ true)
      × (s.verify
            (slice 8 40 bytes)
            (signed_bytes (take (header + text_len) bytes))
            (drop (header + text_len) bytes)
          ≡ true)
unfolding verify_signature
verify_signature-fields s bytes room text_len sent_at text r h = ground arith

pub verify_tests :
    (s : Signatures) (room bytes : Bytes) (r : HistoryRecord)
    → verify s room bytes ≡ some r
    → let text_len = be_value (slice 96 98 bytes) in
      let sent_at = i64_of_bits (be_value (slice 88 96 bytes)) in
      let text = slice header (header + text_len) bytes in
      (length bytes ≤ max_record_bytes)
      × (take 8 bytes ≡ record_magic)
      × (slice 40 72 bytes ≡ room)
      × (length bytes ≡ header + text_len + signature_len)
      × (is_negative sent_at ≡ false)
      × (valid_text text ≡ true)
      × (verify_signature s bytes (slice 40 72 bytes) text_len sent_at text ≡ some r)
unfolding verify
verify_tests s room bytes r h =
    let (size, h₁) = guarded _ _ h in
    let (same_room, h₂) = guarded _ _ h₁ in
    let (frame, h₃) = guarded _ _ h₂ in
    let (content, h₄) = guarded _ _ h₃ in
    let (_, upper) = or_false _ _ size in
    let (max, magic) = or_false _ _ upper in
    let (time, text) = or_false _ _ content in
    (
      le_of_not-ltb max_record_bytes (length bytes) max,
      (bytes_eq.equals_iff _ _).0 (not-false _ magic),
      (bytes_eq.equals_iff _ _).0 (not-false _ same_room),
      (nat_beq_iff _ _).0 (not-false _ frame),
      time,
      not-false _ text,
      h₄,
    )

-- An accepted record is of the room asked for, within the size limit and exactly framed; its text
-- and time are valid, and its author's key verifies its signature over all bytes before it.
pub verify-IsVerified :
    (s : Signatures) (room bytes : Bytes) (r : HistoryRecord)
    → verify s room bytes ≡ some r
    → IsVerified s room bytes r
verify-IsVerified s room bytes r h =
    let (short, magic, in_room, framed, not_negative, text_valid, rest) =
      verify_tests s room bytes r h in
    let (fields, key, signed) = verify_signature-fields s bytes _ _ _ _ r rest in
    record {
      encoded_bytes = ap (λ q. q.encoded) fields;
      in_room = ap (λ q. q.room) fields ∙ in_room;
      short = short;
      framed = framed;
      magic = magic;
      not_negative = rw fields not_negative;
      text_valid = rw fields text_valid;
      author_valid = rw fields key;
      signed = rw fields signed;
    }

-- Only the author of a record can be its live sender.
pub verify_sender_iff :
    (s : Signatures) (room sender bytes : Bytes) (r : HistoryRecord)
    → (verify_sender s room sender bytes ≡ some r)
      ↔ ((verify s room bytes ≡ some r) × (r.author ≡ sender))
unfolding verify_sender
verify_sender_iff s room sender bytes r = by_result (verify s room bytes)
  where
    by_result :
        (o : Option HistoryRecord)
        → (elim o [ none ↦ none | some q ↦ if q.author == sender then some q else none ] ≡ some r)
          ↔ ((o ≡ some r) × (r.author ≡ sender))
    by_result none = (λ h. absurd (cc), λ h. absurd (cc (h.0)))
    by_result (some q) = (
      λ h. ground (arith, bytes_eq.equals_iff q.author sender),
      λ h. ground (arith, bytes_eq.equals_iff q.author sender),
    )
