-- ===== src/Proto/RoundTrip.antt =====
-- What the encoders of proto.rs write, and how `decode` reads it.
use xivlantern_dalamud.Prelude.{
  ◌≡◌, refl, ◌∙◌, true, false, none, some, [], ◌++◌, ◌==◌, nat_eq, bytes_eq, bytes_beq_iff, ltb,
  not-ltb, length, arith,
}
use xivlantern_dalamud.Bytes.{Bytes, slice}
use xivlantern_dalamud.Text.{strip_prefix}
use xivlantern_dalamud.Text.Laws.{strip_prefix-append}
use xivlantern_dalamud.Crypto.{Signatures, IsLawful}
use xivlantern_dalamud.Postcard.{Postcard, IsCoded, take_all}
use xivlantern_dalamud.ChannelHistory.{HistoryRecord, verify_sender}
use xivlantern_dalamud.ChannelHistory.Sound.{verify-IsVerified, verify_sender_iff, verify_tests}
use xivlantern_dalamud.Proto.{
  Frame, Envelope, EnvelopeCodec, app, presence, blob_offer, blob_unoffer, hello, history_record,
  history_request, history_offer, sealed_blob_offer, live_history_magic, file_nonce_magic,
  signed_envelope, encode_body, is_authentic, encode, encode_history, encode_file_offer,
  live_record, content, decode_body, decode,
}

-- postcard reads an envelope back, whatever follows it.
abbrev pub IsReadBack : EnvelopeCodec → Envelope → Type 0
IsReadBack envelopes env =
    (rest : Bytes) → envelopes.take_from_bytes (envelopes.to_stdvec env ++ rest) ≡ some (env, rest)

module _ (s : Signatures) (envelopes : EnvelopeCodec) (laws : IsLawful s)
    (secret : s.SecretKey) where
  pub is_authentic-signed_envelope :
      (body : Bytes) → is_authentic s envelopes (signed_envelope s envelopes secret body) ≡ true
  unfolding is_authentic signed_envelope
  is_authentic-signed_envelope body =
      rw (laws.length-sign secret body, laws.verify-sign secret body) refl

  module _ {Addr : Type 0} (frames : Postcard (Frame Addr)) where
    decode_lem :
        (bytes rest : Bytes) (env : Envelope)
        → envelopes.take_from_bytes bytes ≡ some (env, rest)
        → decode s envelopes frames bytes ≡ decode_body s envelopes frames env
    unfolding decode
    decode_lem bytes rest env h = rw (h, decode) refl

    decode_body_lem :
        (env : Envelope) (trailing : Bytes) (frame : Frame Addr)
        → is_authentic s envelopes env ≡ true
        → frames.take_from_bytes env.body ≡ some (frame, trailing)
        → decode_body s envelopes frames env ≡ content s envelopes frames env.from frame trailing
    unfolding decode_body
    decode_body_lem env trailing frame signed reads = rw (signed, reads, decode_body) refl

    decode-encode_body :
        (body rest trailing : Bytes) (frame : Frame Addr)
        → IsReadBack envelopes (signed_envelope s envelopes secret body)
        → frames.take_from_bytes body ≡ some (frame, trailing)
        → decode s envelopes frames (encode_body s envelopes secret body ++ rest)
          ≡ content s envelopes frames (s.public secret) frame trailing
    unfolding encode_body
    decode-encode_body body rest trailing frame back reads =
        let env = signed_envelope s envelopes secret body in
        decode_lem (encode_body s envelopes secret body ++ rest) rest env (back rest)
        ∙ decode_body_lem env trailing frame (is_authentic-signed_envelope body)
            (unfold signed_envelope in reads)
        ∙ unfold signed_envelope in refl

    -- Behind a frame stands no live record.
    content_plain :
        (from : Bytes) (frame : Frame Addr) (trailing : Bytes)
        → strip_prefix live_history_magic trailing ≡ none
        → content s envelopes frames from frame trailing ≡ some (from, frame)
    unfolding content
    content_plain from (app text) trailing h = rw (h, content) refl
    content_plain from (presence payload) trailing h = refl
    content_plain from (blob_offer hash size name) trailing h = refl
    content_plain from (blob_unoffer hash) trailing h = refl
    content_plain from (hello payload) trailing h = refl
    content_plain from (history_record raw) trailing h = refl
    content_plain from (history_request topic nonce attempt) trailing h = refl
    content_plain from (history_offer topic to nonce attempt hash size provider) trailing h = refl
    content_plain from (sealed_blob_offer hash size encrypted name) trailing h = refl

    -- A frame that `encode` signs, or that `encode_file_offer` signs with a nonce behind it, is written, and
    -- `decode` gives the public key of the signer and the same frame, when the signature scheme keeps its
    -- laws and postcard reads the frame and the envelopes back, whatever bytes follow the packet.
    pub decode-encode :
        (frame : Frame Addr) (body nonce rest : Bytes)
        → IsCoded frames frame body
        → IsReadBack envelopes (signed_envelope s envelopes secret body)
        → IsReadBack envelopes
            (signed_envelope s envelopes secret (body ++ (file_nonce_magic ++ nonce)))
        → ((packet : Bytes) × (encode s envelopes frames secret frame ≡ some packet)
            × (decode s envelopes frames (packet ++ rest) ≡ some (s.public secret, frame)))
          × ((packet : Bytes) × (encode_file_offer s envelopes frames secret frame (some nonce)
                ≡ some packet)
              × (decode s envelopes frames (packet ++ rest) ≡ some (s.public secret, frame)))
    unfolding encode encode_file_offer
    decode-encode frame body nonce rest coded back back_nonce = (
      (
        encode_body s envelopes secret body,
        rw (coded.written, encode) refl,
        decode-encode_body body rest [] frame back (take_all frames frame body coded)
            ∙ content_plain (s.public secret) frame [] (unfold strip_prefix in refl),
      ),
      (
        encode_body s envelopes secret (body ++ (file_nonce_magic ++ nonce)),
        rw (coded.written, encode_file_offer) refl,
        decode-encode_body (body ++ (file_nonce_magic ++ nonce)) rest (file_nonce_magic ++ nonce)
              frame back_nonce (coded.reads (file_nonce_magic ++ nonce))
            ∙ content_plain (s.public secret) frame (file_nonce_magic ++ nonce)
                (unfold strip_prefix in refl),
      ),
    )

    -- A live record is long enough to hold its room, and names it.
    room_lem :
        (room sender encoded : Bytes) (r : HistoryRecord)
        → verify_sender s room sender encoded ≡ some r
        → (ltb (length encoded) 72 ≡ false) × (slice 40 72 encoded ≡ room)
    room_lem room sender encoded r h =
        let seen = ((verify_sender_iff s room sender encoded r).0 h).0 in
        (
          not-ltb _ _ (omega (arith, (verify-IsVerified s room encoded r seen).framed)),
          (verify_tests s room encoded r seen).2,
        )

    live_record_lem :
        (room sender encoded : Bytes) (r : HistoryRecord)
        → verify_sender s room sender encoded ≡ some r
        → live_record s envelopes frames sender r.text encoded
          ≡ some (sender, history_record encoded)
    unfolding live_record
    live_record_lem room sender encoded r h =
        let (long, in_room) = room_lem room sender encoded r h in
        let same : (r.text == r.text) ≡ true = (bytes_beq_iff r.text r.text).1 refl in
        rw (long, in_room, h, live_record, same) refl

    content_live :
        (from text encoded : Bytes)
        → content s envelopes frames from (app text) (live_history_magic ++ encoded)
          ≡ live_record s envelopes frames from text encoded
    unfolding content
    content_live from text encoded =
        rw (strip_prefix-append live_history_magic encoded, content) refl

    -- A verified record of the signer that `encode_history` signs behind its own text is written, and `decode`
    -- gives the public key of the signer and the record, not the text, when the signature scheme keeps its
    -- laws and postcard reads the text's frame and the envelope back, whatever bytes follow the packet.
    pub decode-encode_history :
        (room encoded body rest : Bytes) (r : HistoryRecord)
        → verify_sender s room (s.public secret) encoded ≡ some r
        → IsCoded frames (app r.text) body
        → IsReadBack envelopes
            (signed_envelope s envelopes secret (body ++ (live_history_magic ++ encoded)))
        → (packet : Bytes) × (encode_history s envelopes frames secret room encoded ≡ some packet)
          × (decode s envelopes frames (packet ++ rest)
              ≡ some (s.public secret, history_record encoded))
    unfolding encode_history
    decode-encode_history room encoded body rest r h coded back = (
      encode_body s envelopes secret (body ++ (live_history_magic ++ encoded)),
      rw (h, encode_history, coded.written) refl,
      decode-encode_body (body ++ (live_history_magic ++ encoded)) rest
            (live_history_magic ++ encoded) (app r.text) back
            (coded.reads (live_history_magic ++ encoded))
          ∙ content_live (s.public secret) r.text encoded
          ∙ live_record_lem room (s.public secret) encoded r h,
    )
