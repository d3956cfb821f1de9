-- ===== src/Proto/SealedRoundTrip.antt =====
-- What is sealed for a room opens again for its members.
use xivlantern_dalamud.Prelude.{
  ℕ, ◌+◌, ◌≤◌, ◌≡◌, refl, sym, ap, ◌∙◌, false, some, [], ◌++◌, append-nil, ltb, not-ltb, length,
  length-append, take, drop, arith,
}
use xivlantern_dalamud.Bytes.{Bytes}
use xivlantern_dalamud.Bytes.Slices.{take-append, drop-append_whole}
use xivlantern_dalamud.Text.Laws.{strip_prefix-append}
use xivlantern_dalamud.Error.{ok, gossip_max_frame}
use xivlantern_dalamud.Crypto.{Signatures, IsLawful}
use xivlantern_dalamud.Postcard.{Postcard, IsCoded, take_all}
use xivlantern_dalamud.Ticket.Sealed.{SealedRoomTicket}
use xivlantern_dalamud.Proto.{Frame, Envelope, EnvelopeCodec, signed_envelope, encode_body}
use xivlantern_dalamud.Proto.RoundTrip.{is_authentic-signed_envelope}
use xivlantern_dalamud.Proto.Sealed.{
  Cipher, sealed_magic, sealed_nonce_len, max_sealed_frame, sealed_context, seal_payload,
  open_sealed, open_body, open_exact, open_payload, encode_sealed, exact_frame, decode_plaintext,
  decode_sealed,
}

-- The cipher's documented behaviour at one message: it decrypts again, and a tag of 16 bytes is added.
pub record IsSealing (cipher : Cipher) (key nonce context message ciphertext : Bytes) : Type 0 where
  pub encrypts : cipher.encrypt key nonce context message ≡ some ciphertext
  pub decrypts : cipher.decrypt key nonce context ciphertext ≡ some message
  pub size : length ciphertext ≡ length message + 16

-- postcard's at one envelope: it is read back, and what is added to the body, a version, a key, a
-- signature and two lengths, takes at most 128 bytes.
pub record IsEnveloped (envelopes : EnvelopeCodec) (env : Envelope) : Type 0 where
  pub reads :
      (rest : Bytes)
      → envelopes.take_from_bytes (envelopes.to_stdvec env ++ rest) ≡ some (env, rest)
  pub size : length (envelopes.to_stdvec env) ≤ length env.body + 128

module _ (s : Signatures) (envelopes : EnvelopeCodec) (cipher : Cipher) (laws : IsLawful s)
    (secret : s.SecretKey) {Addr : Type 0} (ticket : SealedRoomTicket Addr) where
  open_sealed_lem :
      (domain nonce ciphertext plaintext from : Bytes) (max_plaintext : ℕ)
      → length nonce ≡ sealed_nonce_len
      → length plaintext ≤ max_plaintext
      → cipher.decrypt ticket.key nonce (sealed_context domain ticket.topic from) ciphertext
        ≡ some plaintext
      → open_sealed s envelopes cipher ticket domain max_plaintext from (nonce ++ ciphertext)
        ≡ some (from, plaintext)
  unfolding open_sealed
  open_sealed_lem domain nonce ciphertext plaintext from max_plaintext nonce_len short decrypts =
      rw
        (long, first, second, open_sealed, decrypts, not-ltb max_plaintext (length plaintext) short)
        refl
    where
      long : ltb (length (nonce ++ ciphertext)) sealed_nonce_len ≡ false
      long = rw (length-append, nonce_len) (not-ltb _ _ (omega arith))

      first : take sealed_nonce_len (nonce ++ ciphertext) ≡ nonce
      first = take-append sealed_nonce_len nonce ciphertext nonce_len

      second : drop sealed_nonce_len (nonce ++ ciphertext) ≡ ciphertext
      second = drop-append_whole sealed_nonce_len nonce ciphertext nonce_len

  open_body_lem :
      (domain sealed : Bytes) (max_plaintext : ℕ)
      → open_body s envelopes cipher ticket domain max_plaintext
          (signed_envelope s envelopes secret (domain ++ sealed))
        ≡ open_sealed s envelopes cipher ticket domain max_plaintext (s.public secret) sealed
  unfolding open_body
  open_body_lem domain sealed max_plaintext =
      rw (is_authentic-signed_envelope s envelopes laws secret (domain ++ sealed))
        (unfold signed_envelope in rw (strip_prefix-append domain sealed, open_body) refl)

  module _ (domain nonce plaintext ciphertext : Bytes) (max_plaintext : ℕ) where
    abbrev pub Seals : Type 0
    Seals =
        IsSealing cipher ticket.key nonce (sealed_context domain ticket.topic (s.public secret))
          plaintext ciphertext

    abbrev pub envelope : Envelope
    envelope = signed_envelope s envelopes secret (domain ++ (nonce ++ ciphertext))

    seal_payload_lem :
        Seals
        → length plaintext ≤ max_plaintext
        → seal_payload s envelopes cipher secret ticket domain plaintext max_plaintext (some nonce)
          ≡ ok (encode_body s envelopes secret (domain ++ (nonce ++ ciphertext)))
    unfolding seal_payload
    seal_payload_lem seals short =
        rw (not-ltb max_plaintext (length plaintext) short, seal_payload, seals.encrypts) refl

    -- The domain has 8 bytes, so what is added to the plaintext fits in 256.
    packet_size :
        Seals
        → IsEnveloped envelopes envelope
        → length domain ≡ 8
        → length nonce ≡ sealed_nonce_len
        → length plaintext ≤ max_plaintext
        → length (envelopes.to_stdvec envelope) ≤ max_plaintext + 256
    unfolding signed_envelope
    packet_size seals enveloped domain_len nonce_len short = omega (
      arith,
      enveloped.size,
      length-append domain (nonce ++ ciphertext),
      length-append nonce ciphertext,
      seals.size,
    )

    -- A payload within the limit that is sealed for a room under a domain of 8 bytes with a nonce of 24 makes
    -- a packet at most 256 bytes above the limit, and a holder of the same ticket opens the packet to the
    -- public key of the sender and the same payload, when the signature scheme, the cipher and postcard keep
    -- their laws at these values.
    pub open_payload-seal_payload :
        Seals
        → IsEnveloped envelopes envelope
        → length domain ≡ 8
        → length nonce ≡ sealed_nonce_len
        → length plaintext ≤ max_plaintext
        → (packet : Bytes) × (seal_payload s envelopes cipher secret ticket domain plaintext
              max_plaintext
              (some nonce)
            ≡ ok packet)
          × (length packet ≤ max_plaintext + 256)
          × (open_payload s envelopes cipher ticket packet domain max_plaintext
              ≡ some (s.public secret, plaintext))
    unfolding encode_body open_payload open_exact
    open_payload-seal_payload seals enveloped domain_len nonce_len short =
        let size = packet_size seals enveloped domain_len nonce_len short in
        let whole : envelopes.take_from_bytes (envelopes.to_stdvec envelope) ≡ some (envelope, []) =
          ap envelopes.take_from_bytes (sym (append-nil (envelopes.to_stdvec envelope)))
          ∙ enveloped.reads [] in
        (
          envelopes.to_stdvec envelope,
          seal_payload_lem seals short,
          size,
          rw (not-ltb (max_plaintext + 256) _ size, whole)
              (open_body_lem domain (nonce ++ ciphertext) max_plaintext
                ∙ open_sealed_lem domain nonce ciphertext plaintext (s.public secret) max_plaintext
                    nonce_len short seals.decrypts),
        )

  module _ (frames : Postcard (Frame Addr)) where
    decode_sealed_lem :
        (packet from plaintext : Bytes) (frame : Frame Addr)
        → open_payload s envelopes cipher ticket packet sealed_magic max_sealed_frame
          ≡ some (from, plaintext)
        → frames.take_from_bytes plaintext ≡ some (frame, [])
        → decode_sealed s envelopes cipher frames ticket packet ≡ some (from, frame)
    unfolding exact_frame decode_sealed
    decode_sealed_lem packet from plaintext frame opens reads =
        rw (opens, decode_sealed, decode_plaintext, reads) refl

    encode_sealed_lem :
        (frame : Frame Addr) (plaintext nonce : Bytes)
        → frames.to_stdvec frame ≡ some plaintext
        → encode_sealed s envelopes cipher frames secret ticket frame (some nonce)
          ≡ seal_payload s envelopes cipher secret ticket sealed_magic plaintext max_sealed_frame
              (some nonce)
    unfolding encode_sealed
    encode_sealed_lem frame plaintext nonce written = rw (written, encode_sealed) refl

    -- A frame that postcard writes in at most 7936 bytes seals to a packet that fits a gossip frame, and a
    -- holder of the same ticket decodes the packet to the public key of the sender and the same frame, when
    -- the signature scheme, the cipher and postcard keep their laws at these values.
    pub decode_sealed-encode_sealed :
        (frame : Frame Addr) (plaintext nonce ciphertext : Bytes)
        → IsCoded frames frame plaintext
        → Seals sealed_magic nonce plaintext ciphertext max_sealed_frame
        → IsEnveloped envelopes (envelope sealed_magic nonce plaintext ciphertext max_sealed_frame)
        → length nonce ≡ sealed_nonce_len
        → length plaintext ≤ max_sealed_frame
        → (packet : Bytes) × (encode_sealed s envelopes cipher frames secret ticket frame
              (some nonce)
            ≡ ok packet)
          × (length packet ≤ gossip_max_frame)
          × (decode_sealed s envelopes cipher frames ticket packet ≡ some (s.public secret, frame))
    decode_sealed-encode_sealed frame plaintext nonce ciphertext coded seals enveloped nonce_len
          short =
        let (packet, made, size, opens) =
          open_payload-seal_payload sealed_magic nonce plaintext ciphertext max_sealed_frame seals
            enveloped refl nonce_len short in
        (
          packet,
          encode_sealed_lem frame plaintext nonce coded.written ∙ made,
          omega (arith, size),
          decode_sealed_lem packet (s.public secret) plaintext frame opens
              (take_all frames frame plaintext coded),
        )
