-- ===== src/Proto/Sealed.antt =====
-- crates/lantern-core/src/proto.rs: frames and files of a sealed room, encrypted, then signed.
use xivlantern_dalamud.Prelude.{
  ℕ, ◌+◌, ◌-◌, not, Option, none, some, [], ◌∷◌, ◌++◌, ltb, length, take, drop, if◌then◌else◌,
}
use xivlantern_dalamud.Bytes.{Bytes}
use xivlantern_dalamud.Text.{strip_prefix}
use xivlantern_dalamud.Error.{
  Result, ok, err, arg, state, internal, too_large, ok_or, ◌>>=◌, gossip_max_frame,
}
use xivlantern_dalamud.Crypto.{Signatures}
use xivlantern_dalamud.Postcard.{Postcard}
use xivlantern_dalamud.ChannelHistory.{codes}
use xivlantern_dalamud.Ticket.Sealed.{SealedRoomTicket}
use xivlantern_dalamud.Proto.{Frame, Envelope, EnvelopeCodec, encode_body, is_authentic}

-- `XChaCha20Poly1305`, from a library: key, nonce, associated data and message.
pub record Cipher : Type 0 where
  pub encrypt : Bytes → Bytes → Bytes → Bytes → Option Bytes
  pub decrypt : Bytes → Bytes → Bytes → Bytes → Option Bytes

abbrev pub sealed_magic : Bytes
sealed_magic = codes "LTSEAL01"

abbrev pub sealed_nonce_len : ℕ
sealed_nonce_len = 24

abbrev pub max_sealed_frame : ℕ
max_sealed_frame = gossip_max_frame - 256

unfoldable pub sealed_context : Bytes → Bytes → Bytes → Bytes
sealed_context domain topic sender = domain ++ (topic ++ sender)

module _ (s : Signatures) (envelopes : EnvelopeCodec) (cipher : Cipher) {Addr : Type 0} where
  -- `random` is what the operating system gives for the nonce, if it gives any.
  unfoldable pub seal_payload :
      s.SecretKey → SealedRoomTicket Addr → Bytes → Bytes → ℕ → Option Bytes → Result Bytes
  seal_payload secret ticket domain plaintext max_plaintext random =
      if ltb max_plaintext (length plaintext)
      then err too_large
      else ok_or random (state "OS random source unavailable") >>= λ nonce.
          ok_or
            (cipher.encrypt ticket.key nonce (sealed_context domain ticket.topic (s.public secret))
              plaintext)
            (internal "sealed encryption failed")
          >>= λ ciphertext. ok (encode_body s envelopes secret (domain ++ (nonce ++ ciphertext)))

  -- The body behind its domain: the nonce, and the ciphertext under the key of the ticket.
  unfoldable pub open_sealed :
      SealedRoomTicket Addr → Bytes → ℕ → Bytes → Bytes → Option (Bytes × Bytes)
  open_sealed ticket domain max_plaintext from sealed =
      if ltb (length sealed) sealed_nonce_len
      then none
      else elim (cipher.decrypt ticket.key (take sealed_nonce_len sealed)
          (sealed_context domain ticket.topic from) (drop sealed_nonce_len sealed)) [
            | none ↦ none
            | some plaintext ↦
                if ltb max_plaintext (length plaintext) then none else some (from, plaintext)
          ]

  unfoldable pub open_body : SealedRoomTicket Addr → Bytes → ℕ → Envelope → Option (Bytes × Bytes)
  unfolding open_sealed
  open_body ticket domain max_plaintext env =
      if not (is_authentic s envelopes env) then none else elim (strip_prefix domain env.body) [
        | none ↦ none
        | some sealed ↦ open_sealed ticket domain max_plaintext env.from sealed
      ]

  -- The envelope has to end where the packet ends.
  unfoldable pub open_exact :
      SealedRoomTicket Addr → Bytes → ℕ → Envelope → Bytes → Option (Bytes × Bytes)
  unfolding open_body
  open_exact ticket domain max_plaintext env [] = open_body ticket domain max_plaintext env
  open_exact ticket domain max_plaintext env (extra ∷ trailing) = none

  -- `max_plaintext + 256` does not overflow for the limits that the code passes.
  unfoldable pub open_payload : SealedRoomTicket Addr → Bytes → Bytes → ℕ → Option (Bytes × Bytes)
  unfolding open_exact
  open_payload ticket bytes domain max_plaintext =
      if ltb (max_plaintext + 256) (length bytes)
      then none
      else elim (envelopes.take_from_bytes bytes) [
        | none ↦ none
        | some (env, trailing) ↦ open_exact ticket domain max_plaintext env trailing
      ]

  module _ (frames : Postcard (Frame Addr)) where
    unfoldable pub encode_sealed :
        s.SecretKey → SealedRoomTicket Addr → Frame Addr → Option Bytes → Result Bytes
    encode_sealed secret ticket frame random =
        ok_or (frames.to_stdvec frame) (arg "frame") >>= λ plaintext.
        seal_payload secret ticket sealed_magic plaintext max_sealed_frame random

    -- The frame has to take up all of the plaintext.
    unfoldable pub exact_frame : Bytes → Frame Addr → Bytes → Option (Bytes × Frame Addr)
    exact_frame from frame [] = some (from, frame)
    exact_frame from frame (extra ∷ trailing) = none

    unfoldable pub decode_plaintext : Bytes → Bytes → Option (Bytes × Frame Addr)
    unfolding exact_frame
    decode_plaintext from plaintext = elim (frames.take_from_bytes plaintext) [
      | none ↦ none
      | some (frame, trailing) ↦ exact_frame from frame trailing
    ]

    unfoldable pub decode_sealed : SealedRoomTicket Addr → Bytes → Option (Bytes × Frame Addr)
    unfolding decode_plaintext
    decode_sealed ticket bytes = elim (open_payload ticket bytes sealed_magic max_sealed_frame) [
      | none ↦ none
      | some (from, plaintext) ↦ decode_plaintext from plaintext
    ]
