-- ===== src/Proto.antt =====
-- crates/lantern-core/src/proto.rs: the frames of a room, signed by their author and verified on arrival.
-- postcard, the signature scheme and the random source are the libraries' and the system's.
pub mod Sealed
pub mod RoundTrip
pub mod Opened
pub mod SealedRoundTrip
pub mod Apart
pub mod Tests
use xivlantern_dalamud.Prelude.{
  ℕ, Bool, not, ◌||◌, ◌&&◌, Option, none, some, ◌++◌, ◌==◌, nat_eq, bytes_eq, ltb, length,
  if◌then◌else◌,
}
use xivlantern_dalamud.Bytes.{Bytes, slice}
use xivlantern_dalamud.Text.{Text, strip_prefix}
use xivlantern_dalamud.Error.{protocol_version}
use xivlantern_dalamud.Crypto.{Signatures}
use xivlantern_dalamud.Postcard.{Postcard}
use xivlantern_dalamud.ChannelHistory.{codes, verify_sender}

pub data Frame (Addr : Type 0) : Type 0 where
  app : Bytes → Frame Addr
  presence : Bytes → Frame Addr
  -- hash, size, name
  blob_offer : Bytes → ℕ → Text → Frame Addr
  blob_unoffer : Bytes → Frame Addr
  hello : Bytes → Frame Addr
  history_record : Bytes → Frame Addr
  -- topic, nonce, attempt
  history_request : Bytes → Bytes → ℕ → Frame Addr
  -- topic, to, nonce, attempt, hash, size, provider
  history_offer : Bytes → Bytes → Bytes → ℕ → Bytes → ℕ → Addr → Frame Addr
  -- hash, size, encrypted size, name
  sealed_blob_offer : Bytes → ℕ → ℕ → Text → Frame Addr

pub record Envelope : Type 0 where
  pub version : ℕ
  pub from : Bytes
  pub body : Bytes
  pub sig : Bytes

-- What proto.rs uses of postcard for an envelope. Its encoder cannot fail, as the code's `expect` says.
pub record EnvelopeCodec : Type 0 where
  pub to_stdvec : Envelope → Bytes
  pub take_from_bytes : Bytes → Option (Envelope × Bytes)

abbrev pub live_history_magic : Bytes
live_history_magic = codes "LTHLIVE1"

abbrev pub file_nonce_magic : Bytes
file_nonce_magic = codes "LTFNON01"

module _ (s : Signatures) (envelopes : EnvelopeCodec) where
  unfoldable pub signed_envelope : s.SecretKey → Bytes → Envelope
  signed_envelope secret body = record {
    version = protocol_version;
    from = s.public secret;
    body = body;
    sig = s.sign secret body;
  }

  unfoldable pub encode_body : s.SecretKey → Bytes → Bytes
  unfolding signed_envelope
  encode_body secret body = envelopes.to_stdvec (signed_envelope secret body)

  -- The version, the length of the signature and the signature.
  unfoldable pub is_authentic : Envelope → Bool
  is_authentic env =
      env.version == protocol_version
      && (length env.sig == 64 && s.verify env.from env.body env.sig)

  module _ {Addr : Type 0} (frames : Postcard (Frame Addr)) where
    -- `none` stands for the panic of `expect`.
    unfoldable pub encode : s.SecretKey → Frame Addr → Option Bytes
    encode secret frame = elim (frames.to_stdvec frame) [
      | none ↦ none
      | some body ↦ some (encode_body secret body)
    ]

    unfoldable pub encode_history : s.SecretKey → Bytes → Bytes → Option Bytes
    encode_history secret room encoded = elim (verify_sender s room (s.public secret) encoded) [
      | none ↦ none
      | some r ↦ elim (frames.to_stdvec (app r.text)) [
        | none ↦ none
        | some body ↦ some (encode_body secret (body ++ (live_history_magic ++ encoded)))
      ]
    ]

    -- `random` is what the operating system gives for the 16 bytes of the nonce, if it gives any.
    unfoldable pub encode_file_offer : s.SecretKey → Frame Addr → Option Bytes → Option Bytes
    encode_file_offer secret frame none = none
    encode_file_offer secret frame (some nonce) = elim (frames.to_stdvec frame) [
      | none ↦ none
      | some body ↦ some (encode_body secret (body ++ (file_nonce_magic ++ nonce)))
    ]

    -- A record behind live text has to carry the same text, by the sender of the frame.
    unfoldable pub live_record : Bytes → Bytes → Bytes → Option (Bytes × Frame Addr)
    live_record from text encoded =
        if ltb (length encoded) 72
        then none
        else elim (verify_sender s (slice 40 72 encoded) from encoded) [
          | none ↦ none
          | some r ↦ if not (r.text == text) then none else some (from, history_record encoded)
        ]

    -- What a frame and the bytes behind it are.
    unfoldable pub content : Bytes → Frame Addr → Bytes → Option (Bytes × Frame Addr)
    unfolding live_record
    content from (app text) trailing = elim (strip_prefix live_history_magic trailing) [
      | none ↦ some (from, app text)
      | some encoded ↦ live_record from text encoded
    ]
    content from frame trailing = some (from, frame)

    unfoldable pub decode_body : Envelope → Option (Bytes × Frame Addr)
    decode_body env =
        if not (is_authentic env) then none else elim (frames.take_from_bytes env.body) [
          | none ↦ none
          | some (frame, trailing) ↦ content env.from frame trailing
        ]

    -- `none` means "drop this, quietly". Bytes behind the envelope are ignored.
    unfoldable pub decode : Bytes → Option (Bytes × Frame Addr)
    decode bytes = elim (envelopes.take_from_bytes bytes) [
      | none ↦ none
      | some (env, trailing) ↦ decode_body env
    ]
