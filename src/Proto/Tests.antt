-- ===== src/Proto/Tests.antt =====
-- Runs of proto.rs, with a simple encoding and a toy cipher, and its theorems at concrete inputs.
use xivlantern_dalamud.Prelude.{
  ℕ, ◌-◌, ◌≤◌, ◌≡◌, refl, ap, Option, none, some, [], ◌∷◌, ◌++◌, arith, length, take, drop,
  if◌then◌else◌, ◌==◌, nat_eq, bytes_eq, bytes_beq,
}
use xivlantern_dalamud.Bytes.{Bytes, be_bytes, be_value, be_value_from}
use xivlantern_dalamud.Text.{strip_prefix}
use xivlantern_dalamud.Error.{ok, protocol_version, gossip_max_frame}
use xivlantern_dalamud.Postcard.{Postcard, IsCoded}
use xivlantern_dalamud.ChannelHistory.{codes, HistoryRecord, verify_sender, signed_bytes}
use xivlantern_dalamud.ChannelHistory.Tests.{
  toy, toy-IsLawful, replicate, checksum, room, raw, line, verify_raw,
}
use xivlantern_dalamud.Ticket.Sealed.{SealedRoomTicket}
use xivlantern_dalamud.Proto.{
  Frame, Envelope, EnvelopeCodec, app, history_record, live_history_magic, file_nonce_magic,
  signed_envelope, is_authentic, encode, encode_history, encode_file_offer, decode,
}
use xivlantern_dalamud.Proto.RoundTrip.{IsReadBack, decode-encode, decode-encode_history}
use xivlantern_dalamud.Proto.Sealed.{
  Cipher, sealed_magic, sealed_context, open_sealed, open_body, open_exact, open_payload,
  encode_sealed, decode_sealed,
}
use xivlantern_dalamud.Proto.Opened.{IsOpened, open_payload-IsOpened}
use xivlantern_dalamud.Proto.SealedRoundTrip.{IsSealing, IsEnveloped, decode_sealed-encode_sealed}
use xivlantern_dalamud.Proto.Apart.{decode_sealed_refused}

-- The fields one behind the other, the body behind its length.
abbrev read_envelope : Bytes → Option (Envelope × Bytes)
read_envelope [] = none
read_envelope (version ∷ bytes) =
    let n = be_value (take 4 (drop 32 bytes)) in
    some (
      record {
        version = version;
        from = take 32 bytes;
        body = take n (drop 36 bytes);
        sig = take 64 (drop n (drop 36 bytes));
      },
      drop 64 (drop n (drop 36 bytes)),
    )

abbrev pub plain_envelopes : EnvelopeCodec
plain_envelopes = record {
  to_stdvec =
      λ env. env.version ∷ (env.from ++ (be_bytes 4 (length env.body) ++ (env.body ++ env.sig)));
  take_from_bytes = read_envelope;
}

-- Frames of application bytes only, with index 0.
abbrev write_frame : Frame ℕ → Option Bytes
write_frame (app text) = some (0 ∷ length text ∷ text)
write_frame frame = none

abbrev read_frame : Bytes → Option (Frame ℕ × Bytes)
read_frame [] = none
read_frame (index ∷ []) = none
read_frame (index ∷ n ∷ bytes) =
    if index == 0 then some (app (take n bytes), drop n bytes) else none

abbrev pub app_frames : Postcard (Frame ℕ)
app_frames = record { to_stdvec = write_frame; take_from_bytes = read_frame }

-- The message in front of a tag of 16 bytes that depends on all there is.
abbrev pub tag : Bytes → Bytes
tag bytes = checksum bytes ∷ replicate 15 0

abbrev pub toy_cipher : Cipher
toy_cipher = record {
  encrypt =
      λ key nonce context message. some (message ++ tag (key ++ (nonce ++ (context ++ message))));
  decrypt = λ key nonce context ciphertext.
      let message = take (length ciphertext - 16) ciphertext in
      if drop (length ciphertext - 16) ciphertext == tag (key ++ (nonce ++ (context ++ message)))
      then some message
      else none;
}

abbrev pub den : SealedRoomTicket ℕ
den = record {
  version = 1;
  topic = replicate 32 4;
  label = codes "Den";
  peers = [];
  key = replicate 32 5;
}

abbrev hello_text : Bytes
hello_text = codes "hello"

abbrev hello_body : Bytes
hello_body = 0 ∷ 5 ∷ hello_text

hello-IsCoded : IsCoded app_frames (app hello_text) hello_body
hello-IsCoded = record { written = refl; reads = λ rest. refl }

-- The index 76 is no frame.
app_refuses : (rest : Bytes) → app_frames.take_from_bytes (76 ∷ rest) ≡ none
app_refuses [] = refl
app_refuses (n ∷ rest) = refl

abbrev nonce_16 : Bytes
nonce_16 = replicate 16 1

abbrev sign_toy : Bytes → Envelope
sign_toy body = signed_envelope toy plain_envelopes 5 body

plain_back : IsReadBack plain_envelopes (sign_toy hello_body)
unfolding signed_envelope be_bytes be_value be_value_from
plain_back rest = refl

nonce_back : IsReadBack plain_envelopes (sign_toy (hello_body ++ (file_nonce_magic ++ nonce_16)))
unfolding signed_envelope be_bytes be_value be_value_from
nonce_back rest = refl

decode-encode_example :
    ((packet : Bytes) × (encode toy plain_envelopes app_frames 5 (app hello_text) ≡ some packet)
      × (decode toy plain_envelopes app_frames (packet ++ [])
          ≡ some (toy.public 5, app hello_text)))
    × ((packet : Bytes) × (encode_file_offer toy plain_envelopes app_frames 5
            (app hello_text)
            (some nonce_16)
          ≡ some packet)
        × (decode toy plain_envelopes app_frames (packet ++ [])
            ≡ some (toy.public 5, app hello_text)))
decode-encode_example =
    decode-encode toy plain_envelopes toy-IsLawful 5 app_frames (app hello_text) hello_body nonce_16
      [] hello-IsCoded plain_back nonce_back

line_sent : verify_sender toy room (toy.public 5) raw ≡ some line
unfolding verify_sender bytes_beq
line_sent =
    ap
      (λ o. elim o as (λ k. Option HistoryRecord) [
        | none ↦ none
        | some r ↦ if r.author == toy.public 5 then some r else none
      ])
      verify_raw

abbrev live_body : Bytes
live_body = 0 ∷ 13 ∷ line.text

live-IsCoded : IsCoded app_frames (app line.text) live_body
live-IsCoded = record { written = refl; reads = λ rest. refl }

live_back : IsReadBack plain_envelopes (sign_toy (live_body ++ (live_history_magic ++ raw)))
unfolding signed_envelope signed_bytes be_bytes be_value be_value_from
live_back rest = refl

decode-encode_history_example :
    (packet : Bytes) × (encode_history toy plain_envelopes app_frames 5 room raw ≡ some packet)
    × (decode toy plain_envelopes app_frames (packet ++ [])
        ≡ some (toy.public 5, history_record raw))
decode-encode_history_example =
    decode-encode_history toy plain_envelopes toy-IsLawful 5 app_frames room raw live_body [] line
      line_sent live-IsCoded live_back

abbrev nonce_24 : Bytes
nonce_24 = replicate 24 2

abbrev ciphertext : Bytes
ciphertext =
    hello_body
    ++ tag (den.key ++ (nonce_24 ++ ((sealed_magic ++ (den.topic ++ toy.public 5)) ++ hello_body)))

hello-IsSealing :
    IsSealing toy_cipher den.key nonce_24
      (sealed_context sealed_magic den.topic (toy.public 5))
      hello_body
      ciphertext
unfolding sealed_context bytes_beq
hello-IsSealing = record { encrypts = refl; decrypts = refl; size = refl }

hello-IsEnveloped :
    IsEnveloped plain_envelopes (sign_toy (sealed_magic ++ (nonce_24 ++ ciphertext)))
unfolding signed_envelope be_bytes be_value be_value_from
hello-IsEnveloped = record { reads = λ rest. refl; size = omega arith }

decode_sealed-encode_sealed_example :
    (packet : Bytes) × (encode_sealed toy plain_envelopes toy_cipher app_frames 5 den
        (app hello_text)
        (some nonce_24)
      ≡ ok packet)
    × (length packet ≤ gossip_max_frame)
    × (decode_sealed toy plain_envelopes toy_cipher app_frames den packet
        ≡ some (toy.public 5, app hello_text))
decode_sealed-encode_sealed_example =
    decode_sealed-encode_sealed toy plain_envelopes toy_cipher toy-IsLawful 5 den app_frames
      (app hello_text) hello_body nonce_24 ciphertext hello-IsCoded hello-IsSealing
      hello-IsEnveloped refl (omega arith)

abbrev sealed_packet : Bytes
sealed_packet = plain_envelopes.to_stdvec (record {
  version = protocol_version;
  from = toy.public 5;
  body = sealed_magic ++ (nonce_24 ++ ciphertext);
  sig = toy.sign 5 (sealed_magic ++ (nonce_24 ++ ciphertext));
})

opens :
    open_payload toy plain_envelopes toy_cipher den sealed_packet sealed_magic 100
    ≡ some (toy.public 5, hello_body)
unfolding open_payload open_exact open_body open_sealed is_authentic sealed_context strip_prefix
    be_bytes be_value be_value_from bytes_beq
opens = refl

open_payload-IsOpened_example :
    IsOpened toy plain_envelopes toy_cipher den sealed_packet sealed_magic 100
      (toy.public 5)
      hello_body
open_payload-IsOpened_example =
    open_payload-IsOpened toy plain_envelopes toy_cipher den sealed_magic 100 sealed_packet
      (toy.public 5) hello_body opens

decode_sealed_refused_example : decode toy plain_envelopes app_frames sealed_packet ≡ none
decode_sealed_refused_example =
    decode_sealed_refused toy plain_envelopes toy_cipher app_frames den sealed_packet
      (codes "TSEAL01") 100 (toy.public 5) hello_body app_refuses opens
