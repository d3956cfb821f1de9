-- ===== src/Proto/Opened.antt =====
-- What a packet that the decoders of proto.rs accept has been shown to be.
use xivlantern_dalamud.Prelude.{
  ℕ, ◌+◌, ◌≤◌, ◌≡◌, refl, ap, ◌∙◌, true, not, Option, none, some, [], ◌∷◌, ◌++◌, nat_eq, ltb,
  length, take, drop, arith, guarded, le_of_not-ltb, not-false,
}
use xivlantern_dalamud.Bytes.{Bytes}
use xivlantern_dalamud.Text.{strip_prefix}
use xivlantern_dalamud.Text.Laws.{strip_prefix_sound}
use xivlantern_dalamud.Error.{protocol_version}
use xivlantern_dalamud.Crypto.{Signatures}
use xivlantern_dalamud.Postcard.{Postcard}
use xivlantern_dalamud.Ticket.Sealed.{SealedRoomTicket}
use xivlantern_dalamud.Proto.{
  Frame, Envelope, EnvelopeCodec, is_authentic, content, decode_body, decode,
}
use xivlantern_dalamud.Proto.Sealed.{
  Cipher, sealed_nonce_len, sealed_context, open_sealed, open_body, open_exact, open_payload,
}

-- What every accepted envelope has: the version, and a signature of its sender over its body.
pub record IsSigned (s : Signatures) (env : Envelope) : Type 0 where
  pub current : env.version ≡ protocol_version
  pub length_sig : length env.sig ≡ 64
  pub signed : s.verify env.from env.body env.sig ≡ true

-- What `open_payload` has checked of the sender and the plaintext it returns.
pub record IsOpened (s : Signatures) (envelopes : EnvelopeCodec) (cipher : Cipher) {Addr : Type 0}
    (ticket : SealedRoomTicket Addr) (bytes domain : Bytes) (max_plaintext : ℕ)
    (from plaintext : Bytes) : Type 0 where
  pub env : Envelope
  pub sealed : Bytes
  pub short : length bytes ≤ max_plaintext + 256
  pub exact : envelopes.take_from_bytes bytes ≡ some (env, [])
  pub is_signed : IsSigned s env
  pub sender : env.from ≡ from
  pub body : env.body ≡ domain ++ sealed
  pub long : sealed_nonce_len ≤ length sealed
  pub decrypted :
      cipher.decrypt ticket.key
        (take sealed_nonce_len sealed)
        (sealed_context domain ticket.topic from)
        (drop sealed_nonce_len sealed)
      ≡ some plaintext
  pub bounded : length plaintext ≤ max_plaintext

-- A result through an `Option` on the way.
pub through {ℓ κ} :
    {A : Type ℓ} {B : Type κ} (o : Option A) (next : A → Option B) {b : B}
    → (elim o as (λ k. Option B) [ none ↦ none | some a ↦ next a ]) ≡ some b
    → (a : A) × (o ≡ some a) × (next a ≡ some b)
through none next h = absurd (cc)
through (some a) next h = (a, refl, h)

module _ (s : Signatures) (envelopes : EnvelopeCodec) where
  pub is_authentic-IsSigned :
      (env : Envelope) → is_authentic s envelopes env ≡ true → IsSigned s env
  unfolding is_authentic
  is_authentic-IsSigned env h = record {
    current = ground arith;
    length_sig = ground arith;
    signed = ground arith;
  }

  module _ (cipher : Cipher) {Addr : Type 0} (ticket : SealedRoomTicket Addr) (domain : Bytes)
      (max_plaintext : ℕ) where
    open_exact_lem :
        (env : Envelope) (trailing : Bytes) (from plaintext : Bytes)
        → open_exact s envelopes cipher ticket domain max_plaintext env trailing
          ≡ some (from, plaintext)
        → (trailing ≡ [])
          × (open_body s envelopes cipher ticket domain max_plaintext env ≡ some (from, plaintext))
    unfolding open_exact
    open_exact_lem env [] from plaintext h = (refl, h)
    open_exact_lem env (extra ∷ trailing) from plaintext h = absurd (cc)

    -- The pair that comes out, its two parts renamed.
    opened_as :
        (sealed opened sender from plaintext : Bytes)
        → sealed_nonce_len ≤ length sealed
        → ◌≡◌ {A = Option (Bytes × Bytes)} (some (sender, opened)) (some (from, plaintext))
        → cipher.decrypt ticket.key
            (take sealed_nonce_len sealed)
            (sealed_context domain ticket.topic sender)
            (drop sealed_nonce_len sealed)
          ≡ some opened
        → length opened ≤ max_plaintext
        → (sealed_nonce_len ≤ length sealed)
          × (sender ≡ from)
          × (cipher.decrypt ticket.key
                (take sealed_nonce_len sealed)
                (sealed_context domain ticket.topic from)
                (drop sealed_nonce_len sealed)
              ≡ some plaintext)
          × (length plaintext ≤ max_plaintext)
    opened_as sealed opened sender from plaintext long same decrypts bounded =
        let s_eq : sender ≡ from = cc in
        let p_eq : opened ≡ plaintext = cc in (long, s_eq, cc, rw (← p_eq) bounded)

    open_sealed_lem :
        (sender sealed from plaintext : Bytes)
        → open_sealed s envelopes cipher ticket domain max_plaintext sender sealed
          ≡ some (from, plaintext)
        → (sealed_nonce_len ≤ length sealed)
          × (sender ≡ from)
          × (cipher.decrypt ticket.key
                (take sealed_nonce_len sealed)
                (sealed_context domain ticket.topic from)
                (drop sealed_nonce_len sealed)
              ≡ some plaintext)
          × (length plaintext ≤ max_plaintext)
    unfolding open_sealed
    open_sealed_lem sender sealed from plaintext h =
        let (long, h₁) = guarded (ltb (length sealed) sealed_nonce_len) _ h in
        let (opened, decrypts, h₂) =
          through
            (cipher.decrypt ticket.key (take sealed_nonce_len sealed)
              (sealed_context domain ticket.topic sender) (drop sealed_nonce_len sealed))
            _ h₁ in
        let (bounded, same) = guarded (ltb max_plaintext (length opened)) _ h₂ in
        opened_as sealed opened sender from plaintext (le_of_not-ltb _ _ long) same decrypts
          (le_of_not-ltb _ _ bounded)

    -- A payload that `open_payload` gives out came in a packet within the limit, which is one envelope to its
    -- last byte, of the protocol's version, with the sender's signature over its body; the body starts with
    -- the domain, and the rest decrypts to the plaintext under the ticket's key, with the domain, the
    -- ticket's topic and the sender as associated data; and the plaintext is within its limit.
    pub open_payload-IsOpened :
        (bytes from plaintext : Bytes)
        → open_payload s envelopes cipher ticket bytes domain max_plaintext ≡ some (from, plaintext)
        → IsOpened s envelopes cipher ticket bytes domain max_plaintext from plaintext
    unfolding open_payload open_body
    open_payload-IsOpened bytes from plaintext h =
        let (short, h₁) = guarded _ _ h in
        let ((env, trailing), found, h₂) = through (envelopes.take_from_bytes bytes) _ h₁ in
        let (ends, h₃) = open_exact_lem env trailing from plaintext h₂ in
        let (signed, h₄) = guarded (not (is_authentic s envelopes env)) _ h₃ in
        let (sealed, starts, h₅) = through (strip_prefix domain env.body) _ h₄ in
        let (long, sender, decrypted, bounded) =
          open_sealed_lem env.from sealed from plaintext h₅ in
        record {
          env = env;
          sealed = sealed;
          short = le_of_not-ltb _ _ short;
          exact = found ∙ ap (λ t. some (env, t)) ends;
          is_signed = is_authentic-IsSigned env (not-false _ signed);
          sender = sender;
          body = strip_prefix_sound domain env.body sealed starts;
          long = long;
          decrypted = decrypted;
          bounded = bounded;
        }

  module _ {Addr : Type 0} (frames : Postcard (Frame Addr)) where
    -- A packet that `decode` accepts is an envelope of the protocol's version with the signature of the
    -- sender over its body, and its body starts with a frame.
    pub decode-IsSigned :
        (bytes from : Bytes) (frame : Frame Addr)
        → decode s envelopes frames bytes ≡ some (from, frame)
        → (env : Envelope) × ((rest : Bytes) × (envelopes.take_from_bytes bytes ≡ some (env, rest)))
          × IsSigned s env
          × ((read : Frame Addr) × ((trailing : Bytes) × (frames.take_from_bytes env.body
                  ≡ some (read, trailing))
                × (content s envelopes frames env.from read trailing ≡ some (from, frame))))
    unfolding decode decode_body
    decode-IsSigned bytes from frame h =
        let ((env, rest), found, h₁) = through (envelopes.take_from_bytes bytes) _ h in
        let (signed, h₂) = guarded (not (is_authentic s envelopes env)) _ h₁ in
        let ((read, trailing), reads, h₃) = through (frames.take_from_bytes env.body) _ h₂ in
        (
          env,
          (rest, found),
          is_authentic-IsSigned env (not-false _ signed),
          (read, (trailing, reads, h₃)),
        )
