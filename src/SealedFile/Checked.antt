-- ===== src/SealedFile/Checked.antt =====
-- What a decoded file has been shown to be, that an encoded file decodes, and the bounds of a download.
use xivlantern_dalamud.Prelude.{
  ℕ, ◌≤◌, ◌≡◌, refl, sym, ap, ◌∙◌, Bool, true, false, not, ◌||◌, Option, none, some, ◌==◌, nat_eq,
  bytes_eq, nat_beq_iff, bytes_beq_iff, ltb, not-ltb, le_of_not-ltb, or_false, not-false, length,
  arith, if◌then◌else◌,
}
use xivlantern_dalamud.Bytes.{Bytes}
use xivlantern_dalamud.Error.{Result, Error, ok, err, ok_or, ◌>>=◌}
use xivlantern_dalamud.Crypto.{Signatures, IsLawful}
use xivlantern_dalamud.Ticket.Sealed.{SealedRoomTicket}
use xivlantern_dalamud.Proto.{EnvelopeCodec}
use xivlantern_dalamud.Proto.Sealed.{Cipher, sealed_nonce_len, open_payload}
use xivlantern_dalamud.Proto.Opened.{IsOpened, open_payload-IsOpened}
use xivlantern_dalamud.Proto.SealedRoundTrip.{
  IsEnveloped, Seals, envelope, open_payload-seal_payload,
}
use xivlantern_dalamud.SealedFile.{
  file_domain, max_file_bytes, max_ciphertext_bytes, encode, check_offer, decode,
}
use xivlantern_dalamud.SealedFile.Download.{Steps, finish, read_content, read_tree, fetch}

-- `if b { return Err(e) }`: what a result says of the guards that it passed.
allowed {ℓ} :
    {T : Type ℓ} (b : Bool) (e : Error) (r : Result T) {t : T}
    → (if b then err e else r) ≡ ok t
    → (b ≡ false) × (r ≡ ok t)
allowed true e r h = absurd (cc)
allowed false e r h = (refl, h)

opened {ℓ κ} :
    {A : Type ℓ} {T : Type κ} (o : Option A) (e : Error) (next : A → Result T) {t : T}
    → (ok_or o e >>= next) ≡ ok t
    → (a : A) × (o ≡ some a) × (next a ≡ ok t)
opened none e next h = absurd (cc)
opened (some a) e next h = (a, refl, h)

check_offer_lem :
    (provider : Bytes) (size : ℕ) (from plaintext bytes : Bytes)
    → check_offer provider size from plaintext ≡ ok bytes
    → (from ≡ provider) × (plaintext ≡ bytes) × (length plaintext ≡ size)
unfolding check_offer
check_offer_lem provider size from plaintext bytes h =
    let (same, done) = allowed (not (from == provider) || not (length plaintext == size)) _ _ h in
    let (who, how_long) = or_false (not (from == provider)) (not (length plaintext == size)) same in
    (
      (bytes_beq_iff from provider).0 (not-false _ who),
      cc (done),
      (nat_beq_iff (length plaintext) size).0 (not-false _ how_long),
    )

module _ (s : Signatures) (envelopes : EnvelopeCodec) (cipher : Cipher) {Addr : Type 0}
    (ticket : SealedRoomTicket Addr) where
  -- A file that `decode` gives out is of the size offered, at most 16 MiB, and was opened from the packet for
  -- the provider of the offer, under the ticket's key and topic and the domain of files.
  pub decode_checked :
      (provider bytes file : Bytes) (size : ℕ)
      → decode s envelopes cipher ticket provider bytes size ≡ ok file
      → (length file ≡ size)
        × (size ≤ max_file_bytes)
        × IsOpened s envelopes cipher ticket bytes file_domain max_file_bytes provider file
  unfolding decode
  decode_checked provider bytes file size h =
      let (small, h₁) = allowed (ltb max_file_bytes size) _ _ h in
      let ((from, plaintext), opens, h₂) =
        opened (open_payload s envelopes cipher ticket bytes file_domain max_file_bytes) _ _ h₁ in
      let (who, what, how_long) = check_offer_lem provider size from plaintext file h₂ in
      (
        ap length (sym what) ∙ how_long,
        le_of_not-ltb _ _ small,
        open_payload-IsOpened s envelopes cipher ticket file_domain max_file_bytes bytes provider
            file (opens ∙ cc (who, what)),
      )

  module _ (laws : IsLawful s) (secret : s.SecretKey) (file nonce ciphertext : Bytes) where
    -- A file of at most 16 MiB is encoded to a packet within the bound of encrypted downloads, and a holder of
    -- the same ticket decodes it to the same file when told its provider and its size, when the signature
    -- scheme, the cipher and postcard keep their laws at these values.
    pub decode-encode_file :
        Seals s envelopes cipher laws secret ticket file_domain nonce file ciphertext max_file_bytes
        → IsEnveloped envelopes (
            envelope s envelopes cipher laws secret ticket file_domain nonce file ciphertext
              max_file_bytes)
        → length nonce ≡ sealed_nonce_len
        → length file ≤ max_file_bytes
        → (packet : Bytes) × (encode s envelopes cipher secret ticket file (some nonce) ≡ ok packet)
          × (length packet ≤ max_ciphertext_bytes)
          × (decode s envelopes cipher ticket (s.public secret) packet (length file) ≡ ok file)
    unfolding encode decode check_offer
    decode-encode_file seals enveloped nonce_len short =
        let (packet, made, size, opens) =
          open_payload-seal_payload s envelopes cipher laws secret ticket file_domain nonce file
            ciphertext max_file_bytes seals enveloped refl nonce_len short in
        (
          packet,
          made,
          size,
          rw
              (
                not-ltb max_file_bytes (length file) short,
                opens,
                (bytes_beq_iff (s.public secret) (s.public secret)).1 refl,
                (nat_beq_iff (length file) (length file)).1 refl,
              )
              refl,
        )

-- A download that gives bytes gives as many as the offer said, within the limit, which is within the limit of
-- encrypted files, and the tree's header said so before any content was read.
pub fetch_bounded :
    (steps : Steps) (offered_size max_size : ℕ) (bytes : Bytes)
    → fetch steps offered_size max_size ≡ some bytes
    → (length bytes ≡ offered_size)
      × (offered_size ≤ max_size)
      × (max_size ≤ max_ciphertext_bytes)
      × (steps.tree_size ≡ some offered_size)
unfolding fetch read_tree read_content finish
fetch_bounded steps offered_size max_size bytes h = ground arith
