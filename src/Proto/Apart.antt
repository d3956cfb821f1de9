-- ===== src/Proto/Apart.antt =====
-- A packet of proto.rs has one use: plain and sealed packets, and sealed packets of different domains, are
-- not taken for one another.
use xivlantern_dalamud.Prelude.{
  ℕ, ◌≡◌, sym, ap, ◌∙◌, Option, none, some, [], ◌∷◌, ◌++◌, length, take, Option-cases, inl, inr,
}
use xivlantern_dalamud.Bytes.{Bytes}
use xivlantern_dalamud.Bytes.Slices.{take-append}
use xivlantern_dalamud.Crypto.{Signatures}
use xivlantern_dalamud.Postcard.{Postcard}
use xivlantern_dalamud.Ticket.Sealed.{SealedRoomTicket}
use xivlantern_dalamud.Proto.{Frame, Envelope, EnvelopeCodec, decode}
use xivlantern_dalamud.Proto.Sealed.{Cipher, open_payload}
use xivlantern_dalamud.Proto.Opened.{open_payload-IsOpened, decode-IsSigned}

same_front : (n : ℕ) (x y u v : Bytes) → length x ≡ n → length y ≡ n → x ++ u ≡ y ++ v → x ≡ y
same_front n x y u v hx hy h = sym (take-append n x u hx) ∙ ap (take n) h ∙ take-append n y v hy

module _ (s : Signatures) (envelopes : EnvelopeCodec) (cipher : Cipher) {Addr : Type 0} where
  -- Whatever the tickets and the limits, a packet that opens under two domains of 8 bytes opens for the same
  -- sender, and the domains are the same.
  pub open_payload_one_domain :
      (t u : SealedRoomTicket Addr) (bytes c d : Bytes) (m n : ℕ) (from sender x y : Bytes)
      → length c ≡ 8
      → length d ≡ 8
      → open_payload s envelopes cipher t bytes c m ≡ some (from, x)
      → open_payload s envelopes cipher u bytes d n ≡ some (sender, y)
      → (c ≡ d) × (from ≡ sender)
  open_payload_one_domain t u bytes c d m n from sender x y hc hd opens_c opens_d =
      let one = open_payload-IsOpened s envelopes cipher t c m bytes from x opens_c in
      let two = open_payload-IsOpened s envelopes cipher u d n bytes sender y opens_d in
      let same : one.env ≡ two.env = same_envelope one.env two.env (sym one.exact ∙ two.exact) in
      (
        same_front 8 c d one.sealed two.sealed hc hd
            (sym one.body ∙ ap (λ env. env.body) same ∙ two.body),
        sym one.sender ∙ ap (λ env. env.from) same ∙ two.sender,
      )
    where
      same_envelope :
          (a b : Envelope)
          → ◌≡◌ {A = Option (Envelope × Bytes)} (some (a, [])) (some (b, []))
          → a ≡ b
      same_envelope a b h = cc

  module _ (frames : Postcard (Frame Addr)) where
    read_twice :
        {read : Frame Addr} {trailing : Bytes} (env other : Envelope) (rest domain sealed : Bytes)
        → ◌≡◌ {A = Option (Envelope × Bytes)} (some (env, rest)) (some (other, []))
        → other.body ≡ 76 ∷ (domain ++ sealed)
        → frames.take_from_bytes env.body ≡ some (read, trailing)
        → ((bytes : Bytes) → frames.take_from_bytes (76 ∷ bytes) ≡ none)
        → ⊥
    read_twice env other rest domain sealed same body reads refuses =
        let e : env ≡ other = cc in
        absurd
          (cc (reads, refuses (domain ++ sealed), ap (λ v. frames.take_from_bytes v.body) e, body))

    -- When postcard refuses the index 76 (the letter L) for a frame, a packet that opens for some ticket under
    -- a domain that starts with L, as all of them do, is dropped by the decoder of plain packets.
    pub decode_sealed_refused :
        (t : SealedRoomTicket Addr) (bytes domain : Bytes) (m : ℕ) (from x : Bytes)
        → ((rest : Bytes) → frames.take_from_bytes (76 ∷ rest) ≡ none)
        → open_payload s envelopes cipher t bytes (76 ∷ domain) m ≡ some (from, x)
        → decode s envelopes frames bytes ≡ none
    decode_sealed_refused t bytes domain m from x refuses opens =
        elim (Option-cases (decode s envelopes frames bytes)) [
          | inl dropped ↦ dropped
          | inr ((sender, frame), taken) ↦
              let one =
                open_payload-IsOpened s envelopes cipher t (76 ∷ domain) m bytes from x opens in
              let (env, (rest, found), signed, (read, (trailing, reads, shown))) =
                decode-IsSigned s envelopes frames bytes sender frame taken in
              absurd (
                read_twice env one.env rest domain one.sealed (sym found ∙ one.exact) one.body reads
                  refuses)
        ]
