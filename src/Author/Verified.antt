-- ===== src/Author/Verified.antt =====
-- What a member of the author channel of author.rs accepts.
use xivlantern_dalamud.Prelude.{
  ◌≤◌, ◌≡◌, refl, sym, ap, ◌∙◌, true, false, not, Option, none, some, arith, ◌==◌, length, nat_eq,
  bytes_eq, if◌then◌else◌, ◌||◌, guarded, or_false, Bool-cases, not-false, inl, inr,
}
use xivlantern_dalamud.Bytes.{Bytes}
use xivlantern_dalamud.Error.{ok, protocol_version}
use xivlantern_dalamud.Crypto.{Signatures, IsLawful}
use xivlantern_dalamud.Author.{
  max_title, max_body, Announcement, SignedAnnouncement, Postcard, message, is_blank, sign,
  well_formed, is_signed, parse, verify,
}

-- What a verified announcement has been shown to be.
pub record IsGenuine (s : Signatures) (p : Postcard) (signed : SignedAnnouncement) (author : Bytes)
    (a : Announcement) : Type 0 where
  pub current : signed.version ≡ protocol_version
  pub by_author : signed.author ≡ author
  pub is_key : s.is_public_key author ≡ true
  pub signature : s.verify author (message signed.body) signed.sig ≡ true
  pub content : p.from_bytes signed.body ≡ some a
  pub title_short : length a.title ≤ max_title
  pub body_short : length a.body ≤ max_body
  pub titled : is_blank a.title ≡ false

some_inj : {b a : Announcement} → some b ≡ some a → b ≡ a
some_inj h = cc

absent_ne : (a : Announcement) → none ≡ some a → ⊥
absent_ne a h = absurd (cc)

parse_lem :
    (s : Signatures) (p : Postcard) (body : Bytes) (a : Announcement)
    → parse s p body ≡ some a
    → (p.from_bytes body ≡ some a) × (well_formed s p a ≡ true)
unfolding parse
parse_lem s p body a h = by_content (p.from_bytes body) refl h
  where
    by_content :
        (found : Option Announcement)
        → p.from_bytes body ≡ found
        → (elim found as (λ k. Option Announcement) [
          | none ↦ none
          | some b ↦ if well_formed s p b then some b else none
        ])
          ≡ some a
        → (p.from_bytes body ≡ some a) × (well_formed s p a ≡ true)
    by_content none e f = absurd (cc)
    by_content (some b) e f = elim (Bool-cases (well_formed s p b)) [
      | inl good ↦
          let same : b ≡ a = some_inj (ap (λ t. if t then some b else none) (sym good) ∙ f) in
          (e ∙ ap some same, ap (well_formed s p) (sym same) ∙ good)
      | inr bad ↦ absurd (absent_ne a (ap (λ t. if t then some b else none) (sym bad) ∙ f))
    ]

well_formed_lem :
    (s : Signatures) (p : Postcard) (a : Announcement)
    → well_formed s p a ≡ true
    → (length a.title ≤ max_title) × (length a.body ≤ max_body) × (is_blank a.title ≡ false)
unfolding well_formed
well_formed_lem s p a h = ground (arith)

is_signed_lem :
    (s : Signatures) (p : Postcard) (signed : SignedAnnouncement) (author : Bytes)
    → is_signed s p signed author ≡ true
    → (s.is_public_key author ≡ true) × (s.verify author (message signed.body) signed.sig ≡ true)
unfolding is_signed
is_signed_lem s p signed author h = ground (arith)

-- An announcement that `verify` accepts for an author has the version of the protocol, names that author,
-- carries that key's signature over exactly its bytes, and decodes to what is given out, whose title is
-- not blank and within its limit, as is its body.
pub verify-IsGenuine :
    (s : Signatures) (p : Postcard) (signed : SignedAnnouncement) (author : Bytes)
    (a : Announcement)
    → verify s p signed author ≡ some a
    → IsGenuine s p signed author a
unfolding verify
verify-IsGenuine s p signed author a h =
    let (named, rest) =
      guarded (not (signed.version == protocol_version) || not (signed.author == author)) _ h in
    let (its, body) = guarded (not (is_signed s p signed author)) _ rest in
    let (version, by) =
      or_false (not (signed.version == protocol_version)) (not (signed.author == author)) named in
    let (key, signature) = is_signed_lem s p signed author (not-false _ its) in
    let (content, form) = parse_lem s p signed.body a body in
    let (title_short, body_short, titled) = well_formed_lem s p a form in
    record {
      current = (nat_eq.equals_iff signed.version protocol_version).0 (not-false _ version);
      by_author = (bytes_eq.equals_iff signed.author author).0 (not-false _ by);
      is_key = key;
      signature = signature;
      content = content;
      title_short = title_short;
      body_short = body_short;
      titled = titled;
    }

sign_lem :
    (s : Signatures) (p : Postcard) (key : s.SecretKey) (a : Announcement)
    (signed : SignedAnnouncement)
    → sign s p key a ≡ ok signed
    → (well_formed s p a ≡ true)
      × (record {
        version = protocol_version;
        author = s.public key;
        body = p.to_stdvec a;
        sig = s.sign key (message (p.to_stdvec a));
      }
          ≡ signed)
unfolding sign well_formed
sign_lem s p key a signed h = ground (arith)

parse_encoded :
    (s : Signatures) (p : Postcard) (a : Announcement)
    → p.from_bytes (p.to_stdvec a) ≡ some a
    → well_formed s p a ≡ true
    → parse s p (p.to_stdvec a) ≡ some a
unfolding parse
parse_encoded s p a decodes form = rw (decodes, parse) (ap (λ t. if t then some a else none) form)

-- When the signature scheme keeps its laws and postcard decodes what it encodes, an announcement that
-- `sign` gives out is accepted for the public key of the signer, as the announcement that was signed.
pub verify_signed :
    (s : Signatures) (p : Postcard) (key : s.SecretKey) (a : Announcement)
    (signed : SignedAnnouncement)
    → IsLawful s
    → p.from_bytes (p.to_stdvec a) ≡ some a
    → sign s p key a ≡ ok signed
    → verify s p signed (s.public key) ≡ some a
unfolding verify is_signed parse
verify_signed s p key a signed laws decodes h =
    let (form, made) = sign_lem s p key a signed h in
    let body = p.to_stdvec a in
    let same : (s.public key == s.public key) ≡ true =
      (bytes_eq.equals_iff (s.public key) (s.public key)).1 refl in
    ap (λ t. verify s p t (s.public key)) (sym made)
    ∙ rw same (
        rw (laws.public_valid key) (
          rw (laws.length-sign key (message body))
            (rw (laws.verify-sign key (message body)) (parse_encoded s p a decodes form))))
