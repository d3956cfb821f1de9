-- ===== src/Author.antt =====
-- crates/lantern-core/src/author.rs: signed announcements of a mod's author.
pub mod Channel
pub mod Verified
mod Tests
use xivlantern_dalamud.Prelude.{
  ℕ, ℤ, Bool, true, false, not, ◌&&◌, ◌||◌, Option, none, some, List, [], ◌∷◌, ◌++◌, ◌==◌, leb, ltb,
  any, length, nat_eq, bytes_eq, if◌then◌else◌,
}
use xivlantern_dalamud.Bytes.{Bytes}
use xivlantern_dalamud.Utf8.{chars}
use xivlantern_dalamud.Text.{is_whitespace}
use xivlantern_dalamud.Error.{arg, too_large, Result, ok, err, protocol_version}
use xivlantern_dalamud.Crypto.{Signatures}
use xivlantern_dalamud.ChannelHistory.{codes}

abbrev pub sign_context : Bytes
sign_context = codes "lantern-announcement/1"

abbrev pub max_title : ℕ
max_title = 120

abbrev pub max_body : ℕ
max_body = 1500

pub record Announcement : Type 0 where
  pub seq : ℕ
  pub issued_at : ℤ
  pub title : Bytes
  pub body : Bytes

pub record SignedAnnouncement : Type 0 where
  pub version : ℕ
  pub author : Bytes
  pub body : Bytes
  pub sig : Bytes

-- What author.rs uses of postcard for an announcement.
pub record Postcard : Type 0 where
  pub to_stdvec : Announcement → Bytes
  pub from_bytes : Bytes → Option Announcement

unfoldable pub message : Bytes → Bytes
message body = sign_context ++ body

-- `trim().is_empty()`; of bytes that are no text nothing is left either.
unfoldable pub is_blank : Bytes → Bool
unfolding is_whitespace
is_blank text = elim (chars text) [
  | none ↦ true
  | some cs ↦ not (any (λ c. not (is_whitespace c)) cs)
]

module _ (s : Signatures) (p : Postcard) where
  unfoldable pub sign : s.SecretKey → Announcement → Result SignedAnnouncement
  sign key a =
      if is_blank a.title
      then err (arg "an announcement needs a title")
      else if ltb max_title (length a.title) || ltb max_body (length a.body)
      then err too_large
      else ok (record {
        version = protocol_version;
        author = s.public key;
        body = p.to_stdvec a;
        sig = s.sign key (message (p.to_stdvec a));
      })

  -- The last test of `verify`.
  unfoldable pub well_formed : Announcement → Bool
  well_formed a =
      leb (length a.title) max_title && (leb (length a.body) max_body && not (is_blank a.title))

  -- The signature of `verify`: a key, 64 bytes, and the message.
  unfoldable pub is_signed : SignedAnnouncement → Bytes → Bool
  is_signed signed author =
      s.is_public_key author
      && (length signed.sig == 64 && s.verify author (message signed.body) signed.sig)

  unfoldable pub parse : Bytes → Option Announcement
  unfolding well_formed
  parse body = elim (p.from_bytes body) [
    | none ↦ none
    | some a ↦ if well_formed a then some a else none
  ]

  unfoldable pub verify : SignedAnnouncement → Bytes → Option Announcement
  verify signed author =
      if not (signed.version == protocol_version) || not (signed.author == author)
      then none
      else if not (is_signed signed author)
      then none
      else parse signed.body
