-- ===== src/Author/Tests.antt =====
-- Runs of author.rs, and its theorems at concrete inputs, with an encoding that keeps one announcement.
use xivlantern_dalamud.Prelude.{
  ◌≡◌, refl, pos, none, some, [], ◌∷◌, any, bytes_eq, bytes_beq, ◌==◌, if◌then◌else◌,
}
use xivlantern_dalamud.Bytes.{Bytes}
use xivlantern_dalamud.Utf8.{chars}
use xivlantern_dalamud.Text.{is_whitespace}
use xivlantern_dalamud.Error.{ok, protocol_version}
use xivlantern_dalamud.ChannelHistory.{codes}
use xivlantern_dalamud.ChannelHistory.Tests.{toy}
use xivlantern_dalamud.Author.{
  Announcement, SignedAnnouncement, Postcard, message, is_blank, sign, well_formed, is_signed,
  parse, verify,
}
use xivlantern_dalamud.Author.Verified.{IsGenuine, verify-IsGenuine}

abbrev release : Announcement
release = record {
  seq = 3;
  issued_at = pos 1700000000;
  title = codes "Version 2";
  body = codes "Maps are back.";
}

abbrev coded : Bytes
coded = 3 ∷ 1 ∷ 4 ∷ []

abbrev one_code : Postcard
one_code = record {
  to_stdvec = λ a. coded;
  from_bytes = λ bytes. if bytes == coded then some release else none;
}

abbrev signed : SignedAnnouncement
signed = record {
  version = protocol_version;
  author = toy.public 5;
  body = coded;
  sig = toy.sign 5 (message coded);
}

signs : sign toy one_code 5 release ≡ ok signed
unfolding sign is_blank is_whitespace any chars message
signs = refl

accepts : verify toy one_code signed (toy.public 5) ≡ some release
unfolding verify is_signed parse well_formed is_blank is_whitespace any chars message bytes_beq
accepts = refl

-- Another author's channel does not show it.
refuses : verify toy one_code signed (toy.public 6) ≡ none
unfolding verify is_signed bytes_beq
refuses = refl

verify-IsGenuine_example : IsGenuine toy one_code signed (toy.public 5) release
verify-IsGenuine_example = verify-IsGenuine toy one_code signed (toy.public 5) release accepts
