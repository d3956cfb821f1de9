-- ===== src/Store/Settings/Tests.antt =====
-- Runs on the small tables, and the theorem on the node's key at a concrete input.
use xivlantern_dalamud.Prelude.{pos, ◌≡◌, refl, false, [], ◌∷◌, bytes_beq, retain}
use xivlantern_dalamud.Bytes.{Bytes, i64_of_bits}
use xivlantern_dalamud.HashMap.{contains_key, insert, keys}
use xivlantern_dalamud.ChannelHistory.{codes}
use xivlantern_dalamud.ChannelHistory.Tests.{replicate}
use xivlantern_dalamud.Author.{Announcement}
use xivlantern_dalamud.Store.Settings.{
  block, put_blocked, first_blocked, blocked, has_announcement, is_announcement, announcement_put,
  is_newer, put_announcement, latest_announcements, content_of, announcements,
}

abbrev key : Bytes
key = replicate 32 5

blocks_once :
    blocked (block (block (block [] (1 ∷ []) (pos 5)) (2 ∷ []) (pos 3)) (1 ∷ []) (pos 1))
    ≡ (2 ∷ []) ∷ (1 ∷ []) ∷ []
unfolding blocked block put_blocked first_blocked contains_key insert keys bytes_beq
blocks_once = refl

abbrev news : Announcement
news = record { seq = 4; issued_at = pos 9; title = codes "v4"; body = [] }

abbrev older : Announcement
older = record { seq = 3; issued_at = pos 8; title = codes "v3"; body = [] }

abbrev author : Bytes
author = 7 ∷ []

-- A re-offer is no news, and the latest comes first.
offers_again :
    let (first, new) = announcement_put [] author news [] (pos 10) in
    let (second, new') = announcement_put first author older [] (pos 11) in
    (announcement_put second author news [] (pos 12) ≡ (second, false))
    × (announcements second author 5 ≡ (news, []) ∷ (older, []) ∷ [])
unfolding announcement_put has_announcement is_announcement announcements latest_announcements
    put_announcement is_newer content_of i64_of_bits retain bytes_beq
offers_again = (refl, refl)
