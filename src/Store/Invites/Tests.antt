-- ===== src/Store/Invites/Tests.antt =====
-- Runs of the table `invites` of store.rs, and its theorem at a concrete input.
use xivlantern_dalamud.Prelude.{
  ℕ, zero, suc, pos, ◌≡◌, refl, false, List, [], ◌∷◌, any, bytes_eq, bytes_beq,
}
use xivlantern_dalamud.Bytes.{Bytes}
use xivlantern_dalamud.Store.Invites.{
  InviteRow, is_secret, invite_put, redeem, invite_redeemed, is_redeemed, is_current, invites_open,
}
use xivlantern_dalamud.Store.Invites.Closed.{put, run, has_secret, redeemed_once}

abbrev sixteen : ℕ → ℕ → Bytes
sixteen b zero = []
sixteen b (suc n) = b ∷ sixteen b n

abbrev first : Bytes
first = sixteen 1 16

abbrev second : Bytes
second = sixteen 2 16

abbrev third : Bytes
third = sixteen 3 16

-- The first never expires, the second does at 100, the third has expired.
abbrev rows : List InviteRow
rows =
    run []
      (put first (pos 0) (pos 1) ∷ put second (pos 100) (pos 2) ∷ put third (pos 50) (pos 3) ∷ [])

lists : invites_open rows (pos 60) ≡ (first, pos 0) ∷ (second, pos 100) ∷ []
unfolding run invite_put is_secret any bytes_beq invites_open is_redeemed is_current
lists = refl

lists_after_redemption :
    invites_open (invite_redeemed rows first (9 ∷ []) (pos 4)) (pos 60) ≡ (second, pos 100) ∷ []
unfolding run invite_put is_secret any bytes_beq invites_open is_redeemed is_current invite_redeemed
    redeem
lists_after_redemption = refl

redeemed_once_example :
    any (has_secret first) (
      invites_open
        (run (invite_redeemed rows first (9 ∷ []) (pos 4)) (put first (pos 0) (pos 5) ∷ []))
        (pos 60))
    ≡ false
unfolding run invite_put is_secret any bytes_beq
redeemed_once_example =
    redeemed_once rows (put first (pos 0) (pos 5) ∷ []) first (9 ∷ []) (pos 4) (pos 60) refl
