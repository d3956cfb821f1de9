-- ===== src/Store/Friends/Tests.antt =====
-- Runs on the tables of friends and devices, and the theorems at concrete inputs.
use xivlantern_dalamud.Prelude.{pos, ◌≡◌, refl, none, some, List, [], ◌∷◌, bytes_beq, take}
use xivlantern_dalamud.Bytes.{Bytes}
use xivlantern_dalamud.HashMap.{get, insert, remove, update_at}
use xivlantern_dalamud.ChannelHistory.{codes}
use xivlantern_dalamud.Store.Friends.{
  FriendTables, friend_of, set_nostr, set_friend, next_id, insert_friend, friend_add, has_device,
  forget_if_alone, with_devices, owner_of, bind_to, friend_bind_nostr,
}
use xivlantern_dalamud.Store.Friends.Tables.{IsWellFormed}
use xivlantern_dalamud.Store.Friends.Run.{
  Call, add, bind_nostr, apply_call, apply_all, apply_all-IsWellFormed,
}

abbrev no_friends : FriendTables
no_friends = record { friends = []; devices = [] }

no_friends-IsWellFormed : IsWellFormed no_friends
unfolding get
no_friends-IsWellFormed = record {
  friends_map = tt;
  devices_map = tt;
  known = λ node d h. absurd (cc);
  used = λ id row h. absurd (cc);
  one_key = λ i j a b key ha hb ka kb. absurd (cc);
}

abbrev desk : Bytes
desk = 1 ∷ []

abbrev laptop : Bytes
laptop = 2 ∷ []

abbrev her_key : Bytes
her_key = 9 ∷ 9 ∷ []

-- Two invites from the same person's two devices become one friend.
abbrev calls : List Call
calls =
    add desk (codes "Y'shtola") none (pos 10)
    ∷ add laptop (codes "Y'shtola") none (pos 11)
    ∷ bind_nostr desk her_key
    ∷ bind_nostr laptop her_key
    ∷ []

merged : apply_all no_friends calls ≡ record {
  friends =
      (1, record { name = codes "Y'shtola"; nostr_pubkey = some her_key; added_at = pos 10 }) ∷ [];
  devices =
      (desk, record { friend_id = 1; addr = none; added_at = pos 10; last_seen = none })
      ∷ (laptop, record { friend_id = 1; addr = none; added_at = pos 11; last_seen = none })
      ∷ [];
}
unfolding apply_all apply_call friend_add friend_bind_nostr bind_to insert_friend next_id friend_of
    get insert remove update_at owner_of set_nostr set_friend with_devices forget_if_alone
    has_device bytes_beq
merged = refl

apply_all-IsWellFormed_example : IsWellFormed (apply_all no_friends calls)
apply_all-IsWellFormed_example = apply_all-IsWellFormed no_friends calls no_friends-IsWellFormed

-- The tables before the laptop is bound.
abbrev apart : FriendTables
apart = apply_all no_friends (take 3 calls)

laptop_apart : friend_of apart laptop ≡ some 2
unfolding apply_all apply_call friend_add friend_bind_nostr bind_to insert_friend next_id friend_of
    get insert update_at owner_of set_nostr bytes_beq
laptop_apart = refl
