-- ===== src/Store/Friends/Bound.antt =====
-- Where a device ends up whose nostr list is verified.
use xivlantern_dalamud.Prelude.{
  ℕ, ◌≡◌, refl, sym, ap, ◌∙◌, false, Bool-cases, Option, none, some, inl, inr, ◌==◌, nat_eq,
  bytes_eq, nat_beq_iff, arith,
}
use xivlantern_dalamud.Bytes.{Bytes}
use xivlantern_dalamud.HashMap.{HashMap, get, update_at}
use xivlantern_dalamud.HashMap.Laws.{get-remove, get-update_at}
use xivlantern_dalamud.Store.Friends.{
  FriendRow, DeviceEntry, FriendTables, friend_of, set_nostr, set_friend, has_device,
  forget_if_alone, with_devices, owner_of, bind_to, friend_bind_nostr,
}
use xivlantern_dalamud.Store.Friends.Tables.{IsWellFormed, owner_of_found}
use xivlantern_dalamud.Store.Friends.Run.{friend_of_known}

-- The device is under the friend, and the friend has the key.
abbrev pub IsBound : FriendTables → Bytes → Bytes → ℕ → Type 0
IsBound t node_id pubkey target =
    (friend_of t node_id ≡ some target)
    × ((row : FriendRow) × (get t.friends target ≡ some row) × (row.nostr_pubkey ≡ some pubkey))

kept_friend :
    (friends : HashMap ℕ FriendRow) (devices : HashMap Bytes DeviceEntry) (id j : ℕ)
    → (j == id) ≡ false
    → get (forget_if_alone friends devices id) j ≡ get friends j
unfolding forget_if_alone
kept_friend friends devices id j other = elim (Bool-cases (has_device devices id)) [
  | inl still ↦ rw (still, forget_if_alone) refl
  | inr alone ↦ rw (alone, forget_if_alone) (ground (arith, get-remove friends id j))
]

friend_of_found :
    (t : FriendTables) (node_id : Bytes) (d : DeviceEntry)
    → get t.devices node_id ≡ some d
    → friend_of t node_id ≡ some d.friend_id
unfolding friend_of
friend_of_found t node_id d h = rw (h, friend_of) refl

new_key_IsBound :
    (t : FriendTables) (node_id pubkey : Bytes) (current : ℕ)
    → IsWellFormed t
    → friend_of t node_id ≡ some current
    → IsBound
        (record t { friends = update_at (set_nostr pubkey) t.friends current })
        node_id
        pubkey
        current
unfolding set_nostr friend_of
new_key_IsBound t node_id pubkey current w found =
    let (d, there, its) = friend_of_known t node_id current found in
    let (row, has) = w.known node_id d there in
    let at_current : get t.friends current ≡ some row = ap (get t.friends) (sym its) ∙ has in
    (
      found,
      (
        set_nostr pubkey row,
        ground (arith, get-update_at (set_nostr pubkey) t.friends current current),
        refl,
      ),
    )

moved_IsBound :
    (t : FriendTables) (node_id pubkey : Bytes) (current owner : ℕ)
    → IsWellFormed t
    → friend_of t node_id ≡ some current
    → owner_of t.friends pubkey ≡ some owner
    → (owner == current) ≡ false
    → IsBound
        (with_devices t (update_at (set_friend owner) t.devices node_id) current)
        node_id
        pubkey
        owner
unfolding with_devices set_friend
moved_IsBound t node_id pubkey current owner w found owns other =
    let (d, there, its) = friend_of_known t node_id current found in
    let (row, has, key) = owner_of_found t.friends pubkey owner w.friends_map owns in
    let devices = update_at (set_friend owner) t.devices node_id in
    let moved : get devices node_id ≡ some (set_friend owner d) = ground (
      arith,
      get-update_at (set_friend owner) t.devices node_id node_id,
      bytes_eq.equals_iff node_id node_id,
    ) in
    (
      friend_of_found (with_devices t devices current) node_id (set_friend owner d) moved,
      (row, kept_friend t.friends devices current owner other ∙ has, key),
    )

bind_to_lem :
    (t : FriendTables) (node_id pubkey : Bytes) (current : ℕ) (owner : Option ℕ)
    → IsWellFormed t
    → friend_of t node_id ≡ some current
    → owner_of t.friends pubkey ≡ owner
    → IsBound
        (bind_to t node_id pubkey current owner).0
        node_id
        pubkey
        (bind_to t node_id pubkey current owner).1
unfolding bind_to
bind_to_lem t node_id pubkey current none w found owns =
    new_key_IsBound t node_id pubkey current w found
bind_to_lem t node_id pubkey current (some owner) w found owns =
    elim (Bool-cases (owner == current)) [
      | inl same ↦ rw (same) (
        found ∙ ap some (sym ((nat_beq_iff owner current).0 same)),
        owner_of_found t.friends pubkey owner w.friends_map owns,
      )
      | inr other ↦ rw other (moved_IsBound t node_id pubkey current owner w found owns other)
    ]

-- In well-formed tables, binding a verified device of a friend returns a friend, the device is under that
-- friend afterwards, and that friend has the key.
pub friend_bind_nostr_lem :
    (t : FriendTables) (node_id pubkey : Bytes) (current : ℕ)
    → IsWellFormed t
    → friend_of t node_id ≡ some current
    → (target : ℕ) × ((friend_bind_nostr t node_id pubkey).1 ≡ some target)
      × IsBound (friend_bind_nostr t node_id pubkey).0 node_id pubkey target
unfolding friend_bind_nostr
friend_bind_nostr_lem t node_id pubkey current w found = (
  (bind_to t node_id pubkey current (owner_of t.friends pubkey)).1,
  rw (found, friend_bind_nostr) refl,
  rw (found, friend_bind_nostr)
      (bind_to_lem t node_id pubkey current (owner_of t.friends pubkey) w found refl),
)
