-- ===== src/Store/Friends/Kept.antt =====
-- Each statement on friends and devices keeps the tables well formed.
use xivlantern_dalamud.Prelude.{
  ℕ, ℤ, ◌≡◌, ◌≢◌, refl, sym, ap, ◌∙◌, false, Bool-cases, Option, none, some, ◌⊎◌, inl, inr, ◌==◌,
  nat_eq, bytes_eq, nat_beq_iff, arith,
}
use xivlantern_dalamud.Bytes.{Bytes}
use xivlantern_dalamud.HashMap.{HashMap, get, insert, remove, update_at, IsMap}
use xivlantern_dalamud.HashMap.Laws.{
  get-insert, get-remove, insert-IsMap, remove-IsMap, update_at-IsMap, update_at_forward,
  update_at_back, update_at_cases, insert_cases, insert_has, insert_new,
}
use xivlantern_dalamud.Store.Friends.{
  FriendRow, DeviceEntry, FriendTables, set_nostr, next_id, insert_friend, has_device,
  forget_if_alone, with_devices, owner_of,
}
use xivlantern_dalamud.Store.Friends.Tables.{
  IsWellFormed, has_device_found, has_device_of_found, owner_of_missing,
}

-- An update of a friend that leaves the nostr key alone.
pub update_friend-IsWellFormed :
    (t : FriendTables) (f : FriendRow → FriendRow) (id : ℕ)
    → ((row : FriendRow) → (f row).nostr_pubkey ≡ row.nostr_pubkey)
    → IsWellFormed t
    → IsWellFormed (record t { friends = update_at f t.friends id })
update_friend-IsWellFormed t f id keeps w = record {
  friends_map = update_at-IsMap f t.friends id w.friends_map;
  devices_map = w.devices_map;
  known = λ node d h.
      let (row, found) = w.known node d h in
      let (row', found', _) =
        update_at_forward f (λ r. r.nostr_pubkey) keeps t.friends id d.friend_id row found in
      (row', found');
  used = λ j row h.
      let (row', found, _) = update_at_back f (λ r. r.nostr_pubkey) keeps t.friends id j row h in
      w.used j row' found;
  one_key = λ i j a b pubkey ha hb ka kb.
      let (a', fa, ea) = update_at_back f (λ r. r.nostr_pubkey) keeps t.friends id i a ha in
      let (b', fb, eb) = update_at_back f (λ r. r.nostr_pubkey) keeps t.friends id j b hb in
      w.one_key i j a' b' pubkey fa fb (sym ea ∙ ka) (sym eb ∙ kb);
}

-- An update of a device that leaves its friend alone.
pub update_device-IsWellFormed :
    (t : FriendTables) (f : DeviceEntry → DeviceEntry) (node_id : Bytes)
    → ((d : DeviceEntry) → (f d).friend_id ≡ d.friend_id)
    → IsWellFormed t
    → IsWellFormed (record t { devices = update_at f t.devices node_id })
update_device-IsWellFormed t f node_id keeps w = record {
  friends_map = w.friends_map;
  devices_map = update_at-IsMap f t.devices node_id w.devices_map;
  known = λ node d h.
      let (d', found, e) = update_at_back f (λ x. x.friend_id) keeps t.devices node_id node d h in
      let (row, there) = w.known node d' found in (row, ap (get t.friends) e ∙ there);
  used = λ j row h.
      let (node, (d, found, of)) = w.used j row h in
      let (d', found', e) =
        update_at_forward f (λ x. x.friend_id) keeps t.devices node_id node d found in
      (node, (d', found', e ∙ of));
  one_key = w.one_key;
}

-- A new friend, whose key is not bound yet, with a device that no friend has.
pub insert_friend-IsWellFormed :
    (t : FriendTables) (node_id name : Bytes) (addr : Option Bytes) (now : ℤ)
    → get t.devices node_id ≡ none
    → IsWellFormed t
    → IsWellFormed (insert_friend t node_id name addr now).0
unfolding insert_friend
insert_friend-IsWellFormed t node_id name addr now absent w = record {
  friends_map = insert-IsMap t.friends id row₀ w.friends_map;
  devices_map = insert-IsMap t.devices node_id d₀ w.devices_map;
  known = λ node d h. elim (insert_cases t.devices node_id node d₀ d h) [
    | inl (here, same) ↦
        (row₀, ap (get (insert t.friends id row₀)) (ap (λ x. x.friend_id) (sym same)) ∙ new_friend)
    | inr old ↦
        let (row, found) = w.known node d old in insert_has t.friends id d.friend_id row₀ row found
  ];
  used = λ j row h. elim (insert_cases t.friends id j row₀ row h) [
    | inl (here, same) ↦ (node_id, (d₀, new_device, here))
    | inr old ↦
        let (node, (d, found, of)) = w.used j row old in
        (node, (d, insert_new t.devices node_id node d₀ d absent found, of))
  ];
  one_key = λ i j a b pubkey ha hb ka kb.
      w.one_key i j a b pubkey (with_key i a pubkey ha ka) (with_key j b pubkey hb kb) ka kb;
}
  where
    id : ℕ
    id = next_id t.friends

    row₀ : FriendRow
    row₀ = record { name = name; nostr_pubkey = none; added_at = now }

    d₀ : DeviceEntry
    d₀ = record { friend_id = id; addr = addr; added_at = now; last_seen = none }

    new_friend : get (insert t.friends id row₀) id ≡ some row₀
    new_friend = ground (arith, get-insert t.friends id id row₀)

    new_device : get (insert t.devices node_id d₀) node_id ≡ some d₀
    new_device =
        ground (arith, get-insert t.devices node_id node_id d₀, bytes_eq.equals_iff node_id node_id)

    with_key :
        (j : ℕ) (row : FriendRow) (pubkey : Bytes)
        → get (insert t.friends id row₀) j ≡ some row
        → row.nostr_pubkey ≡ some pubkey
        → get t.friends j ≡ some row
    with_key j row pubkey h k = elim (insert_cases t.friends id j row₀ row h) [
      | inl (here, same) ↦ absurd (cc (ap (λ r. r.nostr_pubkey) same, k))
      | inr old ↦ old
    ]

-- A key that no friend has, bound to a friend.
pub set_nostr-IsWellFormed :
    (t : FriendTables) (pubkey : Bytes) (id : ℕ)
    → owner_of t.friends pubkey ≡ none
    → IsWellFormed t
    → IsWellFormed (record t { friends = update_at (set_nostr pubkey) t.friends id })
unfolding set_nostr
set_nostr-IsWellFormed t pubkey id free w = record {
  friends_map = update_at-IsMap (set_nostr pubkey) t.friends id w.friends_map;
  devices_map = w.devices_map;
  known = λ node d h.
      let (row, found) = w.known node d h in
      let (row', found', _) =
        update_at_forward (set_nostr pubkey) (λ r. r.name) (λ r. refl) t.friends id d.friend_id row
          found in
      (row', found');
  used = λ j row h.
      let (row', found, _) =
        update_at_back (set_nostr pubkey) (λ r. r.name) (λ r. refl) t.friends id j row h in
      w.used j row' found;
  one_key = λ i j a b key ha hb ka kb. elim (bound i a key ha ka) [
    | inl (at_i, key_i) ↦ elim (bound j b key hb kb) [
      | inl (at_j, key_j) ↦ sym at_i ∙ at_j
      | inr old_j ↦ absurd (owner_of_missing t.friends pubkey j b free old_j (kb ∙ ap some key_i))
    ]
    | inr old_i ↦ elim (bound j b key hb kb) [
      | inl (at_j, key_j) ↦
          absurd (owner_of_missing t.friends pubkey i a free old_i (ka ∙ ap some key_j))
      | inr old_j ↦ w.one_key i j a b key old_i old_j ka kb
    ]
  ];
}
  where
    bound :
        (j : ℕ) (row : FriendRow) (key : Bytes)
        → get (update_at (set_nostr pubkey) t.friends id) j ≡ some row
        → row.nostr_pubkey ≡ some key
        → ((id ≡ j) × (key ≡ pubkey)) ⊎ (get t.friends j ≡ some row)
    bound j row key h k = elim (update_at_cases (set_nostr pubkey) t.friends id j row h) [
      | inl (here, (v, is)) ↦ inl (here, cc (k, ap (λ r. r.nostr_pubkey) is))
      | inr old ↦ inr old
    ]

-- The friend `id` lost a device: every other friend still has one, and every device its friend.
pub with_devices-IsWellFormed :
    (t : FriendTables) (devices : HashMap Bytes DeviceEntry) (id : ℕ)
    → IsWellFormed t
    → IsMap devices
    → ((node_id : Bytes) (d : DeviceEntry)
        → get devices node_id ≡ some d
        → (row : FriendRow) × (get t.friends d.friend_id ≡ some row))
    → ((j : ℕ) (row : FriendRow)
        → get t.friends j ≡ some row
        → j ≢ id
        → (node_id : Bytes) × ((d : DeviceEntry) × (get devices node_id ≡ some d)
            × (d.friend_id ≡ j)))
    → IsWellFormed (with_devices t devices id)
unfolding with_devices forget_if_alone
with_devices-IsWellFormed t devices id w map known used =
    elim (Bool-cases (has_device devices id)) [
      | inl still ↦ rw still (record {
        friends_map = w.friends_map;
        devices_map = map;
        known = known;
        used = λ j row h. elim (Bool-cases (j == id)) [
          | inl same ↦
              let (node, (d, found, of)) = has_device_found devices id map still in
              (node, (d, found, of ∙ sym ((nat_beq_iff j id).0 same)))
          | inr other ↦ used j row h (differs j other)
        ];
        one_key = w.one_key;
      })
      | inr alone ↦ rw alone (record {
        friends_map = remove-IsMap t.friends id w.friends_map;
        devices_map = map;
        known = λ node d h.
            let (row, found) = known node d h in
            (row, kept d.friend_id row found (lives node d h alone));
        used = λ j row h. let (old, other) = left j row h in used j row old other;
        one_key =
            λ i j a b key ha hb ka kb. w.one_key i j a b key (left i a ha).0 (left j b hb).0 ka kb;
      })
    ]
  where
    differs : (j : ℕ) → (j == id) ≡ false → j ≢ id
    differs j other e = ground (arith, nat_beq_iff j id)

    lives :
        (node : Bytes) (d : DeviceEntry)
        → get devices node ≡ some d
        → has_device devices id ≡ false
        → d.friend_id ≢ id
    lives node d h alone e =
        absurd (cc (alone, ap (has_device devices) e, has_device_of_found devices node d h))

    kept :
        (j : ℕ) (row : FriendRow)
        → get t.friends j ≡ some row
        → j ≢ id
        → get (remove t.friends id) j ≡ some row
    kept j row h other = ground (arith, get-remove t.friends id j, nat_beq_iff id j)

    left :
        (j : ℕ) (row : FriendRow)
        → get (remove t.friends id) j ≡ some row
        → (get t.friends j ≡ some row) × (j ≢ id)
    left j row h = ground (arith, get-remove t.friends id j, nat_beq_iff id j)
