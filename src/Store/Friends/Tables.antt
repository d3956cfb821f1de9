-- ===== src/Store/Friends/Tables.antt =====
-- How the tables of friends and devices read after each statement.
use xivlantern_dalamud.Prelude.{
  ℕ, ◌<◌, ◌≡◌, ◌≢◌, sym, ap, ◌∙◌, Bool, true, false, none, some, [], ◌∷◌, ◌==◌, Option-cases, inl,
  inr, Bool-cases, nat_eq, bytes_eq, nat_beq_iff, arith, if◌then◌else◌,
}
use xivlantern_dalamud.Bytes.{Bytes}
use xivlantern_dalamud.HashMap.{HashMap, get, IsMap}
use xivlantern_dalamud.Store.Friends.{
  FriendRow, DeviceEntry, FriendTables, next_id, has_device, owner_of, is_nostr,
}

-- What the foreign keys, the primary keys and the transactions keep: every device has its friend, every
-- friend a device, and no two friends one nostr key.
pub record IsWellFormed (t : FriendTables) : Type 0 where
  pub friends_map : IsMap t.friends
  pub devices_map : IsMap t.devices
  pub known :
      (node_id : Bytes) (d : DeviceEntry)
      → get t.devices node_id ≡ some d
      → (row : FriendRow) × (get t.friends d.friend_id ≡ some row)
  pub used :
      (id : ℕ) (row : FriendRow)
      → get t.friends id ≡ some row
      → (node_id : Bytes) × ((d : DeviceEntry) × (get t.devices node_id ≡ some d)
          × (d.friend_id ≡ id))
  pub one_key :
      (i j : ℕ) (a b : FriendRow) (pubkey : Bytes)
      → get t.friends i ≡ some a
      → get t.friends j ≡ some b
      → a.nostr_pubkey ≡ some pubkey
      → b.nostr_pubkey ≡ some pubkey
      → i ≡ j

below_next_id :
    (friends : HashMap ℕ FriendRow) (id : ℕ) (row : FriendRow)
    → get friends id ≡ some row
    → id < next_id friends
unfolding get next_id
below_next_id [] id row h = absurd (cc)
below_next_id ((j, first) ∷ friends) id row h =
    ground (arith, nat_beq_iff j id, below_next_id friends id row)

pub next_id_free : (friends : HashMap ℕ FriendRow) → get friends (next_id friends) ≡ none
next_id_free friends = elim (Option-cases (get friends (next_id friends))) [
  | inl free ↦ free
  | inr (row, taken) ↦ absurd (omega (arith, below_next_id friends (next_id friends) row taken))
]

-- A device that refers to the friend, from the test and to it.
pub has_device_found :
    (devices : HashMap Bytes DeviceEntry) (id : ℕ)
    → IsMap devices
    → has_device devices id ≡ true
    → (node_id : Bytes) × ((d : DeviceEntry) × (get devices node_id ≡ some d) × (d.friend_id ≡ id))
unfolding get has_device
has_device_found [] id m h = absurd (cc)
has_device_found ((node, first) ∷ devices) id m h = elim (Bool-cases (first.friend_id == id)) [
  | inl its ↦ (node, (first, at_head, (nat_beq_iff first.friend_id id).0 its))
  | inr other ↦
      let (node_id, (d, found, of)) = has_device_found devices id m.1 (cc_later other h) in
      (node_id, (d, behind node_id d found, of))
]
  where
    at_head : (if node == node then some first else get devices node) ≡ some first
    at_head = ground (arith, bytes_eq.equals_iff node node)

    cc_later :
        (first.friend_id == id) ≡ false
        → (if first.friend_id == id then true else has_device devices id) ≡ true
        → has_device devices id ≡ true
    cc_later other h = ground arith

    behind :
        (node_id : Bytes) (d : DeviceEntry)
        → get devices node_id ≡ some d
        → (if node == node_id then some first else get devices node_id) ≡ some d
    behind node_id d found = ground (arith, bytes_eq.equals_iff node node_id, m.0)

pub has_device_of_found :
    (devices : HashMap Bytes DeviceEntry) (node_id : Bytes) (d : DeviceEntry)
    → get devices node_id ≡ some d
    → has_device devices d.friend_id ≡ true
unfolding get has_device
has_device_of_found [] node_id d h = absurd (cc)
has_device_of_found ((node, first) ∷ devices) node_id d h = ground (
  arith,
  bytes_eq.equals_iff node node_id,
  nat_beq_iff first.friend_id d.friend_id,
  has_device_of_found devices node_id d,
)

key_of :
    {pubkey : Bytes} (row : FriendRow) → is_nostr pubkey row ≡ true → row.nostr_pubkey ≡ some pubkey
key_of {pubkey} row h = elim (Option-cases row.nostr_pubkey) [
  | inl none_yet ↦
      absurd
        (cc (ap (λ k. elim k as (λ o. Bool) [ none ↦ false | some x ↦ x == pubkey ]) none_yet, h))
  | inr (k, is) ↦
      is
      ∙ ap some (
          (bytes_eq.equals_iff k pubkey).0
            (sym (ap (λ k. elim k as (λ o. Bool) [ none ↦ false | some x ↦ x == pubkey ]) is) ∙ h))
]

pub owner_of_found :
    (friends : HashMap ℕ FriendRow) (pubkey : Bytes) (id : ℕ)
    → IsMap friends
    → owner_of friends pubkey ≡ some id
    → (row : FriendRow) × (get friends id ≡ some row) × (row.nostr_pubkey ≡ some pubkey)
unfolding get owner_of
owner_of_found [] pubkey id m h = absurd (cc)
owner_of_found ((j, first) ∷ friends) pubkey id m h = elim (Bool-cases (is_nostr pubkey first)) [
  | inl its ↦ (first, at_head its, key_of first its)
  | inr other ↦
      let (row, found, key) = owner_of_found friends pubkey id m.1 (later other h) in
      (row, behind row found, key)
]
  where
    head_of :
        is_nostr pubkey first ≡ true
        → (if is_nostr pubkey first then some j else owner_of friends pubkey) ≡ some id
        → j ≡ id
    head_of its h = ground arith

    at_head :
        is_nostr pubkey first ≡ true → (if j == id then some first else get friends id) ≡ some first
    at_head its = ground (arith, nat_beq_iff j id, head_of its h)

    later :
        is_nostr pubkey first ≡ false
        → (if is_nostr pubkey first then some j else owner_of friends pubkey) ≡ some id
        → owner_of friends pubkey ≡ some id
    later other h = ground arith

    behind :
        (row : FriendRow)
        → get friends id ≡ some row
        → (if j == id then some first else get friends id) ≡ some row
    behind row found = ground (arith, nat_beq_iff j id, m.0)

pub owner_of_missing :
    (friends : HashMap ℕ FriendRow) (pubkey : Bytes) (id : ℕ) (row : FriendRow)
    → owner_of friends pubkey ≡ none
    → get friends id ≡ some row
    → row.nostr_pubkey ≢ some pubkey
unfolding get owner_of
owner_of_missing [] pubkey id row h found = absurd (cc)
owner_of_missing ((j, first) ∷ friends) pubkey id row h found = ground (
  arith,
  nat_beq_iff j id,
  bytes_eq.equals_iff pubkey pubkey,
  owner_of_missing friends pubkey id row,
)
