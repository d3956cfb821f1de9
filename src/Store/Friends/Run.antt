-- ===== src/Store/Friends/Run.antt =====
-- Whatever calls come, the tables of friends and devices stay well formed.
use xivlantern_dalamud.Prelude.{
  ℕ, ℤ, ◌≡◌, ◌≢◌, refl, sym, ap, ◌∙◌, Bool-cases, Option, none, some, Option-cases, inl, inr, List,
  [], ◌∷◌, ◌==◌, nat_eq, bytes_eq, arith,
}
use xivlantern_dalamud.Bytes.{Bytes}
use xivlantern_dalamud.HashMap.{get, remove, update_at}
use xivlantern_dalamud.HashMap.Laws.{
  get-remove, get-update_at, remove-IsMap, update_at-IsMap, update_at_cases,
}
use xivlantern_dalamud.Store.Friends.{
  DeviceEntry, FriendTables, friend_of, set_name, set_addr, set_last_seen, set_friend,
  refresh_device, friend_add, touch_name, touch_addr, touch_last_seen, friend_touch, with_devices,
  friend_remove_device, owner_of, bind_to, friend_bind_nostr,
}
use xivlantern_dalamud.Store.Friends.Tables.{IsWellFormed, owner_of_found}
use xivlantern_dalamud.Store.Friends.Kept.{
  update_friend-IsWellFormed, update_device-IsWellFormed, insert_friend-IsWellFormed,
  set_nostr-IsWellFormed, with_devices-IsWellFormed,
}

-- A friend that `friend_of` gives is that of a device.
pub friend_of_known :
    (t : FriendTables) (node_id : Bytes) (id : ℕ)
    → friend_of t node_id ≡ some id
    → (d : DeviceEntry) × (get t.devices node_id ≡ some d) × (d.friend_id ≡ id)
unfolding friend_of
friend_of_known t node_id id h = by_device (get t.devices node_id) h
  where
    by_device :
        (o : Option DeviceEntry)
        → (elim o as (λ k. Option ℕ) [ none ↦ none | some d ↦ some d.friend_id ]) ≡ some id
        → (d : DeviceEntry) × (o ≡ some d) × (d.friend_id ≡ id)
    by_device none e = absurd (cc)
    by_device (some d) e = (d, refl, cc)

pub friend_of_unknown :
    (t : FriendTables) (node_id : Bytes) → friend_of t node_id ≡ none → get t.devices node_id ≡ none
unfolding friend_of
friend_of_unknown t node_id h = elim (Option-cases (get t.devices node_id)) [
  | inl absent ↦ absent
  | inr (d, found) ↦ absurd (
      cc (h, ap (λ o. elim o as (λ k. Option ℕ) [ none ↦ none | some x ↦ some x.friend_id ]) found))
]

refresh_device-IsWellFormed :
    (t : FriendTables) (node_id : Bytes) (id : ℕ) (name : Bytes) (addr : Option Bytes)
    → IsWellFormed t
    → IsWellFormed (refresh_device t node_id id name addr)
unfolding refresh_device set_name set_addr
refresh_device-IsWellFormed t node_id id name none w =
    update_friend-IsWellFormed t (set_name name) id (λ row. refl) w
refresh_device-IsWellFormed t node_id id name (some a) w =
    update_friend-IsWellFormed (record t { devices = update_at (set_addr a) t.devices node_id })
      (set_name name) id (λ row. refl)
      (update_device-IsWellFormed t (set_addr a) node_id (λ d. refl) w)

friend_add-IsWellFormed :
    (t : FriendTables) (node_id name : Bytes) (addr : Option Bytes) (now : ℤ)
    → IsWellFormed t
    → IsWellFormed (friend_add t node_id name addr now).0
unfolding friend_add
friend_add-IsWellFormed t node_id name addr now w = elim (Option-cases (friend_of t node_id)) [
  | inl absent ↦
      rw (absent, friend_add)
        (insert_friend-IsWellFormed t node_id name addr now (friend_of_unknown t node_id absent) w)
  | inr (id, found) ↦ rw (found, friend_add) (refresh_device-IsWellFormed t node_id id name addr w)
]

touch_name-IsWellFormed :
    (t : FriendTables) (node_id : Bytes) (name : Option Bytes)
    → IsWellFormed t
    → IsWellFormed (touch_name t node_id name)
unfolding touch_name set_name
touch_name-IsWellFormed t node_id none w = w
touch_name-IsWellFormed t node_id (some name) w = elim (Option-cases (friend_of t node_id)) [
  | inl absent ↦ rw (absent, touch_name) w
  | inr (id, found) ↦
      rw (found, touch_name) (update_friend-IsWellFormed t (set_name name) id (λ row. refl) w)
]

touch_addr-IsWellFormed :
    (t : FriendTables) (node_id : Bytes) (addr : Option Bytes)
    → IsWellFormed t
    → IsWellFormed (touch_addr t node_id addr)
unfolding touch_addr set_addr
touch_addr-IsWellFormed t node_id none w = w
touch_addr-IsWellFormed t node_id (some a) w =
    update_device-IsWellFormed t (set_addr a) node_id (λ d. refl) w

touch_last_seen-IsWellFormed :
    (t : FriendTables) (node_id : Bytes) (at : Option ℤ)
    → IsWellFormed t
    → IsWellFormed (touch_last_seen t node_id at)
unfolding touch_last_seen set_last_seen
touch_last_seen-IsWellFormed t node_id none w = w
touch_last_seen-IsWellFormed t node_id (some at) w =
    update_device-IsWellFormed t (set_last_seen at) node_id (λ d. refl) w

friend_remove_device-IsWellFormed :
    (t : FriendTables) (node_id : Bytes)
    → IsWellFormed t
    → IsWellFormed (friend_remove_device t node_id).0
unfolding friend_remove_device
friend_remove_device-IsWellFormed t node_id w = elim (Option-cases (friend_of t node_id)) [
  | inl absent ↦ rw (absent, friend_remove_device) w
  | inr (id, found) ↦ rw (found, friend_remove_device) (removed id found)
]
  where
    left :
        (node : Bytes) (d : DeviceEntry)
        → get (remove t.devices node_id) node ≡ some d
        → get t.devices node ≡ some d
    left node d h = ground (arith, get-remove t.devices node_id node)

    stays :
        (node : Bytes) (d : DeviceEntry)
        → get t.devices node ≡ some d
        → node_id ≢ node
        → get (remove t.devices node_id) node ≡ some d
    stays node d h other =
        ground (arith, get-remove t.devices node_id node, bytes_eq.equals_iff node_id node)

    removed :
        (id : ℕ)
        → friend_of t node_id ≡ some id
        → IsWellFormed (with_devices t (remove t.devices node_id) id)
    removed id found =
        let (gone, there, its) = friend_of_known t node_id id found in
        with_devices-IsWellFormed t (remove t.devices node_id) id w
          (remove-IsMap t.devices node_id w.devices_map)
          (λ node d h. w.known node d (left node d h))
          (λ j row h other.
            let (node, (d, has, of)) = w.used j row h in
            (
              node,
              (
                d,
                stays node d has (λ e. other (sym of ∙ cc (its, has, there, ap (get t.devices) e))),
                of,
              ),
            ))

-- The device moves from the friend that had it to the owner of the key.
moved-IsWellFormed :
    (t : FriendTables) (node_id pubkey : Bytes) (current owner : ℕ)
    → friend_of t node_id ≡ some current
    → owner_of t.friends pubkey ≡ some owner
    → IsWellFormed t
    → IsWellFormed (with_devices t (update_at (set_friend owner) t.devices node_id) current)
unfolding set_friend
moved-IsWellFormed t node_id pubkey current owner found owns w =
    let (device, there, its) = friend_of_known t node_id current found in
    with_devices-IsWellFormed t (update_at (set_friend owner) t.devices node_id) current w
      (update_at-IsMap (set_friend owner) t.devices node_id w.devices_map)
      (λ node d h. elim (update_at_cases (set_friend owner) t.devices node_id node d h) [
        | inl (here, (v, is)) ↦
            let (row, has, key) = owner_of_found t.friends pubkey owner w.friends_map owns in
            (row, ap (get t.friends) (ap (λ x. x.friend_id) is) ∙ has)
        | inr old ↦ w.known node d old
      ])
      (λ j row h other.
        let (node, (d, has, of)) = w.used j row h in
        (
          node,
          (
            d,
            stays node d has (λ e. other (sym of ∙ cc (its, has, there, ap (get t.devices) e))),
            of,
          ),
        ))
  where
    stays :
        (node : Bytes) (d : DeviceEntry)
        → get t.devices node ≡ some d
        → node_id ≢ node
        → get (update_at (set_friend owner) t.devices node_id) node ≡ some d
    stays node d h other = ground (
      arith,
      get-update_at (set_friend owner) t.devices node_id node,
      bytes_eq.equals_iff node_id node,
    )

bind_to-IsWellFormed :
    (t : FriendTables) (node_id pubkey : Bytes) (current : ℕ) (owner : Option ℕ)
    → friend_of t node_id ≡ some current
    → owner_of t.friends pubkey ≡ owner
    → IsWellFormed t
    → IsWellFormed (bind_to t node_id pubkey current owner).0
unfolding bind_to
bind_to-IsWellFormed t node_id pubkey current none found owns w =
    set_nostr-IsWellFormed t pubkey current owns w
bind_to-IsWellFormed t node_id pubkey current (some owner) found owns w =
    elim (Bool-cases (owner == current)) [
      | inl same ↦ rw same w
      | inr other ↦ rw other (moved-IsWellFormed t node_id pubkey current owner found owns w)
    ]

friend_bind_nostr-IsWellFormed :
    (t : FriendTables) (node_id pubkey : Bytes)
    → IsWellFormed t
    → IsWellFormed (friend_bind_nostr t node_id pubkey).0
unfolding friend_bind_nostr
friend_bind_nostr-IsWellFormed t node_id pubkey w = elim (Option-cases (friend_of t node_id)) [
  | inl absent ↦ rw (absent, friend_bind_nostr) w
  | inr (current, found) ↦
      rw (found, friend_bind_nostr)
        (bind_to-IsWellFormed t node_id pubkey current (owner_of t.friends pubkey) found refl w)
]

-- A call of the store that changes these tables.
pub data Call : Type 0 where
  add : Bytes → Bytes → Option Bytes → ℤ → Call
  touch : Bytes → Option Bytes → Option Bytes → Option ℤ → Call
  remove_device : Bytes → Call
  bind_nostr : Bytes → Bytes → Call

unfoldable pub apply_call : FriendTables → Call → FriendTables
apply_call t (add node_id name addr now) = (friend_add t node_id name addr now).0
apply_call t (touch node_id name addr last_seen) = friend_touch t node_id name addr last_seen
apply_call t (remove_device node_id) = (friend_remove_device t node_id).0
apply_call t (bind_nostr node_id pubkey) = (friend_bind_nostr t node_id pubkey).0

unfoldable pub apply_all : FriendTables → List Call → FriendTables
unfolding apply_call
apply_all t [] = t
apply_all t (call ∷ calls) = apply_all (apply_call t call) calls

apply_call-IsWellFormed :
    (t : FriendTables) (call : Call) → IsWellFormed t → IsWellFormed (apply_call t call)
unfolding apply_call friend_touch
apply_call-IsWellFormed t (add node_id name addr now) w =
    friend_add-IsWellFormed t node_id name addr now w
apply_call-IsWellFormed t (touch node_id name addr last_seen) w =
    touch_last_seen-IsWellFormed (touch_addr (touch_name t node_id name) node_id addr) node_id
      last_seen
      (touch_addr-IsWellFormed (touch_name t node_id name) node_id addr
        (touch_name-IsWellFormed t node_id name w))
apply_call-IsWellFormed t (remove_device node_id) w = friend_remove_device-IsWellFormed t node_id w
apply_call-IsWellFormed t (bind_nostr node_id pubkey) w =
    friend_bind_nostr-IsWellFormed t node_id pubkey w

-- Whatever calls add, refresh, remove and bind devices, in whatever order, tables that are well formed stay
-- so: every device has its friend, every friend has a device, and no two friends have one nostr key.
pub apply_all-IsWellFormed :
    (t : FriendTables) (calls : List Call) → IsWellFormed t → IsWellFormed (apply_all t calls)
unfolding apply_all
apply_all-IsWellFormed t [] w = w
apply_all-IsWellFormed t (call ∷ calls) w =
    apply_all-IsWellFormed (apply_call t call) calls (apply_call-IsWellFormed t call w)
