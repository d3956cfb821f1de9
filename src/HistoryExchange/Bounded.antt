-- ===== src/HistoryExchange/Bounded.antt =====
-- The cache of snapshots stays within its bounds.
use xivlantern_dalamud.Prelude.{
  ℕ, suc, ◌≤◌, ◌≡◌, refl, ap, ◌∙◌, Bool, true, false, not, ◌&&◌, ◌||◌, Bool-cases, some,
  Option-cases, inl, inr, List, [], ◌∷◌, ◌==◌, nat_eq, bytes_eq, leb, ltb, length, arith,
  if◌then◌else◌,
}
use xivlantern_dalamud.Bytes.{Bytes}
use xivlantern_dalamud.HashMap.{HashMap, get, contains_key, insert, retain, update_at}
use xivlantern_dalamud.HashMap.Laws.{contains_key-get, length-insert, length-retain, is_some}
use xivlantern_dalamud.ChannelHistory.Snapshot.{snapshot_header, max_snapshot_bytes}
use xivlantern_dalamud.HistoryExchange.{
  max_snapshots, max_sealed_snapshot_bytes, Snapshot, Cache, is_leased, prune, without_room,
  has_room, leave, find_fresh, renew_lease, get_snapshot, note_room, new_snapshot, enter,
  put_bounded, put, put_sealed,
}

-- A snapshot of a size that a fetch accepts, which some room offers.
abbrev pub IsOffer : Snapshot → Type 0
IsOffer s =
    (snapshot_header ≤ length s.bytes)
    × (length s.bytes ≤ max_sealed_snapshot_bytes)
    × (has_room s ≡ true)

abbrev pub AreOffers : Cache → Type 0
AreOffers [] = Unit
AreOffers ((hash, s) ∷ entries) = IsOffer s × AreOffers entries

retain-AreOffers :
    (p : Bytes → Snapshot → Bool) (entries : Cache)
    → AreOffers entries
    → AreOffers (retain p entries)
unfolding retain
retain-AreOffers p [] h = tt
retain-AreOffers p ((hash, s) ∷ entries) h = elim (Bool-cases (p hash s)) [
  | inl keep ↦ rw keep (h.0, retain-AreOffers p entries h.1)
  | inr drop_it ↦ rw drop_it (retain-AreOffers p entries h.1)
]

insert-AreOffers :
    (entries : Cache) (hash : Bytes) (s : Snapshot)
    → IsOffer s
    → AreOffers entries
    → AreOffers (insert entries hash s)
unfolding insert
insert-AreOffers [] hash s new h = (new, tt)
insert-AreOffers ((k, first) ∷ entries) hash s new h = elim (Bool-cases (k == hash)) [
  | inl here ↦ rw here (new, h.1)
  | inr there ↦ rw there (h.0, insert-AreOffers entries hash s new h.1)
]

get-AreOffers :
    (entries : Cache) (hash : Bytes) (s : Snapshot)
    → AreOffers entries
    → get entries hash ≡ some s
    → IsOffer s
unfolding get
get-AreOffers [] hash s h found = absurd (cc)
get-AreOffers ((k, first) ∷ entries) hash s h found = elim (Bool-cases (k == hash)) [
  | inl here ↦ let same : first ≡ s = cc (here, found) in rw (← same) h.0
  | inr there ↦ get-AreOffers entries hash s h.1 (cc (there, found))
]

update_at-AreOffers :
    (f : Snapshot → Snapshot) (entries : Cache) (hash : Bytes)
    → ((s : Snapshot) → IsOffer s → IsOffer (f s))
    → AreOffers entries
    → AreOffers (update_at f entries hash)
unfolding update_at
update_at-AreOffers f entries hash keeps h = elim (Option-cases (get entries hash)) [
  | inl absent ↦ rw (absent, update_at) h
  | inr (s, found) ↦
      rw (found, update_at)
        (insert-AreOffers entries hash (f s) (keeps s (get-AreOffers entries hash s h found)) h)
]

leave-AreOffers : (room : ℕ) (entries : Cache) → AreOffers entries → AreOffers (leave room entries)
unfolding leave without_room
leave-AreOffers room [] h = tt
leave-AreOffers room ((hash, s) ∷ entries) h = elim (Bool-cases (has_room (without_room room s))) [
  | inl asked ↦ rw asked ((h.0.0, h.0.1, asked), leave-AreOffers room entries h.1)
  | inr alone ↦ rw alone (leave-AreOffers room entries h.1)
]

length-leave : (room : ℕ) (entries : Cache) → length (leave room entries) ≤ length entries
unfolding leave
length-leave room [] = omega arith
length-leave room ((hash, s) ∷ entries) = ground (arith, length-leave room entries)

length-update_at :
    (f : Snapshot → Snapshot) (entries : Cache) (hash : Bytes)
    → length (update_at f entries hash) ≡ length entries
unfolding update_at
length-update_at f entries hash = elim (Option-cases (get entries hash)) [
  | inl absent ↦ rw (absent, update_at) refl
  | inr (s, found) ↦
      rw (found, update_at)
        (length-insert entries hash (f s)
          ∙ ap (λ b. if b then length entries else suc (length entries))
              (contains_key-get entries hash ∙ ap is_some found))
]

length-insert_ne :
    (rooms : HashMap ℕ (Unit {0})) (room : ℕ) → leb (length (insert rooms room tt)) 0 ≡ false
unfolding insert
length-insert_ne [] room = refl
length-insert_ne ((j, u) ∷ rooms) room = ground arith

note_room-IsOffer :
    (now room revision : ℕ) (s : Snapshot) → IsOffer s → IsOffer (note_room now room revision s)
unfolding note_room has_room
note_room-IsOffer now room revision s h = (h.0, h.1, ap not (length-insert_ne s.rooms room))

renew_lease-IsOffer : (now : ℕ) (s : Snapshot) → IsOffer s → IsOffer (renew_lease now s)
unfolding renew_lease has_room
renew_lease-IsOffer now s h = h

-- What every operation keeps.
abbrev pub IsBounded : Cache → Type 0
IsBounded entries = AreOffers entries × (length entries ≤ max_snapshots)

prune-IsBounded : (now : ℕ) (entries : Cache) → IsBounded entries → IsBounded (prune now entries)
unfolding prune
prune-IsBounded now entries (offers, few) = (
  retain-AreOffers _ entries offers,
  omega (arith, length-retain (λ hash s. is_leased now s) entries),
)

leave-IsBounded : (room : ℕ) (entries : Cache) → IsBounded entries → IsBounded (leave room entries)
leave-IsBounded room entries (offers, few) =
    (leave-AreOffers room entries offers, omega (arith, length-leave room entries))

renewed-IsBounded :
    (now : ℕ) (entries : Cache) (hash : Bytes)
    → IsBounded entries
    → IsBounded (update_at (renew_lease now) entries hash)
renewed-IsBounded now entries hash (offers, few) = (
  update_at-AreOffers (renew_lease now) entries hash (renew_lease-IsOffer now) offers,
  rw (length-update_at (renew_lease now) entries hash) few,
)

get_snapshot-IsBounded :
    (now room revision : ℕ) (entries : Cache)
    → IsBounded entries
    → IsBounded (get_snapshot now room revision entries).1
unfolding get_snapshot
get_snapshot-IsBounded now room revision entries h =
    let kept = prune-IsBounded now entries h in
    elim (Option-cases (find_fresh now room revision (prune now entries))) [
      | inl nothing ↦ rw (nothing, get_snapshot) kept
      | inr ((hash, size), found) ↦
          rw (found, get_snapshot) (renewed-IsBounded now (prune now entries) hash kept)
    ]

enter-IsBounded :
    (now room revision : ℕ) (hash bytes : Bytes) (entries : Cache)
    → snapshot_header ≤ length bytes
    → length bytes ≤ max_sealed_snapshot_bytes
    → (contains_key entries hash || ltb (length entries) max_snapshots) ≡ true
    → IsBounded entries
    → IsBounded (enter now room revision hash bytes entries)
unfolding enter
enter-IsBounded now room revision hash bytes entries long short fits (offers, few) =
    elim (Bool-cases (contains_key entries hash)) [
      | inl known ↦ rw known (
        update_at-AreOffers (note_room now room revision) entries hash
            (note_room-IsOffer now room revision) offers,
        rw (length-update_at (note_room now room revision) entries hash) few,
      )
      | inr new ↦ rw new (
        insert-AreOffers entries hash (new_snapshot now room revision bytes)
            (unfold new_snapshot has_room in (long, short, refl)) offers,
        ground (arith, length-insert entries hash (new_snapshot now room revision bytes)),
      )
    ]

put_bounded-IsBounded :
    (now room revision : ℕ) (hash bytes : Bytes) (maximum : ℕ) (entries : Cache)
    → maximum ≤ max_sealed_snapshot_bytes
    → IsBounded entries
    → IsBounded (put_bounded now room revision hash bytes maximum entries).1
unfolding put_bounded
put_bounded-IsBounded now room revision hash bytes maximum entries within h =
    let kept = prune now entries in
    elim (Bool-cases (ltb (length bytes) snapshot_header || ltb maximum (length bytes))) [
      | inl bad ↦ rw bad h
      | inr good ↦
          rw good
            (elim (Bool-cases (not (contains_key kept hash) && leb max_snapshots (length kept))) [
              | inl full ↦ rw full (prune-IsBounded now entries h)
              | inr room_left ↦ rw room_left (
                  enter-IsBounded now room revision hash bytes kept (ground arith) (ground arith)
                    (ground arith) (prune-IsBounded now entries h))
            ])
    ]

-- A call on the cache, with the time of it where the code asks for it.
pub data Call : Type 0 where
  prunes : ℕ → Call
  leaves : ℕ → Call
  asks : ℕ → ℕ → ℕ → Call
  puts : ℕ → ℕ → ℕ → Bytes → Bytes → Call
  puts_sealed : ℕ → ℕ → ℕ → Bytes → Bytes → Call

unfoldable pub apply_call : Cache → Call → Cache
apply_call entries (prunes now) = prune now entries
apply_call entries (leaves room) = leave room entries
apply_call entries (asks now room revision) = (get_snapshot now room revision entries).1
apply_call entries (puts now room revision hash bytes) =
    (put now room revision hash bytes entries).1
apply_call entries (puts_sealed now room revision hash bytes) =
    (put_sealed now room revision hash bytes entries).1

unfoldable pub apply_all : Cache → List Call → Cache
unfolding apply_call
apply_all entries [] = entries
apply_all entries (call ∷ calls) = apply_all (apply_call entries call) calls

apply_call-IsBounded :
    (entries : Cache) (call : Call) → IsBounded entries → IsBounded (apply_call entries call)
unfolding apply_call put put_sealed
apply_call-IsBounded entries (prunes now) h = prune-IsBounded now entries h
apply_call-IsBounded entries (leaves room) h = leave-IsBounded room entries h
apply_call-IsBounded entries (asks now room revision) h =
    get_snapshot-IsBounded now room revision entries h
apply_call-IsBounded entries (puts now room revision hash bytes) h =
    put_bounded-IsBounded now room revision hash bytes max_snapshot_bytes entries (omega arith) h
apply_call-IsBounded entries (puts_sealed now room revision hash bytes) h =
    put_bounded-IsBounded now room revision hash bytes max_sealed_snapshot_bytes entries
      (omega arith) h

-- Whatever calls come at whatever times, a cache that is within its bounds stays so: at most 32 snapshots, each
-- of at least 42 bytes and at most the size that a fetch of a sealed one accepts, and each offered by a room.
pub apply_all-IsBounded :
    (entries : Cache) (calls : List Call) → IsBounded entries → IsBounded (apply_all entries calls)
unfolding apply_all
apply_all-IsBounded entries [] h = h
apply_all-IsBounded entries (call ∷ calls) h =
    apply_all-IsBounded (apply_call entries call) calls (apply_call-IsBounded entries call h)
