-- ===== src/HistoryExchange/Offer/Served.antt =====
-- What a member offers is what it then serves.
use mathlib.Core.Option
use xivlantern_dalamud.Prelude.{
  ℕ, ◌≡◌, ◌≢◌, refl, sym, ap, ◌∙◌, ◌⊎◌, inl, inr, true, Bool-cases, Option, none, some,
  Option-cases, [], ◌∷◌, ◌==◌, nat_eq, bytes_eq, bytes_beq_iff, nat_beq_iff, length, arith,
}
use xivlantern_dalamud.Bytes.{Bytes}
use xivlantern_dalamud.HashMap.{HashMap, IsMap, get, contains_key, insert, update_at}
use xivlantern_dalamud.HashMap.Laws.{
  contains_key-get, is_some, get-insert, get-retain, retain-IsMap, insert-IsMap, update_at-IsMap,
  get-update_at, insert_cases,
}
use xivlantern_dalamud.HistoryExchange.{
  Snapshot, Cache, is_leased, prune, is_fresh, find_fresh, renew_lease, get_snapshot, note_room,
  new_snapshot, enter,
}

mapped :
    (f : Snapshot → Snapshot) (o : Option Snapshot) (w : Snapshot)
    → Option.map f o ≡ some w
    → (v : Snapshot) × (o ≡ some v) × (w ≡ f v)
mapped f none w h = absurd (cc)
mapped f (some v) w h = (v, refl, cc)

fresh_room :
    (now room revision : ℕ) (sn : Snapshot)
    → is_fresh now room revision sn ≡ true
    → contains_key sn.rooms room ≡ true
unfolding is_fresh
fresh_room now room revision sn h = ground arith

module _ (blake3 : Bytes → Bytes) where
  -- Every snapshot stands at its hash.
  pub record IsHashed (cache : Cache) : Type 0 where
    pub once : IsMap cache
    pub at_hash : (hash : Bytes) (sn : Snapshot) → get cache hash ≡ some sn → blake3 sn.bytes ≡ hash

  pub prune-IsHashed : (now : ℕ) (cache : Cache) → IsHashed cache → IsHashed (prune now cache)
  unfolding prune
  prune-IsHashed now cache h = record {
    once = retain-IsMap (λ hash sn. is_leased now sn) cache h.once;
    at_hash = λ hash sn found.
        h.at_hash hash sn
          (ground (arith, get-retain (λ k v. is_leased now v) cache hash h.once, found));
  }

  update_at-IsHashed :
      (f : Snapshot → Snapshot) (cache : Cache) (hash : Bytes)
      → ((sn : Snapshot) → (f sn).bytes ≡ sn.bytes)
      → IsHashed cache
      → IsHashed (update_at f cache hash)
  update_at-IsHashed f cache hash keeps h = record {
    once = update_at-IsMap f cache hash h.once;
    at_hash = λ k sn found.
        let looked = sym (get-update_at f cache hash k) ∙ found in
        elim (Bool-cases (hash == k)) [
          | inr there ↦ h.at_hash k sn (rw there at looked)
          | inl here ↦
              let (old, was, same) = mapped f (get cache k) sn (rw here at looked) in
              ap blake3 (ap (λ (x : Snapshot). x.bytes) same ∙ keeps old) ∙ h.at_hash k old was
        ];
  }

  insert-IsHashed :
      (cache : Cache) (hash : Bytes) (new : Snapshot)
      → blake3 new.bytes ≡ hash
      → IsHashed cache
      → IsHashed (insert cache hash new)
  insert-IsHashed cache hash new right h = record {
    once = insert-IsMap cache hash new h.once;
    at_hash = λ k sn found. elim (insert_cases cache hash k new sn found) [
      | inl (here, same) ↦ ap (λ (x : Snapshot). blake3 x.bytes) (sym same) ∙ right ∙ here
      | inr there ↦ h.at_hash k sn there
    ];
  }

  abbrev pub Collides : Type 0
  Collides = (a : Bytes) × ((b : Bytes) × (a ≢ b) × (blake3 a ≡ blake3 b))

  -- A snapshot stands at the hash, for the room, with the size, unless two byte strings have one hash.
  pub record IsServed (cache : Cache) (room : ℕ) (hash : Bytes) (size : ℕ) : Type 0 where
    pub held : Snapshot
    pub found : get cache hash ≡ some held
    pub right : blake3 held.bytes ≡ hash
    pub for_room : contains_key held.rooms room ≡ true
    pub of_size : (length held.bytes ≡ size) ⊎ Collides

  find_fresh_lem :
      (now room revision : ℕ) (cache : Cache) (hash : Bytes) (size : ℕ)
      → IsMap cache
      → find_fresh now room revision cache ≡ some (hash, size)
      → (sn : Snapshot) × (get cache hash ≡ some sn)
        × (length sn.bytes ≡ size)
        × (contains_key sn.rooms room ≡ true)
  unfolding find_fresh get
  find_fresh_lem now room revision [] hash size distinct h = absurd (cc)
  find_fresh_lem now room revision ((k, sn) ∷ cache) hash size distinct h =
      elim (Bool-cases (is_fresh now room revision sn)) [
        | inl fresh ↦
            let same : ◌≡◌ {A = Option (Bytes × ℕ)} (some (k, length sn.bytes))
                (some (hash, size)) =
              rw fresh at h in
            let here : k ≡ hash = cc in
            let sized : length sn.bytes ≡ size = cc in
            (
              sn,
              rw ((bytes_beq_iff k hash).1 here) refl,
              sized,
              fresh_room now room revision sn fresh,
            )
        | inr stale ↦
            let (later, found, sized, for_room) =
              find_fresh_lem now room revision cache hash size distinct.1 (rw stale at h) in
            (
              later,
              elim (Bool-cases (k == hash)) [
                | inr other ↦ rw other found
                | inl same ↦
                    let e = (bytes_beq_iff k hash).0 same in absurd (cc (distinct.0, e, found))
              ],
              sized,
              for_room,
            )
      ]

  of_length :
      (size : ℕ) (a b : Bytes)
      → length b ≡ size
      → blake3 a ≡ blake3 b
      → (length a ≡ size) ⊎ Collides
  of_length size a b sized same = elim (Bool-cases (length a == size)) [
    | inl equal ↦ inl ((nat_beq_iff (length a) size).0 equal)
    | inr differ ↦
        inr (a, (b, λ e. cc ((nat_beq_iff (length a) size).1 (ap length e ∙ sized), differ), same))
  ]

  -- An offer from the cache.
  renewed-IsServed :
      (now room revision : ℕ) (cache : Cache) (hash : Bytes) (size : ℕ)
      → IsHashed cache
      → find_fresh now room revision cache ≡ some (hash, size)
      → IsServed (update_at (renew_lease now) cache hash) room hash size
  unfolding renew_lease
  renewed-IsServed now room revision cache hash size h fresh =
      let (sn, found, sized, for_room) =
        find_fresh_lem now room revision cache hash size h.once fresh in
      record {
        held = renew_lease now sn;
        found =
            get-update_at (renew_lease now) cache hash hash
            ∙ rw ((bytes_beq_iff hash hash).1 refl) (ap (Option.map (renew_lease now)) found);
        right = h.at_hash hash sn found;
        for_room = for_room;
        of_size = inl sized;
      }

  contains_key-insert_self :
      (rooms : HashMap ℕ (Unit {0})) (room : ℕ) → contains_key (insert rooms room tt) room ≡ true
  unfolding contains_key insert
  contains_key-insert_self [] room = ground arith
  contains_key-insert_self ((j, u) ∷ rooms) room =
      ground (arith, contains_key-insert_self rooms room)

  noted-IsServed :
      (now room revision : ℕ) (bytes : Bytes) (cache : Cache) (old : Snapshot)
      → IsHashed cache
      → get cache (blake3 bytes) ≡ some old
      → IsServed
          (update_at (note_room now room revision) cache (blake3 bytes))
          room
          (blake3 bytes)
          (length bytes)
  unfolding note_room
  noted-IsServed now room revision bytes cache old h was = record {
    held = note_room now room revision old;
    found =
        get-update_at (note_room now room revision) cache (blake3 bytes) (blake3 bytes)
        ∙ rw ((bytes_beq_iff (blake3 bytes) (blake3 bytes)).1 refl)
            (ap (Option.map (note_room now room revision)) was);
    right = h.at_hash (blake3 bytes) old was;
    for_room = contains_key-insert_self old.rooms room;
    of_size = of_length (length bytes) old.bytes bytes refl (h.at_hash (blake3 bytes) old was);
  }

  new-IsServed :
      (now room revision : ℕ) (bytes : Bytes) (cache : Cache)
      → IsServed
          (insert cache (blake3 bytes) (new_snapshot now room revision bytes))
          room
          (blake3 bytes)
          (length bytes)
  unfolding new_snapshot contains_key
  new-IsServed now room revision bytes cache = record {
    held = new_snapshot now room revision bytes;
    found =
        get-insert cache (blake3 bytes) (blake3 bytes) (new_snapshot now room revision bytes)
        ∙ rw ((bytes_beq_iff (blake3 bytes) (blake3 bytes)).1 refl) refl;
    right = refl;
    for_room = rw ((nat_beq_iff room room).1 refl) refl;
    of_size = inl refl;
  }

  -- What a search of the cache, or an insertion into it, is to leave.
  abbrev pub IsOffered : ℕ → Option (Bytes × ℕ) × Cache → Type 0
  IsOffered room (none, cache) = IsHashed cache
  IsOffered room (some (hash, size), cache) = IsHashed cache × IsServed cache room hash size

  pub get_snapshot-IsOffered :
      (now room revision : ℕ) (cache : Cache)
      → IsHashed cache
      → IsOffered room (get_snapshot now room revision cache)
  unfolding get_snapshot renew_lease
  get_snapshot-IsOffered now room revision cache h =
      let kept = prune-IsHashed now cache h in
      elim (Option-cases (find_fresh now room revision (prune now cache))) [
        | inl nothing ↦ rw (nothing, get_snapshot) kept
        | inr ((hash, size), fresh) ↦
            rw (fresh, get_snapshot)
              (
                update_at-IsHashed (renew_lease now) (prune now cache) hash (λ sn. refl) kept,
                renewed-IsServed now room revision (prune now cache) hash size kept fresh,
              )
      ]

  pub enter-IsOffered :
      (now room revision : ℕ) (bytes : Bytes) (cache : Cache)
      → IsHashed cache
      → IsOffered room
          (some (blake3 bytes, length bytes), enter now room revision (blake3 bytes) bytes cache)
  unfolding enter note_room new_snapshot
  enter-IsOffered now room revision bytes cache h = elim (Option-cases (get cache (blake3 bytes))) [
    | inl absent ↦ rw (contains_key-get cache (blake3 bytes) ∙ ap is_some absent) (
      insert-IsHashed cache (blake3 bytes) (new_snapshot now room revision bytes) refl h,
      new-IsServed now room revision bytes cache,
    )
    | inr (old, was) ↦ rw (contains_key-get cache (blake3 bytes) ∙ ap is_some was) (
      update_at-IsHashed (note_room now room revision) cache (blake3 bytes) (λ sn. refl) h,
      noted-IsServed now room revision bytes cache old h was,
    )
  ]
