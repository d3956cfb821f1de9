-- ===== src/SealedRoom/Window.antt =====
-- The replay window of sealed_room.rs is the last 2048 packets that were let in.
use xivlantern_dalamud.Prelude.{
  ℕ, zero, suc, ◌+◌, ◌-◌, ◌≤◌, ◌≡◌, refl, sym, ap, ◌∙◌, Bool, true, false, ◌||◌, Bool-cases, inl,
  inr, List, [], ◌∷◌, ◌++◌, ◌==◌, bytes_eq, ltb, length, length-append, length-drop, drop, any,
  arith, if◌then◌else◌,
}
use xivlantern_dalamud.Bytes.{Bytes}
use xivlantern_dalamud.Bytes.Slices.{drop-drop}
use xivlantern_dalamud.HashMap.{HashMap, contains_key, insert, remove}
use xivlantern_dalamud.HashMap.Laws.{contains_key-get, get-insert, get-remove}
use xivlantern_dalamud.SealedRoom.{window_len, Replay, empty, forget_front, push_hash, admit}

-- The last hashes of a list of the hashes let in, oldest first.
unfoldable pub last_hashes : List Bytes → List Bytes
last_hashes log = drop (length log - window_len) log

unfoldable pub stands_in : Bytes → List Bytes → Bool
unfolding any
stands_in hash hashes = any (λ h. h == hash) hashes

-- What the window promises: a packet is let in unless its hash is one of the last ones let in.
unfoldable pub note : List Bytes → Bytes → Bool × List Bytes
note log hash = if stands_in hash (last_hashes log) then (false, log) else (true, log ++ hash ∷ [])

module _ (blake3 : Bytes → Bytes) where
  -- What each packet gets, and the window after them.
  unfoldable pub admit_all : Replay → List Bytes → List Bool × Replay
  admit_all r [] = ([], r)
  admit_all r (packet ∷ packets) =
      let (new, r') = admit blake3 r packet in
      let (more, last) = admit_all r' packets in (new ∷ more, last)

  unfoldable pub note_all : List Bytes → List Bytes → List Bool
  note_all log [] = []
  note_all log (packet ∷ packets) =
      let (new, log') = note log (blake3 packet) in new ∷ note_all log' packets

-- No hash twice.
abbrev AreDistinct : List Bytes → Type 0
AreDistinct [] = Unit
AreDistinct (h ∷ hashes) = (stands_in h hashes ≡ false) × AreDistinct hashes

contains_key-insert :
    (m : HashMap Bytes (Unit {0})) (k j : Bytes)
    → contains_key (insert m k tt) j ≡ (if k == j then true else contains_key m j)
contains_key-insert m k j =
    ground (arith, contains_key-get (insert m k tt) j, contains_key-get m j, get-insert m k j tt)

contains_key-remove :
    (m : HashMap Bytes (Unit {0})) (k j : Bytes)
    → contains_key (remove m k) j ≡ (if k == j then false else contains_key m j)
contains_key-remove m k j =
    ground (arith, contains_key-get (remove m k) j, contains_key-get m j, get-remove m k j)

stands_in-append :
    (hash : Bytes) (hashes : List Bytes) (last : Bytes)
    → stands_in hash (hashes ++ last ∷ []) ≡ (stands_in hash hashes || last == hash)
unfolding stands_in any
stands_in-append hash [] last = ground arith
stands_in-append hash (h ∷ hashes) last = ground (arith, stands_in-append hash hashes last)

append-AreDistinct :
    (hashes : List Bytes) (last : Bytes)
    → AreDistinct hashes
    → stands_in last hashes ≡ false
    → AreDistinct (hashes ++ last ∷ [])
unfolding stands_in any
append-AreDistinct [] last h new = (refl, tt)
append-AreDistinct (x ∷ hashes) last h new = ground (
  arith,
  bytes_eq.equals_iff x last,
  bytes_eq.equals_iff last x,
  stands_in-append x hashes last,
  append-AreDistinct hashes last h.1,
)

drop-append_short :
    (n : ℕ) (xs ys : List Bytes) → n ≤ length xs → drop n (xs ++ ys) ≡ drop n xs ++ ys
drop-append_short zero xs ys h = refl
drop-append_short (suc n) [] ys h = absurd (omega arith)
drop-append_short (suc n) (x ∷ xs) ys h = drop-append_short n xs ys (omega arith)

length-last_hashes : (log : List Bytes) → length (last_hashes log) ≤ window_len
unfolding last_hashes
length-last_hashes log = omega (arith, length-drop (length log - window_len) log)

last_hashes-append_room :
    (log : List Bytes) (hash : Bytes)
    → length (last_hashes log ++ hash ∷ []) ≤ window_len
    → last_hashes (log ++ hash ∷ []) ≡ last_hashes log ++ hash ∷ []
unfolding last_hashes
last_hashes-append_room log hash h =
    let short : length log ≤ 2047 = omega (
      arith,
      h,
      length-append (last_hashes log) (hash ∷ []),
      length-drop (length log - window_len) log,
    ) in
    let none_yet : length log - window_len ≡ 0 = omega arith in
    let none_then : length (log ++ hash ∷ []) - window_len ≡ 0 =
      omega (arith, length-append log (hash ∷ [])) in
    rw (none_yet, none_then) refl

last_hashes-append_full :
    (log : List Bytes) (hash : Bytes)
    → window_len + 1 ≤ length (last_hashes log ++ hash ∷ [])
    → last_hashes (log ++ hash ∷ []) ≡ drop 1 (last_hashes log ++ hash ∷ [])
unfolding last_hashes
last_hashes-append_full log hash h =
    let long : window_len ≤ length log = omega (
      arith,
      h,
      length-append (last_hashes log) (hash ∷ []),
      length-drop (length log - window_len) log,
    ) in
    let one_more : length (log ++ hash ∷ []) - window_len ≡ (length log - window_len) + 1 =
      omega (arith, length-append log (hash ∷ [])) in
    ap (λ n. drop n (log ++ hash ∷ [])) one_more
    ∙ drop-drop (length log - window_len) 1 (log ++ hash ∷ [])
    ∙ ap (drop 1) (drop-append_short (length log - window_len) log (hash ∷ []) (omega arith))

-- A queue and the set of its hashes.
record IsMatched (queue : List Bytes) (seen : HashMap Bytes (Unit {0})) : Type 0 where
  apart : AreDistinct queue
  same : (hash : Bytes) → contains_key seen hash ≡ stands_in hash queue

push-IsMatched :
    (queue : List Bytes) (seen : HashMap Bytes (Unit {0})) (hash : Bytes)
    → IsMatched queue seen
    → stands_in hash queue ≡ false
    → IsMatched (queue ++ hash ∷ []) (insert seen hash tt)
push-IsMatched queue seen hash m new = record {
  apart = append-AreDistinct queue hash m.apart new;
  same =
      λ j. ground (arith, contains_key-insert seen hash j, stands_in-append j queue hash, m.same j);
}

forget_front-IsMatched :
    (queue : List Bytes) (seen : HashMap Bytes (Unit {0}))
    → IsMatched queue seen
    → IsMatched (forget_front queue seen).queue (forget_front queue seen).seen
unfolding forget_front
forget_front-IsMatched [] seen m = m
forget_front-IsMatched (old ∷ queue) seen m = record {
  apart = m.apart.1;
  same = λ j. without_front j;
}
  where
    without_front : (j : Bytes) → contains_key (remove seen old) j ≡ stands_in j queue
    without_front j =
        unfold stands_in any in
        ground
          (arith, contains_key-remove seen old j, m.same j, m.apart.0, bytes_eq.equals_iff old j)

forget_front-queue :
    (queue : List Bytes) (seen : HashMap Bytes (Unit {0}))
    → (forget_front queue seen).queue ≡ drop 1 queue
unfolding forget_front
forget_front-queue [] seen = refl
forget_front-queue (old ∷ queue) seen = refl

record IsWindow (r : Replay) (log : List Bytes) : Type 0 where
  queue : r.queue ≡ last_hashes log
  matched : IsMatched r.queue r.seen

push_hash-IsWindow :
    (r : Replay) (log : List Bytes) (hash : Bytes)
    → IsWindow r log
    → stands_in hash r.queue ≡ false
    → IsWindow (push_hash r hash) (log ++ hash ∷ [])
unfolding push_hash
push_hash-IsWindow r log hash w new =
    let queue = r.queue ++ hash ∷ [] in
    let seen = insert r.seen hash tt in
    let pushed = push-IsMatched r.queue r.seen hash w.matched new in
    let longer : queue ≡ last_hashes log ++ hash ∷ [] = ap (λ q. q ++ hash ∷ []) w.queue in
    elim (Bool-cases (ltb window_len (length queue))) [
      | inl over ↦ rw over (record {
        queue =
            forget_front-queue queue seen
            ∙ ap (drop 1) longer
            ∙ sym (last_hashes-append_full log hash (rw (← longer) (ground arith)));
        matched = forget_front-IsMatched queue seen pushed;
      })
      | inr fits ↦ rw fits (record {
        queue = longer ∙ sym (last_hashes-append_room log hash (rw (← longer) (ground arith)));
        matched = pushed;
      })
    ]

module _ (blake3 : Bytes → Bytes) where
  admit_lem :
      (r : Replay) (log : List Bytes) (packet : Bytes)
      → IsWindow r log
      → ((admit blake3 r packet).0 ≡ (note log (blake3 packet)).0)
        × IsWindow (admit blake3 r packet).1 (note log (blake3 packet)).1
  unfolding admit note
  admit_lem r log packet w =
      let hash = blake3 packet in
      let asked : contains_key r.seen hash ≡ stands_in hash (last_hashes log) =
        w.matched.same hash ∙ ap (stands_in hash) w.queue in
      elim (Bool-cases (stands_in hash (last_hashes log))) [
        | inl again ↦ rw (asked, again) (refl, w)
        | inr new ↦
            rw (asked, new)
              (refl, push_hash-IsWindow r log hash w (ap (stands_in hash) w.queue ∙ new))
      ]

  admit_all_lem :
      (r : Replay) (log : List Bytes) (packets : List Bytes)
      → IsWindow r log
      → ((admit_all blake3 r packets).0 ≡ note_all blake3 log packets)
        × (length (admit_all blake3 r packets).1.queue ≤ window_len)
  unfolding admit_all note_all
  admit_all_lem r log [] w = (refl, rw w.queue (length-last_hashes log))
  admit_all_lem r log (packet ∷ packets) w =
      let (same, next) = admit_lem r log packet w in
      let (more, short) = admit_all_lem (admit blake3 r packet).1 _ packets next in
      (cc (same, more), short)

  -- From the empty window on, for every sequence of packets, a packet is let in exactly when its hash is not
  -- among the last 2048 hashes let in, however many came between, and the queue never keeps more than 2048.
  pub admit_all_window :
      (packets : List Bytes)
      → ((admit_all blake3 empty packets).0 ≡ note_all blake3 [] packets)
        × (length (admit_all blake3 empty packets).1.queue ≤ window_len)
  unfolding last_hashes stands_in any contains_key
  admit_all_window packets =
      admit_all_lem empty [] packets
        (record { queue = refl; matched = record { apart = tt; same = λ hash. refl } })
