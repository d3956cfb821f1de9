-- ===== src/Delivery/Latest.antt =====
-- Which records of a room node/history/delivery.rs keeps under pressure: the latest.
use xivlantern_dalamud.Prelude.{
  any-append, ℕ, zero, suc, ◌+◌, ◌-◌, ◌≤◌, ◌<◌, ◌≡◌, refl, ap, sym, ◌∙◌, true, false, List, [], ◌∷◌,
  ◌++◌, arith, length, drop, any, retain, count_if, All, nat_eq, bytes_eq, Bool-cases, inl, inr,
  append_assoc, append-nil, length-append, length-drop, retain-append,
}
use xivlantern_dalamud.Event.{Event, channel_record}
use xivlantern_dalamud.Delivery.{
  max_records, is_record, is_cleared, has_encoded, is_pending, is_full, remove_first_record,
  make_space, enqueue,
}
use xivlantern_dalamud.Delivery.Queue.{
  Distinct, is_pending-cons, is_pending-nil, Distinct-remove_first_record, count_of_is_full,
  count_of_not-is_full,
}

-- The last `n` elements.
abbrev pub last_n {ℓ} : {A : Type ℓ} → ℕ → List A → List A
last_n n xs = drop (length xs - n) xs

abbrev pub records : List Event → List Event
records queue = retain is_record queue

length-records : (queue : List Event) → length (records queue) ≡ count_if is_record queue
unfolding retain count_if
length-records [] = refl
length-records (x ∷ queue) = ground (arith, length-records queue)

module _ {ℓ} {A : Type ℓ} where
  drop_eq : (i j : ℕ) (xs : List A) → i ≡ j → drop i xs ≡ drop j xs
  drop_eq i j xs e = ap (λ k. drop k xs) e

  drop-drop-append :
      (i j : ℕ) (xs ys : List A)
      → i ≤ length xs
      → drop j (drop i xs ++ ys) ≡ drop (i + j) (xs ++ ys)
  drop-drop-append zero j xs ys h = drop_eq j (0 + j) (xs ++ ys) (omega arith)
  drop-drop-append (suc i) j [] ys h = absurd (omega arith)
  drop-drop-append (suc i) j (x ∷ xs) ys h =
      drop-drop-append i j xs ys (omega arith)
      ∙ drop_eq (suc (i + j)) (suc i + j) (x ∷ xs ++ ys) (omega arith)

  -- What is older than the last `n` plays no part in what follows.
  last_n-append : (n : ℕ) (xs ys : List A) → last_n n (last_n n xs ++ ys) ≡ last_n n (xs ++ ys)
  last_n-append n xs ys =
      let i = length xs - n in
      let j = length (last_n n xs ++ ys) - n in
      drop-drop-append i j xs ys (omega arith)
      ∙ drop_eq (i + j) (length (xs ++ ys) - n) (xs ++ ys)
          (omega (arith, length-append (last_n n xs) ys, length-append xs ys, length-drop i xs))

  last_n_short : (n : ℕ) (xs : List A) → length xs ≤ n → last_n n xs ≡ xs
  last_n_short n xs h = drop_eq (length xs - n) 0 xs (omega arith)

  last_n_one_over :
      (n : ℕ) (xs : List A) (y : A)
      → length xs ≡ suc n
      → last_n (suc n) (xs ++ y ∷ []) ≡ drop 1 xs ++ y ∷ []
  last_n_one_over n (x ∷ xs) y h =
      drop_eq (length (x ∷ xs ++ y ∷ []) - suc n) 1 (x ∷ xs ++ y ∷ [])
        (omega (arith, length-append xs (y ∷ [])))
  last_n_one_over n [] y h = absurd (omega arith)

records-remove_first_record :
    (queue : List Event) → records (remove_first_record queue) ≡ drop 1 (records queue)
unfolding retain remove_first_record
records-remove_first_record [] = refl
records-remove_first_record (x ∷ queue) = ground (arith, records-remove_first_record queue)

records_one : (event : Event) → is_record event ≡ true → records (event ∷ []) ≡ event ∷ []
unfolding retain
records_one event h = ground arith

records-make_space :
    (queue : List Event) (event : Event)
    → count_if is_record queue ≤ max_records
    → records (make_space queue) ++ event ∷ [] ≡ last_n max_records (records queue ++ event ∷ [])
unfolding make_space
records-make_space queue event h = elim (Bool-cases (is_full queue)) [
  | inl full ↦
      rw (full, records-remove_first_record)
        (sym (
          last_n_one_over 255 (records queue) event
            (omega (arith, length-records queue, count_of_is_full queue full))))
  | inr space ↦ rw space (
      sym (
        last_n_short max_records (records queue ++ event ∷ []) (
          omega (
            arith,
            length-append (records queue) (event ∷ []),
            length-records queue,
            count_of_not-is_full queue space,
          ))))
]

not_cleared : (event : Event) → is_record event ≡ true → is_cleared event ≡ false
unfolding is_record is_cleared
not_cleared event r = ground arith

-- One new record: the records that wait are the latest 256.
records-enqueue :
    (queue : List Event) (event : Event)
    → count_if is_record queue ≤ max_records
    → is_record event ≡ true
    → is_pending event queue ≡ false
    → records (enqueue queue event).0 ≡ last_n max_records (records queue ++ event ∷ [])
unfolding enqueue
records-enqueue queue event h r p = ground (
  arith,
  not_cleared event,
  retain-append is_record (make_space queue) (event ∷ []),
  records_one event r,
  records-make_space queue event h,
)

-- The pushes of `events` to one room, one after the other.
pub enqueue_all : List Event → List Event → List Event
enqueue_all queue [] = queue
enqueue_all queue (event ∷ events) = enqueue_all (enqueue queue event).0 events

pending_other : (event x : Event) → is_record x ≡ false → is_pending event (x ∷ []) ≡ false
unfolding is_pending has_encoded any is_record
pending_other (channel_record room peer encoded historical) x h = ground arith
pending_other _ x h = refl

pending_sym :
    (x event : Event) (queue events : List Event)
    → is_pending x (queue ++ event ∷ events) ≡ false
    → is_pending event (x ∷ []) ≡ false
unfolding is_pending has_encoded any is_record
pending_sym (channel_record room peer encoded historical) (channel_record r p e k) queue events h =
    ground (
      arith,
      any-append (has_encoded encoded) queue (channel_record r p e k ∷ events),
      bytes_eq.equals_iff encoded e,
      bytes_eq.equals_iff e encoded,
    )
pending_sym (channel_record room peer encoded historical) event queue events h = refl
pending_sym x event queue events h = pending_other event x refl

not_pending :
    (queue : List Event) (event : Event) (events : List Event)
    → Distinct (queue ++ event ∷ events)
    → is_pending event queue ≡ false
not_pending [] event events d = is_pending-nil event
not_pending (x ∷ queue) event events d = ground (
  arith,
  is_pending-cons event x queue,
  pending_sym x event queue events d.0,
  not_pending queue event events d.1,
)

remove_first_record-append :
    (xs ys : List Event)
    → 0 < count_if is_record xs
    → remove_first_record (xs ++ ys) ≡ remove_first_record xs ++ ys
unfolding remove_first_record count_if
remove_first_record-append [] ys h = absurd (omega arith)
remove_first_record-append (x ∷ xs) ys h = ground (arith, remove_first_record-append xs ys)

Distinct-make_space :
    (queue rest : List Event) → Distinct (queue ++ rest) → Distinct (make_space queue ++ rest)
unfolding make_space
Distinct-make_space queue rest d = elim (Bool-cases (is_full queue)) [
  | inl full ↦
      let many = count_of_is_full queue full in
      rw (full, ← remove_first_record-append queue rest (omega arith))
        (Distinct-remove_first_record (queue ++ rest) d)
  | inr space ↦ rw space d
]

Distinct-enqueue :
    (queue : List Event) (event : Event) (events : List Event)
    → is_record event ≡ true
    → Distinct (queue ++ event ∷ events)
    → Distinct ((enqueue queue event).0 ++ events)
unfolding enqueue
Distinct-enqueue queue event events r d =
    rw (not_cleared event r, not_pending queue event events d, append_assoc)
      (Distinct-make_space queue (event ∷ events) d)

count-enqueue :
    (queue : List Event) (event : Event)
    → records (enqueue queue event).0 ≡ last_n max_records (records queue ++ event ∷ [])
    → count_if is_record (enqueue queue event).0 ≤ max_records
count-enqueue queue event e =
    let grown = records queue ++ event ∷ [] in
    omega (
      arith,
      length-records (enqueue queue event).0,
      ap (λ xs. length xs) e,
      length-drop (length grown - max_records) grown,
    )

-- Under any pressure the records that wait for a room are the latest 256 of those that waited
-- before and those that came in, in order, as long as no two are the same bytes.
pub records-enqueue_all :
    (queue events : List Event)
    → count_if is_record queue ≤ max_records
    → All (λ event. is_record event ≡ true) events
    → Distinct (queue ++ events)
    → records (enqueue_all queue events) ≡ last_n max_records (records queue ++ events)
unfolding enqueue_all
records-enqueue_all queue [] h r d =
    rw append-nil
      (sym (last_n_short max_records (records queue) (omega (arith, length-records queue))))
records-enqueue_all queue (event ∷ events) h r d =
    let next = (enqueue queue event).0 in
    let step = records-enqueue queue event h r.0 (not_pending queue event events d) in
    records-enqueue_all next events (count-enqueue queue event step) r.1
      (Distinct-enqueue queue event events r.0 d)
    ∙ ap (λ xs. last_n max_records (xs ++ events)) step
    ∙ last_n-append max_records (records queue ++ event ∷ []) events
    ∙ ap (λ xs. last_n max_records xs) (append_assoc (records queue) (event ∷ []) events)
