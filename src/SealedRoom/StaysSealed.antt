-- ===== src/SealedRoom/StaysSealed.antt =====
-- A channel that was registered as sealed stays sealed, under the same key.
use xivlantern_dalamud.Prelude.{
  ◌≡◌, ◌≢◌, refl, ap, ◌∙◌, Bool-cases, Option, none, some, inl, inr, List, [], ◌∷◌, ◌==◌, bytes_eq,
  bytes_beq_iff, arith, zero, suc,
}
use xivlantern_dalamud.Bytes.{Bytes}
use xivlantern_dalamud.Error.{ok, err, state}
use xivlantern_dalamud.HashMap.{get}
use xivlantern_dalamud.HashMap.Laws.{get-insert, insert_new}
use xivlantern_dalamud.Store.Settings.{Profile, profile_get, profile_set}
use xivlantern_dalamud.Store.Transaction.{Failure}
use xivlantern_dalamud.Ticket.Sealed.{SealedRoomTicket}
use xivlantern_dalamud.SealedRoom.Register.{
  Markers, marker_name, expected_marker, save_marker, decide, read_and_decide, register,
}

save_marker_keeps :
    (m : Markers) (failure : Failure) (profile : Profile) (name other saved expected : Bytes)
    → get profile other ≡ none
    → get profile name ≡ some saved
    → get (save_marker m failure profile other expected).0 name ≡ some saved
unfolding save_marker profile_set
save_marker_keeps m (some (zero, text)) profile name other saved expected new h = h
save_marker_keeps m none profile name other saved expected new h =
    insert_new profile other name expected saved new h
save_marker_keeps m (some (suc k, text)) profile name other saved expected new h =
    insert_new profile other name expected saved new h

decide_keeps :
    (m : Markers) (failure : Failure) (profile : Profile) (name other saved : Bytes)
    (o expected : Option Bytes)
    → get profile other ≡ o
    → get profile name ≡ some saved
    → get (decide m failure profile other o expected).0 name ≡ some saved
unfolding decide
decide_keeps m failure profile name other saved none none found h = h
decide_keeps m failure profile name other saved none (some expected) found h =
    save_marker_keeps m failure profile name other saved expected found h
decide_keeps m failure profile name other saved (some old) none found h = h
decide_keeps m failure profile name other saved (some old) (some marker) found h =
    elim (Bool-cases (old == marker)) [ inl same ↦ rw same h | inr differs ↦ rw differs h ]

read_and_decide_keeps :
    (m : Markers) (failure : Failure) (profile : Profile) (name other saved : Bytes)
    (expected : Option Bytes)
    → get profile name ≡ some saved
    → get (read_and_decide m failure profile other expected).0 name ≡ some saved
unfolding read_and_decide profile_get
read_and_decide_keeps m (some (zero, text)) profile name other saved expected h = h
read_and_decide_keeps m none profile name other saved expected h =
    decide_keeps m none profile name other saved (get profile other) expected refl h
read_and_decide_keeps m (some (suc k, text)) profile name other saved expected h =
    decide_keeps m (some (k, text)) profile name other saved (get profile other) expected refl h

register_keeps :
    (m : Markers) {Addr : Type 0} (failure : Failure) (profile : Profile) (name topic saved : Bytes)
    (sealed : Option (SealedRoomTicket Addr))
    → get profile name ≡ some saved
    → get (register m failure profile topic sealed).0 name ≡ some saved
unfolding register
register_keeps m failure profile name topic saved sealed h =
    read_and_decide_keeps m failure profile name (marker_name m topic) saved
      (expected_marker m sealed) h

save_marker_granted :
    (m : Markers) (failure : Failure) (profile : Profile) (name expected : Bytes)
    → (save_marker m failure profile name expected).1 ≡ ok tt
    → get (save_marker m failure profile name expected).0 name ≡ some expected
unfolding save_marker profile_set
save_marker_granted m (some (zero, text)) profile name expected h = absurd (cc)
save_marker_granted m none profile name expected h =
    ground (arith, get-insert profile name name expected, bytes_beq_iff name name)
save_marker_granted m (some (suc k, text)) profile name expected h =
    ground (arith, get-insert profile name name expected, bytes_beq_iff name name)

decide_granted :
    (m : Markers) (failure : Failure) (profile : Profile) (name expected : Bytes) (o : Option Bytes)
    → get profile name ≡ o
    → (decide m failure profile name o (some expected)).1 ≡ ok tt
    → get (decide m failure profile name o (some expected)).0 name ≡ some expected
unfolding decide
decide_granted m failure profile name expected none found h =
    save_marker_granted m failure profile name expected h
decide_granted m failure profile name expected (some saved) found h =
    elim (Bool-cases (saved == expected)) [
      | inl same ↦ rw same (found ∙ ap some ((bytes_beq_iff saved expected).0 same))
      | inr differs ↦ absurd (ground (arith))
    ]

-- What a granted registration of a sealed channel leaves in the table.
read_and_decide_granted :
    (m : Markers) (failure : Failure) (profile : Profile) (name expected : Bytes)
    → (read_and_decide m failure profile name (some expected)).1 ≡ ok tt
    → get (read_and_decide m failure profile name (some expected)).0 name ≡ some expected
unfolding read_and_decide profile_get
read_and_decide_granted m (some (zero, text)) profile name expected h = absurd (cc)
read_and_decide_granted m none profile name expected h =
    decide_granted m none profile name expected (get profile name) refl h
read_and_decide_granted m (some (suc k, text)) profile name expected h =
    decide_granted m (some (k, text)) profile name expected (get profile name) refl h

granted :
    (m : Markers) {Addr : Type 0} (failure : Failure) (profile : Profile) (topic : Bytes)
    (ticket : SealedRoomTicket Addr)
    → (register m failure profile topic (some ticket)).1 ≡ ok tt
    → get (register m failure profile topic (some ticket)).0 (marker_name m topic)
      ≡ some (m.hex (m.derive_key ticket.key))
unfolding register expected_marker
granted m failure profile topic ticket h =
    read_and_decide_granted m failure profile (marker_name m topic)
      (m.hex (m.derive_key ticket.key)) h

refused_plain :
    (m : Markers) (Addr : Type 0) (profile : Profile) (topic saved : Bytes)
    → get profile (marker_name m topic) ≡ some saved
    → (register m {Addr = Addr} none profile topic none).1
      ≡ err (state "channel is sealed; a matching sealed ticket is required")
unfolding register expected_marker read_and_decide profile_get
refused_plain m Addr profile topic saved h = rw (h, decide) refl

decide_other :
    (m : Markers) (profile : Profile) (name saved expected : Bytes)
    → saved ≢ expected
    → (decide m none profile name (some saved) (some expected)).1
      ≡ err (state "channel is sealed; a matching sealed ticket is required")
unfolding decide
decide_other m profile name saved expected differs = ground (arith, bytes_beq_iff saved expected)

refused_other :
    (m : Markers) {Addr : Type 0} (profile : Profile) (topic saved : Bytes)
    (other : SealedRoomTicket Addr)
    → get profile (marker_name m topic) ≡ some saved
    → saved ≢ m.hex (m.derive_key other.key)
    → (register m none profile topic (some other)).1
      ≡ err (state "channel is sealed; a matching sealed ticket is required")
unfolding register expected_marker read_and_decide profile_get
refused_other m profile topic saved other h differs =
    let name = marker_name m topic in
    let expected = m.hex (m.derive_key other.key) in
    ap (λ o. (decide m none profile name o (some expected)).1) h
    ∙ decide_other m profile name saved expected differs

module _ (m : Markers) {Addr : Type 0} where
  -- One registration after the other, of any topics, whether they are granted or not and SQLite fails or not.
  unfoldable pub register_all :
      Profile → List (Failure × (Bytes × Option (SealedRoomTicket Addr))) → Profile
  register_all profile [] = profile
  register_all profile ((failure, (topic, sealed)) ∷ calls) =
      register_all (register m failure profile topic sealed).0 calls

  register_all_keeps :
      (profile : Profile) (name saved : Bytes)
      (calls : List (Failure × (Bytes × Option (SealedRoomTicket Addr))))
      → get profile name ≡ some saved
      → get (register_all profile calls) name ≡ some saved
  unfolding register_all
  register_all_keeps profile name saved [] h = h
  register_all_keeps profile name saved ((failure, (topic, sealed)) ∷ calls) h =
      register_all_keeps (register m failure profile topic sealed).0 name saved calls
        (register_keeps m failure profile name topic saved sealed h)

  -- After a registration of a topic with a sealed ticket that is granted, and whatever registrations of any
  -- topics follow, whether SQLite fails in them or not, one of that topic without a ticket in which SQLite does
  -- not fail is refused, and so is one with a ticket whose key has another marker.
  pub stays_sealed :
      (failure : Failure) (profile : Profile) (topic : Bytes) (ticket other : SealedRoomTicket Addr)
      (calls : List (Failure × (Bytes × Option (SealedRoomTicket Addr))))
      → (register m failure profile topic (some ticket)).1 ≡ ok tt
      → m.hex (m.derive_key ticket.key) ≢ m.hex (m.derive_key other.key)
      → let later = register_all (register m failure profile topic (some ticket)).0 calls in
        ((register m {Addr = Addr} none later topic none).1
          ≡ err (state "channel is sealed; a matching sealed ticket is required"))
        × ((register m none later topic (some other)).1
            ≡ err (state "channel is sealed; a matching sealed ticket is required"))
  stays_sealed failure profile topic ticket other calls h differs =
      let later = register_all (register m failure profile topic (some ticket)).0 calls in
      let kept =
        register_all_keeps (register m failure profile topic (some ticket)).0 (marker_name m topic)
          (m.hex (m.derive_key ticket.key)) calls (granted m failure profile topic ticket h) in
      (
        refused_plain m Addr later topic (m.hex (m.derive_key ticket.key)) kept,
        refused_other m later topic (m.hex (m.derive_key ticket.key)) other kept differs,
      )
