-- ===== src/SealedRoom/Tests.antt =====
-- Runs of sealed_room.rs, and its theorems at concrete inputs.
use xivlantern_dalamud.Prelude.{
  ◌≤◌, ◌≡◌, refl, true, false, none, some, List, [], ◌∷◌, length, take, bytes_beq,
}
use xivlantern_dalamud.Bytes.{Bytes}
use xivlantern_dalamud.Error.{ok, err, state}
use xivlantern_dalamud.ChannelHistory.{codes}
use xivlantern_dalamud.Ticket.Sealed.{SealedRoomTicket}
use xivlantern_dalamud.Store.Settings.{profile_get}
use xivlantern_dalamud.SealedRoom.Register.{
  Markers, marker_name, expected_marker, save_marker, decide, read_and_decide, register,
}
use xivlantern_dalamud.SealedRoom.StaysSealed.{register_all, stays_sealed}
use xivlantern_dalamud.HashMap.{get, contains_key, insert}
use xivlantern_dalamud.SealedRoom.{window_len, empty, push_hash, admit}
use xivlantern_dalamud.SealedRoom.Window.{admit_all, note_all, admit_all_window}

-- A hash that looks at one byte.
abbrev first : Bytes → Bytes
first packet = take 1 packet

abbrev packets : List Bytes
packets = (1 ∷ 7 ∷ []) ∷ (2 ∷ []) ∷ (1 ∷ 9 ∷ []) ∷ []

lets_in_once : (admit_all first empty packets).0 ≡ true ∷ true ∷ false ∷ []
unfolding admit_all admit push_hash contains_key insert bytes_beq
lets_in_once = refl

admit_all_window_example :
    ((admit_all first empty packets).0 ≡ note_all first [] packets)
    × (length (admit_all first empty packets).1.queue ≤ window_len)
admit_all_window_example = admit_all_window first packets

abbrev markers : Markers
markers = record { hex = λ bytes. bytes; derive_key = λ k. take 8 k }

abbrev topic : Bytes
topic = 4 ∷ 4 ∷ []

abbrev sealed_with : Bytes → SealedRoomTicket Bytes
sealed_with key = record { version = 1; topic = topic; label = codes "Den"; peers = []; key = key }

registers : (register markers none [] topic (some (sealed_with (1 ∷ 2 ∷ [])))).1 ≡ ok tt
unfolding register read_and_decide save_marker decide marker_name expected_marker profile_get get
registers = refl

stays_sealed_example :
    let later =
      register_all markers {Addr = Bytes}
        (register markers none [] topic (some (sealed_with (1 ∷ 2 ∷ [])))).0
        ((none, (topic, none)) ∷ (some (1, "disk full"), ((5 ∷ []), none)) ∷ []) in
    ((register markers {Addr = Bytes} none later topic none).1
      ≡ err (state "channel is sealed; a matching sealed ticket is required"))
    × ((register markers none later topic (some (sealed_with (3 ∷ [])))).1
        ≡ err (state "channel is sealed; a matching sealed ticket is required"))
stays_sealed_example =
    stays_sealed markers none [] topic (sealed_with (1 ∷ 2 ∷ [])) (sealed_with (3 ∷ []))
      ((none, (topic, none)) ∷ (some (1, "disk full"), ((5 ∷ []), none)) ∷ []) registers
      (λ e. absurd (cc))
