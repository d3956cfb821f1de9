-- ===== src/SealedRoom/Register.antt =====
-- `register` of sealed_room.rs: the marker that a channel is sealed, in the table `profile`. What it uses of
-- hexadecimal and of blake3 is a library's.
use xivlantern_dalamud.Prelude.{zero, suc, Option, none, some, ◌++◌, ◌==◌, bytes_eq, if◌then◌else◌}
use xivlantern_dalamud.Bytes.{Bytes}
use xivlantern_dalamud.Error.{Result, ok, err, state, store}
use xivlantern_dalamud.ChannelHistory.{codes}
use xivlantern_dalamud.Store.Settings.{Profile, profile_get, profile_set}
use xivlantern_dalamud.Store.Transaction.{Failure}
use xivlantern_dalamud.Ticket.Sealed.{SealedRoomTicket}

-- `HEXLOWER.encode`, and `derive_key` with its context
pub record Markers : Type 0 where
  pub hex : Bytes → Bytes
  pub derive_key : Bytes → Bytes

module _ (m : Markers) where
  unfoldable pub marker_name : Bytes → Bytes
  marker_name topic = codes "sealed-room:" ++ m.hex topic

  -- A marker, not the key.
  unfoldable pub expected_marker : {Addr : Type 0} → Option (SealedRoomTicket Addr) → Option Bytes
  expected_marker none = none
  expected_marker (some ticket) = some (m.hex (m.derive_key ticket.key))

  -- `profile_set`, whose call of SQLite may fail
  unfoldable pub save_marker : Failure → Profile → Bytes → Bytes → Profile × Result (Unit {0})
  save_marker (some (zero, text)) profile name expected = (profile, err (store text))
  save_marker none profile name expected = (profile_set profile name expected, ok tt)
  save_marker (some (suc k, text)) profile name expected =
      (profile_set profile name expected, ok tt)

  -- The saved marker against the expected one.
  unfoldable pub decide :
      Failure → Profile → Bytes → Option Bytes → Option Bytes → Profile × Result (Unit {0})
  unfolding save_marker
  decide failure profile name (some saved) (some expected) =
      if saved == expected
      then (profile, ok tt)
      else (profile, err (state "channel is sealed; a matching sealed ticket is required"))
  decide failure profile name (some saved) none =
      (profile, err (state "channel is sealed; a matching sealed ticket is required"))
  decide failure profile name none (some expected) = save_marker failure profile name expected
  decide failure profile name none none = (profile, ok tt)

  -- The failure is that of `profile_get`, which is the first call of SQLite, or it comes later.
  unfoldable pub read_and_decide :
      Failure → Profile → Bytes → Option Bytes → Profile × Result (Unit {0})
  unfolding decide
  read_and_decide (some (zero, text)) profile name expected = (profile, err (store text))
  read_and_decide none profile name expected =
      decide none profile name (profile_get profile name) expected
  read_and_decide (some (suc k, text)) profile name expected =
      decide (some (k, text)) profile name (profile_get profile name) expected

  unfoldable pub register :
      {Addr : Type 0}
      → Failure
      → Profile
      → Bytes
      → Option (SealedRoomTicket Addr)
      → Profile × Result (Unit {0})
  unfolding marker_name expected_marker read_and_decide
  register failure profile topic sealed =
      read_and_decide failure profile (marker_name topic) (expected_marker sealed)
