-- ===== src/Store/Failures/Tests.antt =====
-- Failing calls on the tables of store.rs.
use xivlantern_dalamud.Prelude.{◌≡◌, refl, pos, some, [], ◌∷◌}
use xivlantern_dalamud.ChannelHistory.Tests.{toy, room}
use xivlantern_dalamud.Store.Hints.{HintRow, upsert_and_trim, write_hint}
use xivlantern_dalamud.Store.Failures.{
  Tables, Call, puts_hint, failure_of, unfailing, apply_call, IsAtomic, apply_call-IsAtomic,
}

abbrev tables : Tables
tables = record { channel_history = []; channel_peers = [] }

abbrev hint : HintRow
hint = record { room = room; peer = room; offer = 1 ∷ []; received_at = 100 }

-- The second statement fails: the first one has written, and only the transaction takes it back.
half_written : (upsert_and_trim hint (some (1, "disk full")) []).1 ≡ hint ∷ []
unfolding upsert_and_trim
half_written = refl

taken_back : (write_hint (some (2, "disk full")) [] hint).0 ≡ []
unfolding write_hint
taken_back = refl

abbrev failing_call : Call
failing_call = puts_hint (some (2, "disk full")) room room (1 ∷ []) (pos 100)

apply_call-IsAtomic_example :
    IsAtomic
      (failure_of failing_call)
      tables
      (apply_call toy tables (unfailing failing_call))
      (apply_call toy tables failing_call)
apply_call-IsAtomic_example = apply_call-IsAtomic toy tables failing_call
