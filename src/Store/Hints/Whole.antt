-- ===== src/Store/Hints/Whole.antt =====
-- The transaction of `channel_peer_hint_put` in crates/lantern-core/src/store.rs is done whole or not at all.
use xivlantern_dalamud.Prelude.{◌≡◌, refl, none, List}
use xivlantern_dalamud.Error.{ok}
use xivlantern_dalamud.Store.Transaction.{
  Failure, Follows, statement-Follows, bind-Follows, IsWhole, transaction-IsWhole,
}
use xivlantern_dalamud.Store.Hints.{
  HintRow, upsert, delete_stale, limit_room_hints, limit_hints, upsert_and_trim, write_hint,
}

upsert_and_trim-Follows : (new : HintRow) → Follows (upsert_and_trim new)
unfolding upsert_and_trim
upsert_and_trim-Follows new = bind-Follows _ _ (statement-Follows _) (λ _.
    bind-Follows _ _ (statement-Follows _)
      (λ _. bind-Follows _ _ (statement-Follows _) (λ _. statement-Follows _)))

pub write_hint-IsWhole :
    (failure : Failure) (rows : List HintRow) (new : HintRow)
    → IsWhole failure rows (write_hint failure rows new) (write_hint none rows new)
unfolding write_hint
write_hint-IsWhole failure rows new =
    transaction-IsWhole _ failure rows (upsert_and_trim-Follows new)

-- What it does when nothing fails.
pub write_hint_done :
    (rows : List HintRow) (new : HintRow)
    → write_hint none rows new ≡ (
      limit_hints (limit_room_hints new.room (delete_stale new.received_at (upsert new rows))),
      ok tt,
    )
unfolding write_hint
write_hint_done rows new = refl
