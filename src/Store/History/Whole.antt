-- ===== src/Store/History/Whole.antt =====
-- The transaction of `channel_history_insert` in crates/lantern-core/src/store.rs is done whole or not at all.
use xivlantern_dalamud.Prelude.{ℕ, ◌≡◌, refl, none, List}
use xivlantern_dalamud.Bytes.{Bytes}
use xivlantern_dalamud.Error.{ok}
use xivlantern_dalamud.ChannelHistory.{HistoryRecord}
use xivlantern_dalamud.Store.Transaction.{
  Failure, Follows, statement-Follows, pure-Follows, bind-Follows, IsWhole, transaction-IsWhole,
}
use xivlantern_dalamud.Store.History.{Row, insert_or_ignore, trim, insert_and_trim, insert_verified}

insert_and_trim-Follows : (row : Row) → Follows (insert_and_trim row)
unfolding insert_and_trim
insert_and_trim-Follows row = bind-Follows _ _ (statement-Follows _) (λ inserted.
    bind-Follows _ _ (statement-Follows _) (λ _.
      bind-Follows _ _ (statement-Follows _)
        (λ _. bind-Follows _ _ (statement-Follows _) (λ _. pure-Follows inserted))))

pub insert_verified-IsWhole :
    (failure : Failure) (rows : List Row) (room : Bytes) (r : HistoryRecord) (now : ℕ)
    → IsWhole failure rows
        (insert_verified failure rows room r now)
        (insert_verified none rows room r now)
unfolding insert_verified
insert_verified-IsWhole failure rows room r now =
    transaction-IsWhole _ failure rows (insert_and_trim-Follows _)

abbrev pub new_row : Bytes → HistoryRecord → ℕ → Row
new_row room r now = record {
  room = room;
  signature = r.signature;
  encoded = r.encoded;
  received_at = now;
}

-- What it does when nothing fails.
pub insert_verified_done :
    (rows : List Row) (room : Bytes) (r : HistoryRecord) (now : ℕ)
    → insert_verified none rows room r now ≡ (
      trim room now (insert_or_ignore (new_row room r now) rows).0,
      ok (insert_or_ignore (new_row room r now) rows).1,
    )
unfolding insert_verified trim
insert_verified_done rows room r now = refl
