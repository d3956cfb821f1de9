-- ===== src/Store/History/ReadSound.antt =====
-- What `channel_history_read` of crates/lantern-core/src/store.rs gives out, whatever the table holds.
use mathlib.Core.Path.{subst}
use Prim.Native.String.{String}
use xivlantern_dalamud.Prelude.{
  ◌≤◌, ◌≡◌, refl, ℤ, pos, negsuc, Option, none, some, List, [], ◌∷◌, arith, length, retain, map,
  All,
}
use xivlantern_dalamud.Bytes.{Bytes}
use xivlantern_dalamud.Error.{ok}
use xivlantern_dalamud.Crypto.{Signatures}
use xivlantern_dalamud.ChannelHistory.{HistoryRecord}
use xivlantern_dalamud.ChannelHistory.Sorting.{IsSorted, sort, sort-IsSorted, length-sort, All-sort}
use xivlantern_dalamud.ChannelHistory.Snapshot.{max_records, new_records}
use xivlantern_dalamud.ChannelHistory.Distinct.{
  IsDistinct, Verifies, new_records-IsDistinct, new_records-Verifies, length-new_records,
  sort-IsDistinct,
}
use xivlantern_dalamud.Store.History.{Row, newest, is_readable, channel_history_read}
use xivlantern_dalamud.Store.History.Retention.{length-newest}

length-map : (rows : List Row) → length (map (λ row. row.encoded) rows) ≡ length rows
length-map [] = refl
length-map (x ∷ rows) = omega (arith, length-map rows)

pub record IsAuthentic (s : Signatures) (room : Bytes) (out : List HistoryRecord) : Type 0 where
  pub few : length out ≤ max_records
  pub verifies : All (Verifies s room) out
  pub distinct : IsDistinct out
  pub sorted : IsSorted out

sort-IsAuthentic :
    (s : Signatures) (room : Bytes) (raws : List Bytes)
    → length raws ≤ max_records
    → IsAuthentic s room (sort (new_records s room [] raws))
sort-IsAuthentic s room raws few =
    let rs = new_records s room [] raws in
    record {
      few = omega (arith, length-sort rs, length-new_records s room [] raws, few);
      verifies = All-sort (Verifies s room) rs (new_records-Verifies s room [] raws);
      distinct = sort-IsDistinct rs (new_records-IsDistinct s room [] raws).1;
      sorted = sort-IsSorted rs;
    }

-- Whatever rows the table holds, forged or damaged ones too, a read that does not fail gives at most 256
-- records, each verifies for the room from its own bytes, no signature comes twice, and they are in
-- order.
pub channel_history_read-IsAuthentic :
    (s : Signatures) (failure : Option String) (rows : List Row) (room : Bytes) (now : ℤ)
    (out : List HistoryRecord)
    → channel_history_read s failure rows room now ≡ ok out
    → IsAuthentic s room out
unfolding channel_history_read
channel_history_read-IsAuthentic s failure rows room (negsuc n) out h = absurd (cc)
channel_history_read-IsAuthentic s (some failed) rows room (pos now) out h = absurd (cc)
channel_history_read-IsAuthentic s none rows room (pos now) out h =
    let found = newest max_records (retain (is_readable s room now) rows) in
    let raws = map (λ row. row.encoded) found in
    let same : sort (new_records s room [] raws) ≡ out = cc in
    subst (IsAuthentic s room) same (
      sort-IsAuthentic s room raws (
        omega (
          arith,
          length-map found,
          length-newest max_records (retain (is_readable s room now) rows),
        )))
