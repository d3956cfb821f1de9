-- ===== src/Store/Hints/Limited.antt =====
-- How many offers are remembered, and for how long.
use mathlib.Core.Path.{subst}
use xivlantern_dalamud.Prelude.{
  ℕ, ◌+◌, ◌≤◌, ◌≡◌, ap, sym, ◌∙◌, pos, Bool, not, ◌||◌, Bool-cases, inl, inr, List, leb, ltb, arith,
  bytes_eq, length, length-take, take, retain, count_if, count_if-append,
}
use xivlantern_dalamud.Bytes.{Bytes}
use xivlantern_dalamud.Error.{ok}
use xivlantern_dalamud.Store.Transaction.{Failure}
use xivlantern_dalamud.Store.Hints.Whole.{write_hint-IsWhole, write_hint_done}
use xivlantern_dalamud.Store.Counting.{
  count-le-length, count-retain-not, count-retain_kept, count-retain_other, in_order,
  count-take-in_order,
}
use xivlantern_dalamud.Store.Hints.{
  HintRow, max_peer_hint_bytes, max_room_peer_hints, max_peer_hints, is_room, is_current, upsert,
  is_later, is_later_in_all, delete_stale, limit_room_hints, limit_hints, write_hint,
  channel_peer_hint_put,
}

-- A row from another time than the last thirty days.
abbrev pub is_stale : ℕ → HintRow → Bool
is_stale now row = not (is_current now row)

pub record IsLimited (room : Bytes) (now : ℕ) (rows : List HintRow) : Type 0 where
  pub room_rows : count_if (is_room room) rows ≤ max_room_peer_hints
  pub all_rows : length rows ≤ max_peer_hints
  pub none_stale : count_if (is_stale now) rows ≡ 0

count-limit_room_hints :
    (p : HintRow → Bool) (room : Bytes) (rows : List HintRow)
    → count_if p (limit_room_hints room rows)
      ≤ count_if p (retain (is_room room) rows)
        + count_if p (retain (λ row. not (is_room room row)) rows)
unfolding limit_room_hints
count-limit_room_hints p room rows = omega (
  arith,
  count_if-append p (take max_room_peer_hints (in_order is_later (retain (is_room room) rows)))
      (retain (λ row. not (is_room room row)) rows),
  count-take-in_order is_later p max_room_peer_hints (retain (is_room room) rows),
)

room-limit_room_hints :
    (room : Bytes) (rows : List HintRow)
    → count_if (is_room room) (limit_room_hints room rows) ≤ max_room_peer_hints
unfolding limit_room_hints
room-limit_room_hints room rows =
    let first = take max_room_peer_hints (in_order is_later (retain (is_room room) rows)) in
    omega (
      arith,
      count_if-append (is_room room) first (retain (λ row. not (is_room room row)) rows),
      count-le-length (is_room room) first,
      length-take max_room_peer_hints (in_order is_later (retain (is_room room) rows)),
      count-retain-not (is_room room) rows,
    )

deletions-IsLimited :
    (room : Bytes) (now : ℕ) (rows : List HintRow)
    → IsLimited room now (limit_hints (limit_room_hints room (delete_stale now rows)))
unfolding limit_hints delete_stale
deletions-IsLimited room now rows =
    let current = delete_stale now rows in
    let few = limit_room_hints room current in
    record {
      room_rows = omega (
        arith,
        count-take-in_order is_later_in_all (is_room room) max_peer_hints few,
        room-limit_room_hints room current,
      );
      all_rows = omega (arith, length-take max_peer_hints (in_order is_later_in_all few));
      none_stale = omega (
        arith,
        count-take-in_order is_later_in_all (is_stale now) max_peer_hints few,
        count-limit_room_hints (is_stale now) room current,
        count-retain_other (is_stale now) (is_room room) current,
        count-retain_other (is_stale now) (λ row. not (is_room room row)) current,
        count-retain_kept (is_current now) rows,
      );
    }

write_hint-IsLimited :
    (failure : Failure) (rows rows' : List HintRow) (new : HintRow)
    → write_hint failure rows new ≡ (rows', ok tt)
    → IsLimited new.room new.received_at rows'
write_hint-IsLimited failure rows rows' new h = elim (write_hint-IsWhole failure rows new) [
  | inl (text, told, failed) ↦ absurd (cc (failed, h))
  | inr whole ↦
      subst (IsLimited new.room new.received_at)
        (ap (λ r. r.0) (sym (write_hint_done rows new) ∙ sym whole ∙ h))
        (deletions-IsLimited new.room new.received_at (upsert new rows))
]

-- After an offer is remembered for a room at a time that is not negative, whatever was in the table before: the
-- room has at most 32 rows, the table at most 256, and no row is older than thirty days or from the future.
pub channel_peer_hint_put-IsLimited :
    (failure : Failure) (rows rows' : List HintRow) (room peer offer : Bytes) (now : ℕ)
    → channel_peer_hint_put failure rows room peer offer (pos now) ≡ (rows', ok tt)
    → IsLimited room now rows'
unfolding channel_peer_hint_put
channel_peer_hint_put-IsLimited failure rows rows' room peer offer now h =
    elim (Bool-cases (leb (length offer) 0 || ltb max_peer_hint_bytes (length offer))) [
      | inl bad ↦ absurd (cc (bad, h))
      | inr good ↦
          write_hint-IsLimited failure rows rows'
            (record { room = room; peer = peer; offer = offer; received_at = now }) (rw good at h)
    ]
