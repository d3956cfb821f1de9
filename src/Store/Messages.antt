-- ===== src/Store/Messages.antt =====
-- crates/lantern-core/src/store.rs: the table `messages` of direct messages, which are sent again until
-- they are acknowledged. A table is the list of its rows by rowid; every time comes from the caller, and
-- `now` is the clock. An id is stored as `i64` and read back as the same `u64`. A statement that SQLite
-- fails changes nothing and returns the error; that is left out here.
pub mod Once
pub mod Outbox
mod Tests
use xivlantern_dalamud.Prelude.{
  ℕ, ℤ, pos, negsuc, Bool, true, false, not, ◌&&◌, Option, none, some, List, [], ◌∷◌, ◌++◌, ◌==◌,
  leb, any, retain, take, nat_eq, bytes_eq, if◌then◌else◌,
}
use mathlib.Core.List.{reverse}
use xivlantern_dalamud.Bytes.{Bytes}

pub record MessageRow : Type 0 where
  pub peer : Bytes
  pub outgoing : Bool
  pub id : ℕ
  pub body : Bytes
  pub sent_at : ℤ
  pub delivered_at : Option ℤ

abbrev same : Bool → Bool → Bool
same true b = b
same false b = not b

-- `PRIMARY KEY (peer, outgoing, msg_id)`
unfoldable pub is_message : Bytes → Bool → ℕ → MessageRow → Bool
is_message peer outgoing id row = row.peer == peer && (same row.outgoing outgoing && row.id == id)

-- `INSERT OR IGNORE`, and whether a row was inserted.
unfoldable pub insert_message : List MessageRow → MessageRow → List MessageRow × Bool
insert_message rows row =
    if any (is_message row.peer row.outgoing row.id) rows
    then (rows, false)
    else (rows ++ row ∷ [], true)

unfoldable pub message_out : List MessageRow → Bytes → ℕ → ℤ → Bytes → List MessageRow
unfolding insert_message
message_out rows peer id sent_at body =
    (insert_message rows (record {
      peer = peer;
      outgoing = true;
      id = id;
      body = body;
      sent_at = sent_at;
      delivered_at = none;
    })).0

unfoldable pub message_in : List MessageRow → Bytes → ℕ → ℤ → Bytes → ℤ → List MessageRow × Bool
message_in rows peer id sent_at body now = insert_message rows (record {
  peer = peer;
  outgoing = false;
  id = id;
  body = body;
  sent_at = sent_at;
  delivered_at = some now;
})

unfoldable pub is_waiting : MessageRow → Bool
is_waiting row = elim row.delivered_at [ none ↦ true | some t ↦ false ]

-- `UPDATE .. WHERE peer, outgoing = 1, msg_id, delivered_at IS NULL`, of one row.
unfoldable pub deliver : Bytes → ℕ → ℤ → MessageRow → MessageRow
unfolding is_message is_waiting
deliver peer id now row =
    if is_message peer true id row && is_waiting row
    then record row { delivered_at = some now }
    else row

unfoldable pub update_all : (MessageRow → MessageRow) → List MessageRow → List MessageRow
update_all f [] = []
update_all f (row ∷ rows) = f row ∷ update_all f rows

unfoldable pub message_delivered : List MessageRow → Bytes → ℕ → ℤ → List MessageRow × Bool
unfolding deliver
message_delivered rows peer id now = (
  update_all (deliver peer id now) rows,
  any (λ row. is_message peer true id row && is_waiting row) rows,
)

-- `<=` of `i64`
unfoldable pub at_most : ℤ → ℤ → Bool
at_most (pos m) (pos n) = leb m n
at_most (pos m) (negsuc n) = false
at_most (negsuc m) (pos n) = true
at_most (negsuc m) (negsuc n) = leb n m

-- `ORDER BY sent_at, rowid`
unfoldable pub put_message : MessageRow → List MessageRow → List MessageRow
unfolding at_most
put_message x [] = x ∷ []
put_message x (y ∷ ys) = if at_most x.sent_at y.sent_at then x ∷ y ∷ ys else y ∷ put_message x ys

unfoldable pub oldest_first : List MessageRow → List MessageRow
unfolding put_message
oldest_first [] = []
oldest_first (x ∷ rows) = put_message x (oldest_first rows)

unfoldable pub is_due : Bytes → MessageRow → Bool
unfolding is_waiting
is_due peer row = row.peer == peer && (row.outgoing && is_waiting row)

unfoldable pub outbox : List MessageRow → Bytes → List MessageRow
unfolding is_due
outbox rows peer = oldest_first (retain (is_due peer) rows)

-- `ORDER BY sent_at DESC, rowid DESC`
unfoldable pub put_latest : MessageRow → List MessageRow → List MessageRow
unfolding at_most
put_latest x [] = x ∷ []
put_latest x (y ∷ ys) = if at_most x.sent_at y.sent_at then y ∷ put_latest x ys else x ∷ y ∷ ys

unfoldable pub latest_first : List MessageRow → List MessageRow
unfolding put_latest
latest_first [] = []
latest_first (x ∷ rows) = put_latest x (latest_first rows)

-- The last `limit` messages with a peer, oldest first.
unfoldable pub history : List MessageRow → Bytes → ℕ → List MessageRow
unfolding latest_first
history rows peer limit =
    reverse (take limit (latest_first (retain (λ row. row.peer == peer) rows)))
