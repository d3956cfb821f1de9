-- ===== src/Store/Messages/Once.antt =====
-- A message that is sent again is shown once.
use xivlantern_dalamud.Prelude.{
  ℕ, ℤ, ◌≡◌, refl, ◌∙◌, Bool, true, false, not, some, List, [], ◌∷◌, ◌==◌, arith, any, any-append,
  nat_eq, bytes_eq, if◌then◌else◌, ◌&&◌,
}
use xivlantern_dalamud.Bytes.{Bytes}
use xivlantern_dalamud.Store.Messages.{
  MessageRow, is_message, insert_message, message_out, message_in, deliver, update_all,
  message_delivered,
}

-- One call that changes the table.
pub data Call : Type 0 where
  incoming : Bytes → ℕ → ℤ → Bytes → ℤ → Call
  outgoing : Bytes → ℕ → ℤ → Bytes → Call
  acknowledged : Bytes → ℕ → ℤ → Call

-- The peer and the id of each incoming message that is new, and so shown.
unfoldable pub shown : List MessageRow → List Call → List (Bytes × ℕ)
shown rows [] = []
shown rows (incoming peer id sent_at body now ∷ calls) =
    let (rows', new) = message_in rows peer id sent_at body now in
    let rest = shown rows' calls in if new then (peer, id) ∷ rest else rest
shown rows (outgoing peer id sent_at body ∷ calls) =
    shown (message_out rows peer id sent_at body) calls
shown rows (acknowledged peer id now ∷ calls) = shown (message_delivered rows peer id now).0 calls

abbrev pub is_pair : Bytes → ℕ → Bytes × ℕ → Bool
is_pair peer id (q, n) = q == peer && n == id

-- No message twice.
abbrev pub AreDistinct : List (Bytes × ℕ) → Type 0
AreDistinct [] = Unit
AreDistinct ((peer, id) ∷ pairs) = (any (is_pair peer id) pairs ≡ false) × AreDistinct pairs

has : List MessageRow → Bytes → ℕ → Bool
has rows peer id = any (is_message peer false id) rows

has-insert :
    (rows : List MessageRow) (row : MessageRow) (peer : Bytes) (id : ℕ)
    → has rows peer id ≡ true
    → has (insert_message rows row).0 peer id ≡ true
unfolding has insert_message
has-insert rows row peer id h =
    ground (arith, any-append (is_message peer false id) rows (row ∷ []))

has-update :
    (rows : List MessageRow) (q : Bytes) (n : ℕ) (now : ℤ) (peer : Bytes) (id : ℕ)
    → has (update_all (deliver q n now) rows) peer id ≡ has rows peer id
unfolding has any update_all deliver is_message
has-update [] q n now peer id = refl
has-update (row ∷ rows) q n now peer id = ground (arith, has-update rows q n now peer id)

has-message_in :
    (rows : List MessageRow) (q : Bytes) (n : ℕ) (sent_at : ℤ) (body : Bytes) (now : ℤ)
    (peer : Bytes) (id : ℕ)
    → has rows peer id ≡ true
    → has (message_in rows q n sent_at body now).0 peer id ≡ true
unfolding message_in
has-message_in rows q n sent_at body now peer id h = has-insert rows _ peer id h

has-message_out :
    (rows : List MessageRow) (q : Bytes) (n : ℕ) (sent_at : ℤ) (body : Bytes) (peer : Bytes)
    (id : ℕ)
    → has rows peer id ≡ true
    → has (message_out rows q n sent_at body) peer id ≡ true
unfolding message_out
has-message_out rows q n sent_at body peer id h = has-insert rows _ peer id h

has-delivered :
    (rows : List MessageRow) (q : Bytes) (n : ℕ) (now : ℤ) (peer : Bytes) (id : ℕ)
    → has rows peer id ≡ true
    → has (message_delivered rows q n now).0 peer id ≡ true
unfolding message_delivered
has-delivered rows q n now peer id h = has-update rows q n now peer id ∙ h

-- A message is new when the table does not have it, and then the table has it.
new_message :
    (rows : List MessageRow) (q : Bytes) (n : ℕ) (sent_at : ℤ) (body : Bytes) (now : ℤ)
    → ((message_in rows q n sent_at body now).1 ≡ not (has rows q n))
      × (has (message_in rows q n sent_at body now).0 q n ≡ true)
unfolding message_in insert_message has is_message any
new_message rows q n sent_at body now =
    let row : MessageRow = record {
      peer = q;
      outgoing = false;
      id = n;
      body = body;
      sent_at = sent_at;
      delivered_at = some now;
    } in
    let kept = any-append (is_message q false n) rows (row ∷ []) in
    (ground (arith), ground (arith, kept, bytes_eq.equals_iff q q))

-- A message that is in the table is not shown by any call that follows.
shown_not_had :
    (rows : List MessageRow) (calls : List Call) (peer : Bytes) (id : ℕ)
    → has rows peer id ≡ true
    → any (is_pair peer id) (shown rows calls) ≡ false
unfolding shown any
shown_not_had rows [] peer id h = refl
shown_not_had rows (incoming q n sent_at body now ∷ calls) peer id h =
    let new = (new_message rows q n sent_at body now).0 in
    let rest =
      shown_not_had (message_in rows q n sent_at body now).0 calls peer id
        (has-message_in rows q n sent_at body now peer id h) in
    ground (arith, new, rest, bytes_eq.equals_iff q peer)
shown_not_had rows (outgoing q n sent_at body ∷ calls) peer id h =
    shown_not_had (message_out rows q n sent_at body) calls peer id
      (has-message_out rows q n sent_at body peer id h)
shown_not_had rows (acknowledged q n now ∷ calls) peer id h =
    shown_not_had (message_delivered rows q n now).0 calls peer id
      (has-delivered rows q n now peer id h)

AreDistinct-if :
    (new : Bool) (peer : Bytes) (id : ℕ) (pairs : List (Bytes × ℕ))
    → any (is_pair peer id) pairs ≡ false
    → AreDistinct pairs
    → AreDistinct (if new then (peer, id) ∷ pairs else pairs)
AreDistinct-if true peer id pairs h k = (h, k)
AreDistinct-if false peer id pairs h k = k

-- Whatever the table holds, and however often a peer sends a message again, between whatever other calls,
-- no message of a peer is shown twice.
pub shown-AreDistinct :
    (rows : List MessageRow) (calls : List Call) → AreDistinct (shown rows calls)
unfolding shown
shown-AreDistinct rows [] = tt
shown-AreDistinct rows (incoming q n sent_at body now ∷ calls) =
    AreDistinct-if (message_in rows q n sent_at body now).1 q n
      (shown (message_in rows q n sent_at body now).0 calls)
      (shown_not_had (message_in rows q n sent_at body now).0 calls q n
        (new_message rows q n sent_at body now).1)
      (shown-AreDistinct (message_in rows q n sent_at body now).0 calls)
shown-AreDistinct rows (outgoing q n sent_at body ∷ calls) =
    shown-AreDistinct (message_out rows q n sent_at body) calls
shown-AreDistinct rows (acknowledged q n now ∷ calls) =
    shown-AreDistinct (message_delivered rows q n now).0 calls
