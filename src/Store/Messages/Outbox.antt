-- ===== src/Store/Messages/Outbox.antt =====
-- What waits in the outbox for an acknowledgement.
use xivlantern_dalamud.Prelude.{
  ℕ, ℤ, ◌+◌, ◌≡◌, refl, sym, ap, ◌∙◌, Bool, true, false, not, none, List, [], ◌∷◌, ◌++◌, ◌==◌,
  arith, any, retain, retain-append, count_if, count_if-append, nat_eq, bytes_eq, if◌then◌else◌,
  ◌&&◌, Bool-cases, ◌⊎◌, inl, inr,
}
use xivlantern_dalamud.Bytes.{Bytes}
use xivlantern_dalamud.Store.Messages.{
  MessageRow, is_message, insert_message, message_out, is_waiting, deliver, update_all,
  message_delivered, put_message, oldest_first, is_due, outbox,
}

count-put_message :
    (p : MessageRow → Bool) (x : MessageRow) (ys : List MessageRow)
    → count_if p (put_message x ys) ≡ count_if p (x ∷ ys)
unfolding put_message count_if
count-put_message p x [] = refl
count-put_message p x (y ∷ ys) = ground (arith, count-put_message p x ys)

count-oldest_first :
    (p : MessageRow → Bool) (rows : List MessageRow)
    → count_if p (oldest_first rows) ≡ count_if p rows
unfolding oldest_first count_if
count-oldest_first p [] = refl
count-oldest_first p (x ∷ rows) =
    ground (arith, count-put_message p x (oldest_first rows), count-oldest_first p rows)

-- One row: an acknowledged message is due no more, and any other row is as before.
due-deliver :
    (q peer : Bytes) (id : ℕ) (now : ℤ) (row : MessageRow)
    → ((is_message peer true id row ≡ true) × (is_due q (deliver peer id now row) ≡ false))
      ⊎ ((is_message peer true id row ≡ false) × (deliver peer id now row ≡ row))
unfolding is_due deliver is_waiting
due-deliver q peer id now row = elim (Bool-cases (is_message peer true id row)) [
  | inl its ↦ inl (its, ground (arith))
  | inr other ↦ inr (other, rw other refl)
]

count-due_deliver :
    (p : MessageRow → Bool) (q peer : Bytes) (id : ℕ) (now : ℤ) (rows : List MessageRow)
    → count_if p (retain (is_due q) (update_all (deliver peer id now) rows))
      ≡ count_if (λ row. p row && not (is_message peer true id row)) (retain (is_due q) rows)
unfolding count_if retain update_all
count-due_deliver p q peer id now [] = refl
count-due_deliver p q peer id now (row ∷ rows) =
    let rest = count-due_deliver p q peer id now rows in
    elim (due-deliver q peer id now row) [
      | inl (its, gone) ↦ ground (arith, rest, its, gone)
      | inr (other, same) ↦ rw same (ground (arith, rest, other))
    ]

-- After an acknowledgement, the outbox of every peer holds what it held, each message as often, without
-- the message that is acknowledged.
pub outbox-message_delivered :
    (p : MessageRow → Bool) (rows : List MessageRow) (q peer : Bytes) (id : ℕ) (now : ℤ)
    → count_if p (outbox (message_delivered rows peer id now).0 q)
      ≡ count_if (λ row. p row && not (is_message peer true id row)) (outbox rows q)
unfolding outbox message_delivered
outbox-message_delivered p rows q peer id now =
    count-oldest_first p (retain (is_due q) (update_all (deliver peer id now) rows))
    ∙ count-due_deliver p q peer id now rows
    ∙ sym (
        count-oldest_first (λ row. p row && not (is_message peer true id row))
          (retain (is_due q) rows))

insert_new :
    (rows : List MessageRow) (row : MessageRow)
    → any (is_message row.peer row.outgoing row.id) rows ≡ false
    → insert_message rows row ≡ (rows ++ row ∷ [], true)
unfolding insert_message
insert_new rows row new = rw (new, insert_message) refl

message_out_new :
    (rows : List MessageRow) (peer : Bytes) (id : ℕ) (sent_at : ℤ) (body : Bytes)
    → any (is_message peer true id) rows ≡ false
    → message_out rows peer id sent_at body
      ≡ rows
        ++ record {
          peer = peer;
          outgoing = true;
          id = id;
          body = body;
          sent_at = sent_at;
          delivered_at = none;
        }
          ∷ []
unfolding message_out
message_out_new rows peer id sent_at body new =
    ap (λ r. r.0)
      (insert_new rows
        (record {
          peer = peer;
          outgoing = true;
          id = id;
          body = body;
          sent_at = sent_at;
          delivered_at = none;
        })
        new)

-- A message that is sent under an id that is new for the peer waits in the outbox of that peer, once,
-- next to what waited before; and the outboxes of the others are as before.
pub outbox-message_out :
    (p : MessageRow → Bool) (rows : List MessageRow) (q peer : Bytes) (id : ℕ) (sent_at : ℤ)
    (body : Bytes)
    → any (is_message peer true id) rows ≡ false
    → count_if p (outbox (message_out rows peer id sent_at body) q)
      ≡ count_if p (outbox rows q)
        + (if peer == q
              && p (record {
                peer = peer;
                outgoing = true;
                id = id;
                body = body;
                sent_at = sent_at;
                delivered_at = none;
              })
            then 1
            else 0)
unfolding outbox retain count_if is_due is_waiting
outbox-message_out p rows q peer id sent_at body new =
    let row : MessageRow = record {
      peer = peer;
      outgoing = true;
      id = id;
      body = body;
      sent_at = sent_at;
      delivered_at = none;
    } in
    let due = retain (is_due q) rows in
    ap (λ t. count_if p (outbox t q)) (message_out_new rows peer id sent_at body new)
    ∙ count-oldest_first p (retain (is_due q) (rows ++ row ∷ []))
    ∙ ap (count_if p) (retain-append (is_due q) rows (row ∷ []))
    ∙ count_if-append p due (retain (is_due q) (row ∷ []))
    ∙ ground (arith, count-oldest_first p due)
