-- ===== src/Store/Messages/Tests.antt =====
-- Runs of the table `messages` of store.rs, and its theorems at concrete inputs.
use xivlantern_dalamud.Prelude.{
  ℕ, ◌≡◌, refl, pos, true, not, ◌&&◌, none, List, [], ◌∷◌, any, count_if, bytes_eq, bytes_beq,
  nat_eq, ◌==◌, retain,
}
use xivlantern_dalamud.Bytes.{Bytes}
use xivlantern_dalamud.Store.Messages.{
  MessageRow, is_message, insert_message, message_out, message_in, is_waiting, deliver, update_all,
  message_delivered, put_message, oldest_first, is_due, outbox,
}
use xivlantern_dalamud.Store.Messages.Once.{
  Call, incoming, outgoing, acknowledged, shown, AreDistinct, shown-AreDistinct,
}
use xivlantern_dalamud.Store.Messages.Outbox.{outbox-message_delivered}

abbrev alice : Bytes
alice = 1 ∷ []

abbrev bob : Bytes
bob = 2 ∷ []

abbrev waiting : ℕ → ℕ → MessageRow
waiting id time = record {
  peer = bob;
  outgoing = true;
  id = id;
  body = id ∷ [];
  sent_at = pos time;
  delivered_at = none;
}

abbrev rows : List MessageRow
rows = waiting 7 20 ∷ waiting 8 10 ∷ []

-- The outbox is in the order of sending, and an acknowledgement takes one message out.
drains : outbox (message_delivered rows bob 8 (pos 30)).0 bob ≡ waiting 7 20 ∷ []
unfolding outbox message_delivered update_all deliver is_message is_waiting is_due retain
    oldest_first put_message bytes_beq
drains = refl

-- A message that is sent again, and one with the same id of another peer.
abbrev calls : List Call
calls =
    incoming alice 5 (pos 1) (9 ∷ []) (pos 2)
    ∷ outgoing alice 5 (pos 2) (9 ∷ [])
    ∷ incoming alice 5 (pos 1) (9 ∷ []) (pos 3)
    ∷ incoming bob 5 (pos 1) (9 ∷ []) (pos 4)
    ∷ acknowledged bob 7 (pos 5)
    ∷ []

shows : shown rows calls ≡ (alice, 5) ∷ (bob, 5) ∷ []
unfolding shown message_in message_out message_delivered insert_message update_all deliver
    is_message is_waiting any bytes_beq
shows = refl

shown-AreDistinct_example : AreDistinct (shown rows calls)
shown-AreDistinct_example = shown-AreDistinct rows calls

outbox-message_delivered_example :
    count_if (λ row. row.id == 8) (outbox (message_delivered rows bob 8 (pos 30)).0 bob)
    ≡ count_if (λ row. row.id == 8 && not (is_message bob true 8 row)) (outbox rows bob)
outbox-message_delivered_example =
    outbox-message_delivered (λ row. row.id == 8) rows bob bob 8 (pos 30)
