-- ===== src/HistoryExchange/Catchup.antt =====
-- crates/lantern-core/src/node/history.rs, `emit` and `ingest_snapshot`, and the commands and frames of
-- crates/lantern-core/src/node.rs that change the history of a channel: live records, publishing, clearing and
-- turning it on or off. The state is that of one room that the node is in, and of what the rooms share.
pub mod Table
pub mod After
pub mod Cleared
pub mod Tests
use Prim.Native.String.{String}
use xivlantern_dalamud.Prelude.{
  ℕ, ◌+◌, ℤ, Bool, true, false, not, Option, none, some, List, [], ◌∷◌, ◌++◌, ◌==◌, nat_eq,
  bytes_eq, if◌then◌else◌,
}
use xivlantern_dalamud.Bytes.{Bytes}
use xivlantern_dalamud.Text.{as_bytes}
use xivlantern_dalamud.HashMap.{HashMap, contains_key, insert, remove}
use xivlantern_dalamud.Error.{Error, Result, ok, err}
use xivlantern_dalamud.Error.Display.{display}
use xivlantern_dalamud.Event.{Event, channel_record, channel_history_cleared, message, error}
use xivlantern_dalamud.Delivery.{block_author}
use xivlantern_dalamud.EventQueue.{EventQueue, emit, wrapping_inc}
use xivlantern_dalamud.Crypto.{Signatures}
use xivlantern_dalamud.ChannelHistory.{HistoryRecord, codes, sign, verify_sender}
use xivlantern_dalamud.Store.Transaction.{Failure}
use xivlantern_dalamud.Store.History.{
  Row, channel_history_insert, channel_history_read, channel_history_clear,
}
use xivlantern_dalamud.HistoryExchange.{Cache, leave}
use xivlantern_dalamud.HistoryExchange.Requests.{Room}

-- The fields of `Shared` and of a `RoomState` that the history of a room uses.
pub record History : Type 0 where
  pub room : ℕ
  pub state : Room
  pub history_generation : ℕ
  pub rows : List Row
  pub history_revision : ℕ
  pub history_metadata : Bool
  pub history_cache : Cache
  pub blocked : HashMap Bytes (Unit {0})
  pub events : EventQueue

unfoldable pub emit_event : Event → History → History
emit_event event h = record h { events = emit h.events event }

unfoldable pub report : String → Error → History → History
unfolding emit_event
report what e h = emit_event (error (as_bytes (codes what ++ display e))) h

unfoldable pub is_blocked : Bytes → History → Bool
is_blocked peer h = contains_key h.blocked peer

-- `emit` of node/history.rs: whether the caller is told by a record event, or need not be told.
unfoldable pub emit_record_of : HistoryRecord → Bool → History → Bool × History
unfolding emit_event is_blocked
emit_record_of r historical h =
    if not h.history_metadata
    then (false, h)
    else if is_blocked r.author h
    then (true, h)
    else (true, emit_event (channel_record h.room r.author r.encoded historical) h)

unfoldable pub next_revision : History → History
next_revision h = record h { history_revision = wrapping_inc h.history_revision }

unfoldable pub next_generation : History → History
next_generation h = record h { history_generation = wrapping_inc h.history_generation }

-- How a round of `ingest_snapshot` ends: the loop goes on with the number of new records, or it returns.
pub data Round : Type 0 where
  goes_on : ℕ → Round
  returns : Result (Option ℕ) → Round

-- What follows an insertion into the table.
unfoldable pub count_new : HistoryRecord → ℕ → Result Bool → History → Round × History
unfolding emit_record_of next_revision
count_new r added (err e) h = (returns (err e), h)
count_new r added (ok false) h = (goes_on added, h)
count_new r added (ok true) h = (goes_on (added + 1), (emit_record_of r true (next_revision h)).1)

-- What follows an insertion of a record that came live.
unfoldable pub tell_live : Bytes → HistoryRecord → Result Bool → History → History
unfolding report emit_record_of next_revision emit_event
tell_live from r (err e) h = report "history storage failed: " e h
tell_live from r (ok false) h = h
tell_live from r (ok true) h =
    let (told, h') = emit_record_of r false (next_revision h) in
    if told then h' else emit_event (message h.room from r.text) h'

-- The loop over the records that are loaded.
unfoldable pub emit_loaded : List HistoryRecord → History → History
unfolding emit_record_of
emit_loaded [] h = h
emit_loaded (r ∷ rs) h = emit_loaded rs (emit_record_of r true h).1

unfoldable pub load : Result (List HistoryRecord) → History → History
unfolding report emit_loaded
load (err e) h = report "history load failed: " e h
load (ok rs) h = emit_loaded rs h

unfoldable pub leave_cache : History → History
leave_cache h = record h { history_cache = leave h.room h.history_cache }

-- What follows the deletion of the rows.
unfoldable pub tell_cleared : Result (Unit {0}) → History → History
unfolding report leave_cache next_revision emit_event
tell_cleared (err e) h = report "history clear failed: " e h
tell_cleared (ok u) h = emit_event (channel_history_cleared h.room) (next_revision (leave_cache h))

-- `Cmd::HistoryClear`
unfoldable pub history_clear : Option String → History → History
unfolding tell_cleared next_generation
history_clear failure h =
    let (rows, r) = channel_history_clear failure h.rows h.state.topic in
    tell_cleared r (
      next_generation (record h { state = record h.state { history_request = none }; rows = rows }))

-- `Node::block` and `Node::unblock`, as far as the history goes.
unfoldable pub block : Bytes → History → History
unfolding next_revision
block peer h = next_revision (record h {
  blocked = insert h.blocked peer tt;
  events = record h.events { history = block_author h.events.history peer };
})

unfoldable pub unblock : Bytes → History → History
unfolding next_revision is_blocked
unblock peer h =
    if is_blocked peer h then next_revision (record h { blocked = remove h.blocked peer }) else h

module _ (s : Signatures) where
  -- One round of the loop, with what SQLite and the clock say in it.
  unfoldable pub ingest_one : ℕ → Failure → ℤ → HistoryRecord → ℕ → History → Round × History
  unfolding is_blocked count_new
  ingest_one expected failure now r added h =
      if is_blocked r.author h
      then (goes_on added, h)
      else if not (h.history_generation == expected)
      then (returns (ok none), h)
      else let (rows, inserted) =
          channel_history_insert s failure h.rows h.state.topic r.encoded now in
        count_new r added inserted (record h { rows = rows })

  -- The loop, where nothing else happens between its rounds.
  unfoldable pub ingest_snapshot :
      ℕ → Failure → ℤ → List HistoryRecord → ℕ → History → Result (Option ℕ) × History
  ingest_snapshot expected failure now [] added h = (ok (some added), h)
  ingest_snapshot expected failure now (r ∷ rs) added h =
      let (round, h') = ingest_one expected failure now r added h in
      elim round [
        | goes_on n ↦ ingest_snapshot expected failure now rs n h'
        | returns result ↦ (result, h')
      ]

  -- `Frame::HistoryRecord`
  unfoldable pub on_history_record : Failure → ℤ → Bytes → Bytes → History → History
  unfolding tell_live
  on_history_record failure now from encoded h = elim (verify_sender s h.state.topic from encoded) [
    | none ↦ h
    | some r ↦
        let (rows, inserted) = channel_history_insert s failure h.rows h.state.topic encoded now in
        tell_live from r inserted (record h { rows = rows })
  ]

  -- `Cmd::HistoryEnable`; the request that follows is Requests.request.
  unfoldable pub history_enable : Option String → ℤ → Bool → History → History
  unfolding next_generation leave_cache load
  history_enable failure now enabled h =
      let h₁ = next_generation (record h {
        state = record h.state { history_enabled = enabled; history_request = none };
      }) in
      if enabled
      then load (channel_history_read s failure h₁.rows h₁.state.topic now) h₁
      else leave_cache h₁

  -- What follows the insertion of the node's own record; the broadcast is the transport's.
  unfoldable pub tell_published : s.SecretKey → Bytes → Result Bool → History → History
  unfolding report next_revision emit_record_of
  tell_published secret encoded (err e) h = report "history storage failed: " e h
  tell_published secret encoded (ok inserted) h =
      elim (verify_sender s h.state.topic (s.public secret) encoded) [
        | none ↦ next_revision h
        | some r ↦ (emit_record_of r false (next_revision h)).1
      ]

  -- The rest of a publication once the record is signed.
  unfoldable pub publish_signed : s.SecretKey → Failure → ℤ → Result Bytes → History → History
  unfolding report tell_published
  publish_signed secret failure now (err e) h = report "history signing failed: " e h
  publish_signed secret failure now (ok encoded) h =
      let (rows, inserted) = channel_history_insert s failure h.rows h.state.topic encoded now in
      tell_published secret encoded inserted (record h { rows = rows })

  -- `Cmd::HistoryPublish`; `random` is what the operating system gives for the id.
  unfoldable pub history_publish :
      s.SecretKey → Failure → ℤ → Option Bytes → Bytes → History → History
  unfolding publish_signed
  history_publish secret failure now random text h =
      publish_signed secret failure now (sign s secret h.state.topic now text random) h
