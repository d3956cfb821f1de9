-- ===== src/HistoryExchange/Requests.antt =====
-- crates/lantern-core/src/node/history.rs: the request of a room, and which offers it accepts. Sending a frame
-- is the transport's; what is sent is returned. The room is what the code reads of it.
use xivlantern_dalamud.Prelude.{
  ℕ, ◌-◌, ◌+◌, Bool, true, false, not, ◌&&◌, ◌||◌, Option, none, some, List, [], ◌∷◌, ◌==◌, nat_eq,
  bytes_eq, leb, ltb, length, any, if◌then◌else◌,
}
use xivlantern_dalamud.Bytes.{Bytes}
use xivlantern_dalamud.ChannelHistory.Snapshot.{snapshot_header, max_snapshot_bytes}
use xivlantern_dalamud.Proto.{Frame, history_request}
use xivlantern_dalamud.HistoryExchange.{request_lifetime, max_sealed_snapshot_bytes}

pub record Request : Type 0 where
  pub nonce : Bytes
  pub started : ℕ
  pub sent : ℕ
  pub attempt : ℕ
  pub providers : List Bytes

pub record Room : Type 0 where
  pub topic : Bytes
  pub history_enabled : Bool
  -- an author's channel
  pub has_author : Bool
  pub is_sealed : Bool
  pub history_request : Option Request

unfoldable pub new_request : Bytes → ℕ → Request
new_request nonce now = record {
  nonce = nonce;
  started = now;
  sent = now;
  attempt = 0;
  providers = [];
}

-- A request whose time is not over.
unfoldable pub is_running : ℕ → Option Request → Bool
is_running now none = false
is_running now (some r) = ltb (now - r.started) request_lifetime

module _ {Addr : Type 0} where
  -- `nonce` is what the system gives for the request, if one is made.
  unfoldable pub request : ℕ → Bool → Bytes → Room → Option (Frame Addr) × Room
  unfolding new_request is_running
  request now force nonce room =
      if not room.history_enabled || room.has_author
      then (none, room)
      else if not force && is_running now room.history_request
      then (none, room)
      else (
        some (history_request room.topic nonce 0),
        record room { history_request = some (new_request nonce now) },
      )

  -- The request is sent again, unless it is too early or it was sent eight times.
  unfoldable pub send_again : ℕ → Room → Request → Option (Frame Addr) × Room
  send_again now room r =
      if not room.history_enabled || (ltb (now - r.sent) 2000 || leb 7 r.attempt)
      then (none, room)
      else (
        some (history_request room.topic r.nonce (r.attempt + 1)),
        record room { history_request = some (record r { attempt = r.attempt + 1; sent = now }) },
      )

  -- One room's part of `tick`.
  unfoldable pub tick_room : ℕ → Room → Option (Frame Addr) × Room
  unfolding send_again
  tick_room now room = elim room.history_request [
    | none ↦ (none, room)
    | some r ↦
        if leb request_lifetime (now - r.started)
        then (none, record room { history_request = none })
        else send_again now room r
  ]

-- `MAX_SEALED_SNAPSHOT_BYTES` or `MAX_SNAPSHOT_BYTES`
unfoldable pub maximum : Bool → ℕ
maximum sealed = if sealed then max_sealed_snapshot_bytes else max_snapshot_bytes

unfoldable pub is_provider : Bytes → List Bytes → Bool
is_provider from providers = any (λ p. p == from) providers

-- Whether the running request takes the offer; then its provider is noted.
unfoldable pub take_offer : ℕ → Bytes → Bytes → Room → Request → Bool × Room
unfolding is_provider
take_offer now from nonce room r =
    if not (r.nonce == nonce)
      || (leb request_lifetime (now - r.started)
          || (leb 4 (length r.providers) || is_provider from r.providers))
    then (false, room)
    else (
      true,
      record room { history_request = some (record r { providers = from ∷ r.providers }) },
    )

-- The tests of `receive_offer` before it fetches: the offer's recipient, provider, attempt and size, then those
-- of the room. `own` is the node's key, `owner` the id in the provider's address.
unfoldable pub receive_offer :
    ℕ → Bytes → Bytes → Bytes → Bytes → Bytes → Bytes → ℕ → ℕ → Room → Bool × Room
unfolding take_offer
receive_offer now own from owner frame_topic to nonce attempt size room =
    if not (to == own) || (not (owner == from) || (ltb 7 attempt || ltb size snapshot_header))
    then (false, room)
    else if not room.history_enabled || not (room.topic == frame_topic)
    then (false, room)
    else if ltb (maximum room.is_sealed) size
    then (false, room)
    else elim room.history_request [
      | none ↦ (false, room)
      | some r ↦ take_offer now from nonce room r
    ]

-- The tests of `offer` before a snapshot is made for another member.
unfoldable pub may_offer : Bytes → ℕ → Room → Bool
may_offer frame_topic attempt room =
    leb attempt 7 && (room.history_enabled && (not room.has_author && room.topic == frame_topic))
