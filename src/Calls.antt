-- ===== src/Calls.antt =====
-- crates/lantern-core/src/node/calls.rs: call signalling over friend links.
pub mod Frames
pub mod Conversation
mod Tests
use Prim.Native.String.{String}
use xivlantern_dalamud.Prelude.{
  ℕ, suc, Bool, true, false, not, Option, none, some, List, [], ◌∷◌, ◌++◌, ◌==◌, nat_eq, bytes_eq,
  if◌then◌else◌, ◌||◌, PartialEq,
}
use xivlantern_dalamud.Bytes.{Bytes}
use xivlantern_dalamud.HashMap
use xivlantern_dalamud.HashMap.{HashMap}
use xivlantern_dalamud.Error.{
  Error, arg, state, not_found, Result, ok, err, ◌>>=◌, ◌>>◌, fail_if, ok_or,
}
use xivlantern_dalamud.Event.{Event, PeerId, call_incoming, call_answered, call_ended}
use xivlantern_dalamud.EventQueue.{EventQueue, emit}

-- The call frames of `friends::Wire`; every other frame is `other`.
pub data Wire : Type 0 where
  call_ring : ℕ → Bytes → Wire
  call_answer : ℕ → Bool → Wire
  call_hangup : ℕ → Wire
  other : Wire

-- The fields of `Shared` and `Node` that calls touch. `commands` is what the node has handed to its
-- runtime, oldest first: `FriendCmd::Send` to a peer. `runtime_gone` is a closed command channel.
pub record Shared : Type 0 where
  pub node_id : PeerId
  pub closed : Bool
  pub runtime_gone : Bool
  pub friends : HashMap PeerId (Unit {0})
  pub links : HashMap PeerId (Unit {0})
  pub calls : HashMap ℕ PeerId
  pub commands : List (PeerId × Wire)
  pub events : EventQueue

unfoldable pub emit_event : Shared → Event → Shared
emit_event sh event = record sh { events = emit sh.events event }

unfoldable pub check_open : Shared → Result (Unit {0})
check_open sh = fail_if sh.closed (state "node is closed")

-- `Node::push`, and `send_call` on top of it.
unfoldable pub send_call : Shared → PeerId → Wire → Shared × Result (Unit {0})
send_call sh peer wire =
    if sh.closed || sh.runtime_gone
    then (sh, err (state "node is closed"))
    else (record sh { commands = sh.commands ++ (peer, wire) ∷ [] }, ok tt)

-- The loop that draws a call id: the draws of the operating system's source, up to the first that is
-- not zero. `none` when these draws are used up and the loop still runs.
unfoldable pub draw_call : List ℕ → Option ℕ
draw_call [] = none
draw_call (c ∷ draws) = if c == 0 then draw_call draws else some c

unfoldable pub result_of {ℓ ℓ'} :
    {S : Type ℓ} {T : Type ℓ'} → S × Result (Unit {0}) → T → S × Result T
result_of (sh, err e) value = (sh, err e)
result_of (sh, ok _) value = (sh, ok value)

-- The conditions of `call_ring`, in order. `is_node_id` is iroh's test of 32 bytes as a public key.
unfoldable pub can_ring : (is_node_id : Bytes → Bool) → Shared → PeerId → Result (Unit {0})
unfolding check_open
can_ring is_node_id sh peer =
    check_open sh
    >> (fail_if (not (is_node_id peer)) (arg "not a node id")
        >> (fail_if (not (HashMap.contains_key sh.friends peer)) not_found
            >> fail_if (not (HashMap.contains_key sh.links peer))
                (state "that friend is not connected")))

-- `media_of` is the text of the media address, which has no other use than to be sent.
unfoldable pub start_call :
    (media_of : PeerId → ℕ → Bytes) → Shared → PeerId → ℕ → Shared × Result ℕ
unfolding send_call result_of
start_call media_of sh peer call =
    result_of
      (send_call (record sh { calls = HashMap.insert sh.calls call peer }) peer
        (call_ring call (media_of sh.node_id call)))
      call

unfoldable pub ring :
    (is_node_id : Bytes → Bool)
    → (media_of : PeerId → ℕ → Bytes) → Shared
    → PeerId
    → List ℕ
    → Option (Shared × Result ℕ)
ring is_node_id media_of sh peer draws = elim (can_ring is_node_id sh peer) [
  | err e ↦ some (sh, err e)
  | ok _ ↦ elim (draw_call draws) [
    | none ↦ none
    | some call ↦ some (start_call media_of sh peer call)
  ]
]

unfoldable pub call_peer : Shared → ℕ → Result PeerId
unfolding check_open
call_peer sh call = check_open sh >> ok_or (HashMap.get sh.calls call) not_found

unfoldable pub answer : Shared → ℕ → Bool → Shared × Result (Unit {0})
unfolding send_call
answer sh call accept = elim (call_peer sh call) [
  | err e ↦ (sh, err e)
  | ok peer ↦
      let calls = if accept then sh.calls else HashMap.remove sh.calls call in
      send_call (record sh { calls = calls }) peer (call_answer call accept)
]

-- The last part of `call_hangup`: the end is reported if the frame could be handed on.
unfoldable pub report_end : PeerId → ℕ → Shared × Result (Unit {0}) → Shared × Result (Unit {0})
report_end peer call (sent, err e) = (sent, err e)
report_end peer call (sent, ok _) = (emit_event sent (call_ended peer call), ok tt)

unfoldable pub hangup : Shared → ℕ → Shared × Result (Unit {0})
unfolding report_end
hangup sh call = elim (call_peer sh call) [
  | err e ↦ (sh, err e)
  | ok peer ↦
      let sh' = record sh { calls = HashMap.remove sh.calls call } in
      report_end peer call (send_call sh' peer (call_hangup call))
]

-- `calls.get(&call) != Some(&peer)`
unfoldable pub is_with : Shared → PeerId → ℕ → Bool
is_with sh peer call = elim (HashMap.get sh.calls call) [ none ↦ false | some q ↦ q == peer ]

unfoldable pub on_frame : Shared → PeerId → Wire → Shared
on_frame sh peer (call_ring call media) =
    if HashMap.contains_key sh.calls call
    then sh
    else emit_event (record sh { calls = HashMap.insert sh.calls call peer })
        (call_incoming peer call media)
on_frame sh peer (call_answer call accept) =
    if not (is_with sh peer call)
    then sh
    else let calls = if accept then sh.calls else HashMap.remove sh.calls call in
      emit_event (record sh { calls = calls }) (call_answered peer call accept)
on_frame sh peer (call_hangup call) =
    if not (is_with sh peer call)
    then sh
    else emit_event (record sh { calls = HashMap.remove sh.calls call }) (call_ended peer call)
on_frame sh peer other = sh

-- The ids of the calls with a peer, in the table's order.
unfoldable pub calls_with : HashMap ℕ PeerId → PeerId → List ℕ
calls_with [] peer = []
calls_with ((call, p) ∷ calls) peer =
    let rest = calls_with calls peer in if p == peer then call ∷ rest else rest

unfoldable pub remove_all : HashMap ℕ PeerId → List ℕ → HashMap ℕ PeerId
remove_all calls [] = calls
remove_all calls (c ∷ ended) = remove_all (HashMap.remove calls c) ended

unfoldable pub emit_ended : Shared → PeerId → List ℕ → Shared
unfolding emit_event
emit_ended sh peer [] = sh
emit_ended sh peer (call ∷ ended) = emit_ended (emit_event sh (call_ended peer call)) peer ended

unfoldable pub link_lost : Shared → PeerId → Shared
link_lost sh peer =
    let ended = calls_with sh.calls peer in
    emit_ended (record sh { calls = remove_all sh.calls ended }) peer ended
