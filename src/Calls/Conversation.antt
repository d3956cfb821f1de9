-- ===== src/Calls/Conversation.antt =====
-- A whole call of node/calls.rs, from the ring to the end, on the two nodes that take part.
use xivlantern_dalamud.Prelude.{
  ℕ, ◌≡◌, ◌≢◌, refl, ap, ◌∙◌, Bool, true, false, Option, none, some, List, [], ◌∷◌, ◌++◌, arith,
  nat_eq, bytes_eq,
}
use xivlantern_dalamud.Bytes.{Bytes}
use xivlantern_dalamud.HashMap
use xivlantern_dalamud.HashMap.Laws
use xivlantern_dalamud.Error.{Result, ok, err}
use xivlantern_dalamud.Event.{PeerId, call_incoming, call_answered, call_ended}
use xivlantern_dalamud.EventQueue.{emit}
use xivlantern_dalamud.EventQueue.Emit.{emit_all}
use xivlantern_dalamud.Calls.{
  Wire, call_ring, call_answer, call_hangup, Shared, emit_event, check_open, send_call, draw_call,
  result_of, can_ring, start_call, ring, call_peer, answer, report_end, hangup, is_with, on_frame,
}

-- The node is open and its runtime takes commands.
abbrev pub IsOpen : Shared → Type 0
IsOpen sh = (sh.closed ≡ false) × (sh.runtime_gone ≡ false)

can_ring_sound :
    (is_node_id : Bytes → Bool) (sh : Shared) (peer : PeerId)
    → can_ring is_node_id sh peer ≡ ok tt
    → (sh.closed ≡ false)
      × (is_node_id peer ≡ true)
      × (HashMap.contains_key sh.friends peer ≡ true)
      × (HashMap.contains_key sh.links peer ≡ true)
unfolding can_ring check_open
can_ring_sound is_node_id sh peer allowed = ground arith

draw_call_sound : (draws : List ℕ) (call : ℕ) → draw_call draws ≡ some call → call ≢ 0
unfolding draw_call
draw_call_sound [] call drawn = absurd (cc)
draw_call_sound (c ∷ draws) call drawn = ground (arith, draw_call_sound draws call)

start_call_sound :
    (media_of : PeerId → ℕ → Bytes) (sh sh' : Shared) (peer : PeerId) (call c : ℕ)
    → start_call media_of sh peer c ≡ (sh', ok call)
    → (sh.runtime_gone ≡ false)
      × (call ≡ c)
      × (sh'.calls ≡ HashMap.insert sh.calls c peer)
      × (sh'.commands ≡ sh.commands ++ (peer, call_ring c (media_of sh.node_id c)) ∷ [])
      × (sh'.events ≡ sh.events)
unfolding start_call send_call result_of
start_call_sound media_of sh sh' peer call c started = ground arith

-- A ring that goes out registers the call, under an id that is not zero, with a friend whose link is
-- up, sends one frame and reports nothing.
pub ring_sound :
    (is_node_id : Bytes → Bool) (media_of : PeerId → ℕ → Bytes) (sh sh' : Shared) (peer : PeerId)
    (draws : List ℕ) (call : ℕ)
    → ring is_node_id media_of sh peer draws ≡ some (sh', ok call)
    → IsOpen sh
      × (HashMap.contains_key sh.friends peer ≡ true)
      × (HashMap.contains_key sh.links peer ≡ true)
      × (call ≢ 0)
      × (HashMap.get sh'.calls call ≡ some peer)
      × (sh'.commands ≡ sh.commands ++ (peer, call_ring call (media_of sh.node_id call)) ∷ [])
      × (sh'.events ≡ sh.events)
unfolding ring
ring_sound is_node_id media_of sh sh' peer draws call rung =
    by_conditions (can_ring is_node_id sh peer) refl (draw_call draws) refl rung
  where
    by_conditions :
        (allowed : Result (Unit {0}))
        → can_ring is_node_id sh peer ≡ allowed
        → (drawn : Option ℕ) → draw_call draws ≡ drawn
        → (elim allowed as (λ k. Option (Shared × Result ℕ)) [
          | err e ↦ some (sh, err e)
          | ok _ ↦ elim drawn as (λ k. Option (Shared × Result ℕ)) [
            | none ↦ none
            | some c ↦ some (start_call media_of sh peer c)
          ]
        ])
          ≡ some (sh', ok call)
        → IsOpen sh
          × (HashMap.contains_key sh.friends peer ≡ true)
          × (HashMap.contains_key sh.links peer ≡ true)
          × (call ≢ 0)
          × (HashMap.get sh'.calls call ≡ some peer)
          × (sh'.commands ≡ sh.commands ++ (peer, call_ring call (media_of sh.node_id call)) ∷ [])
          × (sh'.events ≡ sh.events)
    by_conditions (err e) a drawn d r = absurd (cc)
    by_conditions (ok u) a none d r = absurd (cc)
    by_conditions (ok u) a (some c) d r =
        let conditions = can_ring_sound is_node_id sh peer a in
        let effects = start_call_sound media_of sh sh' peer call c (cc) in
        let drawn = draw_call_sound draws c d in
        ground (arith, Laws.get-insert sh.calls c call peer)

-- What the caller does once the call rings: the other side's answer comes, and it hangs up.
unfoldable pub caller_side : Shared → PeerId → ℕ → Shared × Result (Unit {0})
caller_side sh peer call = hangup (on_frame sh peer (call_answer call true)) call

-- What the callee does: the ring comes, it accepts, and the hangup comes.
unfoldable pub callee_side : Shared → PeerId → ℕ → Bytes → Shared
callee_side sh peer call media =
    on_frame (answer (on_frame sh peer (call_ring call media)) call true).0 peer (call_hangup call)

send_lem :
    (sh : Shared) (peer : PeerId) (wire : Wire)
    → IsOpen sh
    → send_call sh peer wire ≡ (record sh { commands = sh.commands ++ (peer, wire) ∷ [] }, ok tt)
unfolding send_call
send_lem sh peer wire up = rw (up.0, send_call) (rw (up.1, send_call) refl)

call_peer_lem :
    (sh : Shared) (peer : PeerId) (call : ℕ)
    → sh.closed ≡ false
    → HashMap.get sh.calls call ≡ some peer
    → call_peer sh call ≡ ok peer
unfolding call_peer check_open
call_peer_lem sh peer call up there = rw (up, call_peer) (rw (there, call_peer) refl)

is_with_lem :
    (sh : Shared) (peer : PeerId) (call : ℕ)
    → HashMap.get sh.calls call ≡ some peer
    → is_with sh peer call ≡ true
unfolding is_with
is_with_lem sh peer call there = rw (there, is_with) ((bytes_eq.equals_iff peer peer).1 refl)

hangup_lem :
    (sh : Shared) (peer : PeerId) (call : ℕ)
    → IsOpen sh
    → HashMap.get sh.calls call ≡ some peer
    → hangup sh call ≡ (
      record sh {
        calls = HashMap.remove sh.calls call;
        commands = sh.commands ++ (peer, call_hangup call) ∷ [];
        events = emit sh.events (call_ended peer call);
      },
      ok tt,
    )
unfolding hangup emit_event report_end
hangup_lem sh peer call up there =
    rw (call_peer_lem sh peer call (up.0) there, hangup)
      (ap (report_end peer call)
        (send_lem (record sh { calls = HashMap.remove sh.calls call }) peer (call_hangup call) up))

answer_lem :
    (sh : Shared) (peer : PeerId) (call : ℕ)
    → IsOpen sh
    → HashMap.get sh.calls call ≡ some peer
    → answer sh call true
      ≡ (record sh { commands = sh.commands ++ (peer, call_answer call true) ∷ [] }, ok tt)
unfolding answer
answer_lem sh peer call up there =
    rw (call_peer_lem sh peer call (up.0) there, answer)
      (send_lem sh peer (call_answer call true) up)

-- On the caller's node, while it is open, a call that rings is answered and hung up: the call is gone, nothing else
-- about the calls changes, one frame is sent, and the answer and the end are reported in order.
pub caller_side_lem :
    (sh : Shared) (peer : PeerId) (call : ℕ)
    → IsOpen sh
    → HashMap.get sh.calls call ≡ some peer
    → caller_side sh peer call ≡ (
      record sh {
        calls = HashMap.remove sh.calls call;
        commands = sh.commands ++ (peer, call_hangup call) ∷ [];
        events = emit_all sh.events (call_answered peer call true ∷ call_ended peer call ∷ []);
      },
      ok tt,
    )
unfolding caller_side on_frame emit_event emit_all
caller_side_lem sh peer call up there =
    rw (is_with_lem sh peer call there, on_frame)
      (hangup_lem (record sh { events = emit sh.events (call_answered peer call true) }) peer call
        up there)

ring_frame_lem :
    (sh : Shared) (peer : PeerId) (call : ℕ) (media : Bytes)
    → HashMap.get sh.calls call ≡ none
    → on_frame sh peer (call_ring call media) ≡ record sh {
      calls = HashMap.insert sh.calls call peer;
      events = emit sh.events (call_incoming peer call media);
    }
unfolding on_frame emit_event
ring_frame_lem sh peer call media new =
    rw (Laws.contains_key-get sh.calls call, on_frame) (rw (new, on_frame) refl)

hangup_frame_lem :
    (sh : Shared) (peer : PeerId) (call : ℕ)
    → HashMap.get sh.calls call ≡ some peer
    → on_frame sh peer (call_hangup call) ≡ record sh {
      calls = HashMap.remove sh.calls call;
      events = emit sh.events (call_ended peer call);
    }
unfolding on_frame emit_event
hangup_frame_lem sh peer call there = rw (is_with_lem sh peer call there, on_frame) refl

-- On the callee's node, while it is open, a ring with an id that is not in use is accepted and then hung up: the table
-- of calls is as before, one frame is sent, and the ring and the end are reported in order.
pub callee_side_lem :
    (sh : Shared) (peer : PeerId) (call : ℕ) (media : Bytes)
    → IsOpen sh
    → HashMap.get sh.calls call ≡ none
    → callee_side sh peer call media ≡ record sh {
      commands = sh.commands ++ (peer, call_answer call true) ∷ [];
      events = emit_all sh.events (call_incoming peer call media ∷ call_ended peer call ∷ []);
    }
unfolding callee_side on_frame emit_event emit_all
callee_side_lem sh peer call media up new =
    let rings : Shared = record sh {
      calls = HashMap.insert sh.calls call peer;
      events = emit sh.events (call_incoming peer call media);
    } in
    let talks : Shared = record rings {
      commands = sh.commands ++ (peer, call_answer call true) ∷ [];
    } in
    let there : HashMap.get rings.calls call ≡ some peer =
      ground (arith, Laws.get-insert sh.calls call call peer) in
    ap (λ s. on_frame (answer s call true).0 peer (call_hangup call))
      (ring_frame_lem sh peer call media new)
    ∙ ap (λ r. on_frame r.0 peer (call_hangup call)) (answer_lem rings peer call up there)
    ∙ hangup_frame_lem talks peer call there
    ∙ ap
        (λ calls. record sh {
          calls = calls;
          commands = sh.commands ++ (peer, call_answer call true) ∷ [];
          events = emit_all sh.events (call_incoming peer call media ∷ call_ended peer call ∷ []);
        })
        (Laws.remove-insert sh.calls call peer new)
