-- ===== src/Calls/Frames.antt =====
-- What the frames of a friend, and the end of a link, can do to the calls of node/calls.rs.
use xivlantern_dalamud.Prelude.{
  ℕ, ◌≡◌, refl, Bool, true, false, Option, none, some, List, [], ◌∷◌, arith, map, ◌==◌, inl, inr,
  nat_eq, bytes_eq, if◌then◌else◌, any, Option-cases, Bool-cases, ◌∙◌, ap,
}
use xivlantern_dalamud.HashMap
use xivlantern_dalamud.HashMap.{HashMap, IsMap}
use xivlantern_dalamud.HashMap.Laws
use xivlantern_dalamud.Event.{PeerId, call_incoming, call_answered, call_ended}
use xivlantern_dalamud.EventQueue.{EventQueue, emit}
use xivlantern_dalamud.EventQueue.Emit.{emit_all}
use xivlantern_dalamud.Calls.{
  Wire, call_ring, call_answer, call_hangup, other, Shared, emit_event, is_with, on_frame,
  calls_with, remove_all, emit_ended, link_lost,
}

-- The call that a frame is about.
unfoldable pub call_of : Wire → Option ℕ
call_of (call_ring call media) = some call
call_of (call_answer call accept) = some call
call_of (call_hangup call) = some call
call_of other = none

is_with_other :
    (sh : Shared) (peer q : PeerId) (call : ℕ)
    → HashMap.get sh.calls call ≡ some q
    → (q == peer) ≡ false
    → is_with sh peer call ≡ false
unfolding is_with
is_with_other sh peer q call found differs = ground arith

-- While a call is with one friend, no frame of another changes it: it stays with that friend, and a
-- frame about it changes nothing at all.
pub on_frame_isolated :
    (sh : Shared) (peer q : PeerId) (call : ℕ) (wire : Wire)
    → HashMap.get sh.calls call ≡ some q
    → (q == peer) ≡ false
    → (HashMap.get (on_frame sh peer wire).calls call ≡ some q)
      × (call_of wire ≡ some call → on_frame sh peer wire ≡ sh)
unfolding on_frame call_of emit_event
on_frame_isolated sh peer q call (call_ring c media) found differs = (
  ground (arith, Laws.contains_key-get sh.calls c, Laws.get-insert sh.calls c call peer),
  λ about. ground (arith, Laws.contains_key-get sh.calls c),
)
on_frame_isolated sh peer q call (call_answer c accept) found differs = (
  ground (arith, Laws.get-remove sh.calls c call, is_with_other sh peer q call),
  λ about. ground (arith, is_with_other sh peer q call),
)
on_frame_isolated sh peer q call (call_hangup c) found differs = (
  ground (arith, Laws.get-remove sh.calls c call, is_with_other sh peer q call),
  λ about. ground (arith, is_with_other sh peer q call),
)
on_frame_isolated sh peer q call other found differs = (found, λ about. refl)

-- What a frame of a friend may make the node report, by the state it finds: nothing, a new call of
-- that friend, or an answer or an end of a call that is with that friend.
pub data Report (sh : Shared) (peer : PeerId) : EventQueue → Type 0 where
  silent : Report sh peer sh.events
  incoming :
      (call : ℕ) (media : _)
      → HashMap.get sh.calls call ≡ none
      → Report sh peer (emit sh.events (call_incoming peer call media))
  answered :
      (call : ℕ) (accepted : Bool)
      → HashMap.get sh.calls call ≡ some peer
      → Report sh peer (emit sh.events (call_answered peer call accepted))
  over :
      (call : ℕ)
      → HashMap.get sh.calls call ≡ some peer
      → Report sh peer (emit sh.events (call_ended peer call))

is_with_iff :
    (sh : Shared) (peer : PeerId) (call : ℕ)
    → is_with sh peer call ≡ true
    → HashMap.get sh.calls call ≡ some peer
unfolding is_with
is_with_iff sh peer call h = by_lookup (HashMap.get sh.calls call) refl h
  where
    by_lookup :
        (found : Option PeerId)
        → HashMap.get sh.calls call ≡ found
        → (elim found [ none ↦ false | some q ↦ q == peer ]) ≡ true
        → HashMap.get sh.calls call ≡ some peer
    by_lookup none e t = absurd (cc)
    by_lookup (some q) e t = e ∙ ap some ((bytes_eq.equals_iff q peer).0 t)

-- Every frame of a friend leads to one of these reports.
pub on_frame-Report :
    (sh : Shared) (peer : PeerId) (wire : Wire) → Report sh peer (on_frame sh peer wire).events
unfolding on_frame emit_event
on_frame-Report sh peer (call_ring c media) = elim (Option-cases (HashMap.get sh.calls c)) [
  | inl new ↦
      rw (Laws.contains_key-get sh.calls c, on_frame) (rw (new, on_frame) (incoming c media new))
  | inr (q, taken) ↦ rw (Laws.contains_key-get sh.calls c, on_frame) (rw (taken, on_frame) silent)
]
on_frame-Report sh peer (call_answer c accept) = elim (Bool-cases (is_with sh peer c)) [
  | inl mine ↦ rw (mine, on_frame) (answered c accept (is_with_iff sh peer c mine))
  | inr not_mine ↦ rw (not_mine, on_frame) silent
]
on_frame-Report sh peer (call_hangup c) = elim (Bool-cases (is_with sh peer c)) [
  | inl mine ↦ rw (mine, on_frame) (over c (is_with_iff sh peer c mine))
  | inr not_mine ↦ rw (not_mine, on_frame) silent
]
on_frame-Report sh peer other = silent

unfoldable pub contains : List ℕ → ℕ → Bool
contains xs c = any (nat_eq.equals c) xs

get-remove_all :
    (calls : HashMap ℕ PeerId) (ended : List ℕ) (c : ℕ)
    → HashMap.get (remove_all calls ended) c
      ≡ (if contains ended c then none else HashMap.get calls c)
unfolding remove_all contains any
get-remove_all calls [] c = refl
get-remove_all calls (d ∷ ended) c =
    ground (arith, get-remove_all (HashMap.remove calls d) ended c, Laws.get-remove calls d c)

contains-calls_with :
    (calls : HashMap ℕ PeerId) (peer : PeerId) (c : ℕ)
    → IsMap calls
    → contains (calls_with calls peer) c
      ≡ (elim (HashMap.get calls c) [ none ↦ false | some q ↦ q == peer ])
unfolding contains any calls_with HashMap.get
contains-calls_with [] peer c h = refl
contains-calls_with ((d, p) ∷ calls) peer c h = ground (arith, contains-calls_with calls peer c h.1)

events-emit_ended :
    (sh : Shared) (peer : PeerId) (ended : List ℕ)
    → (emit_ended sh peer ended).events ≡ emit_all sh.events (map (call_ended peer) ended)
unfolding emit_ended emit_all emit_event
events-emit_ended sh peer [] = refl
events-emit_ended sh peer (c ∷ ended) =
    events-emit_ended (emit_event sh (call_ended peer c)) peer ended

calls-emit_ended :
    (sh : Shared) (peer : PeerId) (ended : List ℕ) → (emit_ended sh peer ended).calls ≡ sh.calls
unfolding emit_ended emit_event
calls-emit_ended sh peer [] = refl
calls-emit_ended sh peer (c ∷ ended) =
    calls-emit_ended (emit_event sh (call_ended peer c)) peer ended

-- When the table has each call once and the link to a friend is lost, exactly the calls with that friend are over, every other call
-- stays, and an end is reported for each call of that friend and for no other.
pub link_lost_lem :
    (sh : Shared) (peer : PeerId)
    → IsMap sh.calls
    → ((call : ℕ)
        → HashMap.get (link_lost sh peer).calls call
          ≡ (if is_with sh peer call then none else HashMap.get sh.calls call))
      × ((call : ℕ) → contains (calls_with sh.calls peer) call ≡ is_with sh peer call)
      × ((link_lost sh peer).events
          ≡ emit_all sh.events (map (call_ended peer) (calls_with sh.calls peer)))
unfolding link_lost is_with
link_lost_lem sh peer h =
    let ended = calls_with sh.calls peer in
    let sh' : Shared = record sh { calls = remove_all sh.calls ended } in
    (
      λ call.
          ap (λ calls. HashMap.get calls call) (calls-emit_ended sh' peer ended)
          ∙ get-remove_all sh.calls ended call
          ∙ ap (λ b. if b then none else HashMap.get sh.calls call)
              (contains-calls_with sh.calls peer call h),
      λ call. contains-calls_with sh.calls peer call h,
      events-emit_ended sh' peer ended,
    )
