-- ===== src/RateLimit/Notice.antt =====
-- The notice throttle of ratelimit.rs.
use xivlantern_dalamud.Prelude.{
  ◌<◌, ◌≡◌, true, false, some, List, [], ◌∷◌, arith, bytes_eq, All, ltb,
}
use xivlantern_dalamud.HashMap
use xivlantern_dalamud.HashMap.{HashMap, IsMap}
use xivlantern_dalamud.HashMap.Laws
use xivlantern_dalamud.Event.{PeerId}
use xivlantern_dalamud.RateLimit.{Instant, since, notice_every, forget_old, is_recent, should_warn}

-- Calls of `should_warn`, one after another.
unfoldable pub warn_all : HashMap PeerId Instant → List (PeerId × Instant) → HashMap PeerId Instant
warn_all warned [] = warned
warn_all warned ((peer, now) ∷ calls) = warn_all (should_warn warned peer now).0 calls

-- A call that comes less than `NOTICE_EVERY` after `t`.
abbrev pub IsSoon : Instant → PeerId × Instant → Type 0
IsSoon t call = since call.1 t < notice_every

get-forget_old :
    (warned : HashMap PeerId Instant) (peer : PeerId) (t now : Instant)
    → IsMap warned
    → HashMap.get warned peer ≡ some t
    → since now t < notice_every
    → HashMap.get (forget_old warned now) peer ≡ some t
unfolding forget_old
get-forget_old warned peer t now h found soon =
    ground (arith, Laws.get-retain (λ q u. ltb (since now u) notice_every) warned peer h, found)

forget_old-IsMap :
    (warned : HashMap PeerId Instant) (now : Instant) → IsMap warned → IsMap (forget_old warned now)
unfolding forget_old
forget_old-IsMap warned now h =
    ground (arith, Laws.retain-IsMap (λ q u. ltb (since now u) notice_every) warned h)

should_warn-IsMap :
    (warned : HashMap PeerId Instant) (peer : PeerId) (now : Instant)
    → IsMap warned
    → IsMap (should_warn warned peer now).0
unfolding should_warn
should_warn-IsMap warned peer now h = ground (
  arith,
  forget_old-IsMap warned now h,
  Laws.insert-IsMap (forget_old warned now) peer now (forget_old-IsMap warned now h),
)

-- A peer's last notice stays in the table as long as it counts.
get-should_warn :
    (warned : HashMap PeerId Instant) (peer q : PeerId) (t now : Instant)
    → IsMap warned
    → HashMap.get warned peer ≡ some t
    → since now t < notice_every
    → HashMap.get (should_warn warned q now).0 peer ≡ some t
unfolding should_warn is_recent
get-should_warn warned peer q t now h found soon = ground (
  arith,
  get-forget_old warned peer t now h found soon,
  Laws.get-insert (forget_old warned now) q peer now,
  bytes_eq.equals_iff q peer,
)

-- The last notice of a peer after a call that raised one.
get-should_warn_raised :
    (warned : HashMap PeerId Instant) (peer : PeerId) (t : Instant)
    → (should_warn warned peer t).1 ≡ true
    → HashMap.get (should_warn warned peer t).0 peer ≡ some t
unfolding should_warn
get-should_warn_raised warned peer t raised =
    ground (arith, Laws.get-insert (forget_old warned t) peer peer t, bytes_eq.equals_iff peer peer)

get-warn_all :
    (warned : HashMap PeerId Instant) (peer : PeerId) (t : Instant)
    (calls : List (PeerId × Instant))
    → IsMap warned
    → HashMap.get warned peer ≡ some t
    → All (IsSoon t) calls
    → IsMap (warn_all warned calls) × (HashMap.get (warn_all warned calls) peer ≡ some t)
unfolding warn_all
get-warn_all warned peer t [] h found soon = (h, found)
get-warn_all warned peer t ((q, now) ∷ calls) h found soon =
    get-warn_all (should_warn warned q now).0 peer t calls (should_warn-IsMap warned q now h)
      (get-should_warn warned peer q t now h found soon.0) soon.1

quiet_while_recent :
    (warned : HashMap PeerId Instant) (peer : PeerId) (t now : Instant)
    → IsMap warned
    → HashMap.get warned peer ≡ some t
    → since now t < notice_every
    → (should_warn warned peer now).1 ≡ false
unfolding should_warn is_recent
quiet_while_recent warned peer t now h found soon =
    ground (arith, get-forget_old warned peer t now h found soon)

-- In a table that has each peer once: once a notice about a peer is raised at `t`, none about that peer is raised before `NOTICE_EVERY` has
-- passed, whatever calls about any peers come in between.
pub should_warn_throttled :
    (warned : HashMap PeerId Instant) (peer : PeerId) (t now : Instant)
    (calls : List (PeerId × Instant))
    → IsMap warned
    → (should_warn warned peer t).1 ≡ true
    → All (IsSoon t) calls
    → since now t < notice_every
    → (should_warn (warn_all (should_warn warned peer t).0 calls) peer now).1 ≡ false
should_warn_throttled warned peer t now calls h raised soon soon' =
    let (h', found) =
      get-warn_all (should_warn warned peer t).0 peer t calls (should_warn-IsMap warned peer t h)
        (get-should_warn_raised warned peer t raised) soon in
    quiet_while_recent (warn_all (should_warn warned peer t).0 calls) peer t now h' found soon'
