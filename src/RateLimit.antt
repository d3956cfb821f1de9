-- ===== src/RateLimit.antt =====
-- crates/lantern-core/src/ratelimit.rs: a token bucket for each peer, and the notice throttle.
pub mod Tracking
pub mod Burst
pub mod Notice
mod Tests
use xivlantern_dalamud.Prelude.{
  ℕ, ◌-◌, ◌*◌, ◌^◌, Bool, true, false, not, ◌&&◌, Option, none, some, List, [], ◌∷◌, length, leb,
  ltb, bytes_eq, if◌then◌else◌,
}
use xivlantern_dalamud.HashMap
use xivlantern_dalamud.HashMap.{HashMap}
use xivlantern_dalamud.Event.{PeerId}
use mathlib.Core.Option.{get_or}

-- The operations of `f64` that the limiter uses; `secs` is `as_secs_f64` of a duration in
-- nanoseconds.
pub record Floats : Type 1 where
  pub F64 : Type 0
  pub one : F64
  pub add : F64 → F64 → F64
  pub sub : F64 → F64 → F64
  pub mul : F64 → F64 → F64
  pub min : F64 → F64 → F64
  pub max : F64 → F64 → F64
  pub lt : F64 → F64 → Bool
  pub ge : F64 → F64 → Bool
  pub secs : ℕ → F64

-- An `Instant` is a number of nanoseconds.
abbrev pub Instant : Type 0
Instant = ℕ

-- `saturating_duration_since`
abbrev pub since : Instant → Instant → ℕ
since now earlier = now - earlier

abbrev pub max_tracked : ℕ
max_tracked = 4096

-- Thirty seconds.
abbrev pub notice_every : ℕ
notice_every = 30 * 10 ^ 9

pub record Bucket (f : Floats) : Type 0 where
  pub tokens : f.F64
  pub last : Instant

pub record Limiter (f : Floats) : Type 0 where
  pub rate : f.F64
  pub burst : f.F64
  pub buckets : HashMap PeerId (Bucket f)

module _ (f : Floats) where
  unfoldable pub new : f.F64 → f.F64 → Limiter f
  new rate_per_sec burst = record { rate = rate_per_sec; burst = f.max burst f.one; buckets = [] }

  -- The tokens of a bucket that has refilled until `now`, before the cap.
  unfoldable pub refilled : f.F64 → Bucket f → Instant → f.F64
  refilled rate b now = f.add b.tokens (f.mul (f.secs (since now b.last)) rate)

  -- `keys().next()`, and its removal if the table is still full.
  unfoldable pub forget_one : HashMap PeerId (Bucket f) → HashMap PeerId (Bucket f)
  forget_one [] = []
  forget_one ((peer, b) ∷ buckets) =
      let all = (peer, b) ∷ buckets in
      if leb max_tracked (length all) then HashMap.remove all peer else all

  unfoldable pub forget_full : Limiter f → Instant → Limiter f
  unfolding refilled forget_one
  forget_full l now =
      let busy = HashMap.retain (λ peer b. f.lt (refilled l.rate b now) l.burst) l.buckets in
      record l { buckets = forget_one busy }

  -- A bucket that is refilled, up to the burst, and whether it has a token to spend.
  unfoldable pub spend : f.F64 → f.F64 → Bucket f → Instant → Bucket f × Bool
  unfolding refilled
  spend rate burst b now =
      let tokens = f.min (refilled rate b now) burst in
      let allowed = f.ge tokens f.one in
      (record { tokens = if allowed then f.sub tokens f.one else tokens; last = now }, allowed)

  unfoldable pub make_room : Limiter f → PeerId → Instant → Limiter f
  make_room l peer now =
      if leb max_tracked (length l.buckets) && not (HashMap.contains_key l.buckets peer)
      then forget_full l now
      else l

  -- `entry(*peer).or_insert(..)`: a peer that is new starts with a full bucket.
  unfoldable pub bucket_of : Limiter f → PeerId → Instant → Bucket f
  bucket_of l peer now =
      get_or (HashMap.get l.buckets peer) (record { tokens = l.burst; last = now })

  unfoldable pub spend_from : Limiter f → PeerId → Instant → Limiter f × Bool
  spend_from l peer now =
      let (b, allowed) = spend l.rate l.burst (bucket_of l peer now) now in
      (record l { buckets = HashMap.insert l.buckets peer b }, allowed)

  unfoldable pub allow : Limiter f → PeerId → Instant → Limiter f × Bool
  unfolding spend_from
  allow l peer now = spend_from (make_room l peer now) peer now

  unfoldable pub tracked : Limiter f → ℕ
  tracked l = length l.buckets

-- The table `warned` of `Limits`, which is all that `should_warn` uses of it.
unfoldable pub forget_old : HashMap PeerId Instant → Instant → HashMap PeerId Instant
forget_old warned now =
    if leb max_tracked (length warned)
    then HashMap.retain (λ peer t. ltb (since now t) notice_every) warned
    else warned

-- Whether the peer was warned within `NOTICE_EVERY`.
unfoldable pub is_recent : Option Instant → Instant → Bool
is_recent none now = false
is_recent (some t) now = ltb (since now t) notice_every

unfoldable pub should_warn :
    HashMap PeerId Instant → PeerId → Instant → HashMap PeerId Instant × Bool
unfolding is_recent forget_old
should_warn warned peer now =
    let warned' = forget_old warned now in
    if is_recent (HashMap.get warned' peer) now
    then (warned', false)
    else (HashMap.insert warned' peer now, true)
