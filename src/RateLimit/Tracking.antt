-- ===== src/RateLimit/Tracking.antt =====
-- How many peers ratelimit.rs keeps track of, and what one peer's traffic does to the others.
use mathlib.Core.Option.{get_or}
use xivlantern_dalamud.Prelude.{
  suc, ◌≤◌, ◌<◌, ◌+◌, ◌≡◌, sym, ap, ◌∙◌, true, false, List, [], ◌∷◌, arith, length, bytes_eq, ◌==◌,
  if◌then◌else◌, ◌⊎◌,
}
use xivlantern_dalamud.HashMap
use xivlantern_dalamud.HashMap.{HashMap, IsMap}
use xivlantern_dalamud.HashMap.Laws
use xivlantern_dalamud.Event.{PeerId}
use xivlantern_dalamud.RateLimit.{
  Floats, Instant, max_tracked, Bucket, Limiter, new, forget_one, forget_full, refilled, spend,
  bucket_of, spend_from, make_room, allow, tracked,
}

module _ (f : Floats) where
  -- Calls of `allow`, one after another.
  unfoldable pub allow_all : Limiter f → List (PeerId × Instant) → Limiter f
  allow_all l [] = l
  allow_all l ((peer, now) ∷ calls) = allow_all (allow f l peer now).0 calls

  length-forget_one :
      (buckets : HashMap PeerId (Bucket f))
      → length buckets ≤ max_tracked
      → length (forget_one f buckets) < max_tracked
  unfolding forget_one HashMap.remove
  length-forget_one [] h = omega arith
  length-forget_one ((peer, b) ∷ buckets) h =
      ground (arith, bytes_eq.equals_iff peer peer, Laws.length-remove buckets peer)

  length-forget_full :
      (l : Limiter f) (now : Instant)
      → length l.buckets ≤ max_tracked
      → length (forget_full f l now).buckets < max_tracked
  unfolding forget_full
  length-forget_full l now h =
      let busy = HashMap.retain (λ peer b. f.lt (refilled f l.rate b now) l.burst) l.buckets in
      length-forget_one busy (
        omega (
          arith,
          h,
          Laws.length-retain (λ peer b. f.lt (refilled f l.rate b now) l.burst) l.buckets,
        ))

  length-make_room :
      (l : Limiter f) (peer : PeerId) (now : Instant)
      → length l.buckets ≤ max_tracked
      → (length (make_room f l peer now).buckets < max_tracked)
        ⊎ ((HashMap.contains_key (make_room f l peer now).buckets peer ≡ true)
            × (length (make_room f l peer now).buckets ≤ max_tracked))
  unfolding make_room
  length-make_room l peer now h = ground (arith, length-forget_full l now h)

  length-spend_from :
      (l : Limiter f) (peer : PeerId) (now : Instant)
      → length (spend_from f l peer now).0.buckets
        ≡ (if HashMap.contains_key l.buckets peer then length l.buckets else suc (length l.buckets))
  unfolding spend_from
  length-spend_from l peer now =
      Laws.length-insert l.buckets peer (spend f l.rate l.burst (bucket_of f l peer now) now).0

  tracked-allow :
      (l : Limiter f) (peer : PeerId) (now : Instant)
      → tracked f l ≤ max_tracked
      → tracked f (allow f l peer now).0 ≤ max_tracked
  unfolding tracked allow
  tracked-allow l peer now h =
      ground
        (arith, length-make_room l peer now h, length-spend_from (make_room f l peer now) peer now)

  tracked-allow_all :
      (l : Limiter f) (calls : List (PeerId × Instant))
      → tracked f l ≤ max_tracked
      → tracked f (allow_all l calls) ≤ max_tracked
  unfolding allow_all
  tracked-allow_all l [] h = h
  tracked-allow_all l ((peer, now) ∷ calls) h =
      tracked-allow_all (allow f l peer now).0 calls (tracked-allow l peer now h)

  -- However many peers a new limiter is asked about, and whatever the arithmetic of floats gives, it
  -- keeps track of at most `MAX_TRACKED`.
  pub tracked-new :
      (rate burst : f.F64) (calls : List (PeerId × Instant))
      → tracked f (allow_all (new f rate burst) calls) ≤ max_tracked
  unfolding new tracked
  tracked-new rate burst calls = tracked-allow_all (new f rate burst) calls (omega arith)

  make_room_kept :
      (l : Limiter f) (peer : PeerId) (now : Instant)
      → length l.buckets < max_tracked
      → make_room f l peer now ≡ l
  unfolding make_room
  make_room_kept l peer now h = ground arith

  get-spend_from :
      (l : Limiter f) (peer q : PeerId) (now : Instant)
      → (peer == q) ≡ false
      → HashMap.get (spend_from f l peer now).0.buckets q ≡ HashMap.get l.buckets q
  unfolding spend_from
  get-spend_from l peer q now differs = ground (
    arith,
    Laws.get-insert l.buckets peer q (spend f l.rate l.burst (bucket_of f l peer now) now).0,
  )

  pub allow_lem :
      (l : Limiter f) (peer : PeerId) (now : Instant)
      → length l.buckets < max_tracked
      → allow f l peer now ≡ spend_from f l peer now
  unfolding allow
  allow_lem l peer now room = ap (λ l'. spend_from f l' peer now) (make_room_kept l peer now room)

  -- While the table has room for another two peers, what one peer sends does not touch the bucket of
  -- another: that one's next frame is judged as if nothing had been sent.
  pub allow_independent :
      (l : Limiter f) (peer q : PeerId) (now later : Instant)
      → (peer == q) ≡ false
      → length l.buckets + 1 < max_tracked
      → (HashMap.get (allow f l peer now).0.buckets q ≡ HashMap.get l.buckets q)
        × ((allow f (allow f l peer now).0 q later).1 ≡ (allow f l q later).1)
  unfolding spend_from bucket_of
  allow_independent l peer q now later differs room =
      let l' = (spend_from f l peer now).0 in
      let same = get-spend_from l peer q now differs in
      (
        ap (λ r. HashMap.get r.0.buckets q) (allow_lem l peer now (omega arith)) ∙ same,
        ap (λ r. (allow f r.0 q later).1) (allow_lem l peer now (omega arith))
            ∙ ap (λ r. r.1) (allow_lem l' q later (ground (arith, length-spend_from l peer now)))
            ∙ ap
                (λ found.
                  (spend f l.rate l.burst (get_or found (record { tokens = l.burst; last = later }))
                    later).1)
                same
            ∙ sym (ap (λ r. r.1) (allow_lem l q later (omega arith))),
      )
