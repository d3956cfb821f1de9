-- ===== src/RateLimit/Burst.antt =====
-- How many frames of one peer ratelimit.rs lets through in an instant.

use xivlantern_dalamud.Prelude.{
  ℕ, zero, suc, ◌+◌, ◌≤◌, ◌<◌, ◌≡◌, ◌↔◌, refl, ap, ◌∙◌, Bool, true, false, none, some, arith,
  length, bytes_eq, if◌then◌else◌, min, ◌⊎◌, inl, inr, Bool-cases,
}
use xivlantern_dalamud.HashMap
use xivlantern_dalamud.HashMap.Laws
use xivlantern_dalamud.Event.{PeerId}
use xivlantern_dalamud.RateLimit.{
  Floats, Instant, max_tracked, Bucket, Limiter, refilled, spend, bucket_of, spend_from, make_room,
  allow,
}
use xivlantern_dalamud.RateLimit.Tracking.{allow_lem}

-- Laws of IEEE 754 doubles: `IsSmall` holds of the numbers from 0 to 2^53, where taking one away
-- is exact and no result is infinite or NaN; `floor` is the whole part.
pub record IsIeee (f : Floats) : Type 1 where
  pub IsSmall : f.F64 → Type 0
  pub floor : f.F64 → ℕ
  pub ge_one_iff : (x : f.F64) → IsSmall x → (f.ge x f.one ≡ true) ↔ (1 ≤ floor x)
  pub sub-IsSmall : (x : f.F64) → IsSmall x → f.ge x f.one ≡ true → IsSmall (f.sub x f.one)
  pub floor-sub :
      (x : f.F64) → IsSmall x → f.ge x f.one ≡ true → floor (f.sub x f.one) + 1 ≡ floor x
  pub min-IsSmall : (x y : f.F64) → IsSmall x → IsSmall y → IsSmall (f.min x y)
  pub floor-min :
      (x y : f.F64) → IsSmall x → IsSmall y → floor (f.min x y) ≡ min (floor x) (floor y)
  pub add_nothing :
      (x rate : f.F64) → IsSmall x → IsSmall rate → f.add x (f.mul (f.secs 0) rate) ≡ x

module _ (f : Floats) (h : IsIeee f) where
  -- How many of `n` frames of a peer in the same instant are let through.
  unfoldable pub let_through : ℕ → Limiter f → PeerId → Instant → ℕ
  let_through zero l peer now = 0
  let_through (suc n) l peer now =
      let (l', allowed) = allow f l peer now in
      let rest = let_through n l' peer now in if allowed then suc rest else rest

  -- A bucket at `now`, with `k` whole tokens that may be spent.
  record Holds (burst : f.F64) (b : Bucket f) (now : Instant) (k : ℕ) : Type 0 where
    current : b.last ≡ now
    small : h.IsSmall b.tokens
    whole : min (h.floor b.tokens) (h.floor burst) ≡ k

  refilled_now :
      (rate : f.F64) (b : Bucket f) (now : Instant)
      → b.last ≡ now
      → h.IsSmall rate
      → h.IsSmall b.tokens
      → refilled f rate b now ≡ b.tokens
  unfolding refilled
  refilled_now rate b now current small_rate small =
      ap (λ d. f.add b.tokens (f.mul (f.secs d) rate)) (omega (arith, current))
      ∙ h.add_nothing b.tokens rate small small_rate

  -- What `spend` does to a bucket that is current.
  after : f.F64 → Bucket f → Instant → Bucket f × Bool
  after burst b now =
      let t = f.min b.tokens burst in
      (record { tokens = if f.ge t f.one then f.sub t f.one else t; last = now }, f.ge t f.one)

  spend_now :
      (rate burst : f.F64) (b : Bucket f) (now : Instant)
      → b.last ≡ now
      → h.IsSmall rate
      → h.IsSmall b.tokens
      → spend f rate burst b now ≡ after burst b now
  unfolding spend after
  spend_now rate burst b now current small_rate small =
      ap
        (λ r.
          let t = f.min r burst in
          (record { tokens = if f.ge t f.one then f.sub t f.one else t; last = now }, f.ge t f.one))
        (refilled_now rate b now current small_rate small)

  -- With a whole token the frame passes and one is gone; with none it does not.
  after-Holds :
      (burst : f.F64) (b : Bucket f) (now : Instant) (k : ℕ)
      → h.IsSmall burst
      → Holds burst b now k
      → ((after burst b now).1 ≡ true)
          × ((j : ℕ) × (k ≡ suc j) × Holds burst (after burst b now).0 now j)
        ⊎ ((after burst b now).1 ≡ false) × (k ≡ 0) × Holds burst (after burst b now).0 now 0
  unfolding after
  after-Holds burst b now k small_burst holds =
      let t = f.min b.tokens burst in
      let small = h.min-IsSmall b.tokens burst holds.small small_burst in
      let whole : h.floor t ≡ k =
        h.floor-min b.tokens burst holds.small small_burst ∙ holds.whole in
      elim (Bool-cases (f.ge t f.one)) [
        | inl passes ↦ inl (
          passes,
          (
            h.floor (f.sub t f.one),
            omega (arith, h.floor-sub t small passes, whole),
            rw passes (record {
              current = refl;
              small = h.sub-IsSmall t small passes;
              whole = omega (arith, h.floor-sub t small passes, whole, holds.whole);
            }),
          ),
        )
        | inr fails ↦
            let none_left : h.floor t ≡ 0 = ground (arith, h.ge_one_iff t small) in
            inr (
              fails,
              omega (arith, none_left, whole),
              rw fails (record { current = refl; small = small; whole = omega (arith, none_left) }),
            )
      ]

  make_room_tracked :
      (l : Limiter f) (peer : PeerId) (b : Bucket f) (now : Instant)
      → HashMap.get l.buckets peer ≡ some b
      → make_room f l peer now ≡ l
  unfolding make_room
  make_room_tracked l peer b now found = ground (arith, Laws.contains_key-get l.buckets peer)

  -- The limiter after a frame of a peer whose bucket is `b` and current.
  next : Limiter f → PeerId → Instant → Bucket f → Limiter f
  next l peer now b = record l { buckets = HashMap.insert l.buckets peer (after l.burst b now).0 }

  spend_from_now :
      (l : Limiter f) (peer : PeerId) (b : Bucket f) (now : Instant)
      → bucket_of f l peer now ≡ b
      → b.last ≡ now
      → h.IsSmall l.rate
      → h.IsSmall b.tokens
      → spend_from f l peer now ≡ (next l peer now b, (after l.burst b now).1)
  unfolding spend_from next
  spend_from_now l peer b now found current small_rate small =
      ap (λ r. (record l { buckets = HashMap.insert l.buckets peer r.0 }, r.1))
        (ap (λ c. spend f l.rate l.burst c now) found
          ∙ spend_now l.rate l.burst b now current small_rate small)

  allow_tracked :
      (l : Limiter f) (peer : PeerId) (b : Bucket f) (now : Instant)
      → HashMap.get l.buckets peer ≡ some b
      → b.last ≡ now
      → h.IsSmall l.rate
      → h.IsSmall b.tokens
      → allow f l peer now ≡ (next l peer now b, (after l.burst b now).1)
  unfolding allow bucket_of
  allow_tracked l peer b now found current small_rate small =
      ap (λ l'. spend_from f l' peer now) (make_room_tracked l peer b now found)
      ∙ spend_from_now l peer b now (rw (found, bucket_of) refl) current small_rate small

  found_next :
      (l : Limiter f) (peer : PeerId) (now : Instant) (b : Bucket f)
      → HashMap.get (next l peer now b).buckets peer ≡ some (after l.burst b now).0
  unfolding next
  found_next l peer now b = ground (
    arith,
    Laws.get-insert l.buckets peer peer (after l.burst b now).0,
    bytes_eq.equals_iff peer peer,
  )

  let_through-suc :
      (n : ℕ) (l l' : Limiter f) (peer : PeerId) (now : Instant) (allowed : Bool)
      → allow f l peer now ≡ (l', allowed)
      → let_through (suc n) l peer now
        ≡ (if allowed then suc (let_through n l' peer now) else let_through n l' peer now)
  unfolding let_through
  let_through-suc n l l' peer now allowed e =
      ap (λ r. if r.1 then suc (let_through n r.0 peer now) else let_through n r.0 peer now) e

  let_through_tracked :
      (n : ℕ) (l : Limiter f) (peer : PeerId) (b : Bucket f) (now : Instant) (k : ℕ)
      → h.IsSmall l.rate
      → h.IsSmall l.burst
      → HashMap.get l.buckets peer ≡ some b
      → Holds l.burst b now k
      → let_through n l peer now ≡ min n k
  unfolding let_through next
  let_through_tracked zero l peer b now k small_rate small_burst found holds = omega arith
  let_through_tracked (suc n) l peer b now k small_rate small_burst found holds =
      let l' = next l peer now b in
      let b' = (after l.burst b now).0 in
      let step =
        let_through-suc n l l' peer now (after l.burst b now).1
          (allow_tracked l peer b now found holds.current small_rate holds.small) in
      elim (after-Holds l.burst b now k small_burst holds) [
        | inl (passes, (j, e, left)) ↦ ground (
          arith,
          rw passes at step,
          let_through_tracked n l' peer b' now j small_rate small_burst (found_next l peer now b)
              left,
        )
        | inr (fails, e, left) ↦ ground (
          arith,
          rw fails at step,
          let_through_tracked n l' peer b' now 0 small_rate small_burst (found_next l peer now b)
              left,
        )
      ]

  -- When the rate and the burst are small numbers: of the frames that a peer with no bucket yet sends in
  -- one instant, to a limiter whose table has room, exactly as many are let through as the burst has
  -- whole tokens, or all of them if they are fewer.
  pub let_through_burst :
      (n : ℕ) (l : Limiter f) (peer : PeerId) (now : Instant)
      → h.IsSmall l.rate
      → h.IsSmall l.burst
      → HashMap.get l.buckets peer ≡ none
      → length l.buckets < max_tracked
      → let_through n l peer now ≡ min n (h.floor l.burst)
  unfolding let_through next bucket_of
  let_through_burst zero l peer now small_rate small_burst new room = omega arith
  let_through_burst (suc n) l peer now small_rate small_burst new room =
      let b : Bucket f = record { tokens = l.burst; last = now } in
      let l' = next l peer now b in
      let step = let_through-suc n l l' peer now (after l.burst b now).1 (
        allow_lem f l peer now room
        ∙ spend_from_now l peer b now (rw (new, bucket_of) refl) refl small_rate small_burst) in
      let b' = (after l.burst b now).0 in
      elim (after-Holds l.burst b now (h.floor l.burst) small_burst
        (record { current = refl; small = small_burst; whole = omega arith })) [
          | inl (passes, (j, e, left)) ↦ ground (
            arith,
            rw passes at step,
            let_through_tracked n l' peer b' now j small_rate small_burst (found_next l peer now b)
                left,
          )
          | inr (fails, e, left) ↦ ground (
            arith,
            rw fails at step,
            let_through_tracked n l' peer b' now 0 small_rate small_burst (found_next l peer now b)
                left,
          )
        ]
