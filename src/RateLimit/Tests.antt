-- ===== src/RateLimit/Tests.antt =====
-- Runs of ratelimit.rs, and its theorems at concrete inputs, with floats that are whole numbers.
use xivlantern_dalamud.Prelude.{
  ℕ, ◌+◌, ◌*◌, ◌/◌, ◌-◌, ◌≡◌, refl, [], ◌∷◌, arith, min, max, ltb, leb, bytes_eq,
}
use xivlantern_dalamud.HashMap
use xivlantern_dalamud.HashMap.{HashMap}
use xivlantern_dalamud.Event.{PeerId}
use xivlantern_dalamud.RateLimit.{Floats, Limiter}
use xivlantern_dalamud.RateLimit.Burst.{IsIeee, let_through, let_through_burst}

abbrev whole : Floats
whole = record {
  F64 = ℕ;
  one = 1;
  add = λ x y. x + y;
  sub = λ x y. x - y;
  mul = λ x y. x * y;
  min = min;
  max = max;
  lt = ltb;
  ge = λ x y. leb y x;
  secs = λ d. d / 1000000000;
}

abbrev whole_ieee : IsIeee whole
whole_ieee = record {
  IsSmall = λ x. Unit;
  floor = λ x. x;
  ge_one_iff = λ x s. ground arith;
  sub-IsSmall = λ x s g. tt;
  floor-sub = λ x s g. ground arith;
  min-IsSmall = λ x y s t. tt;
  floor-min = λ x y s t. refl;
  add_nothing = λ x rate s t. omega arith;
}

abbrev peer : PeerId
peer = 1 ∷ []

abbrev other : PeerId
other = 2 ∷ []

abbrev limiter : Limiter whole
limiter = record { rate = 2; burst = 5; buckets = [] }

let_through_burst_example : let_through whole whole_ieee 6 limiter peer 0 ≡ 5
unfolding HashMap.get
let_through_burst_example =
    let_through_burst whole whole_ieee 6 limiter peer 0 tt tt refl (omega arith)
