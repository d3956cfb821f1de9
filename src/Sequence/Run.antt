-- ===== src/Sequence/Run.antt =====
-- crates/lantern-cli/src/author/sequence.rs never hands out a number twice.
use xivlantern_dalamud.Prelude.{ℕ, ◌<◌, ◌^◌, ◌≡◌, refl, Option, List, [], ◌∷◌, All}
use xivlantern_dalamud.Bytes.{Bytes}
use xivlantern_dalamud.Sequence.{Outcome, ok, err, Place, System, reserve}
use xivlantern_dalamud.Sequence.Increasing.{IsReserved, reserve-AddsAt}

-- One call of `reserve`, by any key and on any system.
pub record Request : Type 0 where
  pub public : Bytes
  pub seq : ℕ
  pub previous : Option ℕ
  pub system : System

-- The numbers that a sequence of calls hands out.
unfoldable pub reserve_all : Place → List Request → List ℕ
reserve_all place [] = []
reserve_all place (q ∷ requests) =
    let (place', result) = reserve place q.public q.seq q.previous q.system in
    let rest = reserve_all place' requests in elim result [ err e ↦ rest | ok _ ↦ q.seq ∷ rest ]

abbrev pub Increasing : List ℕ → Type 0
Increasing [] = Unit
Increasing (n ∷ ns) = All (λ m. n < m) ns × Increasing ns

-- `seq` is a `u64`.
abbrev pub IsU64 : Request → Type 0
IsU64 q = q.seq < 2 ^ 64

reserve_all_above :
    (place : Place) (requests : List Request) (n : ℕ)
    → All IsU64 requests
    → n < 2 ^ 64
    → IsReserved place n
    → All (λ m. n < m) (reserve_all place requests)
unfolding reserve_all
reserve_all_above place [] n u b h = tt
reserve_all_above place (q ∷ requests) n u b h =
    let r = reserve place q.public q.seq q.previous q.system in
    let adds = reserve-AddsAt place q.public q.seq q.previous q.system in
    by_result r.1 refl (λ v e. adds.above n v b e h)
      (reserve_all_above r.0 requests n u.1 b (adds.keeps n h))
  where
    by_result :
        (result : Outcome (Unit {0}))
        → (reserve place q.public q.seq q.previous q.system).1 ≡ result
        → ((v : Unit) → (reserve place q.public q.seq q.previous q.system).1 ≡ ok v → n < q.seq)
        → All
            (λ m. n < m)
            (reserve_all (reserve place q.public q.seq q.previous q.system).0 requests)
        → All
            (λ m. n < m)
            (elim result as (λ k. List ℕ) [
              | err e ↦ reserve_all (reserve place q.public q.seq q.previous q.system).0 requests
              | ok _ ↦
                  q.seq ∷ reserve_all (reserve place q.public q.seq q.previous q.system).0 requests
            ])
    by_result (err e) f above rest = rest
    by_result (ok v) f above rest = (above v f, rest)

-- Whatever stands at the directory's path at first, whatever keys ask for whatever 64-bit numbers, and
-- whatever the system fails to write, sync or remove on the way, the numbers that calls of `reserve`
-- hand out one after another are strictly increasing: none is handed out twice.
pub reserve_all-Increasing :
    (place : Place) (requests : List Request)
    → All IsU64 requests
    → Increasing (reserve_all place requests)
unfolding reserve_all
reserve_all-Increasing place [] u = tt
reserve_all-Increasing place (q ∷ requests) u =
    let r = reserve place q.public q.seq q.previous q.system in
    let adds = reserve-AddsAt place q.public q.seq q.previous q.system in
    by_result r.1 refl (λ v e. reserve_all_above r.0 requests q.seq u.1 u.0 (adds.added v e))
      (reserve_all-Increasing r.0 requests u.1)
  where
    by_result :
        (result : Outcome (Unit {0}))
        → (reserve place q.public q.seq q.previous q.system).1 ≡ result
        → ((v : Unit)
            → (reserve place q.public q.seq q.previous q.system).1 ≡ ok v
            → All
                (λ m. q.seq < m)
                (reserve_all (reserve place q.public q.seq q.previous q.system).0 requests))
        → Increasing (reserve_all (reserve place q.public q.seq q.previous q.system).0 requests)
        → Increasing (elim result as (λ k. List ℕ) [
          | err e ↦ reserve_all (reserve place q.public q.seq q.previous q.system).0 requests
          | ok _ ↦ q.seq ∷ reserve_all (reserve place q.public q.seq q.previous q.system).0 requests
        ])
    by_result (err e) f above rest = rest
    by_result (ok v) f above rest = (above v f, rest)
