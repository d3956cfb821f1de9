-- ===== src/Store/Settings/Identity.antt =====
-- The node's key survives.
use xivlantern_dalamud.Prelude.{
  ◌≡◌, refl, Bool-cases, inl, inr, Option, none, some, List, [], ◌∷◌, ◌==◌, nat_eq, nat_beq_iff,
  length, All, arith,
}
use xivlantern_dalamud.Bytes.{Bytes}
use xivlantern_dalamud.Store.Settings.{identity}

-- The keys that a sequence of calls gives, one for each start of the node, with the key that the system would
-- generate at each.
unfoldable pub identities : Option Bytes → List Bytes → List Bytes
identities row [] = []
identities row (fresh ∷ more) = let (row', key) = identity row fresh in key ∷ identities row' more

identity_again : (key fresh : Bytes) → length key ≡ 32 → identity (some key) fresh ≡ (some key, key)
unfolding identity
identity_again key fresh h = ground arith

identities_again :
    (key : Bytes) (more : List Bytes)
    → length key ≡ 32
    → All (λ k. k ≡ key) (identities (some key) more)
unfolding identities
identities_again key [] h = tt
identities_again key (fresh ∷ more) h =
    let same = identity_again key fresh h in rw same (refl, identities_again key more h)

-- Whatever the table holds, damaged or not, the first start gives a key of 32 bytes when the system generates
-- such keys, and every later start gives that same key.
pub identities_stable :
    (row : Option Bytes) (fresh : Bytes) (more : List Bytes)
    → length fresh ≡ 32
    → (length (identity row fresh).1 ≡ 32)
      × ((identity row fresh).0 ≡ some (identity row fresh).1)
      × All (λ k. k ≡ (identity row fresh).1) (identities (identity row fresh).0 more)
unfolding identity
identities_stable none fresh more h = (h, refl, identities_again fresh more h)
identities_stable (some secret) fresh more h = elim (Bool-cases (length secret == 32)) [
  | inl whole ↦
      let long = (nat_beq_iff (length secret) 32).0 whole in
      rw whole (long, refl, identities_again secret more long)
  | inr damaged ↦ rw damaged (h, refl, identities_again fresh more h)
]
