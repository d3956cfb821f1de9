-- ===== src/Store/Invites.antt =====
-- crates/lantern-core/src/store.rs: the table `invites` of one-time invites. Every time comes from the
-- caller; a `now` is the clock in milliseconds, `now_secs` in seconds. A statement that SQLite fails
-- changes nothing and returns the error; that is left out here.
pub mod Closed
mod Tests
use xivlantern_dalamud.Prelude.{
  ℕ, zero, suc, ℤ, pos, negsuc, Bool, true, false, not, ◌&&◌, ◌||◌, Option, none, some, List, [],
  ◌∷◌, ◌++◌, ◌==◌, ltb, any, length, nat_eq, bytes_eq, if◌then◌else◌,
}
use xivlantern_dalamud.Bytes.{Bytes}

pub record InviteRow : Type 0 where
  pub secret : Bytes
  pub created_at : ℤ
  pub expires_at : ℤ
  pub redeemed_by : Option Bytes
  pub redeemed_at : Option ℤ

unfoldable pub is_secret : Bytes → InviteRow → Bool
is_secret secret row = row.secret == secret

-- `INSERT OR IGNORE` by the secret
unfoldable pub invite_put : List InviteRow → Bytes → ℤ → ℤ → List InviteRow
invite_put rows secret expires_at now =
    if any (is_secret secret) rows
    then rows
    else rows
      ++ record {
        secret = secret;
        created_at = now;
        expires_at = expires_at;
        redeemed_by = none;
        redeemed_at = none;
      }
        ∷ []

unfoldable pub redeem : Bytes → Bytes → ℤ → InviteRow → InviteRow
unfolding is_secret
redeem secret by now row =
    if is_secret secret row
    then record row { redeemed_by = some by; redeemed_at = some now }
    else row

unfoldable pub invite_redeemed : List InviteRow → Bytes → Bytes → ℤ → List InviteRow
unfolding redeem
invite_redeemed [] secret by now = []
invite_redeemed (row ∷ rows) secret by now =
    redeem secret by now row ∷ invite_redeemed rows secret by now

unfoldable pub is_redeemed : InviteRow → Bool
is_redeemed row = elim row.redeemed_by [ none ↦ false | some by ↦ true ]

-- `expires_at = 0 OR expires_at > now`
unfoldable pub is_current : ℤ → ℤ → Bool
is_current (pos zero) now = true
is_current (pos (suc n)) (pos now) = ltb now (suc n)
is_current (pos (suc n)) (negsuc now) = true
is_current (negsuc n) (pos now) = false
is_current (negsuc n) (negsuc now) = ltb n now

-- The rows of the query whose secret has 16 bytes, as a pair of secret and expiry.
unfoldable pub invites_open : List InviteRow → ℤ → List (Bytes × ℤ)
unfolding is_redeemed is_current
invites_open [] now_secs = []
invites_open (row ∷ rows) now_secs =
    let rest = invites_open rows now_secs in
    if not (is_redeemed row) && (is_current row.expires_at now_secs && length row.secret == 16)
    then (row.secret, row.expires_at) ∷ rest
    else rest
