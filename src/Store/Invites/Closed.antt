-- ===== src/Store/Invites/Closed.antt =====
-- An invite is open until it is redeemed, and never again.
use xivlantern_dalamud.Prelude.{
  ℤ, ◌≡◌, refl, ◌∙◌, Bool, true, false, not, none, List, [], ◌∷◌, ◌==◌, arith, any, any-append,
  nat_eq, bytes_eq, ◌&&◌,
}
use xivlantern_dalamud.Bytes.{Bytes}
use xivlantern_dalamud.Store.Invites.{
  InviteRow, is_secret, invite_put, redeem, invite_redeemed, is_redeemed, invites_open,
}

-- One call that changes the table.
pub data Call : Type 0 where
  put : Bytes → ℤ → ℤ → Call
  redeemed : Bytes → Bytes → ℤ → Call

unfoldable pub run : List InviteRow → List Call → List InviteRow
run rows [] = rows
run rows (put secret expires_at now ∷ calls) = run (invite_put rows secret expires_at now) calls
run rows (redeemed secret by now ∷ calls) = run (invite_redeemed rows secret by now) calls

abbrev pub has_secret : Bytes → Bytes × ℤ → Bool
has_secret secret (s, expires_at) = s == secret

-- A row that could be redeemed for the secret.
is_open : Bytes → InviteRow → Bool
is_open secret row = is_secret secret row && not (is_redeemed row)

-- The secret is in the table, and no row of it is open.
record IsClosed (rows : List InviteRow) (secret : Bytes) : Type 0 where
  known : any (is_secret secret) rows ≡ true
  none_open : any (is_open secret) rows ≡ false

put-IsClosed :
    (rows : List InviteRow) (secret s : Bytes) (expires_at now : ℤ)
    → IsClosed rows secret
    → IsClosed (invite_put rows s expires_at now) secret
unfolding invite_put is_open is_redeemed any is_secret
put-IsClosed rows secret s expires_at now h =
    let row : InviteRow = record {
      secret = s;
      created_at = now;
      expires_at = expires_at;
      redeemed_by = none;
      redeemed_at = none;
    } in
    record {
      known = ground (arith, any-append (is_secret secret) rows (row ∷ []), h.known);
      none_open = ground (
        arith,
        any-append (is_open secret) rows (row ∷ []),
        h.known,
        h.none_open,
        bytes_eq.equals_iff s secret,
      );
    }

known-redeemed :
    (rows : List InviteRow) (secret s by : Bytes) (now : ℤ)
    → any (is_secret secret) (invite_redeemed rows s by now) ≡ any (is_secret secret) rows
unfolding invite_redeemed redeem any is_secret
known-redeemed [] secret s by now = refl
known-redeemed (row ∷ rows) secret s by now = ground (arith, known-redeemed rows secret s by now)

open-redeemed :
    (rows : List InviteRow) (secret s by : Bytes) (now : ℤ)
    → any (is_open secret) rows ≡ false
    → any (is_open secret) (invite_redeemed rows s by now) ≡ false
unfolding invite_redeemed redeem any is_secret is_open is_redeemed
open-redeemed [] secret s by now h = refl
open-redeemed (row ∷ rows) secret s by now h = ground (arith, open-redeemed rows secret s by now)

redeemed-closes :
    (rows : List InviteRow) (secret by : Bytes) (now : ℤ)
    → any (is_open secret) (invite_redeemed rows secret by now) ≡ false
unfolding invite_redeemed redeem any is_secret is_open is_redeemed
redeemed-closes [] secret by now = refl
redeemed-closes (row ∷ rows) secret by now = ground (arith, redeemed-closes rows secret by now)

run-IsClosed :
    (rows : List InviteRow) (calls : List Call) (secret : Bytes)
    → IsClosed rows secret
    → IsClosed (run rows calls) secret
unfolding run
run-IsClosed rows [] secret h = h
run-IsClosed rows (put s expires_at now ∷ calls) secret h =
    run-IsClosed (invite_put rows s expires_at now) calls secret
      (put-IsClosed rows secret s expires_at now h)
run-IsClosed rows (redeemed s by now ∷ calls) secret h =
    run-IsClosed (invite_redeemed rows s by now) calls secret (record {
      known = known-redeemed rows secret s by now ∙ h.known;
      none_open = open-redeemed rows secret s by now h.none_open;
    })

not_listed :
    (rows : List InviteRow) (secret : Bytes) (now_secs : ℤ)
    → any (is_open secret) rows ≡ false
    → any (has_secret secret) (invites_open rows now_secs) ≡ false
unfolding invites_open any is_open is_secret
not_listed [] secret now_secs h = refl
not_listed (row ∷ rows) secret now_secs h = ground (arith, not_listed rows secret now_secs)

-- Once an invite of the table is redeemed, no call that follows opens it again: at no time does the list
-- of open invites hold its secret, whatever is put or redeemed after it, the same secret included.
pub redeemed_once :
    (rows : List InviteRow) (calls : List Call) (secret by : Bytes) (now now_secs : ℤ)
    → any (is_secret secret) rows ≡ true
    → any
        (has_secret secret)
        (invites_open (run (invite_redeemed rows secret by now) calls) now_secs)
      ≡ false
redeemed_once rows calls secret by now now_secs there =
    let closed = run-IsClosed (invite_redeemed rows secret by now) calls secret (record {
      known = known-redeemed rows secret secret by now ∙ there;
      none_open = redeemed-closes rows secret by now;
    }) in
    not_listed (run (invite_redeemed rows secret by now) calls) secret now_secs closed.none_open
