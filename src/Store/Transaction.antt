-- ===== src/Store/Transaction.antt =====
-- The calls of SQLite in crates/lantern-core/src/store.rs one after another, any of which may fail, and rusqlite's
-- transaction around them: what it has written is undone if it is dropped before its commit.
use Prim.Native.String.{String}
use xivlantern_dalamud.Prelude.{ℕ, zero, suc, ◌≡◌, refl, ◌⊎◌, inl, inr, Option, none, some}
use xivlantern_dalamud.Error.{store, Result, ok, err}

-- The call that fails, counted from the next one, and what SQLite says of it.
abbrev pub Failure : Type 0
Failure = Option (ℕ × String)

abbrev pub text_of : Failure → Option String
text_of none = none
text_of (some (k, text)) = some text

-- Calls on a table of type `T`: the failure that is still to come, the table as far as it is written, and the result.
abbrev pub Sql : Type 0 → Type 0 → Type 0
Sql T A = Failure → T → Failure × T × Result A

-- One call.
unfoldable pub statement : {T A : Type 0} → (T → T × A) → Sql T A
statement f none t = (none, (f t).0, ok (f t).1)
statement f (some (zero, text)) t = (some (zero, text), t, err (store text))
statement f (some (suc k, text)) t = (some (k, text), (f t).0, ok (f t).1)

unfoldable pub pure : {T A : Type 0} → A → Sql T A
pure a failure t = (failure, t, ok a)

-- `?` between two calls.
unfoldable pub and_then :
    {T A B : Type 0} → (A → Sql T B) → Failure × T × Result A → Failure × T × Result B
and_then f (failure, t, err e) = (failure, t, err e)
and_then f (failure, t, ok a) = f a failure t

infixl 5 ◌>>=◌ ◌>>◌
abbrev pub ◌>>=◌ : {T A B : Type 0} → Sql T A → (A → Sql T B) → Sql T B
◌>>=◌ m f failure t = and_then f (m failure t)

abbrev pub ◌>>◌ : {T B : Type 0} → Sql T (Unit {0}) → Sql T B → Sql T B
m >> k = m >>= λ _. k

-- A call that writes, for its effect on the table only.
abbrev pub write : {T : Type 0} → (T → T) → Sql T (Unit {0})
write f = statement (λ t. (f t, tt))

-- The table after the transaction, which was `t` before: with no commit, what is written is undone.
unfoldable pub close : {T A : Type 0} → T → Failure × T × Result A → T × Result A
close t (failure, written, ok a) = (written, ok a)
close t (failure, written, err e) = (t, err e)

-- `transaction()?`, the calls inside it, and `commit()?`.
unfoldable pub committed : {T A : Type 0} → Sql T A → Sql T A
committed body = do write (λ t. t); a ← body; write (λ t. t); pure a

unfoldable pub transaction : {T A : Type 0} → Sql T A → Failure → T → T × Result A
unfolding close and_then statement pure committed
transaction body failure t = close t (committed body failure t)

-- A run beside the run where nothing fails: it fails with what SQLite says, or it is the same.
abbrev Runs : {T A : Type 0} → Failure → Failure × T × Result A → Failure × T × Result A → Type 0
Runs failure (left, t, r) (left₀, t₀, r₀) =
    (((text : String) × (text_of failure ≡ some text) × (r ≡ err (store text)))
      ⊎ ((t ≡ t₀) × (r ≡ r₀)))
    × (text_of left ≡ text_of failure)
    × (left₀ ≡ none)

abbrev pub Follows : {T A : Type 0} → Sql T A → Type 0
Follows {T} m = (failure : Failure) (t : T) → Runs failure (m failure t) (m none t)

pub statement-Follows : {T A : Type 0} (f : T → T × A) → Follows (statement f)
unfolding statement
statement-Follows f none t = (inr (refl, refl), refl, refl)
statement-Follows f (some (zero, text)) t = (inl (text, refl, refl), refl, refl)
statement-Follows f (some (suc k, text)) t = (inr (refl, refl), refl, refl)

pub pure-Follows : {T A : Type 0} (a : A) → Follows {T = T} (pure a)
unfolding pure
pure-Follows a failure t = (inr (refl, refl), refl, refl)

later_run :
    {T A : Type 0} (failure left : Failure) (x y : Failure × T × Result A)
    → text_of left ≡ text_of failure
    → Runs left x y
    → Runs failure x y
later_run failure left x y same runs = rw same at runs

and_then_run :
    {T A B : Type 0} (f : A → Sql T B) (failure left left₀ : Failure) (t t₀ : T) (r r₀ : Result A)
    → ((a : A) → Follows (f a))
    → Runs failure (left, t, r) (left₀, t₀, r₀)
    → Runs failure (and_then f (left, t, r)) (and_then f (left₀, t₀, r₀))
unfolding and_then
and_then_run {T} {A} {B} f failure left left₀ t t₀ (err e) (err e₀) follows
      (outcome, same_text, clean) =
    (
      elim outcome [
        | inl (text, told, failed) ↦ let same : e ≡ store text = cc in inl (text, told, cc (same))
        | inr (same_t, same_r) ↦ let same : e ≡ e₀ = cc in inr (same_t, cc (same))
      ],
      same_text,
      clean,
    )
and_then_run {T} {A} {B} f failure left left₀ t t₀ (err e) (ok a₀) follows
      (outcome, same_text, clean) =
    (
      elim outcome [
        | inl (text, told, failed) ↦ let same : e ≡ store text = cc in inl (text, told, cc (same))
        | inr (same_t, same_r) ↦ absurd (cc)
      ],
      same_text,
      rw clean (follows a₀ none t₀).2,
    )
and_then_run f failure left left₀ t t₀ (ok a) (err e₀) follows (outcome, same_text, clean) =
    elim outcome [ inl (text, told, failed) ↦ absurd (cc) | inr (same_t, same_r) ↦ absurd (cc) ]
and_then_run {T} {A} {B} f failure left left₀ t t₀ (ok a) (ok a₀) follows
      (outcome, same_text, clean) =
    elim outcome [
      | inl (text, told, failed) ↦ absurd (cc)
      | inr (same_t, same_r) ↦
          let same : a ≡ a₀ = cc in
          let there : f a none t ≡ f a₀ left₀ t₀ = cc (same, clean, same_t) in
          rw there at
            (later_run failure left (f a left t) (f a none t) same_text (follows a left t))
    ]

pub bind-Follows :
    {T A B : Type 0} (m : Sql T A) (f : A → Sql T B)
    → Follows m
    → ((a : A) → Follows (f a))
    → Follows (m >>= f)
bind-Follows m f first next failure t = and_then_run f failure _ _ _ _ _ _ next (first failure t)

-- What comes of a run, whatever the call is that failed.
abbrev pub IsWhole : {T A : Type 0} → Failure → T → T × Result A → T × Result A → Type 0
IsWhole failure t outcome whole =
    ((text : String) × (text_of failure ≡ some text) × (outcome ≡ (t, err (store text))))
    ⊎ (outcome ≡ whole)

close_run :
    {T A : Type 0} (failure left left₀ : Failure) (t t₁ t₂ : T) (r r₀ : Result A)
    → Runs failure (left, t₁, r) (left₀, t₂, r₀)
    → IsWhole failure t (close t (left, t₁, r)) (close t (left₀, t₂, r₀))
unfolding close
close_run failure left left₀ t t₁ t₂ (ok a) (ok a₀) (outcome, same_text, clean) = elim outcome [
  | inl (text, told, failed) ↦ absurd (cc)
  | inr (same_t, same_r) ↦ let same : a ≡ a₀ = cc in inr (cc)
]
close_run failure left left₀ t t₁ t₂ (ok a) (err e₀) (outcome, same_text, clean) = elim outcome [
  | inl (text, told, failed) ↦ absurd (cc)
  | inr (same_t, same_r) ↦ absurd (cc)
]
close_run failure left left₀ t t₁ t₂ (err e) r₀ (outcome, same_text, clean) = elim outcome [
  | inl (text, told, failed) ↦ let same : e ≡ store text = cc in inl (text, told, cc)
  | inr (same_t, same_r) ↦ inr (rw (← same_r) refl)
]

committed-Follows : {T A : Type 0} (body : Sql T A) → Follows body → Follows (committed body)
unfolding committed
committed-Follows body follows = bind-Follows _ _ (statement-Follows _) (λ _.
    bind-Follows _ _ follows (λ a. bind-Follows _ _ (statement-Follows _) (λ _. pure-Follows a)))

-- A transaction fails with what SQLite says and leaves the table as it was, or it does all that it does when nothing
-- fails.
pub transaction-IsWhole :
    {T A : Type 0} (body : Sql T A) (failure : Failure) (t : T)
    → Follows body
    → IsWhole failure t (transaction body failure t) (transaction body none t)
unfolding transaction
transaction-IsWhole body failure t follows =
    close_run failure _ _ t _ _ _ _ (committed-Follows body follows failure t)
