-- ===== src/Ticket/Topic/Separated.antt =====
-- What keeps the topics of topic.rs apart.
use xivlantern_dalamud.Prelude.{
  ℕ, ◌+◌, ◌≡◌, ◌≢◌, refl, sym, ap, ◌∙◌, ◌⊎◌, inl, inr, Bool-cases, [], ◌∷◌, ◌++◌, append_assoc, All,
  length, nat_beq, bytes_beq, bytes_beq_iff, if◌then◌else◌, arith,
}
use xivlantern_dalamud.Bytes.{Bytes}
use xivlantern_dalamud.Ticket.Scope.{Scope, party, fc, zone, world, public_room, custom, as_str}
use xivlantern_dalamud.Ticket.Topic.{update, hashed, derive}

-- No unit separator stands in the bytes.
abbrev pub HasNoSeparator : Bytes → Type 0
HasNoSeparator = All (λ c. c ≢ 0x1f)

-- Two byte strings with one digest.
abbrev pub Collision : (Bytes → Bytes) → Type 0
Collision hash = (x : Bytes) × ((y : Bytes) × (x ≢ y) × (hash x ≡ hash y))

head_inj : {b c : ℕ} {x y : Bytes} → b ∷ x ≡ c ∷ y → (b ≡ c) × (x ≡ y)
head_inj h = (cc, cc)

-- What stands before the first separator, and what behind it.
split_lem :
    (x y u v : Bytes)
    → HasNoSeparator x
    → HasNoSeparator y
    → x ++ 0x1f ∷ u ≡ y ++ 0x1f ∷ v
    → (x ≡ y) × (u ≡ v)
split_lem [] [] u v hx hy h = (refl, (head_inj h).1)
split_lem [] (c ∷ y) u v hx hy h = absurd (hy.0 (sym (head_inj h).0))
split_lem (c ∷ x) [] u v hx hy h = absurd (hx.0 (head_inj h).0)
split_lem (c ∷ x) (d ∷ y) u v hx hy h =
    let (front, behind) = split_lem x y u v hx.1 hy.1 (head_inj h).1 in
    (cc ((head_inj h).0, front), behind)

as_str-HasNoSeparator : (scope : Scope) → HasNoSeparator (as_str scope)
unfolding as_str
as_str-HasNoSeparator party = omega arith
as_str-HasNoSeparator fc = omega arith
as_str-HasNoSeparator zone = omega arith
as_str-HasNoSeparator world = omega arith
as_str-HasNoSeparator public_room = omega arith
as_str-HasNoSeparator custom = omega arith

-- The scopes' texts differ in their first letter or their length.
mark : Bytes → ℕ
mark [] = 0
mark (c ∷ text) = c + length text

scope_of : ℕ → Scope
scope_of n =
    if nat_beq n 116
    then party
    else if nat_beq n 103
    then fc
    else if nat_beq n 125
    then zone
    else if nat_beq n 123
    then world
    else if nat_beq n 117
    then public_room
    else custom

scope_of-as_str : (scope : Scope) → scope_of (mark (as_str scope)) ≡ scope
unfolding scope_of mark as_str
scope_of-as_str party = refl
scope_of-as_str fc = refl
scope_of-as_str zone = refl
scope_of-as_str world = refl
scope_of-as_str public_room = refl
scope_of-as_str custom = refl

as_str_inj : (s t : Scope) → as_str s ≡ as_str t → s ≡ t
as_str_inj s t h = sym (scope_of-as_str s) ∙ ap (λ x. scope_of (mark x)) h ∙ scope_of-as_str t

hashed_lem :
    (app_id : Bytes) (scope : Scope) (key : Bytes)
    → hashed app_id scope key ≡ app_id ++ 0x1f ∷ (as_str scope ++ 0x1f ∷ key)
unfolding hashed update
hashed_lem app_id scope key = rw (append_assoc, append_assoc, append_assoc) refl

hashed_inj :
    (a b : Bytes) (s t : Scope) (j k : Bytes)
    → HasNoSeparator a
    → HasNoSeparator b
    → hashed a s j ≡ hashed b t k
    → (a ≡ b) × (s ≡ t) × (j ≡ k)
hashed_inj a b s t j k ha hb h =
    let (apps, rest) = split_lem a b _ _ ha hb (sym (hashed_lem a s j) ∙ h ∙ hashed_lem b t k) in
    let (scopes, keys) =
      split_lem (as_str s) (as_str t) j k (as_str-HasNoSeparator s) (as_str-HasNoSeparator t)
        rest in
    (apps, as_str_inj s t scopes, keys)

-- When no app id holds the unit separator, two rooms that meet on one topic have the same app id, scope and
-- key, whatever the keys hold, or else they show a collision of the hash.
pub derive_separated :
    (blake3 : Bytes → Bytes) (a b : Bytes) (s t : Scope) (j k : Bytes)
    → HasNoSeparator a
    → HasNoSeparator b
    → derive blake3 a s j ≡ derive blake3 b t k
    → ((a ≡ b) × (s ≡ t) × (j ≡ k)) ⊎ Collision blake3
unfolding derive
derive_separated blake3 a b s t j k ha hb h =
    elim (Bool-cases (bytes_beq (hashed a s j) (hashed b t k))) [
      | inl same ↦ inl (hashed_inj a b s t j k ha hb ((bytes_beq_iff _ _).0 same))
      | inr other ↦ inr (
        hashed a s j,
        (
          hashed b t k,
          λ e. absurd (cc (other, (bytes_beq_iff (hashed a s j) (hashed b t k)).1 e)),
          h,
        ),
      )
    ]

-- An app id that holds the separator takes the place of a scope and a key.
pub hashed_shifted :
    (a x y : Bytes) (s t : Scope)
    → hashed a s (x ++ 0x1f ∷ (as_str t ++ 0x1f ∷ y))
      ≡ hashed (a ++ 0x1f ∷ (as_str s ++ 0x1f ∷ x)) t y
hashed_shifted a x y s t = rw (hashed_lem, hashed_lem, append_assoc, append_assoc) refl
