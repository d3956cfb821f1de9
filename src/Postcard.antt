-- ===== src/Postcard.antt =====
-- What the code uses of postcard, a library that writes a value of a serde type as bytes: each type's
-- encoder and decoder, with the laws that library documents.
use xivlantern_dalamud.Prelude.{◌≡◌, refl, sym, ap, ◌∙◌, Option, none, some, ◌++◌, [], append-nil}
use xivlantern_dalamud.Bytes.{Bytes}

pub record Postcard {ℓ} (T : Type ℓ) : Type ℓ where
  -- `to_stdvec`, and `none` for its error
  pub to_stdvec : T → Option Bytes
  -- `take_from_bytes`: the value and the bytes behind it
  pub take_from_bytes : Bytes → Option (T × Bytes)

-- `from_bytes` does not look at the bytes behind the value.
unfoldable pub from_bytes {ℓ} : {T : Type ℓ} → Postcard T → Bytes → Option T
from_bytes p bytes = elim (p.take_from_bytes bytes) [ none ↦ none | some (t, rest) ↦ some t ]

-- The value is written, and read back whatever bytes follow.
pub record IsCoded {ℓ} {T : Type ℓ} (p : Postcard T) (t : T) (bytes : Bytes) : Type ℓ where
  pub written : p.to_stdvec t ≡ some bytes
  pub reads : (rest : Bytes) → p.take_from_bytes (bytes ++ rest) ≡ some (t, rest)

module _ {ℓ} {T : Type ℓ} (p : Postcard T) (t : T) (bytes : Bytes) (coded : IsCoded p t bytes) where
  pub take_all : p.take_from_bytes bytes ≡ some (t, [])
  take_all = ap p.take_from_bytes (sym (append-nil bytes)) ∙ coded.reads []

  pub from_bytes_coded : from_bytes p bytes ≡ some t
  unfolding from_bytes
  from_bytes_coded = rw (take_all, from_bytes) refl
