-- ===== src/Error.antt =====
-- crates/lantern-core/src/lib.rs: the errors that a synchronous call returns, and its limits.
pub mod Display
use Prim.Native.String.{String}
use xivlantern_dalamud.Prelude.{ℕ, Bool, true, false, Option, none, some}

-- Largest single direct-connection message.
abbrev pub max_message : ℕ
max_message = 61440

-- Largest room message or presence payload.
abbrev pub max_room_message : ℕ
max_room_message = 6144

-- Largest 1:1 text, in UTF-8 bytes.
abbrev pub max_text : ℕ
max_text = 2048

abbrev pub gossip_max_frame : ℕ
gossip_max_frame = 8192

abbrev pub protocol_version : ℕ
protocol_version = 1

pub data Error : Type 0 where
  arg : String → Error
  state : String → Error
  not_found : Error
  full : Error
  ticket : Error
  store : String → Error
  net : String → Error
  too_large : Error
  internal : String → Error

-- `crate::Result`
pub data Result {ℓ} (T : Type ℓ) : Type ℓ where
  err : Error → Result T
  ok : T → Result T

-- `?`
infixl 5 ◌>>=◌ ◌>>◌
abbrev pub ◌>>=◌ {ℓ ℓ'} : {T : Type ℓ} {U : Type ℓ'} → Result T → (T → Result U) → Result U
err e >>= next = err e
ok t >>= next = next t

abbrev pub ◌>>◌ {ℓ} : {U : Type ℓ} → Result (Unit {0}) → Result U → Result U
guard >> next = guard >>= λ _. next

-- `if b { return Err(e) }`
abbrev pub fail_if : Bool → Error → Result (Unit {0})
fail_if true e = err e
fail_if false e = ok tt

-- `ok_or(e)?`
abbrev pub ok_or {ℓ} : {A : Type ℓ} → Option A → Error → Result A
ok_or none e = err e
ok_or (some a) e = ok a
