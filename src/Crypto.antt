-- ===== src/Crypto.antt =====
-- What the node uses of ed25519 (`iroh::{SecretKey, PublicKey, Signature}`), which lantern-core takes
-- from a library: the operations, with the laws that library documents. Unforgeability is not among
-- them; the theorems say what was verified, not who could have signed it.
use xivlantern_dalamud.Prelude.{◌≡◌, Bool, true}
use xivlantern_dalamud.Prelude.{length}
use xivlantern_dalamud.Bytes.{Bytes}

pub record Signatures : Type 1 where
  pub SecretKey : Type 0
  -- `SecretKey::public`, as the 32 bytes of the key
  pub public : SecretKey → Bytes
  -- `SecretKey::sign`, as the 64 bytes of the signature
  pub sign : SecretKey → Bytes → Bytes
  -- `PublicKey::from_bytes` succeeds
  pub is_public_key : Bytes → Bool
  -- `PublicKey::verify` of a message and a signature
  pub verify : Bytes → Bytes → Bytes → Bool

-- The documented behaviour of a signature scheme.
pub record IsLawful (s : Signatures) : Type 0 where
  pub length-public : (k : s.SecretKey) → length (s.public k) ≡ 32
  pub length-sign : (k : s.SecretKey) (message : Bytes) → length (s.sign k message) ≡ 64
  pub public_valid : (k : s.SecretKey) → s.is_public_key (s.public k) ≡ true
  pub verify-sign :
      (k : s.SecretKey) (message : Bytes) → s.verify (s.public k) message (s.sign k message) ≡ true
