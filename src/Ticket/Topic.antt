-- ===== src/Ticket/Topic.antt =====
-- crates/lantern-core/src/topic.rs: the gossip topic of a room, from an app id, a scope and a key. The
-- hash, blake3, is a library's, and a text is its bytes.
pub mod Separated
use xivlantern_dalamud.Prelude.{◌++◌, [], ◌∷◌}
use xivlantern_dalamud.Bytes.{Bytes}
use xivlantern_dalamud.Ticket.Scope.{Scope, as_str}

-- `blake3::Hasher`: what it has been given
abbrev pub Hasher : Type 0
Hasher = Bytes

unfoldable pub update : Hasher → Bytes → Hasher
update hasher input = hasher ++ input

abbrev pub separator : Bytes
separator = 0x1f ∷ []

unfoldable pub hashed : Bytes → Scope → Bytes → Hasher
unfolding update
hashed app_id scope key =
    update (update (update (update (update [] app_id) separator) (as_str scope)) separator) key

unfoldable pub derive : (Bytes → Bytes) → Bytes → Scope → Bytes → Bytes
derive blake3 app_id scope key = blake3 (hashed app_id scope key)
