-- ===== src/SealedRoom.antt =====
-- crates/lantern-core/src/node/sealed_room.rs: which packets of a sealed room are new.
pub mod Window
pub mod Register
pub mod StaysSealed
mod Tests
use xivlantern_dalamud.Prelude.{
  ℕ, Bool, true, false, List, [], ◌∷◌, ◌++◌, ltb, length, bytes_eq, if◌then◌else◌,
}
use xivlantern_dalamud.Bytes.{Bytes}
use xivlantern_dalamud.HashMap.{HashMap, contains_key, insert, remove}

abbrev pub window_len : ℕ
window_len = 2048

pub record Replay : Type 0 where
  pub queue : List Bytes
  pub seen : HashMap Bytes (Unit {0})

-- `Replay::default()`
abbrev pub empty : Replay
empty = record { queue = []; seen = [] }

-- The front of the queue is forgotten. The queue is not empty when this is called.
unfoldable pub forget_front : List Bytes → HashMap Bytes (Unit {0}) → Replay
forget_front [] seen = record { queue = []; seen = seen }
forget_front (old ∷ queue) seen = record { queue = queue; seen = remove seen old }

-- The hash, which blake3 computes, is new: it is noted, and the oldest forgotten if it is one too many.
unfoldable pub push_hash : Replay → Bytes → Replay
unfolding forget_front
push_hash r hash =
    let queue = r.queue ++ hash ∷ [] in
    let seen = insert r.seen hash tt in
    if ltb window_len (length queue)
    then forget_front queue seen
    else record { queue = queue; seen = seen }

-- Whether the packet is new, and the window after it.
unfoldable pub admit : (Bytes → Bytes) → Replay → Bytes → Bool × Replay
admit blake3 r packet =
    if contains_key r.seen (blake3 packet) then (false, r) else (true, push_hash r (blake3 packet))
