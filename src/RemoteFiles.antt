-- ===== src/RemoteFiles.antt =====
-- crates/lantern-core/src/node.rs and node/friends.rs: the files that others offer, in rooms and over friend
-- links, and how offers are forgotten. A save that runs is what its cancellation says.
pub mod Limited
pub mod Run
mod Tests
use xivlantern_dalamud.Prelude.{
  ℕ, ◌+◌, Bool, true, false, not, ◌&&◌, ◌||◌, Option, none, some, List, [], ◌∷◌, ◌==◌, PartialEq,
  nat_eq, bytes_eq, ltb, leb, any, length, count_if, map, if◌then◌else◌,
}
use xivlantern_dalamud.Bytes.{Bytes}
use xivlantern_dalamud.Utf8.{is_control}
use xivlantern_dalamud.Text.{Text, as_bytes}
use xivlantern_dalamud.HashMap.{HashMap, contains_key, insert, remove, retain, update_at, keys}
use xivlantern_dalamud.Event.{blob_offer, blob_withdrawn}
use xivlantern_dalamud.EventQueue.{EventQueue, emit, wrapping_inc}
use xivlantern_dalamud.Ticket.Sealed.{SealedRoomTicket}
use xivlantern_dalamud.SealedFile.{max_file_bytes, max_ciphertext_bytes}

pub record SealedFile (Addr : Type 0) : Type 0 where
  pub ticket : SealedRoomTicket Addr
  pub encrypted_size : ℕ

pub record BlobState (Addr : Type 0) : Type 0 where
  pub sealed : Option (SealedFile Addr)
  pub hash : Option Bytes
  pub name : Text
  pub size : ℕ
  pub from : Option Bytes
  pub room : Option ℕ

-- The fields of `Shared` that the offers use.
pub record Shared (Addr : Type 0) : Type 0 where
  pub rooms : HashMap ℕ (Unit {0})
  pub friends : HashMap Bytes (Unit {0})
  pub blocked : HashMap Bytes (Unit {0})
  pub blobs : HashMap ℕ (BlobState Addr)
  -- of each save that runs, whether it was cancelled
  pub file_jobs : HashMap ℕ Bool
  pub next : ℕ
  pub events : EventQueue

-- `o == Some(k)`
unfoldable pub is_some_of {ℓ} : {K : Type ℓ} → ⦃e : PartialEq K⦄ → Option K → K → Bool
is_some_of none k = false
is_some_of (some j) k = j == k

unfoldable pub is_some {ℓ} : {K : Type ℓ} → Option K → Bool
is_some none = false
is_some (some k) = true

unfoldable pub has_good_name : Text → Bool
has_good_name name =
    leb 1 (length (as_bytes name))
    && (leb (length (as_bytes name)) 1024 && not (any is_control name))

module _ {Addr : Type 0} where
  unfoldable pub is_remote : BlobState Addr → Bool
  is_remote s = is_some s.from

  unfoldable pub is_from : Bytes → BlobState Addr → Bool
  is_from from s = is_some_of s.from from

  unfoldable pub is_offer : ℕ → Bytes → Bytes → BlobState Addr → Bool
  is_offer room from hash s =
      is_some_of s.from from && (is_some_of s.room room && is_some_of s.hash hash)

  -- `blobs.values()`
  abbrev pub values : HashMap ℕ (BlobState Addr) → List (BlobState Addr)
  values blobs = map (λ entry. entry.1) blobs

  unfoldable pub remote_offer_allowed : HashMap ℕ (BlobState Addr) → ℕ → Bytes → Bytes → Text → Bool
  unfolding is_remote is_from is_offer has_good_name
  remote_offer_allowed blobs room from hash name =
      has_good_name name
      && (ltb (count_if is_remote (values blobs)) 128
          && (ltb (count_if (is_from from) (values blobs)) 8
              && not (any (is_offer room from hash) (values blobs))))

  unfoldable pub insert_remote :
      Option (SealedFile Addr) → ℕ → Bytes → Bytes → ℕ → Text → Shared Addr → Shared Addr
  insert_remote sealed room from hash size name node = record node {
    blobs = insert node.blobs node.next (record {
      sealed = sealed;
      hash = some hash;
      name = name;
      size = size;
      from = some from;
      room = some room;
    });
    next = wrapping_inc node.next;
    events = emit node.events (
        blob_offer room from node.next (record { hash = hash; size = size; name = as_bytes name }));
  }

  -- What both kinds of offers in a room do when their own tests are passed.
  unfoldable pub admit_offer :
      Option (SealedFile Addr) → ℕ → Bytes → Bytes → ℕ → Text → Shared Addr → Shared Addr
  unfolding remote_offer_allowed insert_remote
  admit_offer sealed room from hash size name node =
      if contains_key node.blocked from
      then node
      else if not (contains_key node.rooms room)
      then node
      else if not (remote_offer_allowed node.blobs room from hash name)
      then node
      else insert_remote sealed room from hash size name node

  -- `Frame::BlobOffer`
  unfoldable pub on_blob_offer :
      Option (SealedRoomTicket Addr) → ℕ → Bytes → Bytes → ℕ → Text → Shared Addr → Shared Addr
  unfolding admit_offer
  on_blob_offer (some ticket) room from hash size name node = node
  on_blob_offer none room from hash size name node = admit_offer none room from hash size name node

  -- `Frame::SealedBlobOffer`; `size.saturating_add(256)` is no more than the sum here, as the size is bounded.
  unfoldable pub on_sealed_blob_offer :
      Option (SealedRoomTicket Addr) → ℕ → Bytes → Bytes → ℕ → ℕ → Text → Shared Addr → Shared Addr
  unfolding admit_offer
  on_sealed_blob_offer none room from hash size encrypted_size name node = node
  on_sealed_blob_offer (some ticket) room from hash size encrypted_size name node =
      if ltb max_file_bytes size
        || (ltb encrypted_size size
            || (ltb (size + 256) encrypted_size || ltb max_ciphertext_bytes encrypted_size))
      then node
      else admit_offer (some (record { ticket = ticket; encrypted_size = encrypted_size })) room
          from hash size name node

  -- `Wire::FileOffer`, in the room 0
  unfoldable pub on_file_offer : Bytes → Bytes → ℕ → Text → Shared Addr → Shared Addr
  unfolding remote_offer_allowed insert_remote
  on_file_offer peer hash size name node =
      if ltb max_file_bytes size
      then node
      else if contains_key node.blocked peer
      then node
      else if not (contains_key node.friends peer)
      then node
      else if not (remote_offer_allowed node.blobs 0 peer hash name)
      then node
      else insert_remote none 0 peer hash size name node

  unfoldable pub remove_all : HashMap ℕ (BlobState Addr) → List ℕ → HashMap ℕ (BlobState Addr)
  remove_all blobs [] = blobs
  remove_all blobs (blob ∷ handles) = remove_all (remove blobs blob) handles

  unfoldable pub withdraw_all : List ℕ → Shared Addr → Shared Addr
  withdraw_all [] node = node
  withdraw_all (blob ∷ handles) node = withdraw_all handles (record node {
    file_jobs = update_at (λ cancelled. true) node.file_jobs blob;
    events = emit node.events (blob_withdrawn blob);
  })

  unfoldable pub forget_remote_blobs : (BlobState Addr → Bool) → Shared Addr → Shared Addr
  unfolding remove_all withdraw_all is_remote
  forget_remote_blobs test node =
      let removed = keys (retain (λ blob s. is_remote s && test s) node.blobs) in
      withdraw_all removed (record node { blobs = remove_all node.blobs removed })

  -- `Frame::BlobUnoffer`, and `Wire::FileWithdraw` with the room 0
  unfoldable pub on_blob_unoffer : ℕ → Bytes → Bytes → Shared Addr → Shared Addr
  unfolding forget_remote_blobs
  on_blob_unoffer room from hash node = forget_remote_blobs (is_offer room from hash) node

  -- What a leave does to the files.
  unfoldable pub forget_room : ℕ → Shared Addr → Shared Addr
  unfolding forget_remote_blobs
  forget_room room node = forget_remote_blobs (λ s. is_some_of s.room room) node

  -- What `blob_add_bytes`, `blob_add_file` and `blob_add_sealed_bytes` put into the table.
  unfoldable pub insert_own :
      Option (SealedFile Addr) → Option ℕ → ℕ → Text → Shared Addr → Shared Addr
  insert_own sealed room size name node = record node {
    blobs = insert node.blobs node.next (record {
      sealed = sealed;
      hash = none;
      name = name;
      size = size;
      from = none;
      room = room;
    });
    next = wrapping_inc node.next;
  }
