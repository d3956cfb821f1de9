-- ===== src/RemoteFiles/Run.antt =====
-- The bounds on the files of others, through every offer, withdrawal and leave.
use xivlantern_dalamud.Prelude.{
  ℕ, ◌≡◌, refl, Bool, true, false, not, ◌&&◌, Option, none, some, List, [], ◌∷◌, bytes_eq, nat_eq,
  ltb, not-false, if◌then◌else◌,
}
use xivlantern_dalamud.Bytes.{Bytes}
use xivlantern_dalamud.Text.{Text}
use xivlantern_dalamud.HashMap.{contains_key, retain, keys}
use xivlantern_dalamud.Ticket.Sealed.{SealedRoomTicket}
use xivlantern_dalamud.SealedFile.{max_file_bytes}
use xivlantern_dalamud.RemoteFiles.{
  SealedFile, BlobState, Shared, is_some_of, is_remote, is_offer, remote_offer_allowed, admit_offer,
  on_blob_offer, on_sealed_blob_offer, on_file_offer, remove_all, forget_remote_blobs,
  on_blob_unoffer, forget_room, insert_own,
}
use xivlantern_dalamud.RemoteFiles.Limited.{
  IsUncrowded, fewer-IsUncrowded, own-IsUncrowded, allowed-IsUncrowded, withdraw_all-blobs,
  count-remove_all,
}

-- What happens to the files of a node.
pub data Happening (Addr : Type 0) : Type 0 where
  -- ticket of the room, room, sender, hash, size, name
  offers : Option (SealedRoomTicket Addr) → ℕ → Bytes → Bytes → ℕ → Text → Happening Addr
  -- with the encrypted size
  offers_sealed : Option (SealedRoomTicket Addr) → ℕ → Bytes → Bytes → ℕ → ℕ → Text → Happening Addr
  offers_friend : Bytes → Bytes → ℕ → Text → Happening Addr
  withdraws : ℕ → Bytes → Bytes → Happening Addr
  leaves : ℕ → Happening Addr
  adds_own : Option (SealedFile Addr) → Option ℕ → ℕ → Text → Happening Addr

module _ {Addr : Type 0} where
  unfoldable pub happen : Shared Addr → Happening Addr → Shared Addr
  happen node (offers ticket room from hash size name) =
      on_blob_offer ticket room from hash size name node
  happen node (offers_sealed ticket room from hash size encrypted_size name) =
      on_sealed_blob_offer ticket room from hash size encrypted_size name node
  happen node (offers_friend peer hash size name) = on_file_offer peer hash size name node
  happen node (withdraws room from hash) = on_blob_unoffer room from hash node
  happen node (leaves room) = forget_room room node
  happen node (adds_own sealed room size name) = insert_own sealed room size name node

  unfoldable pub happen_all : Shared Addr → List (Happening Addr) → Shared Addr
  unfolding happen
  happen_all node [] = node
  happen_all node (h ∷ more) = happen_all (happen node h) more

  -- A handler that leaves the node alone when a test says so.
  unless-IsUncrowded :
      (b : Bool) (node changed : Shared Addr)
      → IsUncrowded node.blobs
      → (b ≡ false → IsUncrowded changed.blobs)
      → IsUncrowded (if b then node else changed).blobs
  unless-IsUncrowded true node changed l next = l
  unless-IsUncrowded false node changed l next = next refl

  admit_offer-IsUncrowded :
      (sealed : Option (SealedFile Addr)) (room : ℕ) (from hash : Bytes) (size : ℕ) (name : Text)
      (node : Shared Addr)
      → IsUncrowded node.blobs
      → IsUncrowded (admit_offer sealed room from hash size name node).blobs
  unfolding admit_offer
  admit_offer-IsUncrowded sealed room from hash size name node l =
      unless-IsUncrowded (contains_key node.blocked from) node _ l (λ free.
        unless-IsUncrowded (not (contains_key node.rooms room)) node _ l (λ known.
          unless-IsUncrowded (not (remote_offer_allowed node.blobs room from hash name)) node _ l
            (λ allowed.
              allowed-IsUncrowded sealed room from hash size name node (not-false _ allowed) l)))

  on_file_offer-IsUncrowded :
      (peer hash : Bytes) (size : ℕ) (name : Text) (node : Shared Addr)
      → IsUncrowded node.blobs
      → IsUncrowded (on_file_offer peer hash size name node).blobs
  unfolding on_file_offer
  on_file_offer-IsUncrowded peer hash size name node l =
      unless-IsUncrowded (ltb max_file_bytes size) node _ l (λ small.
        unless-IsUncrowded (contains_key node.blocked peer) node _ l (λ free.
          unless-IsUncrowded (not (contains_key node.friends peer)) node _ l (λ known.
            unless-IsUncrowded (not (remote_offer_allowed node.blobs 0 peer hash name)) node _ l
              (λ allowed.
                allowed-IsUncrowded none 0 peer hash size name node (not-false _ allowed) l))))

  forget_remote_blobs-IsUncrowded :
      (test : BlobState Addr → Bool) (node : Shared Addr)
      → IsUncrowded node.blobs
      → IsUncrowded (forget_remote_blobs test node).blobs
  unfolding forget_remote_blobs
  forget_remote_blobs-IsUncrowded test node l =
      let removed = keys (retain (λ blob s. is_remote s && test s) node.blobs) in
      rw (withdraw_all-blobs removed (record node { blobs = remove_all node.blobs removed })) (
        fewer-IsUncrowded node.blobs (remove_all node.blobs removed)
          (λ p. count-remove_all p node.blobs removed) l)

  happen-IsUncrowded :
      (node : Shared Addr) (h : Happening Addr)
      → IsUncrowded node.blobs
      → IsUncrowded (happen node h).blobs
  unfolding happen on_blob_offer on_sealed_blob_offer on_blob_unoffer forget_room insert_own
  happen-IsUncrowded node (offers none room from hash size name) l =
      admit_offer-IsUncrowded none room from hash size name node l
  happen-IsUncrowded node (offers (some ticket) room from hash size name) l = l
  happen-IsUncrowded node (offers_sealed none room from hash size encrypted_size name) l = l
  happen-IsUncrowded node (offers_sealed (some ticket) room from hash size encrypted_size name) l =
      unless-IsUncrowded _ node _ l (λ sizes.
        admit_offer-IsUncrowded (some (record { ticket = ticket; encrypted_size = encrypted_size }))
          room from hash size name node l)
  happen-IsUncrowded node (offers_friend peer hash size name) l =
      on_file_offer-IsUncrowded peer hash size name node l
  happen-IsUncrowded node (withdraws room from hash) l =
      forget_remote_blobs-IsUncrowded (is_offer room from hash) node l
  happen-IsUncrowded node (leaves room) l =
      forget_remote_blobs-IsUncrowded (λ s. is_some_of s.room room) node l
  happen-IsUncrowded node (adds_own sealed room size name) l =
      own-IsUncrowded node.blobs node.next _ refl l

  -- Whatever is offered in rooms, plain or encrypted, or over friend links, withdrawn, left or added by the user, in
  -- whatever order: a node that remembers at most 128 files of others, at most 8 of each, and no offer of a
  -- file by one sender in one room twice, goes on to do so.
  pub happen_all-IsUncrowded :
      (node : Shared Addr) (happenings : List (Happening Addr))
      → IsUncrowded node.blobs
      → IsUncrowded (happen_all node happenings).blobs
  unfolding happen_all
  happen_all-IsUncrowded node [] l = l
  happen_all-IsUncrowded node (h ∷ more) l =
      happen_all-IsUncrowded (happen node h) more (happen-IsUncrowded node h l)
