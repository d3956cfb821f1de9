-- ===== src/SealedFile/Download.antt =====
-- `fetch` of bounded_blob.rs. The connection is a library's: what each of its steps gives is an argument,
-- `none` where the step fails or the 30 seconds are over.
use xivlantern_dalamud.Prelude.{
  ℕ, Bool, not, ◌||◌, Option, none, some, ◌==◌, nat_eq, ltb, length, if◌then◌else◌,
}
use xivlantern_dalamud.Bytes.{Bytes}
use xivlantern_dalamud.SealedFile.{max_ciphertext_bytes}

-- What the answer of the other side is read to, step by step.
pub record Steps : Type 0 where
  -- `connected.next()`, and whether it starts with a root
  pub connected : Option Bool
  -- the size in the header of the tree
  pub tree_size : Option ℕ
  -- the leaves, which Bao has checked against the hash, and whether the answer ends without children
  pub content : Option (Bytes × Bool)
  -- whether the connection closes well
  pub closed : Bool

-- After the content: children, the closing, the length.
unfoldable pub finish : ℕ → Bytes × Bool → Bool → Option Bytes
finish size (bytes, closing) closed =
    if not closing || not closed
    then none
    else if not (length bytes == size)
    then none
    else some bytes

-- After the header of the tree: its size is compared before the content is read.
unfoldable pub read_content : Steps → ℕ → ℕ → ℕ → Option Bytes
unfolding finish
read_content steps offered_size max_size size =
    if not (size == offered_size) || ltb max_size size
    then none
    else elim steps.content [ none ↦ none | some content ↦ finish size content steps.closed ]

unfoldable pub read_tree : Steps → ℕ → ℕ → Bool → Option Bytes
unfolding read_content
read_tree steps offered_size max_size has_root =
    if not has_root then none else elim steps.tree_size [
      | none ↦ none
      | some size ↦ read_content steps offered_size max_size size
    ]

unfoldable pub fetch : Steps → ℕ → ℕ → Option Bytes
unfolding read_tree
fetch steps offered_size max_size =
    if ltb max_ciphertext_bytes max_size || ltb max_size offered_size
    then none
    else elim steps.connected [
      | none ↦ none
      | some has_root ↦ read_tree steps offered_size max_size has_root
    ]
