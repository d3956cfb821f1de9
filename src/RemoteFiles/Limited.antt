-- ===== src/RemoteFiles/Limited.antt =====
-- How many files of others a node remembers.
use xivlantern_dalamud.Prelude.{
  ℕ, ◌+◌, ◌≤◌, ◌<◌, ◌≡◌, refl, sym, ◌∙◌, Bool, true, false, not, ◌&&◌, Bool-cases, inl, inr, Option,
  none, some, List, [], ◌∷◌, nat_eq, bytes_eq, ltb, arith, any, count_if, PartialEq, if◌then◌else◌,
}
use xivlantern_dalamud.Bytes.{Bytes}
use xivlantern_dalamud.Text.{Text}
use xivlantern_dalamud.HashMap.{HashMap, insert, remove}
use xivlantern_dalamud.RemoteFiles.{
  SealedFile, BlobState, Shared, is_some_of, is_some, is_remote, is_from, is_offer, values,
  has_good_name, remote_offer_allowed, insert_remote, remove_all, withdraw_all,
}

same_of_test {ℓ} :
    {K : Type ℓ} ⦃e : PartialEq K⦄ (o : Option K) (j k : K)
    → o ≡ some j
    → is_some_of o k ≡ true
    → j ≡ k
unfolding is_some_of
same_of_test ⦃e = e⦄ none j k found test = absurd (cc)
same_of_test ⦃e = e⦄ (some i) j k found test =
    let same : i ≡ j = cc in sym same ∙ (e.equals_iff i k).0 test

abbrev one_if : Bool → ℕ
one_if b = if b then 1 else 0

and_true : (a b : Bool) → (a && b) ≡ true → (a ≡ true) × (b ≡ true)
and_true a b h = ground arith

not-true : (a : Bool) → not a ≡ true → a ≡ false
not-true a h = ground arith

module _ {Addr : Type 0} where
  count-insert :
      (p : BlobState Addr → Bool) (blobs : HashMap ℕ (BlobState Addr)) (k : ℕ) (v : BlobState Addr)
      → count_if p (values (insert blobs k v)) ≤ count_if p (values blobs) + one_if (p v)
  unfolding insert count_if
  count-insert p [] k v = ground arith
  count-insert p ((j, w) ∷ blobs) k v = ground (arith, count-insert p blobs k v)

  count-remove :
      (p : BlobState Addr → Bool) (blobs : HashMap ℕ (BlobState Addr)) (k : ℕ)
      → count_if p (values (remove blobs k)) ≤ count_if p (values blobs)
  unfolding remove count_if
  count-remove p [] k = omega arith
  count-remove p ((j, w) ∷ blobs) k = ground (arith, count-remove p blobs k)

  pub count-remove_all :
      (p : BlobState Addr → Bool) (blobs : HashMap ℕ (BlobState Addr)) (handles : List ℕ)
      → count_if p (values (remove_all blobs handles)) ≤ count_if p (values blobs)
  unfolding remove_all
  count-remove_all p blobs [] = omega arith
  count-remove_all p blobs (k ∷ handles) =
      omega (arith, count-remove_all p (remove blobs k) handles, count-remove p blobs k)

  count-none :
      (p : BlobState Addr → Bool) (states : List (BlobState Addr))
      → any p states ≡ false
      → count_if p states ≡ 0
  unfolding any count_if
  count-none p [] h = refl
  count-none p (s ∷ states) h = ground (arith, count-none p states)

  -- At most 128 files of others, at most 8 of each, and each offer once.
  pub record IsUncrowded (blobs : HashMap ℕ (BlobState Addr)) : Type 0 where
    pub remote : count_if is_remote (values blobs) ≤ 128
    pub of_peer : (peer : Bytes) → count_if (is_from peer) (values blobs) ≤ 8
    pub once :
        (room : ℕ) (peer hash : Bytes) → count_if (is_offer room peer hash) (values blobs) ≤ 1

  -- A test holds for no more of the values than before.
  pub fewer-IsUncrowded :
      (blobs blobs' : HashMap ℕ (BlobState Addr))
      → ((p : BlobState Addr → Bool) → count_if p (values blobs') ≤ count_if p (values blobs))
      → IsUncrowded blobs
      → IsUncrowded blobs'
  fewer-IsUncrowded blobs blobs' fewer l = record {
    remote = omega (arith, fewer is_remote, l.remote);
    of_peer = λ peer. omega (arith, fewer (is_from peer), l.of_peer peer);
    once = λ room peer hash. omega (arith, fewer (is_offer room peer hash), l.once room peer hash);
  }

  pub withdraw_all-blobs :
      (handles : List ℕ) (node : Shared Addr) → (withdraw_all handles node).blobs ≡ node.blobs
  unfolding withdraw_all
  withdraw_all-blobs [] node = refl
  withdraw_all-blobs (blob ∷ handles) node = withdraw_all-blobs handles _

  count-insert_room :
      (p : BlobState Addr → Bool) (blobs : HashMap ℕ (BlobState Addr)) (k n : ℕ)
      (v : BlobState Addr)
      → count_if p (values blobs) < n
      → count_if p (values (insert blobs k v)) ≤ n
  count-insert_room p blobs k n v few = ground (arith, count-insert p blobs k v)

  count-insert_other :
      (p : BlobState Addr → Bool) (blobs : HashMap ℕ (BlobState Addr)) (k n : ℕ)
      (v : BlobState Addr)
      → p v ≡ false
      → count_if p (values blobs) ≤ n
      → count_if p (values (insert blobs k v)) ≤ n
  count-insert_other p blobs k n v other few = ground (arith, count-insert p blobs k v)

  -- A new offer, if there is room for it and its sender, and if it is not there yet.
  new-IsUncrowded :
      (blobs : HashMap ℕ (BlobState Addr)) (k : ℕ) (v : BlobState Addr) (room : ℕ)
      (from hash : Bytes)
      → v.from ≡ some from
      → v.room ≡ some room
      → v.hash ≡ some hash
      → count_if is_remote (values blobs) < 128
      → count_if (is_from from) (values blobs) < 8
      → count_if (is_offer room from hash) (values blobs) < 1
      → IsUncrowded blobs
      → IsUncrowded (insert blobs k v)
  unfolding is_from is_offer
  new-IsUncrowded blobs k v room from hash by_from in_room of_hash few few_of_peer new l = record {
    remote = count-insert_room is_remote blobs k 128 v few;
    of_peer = λ peer. elim (Bool-cases (is_from peer v)) [
      | inr other ↦ count-insert_other (is_from peer) blobs k 8 v other (l.of_peer peer)
      | inl mine ↦
          count-insert_room (is_from peer) blobs k 8 v
            (rw (same_of_test v.from from peer by_from mine) at few_of_peer)
    ];
    once = λ r peer h. elim (Bool-cases (is_offer r peer h v)) [
      | inr other ↦ count-insert_other (is_offer r peer h) blobs k 1 v other (l.once r peer h)
      | inl same ↦
          let (t₁, t₂) = and_true (is_some_of v.from peer) _ same in
          let (t₃, t₄) = and_true (is_some_of v.room r) _ t₂ in
          count-insert_room (is_offer r peer h) blobs k 1 v (
            rw
              (
                same_of_test v.from from peer by_from t₁,
                same_of_test v.room room r in_room t₃,
                same_of_test v.hash hash h of_hash t₄,
              )
              at new)
    ];
  }

  pub own-IsUncrowded :
      (blobs : HashMap ℕ (BlobState Addr)) (k : ℕ) (v : BlobState Addr)
      → v.from ≡ none
      → IsUncrowded blobs
      → IsUncrowded (insert blobs k v)
  unfolding is_from is_offer is_remote is_some is_some_of
  own-IsUncrowded blobs k v own l = record {
    remote =
        count-insert_other is_remote blobs k 128 v (rw (own, is_remote, is_some) refl) l.remote;
    of_peer = λ peer.
        count-insert_other (is_from peer) blobs k 8 v (rw (own, is_from, is_some_of) refl)
          (l.of_peer peer);
    once = λ r peer h.
        count-insert_other (is_offer r peer h) blobs k 1 v (rw (own, is_offer, is_some_of) refl)
          (l.once r peer h);
  }

  pub allowed-IsUncrowded :
      (sealed : Option (SealedFile Addr)) (room : ℕ) (from hash : Bytes) (size : ℕ) (name : Text)
      (node : Shared Addr)
      → remote_offer_allowed node.blobs room from hash name ≡ true
      → IsUncrowded node.blobs
      → IsUncrowded (insert_remote sealed room from hash size name node).blobs
  unfolding remote_offer_allowed insert_remote
  allowed-IsUncrowded sealed room from hash size name node allowed l =
      let (good, r₁) = and_true (has_good_name name) _ allowed in
      let (few, r₂) = and_true (ltb (count_if is_remote (values node.blobs)) 128) _ r₁ in
      let (few_of_peer, new) =
        and_true (ltb (count_if (is_from from) (values node.blobs)) 8) _ r₂ in
      let none_yet = count-none (is_offer room from hash) (values node.blobs) (not-true _ new) in
      new-IsUncrowded node.blobs node.next _ room from hash refl refl refl (ground arith)
        (ground arith) (omega arith) l
