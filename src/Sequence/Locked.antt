-- ===== src/Sequence/Locked.antt =====
-- The lock of crates/lantern-cli/src/author/sequence.rs, and what a call that is granted writes.
use xivlantern_dalamud.Prelude.{
  ℕ, ◌<◌, ◌≡◌, refl, ap, ◌∙◌, Bool, true, false, Option, none, some, arith, ◌==◌, bytes_eq, nat_eq,
  if◌then◌else◌, leb,
}
use xivlantern_dalamud.Bytes.{Bytes}
use xivlantern_dalamud.HashMap
use xivlantern_dalamud.HashMap.Laws
use xivlantern_dalamud.Sequence.{
  Refusal, cannot_create, not_positive, cannot_override, directory_is_link, ok, err, regular,
  Entries, directory, Creation, done, System, lock_name, locked, create, and_then, check_author,
  highest_of, reserve_locked, unlock, reserve_in, reserve_at, exists, is_some, reserve,
}
use xivlantern_dalamud.Sequence.Names.{reserved_name, reserved_name-ne}

create_taken :
    (entries : Entries) (name content : Bytes) (made : Creation)
    → HashMap.contains_key entries name ≡ true
    → create entries name content made ≡ (entries, err cannot_create)
unfolding create
create_taken entries name content made there = rw (there, create) refl

-- While a lock file stands in the directory, every call is refused and changes nothing, whoever asks
-- for whatever number, and whatever the system does.
pub reserve_while_locked :
    (is_link : Bool) (entries : Entries) (public : Bytes) (seq : ℕ) (previous : Option ℕ)
    (s : System)
    → HashMap.contains_key entries lock_name ≡ true
    → (e : Refusal) × (reserve (directory is_link entries) public seq previous s
        ≡ (directory is_link entries, err e))
unfolding reserve exists reserve_at reserve_in
reserve_while_locked is_link entries public seq previous s there =
    by_tests is_link (seq == 0) (is_some previous)
  where
    by_tests :
        (linked zero_seq given : Bool)
        → (e : Refusal) × ((if zero_seq
              then (directory linked entries, err not_positive)
              else if given
              then (directory linked entries, err cannot_override)
              else reserve_at (directory linked entries) public seq s)
            ≡ (directory linked entries, err e))
    by_tests linked true given = (not_positive, refl)
    by_tests linked false true = (cannot_override, refl)
    by_tests true false false = (directory_is_link, refl)
    by_tests false false false = (
      cannot_create,
      ap
          (λ r. (
            directory false (and_then r (λ held. unlock s (reserve_locked held public seq s))).0,
            (and_then r (λ held. unlock s (reserve_locked held public seq s))).1,
          ))
          (create_taken entries lock_name locked s.lock_made there),
    )

create_new :
    (entries : Entries) (name content : Bytes) (made : Creation)
    → HashMap.get entries name ≡ none
    → made ≡ done
    → create entries name content made ≡ (HashMap.insert entries name (regular content), ok tt)
unfolding create
create_new entries name content made new works =
    rw (Laws.contains_key-get entries name, create) (rw (new, create) (rw (works, create) refl))

reserve_locked_granted :
    (held : Entries) (public : Bytes) (seq highest : ℕ) (s : System)
    → HashMap.get held (reserved_name seq) ≡ none
    → s.number_made ≡ done
    → check_author held public s ≡ ok tt
    → highest_of held s ≡ ok highest
    → highest < seq
    → reserve_locked held public seq s
      ≡ (HashMap.insert held (reserved_name seq) (regular public), ok tt)
unfolding reserve_locked
reserve_locked_granted held public seq highest s new works author read above =
    let high : leb seq highest ≡ false = ground arith in
    rw (author, reserve_locked)
      (rw (read, reserve_locked)
        (rw high (create_new held (reserved_name seq) public s.number_made new works)))

-- On a directory without a lock, when the system does what is asked, the author file and the numbers
-- are read, and the number is greater than the greatest and has no file yet, a call is granted: it adds
-- the file of the number, leaves every other file as it was, and takes the lock away again.
pub reserve_granted :
    (entries : Entries) (public : Bytes) (seq highest : ℕ) (s : System)
    → HashMap.get entries lock_name ≡ none
    → HashMap.get entries (reserved_name seq) ≡ none
    → 0 < seq
    → s.lock_made ≡ done
    → s.number_made ≡ done
    → s.lock_removed ≡ true
    → check_author (HashMap.insert entries lock_name (regular locked)) public s ≡ ok tt
    → highest_of (HashMap.insert entries lock_name (regular locked)) s ≡ ok highest
    → highest < seq
    → (entries' : Entries) × (reserve (directory false entries) public seq none s
        ≡ (directory false entries', ok tt))
      × ((name : Bytes)
          → HashMap.get entries' name ≡ (
              if reserved_name seq == name
              then some (regular public)
              else HashMap.get entries name))
unfolding reserve exists reserve_at reserve_in and_then unlock is_some
reserve_granted entries public seq highest s unlocked new pos lock_made number_made removed author
      read above =
    let held : Entries = HashMap.insert entries lock_name (regular locked) in
    let written : Entries = HashMap.insert held (reserved_name seq) (regular public) in
    let apart = reserved_name-ne seq lock_name (omega arith) in
    let positive : (seq == 0) ≡ false = ground arith in
    let still_new : HashMap.get held (reserved_name seq) ≡ none = ground (
      arith,
      Laws.get-insert entries lock_name (reserved_name seq) (regular locked),
      bytes_eq.equals_iff lock_name (reserved_name seq),
      bytes_eq.equals_iff (reserved_name seq) lock_name,
    ) in
    (
      HashMap.remove written lock_name,
      rw (positive, reserve)
          (ap
              (λ r. (
                directory false (and_then r (λ h. unlock s (reserve_locked h public seq s))).0,
                (and_then r (λ h. unlock s (reserve_locked h public seq s))).1,
              ))
              (create_new entries lock_name locked s.lock_made unlocked lock_made)
            ∙ ap (λ r. (directory false (unlock s r).0, (unlock s r).1))
                (reserve_locked_granted held public seq highest s still_new number_made author read
                  above)
            ∙ ap
                (λ b. (
                  directory false (if b then HashMap.remove written lock_name else written),
                  ok tt,
                ))
                removed),
      λ name. ground (
        arith,
        apart,
        unlocked,
        Laws.get-remove written lock_name name,
        Laws.get-insert held (reserved_name seq) name (regular public),
        Laws.get-insert entries lock_name name (regular locked),
        bytes_eq.equals_iff lock_name name,
        bytes_eq.equals_iff (reserved_name seq) name,
        bytes_eq.equals_iff (reserved_name seq) lock_name,
      ),
    )
