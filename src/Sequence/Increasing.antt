-- ===== src/Sequence/Increasing.antt =====
-- crates/lantern-cli/src/author/sequence.rs adds numbers to the directory and takes none away.
use xivlantern_dalamud.Prelude.{
  ℕ, ◌<◌, ◌^◌, ◌≡◌, refl, Bool, true, false, not, Option, some, arith, ◌==◌, bytes_eq, nat_eq,
  if◌then◌else◌, Bool-cases, inl, inr, leb,
}
use xivlantern_dalamud.Bytes.{Bytes}
use xivlantern_dalamud.HashMap
use xivlantern_dalamud.HashMap.Laws
use xivlantern_dalamud.Sequence.{
  Refusal, not_above_reserved, not_positive, cannot_override, Outcome, ok, err, regular, Entries,
  Place, missing, dangling, file, directory, Creation, done, refused, partial, System, lock_name,
  locked, create, and_then, check_author, highest_of, reserve_locked, unlock, reserve_in,
  reserve_at, exists, start, is_some, continue, reserve,
}
use xivlantern_dalamud.Sequence.Names.{reserved_name, reserved_name-ne}
use xivlantern_dalamud.Sequence.Scan.{highest_of-le}

-- A number that has its file.
abbrev pub HasNumber : Entries → ℕ → Type 0
HasNumber entries n =
    (content : Bytes) × (HashMap.get entries (reserved_name n) ≡ some (regular content))

-- A number that was handed out: no later call may give it, or a smaller one, again.
unfoldable pub IsReserved : Place → ℕ → Type 0
IsReserved missing n = ⊥
IsReserved dangling n = ⊥
IsReserved (file is_link) n = ⊥
IsReserved (directory is_link entries) n = HasNumber entries n

create_keeps :
    (entries : Entries) (name content : Bytes) (made : Creation) (n : ℕ)
    → HasNumber entries n
    → HasNumber (create entries name content made).0 n
unfolding create
create_keeps entries name content made n (c, there) = (c, by_creation made)
  where
    kept :
        (put : Bytes)
        → HashMap.contains_key entries name ≡ false
        → HashMap.get (HashMap.insert entries name (regular put)) (reserved_name n)
          ≡ some (regular c)
    kept put new = ground (
      arith,
      Laws.contains_key-get entries name,
      Laws.get-insert entries name (reserved_name n) (regular put),
      bytes_eq.equals_iff name (reserved_name n),
      there,
    )

    by_creation :
        (m : Creation)
        → HashMap.get (create entries name content m).0 (reserved_name n) ≡ some (regular c)
    by_creation done = ground (arith, kept content, there)
    by_creation refused = ground (arith, there)
    by_creation (partial put) = ground (arith, kept put, there)

create_ok :
    (entries : Entries) (n : ℕ) (content : Bytes) (made : Creation) (u : Unit)
    → (create entries (reserved_name n) content made).1 ≡ ok u
    → HasNumber (create entries (reserved_name n) content made).0 n
unfolding create
create_ok entries n content made u success = (
  content,
  ground (
    arith,
    Laws.get-insert entries (reserved_name n) (reserved_name n) (regular content),
    bytes_eq.equals_iff (reserved_name n) (reserved_name n),
  ),
)

unlock_keeps :
    (s : System) (r : Entries × Outcome (Unit {0})) (n : ℕ)
    → HasNumber r.0 n
    → HasNumber (unlock s r).0 n
unfolding unlock
unlock_keeps s r n (c, there) = (
  c,
  ground (
    arith,
    Laws.get-remove r.0 lock_name (reserved_name n),
    reserved_name-ne n lock_name (omega arith),
    bytes_eq.equals_iff lock_name (reserved_name n),
    bytes_eq.equals_iff (reserved_name n) lock_name,
    there,
  ),
)

unlock_result : (s : System) (r : Entries × Outcome (Unit {0})) → (unlock s r).1 ≡ r.1
unfolding unlock
unlock_result s r = refl

-- What a step does to the numbers of a directory: it keeps them, and when it succeeds, it adds one
-- that is above them all.
record Adds (seq : ℕ) (before : Entries) (r : Entries × Outcome (Unit {0})) : Type 0 where
  keeps : (n : ℕ) → HasNumber before n → HasNumber r.0 n
  above : (n : ℕ) (u : Unit) → n < 2 ^ 64 → r.1 ≡ ok u → HasNumber before n → n < seq
  added : (u : Unit) → r.1 ≡ ok u → HasNumber r.0 seq

reserve_locked-Adds :
    (entries : Entries) (public : Bytes) (seq : ℕ) (s : System)
    → Adds seq entries (reserve_locked entries public seq s)
unfolding reserve_locked
reserve_locked-Adds entries public seq s =
    by_checks (check_author entries public s) (highest_of entries s) refl
  where
    unchanged : (e : Refusal) → Adds seq entries (entries, err e)
    unchanged e = record {
      keeps = λ n h. h;
      above = λ n u b f h. absurd (cc);
      added = λ u f. absurd (cc);
    }

    by_number :
        (highest : ℕ)
        → highest_of entries s ≡ ok highest
        → Adds seq entries (
            if leb seq highest
            then (entries, err (not_above_reserved highest))
            else create entries (reserved_name seq) public s.number_made)
    by_number highest e = elim (Bool-cases (leb seq highest)) [
      | inl low ↦ rw low (unchanged (not_above_reserved highest))
      | inr high ↦ rw high (record {
        keeps = λ n h. create_keeps entries (reserved_name seq) public s.number_made n h;
        above =
            λ n u b f h. let below = highest_of-le entries s n highest h.0 b e h.1 in ground arith;
        added = λ u f. create_ok entries seq public s.number_made u f;
      })
    ]

    by_checks :
        (checked : Outcome (Unit {0})) (highest : Outcome ℕ)
        → highest_of entries s ≡ highest
        → Adds seq entries (elim checked as (λ k. Entries × Outcome (Unit {0})) [
          | err e ↦ (entries, err e)
          | ok _ ↦ elim highest as (λ k. Entries × Outcome (Unit {0})) [
            | err e ↦ (entries, err e)
            | ok highest ↦
                if leb seq highest
                then (entries, err (not_above_reserved highest))
                else create entries (reserved_name seq) public s.number_made
          ]
        ])
    by_checks (err e) highest h = unchanged e
    by_checks (ok u) (err e) h = unchanged e
    by_checks (ok u) (ok highest) h = by_number highest h

reserve_in-Adds :
    (entries : Entries) (public : Bytes) (seq : ℕ) (s : System)
    → Adds seq entries (reserve_in entries public seq s)
unfolding reserve_in and_then
reserve_in-Adds entries public seq s =
    by_lock (create entries lock_name locked s.lock_made)
      λ n. create_keeps entries lock_name locked s.lock_made n
  where
    by_lock :
        (locking : Entries × Outcome (Unit {0}))
        → ((n : ℕ) → HasNumber entries n → HasNumber locking.0 n)
        → Adds seq entries
            (and_then locking (λ entries'. unlock s (reserve_locked entries' public seq s)))
    by_lock (held, err e) keeps = record {
      keeps = keeps;
      above = λ n u b f h. absurd (cc);
      added = λ u f. absurd (cc);
    }
    by_lock (held, ok v) keeps =
        let inner = reserve_locked-Adds held public seq s in
        let r = reserve_locked held public seq s in
        record {
          keeps = λ n h. unlock_keeps s r n (inner.keeps n (keeps n h));
          above = λ n u b f h. inner.above n u b (ground (arith, unlock_result s r)) (keeps n h);
          added = λ u f. unlock_keeps s r seq (inner.added u (ground (arith, unlock_result s r)));
        }

-- The same of a whole call, on the place of the directory.
pub record AddsAt (seq : ℕ) (before : Place) (r : Place × Outcome (Unit {0})) : Type 0 where
  pub keeps : (n : ℕ) → IsReserved before n → IsReserved r.0 n
  pub above : (n : ℕ) (u : Unit) → n < 2 ^ 64 → r.1 ≡ ok u → IsReserved before n → n < seq
  pub added : (u : Unit) → r.1 ≡ ok u → IsReserved r.0 seq

unchanged_at : (seq : ℕ) (place : Place) (e : Refusal) → AddsAt seq place (place, err e)
unchanged_at seq place e = record {
  keeps = λ n h. h;
  above = λ n u b f h. absurd (cc);
  added = λ u f. absurd (cc);
}

reserve_at-AddsAt :
    (place : Place) (public : Bytes) (seq : ℕ) (s : System)
    → AddsAt seq place (reserve_at place public seq s)
unfolding reserve_at IsReserved
reserve_at-AddsAt missing public seq s = unchanged_at seq missing _
reserve_at-AddsAt dangling public seq s = unchanged_at seq dangling _
reserve_at-AddsAt (file true) public seq s = unchanged_at seq (file true) _
reserve_at-AddsAt (file false) public seq s = unchanged_at seq (file false) _
reserve_at-AddsAt (directory true entries) public seq s =
    unchanged_at seq (directory true entries) _
reserve_at-AddsAt (directory false entries) public seq s =
    let inner = reserve_in-Adds entries public seq s in
    record { keeps = inner.keeps; above = inner.above; added = inner.added }

-- Where nothing stands yet, nothing is reserved.
nothing_reserved : (place : Place) (n : ℕ) → exists place ≡ false → IsReserved place n → ⊥
unfolding exists IsReserved
nothing_reserved missing n e h = h
nothing_reserved dangling n e h = h
nothing_reserved (file is_link) n e h = absurd (cc)
nothing_reserved (directory is_link entries) n e h = absurd (cc)

continue-AddsAt :
    (place : Place) (started : Place × Outcome (Unit {0})) (public : Bytes) (seq : ℕ) (s : System)
    → exists place ≡ false
    → AddsAt seq place (continue started public seq s)
unfolding continue
continue-AddsAt place (next, err e) public seq s new = record {
  keeps = λ n h. absurd (nothing_reserved place n new h);
  above = λ n u b f h. absurd (cc);
  added = λ u f. absurd (cc);
}
continue-AddsAt place (next, ok u) public seq s new =
    let inner = reserve_at-AddsAt next public seq s in
    record {
      keeps = λ n h. absurd (nothing_reserved place n new h);
      above = λ n u b f h. absurd (nothing_reserved place n new h);
      added = inner.added;
    }

pub reserve-AddsAt :
    (place : Place) (public : Bytes) (seq : ℕ) (previous : Option ℕ) (s : System)
    → AddsAt seq place (reserve place public seq previous s)
unfolding reserve
reserve-AddsAt place public seq previous s =
    by_tests (seq == 0) (exists place) refl (is_some previous)
  where
    by_tests :
        (zero_seq there : Bool)
        → exists place ≡ there
        → (given : Bool)
        → AddsAt seq place (
            if zero_seq
            then (place, err not_positive)
            else if not there
            then continue (start place public seq previous s) public seq s
            else if given
            then (place, err cannot_override)
            else reserve_at place public seq s)
    by_tests true there e given = unchanged_at seq place not_positive
    by_tests false false e given =
        continue-AddsAt place (start place public seq previous s) public seq s e
    by_tests false true e true = unchanged_at seq place cannot_override
    by_tests false true e false = reserve_at-AddsAt place public seq s
