-- ===== src/Sequence/Scan.antt =====
-- The loop of crates/lantern-cli/src/author/sequence.rs over the directory finds the greatest number.
use mathlib.Core.Path.{subst, subst₂}
use xivlantern_dalamud.Prelude.{
  ℕ, ◌+◌, ◌≤◌, ◌<◌, ◌^◌, ◌≡◌, refl, sym, Bool, true, false, not, Option, none, some, [], ◌∷◌, arith,
  ◌==◌, bytes_eq, if◌then◌else◌, Bool-cases, inl, inr,
}
use xivlantern_dalamud.Bytes.{Bytes}
use xivlantern_dalamud.HashMap
use xivlantern_dalamud.Sequence.{
  directory_unreadable, no_initial_record, Outcome, ok, err, Entry, regular, Entries, System,
  author_name, lock_name, number_of, visit, raise, raise_by, scan, highest_of,
}
use xivlantern_dalamud.Sequence.Names.{
  reserved_name, reserved_name-ne, digits_of-reserved_name, parse_u64-decimal,
}

number_of-reserved :
    (n : ℕ) (content : Bytes) → n < 2 ^ 64 → number_of (reserved_name n) (regular content) ≡ ok n
unfolding number_of
number_of-reserved n content h =
    rw (digits_of-reserved_name n, number_of) (rw (parse_u64-decimal n h) refl)

visit_reserved :
    (index n : ℕ) (content : Bytes) (found : Option ℕ)
    → n < 2 ^ 64
    → visit index (reserved_name n) (regular content) ≡ ok found
    → found ≡ some n
unfolding visit
visit_reserved index n content found h visited = ground (
  arith,
  number_of-reserved n content h,
  reserved_name-ne n author_name (omega arith),
  reserved_name-ne n lock_name (omega arith),
)

-- An option of a number that is at least `n`.
unfoldable AtLeast : ℕ → Option ℕ → Type 0
AtLeast n none = ⊥
AtLeast n (some m) = n ≤ m

raise_by-AtLeast :
    (n : ℕ) (highest found : Option ℕ) → AtLeast n highest → AtLeast n (raise_by highest found)
unfolding AtLeast raise_by raise
raise_by-AtLeast n highest none h = h
raise_by-AtLeast n none (some k) h = absurd h
raise_by-AtLeast n (some m) (some k) h = omega (arith, h)

raise_by_found : (n : ℕ) (highest : Option ℕ) → AtLeast n (raise_by highest (some n))
unfolding AtLeast raise_by raise
raise_by_found n none = omega arith
raise_by_found n (some m) = omega arith

-- One round of a scan that comes through.
scan_step :
    (index : ℕ) (highest : Option ℕ) (name : Bytes) (entry : Entry) (entries : Entries)
    (last : Option ℕ)
    → scan index highest ((name, entry) ∷ entries) ≡ ok last
    → (found : Option ℕ) × (visit index name entry ≡ ok found)
      × (scan (index + 1) (raise_by highest found) entries ≡ ok last)
unfolding scan
scan_step index highest name entry entries last scanned =
    by_visit (visit index name entry) refl scanned
  where
    by_visit :
        (visited : Outcome (Option ℕ))
        → visit index name entry ≡ visited
        → (elim visited as (λ k. Outcome (Option ℕ)) [
          | err e ↦ err e
          | ok found ↦ scan (index + 1) (raise_by highest found) entries
        ])
          ≡ ok last
        → (found : Option ℕ) × (visit index name entry ≡ ok found)
          × (scan (index + 1) (raise_by highest found) entries ≡ ok last)
    by_visit (err e) v s = absurd (cc)
    by_visit (ok found) v s = (found, v, s)

scan-AtLeast :
    (index n : ℕ) (highest : Option ℕ) (entries : Entries) (last : Option ℕ)
    → scan index highest entries ≡ ok last
    → AtLeast n highest
    → AtLeast n last
unfolding scan
scan-AtLeast index n highest [] last scanned h = subst (AtLeast n) (cc) h
scan-AtLeast index n highest ((name, entry) ∷ entries) last scanned h =
    let (found, visited, rest) = scan_step index highest name entry entries last scanned in
    scan-AtLeast (index + 1) n (raise_by highest found) entries last rest
      (raise_by-AtLeast n highest found h)

-- A scan that comes through gives a number at least as great as every reserved one.
scan_reserved :
    (index n : ℕ) (highest : Option ℕ) (entries : Entries) (last : Option ℕ) (content : Bytes)
    → n < 2 ^ 64
    → scan index highest entries ≡ ok last
    → HashMap.get entries (reserved_name n) ≡ some (regular content)
    → AtLeast n last
unfolding HashMap.get
scan_reserved index n highest [] last content h scanned found = absurd (cc)
scan_reserved index n highest ((name, entry) ∷ entries) last content h scanned there =
    let (found, visited, rest) = scan_step index highest name entry entries last scanned in
    elim (Bool-cases (name == reserved_name n)) [
      | inl here ↦
          let same : name ≡ reserved_name n = (bytes_eq.equals_iff name (reserved_name n)).0 here in
          let its : entry ≡ regular content = ground arith in
          let counted : found ≡ some n =
            visit_reserved index n content found h
              (subst₂ (λ k e. visit index k e ≡ ok found) same its visited) in
          scan-AtLeast (index + 1) n (raise_by highest found) entries last rest
            (subst (λ k. AtLeast n (raise_by highest k)) (sym counted) (raise_by_found n highest))
      | inr other ↦
          scan_reserved (index + 1) n (raise_by highest found) entries last content h rest
            (ground arith)
    ]

-- The number that `reserve` compares with is at least as great as every reserved one.
pub highest_of-le :
    (entries : Entries) (s : System) (n highest : ℕ) (content : Bytes)
    → n < 2 ^ 64
    → highest_of entries s ≡ ok highest
    → HashMap.get entries (reserved_name n) ≡ some (regular content)
    → n ≤ highest
unfolding highest_of AtLeast
highest_of-le entries s n highest content h found there =
    by_scan (scan 0 none entries) refl s.directory_readable found
  where
    by_scan :
        (scanned : Outcome (Option ℕ))
        → scan 0 none entries ≡ scanned
        → (readable : Bool)
        → (if not readable then err directory_unreadable else elim scanned as (λ k. Outcome ℕ) [
          | err e ↦ err e
          | ok none ↦ err no_initial_record
          | ok (some highest) ↦ ok highest
        ])
          ≡ ok highest
        → n ≤ highest
    by_scan scanned e false f = absurd (cc)
    by_scan (err r) e true f = absurd (cc)
    by_scan (ok none) e true f = absurd (cc)
    by_scan (ok (some m)) e true f =
        let least : n ≤ m = scan_reserved 0 n none entries (some m) content h e there in
        let same : m ≡ highest = ground arith in omega (arith, least, same)
