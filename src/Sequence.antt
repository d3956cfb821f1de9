-- ===== src/Sequence.antt =====
-- crates/lantern-cli/src/author/sequence.rs: the reservation of announcement numbers, on the
-- directory that holds them.
pub mod Names
pub mod Scan
pub mod Increasing
pub mod Run
pub mod Locked
mod Tests
use xivlantern_dalamud.Prelude.{
  ℕ, zero, suc, ◌+◌, ◌-◌, ◌*◌, ◌/◌, ◌%◌, ◌^◌, max, Bool, true, false, not, ◌&&◌, ◌||◌, Option, none,
  some, List, [], ◌∷◌, ◌++◌, ◌==◌, leb, ltb, length, take, drop, any, nat_eq, bytes_eq,
  if◌then◌else◌,
}
use xivlantern_dalamud.Bytes.{Bytes}
use xivlantern_dalamud.Utf8.{chars}
use xivlantern_dalamud.Sequence.Names.{reserved_name, digits_of, parse_u64}
use xivlantern_dalamud.HashMap
use xivlantern_dalamud.HashMap.{HashMap}

-- The texts of the errors.
pub data Refusal : Type 0 where
  not_positive no_history not_above_previous cannot_override directory_exists : Refusal
  directory_unavailable directory_is_link cannot_create not_persisted : Refusal
  author_missing author_is_link author_unreadable wrong_author : Refusal
  directory_unreadable too_many_entries entry_unreadable unexpected_entry invalid_record : Refusal
  invalid_number no_initial_record : Refusal
  not_above_reserved : ℕ → Refusal

pub data Outcome {ℓ} (T : Type ℓ) : Type ℓ where
  ok : T → Outcome T
  err : Refusal → Outcome T

-- What a directory holds under a name, and its entries in the order they are listed in.
pub data Entry : Type 0 where
  regular : Bytes → Entry
  link folder unreadable : Entry

abbrev pub Entries : Type 0
Entries = HashMap Bytes Entry

-- What stands at the directory's path: nothing, a link to nothing, or a file that is no directory, or a
-- directory, each perhaps behind a link.
pub data Place : Type 0 where
  missing dangling : Place
  file : (is_link : Bool) → Place
  directory : (is_link : Bool) → Entries → Place

-- What the system does when a file is made: all that is asked, nothing, or a file with some content
-- and a failure of the write or of a sync.
pub data Creation : Type 0 where
  done refused : Creation
  partial : Bytes → Creation

-- What the system does in one call of `reserve`.
pub record System : Type 0 where
  pub directory_made : Bool
  pub author_made : Creation
  pub first_made : Creation
  pub lock_made : Creation
  pub author_readable : Bool
  pub directory_readable : Bool
  pub number_made : Creation
  pub lock_removed : Bool

abbrev pub author_name : Bytes
author_name = 97 ∷ 117 ∷ 116 ∷ 104 ∷ 111 ∷ 114 ∷ []

abbrev pub lock_name : Bytes
lock_name = 108 ∷ 111 ∷ 99 ∷ 107 ∷ []

abbrev pub locked : Bytes
locked = 108 ∷ 111 ∷ 99 ∷ 107 ∷ 101 ∷ 100 ∷ []

abbrev pub max_entries : ℕ
max_entries = 16384

unfoldable pub create : Entries → Bytes → Bytes → Creation → Entries × Outcome (Unit {0})
create entries name content made =
    if HashMap.contains_key entries name then (entries, err cannot_create) else elim made [
      | done ↦ (HashMap.insert entries name (regular content), ok tt)
      | refused ↦ (entries, err cannot_create)
      | partial some_content ↦
          (HashMap.insert entries name (regular some_content), err not_persisted)
    ]

-- `create(..)?` and then another step on the same directory.
unfoldable pub and_then {ℓ} :
    {T : Type ℓ}
    → Entries × Outcome (Unit {0})
    → (Entries → Entries × Outcome T)
    → Entries × Outcome T
and_then (entries, ok u) next = next entries
and_then (entries, err e) next = (entries, err e)

unfoldable pub initialize : Place → Bytes → ℕ → System → Place × Outcome (Unit {0})
unfolding and_then
initialize missing public previous s =
    if not s.directory_made
    then (missing, err directory_exists)
    else let (entries, result) =
        and_then (create [] author_name public s.author_made)
          (λ entries. create entries (reserved_name previous) public s.first_made) in
      (directory false entries, result)
initialize place public previous s = (place, err directory_exists)

-- `recorded_author`, and its comparison.
unfoldable pub check_author : Entries → Bytes → System → Outcome (Unit {0})
check_author entries public s = elim (HashMap.get entries author_name) [
  | none ↦ err author_missing
  | some link ↦ err author_is_link
  | some folder ↦ err author_unreadable
  | some unreadable ↦ err author_missing
  | some (regular content) ↦
      let recorded = take 65 content in
      if not s.author_readable then err author_unreadable else elim (chars recorded) [
        | none ↦ err author_unreadable
        | some cs ↦ if recorded == public then ok tt else err wrong_author
      ]
]

-- `highest.map_or(number, |old| old.max(number))`
unfoldable pub raise : Option ℕ → ℕ → Option ℕ
raise none number = some number
raise (some old) number = some (max old number)

-- The number of an entry that is no author and no lock.
unfoldable pub number_of : Bytes → Entry → Outcome ℕ
number_of name entry = elim (digits_of name) [
  | none ↦ err unexpected_entry
  | some digits ↦ elim entry [
    | unreadable ↦ err entry_unreadable
    | link ↦ err invalid_record
    | folder ↦ err invalid_record
    | regular content ↦ elim (parse_u64 digits) [ none ↦ err invalid_number | some n ↦ ok n ]
  ]
]

-- What the loop does at one entry: refuse, go on, or count a number.
unfoldable pub visit : ℕ → Bytes → Entry → Outcome (Option ℕ)
visit index name entry = if leb max_entries index then err too_many_entries else elim (chars name) [
  | none ↦ err unexpected_entry
  | some cs ↦
      if name == author_name || name == lock_name
      then ok none
      else elim (number_of name entry) [ err e ↦ err e | ok n ↦ ok (some n) ]
]

unfoldable pub raise_by : Option ℕ → Option ℕ → Option ℕ
raise_by highest none = highest
raise_by highest (some n) = raise highest n

-- The loop over the directory.
unfoldable pub scan : ℕ → Option ℕ → Entries → Outcome (Option ℕ)
scan index highest [] = ok highest
scan index highest ((name, entry) ∷ entries) = elim (visit index name entry) [
  | err e ↦ err e
  | ok found ↦ scan (index + 1) (raise_by highest found) entries
]

-- The greatest number that is reserved.
unfoldable pub highest_of : Entries → System → Outcome ℕ
highest_of entries s =
    if not s.directory_readable then err directory_unreadable else elim (scan 0 none entries) [
      | err e ↦ err e
      | ok none ↦ err no_initial_record
      | ok (some highest) ↦ ok highest
    ]

-- What `reserve` does while it holds the lock.
unfoldable pub reserve_locked : Entries → Bytes → ℕ → System → Entries × Outcome (Unit {0})
reserve_locked entries public seq s = elim (check_author entries public s) [
  | err e ↦ (entries, err e)
  | ok _ ↦ elim (highest_of entries s) [
    | err e ↦ (entries, err e)
    | ok highest ↦
        if leb seq highest
        then (entries, err (not_above_reserved highest))
        else create entries (reserved_name seq) public s.number_made
  ]
]

-- `Drop` of the lock
unfoldable pub unlock : System → Entries × Outcome (Unit {0}) → Entries × Outcome (Unit {0})
unlock s (entries, result) =
    (if s.lock_removed then HashMap.remove entries lock_name else entries, result)

unfoldable pub reserve_in : Entries → Bytes → ℕ → System → Entries × Outcome (Unit {0})
unfolding and_then
reserve_in entries public seq s =
    and_then (create entries lock_name locked s.lock_made)
      (λ entries'. unlock s (reserve_locked entries' public seq s))

-- The part of `reserve` behind the initialization.
unfoldable pub reserve_at : Place → Bytes → ℕ → System → Place × Outcome (Unit {0})
reserve_at missing public seq s = (missing, err directory_unavailable)
reserve_at dangling public seq s = (dangling, err directory_is_link)
reserve_at (file true) public seq s = (file true, err directory_is_link)
reserve_at (file false) public seq s = (file false, err cannot_create)
reserve_at (directory true entries) public seq s = (directory true entries, err directory_is_link)
reserve_at (directory false entries) public seq s =
    let (entries', result) = reserve_in entries public seq s in (directory false entries', result)

-- `dir.exists()` follows links.
unfoldable pub exists : Place → Bool
exists missing = false
exists dangling = false
exists (file is_link) = true
exists (directory is_link entries) = true

unfoldable pub start : Place → Bytes → ℕ → Option ℕ → System → Place × Outcome (Unit {0})
start place public seq none s = (place, err no_history)
start place public seq (some last) s =
    if leb seq last then (place, err not_above_previous) else initialize place public last s

unfoldable pub is_some {ℓ} : {T : Type ℓ} → Option T → Bool
is_some none = false
is_some (some t) = true

unfoldable pub continue :
    Place × Outcome (Unit {0}) → Bytes → ℕ → System → Place × Outcome (Unit {0})
continue (place, err e) public seq s = (place, err e)
continue (place, ok u) public seq s = reserve_at place public seq s

unfoldable pub reserve : Place → Bytes → ℕ → Option ℕ → System → Place × Outcome (Unit {0})
unfolding continue
reserve place public seq previous s =
    if seq == 0
    then (place, err not_positive)
    else if not (exists place)
    then continue (start place public seq previous s) public seq s
    else if is_some previous
    then (place, err cannot_override)
    else reserve_at place public seq s
