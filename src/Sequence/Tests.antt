-- ===== src/Sequence/Tests.antt =====
-- Runs of crates/lantern-cli/src/author/sequence.rs, and its theorems at concrete inputs.
use xivlantern_dalamud.Prelude.{
  ℕ, ◌≡◌, All, refl, true, false, Option, none, some, List, [], ◌∷◌, arith, nat_eq, bytes_eq,
  bytes_beq, any, if◌then◌else◌, ◌==◌,
}
use xivlantern_dalamud.Bytes.{Bytes}
use xivlantern_dalamud.Utf8.{chars}
use xivlantern_dalamud.HashMap
use xivlantern_dalamud.Sequence.{
  ok, regular, Entries, missing, directory, done, System, author_name, lock_name, locked, create,
  and_then, initialize, check_author, raise, number_of, visit, raise_by, scan, highest_of,
  reserve_locked, unlock, reserve_in, reserve_at, exists, start, is_some, continue, reserve,
}
use xivlantern_dalamud.Sequence.Names.{
  decimal, reserved_name, is_digit, decimal_value_from, parse_u64, digits_of,
}
use xivlantern_dalamud.Sequence.Run.{
  Request, reserve_all, Increasing, IsU64, reserve_all-Increasing,
}
use xivlantern_dalamud.Sequence.Locked.{reserve_granted}

abbrev public : Bytes
public = 112 ∷ []

-- A system that does what is asked.
abbrev works : System
works = record {
  directory_made = true;
  author_made = done;
  first_made = done;
  lock_made = done;
  author_readable = true;
  directory_readable = true;
  number_made = done;
  lock_removed = true;
}

abbrev request : ℕ → Option ℕ → Request
request seq previous = record { public = public; seq = seq; previous = previous; system = works }

abbrev requests : List Request
requests =
    request 3 none
    ∷ request 3 (some 2)
    ∷ request 3 none
    ∷ request 2 none
    ∷ request 4 (some 0)
    ∷ request 4 none
    ∷ []

-- As in the tests of the source: without a history the first call is refused, with one the number
-- is reserved, and after that only a greater number is.
hands_out : reserve_all missing requests ≡ 3 ∷ 4 ∷ []
unfolding reserve_all reserve exists start is_some continue initialize create and_then reserve_at
    reserve_in reserve_locked unlock check_author highest_of scan visit number_of raise raise_by
    digits_of is_digit parse_u64 decimal_value_from reserved_name decimal any bytes_beq
    HashMap.contains_key HashMap.get HashMap.insert HashMap.remove chars
hands_out = refl

requests-IsU64 : All IsU64 requests
requests-IsU64 =
    (omega arith, (omega arith, (omega arith, (omega arith, (omega arith, (omega arith, tt))))))

reserve_all-Increasing_example : Increasing (reserve_all missing requests)
reserve_all-Increasing_example = reserve_all-Increasing missing requests requests-IsU64

-- The directory of a key whose greatest number is 2.
abbrev entries : Entries
entries = (author_name, regular public) ∷ (reserved_name 2, regular public) ∷ []

abbrev stale : Entries
stale = (lock_name, regular locked) ∷ entries

reserve_granted_example :
    (entries' : Entries) × (reserve (directory false entries) public 3 none works
      ≡ (directory false entries', ok tt))
    × ((name : Bytes)
        → HashMap.get entries' name
          ≡ (if reserved_name 3 == name then some (regular public) else HashMap.get entries name))
unfolding check_author highest_of scan visit number_of raise raise_by digits_of is_digit parse_u64
    decimal_value_from reserved_name decimal any bytes_beq HashMap.get HashMap.insert chars
reserve_granted_example =
    reserve_granted entries public 3 2 works refl refl (omega arith) refl refl refl refl refl
      (omega arith)
