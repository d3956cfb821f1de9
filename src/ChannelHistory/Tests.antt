-- ===== src/ChannelHistory/Tests.antt =====
-- Runs of channel_history.rs, and its theorems at concrete inputs.
use xivlantern_dalamud.Prelude.{
  ℕ, zero, suc, pos, ◌+◌, ◌*◌, ◌%◌, ◌≤◌, ◌≡◌, refl, true, none, some, List, [], ◌∷◌, ◌++◌, arith,
  length, any, All, nat_eq, bytes_eq, bytes_beq, bytes_beq_iff,
}
use xivlantern_dalamud.Error.{ok}
use xivlantern_dalamud.Bytes.{Bytes, be_bytes, be_value, i64_bits, i64_of_bits}
use xivlantern_dalamud.Utf8.{chars, is_control}
use xivlantern_dalamud.Crypto.{Signatures, IsLawful}
use xivlantern_dalamud.ChannelHistory.{
  codes, HistoryRecord, valid_text, signed_bytes, record_body, sign, verify_signature, verify,
}
use xivlantern_dalamud.ChannelHistory.RoundTrip.{signed_record, verify-sign}
use xivlantern_dalamud.ChannelHistory.Sound.{IsVerified, verify-IsVerified}
use xivlantern_dalamud.ChannelHistory.Sorting.{IsSorted, sort}
use xivlantern_dalamud.ChannelHistory.Snapshot.{
  max_records, max_snapshot_bytes, is_seen, entries, snapshot_bytes, new_records, snapshot,
  read_snapshot,
}
use xivlantern_dalamud.ChannelHistory.Distinct.{IsDistinct, Verifies}
use xivlantern_dalamud.ChannelHistory.SnapshotRoundTrip.{kept, read_snapshot-snapshot}
use xivlantern_dalamud.ChannelHistory.ReadSound.{read_snapshot_sound}

abbrev pub replicate : ℕ → ℕ → Bytes
replicate zero b = []
replicate (suc n) b = b ∷ replicate n b

abbrev pub checksum : Bytes → ℕ
checksum [] = 7
checksum (b ∷ bytes) = (checksum bytes * 31 + b) % 256

-- A scheme that is lawful and not secure: a key is a number, and a signature is a checksum.
abbrev pub toy_signature : Bytes → Bytes → Bytes
toy_signature key message = checksum (key ++ message) ∷ replicate 63 0

abbrev pub toy : Signatures
toy = record {
  SecretKey = ℕ;
  public = λ k. k ∷ replicate 31 1;
  sign = λ k message. toy_signature (k ∷ replicate 31 1) message;
  is_public_key = λ key. true;
  verify = λ key message sig. bytes_beq sig (toy_signature key message);
}

pub toy-IsLawful : IsLawful toy
toy-IsLawful = record {
  length-public = λ k. refl;
  length-sign = λ k message. refl;
  public_valid = λ k. refl;
  verify-sign = λ k message. (bytes_beq_iff _ _).1 refl;
}

abbrev pub room : Bytes
room = replicate 32 3

abbrev pub other_room : Bytes
other_room = replicate 32 4

abbrev pub text : Bytes
text = codes "maps at 21:00"

abbrev pub id_1 : Bytes
id_1 = replicate 16 9

abbrev pub raw : Bytes
raw =
    let body =
      codes "LTHREC01"
      ++ (5 ∷ replicate 31 1)
      ++ room
      ++ id_1
      ++ (0 ∷ 0 ∷ 0 ∷ 0 ∷ 0 ∷ 0 ∷ 0 ∷ 42 ∷ [])
      ++ (0 ∷ 13 ∷ [])
      ++ text in
    body ++ toy.sign 5 (signed_bytes body)

signs : sign toy 5 room (pos 42) text (some id_1) ≡ ok raw
unfolding sign valid_text chars is_control any be_bytes i64_bits
signs = refl

abbrev pub line : HistoryRecord
line = signed_record toy 5 room (pos 42) text id_1

pub verify_raw : verify toy room raw ≡ some line
verify_raw = (verify-sign toy 5 room text id_1 raw 42 toy-IsLawful refl refl (omega arith) signs).1

wrong_room : verify toy other_room raw ≡ none
unfolding verify bytes_beq
wrong_room = refl

one_bit_off : verify toy room (raw ++ 0 ∷ []) ≡ none
unfolding verify bytes_beq be_value
one_bit_off = refl

abbrev sent : List Bytes
sent = raw ∷ (0 ∷ 1 ∷ []) ∷ raw ∷ []

abbrev snap : Bytes
snap = codes "LTHSNAP1" ++ room ++ (0 ∷ 1 ∷ []) ++ (0 ∷ 175 ∷ []) ++ raw

takes_snapshot : snapshot toy room sent ≡ ok snap
unfolding snapshot snapshot_bytes entries new_records is_seen sort verify verify_signature bytes_beq
    valid_text chars is_control any be_bytes be_value i64_of_bits signed_bytes
takes_snapshot = refl

reads_snapshot : read_snapshot toy room snap ≡ some (line ∷ [])
unfolding sort new_records is_seen verify verify_signature bytes_beq valid_text chars is_control any
    be_value i64_of_bits signed_bytes record_body be_bytes i64_bits
reads_snapshot = (read_snapshot-snapshot toy room sent snap refl takes_snapshot).1

verify-sign_example : (raw ≡ line.encoded) × (verify toy room raw ≡ some line)
verify-sign_example =
    verify-sign toy 5 room text id_1 raw 42 toy-IsLawful refl refl (omega arith) signs

verify-IsVerified_example : IsVerified toy room raw line
verify-IsVerified_example = verify-IsVerified toy room raw line verify_raw

read_snapshot-snapshot_example :
    (length snap ≤ max_snapshot_bytes)
    × (read_snapshot toy room snap ≡ some (kept toy room sent))
    × All (Verifies toy room) (kept toy room sent)
    × IsDistinct (kept toy room sent)
    × IsSorted (kept toy room sent)
read_snapshot-snapshot_example = read_snapshot-snapshot toy room sent snap refl takes_snapshot

read_snapshot_sound_example :
    (length (line ∷ []) ≤ max_records)
    × All (Verifies toy room) (line ∷ [])
    × IsDistinct (line ∷ [])
    × IsSorted (line ∷ [])
read_snapshot_sound_example = read_snapshot_sound toy room snap (line ∷ []) reads_snapshot
