-- ===== src/SealedFile.antt =====
-- crates/lantern-core/src/sealed_file.rs and bounded_blob.rs: encrypted files and their bounded download,
-- and the encrypted snapshots of channel_history.rs, which use the same codec.
pub mod Download
pub mod Checked
mod Tests
use xivlantern_dalamud.Prelude.{
  ℕ, ◌+◌, ◌*◌, Bool, not, ◌||◌, Option, none, some, List, ◌==◌, nat_eq, bytes_eq, ltb, length,
  if◌then◌else◌,
}
use xivlantern_dalamud.Bytes.{Bytes}
use xivlantern_dalamud.Error.{Result, ok, err, state, too_large, ok_or, ◌>>=◌}
use xivlantern_dalamud.Crypto.{Signatures}
use xivlantern_dalamud.ChannelHistory.{codes, HistoryRecord}
use xivlantern_dalamud.ChannelHistory.Snapshot.{max_snapshot_bytes, snapshot, read_snapshot}
use xivlantern_dalamud.Ticket.Sealed.{SealedRoomTicket}
use xivlantern_dalamud.Proto.{EnvelopeCodec}
use xivlantern_dalamud.Proto.Sealed.{Cipher, seal_payload, open_payload}

abbrev pub file_domain : Bytes
file_domain = codes "LTFSEAL1"

abbrev pub sealed_snapshot_domain : Bytes
sealed_snapshot_domain = codes "LTHSEAL1"

abbrev pub max_file_bytes : ℕ
max_file_bytes = 16 * 1024 * 1024

abbrev pub max_ciphertext_bytes : ℕ
max_ciphertext_bytes = max_file_bytes + 256

-- The sender and the size have to be those of the offer.
unfoldable pub check_offer : Bytes → ℕ → Bytes → Bytes → Result Bytes
check_offer provider size from plaintext =
    if not (from == provider) || not (length plaintext == size)
    then err (state "sealed file provider or size does not match offer")
    else ok plaintext

module _ (s : Signatures) (envelopes : EnvelopeCodec) (cipher : Cipher) {Addr : Type 0} where
  unfoldable pub encode : s.SecretKey → SealedRoomTicket Addr → Bytes → Option Bytes → Result Bytes
  encode secret ticket bytes random =
      seal_payload s envelopes cipher secret ticket file_domain bytes max_file_bytes random

  unfoldable pub decode : SealedRoomTicket Addr → Bytes → Bytes → ℕ → Result Bytes
  unfolding check_offer
  decode ticket provider bytes size =
      if ltb max_file_bytes size
      then err too_large
      else ok_or (open_payload s envelopes cipher ticket bytes file_domain max_file_bytes)
          (state "sealed file authentication failed")
        >>= λ (from, plaintext). check_offer provider size from plaintext

  unfoldable pub sealed_snapshot :
      s.SecretKey → SealedRoomTicket Addr → List Bytes → Option Bytes → Result Bytes
  sealed_snapshot provider ticket records random = snapshot s ticket.topic records >>= λ plaintext.
      seal_payload s envelopes cipher provider ticket sealed_snapshot_domain plaintext
        max_snapshot_bytes random

  -- The sender has to be the provider of the authenticated offer.
  unfoldable pub read_from_provider :
      SealedRoomTicket Addr → Bytes → Bytes → Bytes → Option (List HistoryRecord)
  read_from_provider ticket provider from plaintext =
      if not (from == provider) then none else read_snapshot s ticket.topic plaintext

  unfoldable pub read_sealed_snapshot :
      SealedRoomTicket Addr → Bytes → Bytes → Option (List HistoryRecord)
  unfolding read_from_provider
  read_sealed_snapshot ticket provider bytes =
      elim (open_payload s envelopes cipher ticket bytes sealed_snapshot_domain
        max_snapshot_bytes) [
          | none ↦ none
          | some (from, plaintext) ↦ read_from_provider ticket provider from plaintext
        ]
