-- ===== src/Ticket/Sealed.antt =====
-- crates/lantern-core/src/ticket.rs: `SealedRoomTicket`, with the key of an encrypted room.
use xivlantern_dalamud.Prelude.{
  ℕ, ◌+◌, ◌*◌, ◌/◌, Bool, not, ◌||◌, Option, none, some, List, [], ◌∷◌, ◌==◌, ltb, leb, nat_eq, any,
  length, take, drop, if◌then◌else◌,
}
use xivlantern_dalamud.Error.{Result, ok, err, ticket, state, ok_or, ◌>>=◌, ◌>>◌, fail_if}
use xivlantern_dalamud.Bytes.{Bytes}
use xivlantern_dalamud.Utf8.{is_control}
use xivlantern_dalamud.Text.{Text, as_bytes, trim, strip_prefix}
use xivlantern_dalamud.Postcard.{Postcard}
use xivlantern_dalamud.ChannelHistory.{codes}
use xivlantern_dalamud.Ticket.{Base32, print, decode_body}

abbrev pub prefix : Text
prefix = codes "ltsealed"

abbrev pub sealed_ticket_version : ℕ
sealed_ticket_version = 1

abbrev pub max_sealed_ticket_bytes : ℕ
max_sealed_ticket_bytes = 8192

pub record SealedRoomTicket (Addr : Type 0) : Type 0 where
  pub version : ℕ
  pub topic : Bytes
  pub label : Text
  pub peers : List Addr
  pub key : Bytes

module _ {Addr : Type 0} (p : Postcard (SealedRoomTicket Addr)) where
  -- The tests of the fields.
  unfoldable pub has_bad_field : SealedRoomTicket Addr → Bool
  has_bad_field t =
      not (t.version == sealed_ticket_version)
      || (leb (length (as_bytes t.label)) 0
          || (ltb 256 (length (as_bytes t.label))
              || (any is_control t.label || ltb 16 (length t.peers))))

  unfoldable pub validate : SealedRoomTicket Addr → Result (Unit {0})
  validate t =
      if has_bad_field t
      then err ticket
      else ok_or (p.to_stdvec t) ticket >>= λ bytes.
          fail_if (ltb max_sealed_ticket_bytes (length bytes)) ticket

  -- `random` is what the operating system gives for 64 bytes, if it gives any.
  unfoldable pub create : Text → List Addr → Option Bytes → Result (SealedRoomTicket Addr)
  create label peers random = ok_or random (state "OS random source unavailable") >>= λ bytes.
      let t : SealedRoomTicket Addr = record {
        version = sealed_ticket_version;
        topic = take 32 bytes;
        label = label;
        peers = peers;
        key = drop 32 bytes;
      } in
      validate t >> ok t

  -- The decoded value, with no bytes behind it, if it is valid.
  unfoldable pub finish : SealedRoomTicket Addr → Bytes → Result (SealedRoomTicket Addr)
  finish t [] = validate t >> ok t
  finish t (extra ∷ remainder) = err ticket

  unfoldable pub from_bytes : Bytes → Result (SealedRoomTicket Addr)
  unfolding finish
  from_bytes bytes = ok_or (p.take_from_bytes bytes) ticket >>= λ (t, remainder). finish t remainder

  module _ (b : Base32) where
    -- `none` stands for `fmt::Error`.
    unfoldable pub to_string : SealedRoomTicket Addr → Option Text
    to_string t = elim (p.to_stdvec t) [ none ↦ none | some bytes ↦ some (print b prefix bytes) ]

    unfoldable pub from_str : Text → Result (SealedRoomTicket Addr)
    from_str s =
        if ltb (length prefix + max_sealed_ticket_bytes * 8 / 5 + 2) (length (as_bytes s))
        then err ticket
        else ok_or (strip_prefix prefix (trim s)) ticket >>= λ body.
            decode_body b body >>= from_bytes
