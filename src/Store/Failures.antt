-- ===== src/Store/Failures.antt =====
-- Failing calls on the tables `channel_history` and `channel_peers` of crates/lantern-core/src/store.rs.
mod Tests
use Prim.Native.String.{String}
use xivlantern_dalamud.Prelude.{
  ℕ, ◌≡◌, refl, sym, ap, ◌∙◌, ◌⊎◌, inl, inr, ℤ, pos, negsuc, Bool, true, false, ◌||◌, Bool-cases,
  Option, none, some, Option-cases, List, length, leb, ltb, if◌then◌else◌,
}
use xivlantern_dalamud.Bytes.{Bytes}
use xivlantern_dalamud.Error.{Error, arg, store, Result, ok, err}
use xivlantern_dalamud.Crypto.{Signatures}
use xivlantern_dalamud.ChannelHistory.{HistoryRecord, verify}
use xivlantern_dalamud.Store.Transaction.{Failure, text_of, IsWhole}
use xivlantern_dalamud.Store.History.Whole.{insert_verified-IsWhole, insert_verified_done}
use xivlantern_dalamud.Store.Hints.Whole.{write_hint-IsWhole, write_hint_done}
use xivlantern_dalamud.Store.History.{
  Row, insert_verified, channel_history_insert, channel_history_clear, channel_history_prune,
}
use xivlantern_dalamud.Store.Hints.{
  HintRow, max_peer_hint_bytes, write_hint, channel_peer_hint_put, channel_peer_hint_prune,
}

pub record Tables : Type 0 where
  pub channel_history : List Row
  pub channel_peers : List HintRow

-- A call, with what SQLite does in it.
pub data Call : Type 0 where
  -- room, record, time
  inserts : Failure → Bytes → Bytes → ℤ → Call
  clears : Option String → Bytes → Call
  prunes : Option String → ℤ → Call
  -- room, peer, offer, time
  puts_hint : Failure → Bytes → Bytes → Bytes → ℤ → Call
  prunes_hints : Option String → ℤ → Call

-- What SQLite says of a failure in the call.
unfoldable pub failure_of : Call → Option String
failure_of (inserts failure room encoded now) = text_of failure
failure_of (clears failure room) = failure
failure_of (prunes failure now) = failure
failure_of (puts_hint failure room peer offer now) = text_of failure
failure_of (prunes_hints failure now) = failure

-- The same call, where SQLite does not fail.
unfoldable pub unfailing : Call → Call
unfailing (inserts failure room encoded now) = inserts none room encoded now
unfailing (clears failure room) = clears none room
unfailing (prunes failure now) = prunes none now
unfailing (puts_hint failure room peer offer now) = puts_hint none room peer offer now
unfailing (prunes_hints failure now) = prunes_hints none now

-- The error of a call, if it failed.
abbrev pub error_of {ℓ} : {T : Type ℓ} → Result T → Option Error
error_of (ok t) = none
error_of (err e) = some e

abbrev pub on_history {ℓ} : {T : Type ℓ} → Tables → List Row × Result T → Tables × Option Error
on_history t (rows, r) = (record t { channel_history = rows }, error_of r)

abbrev pub on_peers {ℓ} : {T : Type ℓ} → Tables → List HintRow × Result T → Tables × Option Error
on_peers t (rows, r) = (record t { channel_peers = rows }, error_of r)

-- What a call leaves: what it leaves where nothing fails, or else the tables as they were, and the error is that of
-- SQLite or names an argument.
abbrev pub IsAtomic :
    Option String → Tables → Tables × Option Error → Tables × Option Error → Type 0
IsAtomic failed t whole (t', none) = (t', none) ≡ whole
IsAtomic failed t whole (t', some e) =
    (t' ≡ t)
    × (((text : String) × (e ≡ arg text))
        ⊎ ((text : String) × (failed ≡ some text) × (e ≡ store text)))

whole_history :
    {T : Type 0} (failure : Failure) (t : Tables) (outcome whole : List Row × Result T)
    → IsWhole failure t.channel_history outcome whole
    → ((rows : List Row) × ((done : T) × (whole ≡ (rows, ok done))))
    → IsAtomic (text_of failure) t (on_history t whole) (on_history t outcome)
whole_history failure t outcome whole (inl (text, told, failed)) done =
    rw failed (refl, inr (text, told, refl))
whole_history failure t outcome whole (inr same) (rows, (done, is_done)) =
    rw (same ∙ is_done) (rw is_done refl)

whole_peers :
    {T : Type 0} (failure : Failure) (t : Tables) (outcome whole : List HintRow × Result T)
    → IsWhole failure t.channel_peers outcome whole
    → ((rows : List HintRow) × ((done : T) × (whole ≡ (rows, ok done))))
    → IsAtomic (text_of failure) t (on_peers t whole) (on_peers t outcome)
whole_peers failure t outcome whole (inl (text, told, failed)) done =
    rw failed (refl, inr (text, told, refl))
whole_peers failure t outcome whole (inr same) (rows, (done, is_done)) =
    rw (same ∙ is_done) (rw is_done refl)

module _ (s : Signatures) where
  unfoldable pub apply_call : Tables → Call → Tables × Option Error
  apply_call t (inserts failure room encoded now) =
      on_history t (channel_history_insert s failure t.channel_history room encoded now)
  apply_call t (clears failure room) =
      on_history t (channel_history_clear failure t.channel_history room)
  apply_call t (prunes failure now) =
      on_history t (channel_history_prune failure t.channel_history now)
  apply_call t (puts_hint failure room peer offer now) =
      on_peers t (channel_peer_hint_put failure t.channel_peers room peer offer now)
  apply_call t (prunes_hints failure now) =
      on_peers t (channel_peer_hint_prune failure t.channel_peers now)

  -- Whatever the arguments are and whichever of its SQLite calls fails, with whatever text, those of a transaction and
  -- its commit included: a call leaves what it leaves where nothing fails, or it leaves both tables as they
  -- were, with the error of SQLite or one that names an argument.
  pub apply_call-IsAtomic :
      (t : Tables) (call : Call)
      → IsAtomic (failure_of call) t (apply_call t (unfailing call)) (apply_call t call)
  unfolding apply_call failure_of unfailing channel_history_insert channel_history_clear
      channel_history_prune channel_peer_hint_put channel_peer_hint_prune
  apply_call-IsAtomic t (inserts failure room encoded (negsuc n)) = (refl, inl (_, refl))
  apply_call-IsAtomic t (inserts failure room encoded (pos now)) =
      elim (Option-cases (verify s room encoded)) [
        | inl forged ↦ rw (forged, channel_history_insert) (refl, inl (_, refl))
        | inr (r, verified) ↦
            rw (verified, channel_history_insert)
              (whole_history failure t _ _
                (insert_verified-IsWhole failure t.channel_history room r now)
                (_, (_, insert_verified_done t.channel_history room r now)))
      ]
  apply_call-IsAtomic t (clears none room) = refl
  apply_call-IsAtomic t (clears (some text) room) = (refl, inr (text, refl, refl))
  apply_call-IsAtomic t (prunes failure (negsuc n)) = (refl, inl (_, refl))
  apply_call-IsAtomic t (prunes none (pos now)) = refl
  apply_call-IsAtomic t (prunes (some text) (pos now)) = (refl, inr (text, refl, refl))
  apply_call-IsAtomic t (puts_hint failure room peer offer (negsuc n)) = (refl, inl (_, refl))
  apply_call-IsAtomic t (puts_hint failure room peer offer (pos now)) =
      elim (Bool-cases (leb (length offer) 0 || ltb max_peer_hint_bytes (length offer))) [
        | inl bad ↦ rw bad (refl, inl (_, refl))
        | inr good ↦
            let new : HintRow = record {
              room = room;
              peer = peer;
              offer = offer;
              received_at = now;
            } in
            rw good (
              whole_peers failure t _ _ (write_hint-IsWhole failure t.channel_peers new)
                (_, (_, write_hint_done t.channel_peers new)))
      ]
  apply_call-IsAtomic t (prunes_hints failure (negsuc n)) = (refl, inl (_, refl))
  apply_call-IsAtomic t (prunes_hints none (pos now)) = refl
  apply_call-IsAtomic t (prunes_hints (some text) (pos now)) = (refl, inr (text, refl, refl))
