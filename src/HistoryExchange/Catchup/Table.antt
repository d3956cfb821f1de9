-- ===== src/HistoryExchange/Catchup/Table.antt =====
-- What the parts of the history handlers leave alone, and how much an insertion adds.
use xivlantern_dalamud.Prelude.{
  ℕ, ◌+◌, ◌≤◌, ◌≡◌, refl, ◌∙◌, ℤ, pos, negsuc, Bool, true, false, not, Bool-cases, Option-cases,
  inl, inr, List, [], ◌∷◌, nat_eq, bytes_eq, any, count_if, arith,
}
use xivlantern_dalamud.Bytes.{Bytes}
use xivlantern_dalamud.Error.{Result, ok, err}
use xivlantern_dalamud.Crypto.{Signatures}
use xivlantern_dalamud.ChannelHistory.{HistoryRecord, verify, verify_sender}
use xivlantern_dalamud.Store.History.{
  Row, is_key, is_in, insert_or_ignore, trim, insert_verified, channel_history_insert,
}
use xivlantern_dalamud.Store.Transaction.{Failure}
use xivlantern_dalamud.Store.History.Whole.{new_row, insert_verified-IsWhole, insert_verified_done}
use xivlantern_dalamud.Store.History.Retention.{trim_fewer}
use xivlantern_dalamud.HistoryExchange.Catchup.{
  History, emit_event, report, is_blocked, emit_record_of, next_revision, count_new, tell_live,
  emit_loaded, load, leave_cache, tell_cleared, tell_published,
}

-- What decides whether a catch-up may write, and what it writes.
abbrev pub table_of : History → List Row × Bytes × ℕ
table_of h = (h.rows, h.state.topic, h.history_generation)

pub emit_record_of_table :
    (r : HistoryRecord) (historical : Bool) (h : History)
    → table_of (emit_record_of r historical h).1 ≡ table_of h
unfolding emit_record_of emit_event
emit_record_of_table r historical h = elim (Bool-cases (not h.history_metadata)) [
  | inl off ↦ rw off refl
  | inr on ↦ rw on (elim (Bool-cases (is_blocked r.author h)) [
    | inl blocked ↦ rw blocked refl
    | inr free ↦ rw free refl
  ])
]

pub count_new_table :
    (r : HistoryRecord) (added : ℕ) (inserted : Result Bool) (h : History)
    → table_of (count_new r added inserted h).1 ≡ table_of h
unfolding count_new next_revision
count_new_table r added (err e) h = refl
count_new_table r added (ok false) h = refl
count_new_table r added (ok true) h = emit_record_of_table r true (next_revision h)

pub tell_live_table :
    (from : Bytes) (r : HistoryRecord) (inserted : Result Bool) (h : History)
    → table_of (tell_live from r inserted h) ≡ table_of h
unfolding tell_live next_revision report emit_event
tell_live_table from r (err e) h = refl
tell_live_table from r (ok false) h = refl
tell_live_table from r (ok true) h =
    elim (Bool-cases (emit_record_of r false (next_revision h)).0) [
      | inl told ↦ rw told (emit_record_of_table r false (next_revision h))
      | inr untold ↦ rw untold (emit_record_of_table r false (next_revision h))
    ]

pub emit_loaded_table :
    (rs : List HistoryRecord) (h : History) → table_of (emit_loaded rs h) ≡ table_of h
unfolding emit_loaded
emit_loaded_table [] h = refl
emit_loaded_table (r ∷ rs) h =
    emit_loaded_table rs (emit_record_of r true h).1 ∙ emit_record_of_table r true h

pub load_table :
    (loaded : Result (List HistoryRecord)) (h : History) → table_of (load loaded h) ≡ table_of h
unfolding load report emit_event
load_table (err e) h = refl
load_table (ok rs) h = emit_loaded_table rs h

pub tell_cleared_table :
    (r : Result (Unit {0})) (h : History) → table_of (tell_cleared r h) ≡ table_of h
unfolding tell_cleared report emit_event next_revision leave_cache
tell_cleared_table (err e) h = refl
tell_cleared_table (ok u) h = refl

pub tell_published_table :
    (s : Signatures) (secret : s.SecretKey) (encoded : Bytes) (inserted : Result Bool) (h : History)
    → table_of (tell_published s secret encoded inserted h) ≡ table_of h
unfolding tell_published report emit_event next_revision
tell_published_table s secret encoded (err e) h = refl
tell_published_table s secret encoded (ok inserted) h =
    elim (Option-cases (verify_sender s h.state.topic (s.public secret) encoded)) [
      | inl forged ↦ rw (forged, tell_published) refl
      | inr (r, verified) ↦
          rw (verified, tell_published) (emit_record_of_table r false (next_revision h))
    ]

inserted_one :
    (row : Row) (rows : List Row) (room : Bytes) (now : ℕ)
    → count_if (is_in room) (trim room now (insert_or_ignore row rows).0)
      ≤ count_if (is_in room) rows + 1
unfolding insert_or_ignore count_if
inserted_one row rows room now = elim (Bool-cases (any (is_key row.room row.signature) rows)) [
  | inl known ↦ rw known (omega (arith, trim_fewer room now rows))
  | inr new ↦ rw new (ground (arith, trim_fewer room now (row ∷ rows)))
]

insert_verified_one :
    (failure : Failure) (rows : List Row) (room : Bytes) (r : HistoryRecord) (now : ℕ)
    → count_if (is_in room) (insert_verified failure rows room r now).0
      ≤ count_if (is_in room) rows + 1
insert_verified_one failure rows room r now =
    elim (insert_verified-IsWhole failure rows room r now) [
      | inl (text, told, failed) ↦ rw failed (omega arith)
      | inr whole ↦
          rw (whole ∙ insert_verified_done rows room r now)
            (inserted_one (new_row room r now) rows room now)
    ]

-- An insertion adds at most one row to its room.
pub insert_one :
    (s : Signatures) (failure : Failure) (rows : List Row) (room encoded : Bytes) (now : ℤ)
    → count_if (is_in room) (channel_history_insert s failure rows room encoded now).0
      ≤ count_if (is_in room) rows + 1
unfolding channel_history_insert
insert_one s failure rows room encoded (negsuc n) = omega arith
insert_one s failure rows room encoded (pos now) = elim (Option-cases (verify s room encoded)) [
  | inl forged ↦ rw (forged, channel_history_insert) (omega arith)
  | inr (r, verified) ↦
      rw (verified, channel_history_insert) (insert_verified_one failure rows room r now)
]
