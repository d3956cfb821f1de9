-- ===== src/HistoryExchange/Catchup/After.antt =====
-- The steps that a channel's history goes through, and what each leaves of a cleared channel.
use mathlib.Core.Path.{subst}
use Prim.Native.String.{String}
use xivlantern_dalamud.Prelude.{
  ℕ, suc, ◌+◌, ◌^◌, ◌≤◌, ◌<◌, ◌≡◌, refl, sym, ℤ, Bool, true, false, not, Bool-cases, Option, none,
  some, Option-cases, inl, inr, List, [], ◌∷◌, ◌==◌, nat_eq, bytes_eq, nat_beq_iff, not-false,
  count_if, arith,
}
use xivlantern_dalamud.Bytes.{Bytes}
use xivlantern_dalamud.Error.{Result, ok, err}
use xivlantern_dalamud.EventQueue.{wrapping_inc}
use xivlantern_dalamud.Crypto.{Signatures}
use xivlantern_dalamud.ChannelHistory.{HistoryRecord, verify_sender}
use xivlantern_dalamud.Store.Transaction.{Failure}
use xivlantern_dalamud.Store.History.{
  Row, is_in, channel_history_insert, channel_history_read, channel_history_clear,
}
use xivlantern_dalamud.Store.Counting.{count-retain-not}
use xivlantern_dalamud.HistoryExchange.Catchup.{
  History, emit_event, report, is_blocked, next_revision, next_generation, leave_cache,
  history_clear, block, unblock, ingest_one, on_history_record, history_enable, publish_signed,
  history_publish,
}
use xivlantern_dalamud.HistoryExchange.Catchup.Table.{
  table_of, tell_live_table, load_table, tell_cleared_table, tell_published_table, insert_one,
}

-- What can happen to the history of a room. A round is of any catch-up, with the generation that it expects and the
-- number of new records that it has so far.
pub data Step (SecretKey : Type 0) : Type 0 where
  catches_up : ℕ → Failure → ℤ → HistoryRecord → ℕ → Step SecretKey
  goes_live : Failure → ℤ → Bytes → Bytes → Step SecretKey
  publishes : SecretKey → Failure → ℤ → Option Bytes → Bytes → Step SecretKey
  clears : Option String → Step SecretKey
  enables : Option String → ℤ → Bool → Step SecretKey
  blocks : Bytes → Step SecretKey
  unblocks : Bytes → Step SecretKey

-- Every round is of a catch-up that started at the generation `g` or before.
abbrev pub StartedBefore : {K : Type 0} → ℕ → List (Step K) → Type 0
StartedBefore g [] = Unit
StartedBefore g (catches_up expected failure now r added ∷ steps) =
    (expected ≤ g) × StartedBefore g steps
StartedBefore g (goes_live failure now from encoded ∷ steps) = StartedBefore g steps
StartedBefore g (publishes secret failure now random text ∷ steps) = StartedBefore g steps
StartedBefore g (clears failure ∷ steps) = StartedBefore g steps
StartedBefore g (enables failure now enabled ∷ steps) = StartedBefore g steps
StartedBefore g (blocks peer ∷ steps) = StartedBefore g steps
StartedBefore g (unblocks peer ∷ steps) = StartedBefore g steps

-- How many records came live or were published.
abbrev pub live_records : {K : Type 0} → List (Step K) → ℕ
live_records [] = 0
live_records (goes_live failure now from encoded ∷ steps) = suc (live_records steps)
live_records (publishes secret failure now random text ∷ steps) = suc (live_records steps)
live_records (catches_up expected failure now r added ∷ steps) = live_records steps
live_records (clears failure ∷ steps) = live_records steps
live_records (enables failure now enabled ∷ steps) = live_records steps
live_records (blocks peer ∷ steps) = live_records steps
live_records (unblocks peer ∷ steps) = live_records steps

-- A room that was cleared at the generation `g`, with at most `n` rows; `k` steps are still to come.
abbrev pub IsAfter : ℕ → ℕ → ℕ → Bytes → List Row × Bytes × ℕ → Type 0
IsAfter g n k topic (rows, room, generation) =
    (room ≡ topic)
    × (g < generation)
    × (generation + k < 2 ^ 64)
    × (count_if (is_in topic) rows ≤ n)

pub later-IsAfter :
    (g n m k : ℕ) (topic : Bytes) (t : List Row × Bytes × ℕ)
    → n ≤ m
    → IsAfter g n (suc k) topic t
    → IsAfter g m k topic t
later-IsAfter g n m k topic t less (same, newer, far, few) = (same, newer, omega arith, omega arith)

bumped-IsAfter :
    (g n k : ℕ) (topic : Bytes) (h : History)
    → IsAfter g n (suc k) topic (table_of h)
    → IsAfter g n k topic (table_of (next_generation h))
unfolding next_generation wrapping_inc
bumped-IsAfter g n k topic h (same, newer, far, few) = (same, omega arith, omega arith, few)

module _ (s : Signatures) where
  unfoldable pub apply_step : History → Step s.SecretKey → History
  apply_step h (catches_up expected failure now r added) =
      (ingest_one s expected failure now r added h).1
  apply_step h (goes_live failure now from encoded) = on_history_record s failure now from encoded h
  apply_step h (publishes secret failure now random text) =
      history_publish s secret failure now random text h
  apply_step h (clears failure) = history_clear failure h
  apply_step h (enables failure now enabled) = history_enable s failure now enabled h
  apply_step h (blocks peer) = block peer h
  apply_step h (unblocks peer) = unblock peer h

  unfoldable pub apply_all : History → List (Step s.SecretKey) → History
  unfolding apply_step
  apply_all h [] = h
  apply_all h (step ∷ steps) = apply_all (apply_step h step) steps

  -- A round of an older catch-up changes nothing.
  pub ingest_one_late :
      (g n k : ℕ) (topic : Bytes) (expected : ℕ) (failure : Failure) (now : ℤ) (r : HistoryRecord)
      (added : ℕ) (h : History)
      → expected ≤ g
      → IsAfter g n k topic (table_of h)
      → (ingest_one s expected failure now r added h).1 ≡ h
  unfolding ingest_one
  ingest_one_late g n k topic expected failure now r added h before a =
      elim (Bool-cases (is_blocked r.author h)) [
        | inl blocked ↦ rw blocked refl
        | inr free ↦ rw free (elim (Bool-cases (not (h.history_generation == expected))) [
          | inl newer ↦ rw newer refl
          | inr same ↦
              let e = (nat_beq_iff h.history_generation expected).0 (not-false _ same) in
              absurd (omega (arith, e, a.1))
        ])
      ]

  -- The rows after an insertion, and the same generation.
  inserted-IsAfter :
      (g n k : ℕ) (topic : Bytes) (failure : Failure) (now : ℤ) (encoded : Bytes) (rows : List Row)
      (room : Bytes) (generation : ℕ)
      → IsAfter g n (suc k) topic (rows, room, generation)
      → IsAfter g
          (suc n)
          k
          topic
          ((channel_history_insert s failure rows room encoded now).0, room, generation)
  inserted-IsAfter g n k topic failure now encoded rows room generation (same, newer, far, few) =
      let one : count_if (is_in topic) (channel_history_insert s failure rows room encoded now).0
          ≤ count_if (is_in topic) rows + 1 =
        rw (← same) (insert_one s failure rows room encoded now) in
      (same, newer, omega arith, omega arith)

  pub on_history_record-IsAfter :
      (g n k : ℕ) (topic : Bytes) (failure : Failure) (now : ℤ) (from encoded : Bytes) (h : History)
      → IsAfter g n (suc k) topic (table_of h)
      → IsAfter g (suc n) k topic (table_of (on_history_record s failure now from encoded h))
  unfolding on_history_record
  on_history_record-IsAfter g n k topic failure now from encoded h a =
      elim (Option-cases (verify_sender s h.state.topic from encoded)) [
        | inl forged ↦
            rw (forged, on_history_record)
              (later-IsAfter g n (suc n) k topic (table_of h) (omega arith) a)
        | inr (r, verified) ↦
            let (rows, inserted) =
              channel_history_insert s failure h.rows h.state.topic encoded now in
            rw (verified, on_history_record)
              (subst (IsAfter g (suc n) k topic)
                (sym (tell_live_table from r inserted (record h { rows = rows })))
                (inserted-IsAfter g n k topic failure now encoded h.rows h.state.topic
                  h.history_generation a))
      ]

  pub history_publish-IsAfter :
      (g n k : ℕ) (topic : Bytes) (secret : s.SecretKey) (failure : Failure) (now : ℤ)
      (signed : Result Bytes) (h : History)
      → IsAfter g n (suc k) topic (table_of h)
      → IsAfter g (suc n) k topic (table_of (publish_signed s secret failure now signed h))
  unfolding publish_signed report emit_event
  history_publish-IsAfter g n k topic secret failure now (err e) h a =
      later-IsAfter g n (suc n) k topic (table_of h) (omega arith) a
  history_publish-IsAfter g n k topic secret failure now (ok encoded) h a =
      let (rows, inserted) = channel_history_insert s failure h.rows h.state.topic encoded now in
      subst (IsAfter g (suc n) k topic)
        (sym (tell_published_table s secret encoded inserted (record h { rows = rows })))
        (inserted-IsAfter g n k topic failure now encoded h.rows h.state.topic h.history_generation
          a)

  cleared_rows :
      (n : ℕ) (topic : Bytes) (failure : Option String) (rows : List Row) (room : Bytes)
      → count_if (is_in topic) rows ≤ n
      → room ≡ topic
      → count_if (is_in topic) (channel_history_clear failure rows room).0 ≤ n
  unfolding channel_history_clear
  cleared_rows n topic (some text) rows room few same = few
  cleared_rows n topic none rows room few same =
      rw same (omega (arith, count-retain-not (is_in topic) rows))

  pub history_clear-IsAfter :
      (g n k : ℕ) (topic : Bytes) (failure : Option String) (h : History)
      → IsAfter g n (suc k) topic (table_of h)
      → IsAfter g n k topic (table_of (history_clear failure h))
  unfolding history_clear next_generation wrapping_inc
  history_clear-IsAfter g n k topic failure h (same, newer, far, few) =
      let (rows, r) = channel_history_clear failure h.rows h.state.topic in
      subst (IsAfter g n k topic)
        (sym (
          tell_cleared_table r (
            next_generation
              (record h { state = record h.state { history_request = none }; rows = rows }))))
        (same, omega arith, omega arith, cleared_rows n topic failure h.rows h.state.topic few same)

  pub history_enable-IsAfter :
      (g n k : ℕ) (topic : Bytes) (failure : Option String) (now : ℤ) (enabled : Bool) (h : History)
      → IsAfter g n (suc k) topic (table_of h)
      → IsAfter g n k topic (table_of (history_enable s failure now enabled h))
  unfolding history_enable leave_cache
  history_enable-IsAfter g n k topic failure now false h a =
      bumped-IsAfter g n k topic
        (record h { state = record h.state { history_enabled = false; history_request = none } }) a
  history_enable-IsAfter g n k topic failure now true h a =
      let h₁ =
        next_generation (record h {
          state = record h.state { history_enabled = true; history_request = none };
        }) in
      subst (IsAfter g n k topic)
        (sym (load_table (channel_history_read s failure h₁.rows h₁.state.topic now) h₁))
        (bumped-IsAfter g n k topic
          (record h { state = record h.state { history_enabled = true; history_request = none } })
          a)

  pub unblock-IsAfter :
      (g n k : ℕ) (topic peer : Bytes) (h : History)
      → IsAfter g n (suc k) topic (table_of h)
      → IsAfter g n k topic (table_of (unblock peer h))
  unfolding unblock next_revision
  unblock-IsAfter g n k topic peer h a =
      let weaker = later-IsAfter g n n k topic (table_of h) (omega arith) a in
      elim (Bool-cases (is_blocked peer h)) [
        | inl blocked ↦ rw blocked weaker
        | inr free ↦ rw free weaker
      ]
