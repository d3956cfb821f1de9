-- ===== src/HistoryExchange/Catchup/Cleared.antt =====
-- A channel that was cleared is not filled again by a catch-up that started before.
use mathlib.Core.Path.{subst}
use xivlantern_dalamud.Prelude.{
  ℕ, suc, ◌+◌, ◌^◌, ◌≤◌, ◌<◌, refl, sym, not, none, List, [], ◌∷◌, nat_eq, bytes_eq, retain, length,
  count_if, arith,
}
use xivlantern_dalamud.Bytes.{Bytes}
use xivlantern_dalamud.Error.{Result, ok}
use xivlantern_dalamud.EventQueue.{wrapping_inc}
use xivlantern_dalamud.Crypto.{Signatures}
use xivlantern_dalamud.ChannelHistory.{sign}
use xivlantern_dalamud.Store.History.{is_in, channel_history_clear}
use xivlantern_dalamud.Store.Counting.{count-retain-not}
use xivlantern_dalamud.HistoryExchange.Catchup.{
  History, next_revision, next_generation, history_clear, block, history_publish,
}
use xivlantern_dalamud.HistoryExchange.Catchup.Table.{table_of, tell_cleared_table}
use xivlantern_dalamud.HistoryExchange.Catchup.After.{
  Step, catches_up, goes_live, publishes, clears, enables, blocks, unblocks, StartedBefore,
  live_records, IsAfter, later-IsAfter, apply_all, ingest_one_late, on_history_record-IsAfter,
  history_publish-IsAfter, history_clear-IsAfter, history_enable-IsAfter, unblock-IsAfter,
}

moved : (x n l : ℕ) → x ≤ suc n + l → x ≤ n + suc l
moved x n l h = omega arith

module _ (s : Signatures) where
  -- The rows after all the steps.
  rows_after :
      (g n : ℕ) (topic : Bytes) (steps : List (Step s.SecretKey)) (h : History)
      → StartedBefore g steps
      → IsAfter g n (length steps) topic (table_of h)
      → count_if (is_in topic) (apply_all s h steps).rows ≤ n + live_records steps
  unfolding apply_all history_publish block next_revision
  rows_after g n topic [] h before a = omega (arith, a)
  rows_after g n topic (catches_up expected failure now r added ∷ steps) h before a =
      let weaker = later-IsAfter g n n (length steps) topic (table_of h) (omega arith) a in
      rows_after g n topic steps _ before.1 (
        subst (λ h'. IsAfter g n (length steps) topic (table_of h'))
          (sym (
            ingest_one_late s g n (suc (length steps)) topic expected failure now r added h before.0
              a))
          weaker)
  rows_after g n topic (goes_live failure now from encoded ∷ steps) h before a =
      moved _ n (live_records steps) (
        rows_after g (suc n) topic steps _ before
          (on_history_record-IsAfter s g n (length steps) topic failure now from encoded h a))
  rows_after g n topic (publishes secret failure now random text ∷ steps) h before a =
      moved _ n (live_records steps) (
        rows_after g (suc n) topic steps _ before (
          history_publish-IsAfter s g n (length steps) topic secret failure now
            (sign s secret h.state.topic now text random) h a))
  rows_after g n topic (clears failure ∷ steps) h before a =
      rows_after g n topic steps _ before
        (history_clear-IsAfter s g n (length steps) topic failure h a)
  rows_after g n topic (enables failure now enabled ∷ steps) h before a =
      rows_after g n topic steps _ before
        (history_enable-IsAfter s g n (length steps) topic failure now enabled h a)
  rows_after g n topic (blocks peer ∷ steps) h before a =
      rows_after g n topic steps _ before
        (later-IsAfter g n n (length steps) topic (table_of h) (omega arith) a)
  rows_after g n topic (unblocks peer ∷ steps) h before a =
      rows_after g n topic steps _ before (unblock-IsAfter s g n (length steps) topic peer h a)

  -- After a channel is cleared and SQLite does not fail in it, whatever rounds of catch-ups that started before,
  -- live records, publications, clears, switches and blocks follow, in whatever order and with whatever
  -- failures, the channel has no more rows than records came live or were published since, as long as the
  -- steps are fewer than the generation has left before 2^64.
  pub cleared_stays :
      (h : History) (steps : List (Step s.SecretKey))
      → StartedBefore h.history_generation steps
      → h.history_generation + 1 + length steps < 2 ^ 64
      → count_if (is_in h.state.topic) (apply_all s (history_clear none h) steps).rows
        ≤ live_records steps
  unfolding history_clear channel_history_clear next_generation wrapping_inc
  cleared_stays h steps before far =
      let r : Result (Unit {0}) = ok tt in
      let h₁ = next_generation (record h {
        state = record h.state { history_request = none };
        rows = retain (λ row. not (is_in h.state.topic row)) h.rows;
      }) in
      let few =
        rows_after h.history_generation 0 h.state.topic steps (history_clear none h) before (
          subst (IsAfter h.history_generation 0 (length steps) h.state.topic)
            (sym (tell_cleared_table r h₁))
            (
              refl,
              omega arith,
              omega arith,
              omega (arith, count-retain-not (is_in h.state.topic) h.rows),
            )) in
      omega (arith, few)
