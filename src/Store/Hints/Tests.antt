-- ===== src/Store/Hints/Tests.antt =====
-- A run of the table of remembered offers.
use xivlantern_dalamud.Prelude.{ℕ, ◌≡◌, refl, pos, none, [], ◌∷◌, retain, bytes_beq}
use xivlantern_dalamud.Bytes.{Bytes}
use xivlantern_dalamud.Error.{ok}
use xivlantern_dalamud.Store.Counting.{put_ordered, in_order}
use xivlantern_dalamud.Store.Hints.{HintRow, channel_peer_hint_put}

abbrev hint : Bytes → ℕ → HintRow
hint offer now = record { room = 1 ∷ []; peer = 2 ∷ []; offer = offer; received_at = now }

-- An earlier offer of the same peer is overwritten.
overwrites :
    channel_peer_hint_put none (hint (7 ∷ []) 1000 ∷ []) (1 ∷ []) (2 ∷ []) (8 ∷ []) (pos 2000)
    ≡ (hint (8 ∷ []) 2000 ∷ [], ok tt)
unfolding channel_peer_hint_put put_ordered in_order bytes_beq retain
overwrites = refl
