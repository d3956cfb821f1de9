-- ===== src/Error/Display.antt =====
-- crates/lantern-core/src/lib.rs: how an error is written, as `format!("{e}")` does it.
use xivlantern_dalamud.Prelude.{◌++◌}
use xivlantern_dalamud.Error.{
  Error, arg, state, not_found, full, ticket, store, net, too_large, internal,
}
use xivlantern_dalamud.Text.{Text}
use xivlantern_dalamud.ChannelHistory.{codes}

unfoldable pub display : Error → Text
display (arg m) = codes "bad argument: " ++ codes m
display (state m) = codes "bad state: " ++ codes m
display not_found = codes "unknown handle"
display full = codes "queue full"
display ticket = codes "ticket did not parse"
display (store m) = codes "store: " ++ codes m
display (net m) = codes "network: " ++ codes m
display too_large = codes "payload too large"
display (internal m) = codes "internal: " ++ codes m
