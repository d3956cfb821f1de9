-- ===== src/Store/Schema/Tests.antt =====
-- The theorem of the migrations at a concrete input.
use xivlantern_dalamud.Prelude.{◌≡◌, arith}
use xivlantern_dalamud.Store.Schema.{migrate}
use xivlantern_dalamud.Store.Schema.Upgrade.{new_database, interrupted, migrate-interrupted}

migrate-interrupted_example : migrate (interrupted 1 3) ≡ migrate new_database
migrate-interrupted_example = migrate-interrupted 1 3 (omega arith)
