-- ===== src/Store/Schema/Upgrade.antt =====
-- The schema is the same for a new database, for one of any older version, and for one whose upgrade was
-- interrupted.
use xivlantern_dalamud.Prelude.{ℕ, zero, suc, ◌≤◌, ◌≡◌, refl, List, [], ◌++◌, take, arith}
use xivlantern_dalamud.Store.Schema.{
  Object, place, Database, create_if_absent, create_all, batch_1, batch_2, batch_3, batch_4,
  batch_5, upgrade, migrate,
}

-- What SQLite gives a new file.
abbrev pub new_database : Database
new_database = record { user_version = 0; objects = [] }

-- The statements that lead from one version to the next.
abbrev pub batch : ℕ → List Object
batch zero = batch_1
batch (suc zero) = batch_2
batch (suc (suc zero)) = batch_3
batch (suc (suc (suc zero))) = batch_4
batch (suc (suc (suc (suc zero)))) = batch_5
batch (suc (suc (suc (suc (suc v))))) = []

-- All that a version has.
abbrev pub objects_of : ℕ → List Object
objects_of zero = []
objects_of (suc v) = objects_of v ++ batch v

-- A database of version `v` with the first `k` statements of the next upgrade.
abbrev pub interrupted : ℕ → ℕ → Database
interrupted v k = record { user_version = v; objects = objects_of v ++ take k (batch v) }

-- Whatever older version a database has, and however many statements of its next upgrade ran before it was
-- interrupted, the migration leads to the same version, tables and indexes as that of a new database.
pub migrate-interrupted : (v k : ℕ) → v ≤ 5 → migrate (interrupted v k) ≡ migrate new_database
unfolding migrate upgrade create_all create_if_absent place
migrate-interrupted zero zero h = refl
migrate-interrupted zero (suc (zero)) h = refl
migrate-interrupted zero (suc (suc (zero))) h = refl
migrate-interrupted zero (suc (suc (suc (zero)))) h = refl
migrate-interrupted zero (suc (suc (suc (suc (zero))))) h = refl
migrate-interrupted zero (suc (suc (suc (suc (suc (k)))))) h = refl
migrate-interrupted (suc (zero)) zero h = refl
migrate-interrupted (suc (zero)) (suc (zero)) h = refl
migrate-interrupted (suc (zero)) (suc (suc (zero))) h = refl
migrate-interrupted (suc (zero)) (suc (suc (suc (zero)))) h = refl
migrate-interrupted (suc (zero)) (suc (suc (suc (suc (zero))))) h = refl
migrate-interrupted (suc (zero)) (suc (suc (suc (suc (suc (zero)))))) h = refl
migrate-interrupted (suc (zero)) (suc (suc (suc (suc (suc (suc (zero))))))) h = refl
migrate-interrupted (suc (zero)) (suc (suc (suc (suc (suc (suc (suc (k)))))))) h = refl
migrate-interrupted (suc (suc (zero))) zero h = refl
migrate-interrupted (suc (suc (zero))) (suc (zero)) h = refl
migrate-interrupted (suc (suc (zero))) (suc (suc (zero))) h = refl
migrate-interrupted (suc (suc (zero))) (suc (suc (suc (k)))) h = refl
migrate-interrupted (suc (suc (suc (zero)))) zero h = refl
migrate-interrupted (suc (suc (suc (zero)))) (suc (zero)) h = refl
migrate-interrupted (suc (suc (suc (zero)))) (suc (suc (zero))) h = refl
migrate-interrupted (suc (suc (suc (zero)))) (suc (suc (suc (zero)))) h = refl
migrate-interrupted (suc (suc (suc (zero)))) (suc (suc (suc (suc (k))))) h = refl
migrate-interrupted (suc (suc (suc (suc (zero))))) zero h = refl
migrate-interrupted (suc (suc (suc (suc (zero))))) (suc (zero)) h = refl
migrate-interrupted (suc (suc (suc (suc (zero))))) (suc (suc (zero))) h = refl
migrate-interrupted (suc (suc (suc (suc (zero))))) (suc (suc (suc (k)))) h = refl
migrate-interrupted (suc (suc (suc (suc (suc (zero)))))) zero h = refl
migrate-interrupted (suc (suc (suc (suc (suc (zero)))))) (suc k) h = refl
migrate-interrupted (suc (suc (suc (suc (suc (suc (v))))))) k h = absurd (omega arith)
