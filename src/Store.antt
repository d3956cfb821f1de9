-- ===== src/Store.antt =====
-- crates/lantern-core/src/store.rs: the tables of the node's database.
pub mod Transaction
pub mod Counting
pub mod Hints
pub mod Failures
pub mod History
pub mod Messages
pub mod Invites
pub mod Friends
pub mod Schema
pub mod Settings
