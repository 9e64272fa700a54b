-- ===== src/Examples.antt =====
-- Concrete inputs: small stand-ins for the crates, and the code run on them.
pub mod Toy
pub mod Trees
pub mod Cached
pub mod Evictions
pub mod Pushed
pub mod Committed
pub mod Guarded
pub mod Codec
pub mod Records
pub mod Manifests
pub mod Settings
pub mod Plain
pub mod Parties
pub mod Books
pub mod Served
pub mod Stored
pub mod Writes
pub mod Reports
