-- ===== src/Sync.antt =====
-- crates/ciss-sync: the file-sync engine of the customer's side. Each operation is a function from the
-- state to a result; the server behind the transport is a parameter of those that talk to it.
pub mod Spend
pub mod Tree
pub mod Heads
pub mod Frontier
pub mod Fold
pub mod Transport
pub mod Cache
pub mod Working
pub mod Backup
use ciss.Prelude.{ℕ, String, List}

-- error.rs. A text in an error names its cause; the wording is left out.
pub data SyncError : Type 0 where
  invalid_chunk_len : ℕ → ℕ → SyncError
  io encode decode wrong_kind transport : String → SyncError
  changed_during_backup hydrate_would_overwrite no_placeholder : String → SyncError
  index : SyncError
  cid_mismatch : String → String → SyncError
  evict_unbacked : String → List String → SyncError
  stale_seq : ℕ → SyncError
  ceiling_deferred : String → ℕ → ℕ → ℕ → SyncError
