-- ===== src/Store.antt =====
-- src/persist.rs: the SQLite tables as lists of rows. A statement that SQLite itself refuses (disk,
-- locks) is outside the model; a primary key that is taken is inside it.
pub mod Meter
pub mod Assertions
pub mod Chains
pub mod Dials
pub mod Manifests
pub mod Countersign
use ciss.Prelude.{ℕ, ◌+◌, ◌-◌, ◌^◌, String, Bool, Option, none, some, List, [], min}
use ciss.Prelude.Int.{ℤ}
use ciss.Prelude.Map.{Map}

pub data PersistError : Type 0 where
  sqlite json : PersistError
  stale_assertion_seq : String → ℕ → PersistError

pub record ReceiptTotals : Type 0 where
  pub receipt_count : ℕ
  pub upload_bytes : ℕ
  pub download_bytes : ℕ
  pub drawdown_download_bytes : ℕ

unfoldable pub total_bytes : ReceiptTotals → ℕ
total_bytes t = t.upload_bytes + t.download_bytes

abbrev pub no_receipts : ReceiptTotals
no_receipts = record {
  receipt_count = 0;
  upload_bytes = 0;
  download_bytes = 0;
  drawdown_download_bytes = 0;
}

-- A row of `receipt` or `statement`; the list is in the order of the row ids.
pub record JsonRow : Type 0 where
  pub did : String
  pub json : String

-- A row of `did_total`.
pub record DidTotal : Type 0 where
  pub totals : ReceiptTotals
  pub stored_bytes : ℕ

-- A row of `assertion`; an absent subkey is stored as the empty text.
pub record AssertionRow : Type 0 where
  pub did : String
  pub kind : String
  pub subkey : String
  pub seq : ℕ
  pub json : String
  pub ack : String

-- A row of `chain_entry`.
pub record ChainRow : Type 0 where
  pub did : String
  pub kind : String
  pub subkey : String
  pub seq : ℕ
  pub delta : ℤ
  pub total : ℕ
  pub prev_entry_hash : String
  pub entry_hash : String
  pub is_checkpoint : Bool
  pub prev_checkpoint : String
  pub json : String
  pub ack : String

pub record Store : Type 0 where
  pub meta : Map String
  pub manifest : Map String
  pub receipt : List JsonRow
  pub statement : List JsonRow
  pub did_total : Map DidTotal
  pub assertion : List AssertionRow
  pub chain_entry : List ChainRow

abbrev pub empty_store : Store
empty_store = record {
  meta = [];
  manifest = [];
  receipt = [];
  statement = [];
  did_total = [];
  assertion = [];
  chain_entry = [];
}

abbrev pub i64_max : ℕ
i64_max = 2 ^ 63 - 1

-- `i64::try_from(n).unwrap_or(i64::MAX)`.
unfoldable pub clamp_i64 : ℕ → ℕ
clamp_i64 n = min n i64_max
