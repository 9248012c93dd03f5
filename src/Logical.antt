-- ===== src/Logical.antt =====
-- src/logical/logical.cc: copying the inserts of a PostgreSQL table to an Iceberg table, from a slot of
-- logical decoding.
pub mod Decode
pub mod Output
pub mod Reads
pub mod Columns
pub mod BatchNames
pub mod Slot
pub mod BatchId
pub mod Batch
pub mod Mirror
pub mod Consumed
pub mod Drain
pub mod Appended
pub mod Left
pub mod Turns
pub mod Delivered
pub mod Backfill
pub mod Copies
pub mod RoundTrip
use pgiceberg.Common.{ℕ, List, Option}
use pgiceberg.Common.Bytes.{Bytes}

-- The decoded form of one change. `values_by_attnum` has the place 0 for no attribute.
pub record DecodedChange : Type 0 where
  pub action : ℕ
  pub relid : ℕ
  pub values_by_attnum : List (Option Bytes)
