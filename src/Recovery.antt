-- ===== src/Recovery.antt =====
-- src/engine/commit_recovery.h: the record that a transaction writes before it publishes.
pub mod Stream
pub mod Format
pub mod Json
pub mod Parse
pub mod Reads
mod Fields
pub mod RoundTrip
pub mod Log
pub mod Ownership
pub mod Verdicts
pub mod Rollback
pub mod Repair
pub mod Safety
pub mod RepairSafety
pub mod RepairErrors
use pgiceberg.Common.{List, Option}
use pgiceberg.Common.Bytes.{Bytes, text}
use pgiceberg.Common.Int.{ℤ}
use pgiceberg.Options.{Options}

pub record CommitRecoveryTable : Type 0 where
  pub options : Options
  pub base_snapshot_id : Option ℤ
  pub committed_snapshot_id : Option ℤ
  pub iceberg_state : Bytes

pub record CommitRecoveryRecord : Type 0 where
  pub commit_id : Bytes
  pub postgres_xid : Bytes
  pub state : Bytes
  pub created_at_unix_micros : ℤ
  pub tables : List CommitRecoveryTable

unfoldable pub state_preparing : Bytes
state_preparing = text "preparing"

unfoldable pub state_iceberg_partial : Bytes
state_iceberg_partial = text "iceberg_partial"

unfoldable pub state_iceberg_complete : Bytes
state_iceberg_complete = text "iceberg_complete"

unfoldable pub state_needs_repair : Bytes
state_needs_repair = text "needs_repair"

unfoldable pub table_pending : Bytes
table_pending = text "pending"

unfoldable pub table_committed : Bytes
table_committed = text "committed"

unfoldable pub table_unknown : Bytes
table_unknown = text "unknown"
