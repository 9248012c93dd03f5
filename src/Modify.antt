-- ===== src/Modify.antt =====
-- src/engine/modify_state.cc: the changes that a PostgreSQL transaction has made to Iceberg tables and
-- not yet published.
pub mod Apply
pub mod Identity
pub mod Recovered
pub mod Queue
pub mod Commit
pub mod Callbacks
pub mod Keys
pub mod Aborts
pub mod AbortSafety
pub mod AbortErrors
pub mod Tables
pub mod States
pub mod Logged
pub mod Rounds
pub mod WriteAhead
use pgiceberg.Common.{ℕ, Bool, List, [], Option}
use pgiceberg.Common.Bytes.{Bytes}
use pgiceberg.Common.Int.{ℤ, pos}
use pgiceberg.Options.{Options}
use pgiceberg.Exec.{Exec}
use pgiceberg.Outside.{History, DataFile, Properties}
use pgiceberg.Recovery.{CommitRecoveryRecord, state_preparing}

-- The three classes derived from `PendingIcebergChange`.
pub data Change : Type 0 where
  append : Option DataFile → Option Properties → Change
  overwrite : List DataFile → Option DataFile → Change
  row_delta : Option DataFile → List DataFile → List DataFile → Change

pub record PendingModifyChange : Type 0 where
  pub subtransaction_id : ℕ
  pub change : Change

pub record PendingTableChange (Table Transaction : Type 0) : Type 0 where
  pub key : Bytes
  pub options : Options
  pub base_table : Table
  pub transaction : Transaction
  pub changes : List PendingModifyChange
  pub base_snapshot_id : Option ℤ
  pub committed_snapshot_id : Option ℤ
  pub committed : Bool
  pub commit_state_unknown : Bool

-- The two statics of the backend, `PendingTableChanges()` and `CurrentXactCommitState()`, and what has
-- been done outside.
pub record Backend (Table Transaction : Type 0) : Type 0 where
  pub pending : List (PendingTableChange Table Transaction)
  pub commit_id : Bytes
  pub recovery : CommitRecoveryRecord
  pub history : History

-- A default-constructed `CommitRecoveryRecord`.
unfoldable pub empty_record : CommitRecoveryRecord
empty_record = record {
  commit_id = [];
  postgres_xid = [];
  state = state_preparing;
  created_at_unix_micros = pos 0;
  tables = [];
}

module _ {Table Transaction A : Type 0} where
  unfoldable pub on_history : Exec History A → Exec (Backend Table Transaction) A
  on_history m b = let (r, h) = m b.history in (r, record b { history = h })
