-- ===== src/Outside.antt =====
-- What the engine calls and does not implement: PostgreSQL's transaction status, the file system,
-- the catalog and the Iceberg library. Each call that changes something outside the process leaves
-- an event; what a call answers is a function of the events before it.
pub mod Growth
use pgiceberg.Common.{ℕ, Bool, List, Option}
use pgiceberg.Common.Bytes.{Bytes}
use pgiceberg.Common.Int.{ℤ}
use pgiceberg.Status.{Result, Status, IcebergResult}
use pgiceberg.Options.{Options, CatalogOptions}

-- How `Transaction::Commit` ended.
pub data Outcome : Type 0 where
  done refused unknown : Outcome

pub data Event : Type 0 where
  log_write : Bytes → Bytes → Bool → Event
  log_remove : Bytes → Bool → Event
  publish : Options → Outcome → Event
  delete_files : List Bytes → Event
  rollback : Options → ℤ → Bool → Event

-- Newest first.
abbrev pub History : Type 0
History = List Event

pub record Snapshot : Type 0 where
  pub snapshot_id : ℤ
  pub summary : List (Bytes × Bytes)

-- An entry of the log directory; `contents` is `none` if the file cannot be opened.
pub record DirEntry : Type 0 where
  pub name : Bytes
  pub is_regular_file : Bool
  pub contents : Option Bytes

-- `CommitProperties`: a map from property names to values, as its entries.
abbrev pub Properties : Type 0
Properties = List (Bytes × Bytes)

pub record DataFile : Type 0 where
  pub file_path : Bytes
  pub referenced_data_file : Option Bytes

-- The calls that `PendingRowDeltaChange::Apply` makes on its update, before `Commit`.
pub record RowDelta : Type 0 where
  pub validate_from_snapshot : ℤ
  pub added_rows : Option DataFile
  pub removed_deletes : List DataFile
  pub added_deletes : List DataFile
  pub data_files_exist : List Bytes
  pub validate_deleted_files : Bool
  pub validate_no_conflicting_delete_files : Bool
  pub properties : Properties

-- `Table` and `Transaction` are the library's `iceberg::Table` and `iceberg::Transaction`.
pub record Outside (Table Transaction : Type 0) : Type 0 where
  pub data_dir : Bytes
  pub durable_write_file : History → Bytes → Bytes → Status
  pub remove_file : History → Bytes → Status
  pub read_file : History → Bytes → Option (Option Bytes)
  pub log_directory : History → List DirEntry
  pub is_current_transaction : ℕ → Bool
  pub is_in_progress : ℕ → Bool
  pub did_commit : ℕ → Bool
  pub did_abort : ℕ → Bool
  pub strong_random : History → Option (List ℕ)
  pub top_transaction_id : ℕ
  pub top_full_transaction_id : ℕ
  pub process_id : ℕ
  pub current_timestamp : History → ℕ
  pub now_micros : History → ℤ
  pub current_subtransaction : History → ℕ
  pub load_catalog_options : Bytes → Result CatalogOptions
  pub load_iceberg_table : History → CatalogOptions → Bytes → Result Table
  -- A load that follows another one of the same table: another writer may have come between the two.
  pub reload_iceberg_table : History → CatalogOptions → Bytes → Result Table
  pub latest_snapshot : Table → IcebergResult (Option Snapshot)
  pub current_snapshot : Table → Option Snapshot
  pub is_ancestor_of : Table → ℤ → ℤ → Option Bool
  pub make_snapshot_manager : Table → IcebergResult (Unit {0})
  pub commit_rollback : History → Table → ℤ → IcebergResult (Unit {0})
  pub new_transaction : Table → IcebergResult Transaction
  pub commit_transaction : History → Transaction → IcebergResult Table
  pub transaction_snapshot : Transaction → ℤ
  pub new_fast_append : Transaction → IcebergResult (Unit {0})
  pub new_overwrite : Transaction → IcebergResult (Unit {0})
  pub new_row_delta : Transaction → IcebergResult (Unit {0})
  pub new_update_properties : Transaction → IcebergResult (Unit {0})
  pub fast_append : DataFile → Properties → Transaction → IcebergResult (Unit {0}) × Transaction
  pub overwrite :
      List DataFile
      → Option DataFile
      → Properties
      → Transaction
      → IcebergResult (Unit {0}) × Transaction
  pub row_delta : RowDelta → Transaction → IcebergResult (Unit {0}) × Transaction
  pub update_properties : Properties → Transaction → IcebergResult (Unit {0}) × Transaction
