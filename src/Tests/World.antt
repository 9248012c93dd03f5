-- ===== src/Tests/World.antt =====
-- A concrete world: tables are known by their current snapshot, transactions count their changes, and
-- one recovery log is on disk.
use pgiceberg.Common.{ℕ, Bool, suc, true, false, [], ◌∷◌, none, some}
use pgiceberg.Common.Int.{pos}
use pgiceberg.Status.{ok, err, make_error, io_error}
use pgiceberg.Options.{Options}
use pgiceberg.Outside.{Outside, Snapshot}
use pgiceberg.Recovery.{CommitRecoveryTable, CommitRecoveryRecord}
use pgiceberg.Recovery.Format.{format_record}

abbrev pub orders : Options
orders = record {
  catalog = [];
  catalog_type = 115 ∷ 113 ∷ 108 ∷ [];
  catalog_uri = [];
  warehouse = 47 ∷ 119 ∷ [];
  catalog_name = 112 ∷ [];
  name_space = 100 ∷ [];
  table = 111 ∷ 32 ∷ 10 ∷ [];
  snapshot_id = none;
}

-- Published as snapshot 7 on top of snapshot 3.
abbrev pub orders_table : CommitRecoveryTable
orders_table = record {
  options = orders;
  base_snapshot_id = some (pos 3);
  committed_snapshot_id = some (pos 7);
  iceberg_state = 99 ∷ [];
}

abbrev pub sample_record : CommitRecoveryRecord
sample_record = record {
  commit_id = 97 ∷ 98 ∷ [];
  postgres_xid = 53 ∷ [];
  state = 112 ∷ [];
  created_at_unix_micros = pos 12;
  tables = orders_table ∷ [];
}

abbrev pub snapshot_7 : Snapshot
snapshot_7 = record { snapshot_id = pos 7; summary = [] }

-- Transaction 5 is running if `running` says so; logs cannot be removed.
abbrev pub world : (running : ℕ → Bool) → Outside ℕ ℕ
world running = record {
  data_dir = 47 ∷ 100 ∷ [];
  durable_write_file = λ h path contents. ok tt;
  remove_file = λ h path. err (make_error io_error [] []);
  read_file = λ h path. some (some (format_record sample_record));
  log_directory = λ h. [];
  is_current_transaction = λ xid. false;
  is_in_progress = running;
  did_commit = λ xid. false;
  did_abort = λ xid. true;
  strong_random = λ h. none;
  top_transaction_id = 5;
  top_full_transaction_id = 5;
  process_id = 1;
  current_timestamp = λ h. 0;
  now_micros = λ h. pos 0;
  current_subtransaction = λ h. 1;
  load_catalog_options = λ name. err (make_error io_error [] []);
  load_iceberg_table = λ h options context. ok 7;
  reload_iceberg_table = λ h options context. ok 7;
  latest_snapshot = λ table. ok (some snapshot_7);
  current_snapshot = λ table. some snapshot_7;
  is_ancestor_of = λ table a b. some true;
  make_snapshot_manager = λ table. ok tt;
  commit_rollback = λ h table id. ok tt;
  new_transaction = λ table. ok 0;
  commit_transaction = λ h tx. ok 7;
  transaction_snapshot = λ tx. pos 7;
  new_fast_append = λ tx. ok tt;
  new_overwrite = λ tx. ok tt;
  new_row_delta = λ tx. ok tt;
  new_update_properties = λ tx. ok tt;
  fast_append = λ file ps tx. (ok tt, suc tx);
  overwrite = λ files file ps tx. (ok tt, suc tx);
  row_delta = λ delta tx. (ok tt, suc tx);
  update_properties = λ ps tx. (ok tt, suc tx);
}

abbrev pub idle : ℕ → Bool
idle xid = false
