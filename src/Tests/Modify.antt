-- ===== src/Tests/Modify.antt =====
-- Runs of src/engine/modify_state.cc.
use pgiceberg.Common.{ℕ, ◌≡◌, ◌≢◌, ◌↔◌, refl, [], ◌∷◌, none, some, true, false, any_of}
use pgiceberg.Common.Int.{pos}
use pgiceberg.Status.{IcebergError, validation_failed, ok, err, from_iceberg_result}
use pgiceberg.Recovery.Log.{is_safe_commit_id}
use pgiceberg.Modify.{PendingModifyChange, PendingTableChange, Backend, append, empty_record}
use pgiceberg.Modify.Identity.{ensure_xact_commit_id, generate_commit_id, xact_properties}
use pgiceberg.Outside.Growth.{Grown}
use pgiceberg.Modify.Commit.{commit_failed, commit_pending_modify_changes}
use pgiceberg.Modify.Logged.{BehindLog}
use pgiceberg.Modify.WriteAhead.{commit-BehindLog}
use pgiceberg.Modify.States.{
  in_doubt, is_open, recovery_state_for_iff, commit_failed-not_needs_repair,
}
use pgiceberg.Modify.Recovered.{is_committed, recovery_state_for}
use pgiceberg.Recovery.{state_iceberg_complete, state_preparing, state_needs_repair}
use pgiceberg.Modify.AbortSafety.{AbortEvent, abort-AbortEvent}
use pgiceberg.Common.Bytes.{text, eqb}
use pgiceberg.Recovery.{CommitRecoveryTable, table_committed, table_unknown}
use pgiceberg.Recovery.Rollback.{
  best_effort_loop, best_effort_one, rollback_if_ours, rollback_table_to_base, rollback_to_snapshot,
  may_be_published, no_parent_snapshot, best_effort_rollback_committed_tables,
}
use pgiceberg.Recovery.Ownership.{
  inspect_snapshot_ownership, catalog_options_for_repair, inspect_loaded, current_snapshot_id,
  ownership_of,
}
use pgiceberg.Options.{to_catalog_options}
use pgiceberg.Recovery.RepairErrors.{KeepsLog}
use pgiceberg.Modify.AbortErrors.{abort_failed-KeepsLog}
use pgiceberg.Modify.Keys.{pending_table_key-injective, generate_commit_id-safe}
use pgiceberg.Modify.Callbacks.{
  sub_xact_callback, abort_sub, xact_callback, abort, after_abort_sub, abort_sub_tables, strip,
  after_rebuild,
}
use pgiceberg.Modify.Queue.{rebuilt_transaction, replay}
use pgiceberg.Modify.Apply.{apply, append_file, commit_update, apply_table_commit_properties}
use pgiceberg.Exec.{◌>>=◌}
use pgiceberg.Modify.Aborts.{RolledBack, abort_sub-RolledBack}
use pgiceberg.Tests.World.{world, idle, orders, orders_table, sample_record}

abbrev change_of : ℕ → PendingModifyChange
change_of subid = record {
  subtransaction_id = subid;
  change =
      append (some (record { file_path = 102 ∷ subid ∷ []; referenced_data_file = none })) none;
}

-- One change of the outer transaction and one of the savepoint 2.
abbrev queued : PendingTableChange ℕ ℕ
queued = record {
  key = 107 ∷ [];
  options = orders;
  base_table = 7;
  transaction = 2;
  changes = change_of 1 ∷ change_of 2 ∷ [];
  base_snapshot_id = some (pos 7);
  committed_snapshot_id = none;
  committed = false;
  commit_state_unknown = false;
}

abbrev backend : Backend ℕ ℕ
backend = record {
  pending = queued ∷ [];
  commit_id = 97 ∷ [];
  recovery = empty_record;
  history = [];
}

abort_2-ok : (sub_xact_callback (world idle) abort_sub 2 1 backend).0 ≡ ok tt
unfolding sub_xact_callback after_abort_sub abort_sub_tables strip after_rebuild rebuilt_transaction
    from_iceberg_result replay apply ◌>>=◌ append_file commit_update apply_table_commit_properties
    xact_properties
abort_2-ok = refl

abort_sub-RolledBack_example :
    RolledBack (world idle) 2 backend (sub_xact_callback (world idle) abort_sub 2 1 backend).1
abort_sub-RolledBack_example = abort_sub-RolledBack (world idle) 2 1 backend refl abort_2-ok

pending_table_key-injective_example : record orders { snapshot_id = none } ≡ orders
pending_table_key-injective_example = pending_table_key-injective orders orders refl

generate_commit_id-safe_example : is_safe_commit_id (generate_commit_id (world idle) []) ≡ true
generate_commit_id-safe_example = generate_commit_id-safe (world idle) [] λ bytes e. cc

commit-BehindLog_example :
    Grown
      (BehindLog (world idle) (ensure_xact_commit_id (world idle) backend).commit_id)
      []
      (commit_pending_modify_changes (world idle) backend).1.history
commit-BehindLog_example = commit-BehindLog (world idle) backend λ bytes e. cc

abort-AbortEvent_example :
    Grown (AbortEvent (world idle) backend) [] (xact_callback (world idle) abort backend).1.history
abort-AbortEvent_example = abort-AbortEvent (world idle) backend

recovery_state_for_iff_example :
    ((recovery_state_for sample_record ≡ state_iceberg_complete) ↔ (
      (any_of in_doubt (orders_table ∷ []) ≡ false)
      × (any_of is_open (orders_table ∷ []) ≡ false)
      × (any_of is_committed (orders_table ∷ []) ≡ true)))
    × ((recovery_state_for sample_record ≡ state_preparing) ↔ (
        (any_of in_doubt (orders_table ∷ []) ≡ false)
        × (any_of is_committed (orders_table ∷ []) ≡ false)))
recovery_state_for_iff_example = recovery_state_for_iff sample_record

abbrev conflict : IcebergError
conflict = record { kind = validation_failed; message = 99 ∷ [] }

commit_failed-not_needs_repair_example :
    (commit_failed (world idle) queued conflict backend).2.recovery.state ≢ state_needs_repair
commit_failed-not_needs_repair_example =
    commit_failed-not_needs_repair (world idle) queued conflict backend refl

-- Published, and with no snapshot to go back to.
abbrev first_write : CommitRecoveryTable
first_write = record orders_table { base_snapshot_id = none; iceberg_state = table_committed }

abbrev published : Backend ℕ ℕ
published = record backend {
  pending = [];
  recovery = record sample_record { tables = first_write ∷ [] };
}

first_write-published : any_of may_be_published (first_write ∷ []) ≡ true
unfolding table_committed table_unknown text eqb
first_write-published = refl

rollback_fails :
    (best_effort_rollback_committed_tables (world idle) published.recovery []).0
    ≡ err (no_parent_snapshot first_write)
unfolding best_effort_rollback_committed_tables best_effort_loop best_effort_one eqb table_committed
    text ◌>>=◌ inspect_snapshot_ownership catalog_options_for_repair to_catalog_options
    inspect_loaded current_snapshot_id from_iceberg_result rollback_if_ours ownership_of
    rollback_table_to_base rollback_to_snapshot
rollback_fails = refl

abort_failed-KeepsLog_example :
    Grown KeepsLog [] (xact_callback (world idle) abort published).1.history
abort_failed-KeepsLog_example =
    abort_failed-KeepsLog (world idle) published (no_parent_snapshot first_write)
      first_write-published rollback_fails
