-- ===== src/Modify/Recovered.antt =====
-- The recovery record of the current transaction: `RecoveryTableFor` to `AbortPendingModifyChanges` of
-- src/engine/modify_state.cc.
use pgiceberg.Common.{Bool, true, false, ◌&&◌, ◌||◌, List, [], ◌∷◌, any_of, is_empty, if◌then◌else◌}
use pgiceberg.Common.Bytes.{Bytes, eqb}
use pgiceberg.Status.{Status, ok, err}
use pgiceberg.Options.{Options}
use pgiceberg.Exec.{Exec}
use pgiceberg.Outside.{Outside}
use pgiceberg.Recovery.{
  CommitRecoveryTable, CommitRecoveryRecord, state_preparing, state_iceberg_partial,
  state_iceberg_complete, state_needs_repair, table_pending, table_committed, table_unknown,
}
use pgiceberg.Recovery.Log.{write_commit_recovery_log, remove_commit_recovery_log}
use pgiceberg.Recovery.Rollback.{may_be_published, best_effort_rollback_committed_tables}
use pgiceberg.Modify.{PendingTableChange, Backend, on_history}
use pgiceberg.Modify.Identity.{postgres_xid_text, reset_xact_commit_state}

unfoldable pub same_recovery_table : Options → Options → Bool
same_recovery_table left right =
    eqb left.catalog right.catalog
    && (eqb left.catalog_type right.catalog_type
        && (eqb left.catalog_uri right.catalog_uri
            && (eqb left.warehouse right.warehouse
                && (eqb left.catalog_name right.catalog_name
                    && (eqb left.name_space right.name_space && eqb left.table right.table)))))

unfoldable pub upsert_table :
    List CommitRecoveryTable → CommitRecoveryTable → List CommitRecoveryTable
upsert_table [] t = t ∷ []
upsert_table (existing ∷ rest) t =
    let below = upsert_table rest t in
    if same_recovery_table existing.options t.options then t ∷ rest else existing ∷ below

unfoldable pub upsert_recovery_table :
    CommitRecoveryRecord → CommitRecoveryTable → CommitRecoveryRecord
upsert_recovery_table r t = record r { tables = upsert_table r.tables t }

abbrev pub is_committed : CommitRecoveryTable → Bool
is_committed t = eqb t.iceberg_state table_committed

abbrev pub is_unknown : CommitRecoveryTable → Bool
is_unknown t = eqb t.iceberg_state table_unknown

-- The three flags that the loop of `RecoveryStateFor` raises.
unfoldable pub recovery_state_for : CommitRecoveryRecord → Bytes
recovery_state_for r =
    let any_committed = any_of is_committed r.tables in
    let any_unknown = any_of (λ t. if is_committed t then false else is_unknown t) r.tables in
    let any_pending =
      any_of (λ t. if is_committed t then false else if is_unknown t then false else true)
        r.tables in
    if any_unknown || (any_committed && any_pending)
    then state_iceberg_partial
    else if any_committed
    then state_iceberg_complete
    else state_preparing

module _ {Table Transaction : Type 0} where
  unfoldable pub recovery_table_for : PendingTableChange Table Transaction → CommitRecoveryTable
  recovery_table_for t = record {
    options = t.options;
    base_snapshot_id = t.base_snapshot_id;
    committed_snapshot_id = t.committed_snapshot_id;
    iceberg_state =
        if t.commit_state_unknown
        then table_unknown
        else if t.committed
        then table_committed
        else table_pending;
  }

module _ {Table Transaction : Type 0} (o : Outside Table Transaction) where
  -- The record that `PersistCurrentRecoveryLog` writes.
  unfoldable pub current_record : Backend Table Transaction → CommitRecoveryRecord
  current_record b = record b.recovery {
    commit_id = b.commit_id;
    postgres_xid = postgres_xid_text o;
    state = recovery_state_for b.recovery;
  }

  unfoldable pub persist_current_recovery_log : Exec (Backend Table Transaction) (Unit {0})
  persist_current_recovery_log b =
      if is_empty b.commit_id
      then (ok tt, b)
      else on_history (write_commit_recovery_log o (current_record b))
          (record b { recovery = current_record b })

  -- A failure to remove the log is a warning.
  unfoldable pub forget_current_recovery_log : Backend Table Transaction → Backend Table Transaction
  forget_current_recovery_log b = reset_xact_commit_state (
      if is_empty b.commit_id
      then b
      else (on_history (remove_commit_recovery_log o b.commit_id) b).1)

  -- `AbortPendingModifyChanges` after a rollback that ended with `status`.
  unfoldable pub after_rollback : Status → Backend Table Transaction → Backend Table Transaction
  after_rollback (ok _) b = forget_current_recovery_log b
  after_rollback (err e) b =
      let r = record b.recovery { state = state_needs_repair } in
      reset_xact_commit_state
        (on_history (write_commit_recovery_log o r) (record b { recovery = r })).1

  unfoldable pub abort_pending_modify_changes :
      Backend Table Transaction → Backend Table Transaction
  abort_pending_modify_changes b =
      if any_of may_be_published b.recovery.tables
      then (let (status, b') = on_history (best_effort_rollback_committed_tables o b.recovery) b in
          after_rollback status b')
      else if is_empty b.commit_id
      then reset_xact_commit_state b
      else forget_current_recovery_log b
