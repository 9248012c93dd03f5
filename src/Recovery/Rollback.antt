-- ===== src/Recovery/Rollback.antt =====
-- Taking published snapshots back: `RollbackIcebergSnapshot`, `RollbackTableToBase` and
-- `BestEffortRollbackCommittedTables` of src/engine/commit_recovery.cc.
use mathlib.Core.List.{reverse}
use pgiceberg.Common.{Bool, ◌||◌, List, [], ◌∷◌, ◌++◌, Option, none, some, if◌then◌else◌}
use pgiceberg.Common.Bytes.{Bytes, text, eqb}
use pgiceberg.Common.Int.{ℤ}
use pgiceberg.Status.{
  Status, PgError, ok, err, make_error, from_iceberg_result, feature_not_supported,
  object_not_in_prerequisite_state,
}
use pgiceberg.Options.{Options}
use pgiceberg.Exec.{Exec, pure, raise, read, ◌>>=◌, ◌>>◌, succeeded}
use pgiceberg.Outside.{Outside, History, rollback}
use pgiceberg.Recovery.{CommitRecoveryTable, CommitRecoveryRecord, table_committed, table_unknown}
use pgiceberg.Recovery.Ownership.{
  SnapshotOwnership, ours, base, missing, foreign, is_id, catalog_options_for_repair,
  current_snapshot_id, inspect_snapshot_ownership,
}

-- `"Iceberg table \"<namespace>.<table>\""` and what follows it.
unfoldable pub about_table : Bytes → CommitRecoveryTable → Bytes → Bytes
about_table before t after =
    before
    ++ text "Iceberg table \""
    ++ t.options.name_space
    ++ text "."
    ++ t.options.table
    ++ after

unfoldable pub no_parent_snapshot : CommitRecoveryTable → PgError
no_parent_snapshot t =
    make_error feature_not_supported
      (about_table (text "cannot roll back ") t (text "\" because it had no parent snapshot"))
      (text
        "Use action 'acknowledge' to keep the published Iceberg snapshot, or replace the table.")

unfoldable pub no_longer_ours : CommitRecoveryTable → Bytes → PgError
no_longer_ours t hint =
    make_error object_not_in_prerequisite_state
      (about_table [] t (text "\" current snapshot is no longer the in-doubt pgiceberg commit"))
      hint

-- The test in front of an attempt: only tables that were published, or may have been.
abbrev pub may_be_published : CommitRecoveryTable → Bool
may_be_published t = eqb t.iceberg_state table_committed || eqb t.iceberg_state table_unknown

-- `if (first_error) first_error = ...`
abbrev pub first_error : Status → Status → Status
first_error (ok _) status = status
first_error (err e) status = err e

module _ {Table Transaction : Type 0} (o : Outside Table Transaction) where
  unfoldable pub commit_rollback : Options → Table → ℤ → Exec History (Unit {0})
  commit_rollback options table snapshot_id h =
      let status =
        from_iceberg_result (o.commit_rollback h table snapshot_id)
          (text "rollback Iceberg snapshot") in
      (status, rollback options snapshot_id (succeeded status) ∷ h)

  unfoldable pub rollback_unless_current : Options → Table → ℤ → Option ℤ → Exec History (Unit {0})
  rollback_unless_current options table snapshot_id current =
      if is_id current snapshot_id then pure tt else (do
        read (λ _.
            from_iceberg_result (o.make_snapshot_manager table)
              (text "create Iceberg snapshot manager"))
        commit_rollback options table snapshot_id)

  -- The caller has inspected the table, which loaded it too.
  unfoldable pub rollback_iceberg_snapshot : Options → ℤ → Exec History (Unit {0})
  rollback_iceberg_snapshot options snapshot_id = do
    c ← read (λ _. catalog_options_for_repair o options)
    table ← read (λ h. o.reload_iceberg_table h c options.table)
    current ← read (λ _. current_snapshot_id o table)
    rollback_unless_current options table snapshot_id current

  -- `RollbackTableToBase`, by the base snapshot.
  unfoldable pub rollback_to_snapshot : CommitRecoveryTable → Option ℤ → Exec History (Unit {0})
  rollback_to_snapshot t none = raise (no_parent_snapshot t)
  rollback_to_snapshot t (some id) = rollback_iceberg_snapshot t.options id

  unfoldable pub rollback_table_to_base : CommitRecoveryTable → Exec History (Unit {0})
  rollback_table_to_base t = rollback_to_snapshot t t.base_snapshot_id

  -- One round of the loop of `BestEffortRollbackCommittedTables`, by what inspection answered.
  unfoldable pub rollback_if_ours :
      CommitRecoveryTable → SnapshotOwnership → Exec History (Unit {0})
  rollback_if_ours t ours = rollback_table_to_base t
  rollback_if_ours t base = pure tt
  rollback_if_ours t missing = pure tt
  rollback_if_ours t foreign = raise (no_longer_ours t [])

  unfoldable pub best_effort_one : Bytes → CommitRecoveryTable → Exec History (Unit {0})
  best_effort_one commit_id t =
      if may_be_published t
      then (do
        ownership ← read (inspect_snapshot_ownership o t commit_id)
        rollback_if_ours t ownership)
      else pure tt

  -- Over the tables from the last: a failure is remembered, and the loop goes on.
  unfoldable pub best_effort_loop :
      Bytes → List CommitRecoveryTable → Status → History → Status × History
  best_effort_loop commit_id [] first h = (first, h)
  best_effort_loop commit_id (t ∷ ts) first h =
      let (status, h') = best_effort_one commit_id t h in
      best_effort_loop commit_id ts (first_error first status) h'

  unfoldable pub best_effort_rollback_committed_tables :
      CommitRecoveryRecord → Exec History (Unit {0})
  best_effort_rollback_committed_tables r = best_effort_loop r.commit_id (reverse r.tables) (ok tt)
