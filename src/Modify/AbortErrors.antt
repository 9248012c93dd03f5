-- ===== src/Modify/AbortErrors.antt =====
-- What is left when the rollback at ABORT fails.
use pgiceberg.Common.{◌≡◌, true, List, [], ◌∷◌, Any, any_of, inl, inr}
use pgiceberg.Status.{PgError, Status, ok, err}
use pgiceberg.Outside.{
  Outside, Event, History, log_write, log_remove, publish, delete_files, rollback,
}
use pgiceberg.Outside.Growth.{Grown, same, grow, Grown-trans, Grown-map, Grows-bind-at}
use pgiceberg.Recovery.{CommitRecoveryTable, CommitRecoveryRecord}
use pgiceberg.Recovery.Log.{write_commit_recovery_log, durable_write_file}
use pgiceberg.Recovery.Rollback.{may_be_published, best_effort_rollback_committed_tables}
use pgiceberg.Recovery.Safety.{RollsBackPublished, best_effort_rollback-own}
use pgiceberg.Recovery.RepairErrors.{KeepsLog, own-KeepsLog}
use pgiceberg.Modify.{PendingTableChange, Backend, on_history}
use pgiceberg.Modify.Identity.{reset_xact_commit_state}
use pgiceberg.Modify.Recovered.{after_rollback, abort_pending_modify_changes}
use pgiceberg.Modify.Queue.{clear_pending_table_changes}
use pgiceberg.Modify.Callbacks.{xact_callback, abort}
use pgiceberg.Modify.AbortSafety.{DeletesFilesOf, cleanup_tables-Grown}

module _ {Table Transaction : Type 0} where
  deletes-KeepsLog :
      (ts : List (PendingTableChange Table Transaction)) (e : Event) (h : History)
      → Any (λ t. DeletesFilesOf t e) ts
      → KeepsLog e h
  deletes-KeepsLog [] e h d = absurd d
  deletes-KeepsLog (t ∷ ts) (delete_files paths) h d = tt
  deletes-KeepsLog (t ∷ ts) (log_write path contents b) h d = tt
  deletes-KeepsLog (t ∷ ts) (log_remove path b) h (inl d) = absurd d
  deletes-KeepsLog (t ∷ ts) (log_remove path b) h (inr d) =
      deletes-KeepsLog ts (log_remove path b) h d
  deletes-KeepsLog (t ∷ ts) (publish options outcome) h d = tt
  deletes-KeepsLog (t ∷ ts) (rollback options snapshot b) h d = tt

module _ {Table Transaction : Type 0} (o : Outside Table Transaction) where
  rolls_back-KeepsLog :
      (r : CommitRecoveryRecord) (ts : List CommitRecoveryTable) (e : Event) (h : History)
      → Any (λ t. RollsBackPublished o r.commit_id t e h) ts
      → KeepsLog e h
  rolls_back-KeepsLog r [] e h d = absurd d
  rolls_back-KeepsLog r (t ∷ ts) e h (inl d) = own-KeepsLog o r.commit_id t e h d.1
  rolls_back-KeepsLog r (t ∷ ts) e h (inr d) = rolls_back-KeepsLog r ts e h d

  write-KeepsLog :
      (r : CommitRecoveryRecord) (h : History)
      → Grown KeepsLog h (write_commit_recovery_log o r h).1
  unfolding write_commit_recovery_log durable_write_file
  write-KeepsLog r h = Grows-bind-at _ _ h same λ path _. grow _ same tt

  after_failure-KeepsLog :
      (status : Status) (e : PgError) (b : Backend Table Transaction)
      → status ≡ err e
      → Grown KeepsLog b.history (after_rollback o status b).history
  unfolding after_rollback reset_xact_commit_state on_history
  after_failure-KeepsLog (ok _) e b q = absurd (cc)
  after_failure-KeepsLog (err d) e b q = write-KeepsLog _ b.history

  abort_pending-KeepsLog :
      (b : Backend Table Transaction) (e : PgError)
      → any_of may_be_published b.recovery.tables ≡ true
      → (best_effort_rollback_committed_tables o b.recovery b.history).0 ≡ err e
      → Grown KeepsLog b.history (abort_pending_modify_changes o b).history
  unfolding abort_pending_modify_changes on_history
  abort_pending-KeepsLog b e published failed =
      rw (published, abort_pending_modify_changes)
        (Grown-trans
          (Grown-map (rolls_back-KeepsLog b.recovery b.recovery.tables)
            (best_effort_rollback-own o b.recovery b.history))
          (after_failure-KeepsLog _ e _ failed))

  -- At ABORT, if a table was or may have been published and the rollback reports an error, the
  -- callback removes no log: the commit can be repaired later.
  pub abort_failed-KeepsLog :
      (b : Backend Table Transaction) (e : PgError)
      → any_of may_be_published b.recovery.tables ≡ true
      → (best_effort_rollback_committed_tables o b.recovery b.history).0 ≡ err e
      → Grown KeepsLog b.history (xact_callback o abort b).1.history
  unfolding xact_callback clear_pending_table_changes
  abort_failed-KeepsLog b e published failed =
      let c = abort_pending_modify_changes o b in
      Grown-trans (abort_pending-KeepsLog b e published failed)
        (Grown-map (deletes-KeepsLog c.pending) (cleanup_tables-Grown c.pending c.history))
