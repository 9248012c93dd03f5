-- ===== src/Modify/AbortSafety.antt =====
-- What `XactCallback` does outside at ABORT.
use pgiceberg.Common.{
  ◌≡◌, refl, subst, ◌⊎◌, false, List, [], ◌∷◌, arith, Any, any_of, is_empty, Bool-cases, inl, inr,
}
use pgiceberg.Common.Bytes.{Bytes}
use pgiceberg.Status.{Status, ok, err}
use pgiceberg.Outside.{
  Outside, Event, History, log_write, log_remove, publish, delete_files, rollback,
}
use pgiceberg.Outside.Growth.{Grown, same, grow, Grown-trans, Grown-map, Grows-bind-at}
use pgiceberg.Recovery.{CommitRecoveryRecord}
use pgiceberg.Recovery.Log.{
  remove_file, remove_commit_recovery_log, write_commit_recovery_log, durable_write_file,
}
use pgiceberg.Recovery.Rollback.{may_be_published}
use pgiceberg.Recovery.Safety.{RollsBackPublished, best_effort_rollback-own}
use pgiceberg.Modify.{PendingTableChange, Backend, on_history}
use pgiceberg.Modify.Identity.{reset_xact_commit_state}
use pgiceberg.Modify.Recovered.{
  forget_current_recovery_log, after_rollback, abort_pending_modify_changes,
}
use pgiceberg.Modify.Queue.{
  cleanup_data_files, paths_of, unpublished_paths, cleanup_tables, clear_pending_table_changes,
}
use pgiceberg.Modify.Callbacks.{xact_callback, abort}

-- The event writes or removes a log.
abbrev pub IsLogEvent : Event → Type 0
IsLogEvent (log_write path contents b) = Unit
IsLogEvent (log_remove path b) = Unit
IsLogEvent (publish options outcome) = ⊥
IsLogEvent (delete_files paths) = ⊥
IsLogEvent (rollback options snapshot b) = ⊥

delete-Grown :
    (P : Event → History → Type 0) (paths : List Bytes) (h : History)
    → ((g : History) → P (delete_files paths) g)
    → Grown P h (cleanup_data_files paths h)
unfolding cleanup_data_files
delete-Grown P [] h d = same
delete-Grown P (p ∷ ps) h d = grow _ same (d h)

module _ {Table Transaction : Type 0} where
  -- The event deletes the files of a table that was not published and is not in doubt.
  abbrev pub DeletesFilesOf : PendingTableChange Table Transaction → Event → Type 0
  DeletesFilesOf t (delete_files paths) =
      (t.committed ≡ false) × (t.commit_state_unknown ≡ false) × (paths ≡ paths_of t.changes)
  DeletesFilesOf t (log_write path contents b) = ⊥
  DeletesFilesOf t (log_remove path b) = ⊥
  DeletesFilesOf t (publish options outcome) = ⊥
  DeletesFilesOf t (rollback options snapshot b) = ⊥

  cleanup_one-Grown :
      (t : PendingTableChange Table Transaction) (h : History)
      → Grown (λ e g. DeletesFilesOf t e) h (cleanup_data_files (unpublished_paths t) h)
  unfolding unpublished_paths cleanup_data_files
  cleanup_one-Grown t h = elim (Bool-cases t.committed) [
    | inl c ↦ rw c same
    | inr c ↦ (elim (Bool-cases t.commit_state_unknown) [
      | inl u ↦ rw c (rw u same)
      | inr u ↦
          subst (λ paths. Grown (λ e g. DeletesFilesOf t e) h (cleanup_data_files paths h))
            (ground arith)
            (delete-Grown (λ e g. DeletesFilesOf t e) (paths_of t.changes) h λ g. (c, u, refl))
    ])
  ]

  pub cleanup_tables-Grown :
      (ts : List (PendingTableChange Table Transaction)) (h : History)
      → Grown (λ e g. Any (λ t. DeletesFilesOf t e) ts) h (cleanup_tables ts h)
  unfolding cleanup_tables
  cleanup_tables-Grown [] h = same
  cleanup_tables-Grown (t ∷ ts) h =
      Grown-trans (Grown-map (λ e g q. inl q) (cleanup_one-Grown t h))
        (Grown-map (λ e g q. inr q) (cleanup_tables-Grown ts _))

module _ {Table Transaction : Type 0} (o : Outside Table Transaction) where
  remove-log :
      (id : Bytes) (h : History)
      → Grown (λ e g. IsLogEvent e) h (remove_commit_recovery_log o id h).1
  unfolding remove_commit_recovery_log remove_file
  remove-log id h = Grows-bind-at _ _ h same λ path _. grow _ same tt

  write-log :
      (r : CommitRecoveryRecord) (h : History)
      → Grown (λ e g. IsLogEvent e) h (write_commit_recovery_log o r h).1
  unfolding write_commit_recovery_log durable_write_file
  write-log r h = Grows-bind-at _ _ h same λ path _. grow _ same tt

  forget-Grown :
      (b : Backend Table Transaction)
      → Grown (λ e g. IsLogEvent e) b.history (forget_current_recovery_log o b).history
  unfolding forget_current_recovery_log reset_xact_commit_state on_history
  forget-Grown b = elim (Bool-cases (is_empty b.commit_id)) [
    | inl e ↦ rw (e, forget_current_recovery_log) same
    | inr e ↦ rw (e, forget_current_recovery_log) (remove-log b.commit_id b.history)
  ]

  after_rollback-Grown :
      (status : Status) (b : Backend Table Transaction)
      → Grown (λ e g. IsLogEvent e) b.history (after_rollback o status b).history
  unfolding after_rollback reset_xact_commit_state on_history
  after_rollback-Grown (ok _) b = forget-Grown b
  after_rollback-Grown (err e) b = write-log _ b.history

  -- The event rolls back a table of the record, or is about a log.
  abbrev pub RollsBackOrLogs : CommitRecoveryRecord → Event → History → Type 0
  RollsBackOrLogs r e g = Any (λ t. RollsBackPublished o r.commit_id t e g) r.tables ⊎ IsLogEvent e

  abort_pending-Grown :
      (b : Backend Table Transaction)
      → Grown (RollsBackOrLogs b.recovery) b.history (abort_pending_modify_changes o b).history
  unfolding abort_pending_modify_changes on_history reset_xact_commit_state
  abort_pending-Grown b = elim (Bool-cases (any_of may_be_published b.recovery.tables)) [
    | inl p ↦
        rw (p, abort_pending_modify_changes)
          (Grown-trans
            (Grown-map (λ e g q. inl q) (best_effort_rollback-own o b.recovery b.history))
            (Grown-map (λ e g q. inr q) (after_rollback-Grown _ _)))
    | inr p ↦ (elim (Bool-cases (is_empty b.commit_id)) [
      | inl e ↦ rw (p, abort_pending_modify_changes) (rw e same)
      | inr e ↦
          rw (p, abort_pending_modify_changes) (rw e (Grown-map (λ ev g q. inr q) (forget-Grown b)))
    ])
  ]

  after_rollback-pending :
      (status : Status) (b : Backend Table Transaction)
      → (after_rollback o status b).pending ≡ b.pending
  unfolding after_rollback forget_current_recovery_log reset_xact_commit_state on_history
  after_rollback-pending (ok _) b = ground arith
  after_rollback-pending (err e) b = refl

  abort_pending-pending :
      (b : Backend Table Transaction) → (abort_pending_modify_changes o b).pending ≡ b.pending
  unfolding abort_pending_modify_changes forget_current_recovery_log reset_xact_commit_state
      on_history
  abort_pending-pending b = elim (Bool-cases (any_of may_be_published b.recovery.tables)) [
    | inl p ↦ rw (p, abort_pending_modify_changes) (after_rollback-pending _ _)
    | inr p ↦ rw (p, abort_pending_modify_changes) (ground arith)
  ]

  abbrev pub AbortEvent : Backend Table Transaction → Event → History → Type 0
  AbortEvent b e g = RollsBackOrLogs b.recovery e g ⊎ Any (λ t. DeletesFilesOf t e) b.pending

  -- At ABORT the callback publishes nothing. It deletes the new files only of pending tables that are
  -- marked neither as committed nor as of an unknown state, and rolls back only tables of the record
  -- whose state says that they were or may have been published, each to its base and only
  -- where the inspection right before it found its current snapshot to be this commit's. All else is
  -- logs.
  pub abort-AbortEvent :
      (b : Backend Table Transaction)
      → Grown (AbortEvent b) b.history (xact_callback o abort b).1.history
  unfolding xact_callback clear_pending_table_changes
  abort-AbortEvent b =
      let c = abort_pending_modify_changes o b in
      Grown-trans (Grown-map (λ e g q. inl q) (abort_pending-Grown b)) (
        Grown-map (λ e g q. inr (subst (Any (λ t. DeletesFilesOf t e)) (abort_pending-pending b) q))
          (cleanup_tables-Grown c.pending c.history))
