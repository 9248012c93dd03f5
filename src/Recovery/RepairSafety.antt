-- ===== src/Recovery/RepairSafety.antt =====
-- What `RepairCommit` may touch.
use mathlib.Core.List.{reverse}
use pgiceberg.Common.{
  ◌≡◌, sym, subst, ◌⊎◌, inl, inr, List, [], ◌∷◌, Option, none, some, arith, Any, Any-reverse,
  Bool-cases,
}
use pgiceberg.Common.Bytes.{Bytes, eqb}
use pgiceberg.Status.{ok}
use pgiceberg.Exec.{pure, ◌>>=◌}
use pgiceberg.Outside.{
  Outside, Event, History, log_write, log_remove, publish, delete_files, rollback,
}
use pgiceberg.Outside.Growth.{Grown, same, grow, Grown-map, Grows-bind-at}
use pgiceberg.Recovery.{CommitRecoveryTable, CommitRecoveryRecord}
use pgiceberg.Recovery.Log.{remove_file, remove_commit_recovery_log, read_commit_recovery_log}
use pgiceberg.Recovery.Ownership.{
  SnapshotOwnership, ours, base, missing, foreign, inspect_snapshot_ownership,
}
use pgiceberg.Recovery.Safety.{RollsBackOwn, rollback_table_to_base-Grown}
use pgiceberg.Recovery.Repair.{
  PostgresXactOutcome, in_progress, committed, aborted, unknown, repair_one, repair_loop,
  acknowledge, roll_back, repair_action, repair_record, repair_loaded, repair_commit,
  repair_action_acknowledge, repair_action_rollback,
}

abbrev pub IsLogRemoval : Event → Type 0
IsLogRemoval (log_remove _ _) = Unit
IsLogRemoval (log_write _ _ _) = ⊥
IsLogRemoval (publish _ _) = ⊥
IsLogRemoval (delete_files _) = ⊥
IsLogRemoval (rollback _ _ _) = ⊥

module _ {Table Transaction : Type 0} (o : Outside Table Transaction) where
  abbrev pub OwnRollback : CommitRecoveryRecord → Event → History → Type 0
  OwnRollback r e g = Any (λ t. RollsBackOwn o r.commit_id t e g) r.tables

  repair_one-Grown :
      (commit_id : Bytes) (t : CommitRecoveryTable) (w : SnapshotOwnership) (h : History)
      → inspect_snapshot_ownership o t commit_id h ≡ ok w
      → Grown (RollsBackOwn o commit_id t) h (repair_one o t w h).1
  unfolding repair_one
  repair_one-Grown commit_id t ours h found = rollback_table_to_base-Grown o commit_id t h found
  repair_one-Grown commit_id t base h found = same
  repair_one-Grown commit_id t missing h found = same
  repair_one-Grown commit_id t foreign h found = same

  repair_loop-Grown :
      (commit_id : Bytes) (ts : List CommitRecoveryTable) (h : History)
      → Grown
          (λ e g. Any (λ t. RollsBackOwn o commit_id t e g) ts)
          h
          (repair_loop o commit_id ts h).1
  unfolding repair_loop
  repair_loop-Grown commit_id [] h = same
  repair_loop-Grown commit_id (t ∷ ts) h = Grows-bind-at _ _ h same λ w found.
      Grows-bind-at _ _ h (Grown-map (λ e g r. inl r) (repair_one-Grown commit_id t w h found))
        λ _ _. Grown-map (λ e g r. inr r) (repair_loop-Grown commit_id ts _)

  remove-Grown :
      (commit_id : Bytes) (h : History)
      → Grown (λ e g. IsLogRemoval e) h (remove_commit_recovery_log o commit_id h).1
  unfolding remove_commit_recovery_log remove_file
  remove-Grown commit_id h = Grows-bind-at _ _ h same λ path _. grow _ same tt

  abbrev pub RepairEvent : CommitRecoveryRecord → Event → History → Type 0
  RepairEvent r e g = OwnRollback r e g ⊎ IsLogRemoval e

  pub repair_loop-own :
      (r : CommitRecoveryRecord) (h : History)
      → Grown (OwnRollback r) h (repair_loop o r.commit_id (reverse r.tables) h).1
  repair_loop-own r h =
      Grown-map (λ e g. Any-reverse (λ t. RollsBackOwn o r.commit_id t e g) r.tables)
        (repair_loop-Grown r.commit_id (reverse r.tables) h)

  remove_then :
      (commit_id : Bytes) (message : Bytes) (h : History)
      → Grown
          (λ e g. IsLogRemoval e)
          h
          ((remove_commit_recovery_log o commit_id >>= λ _. pure message) h).1
  remove_then commit_id message h = Grows-bind-at _ _ h (remove-Grown commit_id h) (λ _ _. same)

  repair_action-Grown :
      (commit_id action : Bytes) (r : CommitRecoveryRecord) (h : History)
      → Grown (RepairEvent r) h (repair_action o commit_id action r h).1
  unfolding repair_action acknowledge roll_back
  repair_action-Grown commit_id action r h =
      elim (Bool-cases (eqb action repair_action_acknowledge)) [
        | inl a ↦ rw (a, repair_action) (Grown-map (λ e g q. inr q) (remove_then commit_id _ h))
        | inr a ↦ (elim (Bool-cases (eqb action repair_action_rollback)) [
          | inl b ↦
              rw (a, repair_action)
                (rw (b) (
                  Grows-bind-at _ _ h (Grown-map (λ e g q. inl q) (repair_loop-own r h))
                    (λ _ _. Grown-map (λ e g q. inr q) (remove_then commit_id _ _))))
          | inr b ↦ rw (a, repair_action) (rw (b) same)
        ])
      ]

  repair_record-Grown :
      (commit_id action : Bytes) (r : CommitRecoveryRecord) (x : PostgresXactOutcome) (h : History)
      → Grown (RepairEvent r) h (repair_record o commit_id action r x h).1
  unfolding repair_record
  repair_record-Grown commit_id action r in_progress h = same
  repair_record-Grown commit_id action r committed h =
      Grown-map (λ e g q. inr q) (remove_then commit_id _ h)
  repair_record-Grown commit_id action r aborted h = repair_action-Grown commit_id action r h
  repair_record-Grown commit_id action r unknown h = repair_action-Grown commit_id action r h

  repair_loaded-own :
      (commit_id action : Bytes) (r : CommitRecoveryRecord) (h : History)
      (loaded : Option CommitRecoveryRecord)
      → loaded ≡ some r
      → Grown (RepairEvent r) h (repair_loaded o commit_id action loaded h).1
  unfolding repair_loaded
  repair_loaded-own commit_id action r h none e = cc
  repair_loaded-own commit_id action r h (some s) e =
      let same_record : s ≡ r = cc in
      subst (λ x. Grown (RepairEvent r) h (repair_loaded o commit_id action (some x) h).1)
        (sym same_record) (repair_record-Grown commit_id action r _ h)

  -- Repairing a commit does nothing outside but roll back tables of the record that its log holds,
  -- each to its recorded base and only where the inspection right before it found the table's current
  -- snapshot to be this commit's, and remove a log.
  pub repair_commit-own :
      (commit_id action : Bytes) (r : CommitRecoveryRecord) (h : History)
      → read_commit_recovery_log o commit_id h ≡ ok (some r)
      → Grown (RepairEvent r) h (repair_commit o commit_id action h).1
  unfolding repair_commit
  repair_commit-own commit_id action r h found =
      Grows-bind-at _ _ h same
        λ loaded e. repair_loaded-own commit_id action r h loaded (ground (arith, e, found))
