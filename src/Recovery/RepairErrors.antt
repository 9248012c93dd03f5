-- ===== src/Recovery/RepairErrors.antt =====
-- What is left when `RepairCommit` fails.
use pgiceberg.Common.{
  ◌≡◌, inl, inr, Bool, true, false, List, [], ◌∷◌, Option, none, some, Any, not, if◌then◌else◌,
}
use pgiceberg.Common.Bytes.{Bytes, eqb}
use pgiceberg.Status.{PgError, err}
use pgiceberg.Exec.{Exec}
use pgiceberg.Outside.{
  Outside, Event, History, log_write, log_remove, publish, delete_files, rollback,
}
use pgiceberg.Outside.Growth.{Grown, same, grow, Grown-map, failed-bind, failed-bind-pure}
use pgiceberg.Recovery.{CommitRecoveryTable, CommitRecoveryRecord}
use pgiceberg.Recovery.Log.{remove_file, remove_commit_recovery_log}
use pgiceberg.Recovery.RepairSafety.{repair_loop-own}
use pgiceberg.Recovery.Safety.{RollsBackOwn}
use pgiceberg.Recovery.Repair.{
  PostgresXactOutcome, in_progress, committed, aborted, unknown, acknowledge, roll_back,
  repair_action, repair_record, repair_loaded, repair_commit, repair_action_acknowledge,
  repair_action_rollback,
}

-- The event takes no log away.
abbrev pub KeepsLog : Event → History → Type 0
KeepsLog (log_remove path b) h = b ≡ false
KeepsLog (log_write _ _ _) h = Unit
KeepsLog (publish _ _) h = Unit
KeepsLog (delete_files _) h = Unit
KeepsLog (rollback _ _ _) h = Unit

module _ {Table Transaction : Type 0} (o : Outside Table Transaction) where
  removed-KeepsLog :
      (path : Bytes) (h : History) {e : PgError}
      → o.remove_file h path ≡ err e
      → Grown KeepsLog h (remove_file o path h).1
  unfolding remove_file
  removed-KeepsLog path h q = grow _ same (rw q)

  remove_failed-KeepsLog :
      (commit_id : Bytes) (h : History) {e : PgError}
      → (remove_commit_recovery_log o commit_id h).0 ≡ err e
      → Grown KeepsLog h (remove_commit_recovery_log o commit_id h).1
  unfolding remove_commit_recovery_log remove_file
  remove_failed-KeepsLog commit_id h q =
      failed-bind _ _ h q same λ path _ failed. removed-KeepsLog path h failed

  pub own-KeepsLog :
      (commit_id : Bytes) (t : CommitRecoveryTable) (e : Event) (g : History)
      → RollsBackOwn o commit_id t e g
      → KeepsLog e g
  own-KeepsLog commit_id t (rollback _ _ _) g r = tt
  own-KeepsLog commit_id t (log_write _ _ _) g r = tt
  own-KeepsLog commit_id t (log_remove _ _) g r = absurd r
  own-KeepsLog commit_id t (publish _ _) g r = tt
  own-KeepsLog commit_id t (delete_files _) g r = tt

  pub Any-KeepsLog :
      (commit_id : Bytes) (ts : List CommitRecoveryTable) (e : Event) (g : History)
      → Any (λ t. RollsBackOwn o commit_id t e g) ts
      → KeepsLog e g
  Any-KeepsLog commit_id [] e g r = absurd r
  Any-KeepsLog commit_id (t ∷ ts) e g (inl r) = own-KeepsLog commit_id t e g r
  Any-KeepsLog commit_id (t ∷ ts) e g (inr r) = Any-KeepsLog commit_id ts e g r

  acknowledge-failed :
      (commit_id : Bytes) (r : CommitRecoveryRecord) (h : History) {e : PgError}
      → (acknowledge o commit_id r h).0 ≡ err e
      → Grown KeepsLog h (acknowledge o commit_id r h).1
  unfolding acknowledge
  acknowledge-failed commit_id r h q = failed-bind-pure _ _ h q (remove_failed-KeepsLog commit_id h)

  roll_back-failed :
      (commit_id : Bytes) (r : CommitRecoveryRecord) (h : History) {e : PgError}
      → (roll_back o commit_id r h).0 ≡ err e
      → Grown KeepsLog h (roll_back o commit_id r h).1
  unfolding roll_back
  roll_back-failed commit_id r h q =
      failed-bind _ _ h q (Grown-map (Any-KeepsLog r.commit_id r.tables) (repair_loop-own o r h))
        λ _ _ failed. failed-bind-pure _ _ _ failed (remove_failed-KeepsLog commit_id _)

  abbrev FailsKeeping : {A : Type 0} → Exec History A → History → Type 0
  FailsKeeping m h = (e : PgError) → (m h).0 ≡ err e → Grown KeepsLog h (m h).1

  FailsKeeping-if :
      {A : Type 0} (b : Bool) (m n : Exec History A) (h : History)
      → FailsKeeping m h
      → FailsKeeping n h
      → FailsKeeping (if b then m else n) h
  FailsKeeping-if true m n h p q = p
  FailsKeeping-if false m n h p q = q

  repair_action-failed :
      (commit_id action : Bytes) (r : CommitRecoveryRecord) (h : History)
      → FailsKeeping (repair_action o commit_id action r) h
  unfolding repair_action
  repair_action-failed commit_id action r h =
      FailsKeeping-if (eqb action repair_action_acknowledge) _ _ h
        (λ e. acknowledge-failed commit_id r h)
        (FailsKeeping-if (not (eqb action repair_action_rollback)) _ _ h (λ e q. same)
          (λ e. roll_back-failed commit_id r h))

  repair_record-failed :
      (commit_id action : Bytes) (r : CommitRecoveryRecord) (x : PostgresXactOutcome) (h : History)
      → FailsKeeping (repair_record o commit_id action r x) h
  unfolding repair_record
  repair_record-failed commit_id action r in_progress h e q = same
  repair_record-failed commit_id action r committed h e q =
      failed-bind-pure _ _ h q (remove_failed-KeepsLog commit_id h)
  repair_record-failed commit_id action r aborted h e q =
      repair_action-failed commit_id action r h e q
  repair_record-failed commit_id action r unknown h e q =
      repair_action-failed commit_id action r h e q

  repair_loaded-failed :
      (commit_id action : Bytes) (loaded : Option CommitRecoveryRecord) (h : History)
      → FailsKeeping (repair_loaded o commit_id action loaded) h
  unfolding repair_loaded
  repair_loaded-failed commit_id action none h e q = same
  repair_loaded-failed commit_id action (some r) h e q =
      repair_record-failed commit_id action r _ h e q

  -- A repair that reports an error has removed no log, whichever step failed: the commit can be
  -- repaired again.
  pub repair_commit_failed-KeepsLog :
      (commit_id action : Bytes) (h : History) (e : PgError)
      → (repair_commit o commit_id action h).0 ≡ err e
      → Grown KeepsLog h (repair_commit o commit_id action h).1
  unfolding repair_commit
  repair_commit_failed-KeepsLog commit_id action h e q =
      failed-bind _ _ h q same λ loaded _. repair_loaded-failed commit_id action loaded h e
