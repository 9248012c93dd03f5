-- ===== src/Modify/Logged.antt =====
-- What `PersistCurrentRecoveryLog` leaves on disk and in the backend.
use pgiceberg.Common.{◌≡◌, refl, true, false, [], ◌∷◌, Bool-cases, inl, inr, is_empty}
use pgiceberg.Common.Bytes.{Bytes}
use pgiceberg.Options.{Options}
use pgiceberg.Status.{Result, ok, err}
use pgiceberg.Exec.{◌>>=◌, continue}
use pgiceberg.Outside.{
  Outside, Event, History, log_write, log_remove, publish, delete_files, rollback,
}
use pgiceberg.Outside.Growth.{Grown, same, grow, Grows-bind-at}
use pgiceberg.Recovery.{CommitRecoveryRecord}
use pgiceberg.Recovery.Format.{format_record}
use pgiceberg.Recovery.Log.{recovery_log_path, durable_write_file, write_commit_recovery_log}
use pgiceberg.Modify.{Backend, on_history}
use pgiceberg.Modify.Recovered.{current_record, persist_current_recovery_log}
use pgiceberg.Modify.Tables.{HasTable}

module _ {Table Transaction : Type 0} (o : Outside Table Transaction) where
  -- The last thing done was to write the record to its own log, and it succeeded.
  abbrev pub LogOnTop : CommitRecoveryRecord → History → Type 0
  LogOnTop r [] = ⊥
  LogOnTop r (log_write path contents true ∷ h) =
      (contents ≡ format_record r) × (recovery_log_path o r.commit_id ≡ ok path)
  LogOnTop r (log_write path contents false ∷ h) = ⊥
  LogOnTop r (log_remove path b ∷ h) = ⊥
  LogOnTop r (publish options outcome ∷ h) = ⊥
  LogOnTop r (delete_files paths ∷ h) = ⊥
  LogOnTop r (rollback options snapshot b ∷ h) = ⊥

  -- A log of the commit that holds the table is what was last written.
  abbrev pub LoggedFor : Bytes → Options → History → Type 0
  LoggedFor id options h =
      (r : CommitRecoveryRecord) × LogOnTop r h × (r.commit_id ≡ id) × HasTable options r.tables

  -- The event writes a log, or publishes a table that the log just written holds.
  abbrev pub BehindLog : Bytes → Event → History → Type 0
  BehindLog id (log_write path contents b) h = Unit
  BehindLog id (publish options outcome) h = LoggedFor id options h
  BehindLog id (log_remove path b) h = ⊥
  BehindLog id (delete_files paths) h = ⊥
  BehindLog id (rollback options snapshot b) h = ⊥

  written_at :
      (r : CommitRecoveryRecord) (h : History) (path : Result Bytes)
      → recovery_log_path o r.commit_id ≡ path
      → (continue path (λ p. durable_write_file o p (format_record r)) h).0 ≡ ok tt
      → LogOnTop r (continue path (λ p. durable_write_file o p (format_record r)) h).1
  unfolding durable_write_file
  written_at r h (err e) at q = absurd (cc)
  written_at r h (ok path) at q = rw q (refl, at)

  write-LogOnTop :
      (r : CommitRecoveryRecord) (h : History)
      → (write_commit_recovery_log o r h).0 ≡ ok tt
      → LogOnTop r (write_commit_recovery_log o r h).1
  unfolding write_commit_recovery_log ◌>>=◌
  write-LogOnTop r h q = written_at r h (recovery_log_path o r.commit_id) refl q

  write-Grown :
      (id : Bytes) (r : CommitRecoveryRecord) (h : History)
      → Grown (BehindLog id) h (write_commit_recovery_log o r h).1
  unfolding write_commit_recovery_log durable_write_file
  write-Grown id r h = Grows-bind-at _ _ h same λ path _. grow _ same tt

  pub persist-Grown :
      (id : Bytes) (b : Backend Table Transaction)
      → Grown (BehindLog id) b.history (persist_current_recovery_log o b).1.history
  unfolding persist_current_recovery_log on_history
  persist-Grown id b = elim (Bool-cases (is_empty b.commit_id)) [
    | inl e ↦ rw (e, persist_current_recovery_log) same
    | inr e ↦ rw (e, persist_current_recovery_log) (write-Grown id (current_record o b) b.history)
  ]

  pub persist-frame :
      (b : Backend Table Transaction)
      → ((persist_current_recovery_log o b).1.commit_id ≡ b.commit_id)
        × ((persist_current_recovery_log o b).1.pending ≡ b.pending)
        × ((persist_current_recovery_log o b).1.recovery.tables ≡ b.recovery.tables)
  unfolding persist_current_recovery_log on_history current_record
  persist-frame b = elim (Bool-cases (is_empty b.commit_id)) [
    | inl e ↦ rw (e, persist_current_recovery_log) (refl, refl, refl)
    | inr e ↦ rw (e, persist_current_recovery_log) (refl, refl, refl)
  ]

  -- The backend's record is the commit's, and its log was just written.
  pub record Ready (id : Bytes) (b : Backend Table Transaction) : Type 0 where
    pub on_top : LogOnTop b.recovery b.history
    pub record_id : b.recovery.commit_id ≡ id
    pub backend_id : b.commit_id ≡ id

  pub persist-Ready :
      (id : Bytes) (b : Backend Table Transaction)
      → is_empty b.commit_id ≡ false
      → b.commit_id ≡ id
      → (persist_current_recovery_log o b).0 ≡ ok tt
      → Ready id (persist_current_recovery_log o b).1
  unfolding persist_current_recovery_log on_history current_record
  persist-Ready id b set is q =
      rw (set, persist_current_recovery_log)
        (record {
          on_top =
              write-LogOnTop (current_record o b) b.history
                (rw (set, persist_current_recovery_log) at q);
          record_id = is;
          backend_id = is;
        })
