-- ===== src/Recovery/Repair.antt =====
-- Resolving what a crash or an abort left: `PostgresOutcomeForXid`, `RepairCommit`,
-- `ListCommitRecoveryLogs` and `ReconcileCommitRecoveryLogs` of src/engine/commit_recovery.cc.
-- Warnings and the field `detail_json` of a result are not modelled.
use mathlib.Core.List.{reverse}
use pgiceberg.Common.{
  ℕ, ◌-◌, ◌%◌, ◌^◌, Bool, false, ◌||◌, ◌&&◌, not, List, [], ◌∷◌, ◌++◌, Option, none, some, ltb,
  is_empty, if◌then◌else◌, ◌==◌,
}
use pgiceberg.Common.Bytes.{Bytes, text, eqb}
use pgiceberg.Status.{
  Result, ok, err, make_error, undefined_object, object_not_in_prerequisite_state,
  invalid_parameter_value, and_then,
}
use pgiceberg.Exec.{Exec, pure, raise, read, ◌>>=◌, ◌>>◌}
use pgiceberg.Outside.{Outside, History, DirEntry}
use pgiceberg.Recovery.{CommitRecoveryTable, CommitRecoveryRecord}
use pgiceberg.Recovery.Stream.{read_numeral, skip_space}
use pgiceberg.Recovery.Parse.{parse_record}
use pgiceberg.Recovery.Log.{recovery_dir, remove_commit_recovery_log, read_commit_recovery_log}
use pgiceberg.Recovery.Ownership.{
  SnapshotOwnership, ours, base, missing, foreign, inspect_snapshot_ownership,
  catalog_options_for_repair, table_verdict, overall_verdict,
}
use pgiceberg.Recovery.Rollback.{rollback_table_to_base, no_longer_ours}

pub data PostgresXactOutcome : Type 0 where
  in_progress committed aborted unknown : PostgresXactOutcome

-- `std::stoull`: `none` is an exception.
unfoldable pub stoull : Bytes → Option ℕ
stoull s = elim (read_numeral (skip_space s)) [
  | none ↦ none
  | some (negative, n, rest) ↦
      if ltb n (2 ^ 64) then some (if negative then (2 ^ 64 - n) % 2 ^ 64 else n) else none
]

unfoldable pub repair_action_rollback : Bytes
repair_action_rollback = text "rollback"

unfoldable pub repair_action_acknowledge : Bytes
repair_action_acknowledge = text "acknowledge"

abbrev pub verdict_in_progress : Bytes
verdict_in_progress = text "in_progress"

abbrev pub verdict_postgres_committed : Bytes
verdict_postgres_committed = text "postgres_committed"

-- `std::filesystem::path::extension() == ".log"`: the last dot and what follows it, unless the dot
-- is the first character.
unfoldable pub ends_in_log : Bytes → Bool
ends_in_log [] = false
ends_in_log (c ∷ cs) = eqb cs (text ".log") || ends_in_log cs

pub record ReconcileResult : Type 0 where
  pub record_of : CommitRecoveryRecord
  pub verdict : Bytes
  pub table_verdicts : List Bytes

module _ {Table Transaction : Type 0} (o : Outside Table Transaction) where
  -- The 32-bit transaction id of a 64-bit one is its low half; 0 is no transaction.
  unfoldable pub outcome_of_xid : ℕ → PostgresXactOutcome
  outcome_of_xid xid =
      if xid == 0
      then unknown
      else if o.is_current_transaction xid || o.is_in_progress xid
      then in_progress
      else if o.did_commit xid
      then committed
      else if o.did_abort xid
      then aborted
      else unknown

  unfoldable pub postgres_outcome_for_xid : Bytes → PostgresXactOutcome
  postgres_outcome_for_xid xid_text =
      if is_empty xid_text then unknown else (elim (stoull xid_text) [
        | some value ↦ outcome_of_xid (value % 2 ^ 32)
        | none ↦ unknown
      ])

  unfoldable pub repair_one : CommitRecoveryTable → SnapshotOwnership → Exec History (Unit {0})
  repair_one t ours = rollback_table_to_base o t
  repair_one t base = pure tt
  repair_one t missing = pure tt
  repair_one t foreign = raise (
      no_longer_ours t
        (text "Use action \"acknowledge\" if a later writer already superseded this snapshot."))

  -- The loop of `RepairCommit`, over the tables from the last: the first failure ends it.
  unfoldable pub repair_loop : Bytes → List CommitRecoveryTable → Exec History (Unit {0})
  repair_loop commit_id [] = pure tt
  repair_loop commit_id (t ∷ ts) = do
    ownership ← read (inspect_snapshot_ownership o t commit_id)
    repair_one t ownership
    repair_loop commit_id ts

  unfoldable pub acknowledge : Bytes → CommitRecoveryRecord → Exec History Bytes
  acknowledge commit_id r = do
    remove_commit_recovery_log o commit_id
    pure (text "acknowledged Iceberg snapshots for commit " ++ r.commit_id)

  unfoldable pub roll_back : Bytes → CommitRecoveryRecord → Exec History Bytes
  roll_back commit_id r = do
    repair_loop r.commit_id (reverse r.tables)
    remove_commit_recovery_log o commit_id
    pure (text "rolled back Iceberg snapshots for commit " ++ r.commit_id)

  unfoldable pub repair_action : Bytes → Bytes → CommitRecoveryRecord → Exec History Bytes
  repair_action commit_id action r =
      if eqb action repair_action_acknowledge
      then acknowledge commit_id r
      else if not (eqb action repair_action_rollback)
      then raise (
          make_error invalid_parameter_value
            (text "pgiceberg.repair_commit action must be \"rollback\" or \"acknowledge\"") [])
      else roll_back commit_id r

  -- `RepairCommit` once the record is read, by what became of its transaction.
  unfoldable pub repair_record :
      Bytes → Bytes → CommitRecoveryRecord → PostgresXactOutcome → Exec History Bytes
  repair_record commit_id action r in_progress = raise (
      make_error object_not_in_prerequisite_state
        (text "pgiceberg commit \""
          ++ r.commit_id
          ++ text "\" still belongs to an in-progress PostgreSQL transaction")
        (text "Wait for that transaction to commit or abort before repairing."))
  repair_record commit_id action r committed = do
    remove_commit_recovery_log o commit_id
    pure (
        text "PostgreSQL committed transaction for commit "
        ++ r.commit_id
        ++ text "; removed leftover recovery log")
  repair_record commit_id action r aborted = repair_action commit_id action r
  repair_record commit_id action r unknown = repair_action commit_id action r

  unfoldable pub repair_loaded : Bytes → Bytes → Option CommitRecoveryRecord → Exec History Bytes
  repair_loaded commit_id action none = raise (
      make_error undefined_object
        (text "pgiceberg commit recovery log \"" ++ commit_id ++ text "\" does not exist") [])
  repair_loaded commit_id action (some r) =
      repair_record commit_id action r (postgres_outcome_for_xid r.postgres_xid)

  unfoldable pub repair_commit : Bytes → Bytes → Exec History Bytes
  repair_commit commit_id action = do
    loaded ← read (read_commit_recovery_log o commit_id)
    repair_loaded commit_id action loaded

  -- The files that the listing skips: those that are no logs, cannot be opened or do not parse.
  unfoldable pub parse_entries : List DirEntry → List CommitRecoveryRecord
  parse_entries [] = []
  parse_entries (e ∷ es) =
      let rest = parse_entries es in
      if e.is_regular_file && ends_in_log e.name
      then (elim e.contents [
        | none ↦ rest
        | some contents ↦ (elim (parse_record contents) [ ok (r, _) ↦ r ∷ rest | err _ ↦ rest ])
      ])
      else rest

  unfoldable pub list_commit_recovery_logs : History → Result (List CommitRecoveryRecord)
  list_commit_recovery_logs h =
      and_then (recovery_dir o) (λ _. ok (parse_entries (o.log_directory h)))

  unfoldable pub reconcile_table : Bytes → History → CommitRecoveryTable → Bytes
  reconcile_table commit_id h t = elim (catalog_options_for_repair o t.options) [
    | err _ ↦ text "catalog_error"
    | ok c ↦ (elim (o.load_iceberg_table h c t.options.table) [
      | err _ ↦ text "load_error"
      | ok table ↦ table_verdict o t table commit_id
    ])
  ]

  unfoldable pub reconcile_tables : Bytes → History → List CommitRecoveryTable → List Bytes
  reconcile_tables commit_id h [] = []
  reconcile_tables commit_id h (t ∷ ts) =
      reconcile_table commit_id h t ∷ reconcile_tables commit_id h ts

  abbrev with_verdicts : CommitRecoveryRecord → List Bytes → ReconcileResult
  with_verdicts r vs = record { record_of = r; verdict = overall_verdict vs; table_verdicts = vs }

  -- A failure to remove the log of a committed transaction is a warning.
  unfoldable pub reconcile_record :
      CommitRecoveryRecord → PostgresXactOutcome → History → ReconcileResult × History
  reconcile_record r in_progress h =
      (record { record_of = r; verdict = verdict_in_progress; table_verdicts = [] }, h)
  reconcile_record r committed h = (
    record { record_of = r; verdict = verdict_postgres_committed; table_verdicts = [] },
    (remove_commit_recovery_log o r.commit_id h).1,
  )
  reconcile_record r aborted h = (with_verdicts r (reconcile_tables r.commit_id h r.tables), h)
  reconcile_record r unknown h = (with_verdicts r (reconcile_tables r.commit_id h r.tables), h)

  unfoldable pub reconcile_records :
      List CommitRecoveryRecord → History → List ReconcileResult × History
  reconcile_records [] h = ([], h)
  reconcile_records (r ∷ rs) h =
      let (result, h') = reconcile_record r (postgres_outcome_for_xid r.postgres_xid) h in
      let (results, h'') = reconcile_records rs h' in (result ∷ results, h'')

  unfoldable pub reconcile_commit_recovery_logs : Exec History (List ReconcileResult)
  reconcile_commit_recovery_logs h = elim (list_commit_recovery_logs h) [
    | err e ↦ (err e, h)
    | ok rs ↦ (let (results, h') = reconcile_records rs h in (ok results, h'))
  ]
