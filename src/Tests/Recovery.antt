-- ===== src/Tests/Recovery.antt =====
-- Runs of src/engine/commit_recovery.cc.
use pgiceberg.Common.{
  inl, inr, ℕ, ◌≡◌, ◌≢◌, ◌↔◌, refl, ap, arith, [], ◌∷◌, ◌++◌, some, true, false, Bool, Any, any_of,
}
use pgiceberg.Common.Bytes.{text, eqb}
use pgiceberg.Common.Decimal.{scan_digits}
use pgiceberg.Recovery.Stream.{read_numeral, skip_space}
use pgiceberg.Status.{ok, err, and_then, make_error, io_error}
use pgiceberg.Exec.{◌>>=◌}
use pgiceberg.Common.Int.{pos}
use pgiceberg.Outside.{rollback}
use pgiceberg.Recovery.{CommitRecoveryRecord, table_committed}
use pgiceberg.Outside.Growth.{Grown}
use pgiceberg.Recovery.Format.{format_record}
use pgiceberg.Recovery.Parse.{parse_record}
use pgiceberg.Recovery.RoundTrip.{RecordFits, TableFits, stored_record, parse_record-format_record}
use pgiceberg.Recovery.Log.{
  read_commit_recovery_log, recovery_log_path, is_safe_commit_id, recovery_dir, read_log_file,
  remove_file, remove_commit_recovery_log,
}
use pgiceberg.Recovery.Ownership.{
  SnapshotOwnership, not_published, table_verdict, overall_verdict, inspect_loaded,
  verdict_stale_intent, verdict_iceberg_orphan, verdict_iceberg_partial,
}
use pgiceberg.Recovery.Verdicts.{
  is_unresolved, is_published, is_pending, VerdictFor, NoneOf, overall_verdict_iff,
  inspect-table_verdict,
}
use pgiceberg.Recovery.Rollback.{best_effort_rollback_committed_tables}
use pgiceberg.Recovery.Repair.{
  repair_commit, repair_loaded, repair_record, repair_action, repair_action_acknowledge,
  acknowledge, stoull, outcome_of_xid, postgres_outcome_for_xid,
}
use pgiceberg.Recovery.RepairErrors.{KeepsLog, repair_commit_failed-KeepsLog}
use pgiceberg.Recovery.RepairSafety.{RepairEvent, repair_commit-own}
use pgiceberg.Recovery.Safety.{RollsBackPublished, best_effort_rollback-own}
use pgiceberg.Recovery.Json.{json_escape, read_json_body, read_json_body-json_escape}
use pgiceberg.Tests.World.{orders, orders_table, sample_record, world, idle}

orders_table-fits : TableFits orders_table
orders_table-fits = record {
  catalog = omega arith;
  catalog_type = omega arith;
  catalog_uri = omega arith;
  warehouse = omega arith;
  catalog_name = omega arith;
  name_space = omega arith;
  table = omega arith;
  base = omega arith;
  committed = omega arith;
  state = omega arith;
}

sample_record-fits : RecordFits sample_record
sample_record-fits = record {
  commit_id = omega arith;
  postgres_xid = omega arith;
  state = omega arith;
  created_at = omega arith;
  table_count = omega arith;
  tables = (orders_table-fits, tt);
}

parse_record-format_record_example :
    parse_record (format_record sample_record) ≡ ok (stored_record sample_record, 10 ∷ [])
parse_record-format_record_example = parse_record-format_record sample_record sample_record-fits

log_of_sample :
    (running : ℕ → Bool)
    → read_commit_recovery_log (world running) (97 ∷ 98 ∷ []) [] ≡ ok (some sample_record)
unfolding read_commit_recovery_log recovery_log_path is_safe_commit_id recovery_dir read_log_file
    text
log_of_sample running =
    ap (λ r. and_then r (λ parsed. ok (some parsed.0)))
      (parse_record-format_record sample_record sample_record-fits)

repair_commit-own_example :
    Grown
      (RepairEvent (world idle) sample_record)
      []
      (repair_commit (world idle) (97 ∷ 98 ∷ []) (text "rollback") []).1
repair_commit-own_example =
    repair_commit-own (world idle) (97 ∷ 98 ∷ []) (text "rollback") sample_record []
      (log_of_sample idle)

-- The log of the world cannot be removed.
acknowledge_fails :
    (repair_commit (world idle) (97 ∷ 98 ∷ []) (text "acknowledge") []).0
    ≡ err (make_error io_error [] [])
unfolding repair_commit ◌>>=◌ repair_loaded repair_record postgres_outcome_for_xid stoull
    read_numeral skip_space scan_digits outcome_of_xid repair_action eqb text
    repair_action_acknowledge acknowledge remove_commit_recovery_log recovery_log_path
    is_safe_commit_id recovery_dir remove_file
acknowledge_fails = rw (log_of_sample idle) refl

repair_commit_failed-KeepsLog_example :
    Grown KeepsLog [] (repair_commit (world idle) (97 ∷ 98 ∷ []) (text "acknowledge") []).1
repair_commit_failed-KeepsLog_example =
    repair_commit_failed-KeepsLog (world idle) (97 ∷ 98 ∷ []) (text "acknowledge") []
      (make_error io_error [] []) acknowledge_fails

abbrev published_record : CommitRecoveryRecord
published_record = record sample_record {
  tables = record orders_table { iceberg_state = table_committed } ∷ [];
}

-- The table is published and its current snapshot is the recorded one, so it is rolled back.
rolls_back_published :
    (best_effort_rollback_committed_tables (world idle) published_record []).1
    ≡ rollback orders (pos 3) true ∷ []
unfolding best_effort_rollback_committed_tables pgiceberg.Recovery.Rollback.best_effort_loop
    pgiceberg.Recovery.Rollback.best_effort_one eqb table_committed text ◌>>=◌
    pgiceberg.Recovery.Ownership.inspect_snapshot_ownership
    pgiceberg.Recovery.Ownership.catalog_options_for_repair pgiceberg.Options.to_catalog_options
    inspect_loaded pgiceberg.Recovery.Ownership.current_snapshot_id
    pgiceberg.Status.from_iceberg_result pgiceberg.Recovery.Rollback.rollback_if_ours
    pgiceberg.Recovery.Ownership.ownership_of pgiceberg.Recovery.Rollback.rollback_table_to_base
    pgiceberg.Recovery.Rollback.rollback_to_snapshot
    pgiceberg.Recovery.Rollback.rollback_iceberg_snapshot pgiceberg.Recovery.Ownership.find_property
    pgiceberg.Recovery.Ownership.snapshot_has_commit_id pgiceberg.Recovery.Rollback.commit_rollback
    pgiceberg.Recovery.Rollback.rollback_unless_current pgiceberg.Recovery.table_unknown
    pgiceberg.Status.with_context
rolls_back_published = refl

best_effort_rollback-own_example :
    Grown
      (λ e g.
        Any (λ t. RollsBackPublished (world idle) (97 ∷ 98 ∷ []) t e g) published_record.tables)
      []
      (best_effort_rollback_committed_tables (world idle) published_record []).1
best_effort_rollback-own_example = best_effort_rollback-own (world idle) published_record []

overall_verdict_iff_example :
    ((overall_verdict (not_published ∷ []) ≡ verdict_stale_intent) ↔ (
      ((not_published ∷ []) ≢ [])
      × NoneOf is_unresolved (not_published ∷ [])
      × NoneOf is_published (not_published ∷ [])))
    × ((overall_verdict (not_published ∷ []) ≡ verdict_iceberg_orphan) ↔ (
        NoneOf is_unresolved (not_published ∷ [])
        × (any_of is_published (not_published ∷ []) ≡ true)
        × NoneOf is_pending (not_published ∷ [])))
    × ((overall_verdict (not_published ∷ []) ≡ verdict_iceberg_partial) ↔ (
        NoneOf is_unresolved (not_published ∷ [])
        × (any_of is_published (not_published ∷ []) ≡ true)
        × (any_of is_pending (not_published ∷ []) ≡ true)))
overall_verdict_iff_example = overall_verdict_iff (not_published ∷ [])

inspect-table_verdict_example :
    (w : SnapshotOwnership) × (inspect_loaded (world idle) orders_table (97 ∷ 98 ∷ []) 7 ≡ ok w)
    × VerdictFor w (table_verdict (world idle) orders_table 7 (97 ∷ 98 ∷ []))
inspect-table_verdict_example =
    inspect-table_verdict (world idle) orders_table 7 (97 ∷ 98 ∷ []) refl

read_json_body-json_escape_example :
    read_json_body false (json_escape (34 ∷ 92 ∷ 10 ∷ []) ++ 34 ∷ 44 ∷ [])
    ≡ some (34 ∷ 92 ∷ 10 ∷ [], 44 ∷ [])
read_json_body-json_escape_example =
    read_json_body-json_escape (34 ∷ 92 ∷ 10 ∷ []) (44 ∷ [])
      (inl (omega arith), (inl (omega arith), (inr (inr (inl refl)), tt)))
