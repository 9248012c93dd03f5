-- ===== src/Logical/Backfill.antt =====
-- `EnsureEmptyBackfillTarget` and `BackfillSourceTable` of src/logical/logical.cc: the first copy of a
-- mirrored table.
use pgiceberg.Common.{
  ℕ, zero, suc, Bool, true, false, not, List, [], ◌∷◌, ◌++◌, none, some, leb, length, if◌then◌else◌,
}
use pgiceberg.Common.Bytes.{Bytes, text, eqb}
use pgiceberg.Common.Decimal.{print_nat}
use pgiceberg.Common.Int.{ℤ, pos, negsuc}
use pgiceberg.Status.{
  Result, Status, IcebergResult, ok, err, make_error, invalid_parameter_value,
  feature_not_supported, object_not_in_prerequisite_state, and_then, from_iceberg_result,
}
use pgiceberg.Options.{Options, CatalogOptions, to_catalog_options}
use pgiceberg.Exec.{Exec, ◌>>=◌, ◌>>◌, pure, read}
use pgiceberg.Outside.{Properties, Snapshot}
use pgiceberg.Recovery.Ownership.{find_property}
use pgiceberg.Logical.Slot.{Row}
use pgiceberg.Logical.Mirror.{commit_properties_for}

-- What the target is asked: the options of its catalog, its table, and the table's snapshots.
pub record Target (Table : Type 0) : Type 0 where
  pub load_catalog_options : Bytes → Result CatalogOptions
  pub load_iceberg_table : CatalogOptions → Bytes → Result Table
  pub has_snapshots : Table → Bool
  pub current_snapshot : Table → IcebergResult Snapshot

-- `iceberg::SnapshotSummaryFields::kTotalRecords` is `total_records` here.
unfoldable pub has_no_records : Bytes → Snapshot → Bool
has_no_records total_records snapshot = elim (find_property total_records snapshot.summary) [
  | none ↦ false
  | some value ↦ eqb value (text "0")
]

unfoldable pub check_no_records : Bytes → Result Snapshot → Status
check_no_records total_records (err e) = err e
check_no_records total_records (ok snapshot) =
    if has_no_records total_records snapshot
    then ok tt
    else err (
        make_error object_not_in_prerequisite_state
          (text "logical mirror backfill requires an empty target Iceberg table") [])

unfoldable pub ensure_empty_backfill_target :
    {Table : Type 0} → Target Table → Bytes → Options → Bytes → Status
ensure_empty_backfill_target target total_records options relation_name =
    and_then (to_catalog_options target.load_catalog_options options) λ catalog_options.
      and_then (target.load_iceberg_table catalog_options relation_name) λ table.
        if not (target.has_snapshots table)
        then ok tt
        else check_no_records total_records
            (from_iceberg_result (target.current_snapshot table) (text "load current snapshot"))

unfoldable pub positive_batch_size : ℤ → Result ℕ
positive_batch_size (pos (suc n)) = ok (suc n)
positive_batch_size (pos zero) =
    err (make_error invalid_parameter_value (text "batch_size must be greater than zero") [])
positive_batch_size (negsuc n) =
    err (make_error invalid_parameter_value (text "batch_size must be greater than zero") [])

unfoldable pub check_isolation : Bool → Status
check_isolation true = err (
    make_error feature_not_supported
      (text "consistent logical mirror backfill requires READ COMMITTED isolation") [])
check_isolation false = ok tt

abbrev pub backfill_properties : ℕ → Bytes → Properties
backfill_properties source_relid source_lsn =
    commit_properties_for
      (text "backfill-v1:" ++ (print_nat source_relid ++ (text ":" ++ source_lsn))) source_lsn

module _ {S Datum : Type 0} (append_slots : List (Row Datum) → Properties → Exec S (Unit {0})) where
  -- `BackfillSlotBatch::Flush`; a flush that succeeds clears the batch.
  unfoldable pub flush : List (Row Datum) → Properties → Exec S (Unit {0})
  flush [] properties = pure tt
  flush (row ∷ rows) properties = append_slots (row ∷ rows) properties

  -- The scan, with the rows of the batch so far.
  unfoldable pub backfill_rows :
      ℕ → Properties → List (Row Datum) → List (Row Datum) → Exec S (Unit {0})
  backfill_rows batch_size properties batch [] = flush batch properties
  backfill_rows batch_size properties batch (row ∷ rows) =
      if leb batch_size (length (batch ++ (row ∷ [])))
      then (do flush (batch ++ (row ∷ [])) properties; backfill_rows batch_size properties [] rows)
      else backfill_rows batch_size properties (batch ++ (row ∷ [])) rows

  -- `BackfillSourceTable`: `uses_xact_snapshot` is PostgreSQL's `IsolationUsesXactSnapshot()`,
  -- `empty_target` the answer of `EnsureEmptyBackfillTarget`, and `rows` what the scan returns.
  unfoldable pub backfill_source_table :
      Bool → Status → List (Row Datum) → ℕ → ℤ → Bytes → Bool → Exec S ℕ
  backfill_source_table uses_xact_snapshot empty_target rows source_relid batch_size source_lsn
        require_empty_target =
      do
        batch ← read (λ _. positive_batch_size batch_size)
        read (λ _. check_isolation uses_xact_snapshot)
        read (λ _. if require_empty_target then empty_target else ok tt)
        backfill_rows batch (backfill_properties source_relid source_lsn) [] rows
        pure (length rows)
