-- ===== src/Recovery/Ownership.antt =====
-- Whose the current snapshot of a table is: `InspectSnapshotOwnership`, `TableVerdict` and
-- `OverallVerdict` of src/engine/commit_recovery.cc.
use pgiceberg.Common.{
  Bool, true, false, ◌&&◌, ◌||◌, List, [], ◌∷◌, Option, none, some, is_empty, if◌then◌else◌,
}
use pgiceberg.Common.Bytes.{Bytes, text, eqb}
use pgiceberg.Common.Int.{ℤ, eq_ℤ}
use pgiceberg.Status.{Result, ok, and_then, from_iceberg_result}
use pgiceberg.Options.{Options, CatalogOptions, to_catalog_options}
use pgiceberg.Outside.{Outside, History, Snapshot}
use pgiceberg.Recovery.{CommitRecoveryTable, table_pending}

abbrev pub xact_commit_id_property : Bytes
xact_commit_id_property = text "pgiceberg.xact.commit-id"

-- `std::map::find`
unfoldable pub find_property : Bytes → List (Bytes × Bytes) → Option Bytes
find_property key [] = none
find_property key ((k, v) ∷ rest) = if eqb k key then some v else find_property key rest

unfoldable pub snapshot_has_commit_id : Snapshot → Bytes → Bool
snapshot_has_commit_id snapshot commit_id =
    elim (find_property xact_commit_id_property snapshot.summary) [
      | some value ↦ eqb value commit_id
      | none ↦ false
    ]

-- `id.has_value() && *id == value`
abbrev pub is_id : Option ℤ → ℤ → Bool
is_id none value = false
is_id (some id) value = eq_ℤ id value

pub data SnapshotOwnership : Type 0 where
  ours base missing foreign : SnapshotOwnership

-- The tests of `InspectSnapshotOwnership` on the current id, with what `current_snapshot()` has.
unfoldable pub ownership_of : CommitRecoveryTable → Bytes → ℤ → Option Snapshot → SnapshotOwnership
ownership_of t commit_id current_id snapshot =
    if is_id t.committed_snapshot_id current_id
    then ours
    else if (elim snapshot [ some s ↦ snapshot_has_commit_id s commit_id | none ↦ false ])
    then ours
    else if is_id t.base_snapshot_id current_id
    then base
    else foreign

-- The verdicts on a table, and on a record.
abbrev pub iceberg_published : Bytes
iceberg_published = text "iceberg_published"

abbrev pub not_published : Bytes
not_published = text "not_published"

abbrev pub missing_snapshot : Bytes
missing_snapshot = text "missing_snapshot"

abbrev pub already_rolled_back : Bytes
already_rolled_back = text "already_rolled_back"

abbrev pub superseded : Bytes
superseded = text "superseded"

abbrev pub diverged : Bytes
diverged = text "diverged"

abbrev pub verdict_stale_intent : Bytes
verdict_stale_intent = text "stale_intent"

abbrev pub verdict_iceberg_partial : Bytes
verdict_iceberg_partial = text "iceberg_partial"

abbrev pub verdict_iceberg_orphan : Bytes
verdict_iceberg_orphan = text "iceberg_orphan"

abbrev pub verdict_needs_operator : Bytes
verdict_needs_operator = text "needs_operator"

-- The flags that `OverallVerdict` raises in its loop.
pub record Flags : Type 0 where
  pub any_published : Bool
  pub any_pending : Bool
  pub any_rolled_back : Bool
  pub any_unresolved : Bool

unfoldable pub raise_flag : Flags → Bytes → Flags
raise_flag f verdict =
    if eqb verdict iceberg_published
    then record f { any_published = true }
    else if eqb verdict not_published
    then record f { any_pending = true }
    else if eqb verdict already_rolled_back
    then record f { any_rolled_back = true }
    else record f { any_unresolved = true }

unfoldable pub raise_flags : Flags → List Bytes → Flags
raise_flags f [] = f
raise_flags f (v ∷ vs) = raise_flags (raise_flag f v) vs

unfoldable pub verdict_of_flags : Flags → Bytes
verdict_of_flags f =
    if f.any_unresolved
    then verdict_needs_operator
    else if f.any_published && f.any_pending
    then verdict_iceberg_partial
    else if f.any_published
    then verdict_iceberg_orphan
    else if f.any_rolled_back || f.any_pending
    then verdict_stale_intent
    else verdict_needs_operator

abbrev pub no_flags : Flags
no_flags = record {
  any_published = false;
  any_pending = false;
  any_rolled_back = false;
  any_unresolved = false;
}

unfoldable pub overall_verdict : List Bytes → Bytes
overall_verdict verdicts = verdict_of_flags (raise_flags no_flags verdicts)

module _ {Table Transaction : Type 0} (o : Outside Table Transaction) where
  unfoldable pub catalog_options_for_repair : Options → Result CatalogOptions
  catalog_options_for_repair options =
      if is_empty options.catalog_uri
      then to_catalog_options o.load_catalog_options options
      else ok (record {
        catalog_type = options.catalog_type;
        catalog_uri = options.catalog_uri;
        warehouse = options.warehouse;
        catalog_name = options.catalog_name;
        name_space = options.name_space;
        table = options.table;
      })

  -- `CurrentSnapshotId` of src/common/catalog.cc.
  unfoldable pub current_snapshot_id : Table → Result (Option ℤ)
  current_snapshot_id table =
      and_then
        (from_iceberg_result (o.latest_snapshot table) (text "load current Iceberg snapshot"))
        λ latest. elim latest [ none ↦ ok none | some s ↦ ok (some s.snapshot_id) ]

  unfoldable pub inspect_loaded : CommitRecoveryTable → Bytes → Table → Result SnapshotOwnership
  inspect_loaded t commit_id table = and_then (current_snapshot_id table) λ current. elim current [
    | none ↦ ok missing
    | some id ↦ ok (ownership_of t commit_id id (o.current_snapshot table))
  ]

  unfoldable pub inspect_snapshot_ownership :
      CommitRecoveryTable → Bytes → History → Result SnapshotOwnership
  inspect_snapshot_ownership t commit_id h =
      and_then (catalog_options_for_repair t.options)
        λ c. and_then (o.load_iceberg_table h c t.options.table) (inspect_loaded t commit_id)

  -- `IsAncestorOf(...).value_or(false)`, once there is a committed id.
  unfoldable pub was_superseded : CommitRecoveryTable → Table → ℤ → Bool
  was_superseded t table current_id = elim t.committed_snapshot_id [
    | none ↦ false
    | some committed ↦ (elim (o.is_ancestor_of table current_id committed) [
      | some b ↦ b
      | none ↦ false
    ])
  ]

  unfoldable pub table_verdict : CommitRecoveryTable → Table → Bytes → Bytes
  table_verdict t table commit_id = elim (o.current_snapshot table) [
    | none ↦ if eqb t.iceberg_state table_pending then not_published else missing_snapshot
    | some s ↦
        if is_id t.committed_snapshot_id s.snapshot_id
        then iceberg_published
        else if snapshot_has_commit_id s commit_id
        then iceberg_published
        else if is_id t.base_snapshot_id s.snapshot_id
        then already_rolled_back
        else if was_superseded t table s.snapshot_id
        then superseded
        else diverged
  ]
