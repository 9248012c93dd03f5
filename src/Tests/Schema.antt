-- ===== src/Tests/Schema.antt =====
-- A local table with a column of each kind, against an Iceberg schema.
use pgiceberg.Common.{
  ℕ, ◌^◌, ◌*◌, ◌+◌, ◌≡◌, refl, Bool, true, false, List, [], ◌∷◌, ◌++◌, sym, ap, ◌∙◌, Option, none,
  some, arith, ◌↔◌, All, Any, if◌then◌else◌,
}
use pgiceberg.Common.Bytes.{Bytes, text}
use pgiceberg.Common.Int.{ℤ, eq_ℤ, pos, negsuc}
use pgiceberg.Status.{ok, is_ok, IcebergResult}
use pgiceberg.Schema.{
  PgType, IcebergType, int, long, string, decimal, fixed, int4_oid, int8_oid, text_oid, numeric_oid,
  bytea_oid,
}
use pgiceberg.Schema.Types.{decode_numeric_typmod}
use pgiceberg.Schema.Binding.{
  SchemaField, BoundField, SchemaBinding, bind_schema, bind_fields, unmatched,
}
use pgiceberg.Schema.Diff.{SchemaChange, diff_schema, missing_field_id, type_changed}
use pgiceberg.Schema.Checks.{check_scan_compatible, check_write_compatible}
use pgiceberg.Schema.Columns.{LocalColumn, RelationAttribute, load_local_columns}
use pgiceberg.Schema.Bindings.{
  BindingRow, Connect, connected, BindingTable, load_table_am_field_ids, insert_column_bindings,
}
use pgiceberg.Schema.FieldIds.{row, numbered_columns}
use pgiceberg.Schema.Inserted.{HasInserts, load_local_columns-insert_column_bindings}
use pgiceberg.Schema.Refresh.{Session, for_each, refresh_foreign_table}
use pgiceberg.Schema.Refreshed.{set_statement, refresh_foreign_table-InSync}
use pgiceberg.Schema.Stale.{DropsStale, diff_schema-DropsStale}
use pgiceberg.Schema.Numeric.{decode_numeric_typmod-typmod}
use pgiceberg.Schema.Matched.{IsColumnOf}
use pgiceberg.Schema.Synced.{InStep, bind_schema-InStep}
use pgiceberg.Schema.Compatible.{diff_schema-compatible}

-- What `format_type_be` answers.
abbrev format_type : PgType → Bytes
format_type pg_type = text "a type"

abbrev id_column : LocalColumn
id_column = record {
  attnum = 1;
  name = text "id";
  pg_type = int8_oid;
  typmod = negsuc 0;
  not_null = true;
  field_id = some (pos 1);
}

-- A column of type `numeric(10, 2)`.
abbrev price_column : LocalColumn
price_column = record {
  attnum = 3;
  name = text "price";
  pg_type = numeric_oid;
  typmod = pos (10 * 2 ^ 16 + 2 + 4);
  not_null = false;
  field_id = some (pos 2);
}

abbrev local_columns : List LocalColumn
local_columns = id_column ∷ price_column ∷ []

abbrev long_type : IcebergType
long_type = record { type_id = long; precision = pos 0; scale = pos 0; shown = text "long" }

abbrev price_type : IcebergType
price_type = record {
  type_id = decimal;
  precision = pos 10;
  scale = pos 2;
  shown = text "decimal(10, 2)";
}

abbrev id_field : SchemaField Bytes
id_field = record {
  field_id = pos 1;
  name = text "id";
  type = long_type;
  optional = false;
  write_default = none;
  initial_default = none;
}

abbrev price_field : SchemaField Bytes
price_field = record {
  field_id = pos 2;
  name = text "price";
  type = price_type;
  optional = true;
  write_default = none;
  initial_default = none;
}

abbrev fields : List (SchemaField Bytes)
fields = id_field ∷ price_field ∷ []

abbrev bound_fields : SchemaBinding Bytes
bound_fields =
    let bound = bind_fields format_type local_columns fields in
    record { fields = bound; unmatched_local = unmatched format_type bound local_columns }

-- The runs of the examples.
runs :
    (bind_schema format_type local_columns fields ≡ ok bound_fields)
    × (diff_schema format_type bound_fields ≡ [])
    × (check_write_compatible bound_fields ≡ ok tt)
unfolding bind_fields bind_schema check_scan_compatible check_write_compatible diff_schema
    pgiceberg.Schema.Binding.bound_to pgiceberg.Schema.Binding.check_field_ids
    pgiceberg.Schema.Binding.column_of pgiceberg.Schema.Binding.find_by_field_id
    pgiceberg.Schema.Binding.find_by_name pgiceberg.Schema.Binding.incompatibility_of
    pgiceberg.Schema.Binding.local_type_name pgiceberg.Schema.Binding.unbound
    pgiceberg.Schema.Checks.check_scan_fields pgiceberg.Schema.Checks.check_write_fields
    pgiceberg.Schema.Diff.added_change pgiceberg.Schema.Diff.change_of_local
    pgiceberg.Schema.Diff.changes_of_field pgiceberg.Schema.Diff.changes_of_fields
    pgiceberg.Schema.Diff.changes_of_locals pgiceberg.Schema.Diff.field_change
    pgiceberg.Schema.Diff.id_changes pgiceberg.Schema.Diff.name_changes
    pgiceberg.Schema.Diff.type_changes pgiceberg.Schema.Relations.canonical_type_id
    pgiceberg.Schema.Relations.iceberg_type_readable_as
    pgiceberg.Schema.Relations.is_widening_promotion pgiceberg.Schema.Relations.pg_type_of_id
    pgiceberg.Schema.Relations.postgres_mapped_type_id
    pgiceberg.Schema.Relations.postgres_type_writable_as pgiceberg.Schema.Relations.types_match
    pgiceberg.Schema.Types.check_numeric pgiceberg.Schema.Types.decode_numeric_typmod
    pgiceberg.Schema.Types.decode_payload pgiceberg.Schema.Types.iceberg_type_to_sql
    pgiceberg.Schema.Types.postgres_type_to_iceberg_type pgiceberg.Schema.Types.sql_of_type_id
    unmatched pgiceberg.Common.Bytes.eqb pgiceberg.Common.Bytes.text
runs = (refl, refl, refl)

bind_schema-InStep_example : (diff_schema format_type bound_fields ≡ []) ↔ (
    All (InStep format_type local_columns) fields
    × All (λ column. Any (IsColumnOf format_type local_columns column) fields) local_columns)
bind_schema-InStep_example = bind_schema-InStep format_type local_columns fields bound_fields runs.0

diff_schema-compatible_example :
    (check_scan_compatible bound_fields (1 ∷ 3 ∷ []) ≡ ok tt)
    × (check_write_compatible bound_fields ≡ ok tt)
diff_schema-compatible_example =
    diff_schema-compatible format_type local_columns fields bound_fields (1 ∷ 3 ∷ []) runs.0 runs.1

decode_numeric_typmod-typmod_example :
    decode_numeric_typmod (pos (10 * 2 ^ 16 + 2 + 4)) ≡ ok (pos 10, pos 2)
decode_numeric_typmod-typmod_example =
    decode_numeric_typmod-typmod 10 2 (omega arith) (omega arith) (omega arith)

-- A database whose state is the rows of the relation.
abbrev bindings : BindingTable (List BindingRow)
bindings = record {
  connect = λ w. connected;
  select_bindings = λ w. some w;
  insert_binding = λ attnum id w. (true, w ++ (row attnum id ∷ []));
}

abbrev attribute : ℕ → Bool → Bytes → RelationAttribute
attribute attnum is_dropped name = record {
  is_dropped = is_dropped;
  attnum = attnum;
  name = name;
  pg_type = int8_oid;
  typmod = negsuc 0;
  not_null = false;
  options = [];
}

-- The second of three attributes is dropped.
abbrev attributes : List RelationAttribute
attributes =
    attribute 1 false (text "id") ∷ attribute 2 true [] ∷ attribute 3 false (text "price") ∷ []

abbrev inserted_rows : List BindingRow
inserted_rows = row 1 (pos 1) ∷ row 3 (pos 2) ∷ []

abbrev with_row : BindingRow → Option (List BindingRow) → Option (List BindingRow)
with_row new none = none
with_row new (some rows) = some (rows ++ (new ∷ []))

inserts : HasInserts bindings
inserts attnum id w w' rows h s = ap (λ r. some r.1) (sym h) ∙ ap (with_row (row attnum id)) s

inserted_run : insert_column_bindings bindings attributes [] ≡ (ok tt, inserted_rows)
unfolding insert_column_bindings pgiceberg.Schema.Bindings.insert_bindings_from
    pgiceberg.Schema.Bindings.insert_binding_row pgiceberg.Exec.◌>>=◌
inserted_run = refl

load_local_columns-insert_column_bindings_example :
    (load_local_columns false (load_table_am_field_ids bindings inserted_rows) attributes
      ≡ ok (numbered_columns 0 attributes))
    × (is_ok (bind_schema format_type (numbered_columns 0 attributes) fields) ≡ true)
unfolding pgiceberg.Schema.FieldIds.HasDistinctAttnums
load_local_columns-insert_column_bindings_example =
    load_local_columns-insert_column_bindings bindings format_type fields attributes []
      inserted_rows inserts ((refl, (refl, tt)), ((refl, tt), (tt, tt))) inserted_run refl refl

-- A field with the id 9 is no longer in the Iceberg schema.
abbrev stale_columns : List LocalColumn
stale_columns = id_column ∷ record price_column { field_id = some (pos 9) } ∷ []

abbrev stale_fields : SchemaBinding Bytes
stale_fields =
    let bound = bind_fields format_type stale_columns fields in
    record { fields = bound; unmatched_local = unmatched format_type bound stale_columns }

stale_run : bind_schema format_type stale_columns fields ≡ ok stale_fields
unfolding bind_fields bind_schema check_scan_compatible check_write_compatible diff_schema
    pgiceberg.Schema.Binding.bound_to pgiceberg.Schema.Binding.check_field_ids
    pgiceberg.Schema.Binding.column_of pgiceberg.Schema.Binding.find_by_field_id
    pgiceberg.Schema.Binding.find_by_name pgiceberg.Schema.Binding.incompatibility_of
    pgiceberg.Schema.Binding.local_type_name pgiceberg.Schema.Binding.unbound
    pgiceberg.Schema.Checks.check_scan_fields pgiceberg.Schema.Checks.check_write_fields
    pgiceberg.Schema.Diff.added_change pgiceberg.Schema.Diff.change_of_local
    pgiceberg.Schema.Diff.changes_of_field pgiceberg.Schema.Diff.changes_of_fields
    pgiceberg.Schema.Diff.changes_of_locals pgiceberg.Schema.Diff.field_change
    pgiceberg.Schema.Diff.id_changes pgiceberg.Schema.Diff.name_changes
    pgiceberg.Schema.Diff.type_changes pgiceberg.Schema.Relations.canonical_type_id
    pgiceberg.Schema.Relations.iceberg_type_readable_as
    pgiceberg.Schema.Relations.is_widening_promotion pgiceberg.Schema.Relations.pg_type_of_id
    pgiceberg.Schema.Relations.postgres_mapped_type_id
    pgiceberg.Schema.Relations.postgres_type_writable_as pgiceberg.Schema.Relations.types_match
    pgiceberg.Schema.Types.check_numeric pgiceberg.Schema.Types.decode_numeric_typmod
    pgiceberg.Schema.Types.decode_payload pgiceberg.Schema.Types.iceberg_type_to_sql
    pgiceberg.Schema.Types.postgres_type_to_iceberg_type pgiceberg.Schema.Types.sql_of_type_id
    unmatched pgiceberg.Common.Bytes.eqb pgiceberg.Common.Bytes.text
stale_run = refl

diff_schema-DropsStale_example :
    All (DropsStale stale_columns fields) (diff_schema format_type stale_fields)
diff_schema-DropsStale_example =
    diff_schema-DropsStale format_type stale_columns fields stale_fields stale_run

-- A database that keeps the statements it ran.
abbrev session : Session (List Bytes)
session = record {
  connect = λ w. connected;
  spi_execute = λ sql w. (pos 1, w ++ (sql ∷ []));
  quote_identifier = λ name. name;
}

refresh_foreign_table-InSync_example :
    refresh_foreign_table session
      (text "s.t")
      (diff_schema format_type bound_fields)
      bound_fields
      []
    ≡ for_each (set_statement session (text "s.t")) bound_fields.fields []
refresh_foreign_table-InSync_example =
    refresh_foreign_table-InSync session (text "s.t") format_type bound_fields [] runs.1

-- The library finds the field 1 and no other.
abbrev find_field : ℤ → IcebergResult (Option Bytes)
find_field id = if eq_ℤ id (pos 1) then ok (some (text "key")) else ok none
