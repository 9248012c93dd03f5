-- ===== src/Schema/Diff.antt =====
-- `DiffSchema` of src/common/schema_binding.cc.
use pgiceberg.Common.{Bool, not, List, [], ◌∷◌, ◌++◌, Option, none, some, ◌==◌, if◌then◌else◌}
use pgiceberg.Common.Bytes.{Bytes, text}
use pgiceberg.Common.Decimal.{print_int}
use pgiceberg.Common.Int.{ℤ}
use pgiceberg.Status.{Result, ok, err}
use pgiceberg.Schema.{IcebergType, PgType}
use pgiceberg.Schema.Types.{iceberg_type_to_sql}
use pgiceberg.Schema.Columns.{LocalColumn}
use pgiceberg.Schema.Binding.{BoundField, SchemaBinding, local_type_name}

pub data SchemaChangeKind : Type 0 where
  added dropped renamed type_changed incompatible missing_field_id : SchemaChangeKind

pub record SchemaChange : Type 0 where
  pub kind : SchemaChangeKind
  pub local_column : Option Bytes
  pub local_type : Option Bytes
  pub iceberg_field_id : Option ℤ
  pub iceberg_name : Option Bytes
  pub iceberg_type : Option Bytes
  pub detail : Bytes

abbrev pub sql_or_shown : IcebergType → Result Bytes → Bytes
sql_or_shown type (ok sql) = sql
sql_or_shown type (err e) = type.shown

abbrev pub type_text : IcebergType → Bytes
type_text type = sql_or_shown type (iceberg_type_to_sql type)

module _ {Literal : Type 0} where
  -- `field.attnum == InvalidAttrNumber`
  abbrev pub is_unbound : BoundField Literal → Bool
  is_unbound field = field.attnum == 0

  unfoldable pub added_change : BoundField Literal → SchemaChange
  added_change field = record {
    kind = added;
    local_column = none;
    local_type = none;
    iceberg_field_id = some field.field_id;
    iceberg_name = some field.iceberg_name;
    iceberg_type = some (type_text field.iceberg_type);
    detail = text "Iceberg added field id " ++ print_int field.field_id;
  }

abbrev pub no_id_text : Bytes → Bytes
no_id_text name = text "local column \"" ++ (name ++ text "\" has no Iceberg field_id")

module _ (format_type : PgType → Bytes) where
  unfoldable pub change_of_local : LocalColumn → SchemaChange
  change_of_local column = elim column.field_id [
    | none ↦ record {
      kind = missing_field_id;
      local_column = some column.name;
      local_type = some (local_type_name format_type column.pg_type column.typmod);
      iceberg_field_id = none;
      iceberg_name = none;
      iceberg_type = none;
      detail = no_id_text column.name;
    }
    | some id ↦ record {
      kind = dropped;
      local_column = some column.name;
      local_type = some (local_type_name format_type column.pg_type column.typmod);
      iceberg_field_id = some id;
      iceberg_name = none;
      iceberg_type = none;
      detail = text "Iceberg dropped field id " ++ print_int id;
    }
  ]

  unfoldable pub changes_of_locals : List LocalColumn → List SchemaChange
  changes_of_locals [] = []
  changes_of_locals (column ∷ columns) = change_of_local column ∷ changes_of_locals columns

module _ (format_type : PgType → Bytes) {Literal : Type 0} where
  unfoldable pub field_change : BoundField Literal → SchemaChangeKind → Bytes → SchemaChange
  field_change field kind detail = record {
    kind = kind;
    local_column = some field.local_name;
    local_type = some (local_type_name format_type field.pg_type field.typmod);
    iceberg_field_id = some field.field_id;
    iceberg_name = some field.iceberg_name;
    iceberg_type = some (type_text field.iceberg_type);
    detail = detail;
  }

  unfoldable pub type_changes : BoundField Literal → List SchemaChange
  type_changes field =
      if not field.readable
      then field_change field incompatible field.incompatibility ∷ []
      else if field.type_changed
      then field_change field type_changed (
          text "local type "
          ++ (local_type_name format_type field.pg_type field.typmod
              ++ (text " differs from Iceberg type " ++ type_text field.iceberg_type)))
        ∷ []
      else []

  unfoldable pub name_changes : BoundField Literal → List SchemaChange
  name_changes field =
      if field.renamed
      then field_change field renamed (
          text "local column \""
          ++ (field.local_name
              ++ (text "\" maps to Iceberg field \""
                  ++ (field.iceberg_name ++ (text "\" by id " ++ print_int field.field_id)))))
        ∷ []
      else []

  unfoldable pub id_changes : BoundField Literal → List SchemaChange
  id_changes field =
      if not field.had_field_id
      then field_change field missing_field_id (no_id_text field.local_name) ∷ []
      else []

  unfoldable pub changes_of_field : BoundField Literal → List SchemaChange
  changes_of_field field =
      if is_unbound field
      then added_change field ∷ []
      else type_changes field ++ (name_changes field ++ id_changes field)

  unfoldable pub changes_of_fields : List (BoundField Literal) → List SchemaChange
  changes_of_fields [] = []
  changes_of_fields (field ∷ fields) = changes_of_field field ++ changes_of_fields fields

  -- `DiffSchema`, which returns no error.
  unfoldable pub diff_schema : SchemaBinding Literal → List SchemaChange
  diff_schema binding =
      changes_of_fields binding.fields ++ changes_of_locals format_type binding.unmatched_local
