-- ===== src/Schema/Binding.antt =====
-- `LocalTypeName` and `BindSchema` of src/common/schema_binding.cc.
use pgiceberg.Common.{
  ℕ, Bool, true, false, not, List, [], ◌∷◌, ◌++◌, Option, none, some, any_of, ◌==◌, if◌then◌else◌,
}
use pgiceberg.Common.Bytes.{Bytes, text, eqb}
use pgiceberg.Common.Decimal.{print_int}
use pgiceberg.Common.Int.{ℤ, negsuc}
use pgiceberg.Status.{Result, ok, err, make_error, duplicate_object, and_then}
use pgiceberg.Schema.{
  IcebergType, PgType, numeric_oid, time_oid, timestamp_oid, timestamptz_oid, varchar_oid,
  bpchar_oid, invalid_oid,
}
use pgiceberg.Schema.Types.{postgres_type_to_iceberg_type, iceberg_type_to_sql}
use pgiceberg.Schema.Relations.{types_match, iceberg_type_readable_as, postgres_type_writable_as}
use pgiceberg.Schema.Columns.{LocalColumn, is_field_id}

-- `iceberg::SchemaField`; `Literal` is the library's `iceberg::Literal`.
pub record SchemaField (Literal : Type 0) : Type 0 where
  pub field_id : ℤ
  pub name : Bytes
  pub type : IcebergType
  pub optional : Bool
  pub write_default : Option Literal
  pub initial_default : Option Literal

-- `attnum` is 0 for a field that is bound to no column.
pub record BoundField (Literal : Type 0) : Type 0 where
  pub field_id : ℤ
  pub iceberg_name : Bytes
  pub iceberg_type : IcebergType
  pub optional : Bool
  pub attnum : ℕ
  pub local_name : Bytes
  pub pg_type : PgType
  pub typmod : ℤ
  pub renamed : Bool
  pub type_changed : Bool
  pub had_field_id : Bool
  pub readable : Bool
  pub writable : Bool
  pub incompatibility : Bytes
  pub write_default : Option Literal
  pub initial_default : Option Literal

pub record SchemaBinding (Literal : Type 0) : Type 0 where
  pub fields : List (BoundField Literal)
  pub unmatched_local : List LocalColumn

abbrev pub has_field_id : LocalColumn → ℤ → Bool
has_field_id column id = is_field_id column.field_id id

-- The loop that fills `by_field_id`: the ids of the columns differ.
unfoldable pub check_field_ids : List LocalColumn → List LocalColumn → Result (Unit {0})
check_field_ids seen [] = ok tt
check_field_ids seen (column ∷ columns) = elim column.field_id [
  | none ↦ check_field_ids seen columns
  | some id ↦ (elim (any_of (λ other. has_field_id other id) seen) [
    | false ↦ check_field_ids (seen ++ (column ∷ [])) columns
    | true ↦ err (
        make_error duplicate_object
          (text "duplicate Iceberg field_id " ++ (print_int id ++ text " on local columns"))
          (text "Each PostgreSQL column must map to a unique Iceberg field id."))
  ])
]

abbrev pub has_no_id : Option ℤ → Bool
has_no_id none = true
has_no_id (some id) = false

unfoldable pub find_by_field_id : ℤ → List LocalColumn → Option LocalColumn
find_by_field_id id [] = none
find_by_field_id id (column ∷ columns) =
    let rest = find_by_field_id id columns in if has_field_id column id then some column else rest

unfoldable pub find_by_name : Bytes → List LocalColumn → Option LocalColumn
find_by_name name [] = none
find_by_name name (column ∷ columns) =
    let rest = find_by_name name columns in
    if has_no_id column.field_id then (if eqb column.name name then some column else rest) else rest

-- The column of a field: that with its id, or else that with its name and no id.
unfoldable pub column_of : List LocalColumn → ℤ → Bytes → Option LocalColumn
column_of local id name = elim (find_by_field_id id local) [
  | some column ↦ some column
  | none ↦ find_by_name name local
]

abbrev pub is_ok_match : IcebergType → Result IcebergType → Bool
is_ok_match type (err e) = false
is_ok_match type (ok mapped) = types_match type mapped

module _ (format_type : PgType → Bytes) where
  abbrev pub numeric_name : PgType → ℤ → Result Bytes
  numeric_name pg_type typmod =
      and_then (postgres_type_to_iceberg_type (format_type pg_type) pg_type typmod)
        iceberg_type_to_sql

  abbrev pub or_format : PgType → Result Bytes → Bytes
  or_format pg_type (ok sql) = sql
  or_format pg_type (err e) = format_type pg_type

  -- `LocalTypeName`; `format_type` is `format_type_be`.
  unfoldable pub local_type_name : PgType → ℤ → Bytes
  local_type_name timestamp_oid typmod = text "timestamp"
  local_type_name timestamptz_oid typmod = text "timestamptz"
  local_type_name time_oid typmod = text "time"
  local_type_name varchar_oid typmod = text "text"
  local_type_name bpchar_oid typmod = text "text"
  local_type_name numeric_oid typmod = or_format numeric_oid (numeric_name numeric_oid typmod)
  local_type_name other typmod = format_type other

module _ (format_type : PgType → Bytes) {Literal : Type 0} where
  unfoldable pub incompatibility_of : SchemaField Literal → LocalColumn → Bool → Bool → Bytes
  incompatibility_of field column false writable =
      text "Iceberg field \""
      ++ (field.name
          ++ (text "\" (id "
              ++ (print_int field.field_id
                  ++ (text ") is not readable as PostgreSQL type "
                      ++ local_type_name format_type column.pg_type column.typmod))))
  incompatibility_of field column true false =
      text "PostgreSQL column \""
      ++ (column.name
          ++ (text "\" cannot be written as Iceberg field \"" ++ (field.name ++ text "\"")))
  incompatibility_of field column true true = []

  unfoldable pub unbound : SchemaField Literal → BoundField Literal
  unbound field = record {
    field_id = field.field_id;
    iceberg_name = field.name;
    iceberg_type = field.type;
    optional = field.optional;
    attnum = 0;
    local_name = [];
    pg_type = invalid_oid;
    typmod = negsuc 0;
    renamed = false;
    type_changed = false;
    had_field_id = false;
    readable = true;
    writable = true;
    incompatibility = [];
    write_default = field.write_default;
    initial_default = field.initial_default;
  }

  unfoldable pub bound_to : SchemaField Literal → LocalColumn → BoundField Literal
  bound_to field column =
      let readable = iceberg_type_readable_as field.type column.pg_type in
      let writable = postgres_type_writable_as column.pg_type field.type in
      record (unbound field) {
        attnum = column.attnum;
        local_name = column.name;
        pg_type = column.pg_type;
        typmod = column.typmod;
        renamed = not (eqb column.name field.name);
        type_changed = not (
            is_ok_match field.type (
              postgres_type_to_iceberg_type (format_type column.pg_type) column.pg_type
                column.typmod));
        had_field_id = not (has_no_id column.field_id);
        readable = readable;
        writable = writable;
        incompatibility = incompatibility_of field column readable writable;
      }

  abbrev pub bind_to : SchemaField Literal → Option LocalColumn → BoundField Literal
  bind_to field none = unbound field
  bind_to field (some column) = bound_to field column

  unfoldable pub bind_fields :
      List LocalColumn → List (SchemaField Literal) → List (BoundField Literal)
  bind_fields local [] = []
  bind_fields local (field ∷ fields) =
      bind_to field (column_of local field.field_id field.name) ∷ bind_fields local fields

  -- `matched.contains`: the attribute numbers that the fields got, which no column has as 0.
  abbrev pub is_matched : List (BoundField Literal) → LocalColumn → Bool
  is_matched fields column = any_of (λ field. field.attnum == column.attnum) fields

  unfoldable pub unmatched : List (BoundField Literal) → List LocalColumn → List LocalColumn
  unmatched fields [] = []
  unmatched fields (column ∷ columns) =
      let rest = unmatched fields columns in
      if is_matched fields column then rest else column ∷ rest

  -- `BindSchema`
  unfoldable pub bind_schema :
      List LocalColumn → List (SchemaField Literal) → Result (SchemaBinding Literal)
  bind_schema local fields = and_then (check_field_ids [] local) λ _.
      let bound = bind_fields local fields in
      ok (record { fields = bound; unmatched_local = unmatched bound local })
