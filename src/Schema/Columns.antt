-- ===== src/Schema/Columns.antt =====
-- `ParseFieldIdValue` to `LoadLocalColumns` of src/common/schema_binding.cc: the columns of a local table, with their
-- Iceberg field ids.
use pgiceberg.Common.{
  ℕ, zero, suc, Bool, true, false, List, [], ◌∷◌, ◌++◌, Option, none, some, ◌==◌, if◌then◌else◌,
}
use pgiceberg.Common.Bytes.{Bytes, text, eqb}
use pgiceberg.Common.FromChars.{from_chars, whole}
use pgiceberg.Common.Int.{ℤ, pos, negsuc, int32_min, eq_ℤ}
use pgiceberg.Status.{Result, Status, ok, err, make_error, fdw_invalid_attribute_value, and_then}
use pgiceberg.Schema.{PgType}

abbrev pub field_id_option : Bytes
field_id_option = text "field_id"

pub record LocalColumn : Type 0 where
  pub attnum : ℕ
  pub name : Bytes
  pub pg_type : PgType
  pub typmod : ℤ
  pub not_null : Bool
  pub field_id : Option ℤ

abbrev pub positive_id : Option ℤ → Option ℤ
positive_id none = none
positive_id (some (pos zero)) = none
positive_id (some (pos (suc n))) = some (pos (suc n))
positive_id (some (negsuc n)) = none

-- `ParseFieldIdValue`; a null pointer is the empty text.
unfoldable pub parse_field_id_value : Bytes → Option ℤ
parse_field_id_value value = positive_id (whole (from_chars int32_min value))

unfoldable pub is_valid_column_option : Bytes → Bool
is_valid_column_option name = eqb name field_id_option

unfoldable pub parse_field_id_option : Bytes → Result ℤ
parse_field_id_option value = elim (parse_field_id_value value) [
  | some id ↦ ok id
  | none ↦ err (
      make_error fdw_invalid_attribute_value
        (text "invalid pgiceberg field_id \"" ++ (value ++ text "\""))
        (text "field_id must be a positive Iceberg field id."))
]

unfoldable pub validate_field_id_option : Bytes → Status
validate_field_id_option value = and_then (parse_field_id_option value) (λ _. ok tt)

-- `FieldIdFromOptionList`: the first option of that name counts.
unfoldable pub field_id_from_option_list : List (Bytes × Bytes) → Option ℤ
field_id_from_option_list [] = none
field_id_from_option_list ((name, value) ∷ options) =
    if eqb name field_id_option
    then parse_field_id_value value
    else field_id_from_option_list options

-- `ArrowFieldIndexById`, on the field ids in the metadata of an Arrow schema; `none` is a field with no
-- such entry, and the index counts from `i`.
unfoldable pub arrow_field_id : Option Bytes → Option ℤ
arrow_field_id none = none
arrow_field_id (some value) = parse_field_id_value value

abbrev pub is_field_id : Option ℤ → ℤ → Bool
is_field_id none id = false
is_field_id (some other) id = eq_ℤ other id

unfoldable pub arrow_field_index_by_id : ℕ → List (Option Bytes) → ℤ → ℤ
arrow_field_index_by_id i [] id = negsuc 0
arrow_field_index_by_id i (field ∷ fields) id =
    let rest = arrow_field_index_by_id (suc i) fields id in
    if is_field_id (arrow_field_id field) id then pos i else rest

-- An attribute of a relation, with the options of a foreign column.
pub record RelationAttribute : Type 0 where
  pub is_dropped : Bool
  pub attnum : ℕ
  pub name : Bytes
  pub pg_type : PgType
  pub typmod : ℤ
  pub not_null : Bool
  pub options : List (Bytes × Bytes)

-- `unordered_map::find` on the bindings of a table.
unfoldable pub find_field_id : ℕ → List (ℕ × ℤ) → Option ℤ
find_field_id attnum [] = none
find_field_id attnum ((n, id) ∷ rest) = if n == attnum then some id else find_field_id attnum rest

unfoldable pub local_column : Bool → List (ℕ × ℤ) → RelationAttribute → LocalColumn
local_column is_foreign field_ids attr = record {
  attnum = attr.attnum;
  name = attr.name;
  pg_type = attr.pg_type;
  typmod = attr.typmod;
  not_null = attr.not_null;
  field_id =
      if is_foreign
      then field_id_from_option_list attr.options
      else find_field_id attr.attnum field_ids;
}

unfoldable pub columns_of : Bool → List (ℕ × ℤ) → List RelationAttribute → List LocalColumn
columns_of is_foreign field_ids [] = []
columns_of is_foreign field_ids (attr ∷ attrs) =
    let rest = columns_of is_foreign field_ids attrs in
    if attr.is_dropped then rest else local_column is_foreign field_ids attr ∷ rest

-- `LoadLocalColumns`; `field_ids` is what `LoadTableAmFieldIds` answers for a table that is not foreign.
unfoldable pub load_local_columns :
    Bool → Result (List (ℕ × ℤ)) → List RelationAttribute → Result (List LocalColumn)
load_local_columns true field_ids attrs = ok (columns_of true [] attrs)
load_local_columns false field_ids attrs =
    and_then field_ids (λ ids. ok (columns_of false ids attrs))
