-- ===== src/Schema/Projection.antt =====
-- `ProjectedIcebergName`, `ProjectedIcebergNames` and `BatchColumnIndex` of src/common/schema_binding.cc.
use pgiceberg.Common.{
  ℕ, ◌≡◌, refl, ap, ◌∙◌, Bool, true, false, List, [], ◌∷◌, ◌++◌, Option, none, some, ◌==◌,
  if◌then◌else◌,
}
use pgiceberg.Common.Bytes.{Bytes, text}
use pgiceberg.Common.Decimal.{print_int}
use pgiceberg.Common.Int.{ℤ, pos, negsuc}
use pgiceberg.Status.{
  Result, IcebergResult, ok, err, make_error, fdw_error, from_iceberg_result, and_then,
}
use pgiceberg.Schema.Columns.{LocalColumn, arrow_field_index_by_id}

-- `by_attnum`: a later column of a number replaces an earlier one.
unfoldable pub find_column : ℕ → List LocalColumn → Option LocalColumn
find_column attnum [] = none
find_column attnum (column ∷ columns) = elim (find_column attnum columns) [
  | some later ↦ some later
  | none ↦ (if column.attnum == attnum then some column else none)
]

abbrev pub name_or_missing : LocalColumn → ℤ → Option Bytes → Result Bytes
name_or_missing column id (some name) = ok name
name_or_missing column id none = err (
    make_error fdw_error
      (text "column \""
        ++ (column.name
            ++ (text "\" field_id " ++ (print_int id ++ text " does not exist in Iceberg table"))))
      (text "Call pgiceberg.refresh_schema() to drop stale local columns."))

abbrev pub add_name : IcebergResult (Option Bytes) → List Bytes → List Bytes
add_name (ok (some name)) names = name ∷ names
add_name (ok none) names = names
add_name (err e) names = names

-- `find_field` is `FindFieldById` of the library, with the name of the field that it finds.
module _ (find_field : ℤ → IcebergResult (Option Bytes)) where
  unfoldable pub projected_iceberg_name : LocalColumn → Result Bytes
  projected_iceberg_name column = elim column.field_id [
    | none ↦ ok column.name
    | some id ↦
        and_then (from_iceberg_result (find_field id) (text "resolve Iceberg field id"))
          (name_or_missing column id)
  ]

  unfoldable pub add_projected : Option LocalColumn → List Bytes → List Bytes
  add_projected none names = names
  add_projected (some column) names = elim column.field_id [
    | none ↦ column.name ∷ names
    | some id ↦ add_name (find_field id) names
  ]

  unfoldable pub projected_iceberg_names : List LocalColumn → List ℕ → List Bytes
  projected_iceberg_names local [] = []
  projected_iceberg_names local (attnum ∷ attnums) =
      add_projected (find_column attnum local) (projected_iceberg_names local attnums)

-- `get_field_index` is `GetFieldIndex` of Arrow.
unfoldable pub index_by_name : Bool → LocalColumn → ℤ → Result ℤ
index_by_name has_id column (pos i) = ok (pos i)
index_by_name true column (negsuc n) = ok (negsuc 0)
index_by_name false column (negsuc n) = err (
    make_error fdw_error
      (text "column \"" ++ (column.name ++ text "\" does not exist in Iceberg table")) [])

abbrev pub index_by_id : LocalColumn → ℤ → ℤ → Result ℤ
index_by_id column (pos i) by_name = ok (pos i)
index_by_id column (negsuc n) by_name = index_by_name true column by_name

unfoldable pub batch_column_index : (Bytes → ℤ) → List (Option Bytes) → LocalColumn → Result ℤ
batch_column_index get_field_index fields column = elim column.field_id [
  | none ↦ index_by_name false column (get_field_index column.name)
  | some id ↦ index_by_id column (arrow_field_index_by_id 0 fields id) (get_field_index column.name)
]

-- The values among some results.
unfoldable pub values : {A : Type 0} → List (Result A) → List A
values [] = []
values (ok a ∷ results) = a ∷ values results
values (err e ∷ results) = values results

abbrev pub name_of_found :
    (ℤ → IcebergResult (Option Bytes)) → Option LocalColumn → List (Result Bytes)
name_of_found find_field none = []
name_of_found find_field (some column) = projected_iceberg_name find_field column ∷ []

-- What `ProjectedIcebergName` answers for the columns of some numbers, where there are such columns.
unfoldable pub names_one_by_one :
    (ℤ → IcebergResult (Option Bytes)) → List LocalColumn → List ℕ → List (Result Bytes)
names_one_by_one find_field local [] = []
names_one_by_one find_field local (attnum ∷ attnums) =
    name_of_found find_field (find_column attnum local) ++ names_one_by_one find_field local attnums

module _ (find_field : ℤ → IcebergResult (Option Bytes)) where
  named-values :
      (column : LocalColumn) (id : ℤ) (found : IcebergResult (Option Bytes))
      (rest : List (Result Bytes))
      → add_name found (values rest)
        ≡ values (
            and_then
              (from_iceberg_result found (text "resolve Iceberg field id"))
              (name_or_missing column id)
            ∷ rest)
  unfolding values from_iceberg_result
  named-values column id (ok (some name)) rest = refl
  named-values column id (ok none) rest = refl
  named-values column id (err e) rest = refl

  column-values :
      (column : LocalColumn) (id : Option ℤ) (rest : List (Result Bytes))
      → add_projected find_field (some (record column { field_id = id })) (values rest)
        ≡ values (projected_iceberg_name find_field (record column { field_id = id }) ∷ rest)
  unfolding values add_projected projected_iceberg_name
  column-values column none rest = refl
  column-values column (some id) rest =
      named-values (record column { field_id = some id }) id (find_field id) rest

  found-values :
      (found : Option LocalColumn) (rest : List (Result Bytes))
      → add_projected find_field found (values rest)
        ≡ values (name_of_found find_field found ++ rest)
  unfolding add_projected
  found-values none rest = refl
  found-values (some column) rest = column-values column column.field_id rest

  -- `ProjectedIcebergNames` gives the names that `ProjectedIcebergName` gives one by one: it leaves
  -- out a number with no column, and a column for which that answers an error.
  pub projected_iceberg_names-projected_iceberg_name :
      (local : List LocalColumn) (attnums : List ℕ)
      → projected_iceberg_names find_field local attnums
        ≡ values (names_one_by_one find_field local attnums)
  unfolding projected_iceberg_names names_one_by_one values
  projected_iceberg_names-projected_iceberg_name local [] = refl
  projected_iceberg_names-projected_iceberg_name local (attnum ∷ attnums) =
      ap (add_projected find_field (find_column attnum local))
        (projected_iceberg_names-projected_iceberg_name local attnums)
      ∙ found-values (find_column attnum local) (names_one_by_one find_field local attnums)
