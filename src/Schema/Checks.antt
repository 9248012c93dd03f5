-- ===== src/Schema/Checks.antt =====
-- `CheckScanCompatible` and `CheckWriteCompatible` of src/common/schema_binding.cc.
use pgiceberg.Common.{
  ℕ, Bool, true, false, ◌&&◌, ◌||◌, not, List, [], ◌∷◌, ◌++◌, Option, none, some, any_of, ◌==◌,
  if◌then◌else◌,
}
use pgiceberg.Common.Bytes.{text}
use pgiceberg.Common.Decimal.{print_int}
use pgiceberg.Status.{
  Status, ok, err, make_error, fdw_error, fdw_inconsistent_descriptor_information,
}
use pgiceberg.Schema.Binding.{BoundField, SchemaBinding}
use pgiceberg.Schema.Diff.{is_unbound}

module _ {Literal : Type 0} where
  unfoldable pub check_scan_fields : List ℕ → List (BoundField Literal) → Status
  check_scan_fields projected [] = ok tt
  check_scan_fields projected (field ∷ fields) =
      let rest = check_scan_fields projected fields in
      if is_unbound field || not (any_of (λ n. n == field.attnum) projected)
      then rest
      else if not field.readable
      then err (
          make_error fdw_inconsistent_descriptor_information field.incompatibility (
            text
              "Call pgiceberg.refresh_schema() to update the local column type, or ALTER the column."))
      else rest

  unfoldable pub check_scan_compatible : SchemaBinding Literal → List ℕ → Status
  check_scan_compatible binding projected = check_scan_fields projected binding.fields

  abbrev pub has_default : Option Literal → Bool
  has_default none = false
  has_default (some literal) = true

  unfoldable pub check_write_fields : List (BoundField Literal) → Status
  check_write_fields [] = ok tt
  check_write_fields (field ∷ fields) =
      let rest = check_write_fields fields in
      if not (is_unbound field)
      then (if not field.writable
          then err (
              make_error fdw_inconsistent_descriptor_information field.incompatibility
                (text "Call pgiceberg.refresh_schema() to update the local column type."))
          else rest)
      else if not field.optional && not (has_default field.write_default)
      then err (
          make_error fdw_error
            (text "required Iceberg field \""
              ++ (field.iceberg_name
                  ++ (text "\" (id "
                      ++ (print_int field.field_id
                          ++ text ") is missing from the local table and has no write-default"))))
            (text
              "Add the column locally with pgiceberg.refresh_schema(), or evolve the Iceberg schema to make the field optional or give it a write-default."))
      else rest

  unfoldable pub check_write_compatible : SchemaBinding Literal → Status
  check_write_compatible binding = check_write_fields binding.fields
