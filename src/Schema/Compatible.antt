-- ===== src/Schema/Compatible.antt =====
-- What a binding without changes means for scans and writes: src/common/schema_binding.cc.
use pgiceberg.Common.{
  ℕ, ◌≡◌, refl, subst, true, false, List, [], ◌∷◌, Option, none, some, All, any_of, ◌==◌,
  Bool-cases, inl, inr,
}
use pgiceberg.Common.Bytes.{Bytes}
use pgiceberg.Status.{Result, ok, err, and_then_inversion, ok_injective}
use pgiceberg.Schema.{PgType, IcebergType}
use pgiceberg.Schema.Types.{postgres_type_to_iceberg_type}
use pgiceberg.Schema.Relations.{types_match}
use pgiceberg.Schema.Columns.{LocalColumn}
use pgiceberg.Schema.Binding.{
  SchemaField, BoundField, SchemaBinding, column_of, is_ok_match, unbound, bound_to, bind_to,
  bind_fields, unmatched, check_field_ids, bind_schema,
}
use pgiceberg.Schema.Diff.{diff_schema}
use pgiceberg.Schema.Checks.{
  check_scan_fields, check_scan_compatible, check_write_fields, check_write_compatible,
}
use pgiceberg.Schema.Numeric.{types_match-compatible}
use pgiceberg.Schema.InSync.{InSync, not-false, diff_schema-InSync}

module _ {Literal : Type 0} where
  -- A field whose type did not change can be written.
  abbrev Writable : BoundField Literal → Type 0
  Writable field = field.type_changed ≡ false → field.writable ≡ true

  check_scan_fields-ok :
      (projected : List ℕ) (fields : List (BoundField Literal))
      → All InSync fields
      → check_scan_fields projected fields ≡ ok tt
  unfolding check_scan_fields
  check_scan_fields-ok projected [] h = refl
  check_scan_fields-ok projected (field ∷ fields) ((bound, readable, _, _, _), rest) =
      let later = check_scan_fields-ok projected fields rest in
      elim (Bool-cases (any_of (λ n. n == field.attnum) projected)) [
        | inl e ↦ rw (e, bound, readable) later
        | inr e ↦ rw (e, bound) later
      ]

  check_write_fields-ok :
      (fields : List (BoundField Literal))
      → All InSync fields
      → All Writable fields
      → check_write_fields fields ≡ ok tt
  unfolding check_write_fields
  check_write_fields-ok [] h w = refl
  check_write_fields-ok (field ∷ fields) ((bound, _, same_type, _, _), rest) (writable, others) =
      rw (bound, writable same_type) (check_write_fields-ok fields rest others)

pub is_ok_match-mapped :
    (type : IcebergType) (mapped : Result IcebergType)
    → is_ok_match type mapped ≡ true
    → (t : IcebergType) × (mapped ≡ ok t) × (types_match type t ≡ true)
is_ok_match-mapped type (ok t) h = (t, refl, h)
is_ok_match-mapped type (err e) h = absurd (cc)

module _ (format_type : PgType → Bytes) {Literal : Type 0} where
  bound_to-Writable :
      (field : SchemaField Literal) (column : LocalColumn)
      → Writable (bound_to format_type field column)
  unfolding bound_to
  bound_to-Writable field column same =
      let (t, mapped, matches) =
        is_ok_match-mapped field.type
          (postgres_type_to_iceberg_type (format_type column.pg_type) column.pg_type column.typmod)
          (not-false _ same) in
      (types_match-compatible (format_type column.pg_type) column.pg_type column.typmod t field.type
        mapped matches).1

  bind_to-Writable :
      (field : SchemaField Literal) (found : Option LocalColumn)
      → Writable (bind_to format_type field found)
  unfolding unbound
  bind_to-Writable field none = λ _. refl
  bind_to-Writable field (some column) = bound_to-Writable field column

  bind_fields-Writable :
      (local : List LocalColumn) (fields : List (SchemaField Literal))
      → All Writable (bind_fields format_type local fields)
  unfolding bind_fields
  bind_fields-Writable local [] = tt
  bind_fields-Writable local (field ∷ fields) = (
    bind_to-Writable field (column_of local field.field_id field.name),
    bind_fields-Writable local fields,
  )

  bind_schema-Writable :
      (local : List LocalColumn) (fields : List (SchemaField Literal))
      (binding : SchemaBinding Literal)
      → bind_schema format_type local fields ≡ ok binding
      → All Writable binding.fields
  unfolding bind_schema
  bind_schema-Writable local fields binding h =
      let bound = bind_fields format_type local fields in
      let (_, _, e) =
        and_then_inversion (check_field_ids [] local)
          (λ _. ok (record { fields = bound; unmatched_local = unmatched format_type bound local }))
          binding h in
      subst (λ b. All Writable b.fields) (ok_injective e) (bind_fields-Writable local fields)

  -- If `DiffSchema` reports nothing on what `BindSchema` answered, then `CheckScanCompatible`
  -- accepts every projection and `CheckWriteCompatible` accepts the table.
  pub diff_schema-compatible :
      (local : List LocalColumn) (fields : List (SchemaField Literal))
      (binding : SchemaBinding Literal) (projected : List ℕ)
      → bind_schema format_type local fields ≡ ok binding
      → diff_schema format_type binding ≡ []
      → (check_scan_compatible binding projected ≡ ok tt) × (check_write_compatible binding ≡ ok tt)
  unfolding check_scan_compatible check_write_compatible
  diff_schema-compatible local fields binding projected h same =
      let (synced, _) = (diff_schema-InSync format_type binding).0 same in
      (
        check_scan_fields-ok projected binding.fields synced,
        check_write_fields-ok binding.fields synced (bind_schema-Writable local fields binding h),
      )
