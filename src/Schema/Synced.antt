-- ===== src/Schema/Synced.antt =====
-- When `DiffSchema` of src/common/schema_binding.cc reports nothing on what `BindSchema` answered, in terms of the
-- columns and the fields.
use pgiceberg.Common.{
  ℕ, ◌≡◌, ◌≢◌, refl, sym, ap, subst, ◌∙◌, Bool, true, false, not, List, [], ◌∷◌, Option, none, some,
  All, Any, ◌==◌, ==_iff, Bool-cases, inl, inr, ◌↔◌, none_not_some, some-injective,
}
use pgiceberg.Common.Bytes.{Bytes, eqb, eqb_iff}
use pgiceberg.Common.Int.{ℤ, eq_ℤ_iff}
use pgiceberg.Status.{ok, and_then_inversion, ok_injective}
use pgiceberg.Schema.{PgType, IcebergType}
use pgiceberg.Schema.Types.{postgres_type_to_iceberg_type}
use pgiceberg.Schema.Relations.{types_match}
use pgiceberg.Schema.Columns.{LocalColumn, is_field_id}
use pgiceberg.Schema.Binding.{
  has_field_id, SchemaField, SchemaBinding, find_by_field_id, find_by_name, column_of, is_ok_match,
  has_no_id, unbound, bound_to, bind_to, bind_fields, unmatched, check_field_ids, bind_schema,
}
use pgiceberg.Schema.Diff.{diff_schema}
use pgiceberg.Schema.Numeric.{types_match-compatible}
use pgiceberg.Schema.InSync.{InSync, not-false, diff_schema-InSync}
use pgiceberg.Schema.Compatible.{is_ok_match-mapped}
use pgiceberg.Schema.Matched.{In-column_of, IsColumnOf, HasColumn, unmatched-IsColumnOf}
use pgiceberg.Schema.Found.{In}

false-not : (b : Bool) → b ≡ true → not b ≡ false
false-not true h = refl
false-not false h = absurd (cc)

nonzero_iff : (n : ℕ) → ((n == 0) ≡ false) ↔ (n ≢ 0)
nonzero_iff n = (
  λ h e. let same : (n == 0) ≡ true = (==_iff n 0).1 e in absurd (cc),
  λ h. elim (Bool-cases (n == 0)) [ inl e ↦ absurd (h ((==_iff n 0).0 e)) | inr e ↦ e ],
)

find_by_field_id-In :
    (id : ℤ) (columns : List LocalColumn) (column : LocalColumn)
    → find_by_field_id id columns ≡ some column
    → In column columns × (column.field_id ≡ some id)
unfolding find_by_field_id
find_by_field_id-In id [] column h = absurd (none_not_some _ h)
find_by_field_id-In id (first ∷ columns) column h = elim (Bool-cases (has_field_id first id)) [
  | inl e ↦
      let same : first ≡ column = some-injective (rw (e, find_by_field_id) at h) in
      (inl (sym same), subst (λ c. c.field_id ≡ some id) same (has-id first.field_id e))
  | inr e ↦
      let (later, named) = find_by_field_id-In id columns column (rw (e, find_by_field_id) at h) in
      (inr later, named)
]
  where
    has-id : (o : Option ℤ) → is_field_id o id ≡ true → o ≡ some id
    has-id none e = absurd (cc)
    has-id (some other) e = ap some ((eq_ℤ_iff other id).0 e)

find_by_name-has_no_id :
    (name : Bytes) (columns : List LocalColumn) (column : LocalColumn)
    → find_by_name name columns ≡ some column
    → has_no_id column.field_id ≡ true
unfolding find_by_name
find_by_name-has_no_id name [] column h = absurd (none_not_some _ h)
find_by_name-has_no_id name (first ∷ columns) column h =
    let later = find_by_name-has_no_id name columns column in
    elim (Bool-cases (has_no_id first.field_id)) [
      | inl e ↦ (elim (Bool-cases (eqb first.name name)) [
        | inl f ↦
            let same : first ≡ column = some-injective (rw (e, f, find_by_name) at h) in
            subst (λ c. has_no_id c.field_id ≡ true) same e
        | inr f ↦ later (rw (e, f, find_by_name) at h)
      ])
      | inr e ↦ later (rw (e, find_by_name) at h)
    ]

-- A column of a field that has an id has the field's.
column_of-id :
    (local : List LocalColumn) (id : ℤ) (name : Bytes) (column : LocalColumn)
    → column_of local id name ≡ some column
    → has_no_id column.field_id ≡ false
    → In column local × (column.field_id ≡ some id)
unfolding column_of
column_of-id local id name column h has = by_id (find_by_field_id id local) refl h
  where
    by_id :
        (found : Option LocalColumn)
        → find_by_field_id id local ≡ found
        → elim found [ some c ↦ some c | none ↦ find_by_name name local ] ≡ some column
        → In column local × (column.field_id ≡ some id)
    by_id (some c) e g = find_by_field_id-In id local column (e ∙ g)
    by_id none e g =
        let no_id : has_no_id column.field_id ≡ true = find_by_name-has_no_id name local column g in
        absurd (cc)

module _ (format_type : PgType → Bytes) {Literal : Type 0} where
  -- The field has a column with its id and its name, and the column's type stands for the field's.
  abbrev pub InStep : List LocalColumn → SchemaField Literal → Type 0
  InStep local field =
      (column : LocalColumn) × In column local
      × (column.attnum ≢ 0)
      × (column.field_id ≡ some field.field_id)
      × (column.name ≡ field.name)
      × ((type : IcebergType) × (postgres_type_to_iceberg_type (format_type column.pg_type)
              column.pg_type column.typmod
            ≡ ok type)
          × (types_match field.type type ≡ true))

  bind_to-InStep :
      (local : List LocalColumn) (field : SchemaField Literal) (found : Option LocalColumn)
      → column_of local field.field_id field.name ≡ found
      → InSync (bind_to format_type field found)
      → InStep local field
  unfolding bound_to unbound
  bind_to-InStep local field none e (bound, _, _, _, _) = absurd (cc)
  bind_to-InStep local field (some column) e (bound, readable, same_type, same_name, has_id) =
      let (among, id) =
        column_of-id local field.field_id field.name column e
          (elim (Bool-cases (has_no_id column.field_id)) [ inl t ↦ absurd (cc) | inr f ↦ f ]) in
      (
        column,
        among,
        (nonzero_iff column.attnum).0 bound,
        id,
        (eqb_iff column.name field.name).0 (not-false _ same_name),
        is_ok_match-mapped field.type _ (not-false _ same_type),
      )

  InStep-InSync :
      (local : List LocalColumn) (field : SchemaField Literal)
      → check_field_ids [] local ≡ ok tt
      → InStep local field
      → InSync (bind_to format_type field (column_of local field.field_id field.name))
  unfolding bound_to unbound
  InStep-InSync local field ids (column, among, bound, id, name, (type, mapped, matches)) =
      let (readable, _) =
        types_match-compatible (format_type column.pg_type) column.pg_type column.typmod type
          field.type mapped matches in
      let same_type : is_ok_match field.type (
            postgres_type_to_iceberg_type (format_type column.pg_type) column.pg_type column.typmod)
          ≡ true =
        ap (is_ok_match field.type) mapped ∙ matches in
      subst (λ found. InSync (bind_to format_type field found))
        (sym (In-column_of local field.field_id field.name column ids among id))
        (
          (nonzero_iff column.attnum).1 bound,
          readable,
          false-not _ same_type,
          false-not _ ((eqb_iff column.name field.name).1 name),
          ap (λ o. not (has_no_id o)) id,
        )

  bind_fields-InStep :
      (local : List LocalColumn) (fields : List (SchemaField Literal))
      → check_field_ids [] local ≡ ok tt
      → All InSync (bind_fields format_type local fields) ↔ All (InStep local) fields
  unfolding bind_fields
  bind_fields-InStep local [] ids = (λ _. tt, λ _. tt)
  bind_fields-InStep local (field ∷ fields) ids =
      let (there, back) = bind_fields-InStep local fields ids in
      (
        λ (s, ss). (bind_to-InStep local field _ refl s, there ss),
        λ (s, ss). (InStep-InSync local field ids s, back ss),
      )

  InStep-HasColumn :
      (local : List LocalColumn) (fields : List (SchemaField Literal))
      → All (InStep local) fields
      → All (HasColumn format_type local) fields
  InStep-HasColumn local [] h = tt
  InStep-HasColumn local (field ∷ fields) ((column, among, _, id, _, _), rest) =
      ((column, among, id), InStep-HasColumn local fields rest)

  -- On what `BindSchema` answered, `DiffSchema` reports nothing exactly if every Iceberg field has a
  -- local column with its id and its name, whose type stands for the field's type, and every local
  -- column has the attribute number of a column with the id of some field.
  pub bind_schema-InStep :
      (local : List LocalColumn) (fields : List (SchemaField Literal))
      (binding : SchemaBinding Literal)
      → bind_schema format_type local fields ≡ ok binding
      → (diff_schema format_type binding ≡ []) ↔ (
          All (InStep local) fields
          × All (λ column. Any (IsColumnOf format_type local column) fields) local)
  unfolding bind_schema
  bind_schema-InStep local fields binding h =
      let bound = bind_fields format_type local fields in
      let (_, ids, e) =
        and_then_inversion (check_field_ids [] local)
          (λ _. ok (record { fields = bound; unmatched_local = unmatched format_type bound local }))
          binding h in
      let (synced, stepped) = bind_fields-InStep local fields ids in
      let same : bound ≡ binding.fields = ap (λ b. b.fields) (ok_injective e) in
      let left : unmatched format_type bound local ≡ binding.unmatched_local =
        ap (λ b. b.unmatched_local) (ok_injective e) in
      let columns = unmatched-IsColumnOf format_type local local fields ids in
      let (only, enough) = diff_schema-InSync format_type binding in
      (
        λ d.
            let (a, b) = only d in
            let steps = synced (subst (All InSync) (sym same) a) in
            (steps, (columns (InStep-HasColumn local fields steps)).0 (left ∙ b)),
        λ (a, b). enough (
          subst (All InSync) same (stepped a),
          sym left ∙ (columns (InStep-HasColumn local fields a)).1 b,
        ),
      )
