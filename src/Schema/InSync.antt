-- ===== src/Schema/InSync.antt =====
-- What an empty answer of `DiffSchema` of src/common/schema_binding.cc says.
use pgiceberg.Common.{
  ◌≡◌, refl, Bool, true, false, not, List, [], ◌∷◌, ◌++◌, All, ◌↔◌, if◌then◌else◌,
}
use pgiceberg.Common.Bytes.{Bytes}
use pgiceberg.Schema.{PgType}
use pgiceberg.Schema.Columns.{LocalColumn}
use pgiceberg.Schema.Binding.{BoundField, SchemaBinding}
use pgiceberg.Schema.Diff.{
  is_unbound, type_changes, name_changes, id_changes, changes_of_field, changes_of_fields,
  changes_of_locals, diff_schema,
}

append_empty : {A : Type 0} (xs ys : List A) → xs ++ ys ≡ [] → (xs ≡ []) × (ys ≡ [])
append_empty [] ys h = (refl, h)
append_empty (x ∷ xs) ys h = absurd (cc)

module _ {Literal : Type 0} where
  -- A field that is bound by its id to a column of its name and its type.
  abbrev pub InSync : BoundField Literal → Type 0
  InSync field =
      (is_unbound field ≡ false)
      × (field.readable ≡ true)
      × (field.type_changed ≡ false)
      × (field.renamed ≡ false)
      × (field.had_field_id ≡ true)

if_empty :
    {A : Type 0} (b : Bool) (x : A) (ys : List A)
    → (if b then (x ∷ []) else ys) ≡ []
    → (b ≡ false) × (ys ≡ [])
if_empty true x ys h = absurd (cc)
if_empty false x ys h = (refl, h)

pub not-false : (b : Bool) → not b ≡ false → b ≡ true
not-false true h = refl
not-false false h = absurd (cc)

module _ (format_type : PgType → Bytes) where
  changes_of_locals-empty :
      (columns : List LocalColumn) → (changes_of_locals format_type columns ≡ []) ↔ (columns ≡ [])
  unfolding changes_of_locals
  changes_of_locals-empty [] = (λ _. refl, λ _. refl)
  changes_of_locals-empty (c ∷ cs) = (λ h. absurd (cc), λ h. absurd (cc))

module _ (format_type : PgType → Bytes) {Literal : Type 0} where
  changes_of_field-only :
      (field : BoundField Literal) → changes_of_field format_type field ≡ [] → InSync field
  unfolding changes_of_field type_changes name_changes id_changes
  changes_of_field-only field h =
      let (bound, pieces) = if_empty (is_unbound field) _ _ h in
      let (types, others) = append_empty (type_changes format_type field) _ pieces in
      let (names, ids) = append_empty (name_changes format_type field) _ others in
      let (readable, changed) = if_empty (not field.readable) _ _ types in
      let (same_type, _) = if_empty field.type_changed _ _ changed in
      let (same_name, _) = if_empty field.renamed _ _ names in
      let (has_id, _) = if_empty (not field.had_field_id) _ _ ids in
      (bound, not-false _ readable, same_type, same_name, not-false _ has_id)

  changes_of_field-InSync :
      (field : BoundField Literal) → (changes_of_field format_type field ≡ []) ↔ InSync field
  unfolding changes_of_field type_changes name_changes id_changes
  changes_of_field-InSync field = (
    changes_of_field-only field,
    λ (bound, readable, same_type, same_name, has_id).
        rw (bound, readable, same_type, same_name, has_id) refl,
  )

  changes_of_fields-InSync :
      (fields : List (BoundField Literal))
      → (changes_of_fields format_type fields ≡ []) ↔ All InSync fields
  unfolding changes_of_fields
  changes_of_fields-InSync [] = (λ _. tt, λ _. refl)
  changes_of_fields-InSync (field ∷ fields) = (
    λ h.
        let (a, b) = append_empty (changes_of_field format_type field) _ h in
        ((changes_of_field-InSync field).0 a, (changes_of_fields-InSync fields).0 b),
    λ (a, b). rw ((changes_of_field-InSync field).1 a) ((changes_of_fields-InSync fields).1 b),
  )

  -- `DiffSchema` reports nothing exactly if every Iceberg field is bound by its id to a column of its
  -- name and its type that can be read, and no local column is left over.
  pub diff_schema-InSync :
      (binding : SchemaBinding Literal)
      → (diff_schema format_type binding ≡ [])
        ↔ (All InSync binding.fields × (binding.unmatched_local ≡ []))
  unfolding diff_schema
  diff_schema-InSync binding = (
    λ h.
        let (a, b) = append_empty (changes_of_fields format_type binding.fields) _ h in
        (
          (changes_of_fields-InSync binding.fields).0 a,
          (changes_of_locals-empty format_type binding.unmatched_local).0 b,
        ),
    λ (a, b).
        rw ((changes_of_fields-InSync binding.fields).1 a)
          ((changes_of_locals-empty format_type binding.unmatched_local).1 b),
  )
