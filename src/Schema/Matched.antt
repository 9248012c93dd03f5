-- ===== src/Schema/Matched.antt =====
-- Which local columns `BindSchema` of src/common/schema_binding.cc leaves over, in terms of the columns and the
-- fields.
use pgiceberg.Common.{
  ◌≡◌, refl, sym, ap, ◌∙◌, Bool, true, List, [], ◌∷◌, some, All, Any, ◌==◌, ==_iff, Bool-cases, inl,
  inr, ◌↔◌, ◌⊎◌, any_of,
}
use pgiceberg.Common.Bytes.{Bytes}
use pgiceberg.Common.Int.{ℤ}
use pgiceberg.Status.{ok}
use pgiceberg.Schema.{PgType}
use pgiceberg.Schema.Columns.{LocalColumn}
use pgiceberg.Schema.Binding.{
  SchemaField, BoundField, column_of, bound_to, bind_to, bind_fields, is_matched, unmatched,
  check_field_ids,
}
use pgiceberg.Schema.Found.{In, check_field_ids-FoundById}

-- A column with the id of a field is the column of the field.
pub In-column_of :
    (local : List LocalColumn) (id : ℤ) (name : Bytes) (column : LocalColumn)
    → check_field_ids [] local ≡ ok tt
    → In column local
    → column.field_id ≡ some id
    → column_of local id name ≡ some column
unfolding column_of
In-column_of local id name column ids among e =
    let (found, _) = check_field_ids-FoundById [] local column id ids among e in
    rw (found, column_of) refl

any_of-or_inversion :
    {A : Type 0} (p : A → Bool) (a : A) (xs : List A)
    → any_of p (a ∷ xs) ≡ true
    → ((p a ≡ true) ⊎ (any_of p xs ≡ true))
any_of-or_inversion p a xs h = elim (Bool-cases (p a)) [ inl e ↦ inl e | inr e ↦ inr (rw (e) at h) ]

any_of-later :
    {A : Type 0} (p : A → Bool) (a : A) (xs : List A)
    → any_of p xs ≡ true
    → any_of p (a ∷ xs) ≡ true
any_of-later p a xs h = elim (Bool-cases (p a)) [ inl e ↦ rw (e) refl | inr e ↦ rw (e) h ]

All-iff :
    {A : Type 0} {P Q : A → Type 0} (xs : List A) → ((a : A) → P a ↔ Q a) → All P xs ↔ All Q xs
All-iff [] h = (λ _. tt, λ _. tt)
All-iff (a ∷ xs) h =
    let (there, back) = All-iff xs h in
    (λ (p, ps). ((h a).0 p, there ps), λ (q, qs). ((h a).1 q, back qs))

module _ (format_type : PgType → Bytes) {Literal : Type 0} where
  unmatched-empty :
      (fields : List (BoundField Literal)) (columns : List LocalColumn)
      → (unmatched format_type fields columns ≡ [])
        ↔ All (λ column. is_matched format_type fields column ≡ true) columns
  unfolding unmatched
  unmatched-empty fields [] = (λ _. tt, λ _. refl)
  unmatched-empty fields (column ∷ columns) =
      let (there, back) = unmatched-empty fields columns in
      elim (Bool-cases (is_matched format_type fields column)) [
        | inl e ↦ (λ h. (e, there (rw (e, unmatched) at h)), λ (_, m). rw (e, unmatched) (back m))
        | inr e ↦ (
          λ h.
              let wrong : column ∷ unmatched format_type fields columns ≡ [] =
                rw (e, unmatched) at h in
              absurd (cc),
          λ (m, _). absurd (cc),
        )
      ]

  -- A column of the table has the id of the field, and the attribute number of the given column.
  abbrev pub IsColumnOf : List LocalColumn → LocalColumn → SchemaField Literal → Type 0
  IsColumnOf local column field =
      (other : LocalColumn) × In other local
      × (other.field_id ≡ some field.field_id)
      × (other.attnum ≡ column.attnum)

  bound_attnum :
      (local : List LocalColumn) (field : SchemaField Literal) (other : LocalColumn)
      → check_field_ids [] local ≡ ok tt
      → In other local
      → other.field_id ≡ some field.field_id
      → (bind_to format_type field (column_of local field.field_id field.name)).attnum
        ≡ other.attnum
  unfolding bound_to
  bound_attnum local field other ids among id =
      ap (λ o. (bind_to format_type field o).attnum)
        (In-column_of local field.field_id field.name other ids among id)

  -- The fields have columns with their ids.
  abbrev pub HasColumn : List LocalColumn → SchemaField Literal → Type 0
  HasColumn local field =
      (other : LocalColumn) × In other local × (other.field_id ≡ some field.field_id)

  is_matched-IsColumnOf :
      (local : List LocalColumn) (fields : List (SchemaField Literal)) (column : LocalColumn)
      → check_field_ids [] local ≡ ok tt
      → All (HasColumn local) fields
      → is_matched format_type (bind_fields format_type local fields) column ≡ true
      → Any (IsColumnOf local column) fields
  unfolding bind_fields
  is_matched-IsColumnOf local [] column ids has m = absurd (cc)
  is_matched-IsColumnOf local (field ∷ fields) column ids ((other, among, id), has) m =
      elim (any_of-or_inversion (λ (f : BoundField Literal). f.attnum == column.attnum)
        (bind_to format_type field (column_of local field.field_id field.name))
        (bind_fields format_type local fields) m) [
          | inl e ↦ inl (
            other,
            among,
            id,
            sym (bound_attnum local field other ids among id) ∙ (==_iff _ column.attnum).0 e,
          )
          | inr later ↦ inr (is_matched-IsColumnOf local fields column ids has later)
        ]

  IsColumnOf-is_matched :
      (local : List LocalColumn) (fields : List (SchemaField Literal)) (column : LocalColumn)
      → check_field_ids [] local ≡ ok tt
      → Any (IsColumnOf local column) fields
      → is_matched format_type (bind_fields format_type local fields) column ≡ true
  unfolding bind_fields
  IsColumnOf-is_matched local [] column ids any = absurd (any)
  IsColumnOf-is_matched local (field ∷ fields) column ids (inl (other, among, id, same)) =
      let e : ((bind_to format_type field (column_of local field.field_id field.name)).attnum
            == column.attnum)
          ≡ true =
        (==_iff _ column.attnum).1 (bound_attnum local field other ids among id ∙ same) in
      rw (e) refl
  IsColumnOf-is_matched local (field ∷ fields) column ids (inr later) =
      any_of-later (λ (f : BoundField Literal). f.attnum == column.attnum)
        (bind_to format_type field (column_of local field.field_id field.name))
        (bind_fields format_type local fields) (IsColumnOf-is_matched local fields column ids later)

  -- No column is left over exactly if each has the attribute number of the column of some field.
  pub unmatched-IsColumnOf :
      (local columns : List LocalColumn) (fields : List (SchemaField Literal))
      → check_field_ids [] local ≡ ok tt
      → All (HasColumn local) fields
      → (unmatched format_type (bind_fields format_type local fields) columns ≡ [])
        ↔ All (λ column. Any (IsColumnOf local column) fields) columns
  unmatched-IsColumnOf local columns fields ids has =
      let (empty, back) = unmatched-empty (bind_fields format_type local fields) columns in
      let (there, here) =
        All-iff
          {P = λ column.
            is_matched format_type (bind_fields format_type local fields) column ≡ true}
          {Q = λ column. Any (IsColumnOf local column) fields} columns
          (λ column. (
            is_matched-IsColumnOf local fields column ids has,
            IsColumnOf-is_matched local fields column ids,
          )) in
      (λ h. there (empty h), λ a. back (here a))
