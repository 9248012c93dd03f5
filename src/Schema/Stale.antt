-- ===== src/Schema/Stale.antt =====
-- Which columns `RefreshForeignTable` of src/functions/schema.cc may drop.
use pgiceberg.Common.{
  Option-cases, ℕ, ◌≡◌, refl, sym, ap, subst, ◌∙◌, Bool, true, false, not, List, [], ◌∷◌, ◌++◌,
  some, All, ◌==◌, ◌⊎◌, Bool-cases, inl, inr, arith, if◌then◌else◌,
}
use pgiceberg.Common.Bytes.{Bytes}
use pgiceberg.Common.Int.{ℤ, eq_ℤ, eq_ℤ_iff}
use pgiceberg.Status.{ok, and_then_inversion, ok_injective}
use pgiceberg.Schema.{PgType}
use pgiceberg.Schema.Columns.{LocalColumn}
use pgiceberg.Schema.Binding.{
  SchemaField, BoundField, SchemaBinding, find_by_field_id, column_of, check_field_ids, bound_to,
  bind_to, bind_fields, is_matched, unmatched, bind_schema,
}
use pgiceberg.Schema.Diff.{
  SchemaChange, added_change, change_of_local, changes_of_locals, field_change, type_changes,
  name_changes, id_changes, is_unbound, changes_of_field, changes_of_fields, diff_schema,
}
use pgiceberg.Schema.Refresh.{is_dropped_change}
use pgiceberg.Schema.Found.{In, check_field_ids-FoundById}

true_not_false : ¬ (true ≡ false)
true_not_false h = absurd (cc)

both_false : (b r : Bool) → (if b then true else r) ≡ false → (b ≡ false) × (r ≡ false)
both_false true r h = absurd (true_not_false h)
both_false false r h = (refl, h)

same_number : (n : ℕ) → (n == n) ≡ true
same_number n = ground arith

All-map :
    {A : Type 0} {P Q : A → Type 0} (f : (a : A) → P a → Q a) (xs : List A) → All P xs → All Q xs
All-map f [] h = tt
All-map f (x ∷ xs) (p, h) = (f x p, All-map f xs h)

All-append : {A : Type 0} (P : A → Type 0) (xs ys : List A) → All P xs → All P ys → All P (xs ++ ys)
All-append P [] ys h k = k
All-append P (x ∷ xs) ys (p, h) k = (p, All-append P xs ys h k)

All-if :
    {A : Type 0} (P : A → Type 0) (b : Bool) (xs ys : List A)
    → All P xs
    → All P ys
    → All P (if b then xs else ys)
All-if P true xs ys h k = h
All-if P false xs ys h k = k

All-In : (columns : List LocalColumn) → All (λ column. In column columns) columns
All-In [] = tt
All-In (column ∷ columns) = (inl refl, All-map (λ c h. inr h) columns (All-In columns))

module _ {Literal : Type 0} where
  -- A change that drops a column drops a local one whose field id is that of no field.
  abbrev pub DropsStale : List LocalColumn → List (SchemaField Literal) → SchemaChange → Type 0
  DropsStale local fields change =
      (is_dropped_change change.kind ≡ false)
      ⊎ ((column : LocalColumn) × (id : ℤ) × In column local
          × (change.local_column ≡ some column.name)
          × (column.field_id ≡ some id)
          × All (λ field. eq_ℤ field.field_id id ≡ false) fields)

abbrev Kept : SchemaChange → Type 0
Kept change = is_dropped_change change.kind ≡ false

module _ (format_type : PgType → Bytes) {Literal : Type 0} where
  bound_attnum :
      (local : List LocalColumn) (field : SchemaField Literal) (column : LocalColumn) (id : ℤ)
      → find_by_field_id id local ≡ some column
      → field.field_id ≡ id
      → ((bind_to format_type field (column_of local field.field_id field.name)).attnum
          == column.attnum)
        ≡ true
  unfolding column_of bound_to
  bound_attnum local field column id found same =
      let at_id : find_by_field_id field.field_id local ≡ some column =
        ap (λ i. find_by_field_id i local) same ∙ found in
      rw (at_id, column_of) (same_number column.attnum)

  -- A column that is bound to no field has an id that no field has.
  unmatched-absent :
      (local : List LocalColumn) (fields : List (SchemaField Literal)) (column : LocalColumn)
      (id : ℤ)
      → find_by_field_id id local ≡ some column
      → is_matched format_type (bind_fields format_type local fields) column ≡ false
      → All (λ field. eq_ℤ field.field_id id ≡ false) fields
  unfolding bind_fields
  unmatched-absent local [] column id found h = tt
  unmatched-absent local (field ∷ fields) column id found h =
      let (head, rest) =
        both_false
          ((bind_to format_type field (column_of local field.field_id field.name)).attnum
            == column.attnum)
          _ h in
      (
        elim (Bool-cases (eq_ℤ field.field_id id)) [
          | inl e ↦ absurd (
              true_not_false (
                sym (bound_attnum local field column id found ((eq_ℤ_iff field.field_id id).0 e))
                ∙ head))
          | inr e ↦ e
        ],
        unmatched-absent local fields column id found rest,
      )

  changes_of_field-Kept :
      (field : BoundField Literal) → All Kept (changes_of_field format_type field)
  unfolding changes_of_field type_changes name_changes id_changes added_change field_change
  changes_of_field-Kept field =
      All-if Kept (is_unbound field) _ _ (refl, tt)
        (All-append Kept (type_changes format_type field) _
          (All-if Kept (not field.readable) _ _ (refl, tt)
            (All-if Kept field.type_changed _ _ (refl, tt) tt))
          (All-append Kept (name_changes format_type field) _
            (All-if Kept field.renamed _ _ (refl, tt) tt)
            (All-if Kept (not field.had_field_id) _ _ (refl, tt) tt)))

  changes_of_fields-Kept :
      (fields : List (BoundField Literal)) → All Kept (changes_of_fields format_type fields)
  unfolding changes_of_fields
  changes_of_fields-Kept [] = tt
  changes_of_fields-Kept (field ∷ fields) =
      All-append Kept (changes_of_field format_type field) _ (changes_of_field-Kept field)
        (changes_of_fields-Kept fields)

  -- A column of the table that no field is bound to.
  abbrev LeftOver : List LocalColumn → List (BoundField Literal) → LocalColumn → Type 0
  LeftOver local bound column = In column local × (is_matched format_type bound column ≡ false)

  unmatched-LeftOver :
      (local : List LocalColumn) (bound : List (BoundField Literal)) (columns : List LocalColumn)
      → All (λ column. In column local) columns
      → All (LeftOver local bound) (unmatched format_type bound columns)
  unfolding unmatched
  unmatched-LeftOver local bound [] h = tt
  unmatched-LeftOver local bound (column ∷ columns) (among, h) =
      let rest = unmatched-LeftOver local bound columns h in
      elim (Bool-cases (is_matched format_type bound column)) [
        | inl e ↦ rw (e, unmatched) rest
        | inr e ↦ rw (e, unmatched) ((among, e), rest)
      ]

  change_of_local-DropsStale :
      (local : List LocalColumn) (fields : List (SchemaField Literal)) (column : LocalColumn)
      → check_field_ids [] local ≡ ok tt
      → LeftOver local (bind_fields format_type local fields) column
      → DropsStale local fields (change_of_local format_type column)
  unfolding change_of_local
  change_of_local-DropsStale local fields column h (among, left) =
      elim (Option-cases column.field_id) [
        | inl e ↦ inl (rw (e) refl)
        | inr (id, e) ↦
            let (found, _) = check_field_ids-FoundById [] local column id h among e in
            inr (
              column,
              id,
              among,
              rw (e) refl,
              e,
              unmatched-absent local fields column id found left,
            )
      ]

  changes_of_locals-DropsStale :
      (local : List LocalColumn) (fields : List (SchemaField Literal)) (columns : List LocalColumn)
      → check_field_ids [] local ≡ ok tt
      → All (LeftOver local (bind_fields format_type local fields)) columns
      → All (DropsStale local fields) (changes_of_locals format_type columns)
  unfolding changes_of_locals
  changes_of_locals-DropsStale local fields [] h k = tt
  changes_of_locals-DropsStale local fields (column ∷ columns) h (left, k) = (
    change_of_local-DropsStale local fields column h left,
    changes_of_locals-DropsStale local fields columns h k,
  )

  -- Of the changes that `DiffSchema` reports on what `BindSchema` answered, one that drops a column
  -- drops a column of the table with a field id that no field of the Iceberg schema has.
  pub diff_schema-DropsStale :
      (local : List LocalColumn) (fields : List (SchemaField Literal))
      (binding : SchemaBinding Literal)
      → bind_schema format_type local fields ≡ ok binding
      → All (DropsStale local fields) (diff_schema format_type binding)
  unfolding bind_schema diff_schema
  diff_schema-DropsStale local fields binding h =
      let bound = bind_fields format_type local fields in
      let (_, fresh, e) =
        and_then_inversion (check_field_ids [] local)
          (λ _. ok (record { fields = bound; unmatched_local = unmatched format_type bound local }))
          binding h in
      subst (λ b. All (DropsStale local fields) (diff_schema format_type b)) (ok_injective e)
        (All-append (DropsStale local fields) (changes_of_fields format_type bound) _
          (All-map (λ c k. inl k) _ (changes_of_fields-Kept bound))
          (changes_of_locals-DropsStale local fields _ fresh
            (unmatched-LeftOver local bound local (All-In local))))
