-- ===== src/Schema/Inserted.antt =====
-- What `InsertColumnBindings` of src/common/schema_binding.cc leaves in pgiceberg.column_bindings.
use pgiceberg.Common.{
  ℕ, suc, ◌≡◌, refl, sym, ap, ◌∙◌, Bool, true, false, List, [], ◌∷◌, ◌++◌, some, Bool-cases, inl,
  inr,
}
use pgiceberg.Common.Bytes.{Bytes}
use pgiceberg.Common.Int.{ℤ, pos}
use pgiceberg.Status.{ok, is_ok}
use pgiceberg.Exec.{read, bind_inversion, read_inversion}
use pgiceberg.Schema.{PgType}
use pgiceberg.Schema.Columns.{RelationAttribute, load_local_columns}
use pgiceberg.Schema.Bindings.{
  BindingRow, BindingTable, check_connect, load_table_am_field_ids, inserted, insert_binding_row,
  insert_bindings_from, insert_column_bindings,
}
use pgiceberg.Schema.Binding.{SchemaField, bind_schema}
use pgiceberg.Schema.FieldIds.{
  row, numbered_columns, rows_from, HasDistinctAttnums, put_field_ids-rows_from,
  columns_of-ids_from, check_field_ids-numbered_columns,
}

append_cons :
    {A : Type 0} (xs : List A) (x : A) (ys : List A) → (xs ++ (x ∷ [])) ++ ys ≡ xs ++ (x ∷ ys)
append_cons [] x ys = refl
append_cons (z ∷ xs) x ys = ap (λ l. z ∷ l) (append_cons xs x ys)

append_nil : {A : Type 0} (xs : List A) → xs ++ [] ≡ xs
append_nil [] = refl
append_nil (x ∷ xs) = ap (λ l. x ∷ l) (append_nil xs)

module _ {W : Type 0} (x : BindingTable W) where
  -- What PostgreSQL does with the `INSERT`: the rows of the relation get one more.
  abbrev pub HasInserts : Type 0
  HasInserts =
      (attnum : ℕ) (id : ℤ) (w w' : W) (rows : List BindingRow)
      → x.insert_binding attnum id w ≡ (true, w')
      → x.select_bindings w ≡ some rows
      → x.select_bindings w' ≡ some (rows ++ (row attnum id ∷ []))

  inserted-true :
      (done : Bool) (w w' : W) → inserted x done w ≡ (ok tt, w') → (done ≡ true) × (w ≡ w')
  inserted-true true w w' h = (refl, ap (λ r. r.1) h)
  inserted-true false w w' h = let differ : false ≡ true = ap (λ r. is_ok r.0) h in absurd (cc)

  insert_binding_row-rows :
      HasInserts
      → (attnum : ℕ) (id : ℤ) (w w' : W) (rows : List BindingRow)
      → insert_binding_row x attnum id w ≡ (ok tt, w')
      → x.select_bindings w ≡ some rows
      → x.select_bindings w' ≡ some (rows ++ (row attnum id ∷ []))
  unfolding insert_binding_row
  insert_binding_row-rows inserts attnum id w w' rows h s =
      let (done, same) =
        inserted-true (x.insert_binding attnum id w).0 (x.insert_binding attnum id w).1 w' h in
      let answer : x.insert_binding attnum id w ≡ (true, w') = λ i. (done i, same i) in
      inserts attnum id w w' rows answer s

  insert_bindings_from-rows_from :
      HasInserts
      → (n : ℕ) (attrs : List RelationAttribute) (w w' : W) (rows : List BindingRow)
      → insert_bindings_from x n attrs w ≡ (ok tt, w')
      → x.select_bindings w ≡ some rows
      → x.select_bindings w' ≡ some (rows ++ rows_from n attrs)
  unfolding insert_bindings_from rows_from
  insert_bindings_from-rows_from inserts n [] w w' rows h s =
      ap x.select_bindings (sym (ap (λ r. r.1) h)) ∙ s ∙ ap some (sym (append_nil rows))
  insert_bindings_from-rows_from inserts n (attr ∷ attrs) w w' rows h s =
      elim (Bool-cases attr.is_dropped) [
        | inl e ↦
            rw (e, rows_from)
              (insert_bindings_from-rows_from inserts n attrs w w' rows
                (rw (e, insert_bindings_from) at h) s)
        | inr e ↦
            let (_, t, first, rest) =
              bind_inversion (insert_binding_row x attr.attnum (pos (suc n)))
                (λ _. insert_bindings_from x (suc n) attrs) w w' tt
                (rw (e, insert_bindings_from) at h) in
            let after =
              insert_binding_row-rows inserts attr.attnum (pos (suc n)) w t rows first s in
            rw (e, rows_from)
              (insert_bindings_from-rows_from inserts (suc n) attrs t w' _ rest after
                ∙ ap some
                    (append_cons rows (row attr.attnum (pos (suc n))) (rows_from (suc n) attrs)))
      ]

  insert_column_bindings-rows_from :
      HasInserts
      → (attrs : List RelationAttribute) (w w' : W) → insert_column_bindings x attrs w ≡ (ok tt, w')
      → x.select_bindings w ≡ some []
      → x.select_bindings w' ≡ some (rows_from 0 attrs)
  unfolding insert_column_bindings
  insert_column_bindings-rows_from inserts attrs w w' h s =
      let (_, t, checked, run) =
        bind_inversion (read (λ w. check_connect (x.connect w)))
          (λ _. insert_bindings_from x 0 attrs) w w' tt h in
      let (_, same) = read_inversion (λ w. check_connect (x.connect w)) tt w t checked in
      insert_bindings_from-rows_from inserts 0 attrs t w' [] run
        (ap x.select_bindings (sym same) ∙ s)

  -- `InsertColumnBindings` on a relation with no rows, when it succeeds, gives the k-th column that
  -- is not dropped the field id k, as `LoadLocalColumns` then reads it, and `BindSchema` accepts these
  -- columns for every Iceberg schema. The attribute numbers differ, a row that is inserted is a row
  -- of the relation, and SPI can be used.
  pub load_local_columns-insert_column_bindings :
      {Literal : Type 0} (format_type : PgType → Bytes) (fields : List (SchemaField Literal))
      (attrs : List RelationAttribute) (w w' : W)
      → HasInserts
      → HasDistinctAttnums attrs
      → insert_column_bindings x attrs w ≡ (ok tt, w')
      → x.select_bindings w ≡ some []
      → check_connect (x.connect w') ≡ ok tt
      → (load_local_columns false (load_table_am_field_ids x w') attrs
          ≡ ok (numbered_columns 0 attrs))
        × (is_ok (bind_schema format_type (numbered_columns 0 attrs) fields) ≡ true)
  unfolding load_local_columns load_table_am_field_ids bind_schema
  load_local_columns-insert_column_bindings format_type fields attrs w w' inserts differ h s c =
      let rows = insert_column_bindings-rows_from inserts attrs w w' h s in
      let fresh = check_field_ids-numbered_columns [] 0 attrs (λ m le. refl) in
      (
        rw (c, rows)
            (rw (put_field_ids-rows_from [] 0 attrs)
              (ap ok (columns_of-ids_from [] 0 attrs differ))),
        rw (fresh) refl,
      )
