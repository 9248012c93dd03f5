-- ===== src/Schema/Bindings.antt =====
-- `LoadTableAmFieldIds`, `InsertColumnBindings` and `LoadBoundFieldId` of src/common/schema_binding.cc:
-- the rows that the table pgiceberg.column_bindings has for a relation.
use pgiceberg.Common.{ℕ, suc, Bool, true, false, List, [], ◌∷◌, Option, none, some, if◌then◌else◌}
use pgiceberg.Common.Bytes.{text}
use pgiceberg.Common.Int.{ℤ, pos}
use pgiceberg.Status.{
  Result, Status, ok, err, make_error, internal_error, null_value_not_allowed, and_then,
}
use pgiceberg.Exec.{Exec, pure, raise, read, ◌>>◌}
use pgiceberg.Schema.Columns.{RelationAttribute, find_field_id}

-- A row as SPI gives it: each column may be NULL.
pub record BindingRow : Type 0 where
  pub attnum : Option ℕ
  pub field_id : Option ℤ

-- `SPI_connect`: a new connection, the one of the caller, or a failure.
pub data Connect : Type 0 where
  connected nested refused : Connect

-- What SPI does for one relation, with the state of the database as `W`. `insert_binding` answers
-- whether it gave `SPI_OK_INSERT`.
pub record BindingTable (W : Type 0) : Type 0 where
  pub connect : W → Connect
  pub select_bindings : W → Option (List BindingRow)
  pub insert_binding : ℕ → ℤ → W → Bool × W

-- `field_ids[attnum] = field_id` for a row: a later row of the same column replaces an earlier one.
unfoldable pub put_field_id : BindingRow → List (ℕ × ℤ) → Result (List (ℕ × ℤ))
put_field_id row field_ids = elim row.attnum [
  | none ↦
      err (make_error null_value_not_allowed (text "pgiceberg column binding contains NULL") [])
  | some attnum ↦ (elim row.field_id [
    | none ↦
        err (make_error null_value_not_allowed (text "pgiceberg column binding contains NULL") [])
    | some id ↦ ok ((attnum, id) ∷ field_ids)
  ])
]

unfoldable pub put_field_ids : List (ℕ × ℤ) → List BindingRow → Result (List (ℕ × ℤ))
put_field_ids field_ids [] = ok field_ids
put_field_ids field_ids (row ∷ rows) =
    and_then (put_field_id row field_ids) (λ ids. put_field_ids ids rows)

abbrev pub rows_of : Option (List BindingRow) → Result (List BindingRow)
rows_of none = err (make_error internal_error (text "could not read pgiceberg column bindings") [])
rows_of (some rows) = ok rows

abbrev pub check_connect : Connect → Status
check_connect connected = ok tt
check_connect nested = ok tt
check_connect refused =
    err (make_error internal_error (text "could not connect to PostgreSQL SPI") [])

module _ {W : Type 0} (x : BindingTable W) where
  -- `LoadTableAmFieldIds`
  unfoldable pub load_table_am_field_ids : W → Result (List (ℕ × ℤ))
  load_table_am_field_ids w =
      and_then (check_connect (x.connect w))
        λ _. and_then (rows_of (x.select_bindings w)) (put_field_ids [])

  -- `LoadBoundFieldId`
  unfoldable pub load_bound_field_id : W → ℕ → Result (Option ℤ)
  load_bound_field_id w attnum =
      and_then (load_table_am_field_ids w) (λ ids. ok (find_field_id attnum ids))

  abbrev pub inserted : Bool → Exec W (Unit {0})
  inserted true = pure tt
  inserted false =
      raise (make_error internal_error (text "could not insert pgiceberg column binding") [])

  -- One execution of the `INSERT`.
  unfoldable pub insert_binding_row : ℕ → ℤ → Exec W (Unit {0})
  insert_binding_row attnum id w = let (done, w') = x.insert_binding attnum id w in inserted done w'

  -- The loop over the attributes, from field id `suc n`.
  unfoldable pub insert_bindings_from : ℕ → List RelationAttribute → Exec W (Unit {0})
  insert_bindings_from n [] = pure tt
  insert_bindings_from n (attr ∷ attrs) =
      if attr.is_dropped
      then insert_bindings_from n attrs
      else (insert_binding_row attr.attnum (pos (suc n)) >> insert_bindings_from (suc n) attrs)

  -- `InsertColumnBindings`
  unfoldable pub insert_column_bindings : List RelationAttribute → Exec W (Unit {0})
  insert_column_bindings attrs =
      read (λ w. check_connect (x.connect w)) >> insert_bindings_from 0 attrs
