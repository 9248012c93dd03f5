-- ===== src/Schema/Refresh.antt =====
-- `ExecuteSql` and `RefreshForeignTable` of src/functions/schema.cc.
use pgiceberg.Common.{Bool, true, false, List, [], ◌∷◌, ◌++◌, none, some, if◌then◌else◌}
use pgiceberg.Common.Bytes.{Bytes, text}
use pgiceberg.Common.Decimal.{print_int}
use pgiceberg.Common.Int.{ℤ, pos, negsuc}
use pgiceberg.Status.{make_error, internal_error}
use pgiceberg.Exec.{Exec, pure, raise, read, ◌>>=◌, ◌>>◌}
use pgiceberg.Schema.Types.{iceberg_type_to_sql}
use pgiceberg.Schema.Columns.{field_id_option}
use pgiceberg.Schema.Binding.{BoundField, SchemaBinding}
use pgiceberg.Schema.Bindings.{Connect, check_connect}
use pgiceberg.Schema.Diff.{SchemaChange, SchemaChangeKind, added, dropped, renamed, is_unbound}

-- The database that runs the statements, with its state as `W`; `spi_execute` answers the code of
-- `SPI_execute`.
pub record Session (W : Type 0) : Type 0 where
  pub connect : W → Connect
  pub spi_execute : Bytes → W → ℤ × W
  pub quote_identifier : Bytes → Bytes

abbrev pub is_dropped_change : SchemaChangeKind → Bool
is_dropped_change dropped = true
is_dropped_change other = false

abbrev pub is_renamed_change : SchemaChangeKind → Bool
is_renamed_change renamed = true
is_renamed_change other = false

abbrev pub is_added_change : SchemaChangeKind → Bool
is_added_change added = true
is_added_change other = false

unfoldable pub for_each : {W A : Type 0} → (A → Exec W (Unit {0})) → List A → Exec W (Unit {0})
for_each f [] = pure tt
for_each f (a ∷ rest) = f a >> for_each f rest

module _ {W : Type 0} (x : Session W) where
  abbrev pub check_sql : Bytes → ℤ → Exec W (Unit {0})
  check_sql sql (pos n) = pure tt
  check_sql sql (negsuc n) =
      raise (make_error internal_error (text "could not apply schema refresh SQL: " ++ sql) [])

  abbrev pub run_sql : Bytes → Exec W (Unit {0})
  run_sql sql w = let (code, w') = x.spi_execute sql w in check_sql sql code w'

  -- `ExecuteSql`
  unfoldable pub execute_sql : Bytes → Exec W (Unit {0})
  execute_sql sql = read (λ w. check_connect (x.connect w)) >> run_sql sql

module _ {W : Type 0} (x : Session W) (qualified : Bytes) where
  abbrev pub alter_foreign_table_sql : Bytes
  alter_foreign_table_sql = text "ALTER FOREIGN TABLE " ++ qualified

  unfoldable pub drop_column : SchemaChange → Exec W (Unit {0})
  drop_column change = elim change.local_column [
    | none ↦ pure tt
    | some column ↦
        (if is_dropped_change change.kind
          then execute_sql x
              (alter_foreign_table_sql ++ (text " DROP COLUMN " ++ x.quote_identifier column))
          else pure tt)
  ]

  abbrev pub rename_sql : Bytes → Bytes → Bytes
  rename_sql column name =
      alter_foreign_table_sql
      ++ (text " RENAME COLUMN "
          ++ (x.quote_identifier column ++ (text " TO " ++ x.quote_identifier name)))

  unfoldable pub rename_column : SchemaChange → Exec W (Unit {0})
  rename_column change = elim change.local_column [
    | none ↦ pure tt
    | some column ↦ (elim change.iceberg_name [
      | none ↦ pure tt
      | some name ↦
          (if is_renamed_change change.kind
            then execute_sql x (rename_sql column name)
            else pure tt)
    ])
  ]

  abbrev pub options_sql : Bytes → ℤ → Bytes
  options_sql action id =
      text " OPTIONS ("
      ++ (action ++ (field_id_option ++ (text " '" ++ (print_int id ++ text "')"))))

  abbrev pub add_sql : Bytes → Bytes → ℤ → Bytes
  add_sql name type id =
      alter_foreign_table_sql
      ++ (text " ADD COLUMN "
          ++ (x.quote_identifier name ++ (text " " ++ (type ++ options_sql [] id))))

  unfoldable pub add_column : SchemaChange → Exec W (Unit {0})
  add_column change = elim change.iceberg_name [
    | none ↦ pure tt
    | some name ↦ (elim change.iceberg_type [
      | none ↦ pure tt
      | some type ↦ (elim change.iceberg_field_id [
        | none ↦ pure tt
        | some id ↦
            (if is_added_change change.kind then execute_sql x (add_sql name type id) else pure tt)
      ])
    ])
  ]

  module _ {Literal : Type 0} where
    unfoldable pub column_name_after_rename : BoundField Literal → Bytes
    column_name_after_rename field = if field.renamed then field.iceberg_name else field.local_name

    abbrev pub alter_column_sql : BoundField Literal → Bytes
    alter_column_sql field =
        alter_foreign_table_sql
        ++ (text " ALTER COLUMN " ++ x.quote_identifier (column_name_after_rename field))

    unfoldable pub alter_type : BoundField Literal → Exec W (Unit {0})
    alter_type field =
        if is_unbound field
        then pure tt
        else if field.type_changed
        then (read (λ w. iceberg_type_to_sql field.iceberg_type) >>= λ sql_type.
            execute_sql x (alter_column_sql field ++ (text " TYPE " ++ sql_type)))
        else pure tt

    abbrev pub action_of : BoundField Literal → Bytes
    action_of field = if field.had_field_id then text "SET " else text "ADD "

    unfoldable pub set_field_id : BoundField Literal → Exec W (Unit {0})
    set_field_id field =
        if is_unbound field
        then pure tt
        else execute_sql x (alter_column_sql field ++ options_sql (action_of field) field.field_id)

    -- `RefreshForeignTable`
    unfoldable pub refresh_foreign_table :
        List SchemaChange → SchemaBinding Literal → Exec W (Unit {0})
    refresh_foreign_table changes binding = do
      for_each drop_column changes
      for_each rename_column changes
      for_each alter_type binding.fields
      for_each set_field_id binding.fields
      for_each add_column changes
