-- ===== src/Modify/Apply.antt =====
-- `Apply` and `NewDataFilePaths` of the pending changes of src/engine/modify_state.cc.
use pgiceberg.Common.{
  Bool, true, false, List, [], ◌∷◌, ◌++◌, Option, none, some, is_empty, any_of, if◌then◌else◌,
}
use pgiceberg.Common.Bytes.{Bytes, text, eqb}
use pgiceberg.Status.{IcebergResult, from_iceberg_result}
use pgiceberg.Exec.{Exec, pure, read, ◌>>◌}
use pgiceberg.Outside.{Outside, DataFile, Properties, RowDelta}
use pgiceberg.Modify.{Change, append, overwrite, row_delta}

abbrev has_key : Bytes → Properties → Bool
has_key key ps = any_of (λ p. eqb p.0 key) ps

-- `map::insert(first, last)`: an entry whose key is there already is not inserted.
unfoldable pub insert_all : Properties → Properties → Properties
insert_all ps [] = ps
insert_all ps ((k, v) ∷ rest) = insert_all (if has_key k ps then ps else ps ++ (k, v) ∷ []) rest

abbrev of_option : Option DataFile → List DataFile
of_option none = []
of_option (some f) = f ∷ []

-- `add_path` over the files in turn: a path that was seen is not added.
unfoldable pub add_paths : List Bytes → List DataFile → List Bytes
add_paths seen [] = seen
add_paths seen (f ∷ fs) =
    add_paths (if any_of (λ p. eqb p f.file_path) seen then seen else seen ++ f.file_path ∷ []) fs

unfoldable pub new_data_file_paths : Change → List Bytes
new_data_file_paths (append none _) = []
new_data_file_paths (append (some f) _) = f.file_path ∷ []
new_data_file_paths (overwrite _ none) = []
new_data_file_paths (overwrite _ (some f)) = f.file_path ∷ []
new_data_file_paths (row_delta added deletes _) = add_paths [] (of_option added ++ deletes)

-- The data files that the added delete files refer to.
unfoldable pub referenced_data_files : List DataFile → List Bytes
referenced_data_files [] = []
referenced_data_files (f ∷ fs) = elim f.referenced_data_file [
  | none ↦ referenced_data_files fs
  | some path ↦ path ∷ referenced_data_files fs
]

abbrev has_file : Option DataFile → Bool
has_file none = false
has_file (some f) = true

module _ {Table Transaction : Type 0} (o : Outside Table Transaction) where
  -- An update of the transaction in place: what the library leaves of it when the update fails is
  -- the library's.
  unfoldable pub commit_update :
      (Transaction → IcebergResult (Unit {0}) × Transaction) → Bytes → Exec Transaction (Unit {0})
  commit_update update context tx = let (r, tx') = update tx in (from_iceberg_result r context, tx')

  unfoldable pub apply_table_commit_properties : Properties → Exec Transaction (Unit {0})
  apply_table_commit_properties ps = if is_empty ps then pure tt else (do
    read (λ tx.
        from_iceberg_result (o.new_update_properties tx) (text "create commit property update"))
    commit_update (o.update_properties ps) (text "apply commit property update"))

  unfoldable pub append_file : Option DataFile → Properties → Exec Transaction (Unit {0})
  append_file none ps = pure tt
  append_file (some f) ps = do
    read (λ tx. from_iceberg_result (o.new_fast_append tx) (text "create append update"))
    commit_update (o.fast_append f ps) (text "apply pending Iceberg append")

  abbrev merged : Properties → Option Properties → Properties
  merged xact none = xact
  merged xact (some ps) = insert_all xact ps

  unfoldable pub row_delta_of :
      Option DataFile → List DataFile → List DataFile → Properties → Transaction → RowDelta
  row_delta_of added deletes removed ps tx = record {
    validate_from_snapshot = o.transaction_snapshot tx;
    added_rows = added;
    removed_deletes = removed;
    added_deletes = deletes;
    data_files_exist = referenced_data_files deletes;
    validate_deleted_files = has_file added;
    validate_no_conflicting_delete_files = has_file added;
    properties = ps;
  }

  unfoldable pub apply : Change → Properties → Exec Transaction (Unit {0})
  apply (append file ps) xact = do
    append_file file (merged xact ps)
    apply_table_commit_properties (merged xact ps)
  apply (overwrite deleted replacement) xact = do
    read (λ tx. from_iceberg_result (o.new_overwrite tx) (text "create overwrite update"))
    commit_update (o.overwrite deleted replacement xact) (text "apply pending Iceberg overwrite")
    apply_table_commit_properties xact
  apply (row_delta added deletes removed) xact = do
    read (λ tx. from_iceberg_result (o.new_row_delta tx) (text "create row delta update"))
    commit_update (λ tx. o.row_delta (row_delta_of added deletes removed xact tx) tx)
        (text "apply pending Iceberg row delta")
    apply_table_commit_properties xact
