-- ===== src/Options/Apply.antt =====
-- src/engine/options.cc: reading the options of a server and a foreign table into `Options`.
use pgiceberg.Common.{◌≡◌, false, List, [], ◌∷◌, some, arith, is_empty, if◌then◌else◌}
use pgiceberg.Common.Bytes.{Bytes, text, eqb}
use pgiceberg.Options.{Options, default_options}
use pgiceberg.Options.Parse.{is_valid_option, valid_options, parse_snapshot_id_option}
use pgiceberg.Status.{Result, ok, and_then}

-- A `DefElem` as its name and its text.
abbrev pub DefElem : Type 0
DefElem = Bytes × Bytes

unfoldable pub apply_option : Options → DefElem → Result Options
apply_option o (name, value) =
    if eqb name (text "catalog")
    then ok (record o { catalog = value })
    else if eqb name (text "catalog_type")
    then ok (record o { catalog_type = value })
    else if eqb name (text "catalog_uri")
    then ok (record o { catalog_uri = value })
    else if eqb name (text "warehouse")
    then ok (record o { warehouse = value })
    else if eqb name (text "catalog_name")
    then ok (record o { catalog_name = value })
    else if eqb name (text "namespace")
    then ok (record o { name_space = value })
    else if eqb name (text "table")
    then ok (record o { table = value })
    else if eqb name (text "snapshot_id")
    then and_then (parse_snapshot_id_option value) (λ id. ok (record o { snapshot_id = some id }))
    else ok o

unfoldable pub apply_options : Options → List DefElem → Result Options
apply_options o [] = ok o
apply_options o (d ∷ ds) = and_then (apply_option o d) λ o'. apply_options o' ds

-- `GetForeignTable` and `GetForeignServer` give the two lists.
unfoldable pub options_for_foreign_table : List DefElem → List DefElem → Bytes → Result Options
options_for_foreign_table server_options table_options relation_name =
    and_then (apply_options default_options server_options) λ o.
      and_then (apply_options o table_options)
        λ o'. ok (if is_empty o'.table then record o' { table = relation_name } else o')

-- A name that the validator refuses is one that has no effect: the two lists of names, in the
-- validator and in the reader, agree.
pub apply_option-invalid :
    (o : Options) (name value : Bytes)
    → is_valid_option name ≡ false
    → apply_option o (name, value) ≡ ok o
unfolding is_valid_option valid_options apply_option
apply_option-invalid o name value h = ground arith
