-- ===== src/Schema/Json.antt =====
-- `SchemaChangeKindName`, `JsonEscape` and `SchemaChangesToJson` of src/common/schema_binding.cc.
use pgiceberg.Common.{
  ℕ, List, [], ◌∷◌, ◌++◌, Option, none, some, ltb, ◌/◌, ◌%◌, ◌+◌, ◌==◌, if◌then◌else◌,
}
use pgiceberg.Common.Bytes.{Bytes, text}
use pgiceberg.Common.Decimal.{print_int}
use pgiceberg.Common.Int.{ℤ}
use pgiceberg.Schema.Diff.{
  SchemaChange, SchemaChangeKind, added, dropped, renamed, type_changed, incompatible,
  missing_field_id,
}

unfoldable pub schema_change_kind_name : SchemaChangeKind → Bytes
schema_change_kind_name added = text "added"
schema_change_kind_name dropped = text "dropped"
schema_change_kind_name renamed = text "renamed"
schema_change_kind_name type_changed = text "type_changed"
schema_change_kind_name incompatible = text "incompatible"
schema_change_kind_name missing_field_id = text "missing_field_id"

abbrev pub low_hex : ℕ → ℕ
low_hex n = if ltb n 10 then 48 + n else 87 + n

-- The text of a byte inside a JSON string; a control character below 32 is `\u00` and two hexadecimal digits.
unfoldable pub escape_byte : ℕ → Bytes
escape_byte ch =
    if ch == 34
    then 92 ∷ 34 ∷ []
    else if ch == 92
    then 92 ∷ 92 ∷ []
    else if ch == 10
    then 92 ∷ 110 ∷ []
    else if ch == 13
    then 92 ∷ 114 ∷ []
    else if ch == 9
    then 92 ∷ 116 ∷ []
    else if ltb ch 32
    then 92 ∷ 117 ∷ 48 ∷ 48 ∷ low_hex (ch / 16) ∷ low_hex (ch % 16) ∷ []
    else ch ∷ []

unfoldable pub escape_json : Bytes → Bytes
escape_json [] = []
escape_json (ch ∷ value) = escape_byte ch ++ escape_json value

abbrev pub json_string : Option Bytes → Bytes
json_string none = text "null"
json_string (some value) = 34 ∷ (escape_json value ++ (34 ∷ []))

abbrev pub json_int : Option ℤ → Bytes
json_int none = text "null"
json_int (some value) = print_int value

unfoldable pub change_json : SchemaChange → Bytes
change_json change =
    text "{\"change\":\""
    ++ (schema_change_kind_name change.kind
        ++ (text "\",\"local_column\":"
            ++ (json_string change.local_column
                ++ (text ",\"local_type\":"
                    ++ (json_string change.local_type
                        ++ (text ",\"iceberg_field_id\":"
                            ++ (json_int change.iceberg_field_id
                                ++ (text ",\"iceberg_name\":"
                                    ++ (json_string change.iceberg_name
                                        ++ (text ",\"iceberg_type\":"
                                            ++ (json_string change.iceberg_type
                                                ++ (text ",\"detail\":\""
                                                    ++ (escape_json change.detail
                                                        ++ text "\"}")))))))))))))

unfoldable pub more_changes_json : List SchemaChange → Bytes
more_changes_json [] = text "]"
more_changes_json (change ∷ changes) = 44 ∷ (change_json change ++ more_changes_json changes)

unfoldable pub schema_changes_to_json : List SchemaChange → Bytes
schema_changes_to_json [] = text "[]"
schema_changes_to_json (change ∷ changes) = 91 ∷ (change_json change ++ more_changes_json changes)
