-- ===== src/Recovery/Json.antt =====
-- src/engine/commit_recovery.cc: a record as JSON, for the SQL functions.
use pgiceberg.Common.{
  ℕ, ◌≡◌, refl, Bool, true, false, List, [], ◌∷◌, ◌++◌, Option, none, some, arith, ◌==◌, ltb, ◌≤◌,
  ◌⊎◌, All, if◌then◌else◌,
}
use pgiceberg.Common.Bytes.{Bytes, text}
use pgiceberg.Common.Decimal.{print_int}
use pgiceberg.Common.Int.{ℤ}
use pgiceberg.Recovery.{CommitRecoveryTable, CommitRecoveryRecord}

-- What stands for one character.
unfoldable pub json_escape_char : ℕ → Bytes
json_escape_char c =
    if c == 92
    then 92 ∷ 92 ∷ []
    else if c == 34
    then 92 ∷ 34 ∷ []
    else if c == 10
    then 92 ∷ 110 ∷ []
    else if c == 13
    then 92 ∷ 114 ∷ []
    else if c == 9
    then 92 ∷ 116 ∷ []
    else c ∷ []

unfoldable pub json_escape : Bytes → Bytes
unfolding json_escape_char
json_escape [] = []
json_escape (c ∷ cs) = json_escape_char c ++ json_escape cs

-- `rest` is what is written after it.
unfoldable pub append_json_string : Bytes → Bytes → Bytes → Bytes
append_json_string key value rest = 34 ∷ key ++ text "\":\"" ++ json_escape value ++ 34 ∷ rest

unfoldable pub append_json_optional_int : Bytes → Option ℤ → Bytes → Bytes
append_json_optional_int key none rest = 34 ∷ key ++ text "\":" ++ text "null" ++ rest
append_json_optional_int key (some n) rest = 34 ∷ key ++ text "\":" ++ print_int n ++ rest

unfoldable pub table_json : CommitRecoveryTable → Bytes → Bytes
table_json t rest =
    123
    ∷ append_json_string (text "catalog") t.options.catalog (
        44
        ∷ append_json_string (text "namespace") t.options.name_space (
            44
            ∷ append_json_string (text "table") t.options.table (
                44
                ∷ append_json_optional_int (text "base_snapshot_id") t.base_snapshot_id (
                    44
                    ∷ append_json_optional_int (text "committed_snapshot_id")
                        t.committed_snapshot_id
                        (44
                          ∷ append_json_string (text "iceberg_state") t.iceberg_state
                              (125 ∷ rest))))))

-- The tables behind the first, each after a comma.
unfoldable more_tables_json : List CommitRecoveryTable → Bytes → Bytes
more_tables_json [] rest = rest
more_tables_json (t ∷ ts) rest = 44 ∷ table_json t (more_tables_json ts rest)

unfoldable tables_json : List CommitRecoveryTable → Bytes → Bytes
unfolding more_tables_json
tables_json [] rest = rest
tables_json (t ∷ ts) rest = table_json t (more_tables_json ts rest)

unfoldable pub commit_recovery_record_json : CommitRecoveryRecord → Bytes
unfolding tables_json
commit_recovery_record_json r =
    123
    ∷ append_json_string (text "commit_id") r.commit_id (
        44
        ∷ append_json_string (text "postgres_xid") r.postgres_xid (
            44
            ∷ append_json_string (text "state") r.state (
                text ",\"created_at_unix_micros\":"
                ++ print_int r.created_at_unix_micros
                ++ text ",\"tables\":["
                ++ tables_json r.tables (text "]}"))))

-- What a two-character escape stands for.
abbrev pub unescape : ℕ → Option ℕ
unescape c =
    if c == 92
    then some 92
    else if c == 34
    then some 34
    else if c == 110
    then some 10
    else if c == 114
    then some 13
    else if c == 116
    then some 9
    else none

-- A reader of a JSON string's body: the characters up to the closing quote, and what follows it. A
-- byte below 32 may stand in such a string in an escape only.
abbrev put_char : ℕ → Option (Bytes × Bytes) → Option (Bytes × Bytes)
put_char c none = none
put_char c (some (s, rest)) = some (c ∷ s, rest)

abbrev put_escaped : Option ℕ → Option (Bytes × Bytes) → Option (Bytes × Bytes)
put_escaped none r = none
put_escaped (some c) r = put_char c r

-- The flag says that the byte before was an escaping backslash.
unfoldable pub read_json_body : Bool → Bytes → Option (Bytes × Bytes)
read_json_body escaped [] = none
read_json_body true (c ∷ cs) = put_escaped (unescape c) (read_json_body false cs)
read_json_body false (c ∷ cs) = elim (c == 34) [
  | true ↦ some ([], cs)
  | false ↦ elim (c == 92) [
    | true ↦ read_json_body true cs
    | false ↦ elim (ltb c 32) [ true ↦ none | false ↦ put_char c (read_json_body false cs) ]
  ]
]

-- A byte that `JsonEscape` writes as JSON allows: no control byte but the tab and the two line ends.
abbrev pub IsPlain : ℕ → Type 0
IsPlain c = (32 ≤ c) ⊎ ((c ≡ 9) ⊎ ((c ≡ 10) ⊎ (c ≡ 13)))

-- A value written as a JSON string is read back whole, and up to its closing quote, if its bytes below
-- 32 are tabs, line feeds and carriage returns.
pub read_json_body-json_escape :
    (value rest : Bytes)
    → All IsPlain value
    → read_json_body false (json_escape value ++ 34 ∷ rest) ≡ some (value, rest)
unfolding read_json_body json_escape json_escape_char
read_json_body-json_escape [] rest plain = refl
read_json_body-json_escape (c ∷ cs) rest (p, ps) =
    let later = read_json_body-json_escape cs rest ps in ground (arith, later, p)
