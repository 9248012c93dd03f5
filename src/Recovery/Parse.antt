-- ===== src/Recovery/Parse.antt =====
-- `DecodeField`, `ExpectToken`, `ReadOptionalSnapshotId` and `ParseRecord` of
-- src/engine/commit_recovery.cc.
use pgiceberg.Common.{
  ℕ, zero, suc, ◌^◌, ◌&&◌, List, [], ◌∷◌, Option, none, some, ltb, ◌==◌, if◌then◌else◌,
}
use pgiceberg.Common.Bytes.{Bytes, text, eqb}
use pgiceberg.Common.Int.{ℤ, pos, eq_ℤ}
use pgiceberg.Options.{default_options}
use pgiceberg.Status.{Result, ok, err, make_error, data_exception}
use pgiceberg.Recovery.{CommitRecoveryTable, CommitRecoveryRecord}
use pgiceberg.Recovery.Stream.{read_token, read_size, read_signed, read_bytes, stoll}
use pgiceberg.Recovery.Format.{log_magic}

-- A function over the stream: what it returns, and the bytes that are left.
abbrev pub Reader : Type 0 → Type 0
Reader A = Bytes → Result (A × Bytes)

infixl 5 ◌>>=◌ ◌>>◌
unfoldable pub ◌>>=◌ : {A B : Type 0} → Reader A → (A → Reader B) → Reader B
◌>>=◌ m f input = elim (m input) [ ok (a, rest) ↦ f a rest | err e ↦ err e ]

abbrev pub ◌>>◌ : {A B : Type 0} → Reader A → Reader B → Reader B
m >> k = m >>= λ _. k

abbrev pub pure : {A : Type 0} → A → Reader A
pure a input = ok (a, input)

abbrev pub fail : {A : Type 0} → Bytes → Reader A
fail message input = err (make_error data_exception message [])

-- A read that leaves the stream failed is the error `message`.
unfoldable pub or_fail : {A : Type 0} → (Bytes → Option (A × Bytes)) → Bytes → Reader A
or_fail read message input = elim (read input) [
  | some (a, rest) ↦ ok (a, rest)
  | none ↦ err (make_error data_exception message [])
]

abbrev pub max_log_field_bytes : ℕ
max_log_field_bytes = 2 ^ 20

abbrev pub max_log_tables : ℕ
max_log_tables = 4096

-- `in.get()`
unfoldable pub get_space : Reader (Unit {0})
get_space [] =
    err (make_error data_exception (text "invalid pgiceberg commit recovery log field") [])
get_space (c ∷ rest) =
    if c == 32
    then ok (tt, rest)
    else err (make_error data_exception (text "invalid pgiceberg commit recovery log field") [])

unfoldable pub check_size : ℕ → Reader (Unit {0})
check_size size =
    if ltb max_log_field_bytes size
    then fail (text "pgiceberg commit recovery log field is too large")
    else pure tt

unfoldable pub decode_field : Reader Bytes
decode_field = do
  size ← or_fail read_size (text "truncated pgiceberg commit recovery log")
  check_size size
  get_space
  or_fail (read_bytes size) (text "truncated pgiceberg commit recovery log field")

unfoldable pub expect_token : Bytes → Reader (Unit {0})
expect_token expected input = elim (read_token input) [
  | none ↦
      err (make_error data_exception (text "unexpected token in pgiceberg commit recovery log") [])
  | some (token, rest) ↦
      if eqb token expected
      then ok (tt, rest)
      else err
          (make_error data_exception (text "unexpected token in pgiceberg commit recovery log") [])
]

unfoldable pub snapshot_id_of_token : Bytes → Reader (Option ℤ)
snapshot_id_of_token token = if eqb token (text "none") then pure none else (elim (stoll token) [
  | some id ↦ pure (some id)
  | none ↦ fail (text "invalid snapshot id in commit recovery log")
])

unfoldable pub read_optional_snapshot_id : Reader (Option ℤ)
read_optional_snapshot_id = do
  token ← or_fail read_token (text "truncated snapshot id in commit recovery log")
  snapshot_id_of_token token

-- `ExpectToken(in, key)`, then `DecodeField`.
unfoldable pub read_field : Bytes → Reader Bytes
read_field key = do expect_token key; decode_field

unfoldable pub read_snapshot_field : Bytes → Reader (Option ℤ)
read_snapshot_field key = do expect_token key; read_optional_snapshot_id

unfoldable pub parse_table : Reader CommitRecoveryTable
parse_table = do
  expect_token (text "table")
  catalog ← read_field (text "catalog")
  catalog_type ← read_field (text "catalog_type")
  catalog_uri ← read_field (text "catalog_uri")
  warehouse ← read_field (text "warehouse")
  catalog_name ← read_field (text "catalog_name")
  name_space ← read_field (text "namespace")
  table ← read_field (text "table_name")
  base ← read_snapshot_field (text "base_snapshot_id")
  committed ← read_snapshot_field (text "committed_snapshot_id")
  state ← read_field (text "iceberg_state")
  pure (record {
    options = record default_options {
      catalog = catalog;
      catalog_type = catalog_type;
      catalog_uri = catalog_uri;
      warehouse = warehouse;
      catalog_name = catalog_name;
      name_space = name_space;
      table = table;
    };
    base_snapshot_id = base;
    committed_snapshot_id = committed;
    iceberg_state = state;
  })

unfoldable pub parse_tables : ℕ → Reader (List CommitRecoveryTable)
parse_tables zero = pure []
parse_tables (suc n) = do t ← parse_table; ts ← parse_tables n; pure (t ∷ ts)

unsupported : Bytes
unsupported = text "unsupported pgiceberg commit recovery log"

unfoldable pub check_version : Bytes → ℤ → Reader (Unit {0})
unfolding unsupported
check_version magic version =
    if eqb magic log_magic && eq_ℤ version (pos 1) then pure tt else fail unsupported

unfoldable pub check_table_count : ℕ → Reader (Unit {0})
check_table_count count =
    if ltb max_log_tables count
    then fail (text "invalid table_count in commit recovery log")
    else pure tt

unfoldable pub read_version : Reader (Unit {0})
unfolding unsupported
read_version = do
  magic ← or_fail read_token unsupported
  version ← or_fail (read_signed (2 ^ 31)) unsupported
  check_version magic version

unfoldable pub read_created_at : Reader ℤ
read_created_at = do
  expect_token (text "created_at")
  or_fail (read_signed (2 ^ 63)) (text "invalid created_at in commit recovery log")

unfoldable pub read_tables : Reader (List CommitRecoveryTable)
read_tables = do
  expect_token (text "table_count")
  count ← or_fail read_size (text "invalid table_count in commit recovery log")
  check_table_count count
  parse_tables count

unfoldable pub parse_record : Reader CommitRecoveryRecord
parse_record = do
  read_version
  commit_id ← read_field (text "commit_id")
  postgres_xid ← read_field (text "postgres_xid")
  state ← read_field (text "state")
  created_at ← read_created_at
  tables ← read_tables
  pure (record {
    commit_id = commit_id;
    postgres_xid = postgres_xid;
    state = state;
    created_at_unix_micros = created_at;
    tables = tables;
  })
