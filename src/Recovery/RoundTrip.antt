-- ===== src/Recovery/RoundTrip.antt =====
-- What `FormatRecord` writes, `ParseRecord` reads back.
use pgiceberg.Common.{
  ℕ, ◌^◌, ◌≤◌, ◌≡◌, refl, ◌∙◌, List, [], ◌∷◌, ◌++◌, map, none, some, arith, length, All,
}
use pgiceberg.Common.Bytes.{Bytes, text, eqb_refl}
use pgiceberg.Common.Decimal.{print_nat, print_int}
use pgiceberg.Common.Int.{ℤ, pos, InSigned, int64_min}
use pgiceberg.Options.{Options, default_options}
use pgiceberg.Status.{ok}
use pgiceberg.Recovery.{CommitRecoveryTable, CommitRecoveryRecord}
use pgiceberg.Recovery.Stream.{read_token, read_signed, read_size}
use pgiceberg.Recovery.Format.{log_magic, line, format_table, format_tables, format_record}
use pgiceberg.Recovery.Parse.{
  expect_token, parse_table, parse_tables, check_version, check_table_count, parse_record,
  read_version, read_created_at, read_tables, max_log_tables,
}
-- One step of a reader that succeeds, then the rest.
use pgiceberg.Recovery.Reads.{
  bind-ok, or_fail-ok, read_token-word, expect_token-word, expect_token-space,
  read_signed-print_int, read_size-print_nat,
}
use pgiceberg.Recovery.Fields.{
  read_signed-space, read_size-space, key_line, FitsField, read_field-line, FitsSnapshotId,
  read_snapshot_field-line,
}

-- Tables and records.
pub record TableFits (t : CommitRecoveryTable) : Type 0 where
  pub catalog : FitsField t.options.catalog
  pub catalog_type : FitsField t.options.catalog_type
  pub catalog_uri : FitsField t.options.catalog_uri
  pub warehouse : FitsField t.options.warehouse
  pub catalog_name : FitsField t.options.catalog_name
  pub name_space : FitsField t.options.name_space
  pub table : FitsField t.options.table
  pub base : FitsSnapshotId t.base_snapshot_id
  pub committed : FitsSnapshotId t.committed_snapshot_id
  pub state : FitsField t.iceberg_state

-- The log keeps every option but `snapshot_id`.
abbrev pub stored_options : Options → Options
stored_options o = record o { snapshot_id = none }

abbrev pub stored_table : CommitRecoveryTable → CommitRecoveryTable
stored_table t = record t { options = stored_options t.options }

table_line :
    (rest : Bytes)
    → expect_token (text "table") (10 ∷ text "table" ++ 10 ∷ rest) ≡ ok (tt, 10 ∷ rest)
table_line rest =
    expect_token-space (text "table") _ 10 refl
    ∙ expect_token-word (text "table") rest 10 (unfold text in refl) refl

parse_table-format_table :
    (t : CommitRecoveryTable) (rest : Bytes)
    → TableFits t
    → parse_table (10 ∷ format_table t rest) ≡ ok (stored_table t, 10 ∷ rest)
unfolding parse_table format_table default_options text
parse_table-format_table t rest h = bind-ok _ _ (table_line _) (
    bind-ok _ _ (read_field-line (text "catalog") _ _ refl h.catalog) (
      bind-ok _ _ (read_field-line (text "catalog_type") _ _ refl h.catalog_type) (
        bind-ok _ _ (read_field-line (text "catalog_uri") _ _ refl h.catalog_uri) (
          bind-ok _ _ (read_field-line (text "warehouse") _ _ refl h.warehouse) (
            bind-ok _ _ (read_field-line (text "catalog_name") _ _ refl h.catalog_name) (
              bind-ok _ _ (read_field-line (text "namespace") _ _ refl h.name_space) (
                bind-ok _ _ (read_field-line (text "table_name") _ _ refl h.table) (
                  bind-ok _ _ (read_snapshot_field-line (text "base_snapshot_id") _ _ refl h.base) (
                    bind-ok _ _
                      (read_snapshot_field-line (text "committed_snapshot_id") _ _ refl h.committed)
                      (bind-ok _ _ (read_field-line (text "iceberg_state") _ _ refl h.state)
                        refl))))))))))

parse_tables-format_tables :
    (ts : List CommitRecoveryTable)
    → All TableFits ts
    → parse_tables (length ts) (10 ∷ format_tables ts) ≡ ok (map stored_table ts, 10 ∷ [])
unfolding parse_tables format_tables
parse_tables-format_tables [] h = refl
parse_tables-format_tables (t ∷ ts) h =
    bind-ok _ _ (parse_table-format_table t (format_tables ts) h.0)
      (bind-ok _ _ (parse_tables-format_tables ts h.1) refl)

-- What the log can hold: fields of at most 2^20 bytes, at most 4096 tables, 64-bit numbers.
pub record RecordFits (r : CommitRecoveryRecord) : Type 0 where
  pub commit_id : FitsField r.commit_id
  pub postgres_xid : FitsField r.postgres_xid
  pub state : FitsField r.state
  pub created_at : InSigned int64_min r.created_at_unix_micros
  pub table_count : length r.tables ≤ max_log_tables
  pub tables : All TableFits r.tables

abbrev pub stored_record : CommitRecoveryRecord → CommitRecoveryRecord
stored_record r = record r { tables = map stored_table r.tables }

read_signed-one :
    (rest : Bytes) → read_signed (2 ^ 31) (32 ∷ print_nat 1 ++ 10 ∷ rest) ≡ some (pos 1, 10 ∷ rest)
unfolding print_int
read_signed-one rest =
    read_signed-space _ _ ∙ read_signed-print_int (2 ^ 31) (pos 1) (10 ∷ rest) (omega arith) refl

version_line :
    (rest : Bytes) → read_version (line log_magic (print_nat 1) rest) ≡ ok (tt, 10 ∷ rest)
unfolding read_version check_version
version_line rest =
    bind-ok _ _
      (or_fail-ok read_token _
        (read_token-word log_magic _ 32 (unfold log_magic text in refl) refl))
      (bind-ok _ _ (or_fail-ok (read_signed (2 ^ 31)) _ (read_signed-one rest))
        (rw (eqb_refl log_magic)))

created_at_line :
    (at : ℤ) (rest : Bytes)
    → InSigned int64_min at
    → read_created_at (10 ∷ line (text "created_at") (print_int at) rest) ≡ ok (at, 10 ∷ rest)
unfolding read_created_at
created_at_line at rest h = bind-ok _ _ (key_line (text "created_at") _ (unfold text in refl)) (
    or_fail-ok (read_signed (2 ^ 63)) _
      (read_signed-space _ _ ∙ read_signed-print_int (2 ^ 63) at (10 ∷ rest) h refl))

check_table_count-le :
    (n : ℕ) (rest : Bytes) → n ≤ max_log_tables → check_table_count n rest ≡ ok (tt, rest)
unfolding check_table_count
check_table_count-le n rest h = ground arith

tables_lines :
    (ts : List CommitRecoveryTable)
    → length ts ≤ max_log_tables
    → All TableFits ts
    → read_tables (10 ∷ line (text "table_count") (print_nat (length ts)) (format_tables ts))
      ≡ ok (map stored_table ts, 10 ∷ [])
unfolding read_tables
tables_lines ts le h = bind-ok _ _ (key_line (text "table_count") _ (unfold text in refl)) (
    bind-ok _ _
      (or_fail-ok read_size _ (
        read_size-space _
        ∙ read_size-print_nat (length ts) (10 ∷ format_tables ts) (omega (arith, le)) refl))
      (bind-ok _ _ (check_table_count-le (length ts) _ le) (parse_tables-format_tables ts h)))

-- Reading a log that was written whole gives back the record, for every record whose fields, table
-- count and numbers are in the log's range; only the option `snapshot_id`, which is not written, is
-- unset in what is read. The last newline is left in the stream.
pub parse_record-format_record :
    (r : CommitRecoveryRecord)
    → RecordFits r
    → parse_record (format_record r) ≡ ok (stored_record r, 10 ∷ [])
unfolding parse_record format_record
parse_record-format_record r h = bind-ok _ _ (version_line _) (
    bind-ok _ _ (read_field-line (text "commit_id") _ _ (unfold text in refl) h.commit_id) (
      bind-ok _ _ (read_field-line (text "postgres_xid") _ _ (unfold text in refl) h.postgres_xid) (
        bind-ok _ _ (read_field-line (text "state") _ _ (unfold text in refl) h.state) (
          bind-ok _ _ (created_at_line r.created_at_unix_micros _ h.created_at)
            (bind-ok _ _ (tables_lines r.tables h.table_count h.tables) refl)))))
