-- ===== src/Recovery/Format.antt =====
-- `EncodeField` and `FormatRecord` of src/engine/commit_recovery.cc.
use pgiceberg.Common.{List, [], ◌∷◌, ◌++◌, Option, none, some, length}
use pgiceberg.Common.Bytes.{Bytes, text}
use pgiceberg.Common.Decimal.{print_nat, print_int}
use pgiceberg.Common.Int.{ℤ}
use pgiceberg.Recovery.{CommitRecoveryTable, CommitRecoveryRecord}

unfoldable pub log_magic : Bytes
log_magic = text "pgiceberg-commit-recovery"

unfoldable pub encode_field : Bytes → Bytes
encode_field value = print_nat (length value) ++ 32 ∷ value

-- `out << "<key> " << payload << '\n'`, in front of what is written next.
abbrev pub line : Bytes → Bytes → Bytes → Bytes
line key payload rest = key ++ 32 ∷ (payload ++ 10 ∷ rest)

unfoldable pub format_snapshot_id : Option ℤ → Bytes
format_snapshot_id none = text "none"
format_snapshot_id (some id) = print_int id

unfoldable pub format_table : CommitRecoveryTable → Bytes → Bytes
format_table t rest =
    text "table"
    ++ 10
      ∷ line (text "catalog") (encode_field t.options.catalog) (
          line (text "catalog_type") (encode_field t.options.catalog_type) (
            line (text "catalog_uri") (encode_field t.options.catalog_uri) (
              line (text "warehouse") (encode_field t.options.warehouse) (
                line (text "catalog_name") (encode_field t.options.catalog_name) (
                  line (text "namespace") (encode_field t.options.name_space) (
                    line (text "table_name") (encode_field t.options.table) (
                      line (text "base_snapshot_id") (format_snapshot_id t.base_snapshot_id) (
                        line (text "committed_snapshot_id")
                          (format_snapshot_id t.committed_snapshot_id)
                          (line (text "iceberg_state") (encode_field t.iceberg_state) rest)))))))))

unfoldable pub format_tables : List CommitRecoveryTable → Bytes
format_tables [] = []
format_tables (t ∷ ts) = format_table t (format_tables ts)

unfoldable pub format_record : CommitRecoveryRecord → Bytes
format_record r = line log_magic (print_nat 1) (
    line (text "commit_id") (encode_field r.commit_id) (
      line (text "postgres_xid") (encode_field r.postgres_xid) (
        line (text "state") (encode_field r.state) (
          line (text "created_at") (print_int r.created_at_unix_micros)
            (line (text "table_count") (print_nat (length r.tables)) (format_tables r.tables))))))
