-- ===== src/Recovery/Log.antt =====
-- The log files of src/engine/commit_recovery.cc: where a log stands, writing it, removing it and
-- reading it back.
use pgiceberg.Common.{
  ℕ, Bool, true, false, ◌&&◌, ◌||◌, [], ◌∷◌, ◌++◌, Option, none, some, ltb, leb, length, is_empty,
  if◌then◌else◌,
}
use pgiceberg.Common.Bytes.{Bytes, text}
use pgiceberg.Status.{
  Result, ok, err, make_error, and_then, invalid_parameter_value, internal_error, io_error,
}
use pgiceberg.Exec.{Exec, read, ◌>>=◌, succeeded}
use pgiceberg.Outside.{Outside, History, log_write, log_remove}
use pgiceberg.Recovery.{CommitRecoveryRecord}
use pgiceberg.Recovery.Format.{format_record}
use pgiceberg.Recovery.Parse.{parse_record}

-- `std::isxdigit`
abbrev pub is_hex_digit : ℕ → Bool
is_hex_digit c = (leb 48 c && leb c 57) || ((leb 65 c && leb c 70) || (leb 97 c && leb c 102))

abbrev pub all_hex_digits : Bytes → Bool
all_hex_digits [] = true
all_hex_digits (c ∷ cs) = is_hex_digit c && all_hex_digits cs

unfoldable pub is_safe_commit_id : Bytes → Bool
is_safe_commit_id commit_id =
    if is_empty commit_id || ltb 128 (length commit_id) then false else all_hex_digits commit_id

module _ {Table Transaction : Type 0} (o : Outside Table Transaction) where
  unfoldable pub recovery_dir : Result Bytes
  recovery_dir =
      if is_empty o.data_dir
      then err (make_error internal_error (text "PostgreSQL data directory is not available") [])
      else ok (o.data_dir ++ text "/pg_iceberg/xact")

  unfoldable pub recovery_log_path : Bytes → Result Bytes
  recovery_log_path commit_id =
      if is_safe_commit_id commit_id
      then and_then recovery_dir (λ dir. ok (dir ++ text "/" ++ commit_id ++ text ".log"))
      else err (
          make_error invalid_parameter_value (text "invalid pgiceberg commit recovery identifier")
            [])

  unfoldable pub durable_write_file : Bytes → Bytes → Exec History (Unit {0})
  durable_write_file path contents h =
      let written = o.durable_write_file h path contents in
      (written, log_write path contents (succeeded written) ∷ h)

  unfoldable pub remove_file : Bytes → Exec History (Unit {0})
  remove_file path h =
      let removed = o.remove_file h path in (removed, log_remove path (succeeded removed) ∷ h)

  unfoldable pub write_commit_recovery_log : CommitRecoveryRecord → Exec History (Unit {0})
  write_commit_recovery_log r = do
    path ← read (λ _. recovery_log_path r.commit_id)
    durable_write_file path (format_record r)

  unfoldable pub remove_commit_recovery_log : Bytes → Exec History (Unit {0})
  remove_commit_recovery_log commit_id = do
    path ← read (λ _. recovery_log_path commit_id)
    remove_file path

  -- What `ReadCommitRecoveryLog` does at a path, by what the file system has there.
  unfoldable pub read_log_file :
      Bytes → Option (Option Bytes) → Result (Option CommitRecoveryRecord)
  read_log_file path none = ok none
  read_log_file path (some none) =
      err (make_error io_error (text "could not read commit recovery log " ++ path) [])
  read_log_file path (some (some contents)) =
      and_then (parse_record contents) (λ parsed. ok (some parsed.0))

  unfoldable pub read_commit_recovery_log : Bytes → History → Result (Option CommitRecoveryRecord)
  read_commit_recovery_log commit_id h =
      and_then (recovery_log_path commit_id) (λ path. read_log_file path (o.read_file h path))
