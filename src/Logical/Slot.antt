-- ===== src/Logical/Slot.antt =====
-- The mirrors of src/logical/logical.cc and what they stand on: their slots, their rows in
-- pgiceberg.logical_mirrors, and the calls of PostgreSQL and of the engine.
use pgiceberg.Common.{
  ℕ, zero, suc, Bool, false, List, [], ◌∷◌, Option, none, some, ◌==◌, length, take, drop, is_empty,
  if◌then◌else◌,
}
use pgiceberg.Common.Bytes.{Bytes, text}
use pgiceberg.Common.Int.{ℤ, pos, negsuc}
use pgiceberg.Status.{
  Result, Status, ok, err, make_error, internal_error, null_value_not_allowed, and_then,
}
use pgiceberg.Exec.{Exec, ◌>>=◌, ◌>>◌, pure, raise, read}
use pgiceberg.Outside.{Properties}

pub record Mirror : Type 0 where
  pub source_relid : ℕ
  pub catalog : Bytes
  pub name_space : Bytes
  pub table_name : Bytes
  pub slot_name : Bytes
  pub batch_size : ℕ

-- The LSN and the record of a change.
abbrev pub SlotChange : Type 0
SlotChange = Bytes × Bytes

-- The columns of a mirror's row that the worker writes.
pub record Progress : Type 0 where
  pub last_flushed_lsn : Option Bytes
  pub last_applied_batch_id : Option Bytes
  pub last_error : Option Bytes
  pub enabled : Bool
  pub is_ready : Bool

-- The changes that the slot has not consumed, the mirror's row, and the state of the engine and of
-- the target table.
pub record World (S : Type 0) : Type 0 where
  pub slot : List SlotChange
  pub progress : Progress
  pub target : S

-- An attribute of the source's tuple descriptor; `type` stands for its type and its typmod.
pub record Column : Type 0 where
  pub attnum : ℤ
  pub is_dropped : Bool
  pub type : ℕ

abbrev pub Row : Type 0 → Type 0
Row Datum = List (Option Datum)

-- The statements that the worker runs.
pub data SpiCall : Type 0 where
  peek_changes get_changes update_progress_row disable_row : SpiCall

-- `changes_upto n` is the number of changes that `pg_logical_slot_peek_changes` and
-- `pg_logical_slot_get_changes` return from a slot for the limit `n`. `vector_too_long` is
-- the exception of a vector. The last four are functions of src/engine;
-- `abort_transaction` is its callback at the end of an aborted transaction.
pub record External (S Datum : Type 0) : Type 0 where
  pub spi_status : SpiCall → World S → Status
  pub changes_upto : ℕ → List SlotChange → ℕ
  pub sha256 : Bytes → Result (List ℕ)
  pub vector_too_long : Result (List (Option Bytes))
  pub columns : List Column
  pub type_input : ℕ → Bytes → Result Datum
  pub read_table_property : S → Bytes → Result (Option Bytes)
  pub append_slots : List (Row Datum) → Properties → Exec S (Unit {0})
  pub flush_pending_modify_changes : Exec S (Unit {0})
  pub abort_transaction : S → S

module _ {S Datum : Type 0} (x : External S Datum) where
  abbrev pub run_spi : SpiCall → Exec (World S) (Unit {0})
  run_spi call = read (x.spi_status call)

  -- `PeekSlotChanges`
  unfoldable pub peek_slot_changes : Mirror → Exec (World S) (List SlotChange)
  peek_slot_changes mirror = do
    run_spi peek_changes
    read (λ w. ok (take (x.changes_upto mirror.batch_size w.slot) w.slot))

  -- What `pg_logical_slot_get_changes` does: the number of changes that it consumed.
  unfoldable pub consume_changes : ℕ → Exec (World S) ℕ
  consume_changes limit w =
      let n = x.changes_upto limit w.slot in
      (ok (length (take n w.slot)), record w { slot = drop n w.slot })

  abbrev pub check_count : ℕ → ℕ → Exec (World S) (Unit {0})
  check_count change_count consumed =
      if consumed == change_count
      then pure tt
      else raise (
          make_error internal_error
            (text "pgiceberg logical slot advanced a different number of changes than peeked") [])

  -- `AdvanceSlotByCount`
  unfoldable pub advance_slot_by_count : ℕ → Exec (World S) (Unit {0})
  advance_slot_by_count zero = pure tt
  advance_slot_by_count (suc change_count) = do
    run_spi get_changes
    consumed ← consume_changes (suc change_count)
    check_count (suc change_count) consumed

  abbrev pub unless_empty : Bytes → Option Bytes → Option Bytes
  unless_empty value old = if is_empty value then old else some value

  -- `UpdateMirrorProgress`; its callers give no error message.
  unfoldable pub update_mirror_progress : Bytes → Bytes → Exec (World S) (Unit {0})
  update_mirror_progress lsn batch_id = do
    run_spi update_progress_row
    λ w. (
      ok tt,
      record w {
        progress = record w.progress {
          last_flushed_lsn = unless_empty lsn w.progress.last_flushed_lsn;
          last_applied_batch_id = unless_empty batch_id w.progress.last_applied_batch_id;
          last_error = none;
        };
      },
    )

  -- `DisableMirror`
  unfoldable pub disable_mirror : Bytes → Exec (World S) (Unit {0})
  disable_mirror error_message = do
    run_spi disable_row
    λ w. (
      ok tt,
      record w {
        progress = record w.progress {
          last_error = some error_message;
          enabled = false;
          is_ready = false;
        };
      },
    )

-- A row of the query of `LoadMirrors`; a field is `none` if it is NULL.
pub record MirrorRow : Type 0 where
  pub source_relid : Option ℕ
  pub catalog : Option Bytes
  pub name_space : Option Bytes
  pub table_name : Option Bytes
  pub slot_name : Option Bytes
  pub batch_size : Option ℤ

-- `SpiTextColumn` and `SpiOidColumn`
unfoldable pub spi_column {ℓ} : {A : Type ℓ} → Option A → Result A
spi_column (some value) = ok value
spi_column none =
    err (make_error null_value_not_allowed (text "pgiceberg logical mirror row contains NULL") [])

-- `SpiIntColumn`, and the test behind its call.
unfoldable pub batch_size_of : ℕ → Option ℤ → ℕ
batch_size_of default_size none = default_size
batch_size_of default_size (some (negsuc n)) = default_size
batch_size_of default_size (some (pos zero)) = default_size
batch_size_of default_size (some (pos (suc n))) = suc n

unfoldable pub load_mirror : ℕ → MirrorRow → Result Mirror
load_mirror default_size row = and_then (spi_column row.source_relid) λ source_relid.
    and_then (spi_column row.catalog) λ catalog. and_then (spi_column row.name_space) λ name_space.
      and_then (spi_column row.table_name) λ table_name.
        and_then (spi_column row.slot_name) λ slot_name. ok (record {
          source_relid = source_relid;
          catalog = catalog;
          name_space = name_space;
          table_name = table_name;
          slot_name = slot_name;
          batch_size = batch_size_of default_size row.batch_size;
        })

unfoldable pub load_mirrors : ℕ → List MirrorRow → Result (List Mirror)
load_mirrors default_size [] = ok []
load_mirrors default_size (row ∷ rows) =
    and_then (load_mirror default_size row)
      λ mirror. and_then (load_mirrors default_size rows) λ mirrors. ok (mirror ∷ mirrors)
