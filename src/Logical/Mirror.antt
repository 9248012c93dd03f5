-- ===== src/Logical/Mirror.antt =====
-- `DrainNonSourceSlotChanges`, `ProcessMirror` and `ProcessMirrors` of src/logical/logical.cc.
use mathlib.Core.Option
use pgiceberg.Common.{
  ℕ, zero, suc, Bool, true, false, List, [], ◌∷◌, Option, none, some, ◌==◌, length, is_empty,
  if◌then◌else◌,
}
use pgiceberg.Common.Bytes.{Bytes, text, eqb}
use pgiceberg.Common.Int.{ℤ, pos, negsuc}
use pgiceberg.Status.{Result, Status, ok, err, make_error, internal_error, and_then}
use pgiceberg.Exec.{Exec, ◌>>=◌, ◌>>◌, pure, read, succeeded}
use pgiceberg.Outside.{Properties}
use pgiceberg.Logical.{DecodedChange}
use pgiceberg.Logical.Decode.{parse_decoded_change}
use pgiceberg.Logical.Slot.{
  Mirror, SlotChange, World, Column, Row, External, peek_slot_changes, advance_slot_by_count,
  update_mirror_progress, disable_mirror,
}
use pgiceberg.Logical.BatchId.{logical_batch_id}
use pgiceberg.Logical.Batch.{Batch, empty_batch, collect_batch, has_source_change}

abbrev pub logical_batch_id_property : Bytes
logical_batch_id_property = text "pgiceberg.logical.last-batch-id"

abbrev pub logical_source_lsn_property : Bytes
logical_source_lsn_property = text "pgiceberg.logical.last-source-lsn"

-- `CommitPropertiesFor`
abbrev pub commit_properties_for : Bytes → Bytes → Properties
commit_properties_for batch_id source_lsn =
    (logical_batch_id_property, batch_id) ∷ (logical_source_lsn_property, source_lsn) ∷ []

-- A value up to its first zero byte.
unfoldable pub c_str : Bytes → Bytes
c_str [] = []
c_str (c ∷ cs) = if c == 0 then [] else c ∷ c_str cs

-- `values_by_attnum[attnum]`, if it is there.
unfoldable pub value_at : ℕ → List (Option Bytes) → Option (Option Bytes)
value_at n [] = none
value_at zero (v ∷ values) = some v
value_at (suc n) (v ∷ values) = value_at n values

abbrev pub positive_place : ℤ → Option ℕ
positive_place (pos (suc n)) = some (suc n)
positive_place (pos zero) = none
positive_place (negsuc n) = none

unfoldable pub source_value : ℤ → List (Option Bytes) → Result (Option Bytes)
source_value attnum values = elim (Option.bind (positive_place attnum) (λ n. value_at n values)) [
  | none ↦ err (make_error internal_error (text "decoded row is missing a source column") [])
  | some v ↦ ok v
]

abbrev pub is_this_batch : Option Bytes → Bytes → Bool
is_this_batch none batch_id = false
is_this_batch (some last_batch_id) batch_id = eqb last_batch_id batch_id

module _ {S Datum : Type 0} (x : External S Datum) where
  abbrev pub decode : Bytes → Result DecodedChange
  decode = parse_decoded_change x.vector_too_long

  -- `SlotFromDecodedRow`
  unfoldable pub column_datum : Column → DecodedChange → Result (Option Datum)
  column_datum column change = elim column.is_dropped [
    | true ↦ ok none
    | false ↦ and_then (source_value column.attnum change.values_by_attnum) (λ value. elim value [
      | none ↦ ok none
      | some v ↦ and_then (x.type_input column.type (c_str v)) (λ datum. ok (some datum))
    ])
  ]

  unfoldable pub row_data : List Column → DecodedChange → Result (Row Datum)
  row_data [] change = ok []
  row_data (column ∷ columns) change =
      and_then (column_datum column change)
        λ datum. and_then (row_data columns change) λ row. ok (datum ∷ row)

  unfoldable pub slots_from_decoded_rows : List DecodedChange → Result (List (Row Datum))
  slots_from_decoded_rows [] = ok []
  slots_from_decoded_rows (change ∷ changes) =
      and_then (row_data x.columns change)
        λ row. and_then (slots_from_decoded_rows changes) λ rows. ok (row ∷ rows)

  -- A call of the engine.
  abbrev pub on_target : {A : Type 0} → Exec S A → Exec (World S) A
  on_target m w = let (r, s) = m w.target in (r, record w { target = s })

  -- `AppendDecodedRows`
  unfoldable pub append_decoded_rows :
      List DecodedChange → Bytes → Bytes → Exec (World S) (Unit {0})
  append_decoded_rows [] batch_id source_lsn = pure tt
  append_decoded_rows (change ∷ changes) batch_id source_lsn = do
    rows ← read (λ w. slots_from_decoded_rows (change ∷ changes))
    on_target (x.append_slots rows (commit_properties_for batch_id source_lsn))

  -- `IsLogicalBatchCommitted`
  unfoldable pub is_logical_batch_committed : Bytes → Exec (World S) Bool
  is_logical_batch_committed batch_id = read λ w.
      and_then (x.read_table_property w.target logical_batch_id_property)
        λ last_batch_id. ok (is_this_batch last_batch_id batch_id)

  -- One round of the loop of `DrainNonSourceSlotChanges`: whether it goes on.
  unfoldable pub drain_round : Mirror → Exec (World S) Bool
  drain_round mirror = do
    rows ← peek_slot_changes x mirror
    if is_empty rows then pure false else do
      found ← read (λ w. has_source_change decode mirror.source_relid rows)
      if found then pure false else do advance_slot_by_count x (length rows); pure true

  abbrev pub drain_on :
      (World S → Option (Status × World S)) → Result Bool × World S → Option (Status × World S)
  drain_on rest (err e, w) = some (err e, w)
  drain_on rest (ok false, w) = some (ok tt, w)
  drain_on rest (ok true, w) = rest w

  -- The loop, for `fuel` rounds.
  unfoldable pub drain_rounds : ℕ → Mirror → World S → Option (Status × World S)
  drain_rounds zero mirror w = none
  drain_rounds (suc fuel) mirror w = drain_on (drain_rounds fuel mirror) (drain_round mirror w)

  -- `DrainNonSourceSlotChanges`, with a round for each change in the slot and one more.
  unfoldable pub drain_non_source_slot_changes : Mirror → Exec (World S) (Unit {0})
  drain_non_source_slot_changes mirror w = elim (drain_rounds (suc (length w.slot)) mirror w) [
    | none ↦ (ok tt, w)
    | some result ↦ result
  ]

  -- The insert side of `ProcessMirror`: the batch is appended unless the table has its name already.
  abbrev pub append_if_new : Batch → Bytes → Bool → Exec (World S) (Unit {0})
  append_if_new batch batch_id already_committed = if already_committed then pure tt else do
    append_decoded_rows batch.inserts batch_id batch.last_lsn
    on_target x.flush_pending_modify_changes

  abbrev pub append_inserts : Batch → Bytes → Bool → Exec (World S) (Unit {0})
  append_inserts batch batch_id no_inserts = if no_inserts then pure tt else do
    already_committed ← is_logical_batch_committed batch_id
    append_if_new batch batch_id already_committed

  unfoldable pub append_new_batch : Batch → Bytes → Exec (World S) (Unit {0})
  append_new_batch batch batch_id = append_inserts batch batch_id (is_empty batch.inserts)

  unfoldable pub consume_batch : Mirror → Batch → Bytes → ℕ → Exec (World S) (Unit {0})
  consume_batch mirror batch batch_id count = if is_empty batch.last_lsn then pure tt else do
    advance_slot_by_count x count
    update_mirror_progress x batch.last_lsn (if is_empty batch.inserts then [] else batch_id)
    drain_non_source_slot_changes mirror

  unfoldable pub stop_unsupported : Mirror → Batch → Exec (World S) (Unit {0})
  stop_unsupported mirror batch =
      if batch.saw_unsupported
      then (do
        disable_mirror x (text "pgiceberg logical mirrors currently support only INSERT changes")
        drain_non_source_slot_changes mirror)
      else pure tt

  unfoldable pub process_rows : Mirror → List SlotChange → Exec (World S) (Unit {0})
  process_rows mirror rows = do
    batch_id ← read (λ w. logical_batch_id x.sha256 mirror.slot_name rows)
    batch ← read (λ w. collect_batch decode mirror.source_relid rows empty_batch)
    append_new_batch batch batch_id
    consume_batch mirror batch batch_id (length rows)
    stop_unsupported mirror batch

  -- `ProcessMirror`
  unfoldable pub process_mirror : Mirror → Exec (World S) (Unit {0})
  process_mirror mirror = do
    rows ← peek_slot_changes x mirror
    if is_empty rows then pure tt else process_rows mirror rows

  -- A turn of `RunWorkerLoop` on one mirror: an error aborts the transaction, which takes back the
  -- mirror's row, runs the engine's callback, and leaves what was done to the slot.
  abbrev pub aborted : World S → World S → World S
  aborted w w' = record w' { progress = w.progress; target = x.abort_transaction w'.target }

  unfoldable pub worker_turn : Mirror → World S → World S
  worker_turn mirror w =
      let (r, w') = process_mirror mirror w in if succeeded r then w' else aborted w w'

-- `ProcessMirrors`, on the mirrors that were loaded: the first error ends it.
unfoldable pub process_mirrors :
    {W : Type 0} → (Mirror → Exec W (Unit {0})) → List Mirror → Exec W (Unit {0})
process_mirrors process [] = pure tt
process_mirrors process (mirror ∷ mirrors) = do process mirror; process_mirrors process mirrors
