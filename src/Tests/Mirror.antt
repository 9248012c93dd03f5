-- ===== src/Tests/Mirror.antt =====
-- A turn of the logical mirror that succeeds.
use pgiceberg.Common.{
  if◌then◌else◌, ℕ, zero, suc, ◌^◌, ◌<◌, ◌≡◌, refl, sym, ap, ◌∙◌, Bool, true, false, List, [], ◌∷◌,
  ◌++◌, Option, none, some, arith, length, is_empty,
}
use pgiceberg.Common.Bytes.{text, eqb}
use pgiceberg.Common.Decimal.{print_nat}
use pgiceberg.Status.{ok, make_error}
use pgiceberg.Recovery.Ownership.{find_property}
use pgiceberg.Logical.{DecodedChange}
use pgiceberg.Logical.Decode.{parse_decoded_change, reject, invalid_record}
use pgiceberg.Logical.Slot.{Mirror, SlotChange, Progress, World, Column, Row, External}
use pgiceberg.Logical.BatchId.{logical_batch_id, hashed_batch, batch_id_text}
use pgiceberg.Logical.Batch.{Batch, empty_batch, collect_batch}
use pgiceberg.Logical.Mirror.{
  decode, append_new_batch, process_mirror, worker_turn, drain_rounds, slots_from_decoded_rows,
  logical_batch_id_property,
}
use pgiceberg.Logical.Appended.{HasLsns}
use pgiceberg.Logical.Delivered.{Copied, process_mirror-Copied}
use pgiceberg.Tests.Engine.{outside, mirror, change, one_change, copied}

copies_one : process_mirror outside mirror one_change ≡ (ok tt, copied)
unfolding process_mirror pgiceberg.Exec.◌>>=◌ pgiceberg.Logical.Slot.peek_slot_changes
    pgiceberg.Logical.Mirror.process_rows logical_batch_id collect_batch parse_decoded_change
    pgiceberg.Logical.Decode.parse_body pgiceberg.Logical.Decode.parse_relid
    pgiceberg.Recovery.Parse.◌>>=◌ pgiceberg.Logical.Decode.consume_char
    pgiceberg.Logical.Decode.read_integer pgiceberg.Logical.Decode.read_token
    pgiceberg.Logical.Decode.token_of_split pgiceberg.Logical.Decode.split_at
    pgiceberg.Logical.Decode.parse_integer pgiceberg.Common.FromChars.from_chars_unsigned
    mathlib.Core.Option.bind eqb text print_nat pgiceberg.Common.Decimal.scan_digits
    pgiceberg.Common.FromChars.from_chars pgiceberg.Common.FromChars.from_digits
    pgiceberg.Common.FromChars.in_signed_range pgiceberg.Common.FromChars.in_unsigned_range
    pgiceberg.Logical.Batch.collect_change pgiceberg.Logical.Batch.has_source_change
    pgiceberg.Logical.BatchId.big_endian hashed_batch pgiceberg.Logical.BatchId.hashed_rows
    pgiceberg.Logical.BatchId.hashed_value pgiceberg.Logical.BatchId.hex_digit
    pgiceberg.Logical.BatchId.hex_text pgiceberg.Logical.Decode.initial_values
    pgiceberg.Logical.Decode.length_of_split pgiceberg.Logical.Decode.parse_columns
    pgiceberg.Logical.Decode.parse_insert pgiceberg.Logical.Decode.parse_marker
    pgiceberg.Logical.Decode.put_attribute pgiceberg.Logical.Decode.read_length
    pgiceberg.Logical.Decode.read_separator pgiceberg.Logical.Decode.read_value
    pgiceberg.Logical.Decode.resize pgiceberg.Logical.Decode.set_at
    pgiceberg.Logical.Mirror.append_decoded_rows append_new_batch pgiceberg.Logical.Mirror.c_str
    pgiceberg.Logical.Mirror.column_datum pgiceberg.Logical.Mirror.consume_batch
    pgiceberg.Logical.Mirror.drain_non_source_slot_changes pgiceberg.Logical.Mirror.drain_round
    drain_rounds pgiceberg.Logical.Mirror.is_logical_batch_committed
    pgiceberg.Logical.Mirror.row_data pgiceberg.Logical.Mirror.slots_from_decoded_rows
    pgiceberg.Logical.Mirror.source_value pgiceberg.Logical.Mirror.stop_unsupported
    pgiceberg.Logical.Mirror.value_at pgiceberg.Logical.Slot.advance_slot_by_count
    pgiceberg.Logical.Slot.consume_changes pgiceberg.Logical.Slot.disable_mirror
    pgiceberg.Logical.Slot.update_mirror_progress make_error find_property
copies_one = refl

change-HasLsns : HasLsns (change ∷ [])
unfolding text
change-HasLsns = (refl, tt)

process_mirror-Copied_example : Copied outside mirror one_change copied
process_mirror-Copied_example =
    process_mirror-Copied outside mirror one_change copied change-HasLsns copies_one
