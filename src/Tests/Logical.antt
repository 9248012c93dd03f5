-- ===== src/Tests/Logical.antt =====
-- Records, batch names, the drain and the backfill of the logical mirror at concrete inputs.
use mathlib.Core.List.{append_assoc}
use pgiceberg.Common.{
  ℕ, suc, ◌≡◌, refl, sym, ap, ◌∙◌, true, false, List, [], ◌∷◌, ◌++◌, none, some, arith,
}
use pgiceberg.Common.Bytes.{Bytes, text}
use pgiceberg.Common.Decimal.{print_nat}
use pgiceberg.Common.Int.{pos}
use pgiceberg.Status.{Status, ok}
use pgiceberg.Outside.{Properties}
use pgiceberg.Logical.{DecodedChange}
use pgiceberg.Logical.Decode.{parse_decoded_change, reject, invalid_record}
use pgiceberg.Logical.Output.{output_column, output_columns, output_insert}
use pgiceberg.Logical.Slot.{World, Row}
use pgiceberg.Logical.Mirror.{drain_rounds}
use pgiceberg.Logical.Backfill.{
  backfill_source_table, backfill_properties, backfill_rows, positive_batch_size, check_isolation,
}
use pgiceberg.Logical.Copies.{backfill_source_table-queued}
use pgiceberg.Logical.BatchNames.{IsShort, hashed_batch-injective}
use pgiceberg.Logical.RoundTrip.{
  parse_decoded_change-output_insert, parse_decoded_change-no_attributes,
}
use pgiceberg.Logical.Drain.{drain_rounds-enough}
use pgiceberg.Tests.Engine.{
  too_large, too_long, source, attribute, insert_text, Table, append_slots, view, outside, mirror,
  change, empty_table, one_change,
}

insert_text-output : output_insert too_large source (attribute ∷ []) ≡ ok insert_text
unfolding output_insert output_columns output_column text print_nat
insert_text-output = refl

parse_decoded_change-output_insert_example :
    parse_decoded_change too_long insert_text
    ≡ ok (record { action = 73; relid = 5; values_by_attnum = none ∷ some (text "a") ∷ [] })
parse_decoded_change-output_insert_example =
    parse_decoded_change-output_insert too_long too_large source attribute [] insert_text
      insert_text-output (refl, tt) (omega arith) (omega arith) (omega arith)

abbrev no_columns_text : Bytes
no_columns_text = 73 ∷ 9 ∷ 53 ∷ 9 ∷ 48 ∷ []

no_columns_text-output : output_insert too_large source [] ≡ ok no_columns_text
unfolding output_insert output_columns print_nat
no_columns_text-output = refl

parse_decoded_change-no_attributes_example :
    parse_decoded_change too_long no_columns_text ≡ reject invalid_record
parse_decoded_change-no_attributes_example =
    parse_decoded_change-no_attributes too_long too_large source no_columns_text
      no_columns_text-output (omega arith)

drain_rounds-enough_example :
    (result : Status × World Table) × (drain_rounds outside 2 mirror one_change ≡ some result)
drain_rounds-enough_example = drain_rounds-enough outside 2 mirror one_change (omega arith)

slot_name-IsShort : IsShort (text "s")
unfolding text
slot_name-IsShort = omega arith

change-IsShort : IsShort change.0 × IsShort change.1
unfolding text
change-IsShort = (omega arith, omega arith)

hashed_batch-injective_example : (text "s" ≡ text "s") × (change ∷ [] ≡ change ∷ [])
hashed_batch-injective_example =
    hashed_batch-injective (text "s") (text "s") (change ∷ []) (change ∷ []) slot_name-IsShort
      slot_name-IsShort (change-IsShort, tt) (change-IsShort, tt) refl

abbrev backfilled : Table
backfilled = record {
  rows = [];
  queued = (some (text "a") ∷ []) ∷ (none ∷ []) ∷ [];
  properties = backfill_properties 5 (text "0/1");
  last_batch_id = none;
}

queues :
    (rows : List (Row Bytes)) (properties : Properties) (s s' : Table)
    → append_slots rows properties s ≡ (ok tt, s')
    → view s' ≡ view s ++ rows
queues rows properties s s' h =
    ap view (sym (ap (λ r. r.1) h)) ∙ sym (append_assoc s.rows s.queued rows)

backfill_two :
    backfill_source_table append_slots false
      (ok tt)
      ((some (text "a") ∷ []) ∷ (none ∷ []) ∷ [])
      5
      (pos 1)
      (text "0/1")
      true
      empty_table
    ≡ (ok 2, backfilled)
unfolding backfill_source_table backfill_rows pgiceberg.Logical.Backfill.flush pgiceberg.Exec.◌>>=◌
    positive_batch_size check_isolation
backfill_two = refl

backfill_source_table-queued_example :
    (view backfilled ≡ (some (text "a") ∷ []) ∷ (none ∷ []) ∷ [])
    × (◌≡◌ {A = ℕ} 2 2)
    × ((n : ℕ) × (pos 1 ≡ pos (suc n)))
    × (false ≡ false)
    × (◌≡◌ {A = Status} (ok tt) (ok tt))
backfill_source_table-queued_example =
    backfill_source_table-queued append_slots view queues false (ok tt)
      ((some (text "a") ∷ []) ∷ (none ∷ []) ∷ []) 5 (pos 1) (text "0/1") true empty_table backfilled
      2 backfill_two
