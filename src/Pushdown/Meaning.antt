-- ===== src/Pushdown/Meaning.antt =====
-- What the clauses of src/fdw/qual_pushdown.cc and its expressions say of a row.
mod Values
mod Operators
mod Rows
pub use pgiceberg.Pushdown.Meaning.Values.{
  Family, truths, integers, dates, times, timestamps, timestamps_tz, Key, ordinal, characters,
  octets, opaque, family_code, truth_key, epoch_of, is_some_true,
}
unfoldable pub use pgiceberg.Pushdown.Meaning.Values.{
  datum_key, literal_key, in_iceberg, byte_lt, bytes_hold, integers_hold, keys_hold,
}
pub use pgiceberg.Pushdown.Meaning.Rows.{
  Row, apply_classified, value_of_const, on_both, holds_of_some, array_op_says, is_null_value,
  null_says, is_truth, prefix_holds, of_cell, is_missing, reads_row,
}
pub use pgiceberg.Pushdown.Meaning.Operators.{operator_table, is_ordering}
unfoldable pub use pgiceberg.Pushdown.Meaning.Operators.{listed, operator_meaning, compares_bytes}
unfoldable pub use pgiceberg.Pushdown.Meaning.Rows.{
  text_holds, pg_keys_hold, pg_compare, apply_operator, value_of, all_hold, any_holds, array_says,
  says, literal_holds, all_literals, any_literal, matches, keeps,
}
