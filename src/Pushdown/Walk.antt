-- ===== src/Pushdown/Walk.antt =====
-- The walk over the clauses in src/fdw/qual_pushdown.cc.
mod Nodes
mod Comparisons
mod Quals
pub use pgiceberg.Pushdown.Walk.Nodes.{
  Var, Const, null_const, scalar_const, array_const, Operand, relabel, variable, constant,
  other_operand, BoolTest, is_true, is_false, other_test, Clause, op_expr, scalar_array_op,
  null_test, var_clause, not_expr, boolean_test, other_clause, Expression, comparison, starts_with,
  not_starts_with, in_list, not_in_list, is_null, not_null, and_also, ColumnTarget, Field, Planner,
  is_scan_column, scan_column_of, as_scan_column, target_of,
}
unfoldable pub use pgiceberg.Pushdown.Walk.Nodes.{strip_relabel, resolve_column}
pub use pgiceberg.Pushdown.Walk.Comparisons.{
  is_forbidden, literal_of, pattern_of, starts_with_of, comparison_of, translate_with, classified,
  translate_classified,
}
unfoldable pub use pgiceberg.Pushdown.Walk.Comparisons.{
  translate_like, translate_plain, translate_allowed, translate_comparison, translate_other,
  translate_op, translate_op_expr,
}
pub use pgiceberg.Pushdown.Walk.Quals.{
  add_literal, list_of, boolean_of, is_bool, null_test_of, null_test_on, if_built, combined,
}
unfoldable pub use pgiceberg.Pushdown.Walk.Quals.{
  list_kind, literals_of, translate_elements, translate_array, translate_scalar_array_op,
  translate_boolean_column, translate_null_test, translate_clause, translate_quals,
  translate_quals_for_pushdown,
}
