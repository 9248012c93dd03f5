-- ===== src/Pushdown/Walk/Quals.antt =====
-- `TranslateScalarArrayOp` to `TranslateQualsForPushdown` of src/fdw/qual_pushdown.cc.
use pgiceberg.Common.{ℕ, Bool, true, false, List, [], ◌∷◌, Option, none, some, if◌then◌else◌}
use pgiceberg.Common.Bytes.{Bytes}
use pgiceberg.Schema.{boolean, PgType, bool_oid}
use pgiceberg.Schema.Types.{is_type}
use pgiceberg.Convert.{Datum}
use pgiceberg.Pushdown.Comparison.{PgComparison, eq_to, not_eq, Collation}
use pgiceberg.Pushdown.Constants.{Literal, boolean_literal, LiteralUse, equality_member, exact}
use pgiceberg.Pushdown.Walk.Nodes.{
  Var, array_const, Operand, variable, constant, is_true, is_false, other_test, Clause, op_expr,
  scalar_array_op, null_test, var_clause, not_expr, boolean_test, other_clause, Expression,
  comparison, in_list, not_in_list, is_null, not_null, and_also, ColumnTarget, Planner,
  strip_relabel, as_scan_column, resolve_column,
}
use pgiceberg.Pushdown.Walk.Comparisons.{is_forbidden, literal_of, classified, translate_op_expr}

-- `is_in`, or `is_not_in`, or neither.
unfoldable pub list_kind : Bool → Option PgComparison → Option Bool
list_kind true (some eq_to) = some true
list_kind false (some not_eq) = some false
list_kind use_or other = none

module _ {F : Type 0} (x : Planner F) where
  -- The loop over the elements: one that is NULL is left out, one with no literal ends it.
  abbrev pub add_literal :
      Option (Literal F) → Option (List (Literal F)) → Option (List (Literal F))
  add_literal none rest = none
  add_literal (some literal) none = none
  add_literal (some literal) (some rest) = some (literal ∷ rest)

  unfoldable pub literals_of :
      ColumnTarget → LiteralUse → List (Option (Datum F)) → Option (List (Literal F))
  literals_of column use_of [] = some []
  literals_of column use_of (none ∷ elements) = literals_of column use_of elements
  literals_of column use_of (some datum ∷ elements) =
      add_literal (literal_of x datum column use_of) (literals_of column use_of elements)

  abbrev pub list_of : Bool → Bytes → Option (List (Literal F)) → Option (Expression F)
  list_of is_in name none = none
  list_of is_in name (some []) = none
  list_of true name (some (literal ∷ literals)) = some (in_list name (literal ∷ literals))
  list_of false name (some (literal ∷ literals)) = some (not_in_list name (literal ∷ literals))

  unfoldable pub translate_elements :
      Bool → Collation → ColumnTarget → List (Option (Datum F)) → Option (Expression F)
  translate_elements true coll column elements =
      if is_forbidden column coll eq_to
      then none
      else list_of true column.field_name (literals_of column equality_member elements)
  translate_elements false coll column elements =
      if is_forbidden column coll not_eq
      then none
      else list_of false column.field_name (literals_of column exact elements)

  unfoldable pub translate_array :
      Option Bool → Collation → Option Var → Operand F → Option (Expression F)
  translate_array (some is_in) coll (some v) (constant (array_const elements)) =
      elim (resolve_column x v.varattno) [
        | none ↦ none
        | some column ↦ translate_elements is_in coll column elements
      ]
  translate_array kind coll v other = none

  unfoldable pub translate_scalar_array_op :
      ℕ → Bool → Collation → List (Operand F) → Option (Expression F)
  translate_scalar_array_op opno use_or coll (left ∷ right ∷ []) =
      translate_array (list_kind use_or (classified x opno)) coll (as_scan_column x left)
        (strip_relabel right)
  translate_scalar_array_op opno use_or coll other = none

  abbrev pub boolean_of : Bool → Option ColumnTarget → Option (Expression F)
  boolean_of expected none = none
  boolean_of expected (some column) =
      if is_type column.field_type.type_id boolean
      then some (comparison eq_to column.field_name (boolean_literal expected))
      else none

  abbrev pub is_bool : PgType → Bool
  is_bool bool_oid = true
  is_bool other = false

  unfoldable pub translate_boolean_column : Option Var → Bool → Option (Expression F)
  translate_boolean_column none expected = none
  translate_boolean_column (some v) expected =
      if is_bool v.vartype then boolean_of expected (resolve_column x v.varattno) else none

  abbrev pub null_test_of : Bool → Option ColumnTarget → Option (Expression F)
  null_test_of test none = none
  null_test_of true (some column) = some (is_null column.field_name)
  null_test_of false (some column) = some (not_null column.field_name)

  abbrev pub null_test_on : Bool → Option Var → Option (Expression F)
  null_test_on test none = none
  null_test_on test (some v) = null_test_of test (resolve_column x v.varattno)

  unfoldable pub translate_null_test : Bool → Bool → Operand F → Option (Expression F)
  translate_null_test test true arg = none
  translate_null_test test false arg = null_test_on test (as_scan_column x arg)

  unfoldable pub translate_clause : Clause F → Option (Expression F)
  translate_clause (op_expr opno coll args) = translate_op_expr x opno coll args
  translate_clause (scalar_array_op opno use_or coll args) =
      translate_scalar_array_op opno use_or coll args
  translate_clause (null_test test argisrow arg) = translate_null_test test argisrow arg
  translate_clause (var_clause v) = translate_boolean_column (as_scan_column x (variable v)) true
  translate_clause (not_expr (arg ∷ [])) = translate_boolean_column (as_scan_column x arg) false
  translate_clause (not_expr other) = none
  translate_clause (boolean_test is_true arg) = translate_boolean_column (as_scan_column x arg) true
  translate_clause (boolean_test is_false arg) =
      translate_boolean_column (as_scan_column x arg) false
  translate_clause (boolean_test other_test arg) = none
  translate_clause (other_clause n) = none

  -- An exception makes a clause one that is not pushed down.
  abbrev pub if_built : Option (Expression F) → Option (Expression F)
  if_built none = none
  if_built (some e) = if x.builds e then some e else none

  -- The filter with one more predicate; `none` is an exception.
  abbrev pub combined : Option (Expression F) → Expression F → Option (Expression F)
  combined none translated = some translated
  combined (some filter) translated =
      if x.builds (and_also filter translated) then some (and_also filter translated) else none

  -- The loop of `TranslateQualsForPushdown` from the filter so far.
  unfoldable pub translate_quals : Option (Expression F) → List (Clause F) → Option (Expression F)
  translate_quals filter [] = filter
  translate_quals filter (clause ∷ clauses) = elim (if_built (translate_clause clause)) [
    | none ↦ translate_quals filter clauses
    | some translated ↦ (elim (combined filter translated) [
      | none ↦ none
      | some next ↦ translate_quals (some next) clauses
    ])
  ]

  unfoldable pub translate_quals_for_pushdown : List (Clause F) → Option (Expression F)
  translate_quals_for_pushdown clauses = translate_quals none clauses
