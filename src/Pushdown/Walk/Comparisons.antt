-- ===== src/Pushdown/Walk/Comparisons.antt =====
-- `TranslateComparison` and `TranslateOpExpr` of src/fdw/qual_pushdown.cc.
use pgiceberg.Common.{
  ℕ, Bool, true, false, ◌&&◌, not, List, [], ◌∷◌, Option, none, some, if◌then◌else◌,
}
use pgiceberg.Common.Bytes.{Bytes}
use pgiceberg.Logical.Mirror.{c_str}
use pgiceberg.Schema.{string}
use pgiceberg.Schema.Types.{is_type}
use pgiceberg.Convert.{Datum, text_datum, varchar_datum}
use pgiceberg.Pushdown.Comparison.{
  PgComparison, eq_to, not_eq, lt, lt_eq, gt, gt_eq, like, not_like, commute_comparison,
  classify_operator, Collation, collation_allows_string_pushdown,
}
use pgiceberg.Pushdown.Constants.{Literal, LiteralUse, equality_member, exact, literal_for_const}
use pgiceberg.Pushdown.Like.{starts_with_prefix}
use pgiceberg.Pushdown.Walk.Nodes.{
  Var, scalar_const, Operand, constant, Expression, comparison, starts_with, not_starts_with,
  ColumnTarget, Planner, strip_relabel, as_scan_column, resolve_column,
}

-- The test of the collation at the top of `TranslateComparison` and in `TranslateScalarArrayOp`.
abbrev pub is_forbidden : ColumnTarget → Collation → PgComparison → Bool
is_forbidden column coll c =
    is_type column.field_type.type_id string && not (collation_allows_string_pushdown coll c)

module _ {F : Type 0} (x : Planner F) where
  abbrev pub literal_of : Datum F → ColumnTarget → LiteralUse → Option (Literal F)
  literal_of datum column use_of =
      literal_for_const x.library x.uuid_from_bytes datum column.field_type use_of

  abbrev pub pattern_of : Datum F → Option Bytes
  pattern_of (text_datum s) = starts_with_prefix (c_str s)
  pattern_of (varchar_datum s) = starts_with_prefix (c_str s)
  pattern_of other = none

  abbrev pub starts_with_of : Bool → Bytes → Option Bytes → Option (Expression F)
  starts_with_of holds name none = none
  starts_with_of true name (some prefix) = some (starts_with name prefix)
  starts_with_of false name (some prefix) = some (not_starts_with name prefix)

  unfoldable pub translate_like : Bool → ColumnTarget → Datum F → Option (Expression F)
  translate_like holds column datum =
      if is_type column.field_type.type_id string
      then starts_with_of holds column.field_name (pattern_of datum)
      else none

  abbrev pub comparison_of : PgComparison → Bytes → Option (Literal F) → Option (Expression F)
  comparison_of c name none = none
  comparison_of c name (some literal) = some (comparison c name literal)

  unfoldable pub translate_plain :
      PgComparison → LiteralUse → ColumnTarget → Datum F → Option (Expression F)
  translate_plain c use_of column datum =
      comparison_of c column.field_name (literal_of datum column use_of)

  unfoldable pub translate_allowed : PgComparison → ColumnTarget → Datum F → Option (Expression F)
  translate_allowed like column datum = translate_like true column datum
  translate_allowed not_like column datum = translate_like false column datum
  translate_allowed eq_to column datum = translate_plain eq_to equality_member column datum
  translate_allowed not_eq column datum = translate_plain not_eq exact column datum
  translate_allowed lt column datum = translate_plain lt exact column datum
  translate_allowed lt_eq column datum = translate_plain lt_eq exact column datum
  translate_allowed gt column datum = translate_plain gt exact column datum
  translate_allowed gt_eq column datum = translate_plain gt_eq exact column datum

  unfoldable pub translate_comparison :
      ColumnTarget → PgComparison → Collation → Datum F → Option (Expression F)
  translate_comparison column c coll datum =
      if is_forbidden column coll c then none else translate_allowed c column datum

  abbrev pub translate_with : Var → PgComparison → Collation → Datum F → Option (Expression F)
  translate_with v c coll datum = elim (resolve_column x v.varattno) [
    | none ↦ none
    | some column ↦ translate_comparison column c coll datum
  ]

  -- The rest of `TranslateOpExpr`, from the other operand.
  unfoldable pub translate_other :
      Var → Option PgComparison → Collation → Operand F → Option (Expression F)
  translate_other v none coll other = none
  translate_other v (some c) coll (constant (scalar_const datum)) = translate_with v c coll datum
  translate_other v (some c) coll other = none

  unfoldable pub translate_op :
      PgComparison → Collation → Operand F → Operand F → Option (Expression F)
  translate_op c coll left right = elim (as_scan_column x left) [
    | some v ↦ translate_other v (some c) coll (strip_relabel right)
    | none ↦ (elim (as_scan_column x right) [
      | some v ↦ translate_other v (commute_comparison c) coll (strip_relabel left)
      | none ↦ none
    ])
  ]

  abbrev pub classified : ℕ → Option PgComparison
  classified opno = classify_operator (x.operator opno)

  abbrev pub translate_classified :
      Option PgComparison → Collation → Operand F → Operand F → Option (Expression F)
  translate_classified none coll left right = none
  translate_classified (some c) coll left right = translate_op c coll left right

  unfoldable pub translate_op_expr : ℕ → Collation → List (Operand F) → Option (Expression F)
  translate_op_expr opno coll (left ∷ right ∷ []) =
      translate_classified (classified opno) coll left right
  translate_op_expr opno coll other = none
