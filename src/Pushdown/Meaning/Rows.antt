-- ===== src/Pushdown/Meaning/Rows.antt =====
-- What the clauses of src/fdw/qual_pushdown.cc say of a row in PostgreSQL, and what the expressions say of it in
-- Iceberg. Both are descriptions of documented behaviour: PostgreSQL keeps a row for which each
-- clause is true, and a comparison with NULL is not.
use pgiceberg.Common.{
  ℕ, Bool, true, false, ◌&&◌, ◌||◌, not, List, [], ◌∷◌, Option, none, some, is_empty, if◌then◌else◌,
}
use pgiceberg.Common.Bytes.{Bytes}
use pgiceberg.Common.Int.{ℤ}
use pgiceberg.Convert.{Datum, bool_datum}
use pgiceberg.Pushdown.Comparison.{PgComparison, eq_to, not_eq, like, not_like, Collation}
use pgiceberg.Pushdown.Constants.{Literal}
use pgiceberg.Pushdown.Like
use pgiceberg.Pushdown.Like.{like_matches}
use pgiceberg.Pushdown.Walk.{
  Var, Const, null_const, scalar_const, array_const, Operand, relabel, variable, constant,
  other_operand, is_true, is_false, other_test, Clause, op_expr, scalar_array_op, null_test,
  var_clause, not_expr, boolean_test, other_clause, Expression, comparison, starts_with,
  not_starts_with, in_list, not_in_list, is_null, not_null, and_also, Planner, is_scan_column,
  strip_relabel,
}
use pgiceberg.Pushdown.Meaning.Operators.{operator_meaning, compares_bytes}
use pgiceberg.Pushdown.Meaning.Values.{
  Key, characters, datum_key, literal_key, bytes_hold, keys_hold,
}

-- The row: its columns in PostgreSQL, its cells in Iceberg, and what the nodes say of it that the source does not
-- look into.
pub record Row (F V : Type 0) : Type 0 where
  pub column : ℤ → Option (Datum F)
  pub cell : Bytes → Option V
  pub value_key : V → Key
  pub other_variable : Var → Option (Datum F)
  pub other_value : ℕ → Option (Datum F)
  pub other_says : Clause F → Bool
  pub other_operator : ℕ → Collation → Datum F → Datum F → Bool
  pub other_comparison : PgComparison → Collation → Datum F → Datum F → Bool
  pub other_literal : PgComparison → V → Literal F → Bool

module _ {F V : Type 0} (x : Planner F) (row : Row F V) where
  -- Text is compared by bytes under some collations, and in a way that is not known here under others.
  unfoldable pub text_holds : PgComparison → Collation → Bytes → Bytes → Bool → Bool
  text_holds like coll s t otherwise =
      if compares_bytes coll like then like_matches false t s else otherwise
  text_holds not_like coll s t otherwise =
      if compares_bytes coll not_like then not (like_matches false t s) else otherwise
  text_holds c coll s t otherwise = if compares_bytes coll c then bytes_hold c s t else otherwise

  unfoldable pub pg_keys_hold : Bool → PgComparison → Collation → Key → Key → Bool
  pg_keys_hold otherwise c coll (characters s) (characters t) = text_holds c coll s t otherwise
  pg_keys_hold otherwise c coll a b = keys_hold otherwise c a b

  -- A comparison operator of pg_catalog.
  unfoldable pub pg_compare : PgComparison → Collation → Datum F → Datum F → Bool
  pg_compare c coll a b =
      pg_keys_hold (row.other_comparison c coll a b) c coll (datum_key a) (datum_key b)

  abbrev pub apply_classified : Option PgComparison → ℕ → Collation → Datum F → Datum F → Bool
  apply_classified none opno coll a b = row.other_operator opno coll a b
  apply_classified (some c) opno coll a b = pg_compare c coll a b

  unfoldable pub apply_operator : ℕ → Collation → Datum F → Datum F → Bool
  apply_operator opno coll a b = apply_classified (operator_meaning (x.operator opno)) opno coll a b

  abbrev pub value_of_const : Const F → Option (Datum F)
  value_of_const null_const = none
  value_of_const (scalar_const datum) = some datum
  value_of_const (array_const elements) = none

  unfoldable pub value_of : Operand F → Option (Datum F)
  value_of (relabel o) = value_of o
  value_of (variable v) = if is_scan_column x v then row.column v.varattno else row.other_variable v
  value_of (constant c) = value_of_const c
  value_of (other_operand n) = row.other_value n

  -- A strict function of two values.
  abbrev pub on_both : (Datum F → Datum F → Bool) → Option (Datum F) → Option (Datum F) → Bool
  on_both f (some a) (some b) = f a b
  on_both f (some a) none = false
  on_both f none b = false

  -- `= ANY` is true if one element is equal; `<> ALL` if all elements are there and differ.
  abbrev pub holds_of_some : (Datum F → Bool) → Option (Datum F) → Bool
  holds_of_some f none = false
  holds_of_some f (some a) = f a

  unfoldable pub all_hold : (Datum F → Bool) → List (Option (Datum F)) → Bool
  all_hold f [] = true
  all_hold f (e ∷ elements) = holds_of_some f e && all_hold f elements

  unfoldable pub any_holds : (Datum F → Bool) → List (Option (Datum F)) → Bool
  any_holds f [] = false
  any_holds f (e ∷ elements) = holds_of_some f e || any_holds f elements

  unfoldable pub array_says :
      Bool → (Datum F → Datum F → Bool) → List (Option (Datum F)) → Option (Datum F) → Bool
  array_says true f elements (some a) = any_holds (f a) elements
  array_says true f elements none = false
  array_says false f elements (some a) = all_hold (f a) elements
  array_says false f elements none = is_empty elements

  abbrev pub array_op_says : Bool → (Datum F → Datum F → Bool) → Operand F → Operand F → Bool → Bool
  array_op_says use_or f left (constant (array_const elements)) otherwise =
      array_says use_or f elements (value_of left)
  array_op_says use_or f left right otherwise = otherwise

  abbrev pub is_null_value : Option (Datum F) → Bool
  is_null_value none = true
  is_null_value (some a) = false

  abbrev pub null_says : Bool → Option (Datum F) → Bool
  null_says true value = is_null_value value
  null_says false value = not (is_null_value value)

  abbrev pub is_truth : Bool → Option (Datum F) → Bool
  is_truth expected (some (bool_datum true)) = expected
  is_truth expected (some (bool_datum false)) = not expected
  is_truth expected other = false

  -- Whether a clause is true.
  unfoldable pub says : Clause F → Bool
  says (op_expr opno coll (left ∷ right ∷ [])) =
      on_both (apply_operator opno coll) (value_of left) (value_of right)
  says (op_expr opno coll other) = row.other_says (op_expr opno coll other)
  says (scalar_array_op opno use_or coll (left ∷ right ∷ [])) =
      array_op_says use_or (apply_operator opno coll) left (strip_relabel right)
        (row.other_says (scalar_array_op opno use_or coll (left ∷ right ∷ [])))
  says (scalar_array_op opno use_or coll other) =
      row.other_says (scalar_array_op opno use_or coll other)
  says (null_test test true arg) = row.other_says (null_test test true arg)
  says (null_test test false arg) = null_says test (value_of arg)
  says (var_clause v) = is_truth true (value_of (variable v))
  says (not_expr (arg ∷ [])) = is_truth false (value_of arg)
  says (not_expr other) = row.other_says (not_expr other)
  says (boolean_test is_true arg) = is_truth true (value_of arg)
  says (boolean_test is_false arg) = is_truth false (value_of arg)
  says (boolean_test other_test arg) = row.other_says (boolean_test other_test arg)
  says (other_clause n) = row.other_says (other_clause n)

  -- A literal against the value of a cell. An expression is not true of a cell that is NULL.
  unfoldable pub literal_holds : PgComparison → V → Literal F → Bool
  literal_holds c v literal =
      keys_hold (row.other_literal c v literal) c (row.value_key v) (literal_key literal)

  abbrev pub prefix_holds : Bool → Key → Bytes → Bool
  prefix_holds true (characters s) prefix = Like.starts_with prefix s
  prefix_holds false (characters s) prefix = not (Like.starts_with prefix s)
  prefix_holds expected other prefix = false

  unfoldable pub all_literals : (Literal F → Bool) → List (Literal F) → Bool
  all_literals f [] = true
  all_literals f (literal ∷ literals) = f literal && all_literals f literals

  unfoldable pub any_literal : (Literal F → Bool) → List (Literal F) → Bool
  any_literal f [] = false
  any_literal f (literal ∷ literals) = f literal || any_literal f literals

  abbrev pub of_cell : (V → Bool) → Option V → Bool
  of_cell f none = false
  of_cell f (some v) = f v

  abbrev pub is_missing : Option V → Bool
  is_missing none = true
  is_missing (some v) = false

  unfoldable pub matches : Expression F → Bool
  matches (comparison c name literal) = of_cell (λ v. literal_holds c v literal) (row.cell name)
  matches (starts_with name prefix) =
      of_cell (λ v. prefix_holds true (row.value_key v) prefix) (row.cell name)
  matches (not_starts_with name prefix) =
      of_cell (λ v. prefix_holds false (row.value_key v) prefix) (row.cell name)
  matches (in_list name literals) =
      of_cell (λ v. any_literal (literal_holds eq_to v) literals) (row.cell name)
  matches (not_in_list name literals) =
      of_cell (λ v. all_literals (literal_holds not_eq v) literals) (row.cell name)
  matches (is_null name) = is_missing (row.cell name)
  matches (not_null name) = not (is_missing (row.cell name))
  matches (and_also a b) = matches a && matches b

  -- Whether the WHERE clause keeps the row.
  unfoldable pub keeps : List (Clause F) → Bool
  keeps [] = true
  keeps (clause ∷ clauses) = says clause && keeps clauses

  -- Whether a scan with the filter, or with none, reads the row.
  abbrev pub reads_row : Option (Expression F) → Bool
  reads_row none = true
  reads_row (some filter) = matches filter
