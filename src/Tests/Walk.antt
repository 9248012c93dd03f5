-- ===== src/Tests/Walk.antt =====
-- A scan of a table with a bigint `a` and a text `s`, under
-- `WHERE 3 < a AND a IN (4, NULL, 5) AND s LIKE 'ab%' AND s IS NOT NULL`.
use pgiceberg.Common.{
  ℕ, zero, suc, ◌≡◌, refl, Bool, [], ◌∷◌, List, Option, none, some, true, false, All,
  some-injective, subst,
}
use pgiceberg.Common.Bytes.{Bytes, text, eqb}
use pgiceberg.Common.Int.{ℤ, ◌+ℤ◌, pos, eq_ℤ}
use pgiceberg.Status.{ok}
use pgiceberg.Schema.{IcebergType, TypeId, long, PgType, int8_oid, text_oid}
use pgiceberg.Convert.{Datum, int8_datum, text_datum, int64, string}
use pgiceberg.Pushdown.Comparison.{Collation}
use pgiceberg.Pushdown.Constants.{long_literal, literal_for_const, long_for}
use pgiceberg.Pushdown.Walk.{
  scalar_const, array_const, Operand, variable, constant, relabel, Clause, op_expr, scalar_array_op,
  null_test, Planner, Field, ColumnTarget, strip_relabel, target_of, resolve_column,
  translate_quals_for_pushdown, and_also, comparison, in_list, starts_with, not_null,
  translate_quals, translate_clause, translate_op_expr, translate_op, translate_other,
  translate_comparison, translate_allowed, translate_plain, translate_scalar_array_op,
  translate_array, translate_elements, literals_of, translate_like, translate_null_test, list_kind,
}
use pgiceberg.Pushdown.Compared.{IsKinded, Agrees}
use pgiceberg.Pushdown.Keys.{kind_of_type, HasKind}
use pgiceberg.Logical.Mirror.{c_str}
use pgiceberg.Schema.Columns.{field_id_from_option_list}
use pgiceberg.Pushdown.Like.{like_matches, starts_with_prefix, split_last, prefix_of_split}
use pgiceberg.Pushdown.Comparison.{
  gt, collation_allows_string_pushdown, commute_comparison, classify_operator, comparison_of_name,
}
use pgiceberg.Pushdown.Meaning.{
  says, value_of, operator_meaning, listed, compares_bytes, apply_operator, pg_compare,
  pg_keys_hold, text_holds, datum_key, keys_hold, integers_hold, bytes_hold, array_says, any_holds,
  in_iceberg, Row, keeps, reads_row,
}
use pgiceberg.Pushdown.Operands.{ReadsRow, SafeOperand, SafeClause}
use pgiceberg.Pushdown.Sound.{translate_quals_for_pushdown-keeps}
use pgiceberg.Pushdown.Scanned.{
  Cell, cell_key, IsCell, long_big, words, value_in, convert_value-keeps,
}
use pgiceberg.Convert.Read.{
  convert_value, convert_some, convert_switch, integer_value, string_value,
  is_nanosecond_temporal_array,
}
use pgiceberg.Schema
use pgiceberg.Tests.Convert.{integers_only}

abbrev type_of : TypeId → IcebergType
type_of id = record { type_id = id; precision = pos 0; scale = pos 0; shown = [] }

abbrev operator_of : ℕ → Option (Bool × Bytes)
operator_of zero = some (true, text "<")
operator_of (suc zero) = some (true, text "=")
operator_of n = some (true, text "~~")

abbrev type_of_field : Bool → IcebergType
type_of_field true = type_of long
type_of_field false = type_of Schema.string

abbrev field_of : Bool → Field
field_of true = record { name = text "a"; type = some (type_of_field true) }
field_of false = record { name = text "s"; type = some (type_of_field false) }

abbrev name_of : Bool → Bytes
name_of true = text "a"
name_of false = text "s"

abbrev planner : Planner ℕ
planner = record {
  varno = 1;
  operator = operator_of;
  attribute_name = λ n. some (name_of (eq_ℤ n (pos 1)));
  column_options = λ n. [];
  find_field_by_id = λ id. ok none;
  find_field_by_name = λ name. ok (some (field_of (eqb name (text "a"))));
  is_primitive = λ type. true;
  builds = λ e. true;
  library = integers_only;
  uuid_from_bytes = λ s. none;
}

abbrev datum_of : Bool → Datum ℕ
datum_of true = int8_datum (pos 5)
datum_of false = text_datum (text "abc")

abbrev cell_of : Bool → Cell ℕ
cell_of true = (false, int64 (pos 5))
cell_of false = (false, string (text "abc"))

abbrev oid_of : Bool → PgType
oid_of true = int8_oid
oid_of false = text_oid

abbrev row : Row ℕ (Cell ℕ)
row = record {
  column = λ n. some (datum_of (eq_ℤ n (pos 1)));
  cell = λ name. some (cell_of (eqb name (text "a")));
  value_key = cell_key;
  other_variable = λ v. none;
  other_value = λ n. none;
  other_says = λ clause. false;
  other_operator = λ opno coll a b. false;
  other_comparison = λ c coll a b. false;
  other_literal = λ c v literal. false;
}

abbrev a_column : Operand ℕ
a_column = variable (record { varno = 1; varattno = pos 1; varlevelsup = 0; vartype = int8_oid })

abbrev s_column : Operand ℕ
s_column =
    relabel (variable (record { varno = 1; varattno = pos 2; varlevelsup = 0; vartype = text_oid }))

abbrev collation : Collation
collation = record { is_c = false; is_valid = true; is_deterministic = true }

abbrev clauses : List (Clause ℕ)
clauses =
    op_expr 0 collation (constant (scalar_const (int8_datum (pos 3))) ∷ a_column ∷ [])
    ∷ scalar_array_op 1 true collation (
        a_column
        ∷ constant (array_const (some (int8_datum (pos 4)) ∷ none ∷ some (int8_datum (pos 5)) ∷ []))
        ∷ [])
    ∷ op_expr 2 collation (s_column ∷ constant (scalar_const (text_datum (text "ab%"))) ∷ [])
    ∷ null_test false false s_column
    ∷ []

shows :
    (is_a : Bool) (k : ℕ)
    → kind_of_type (type_of_field is_a).type_id ≡ some k
    → HasKind k (datum_key (datum_of is_a))
      × (cell_key (cell_of is_a) ≡ in_iceberg (datum_key (datum_of is_a)))
unfolding kind_of_type datum_key in_iceberg c_str text ◌+ℤ◌ cell_key
shows true k kind = (kind, refl)
shows false k kind = (kind, refl)

reads_if :
    (is_a : Bool) (column : ColumnTarget)
    → target_of planner
        (λ name. name_of is_a)
        (ok (some (field_of (eqb (name_of is_a) (text "a")))))
      ≡ some column
    → Agrees planner row column.field_type (some (datum_of is_a)) (row.cell column.field_name)
unfolding eqb text
reads_if true column h =
    subst (λ c. Agrees planner row c.field_type (some (datum_of true)) (row.cell c.field_name))
      (some-injective h) (shows true)
reads_if false column h =
    subst (λ c. Agrees planner row c.field_type (some (datum_of false)) (row.cell c.field_name))
      (some-injective h) (shows false)

reads : ReadsRow planner row
unfolding resolve_column field_id_from_option_list
reads n column h = reads_if (eq_ℤ n (pos 1)) column h

kinded_if :
    (is_a : Bool) (column : ColumnTarget)
    → target_of planner
        (λ name. name_of is_a)
        (ok (some (field_of (eqb (name_of is_a) (text "a")))))
      ≡ some column
    → IsKinded column.field_type
unfolding eqb text kind_of_type
kinded_if true column h = subst (λ c. IsKinded c.field_type) (some-injective h) (1, refl)
kinded_if false column h = subst (λ c. IsKinded c.field_type) (some-injective h) (6, refl)

kinded :
    (n : ℤ) (column : ColumnTarget)
    → resolve_column planner n ≡ some column
    → IsKinded column.field_type
unfolding resolve_column field_id_from_option_list
kinded n column h = kinded_if (eq_ℤ n (pos 1)) column h

safe : All (SafeClause planner) clauses
unfolding SafeClause SafeOperand
safe = (
  (tt, ((λ scan. kinded (pos 1)), tt)),
  (
    ((λ scan. kinded (pos 1)), ((tt, (tt, (tt, tt))), tt)),
    (((λ scan. kinded (pos 2)), (tt, tt)), (tt, tt)),
  ),
)

kept : keeps planner row clauses ≡ true
unfolding keeps says value_of strip_relabel apply_operator pg_compare pg_keys_hold text_holds
    operator_meaning listed compares_bytes classify_operator comparison_of_name eqb text datum_key
    keys_hold integers_hold bytes_hold array_says any_holds c_str like_matches
kept = refl

pushed :
    translate_quals_for_pushdown planner clauses
    ≡ some (
        and_also
          (and_also
            (and_also
              (comparison gt (text "a") (long_literal (pos 3)))
              (in_list (text "a") (long_literal (pos 4) ∷ long_literal (pos 5) ∷ [])))
            (starts_with (text "s") (text "ab")))
          (not_null (text "s")))
unfolding translate_quals_for_pushdown translate_quals translate_clause translate_op_expr
    translate_op strip_relabel translate_other translate_comparison translate_allowed
    translate_plain literal_for_const long_for translate_scalar_array_op translate_array
    translate_elements literals_of translate_like starts_with_prefix split_last prefix_of_split
    translate_null_test resolve_column list_kind field_id_from_option_list classify_operator
    comparison_of_name commute_comparison eqb text c_str collation_allows_string_pushdown
pushed = refl

translate_quals_for_pushdown-keeps_example :
    reads_row planner row (translate_quals_for_pushdown planner clauses) ≡ true
translate_quals_for_pushdown-keeps_example =
    translate_quals_for_pushdown-keeps planner row clauses reads safe kept

stored_if :
    (is_a : Bool) (column : ColumnTarget) (v : Cell ℕ) (k : ℕ)
    → target_of planner
        (λ name. name_of is_a)
        (ok (some (field_of (eqb (name_of is_a) (text "a")))))
      ≡ some column
    → row.cell column.field_name ≡ some v
    → kind_of_type column.field_type.type_id ≡ some k
    → IsCell k (oid_of is_a) v
unfolding eqb text kind_of_type c_str
stored_if true column v k at e kind =
    subst
      (λ c.
        (v : Cell ℕ) (k : ℕ)
        → row.cell c.field_name ≡ some v
        → kind_of_type c.field_type.type_id ≡ some k
        → IsCell k int8_oid v)
      (some-injective at)
      (λ v k e kind.
        subst (λ v. IsCell k int8_oid v) (some-injective e)
          (subst (λ k. IsCell {F = ℕ} k int8_oid (false, int64 (pos 5))) (some-injective kind)
            (long_big false (pos 5))))
      v k e kind
stored_if false column v k at e kind =
    subst
      (λ c.
        (v : Cell ℕ) (k : ℕ)
        → row.cell c.field_name ≡ some v
        → kind_of_type c.field_type.type_id ≡ some k
        → IsCell k text_oid v)
      (some-injective at)
      (λ v k e kind.
        subst (λ v. IsCell k text_oid v) (some-injective e)
          (subst (λ k. IsCell {F = ℕ} k text_oid (false, string (text "abc"))) (some-injective kind)
            (words false (text "abc") refl)))
      v k e kind

converted_if :
    (is_a : Bool) (column : ColumnTarget)
    → target_of planner
        (λ name. name_of is_a)
        (ok (some (field_of (eqb (name_of is_a) (text "a")))))
      ≡ some column
    → convert_value integers_only false [] (value_in (row.cell column.field_name)) (oid_of is_a)
      ≡ ok (some (datum_of is_a))
unfolding eqb text c_str convert_value convert_some convert_switch integer_value string_value
    is_nanosecond_temporal_array
converted_if true column at =
    subst
      (λ c.
        convert_value integers_only false [] (value_in (row.cell c.field_name)) int8_oid
        ≡ ok (some (datum_of true)))
      (some-injective at) refl
converted_if false column at =
    subst
      (λ c.
        convert_value integers_only false [] (value_in (row.cell c.field_name)) text_oid
        ≡ ok (some (datum_of false)))
      (some-injective at) refl

convert_value-keeps_example :
    reads_row planner row (translate_quals_for_pushdown planner clauses) ≡ true
unfolding resolve_column field_id_from_option_list
convert_value-keeps_example =
    convert_value-keeps planner row false (λ n. []) (λ n. oid_of (eq_ℤ n (pos 1))) clauses
      (λ v. refl) (λ n column v k at e kind. stored_if (eq_ℤ n (pos 1)) column v k at e kind)
      (λ n column at. converted_if (eq_ℤ n (pos 1)) column at) safe kept
