-- ===== src/Pushdown/Truths.antt =====
-- `TranslateBooleanColumn` and `TranslateNullTest` of src/fdw/qual_pushdown.cc keep each row for which the
-- clause is true.
use pgiceberg.Common.{
  ◌≡◌, refl, ap, subst, ◌∙◌, Bool, true, false, not, Option, none, some, Bool-cases, Option-cases,
  inl, inr, some-injective,
}
use pgiceberg.Common.Int.{◌+ℤ◌}
use pgiceberg.Schema.{TypeId, boolean, IcebergType}
use pgiceberg.Schema.Types.{is_type}
use pgiceberg.Convert.{Datum, bool_datum}
use pgiceberg.Pushdown.Comparison.{eq_to}
use pgiceberg.Pushdown.Constants.{boolean_literal}
use pgiceberg.Pushdown.Keys.{kind_of_type}
use pgiceberg.Pushdown.Meaning.{
  datum_key, literal_key, in_iceberg, keys_hold, integers_hold, Row, value_of, is_truth,
  is_null_value, null_says, is_missing, literal_holds, matches,
}
use pgiceberg.Pushdown.Walk.{
  Operand, Planner, ColumnTarget, Expression, as_scan_column, resolve_column, boolean_of, is_bool,
  translate_boolean_column, null_test_of, translate_null_test,
}
use pgiceberg.Pushdown.Compared.{no_some, Agrees, Agrees-some}
use pgiceberg.Pushdown.Operands.{ReadsRow, as_scan_column-value}
use pgiceberg.Pushdown.Clauses.{column-Agrees}

boolean_kind : (t : TypeId) → is_type t boolean ≡ true → kind_of_type t ≡ some 0
unfolding kind_of_type
boolean_kind boolean h = refl
boolean_kind other h = absurd (cc)

module _ {F V : Type 0} (x : Planner F) (row : Row F V) where
  is_truth_inversion :
      (expected : Bool) (value : Option (Datum F))
      → is_truth x row expected value ≡ true
      → value ≡ some (bool_datum expected)
  is_truth_inversion true (some (bool_datum true)) h = refl
  is_truth_inversion true (some (bool_datum false)) h = absurd (cc)
  is_truth_inversion false (some (bool_datum true)) h = absurd (cc)
  is_truth_inversion false (some (bool_datum false)) h = refl
  is_truth_inversion expected other h = absurd (cc)

  -- A truth equals itself as a cell.
  boolean_holds :
      (expected : Bool) (v : V)
      → row.value_key v ≡ in_iceberg (datum_key {F = F} (bool_datum expected))
      → literal_holds x row eq_to v (boolean_literal expected) ≡ true
  unfolding literal_holds literal_key keys_hold integers_hold in_iceberg datum_key ◌+ℤ◌
  boolean_holds true v h = rw (h) refl
  boolean_holds false v h = rw (h) refl

  boolean_of_sound :
      (expected : Bool) (made : Option ColumnTarget) (e : Expression F)
      → ((column : ColumnTarget)
          → made ≡ some column
          → Agrees x row column.field_type
              (some (bool_datum expected))
              (row.cell column.field_name))
      → boolean_of x expected made ≡ some e
      → matches x row e ≡ true
  unfolding matches
  boolean_of_sound expected none e h t = no_some e t
  boolean_of_sound expected (some column) e h t =
      elim (Bool-cases (is_type column.field_type.type_id boolean)) [
        | inr f ↦ no_some e (rw (f) at t)
        | inl f ↦
            let (v, at, (k, kind, ha, shown)) =
              Agrees-some x row column.field_type _ _ (0, boolean_kind column.field_type.type_id f)
                (h column refl) in
            subst (λ e. matches x row e ≡ true) (some-injective (rw (f) at t))
              (rw (at) (boolean_holds expected v shown))
      ]

  -- A column, or its negation, that is true.
  pub translate_boolean_column_sound :
      (expected : Bool) (o : Operand F) (e : Expression F)
      → ReadsRow x row
      → is_truth x row expected (value_of x row o) ≡ true
      → translate_boolean_column x (as_scan_column x o) expected ≡ some e
      → matches x row e ≡ true
  unfolding translate_boolean_column
  translate_boolean_column_sound expected o e reads h t = elim (Option-cases (as_scan_column x o)) [
    | inl scan ↦ no_some e (rw (scan, translate_boolean_column) at t)
    | inr (v, scan) ↦ (elim (Bool-cases (is_bool x v.vartype)) [
      | inr f ↦ no_some e (rw (f) at (rw (scan, translate_boolean_column) at t))
      | inl f ↦
          boolean_of_sound expected (resolve_column x v.varattno) e
            (λ column at.
              column-Agrees x row o v column (bool_datum expected) reads scan at
                (is_truth_inversion expected (value_of x row o) h))
            (rw (f) at (rw (scan, translate_boolean_column) at t))
    ])
  ]

  Agrees-is_missing :
      (type : IcebergType) (value : Option (Datum F)) (cell : Option V)
      → Agrees x row type value cell
      → is_missing x row cell ≡ is_null_value x row value
  Agrees-is_missing type none none agree = refl
  Agrees-is_missing type none (some v) agree = absurd (agree)
  Agrees-is_missing type (some a) none agree = absurd (agree)
  Agrees-is_missing type (some a) (some v) agree = refl

  null_test_of_sound :
      (test : Bool) (value : Option (Datum F)) (made : Option ColumnTarget) (e : Expression F)
      → ((column : ColumnTarget)
          → made ≡ some column
          → Agrees x row column.field_type value (row.cell column.field_name))
      → null_says x row test value ≡ true
      → null_test_of x test made ≡ some e
      → matches x row e ≡ true
  unfolding matches
  null_test_of_sound test value none e h n t = no_some e t
  null_test_of_sound true value (some column) e h n t =
      subst (λ e. matches x row e ≡ true) (some-injective t)
        (Agrees-is_missing column.field_type value _ (h column refl) ∙ n)
  null_test_of_sound false value (some column) e h n t =
      subst (λ e. matches x row e ≡ true) (some-injective t)
        (ap not (Agrees-is_missing column.field_type value _ (h column refl)) ∙ n)

  pub translate_null_test_sound :
      (test : Bool) (o : Operand F) (e : Expression F)
      → ReadsRow x row
      → null_says x row test (value_of x row o) ≡ true
      → translate_null_test x test false o ≡ some e
      → matches x row e ≡ true
  unfolding translate_null_test
  translate_null_test_sound test o e reads n t = elim (Option-cases (as_scan_column x o)) [
    | inl scan ↦ no_some e (rw (scan, translate_null_test) at t)
    | inr (v, scan) ↦
        null_test_of_sound test (row.column v.varattno) (resolve_column x v.varattno) e
          (reads v.varattno) (rw (as_scan_column-value x row o v scan) at n)
          (rw (scan, translate_null_test) at t)
  ]
