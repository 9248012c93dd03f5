-- ===== src/Pushdown/Operands.antt =====
-- The operands of src/fdw/qual_pushdown.cc: `StripRelabel`, `AsScanColumn` and `ResolveColumn` as a row has them.
use pgiceberg.Common.{
  ◌≡◌, refl, ap, subst, ◌∙◌, Bool, true, Option, none, some, Bool-cases, Option-cases, inl, inr,
  some-injective, All,
}
use pgiceberg.Common.Int.{ℤ}
use pgiceberg.Convert.{Datum}
use pgiceberg.Pushdown.Comparison.{PgComparison, Collation}
use pgiceberg.Pushdown.Renders.{IsSafe}
use pgiceberg.Pushdown.Meaning.{Row, value_of, on_both}
use pgiceberg.Pushdown.Walk.{
  Var, scalar_const, array_const, Operand, relabel, variable, constant, other_operand, Clause,
  op_expr, scalar_array_op, Planner, ColumnTarget, Expression, strip_relabel, is_scan_column,
  scan_column_of, as_scan_column, resolve_column, translate_with, translate_comparison,
  translate_other,
}
use pgiceberg.Pushdown.Compared.{no_some, IsKinded, Agrees}

-- Constants whose timestamps are within the range of their literals.
abbrev pub IsSafeElement : {F : Type 0} → Option (Datum F) → Type 0
IsSafeElement none = Unit {0}
IsSafeElement (some d) = IsSafe d

module _ {F : Type 0} (x : Planner F) where
  -- A column of the scan whose type has a kind, or a constant whose timestamps are in range.
  unfoldable pub SafeOperand : Operand F → Type 0
  SafeOperand (relabel o) = SafeOperand o
  SafeOperand (variable v) =
      is_scan_column x v ≡ true
      → (column : ColumnTarget) → resolve_column x v.varattno ≡ some column
      → IsKinded column.field_type
  SafeOperand (constant (scalar_const d)) = IsSafe d
  SafeOperand (constant (array_const elements)) = All IsSafeElement elements
  SafeOperand other = Unit {0}

  unfoldable pub SafeClause : Clause F → Type 0
  SafeClause (op_expr opno coll args) = All SafeOperand args
  SafeClause (scalar_array_op opno use_or coll args) = All SafeOperand args
  SafeClause other = Unit {0}

  pub SafeOperand-strip_relabel : (o : Operand F) → SafeOperand o → SafeOperand (strip_relabel o)
  unfolding SafeOperand strip_relabel
  SafeOperand-strip_relabel (relabel o) safe = SafeOperand-strip_relabel o safe
  SafeOperand-strip_relabel (variable v) safe = safe
  SafeOperand-strip_relabel (constant c) safe = safe
  SafeOperand-strip_relabel (other_operand n) safe = safe

  -- What `scan_column_of` answers is the variable itself, of the scan.
  pub scan_column_of_inversion :
      (o : Operand F) (v : Var)
      → scan_column_of x o ≡ some v
      → (o ≡ variable v) × (is_scan_column x v ≡ true)
  scan_column_of_inversion (variable w) v h = elim (Bool-cases (is_scan_column x w)) [
    | inl t ↦
        let same : w ≡ v = some-injective (rw (t) at h) in
        (ap variable same, subst (λ v. is_scan_column x v ≡ true) same t)
    | inr f ↦ no_some v (rw (f) at h)
  ]
  scan_column_of_inversion other v h = no_some v h

  pub SafeOperand-IsKinded :
      (o : Operand F) (v : Var) (column : ColumnTarget)
      → SafeOperand o
      → as_scan_column x o ≡ some v
      → resolve_column x v.varattno ≡ some column
      → IsKinded column.field_type
  unfolding SafeOperand
  SafeOperand-IsKinded o v column safe scan at =
      let (is, of_scan) = scan_column_of_inversion (strip_relabel o) v scan in
      subst SafeOperand is (SafeOperand-strip_relabel o safe) of_scan column at

module _ {F V : Type 0} (x : Planner F) (row : Row F V) where
  -- Each column that is resolved shows in PostgreSQL what its cell holds in Iceberg.
  abbrev pub ReadsRow : Type 0
  ReadsRow =
      (n : ℤ) (column : ColumnTarget)
      → resolve_column x n ≡ some column
      → Agrees x row column.field_type (row.column n) (row.cell column.field_name)

  -- A relabelling does not change a value.
  pub value_of-strip_relabel : (o : Operand F) → value_of x row o ≡ value_of x row (strip_relabel o)
  unfolding value_of strip_relabel
  value_of-strip_relabel (relabel o) = value_of-strip_relabel o
  value_of-strip_relabel (variable v) = refl
  value_of-strip_relabel (constant c) = refl
  value_of-strip_relabel (other_operand n) = refl

  scan_column_of-value :
      (o : Operand F) (v : Var)
      → scan_column_of x o ≡ some v
      → value_of x row o ≡ row.column v.varattno
  unfolding value_of
  scan_column_of-value o v h =
      let (is, of_scan) = scan_column_of_inversion x o v h in rw (is) (rw (of_scan) refl)

  -- An operand that is a column of the scan has the value of the column.
  pub as_scan_column-value :
      (o : Operand F) (v : Var)
      → as_scan_column x o ≡ some v
      → value_of x row o ≡ row.column v.varattno
  as_scan_column-value o v h = value_of-strip_relabel o ∙ scan_column_of-value (strip_relabel o) v h

  -- The other operand has to be a constant that is not NULL.
  translate_other_constant :
      (v : Var) (c : PgComparison) (coll : Collation) (o : Operand F) (e : Expression F)
      → translate_other x v (some c) coll o ≡ some e
      → (d : Datum F) × (o ≡ constant (scalar_const d)) × (translate_with x v c coll d ≡ some e)
  unfolding translate_other
  translate_other_constant v c coll (constant (scalar_const d)) e h = (d, refl, h)
  translate_other_constant v c coll other e h = no_some e h

  pub translate_with_column :
      (v : Var) (c : PgComparison) (coll : Collation) (d : Datum F) (e : Expression F)
      → translate_with x v c coll d ≡ some e
      → (column : ColumnTarget) × (resolve_column x v.varattno ≡ some column)
        × (translate_comparison x column c coll d ≡ some e)
  translate_with_column v c coll d e h = elim (Option-cases (resolve_column x v.varattno)) [
    | inl at ↦ no_some e (rw (at, translate_with) at h)
    | inr (column, at) ↦ (column, at, rw (at, translate_with) at h)
  ]

  -- What the other operand is: a safe constant, and what is made of it.
  pub translate_other_inversion :
      (v : Var) (c : PgComparison) (coll : Collation) (o : Operand F) (e : Expression F)
      → SafeOperand x o
      → translate_other x v (some c) coll (strip_relabel o) ≡ some e
      → (d : Datum F) × (column : ColumnTarget) × (value_of x row o ≡ some d)
        × IsSafe d
        × (resolve_column x v.varattno ≡ some column)
        × (translate_comparison x column c coll d ≡ some e)
  unfolding value_of SafeOperand
  translate_other_inversion v c coll o e safe h =
      let (d, is, made) = translate_other_constant v c coll (strip_relabel o) e h in
      let (column, at, t) = translate_with_column v c coll d e made in
      (
        d,
        column,
        value_of-strip_relabel o ∙ ap (value_of x row) is,
        subst (SafeOperand x) is (SafeOperand-strip_relabel x o safe),
        at,
        t,
      )

  pub on_both_inversion :
      (f : Datum F → Datum F → Bool) (a b : Option (Datum F))
      → on_both x row f a b ≡ true
      → (a' : Datum F) × (b' : Datum F) × (a ≡ some a') × (b ≡ some b') × (f a' b' ≡ true)
  on_both_inversion f (some a) (some b) h = (a, b, refl, refl, h)
  on_both_inversion f (some a) none h = absurd (cc)
  on_both_inversion f none b h = absurd (cc)
