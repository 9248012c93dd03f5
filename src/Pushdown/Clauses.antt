-- ===== src/Pushdown/Clauses.antt =====
-- `TranslateOpExpr` of src/fdw/qual_pushdown.cc keeps each row for which the clause is true.
use pgiceberg.Common.{
  ℕ, ◌≡◌, refl, sym, subst, ◌∙◌, Bool, true, false, Option, none, some, Option-cases, inl, inr,
  some-injective,
}
use pgiceberg.Common.Bytes.{Bytes}
use pgiceberg.Convert.{Datum}
use pgiceberg.Pushdown.Comparison.{
  PgComparison, like, not_like, commute_comparison, Collation, classify_operator,
  comparison_of_name,
}
use pgiceberg.Pushdown.Renders.{IsSafe}
use pgiceberg.Pushdown.Keys.{kind_of_type, HasKind, is_like, keys_hold-commuted}
use pgiceberg.Pushdown.Meaning.{
  Key, characters, datum_key, keys_hold, compares_bytes, listed, operator_meaning, Row,
  pg_keys_hold, pg_compare, apply_classified, value_of, on_both, matches,
}
use pgiceberg.Pushdown.Walk.{
  Var, Operand, Planner, ColumnTarget, Expression, strip_relabel, as_scan_column, is_forbidden,
  resolve_column, translate_comparison, translate_other, translate_op, translate_classified,
}
use pgiceberg.Pushdown.Compared.{
  no_some, Agrees, ShownIn, Agrees-some, allowed_text, text_holds-plain, translate_plain_sound,
  translate_allowed-plain, translate_comparison_inversion,
}
use pgiceberg.Pushdown.Patterns.{translate_comparison_sound}
use pgiceberg.Pushdown.Operands.{
  SafeOperand, SafeOperand-IsKinded, ReadsRow, as_scan_column-value, translate_other_inversion,
  on_both_inversion,
}

-- The source classifies an operator as what it means.
pub classify_operator-operator_meaning :
    (o : Option (Bool × Bytes)) → classify_operator o ≡ operator_meaning o
unfolding classify_operator comparison_of_name operator_meaning listed
classify_operator-operator_meaning none = refl
classify_operator-operator_meaning (some (true, name)) = refl
classify_operator-operator_meaning (some (false, name)) = refl

-- A commuted comparison is not LIKE, and is allowed under the same collations.
commute_comparison_plain :
    (c c' : PgComparison)
    → commute_comparison c ≡ some c'
    → (is_like c ≡ false) × (is_like c' ≡ false)
unfolding commute_comparison
commute_comparison_plain like c' h = no_some c' h
commute_comparison_plain not_like c' h = no_some c' h
commute_comparison_plain c c' h = (refl, subst (λ d. is_like d ≡ false) (some-injective h) refl)

commute_comparison-compares_bytes :
    (c c' : PgComparison) (coll : Collation)
    → commute_comparison c ≡ some c'
    → compares_bytes coll c' ≡ compares_bytes coll c
unfolding commute_comparison compares_bytes
commute_comparison-compares_bytes like c' coll h = no_some c' h
commute_comparison-compares_bytes not_like c' coll h = no_some c' h
commute_comparison-compares_bytes c c' coll h =
    subst (λ d. compares_bytes coll d ≡ compares_bytes coll c) (some-injective h) refl

module _ {F V : Type 0} (x : Planner F) (row : Row F V) where
  -- What PostgreSQL says of a constant and a column, with the constant on the left.
  pg_keys_hold-commuted :
      (o : Bool) (c c' : PgComparison) (coll : Collation) (column : ColumnTarget) (k : ℕ)
      (b a : Key)
      → commute_comparison c ≡ some c'
      → is_forbidden column coll c' ≡ false
      → kind_of_type column.field_type.type_id ≡ some k
      → HasKind k a
      → pg_keys_hold x row o c coll b a ≡ true
      → keys_hold o c' a b ≡ true
  unfolding pg_keys_hold
  pg_keys_hold-commuted o c c' coll column k (characters t) (characters s) swap allowed kind ha h =
      let (plain, plain') = commute_comparison_plain c c' swap in
      let ok' = allowed_text column coll c' allowed (kind ∙ sym ha) in
      let ok = sym (commute_comparison-compares_bytes c c' coll swap) ∙ ok' in
      sym (keys_hold-commuted o c c' (characters t) (characters s) swap)
      ∙ sym (text_holds-plain x row o c coll t s plain ok)
      ∙ h
  pg_keys_hold-commuted o c c' coll column k (characters t) a swap allowed kind ha h =
      sym (keys_hold-commuted o c c' (characters t) a swap) ∙ h
  pg_keys_hold-commuted o c c' coll column k b a swap allowed kind ha h =
      sym (keys_hold-commuted o c c' b a swap) ∙ h

  translate_comparison-commuted :
      (column : ColumnTarget) (c c' : PgComparison) (coll : Collation) (a d : Datum F)
      (e : Expression F)
      → commute_comparison c ≡ some c'
      → ShownIn x row column.field_type a (row.cell column.field_name)
      → IsSafe d
      → pg_compare x row c coll d a ≡ true
      → translate_comparison x column c' coll d ≡ some e
      → matches x row e ≡ true
  unfolding pg_compare
  translate_comparison-commuted column c c' coll a d e swap agree safe h t =
      let (plain, plain') = commute_comparison_plain c c' swap in
      let (allowed, made) = translate_comparison_inversion x row column c' coll d e t in
      let (use_of, made') = translate_allowed-plain x row column c' d e plain' made in
      let (v, at, (k, kind, ha, shown)) = agree in
      translate_plain_sound x row column c' use_of a d _ e agree safe
        (pg_keys_hold-commuted _ c c' coll column k (datum_key d) (datum_key a) swap allowed kind ha
          h)
        made'

  -- A column's cell against its value.
  pub column-Agrees :
      (o : Operand F) (v : Var) (column : ColumnTarget) (a : Datum F)
      → ReadsRow x row
      → as_scan_column x o ≡ some v
      → resolve_column x v.varattno ≡ some column
      → value_of x row o ≡ some a
      → Agrees x row column.field_type (some a) (row.cell column.field_name)
  column-Agrees o v column a reads scan at value =
      subst (λ d. Agrees x row column.field_type d (row.cell column.field_name))
        (sym (as_scan_column-value x row o v scan) ∙ value) (reads v.varattno column at)

  pub column-ShownIn :
      (o : Operand F) (v : Var) (column : ColumnTarget) (a : Datum F)
      → ReadsRow x row
      → SafeOperand x o
      → as_scan_column x o ≡ some v
      → resolve_column x v.varattno ≡ some column
      → value_of x row o ≡ some a
      → ShownIn x row column.field_type a (row.cell column.field_name)
  column-ShownIn o v column a reads safe scan at value =
      Agrees-some x row column.field_type a _ (SafeOperand-IsKinded x o v column safe scan at)
        (column-Agrees o v column a reads scan at value)

  -- Column against constant.
  translate_left_sound :
      (c : PgComparison) (coll : Collation) (l r : Operand F) (v : Var) (a b : Datum F)
      (e : Expression F)
      → ReadsRow x row
      → SafeOperand x l
      → SafeOperand x r
      → as_scan_column x l ≡ some v
      → value_of x row l ≡ some a
      → value_of x row r ≡ some b
      → pg_compare x row c coll a b ≡ true
      → translate_other x v (some c) coll (strip_relabel r) ≡ some e
      → matches x row e ≡ true
  translate_left_sound c coll l r v a b e reads sl safe scan va vb h t =
      let (d, column, vd, ok, at, made) = translate_other_inversion x row v c coll r e safe t in
      let same : b ≡ d = some-injective (sym vb ∙ vd) in
      translate_comparison_sound x row column c coll a d e
        (column-ShownIn l v column a reads sl scan at va) ok
        (subst (λ d. pg_compare x row c coll a d ≡ true) same h) made

  translate_swapped :
      (v : Var) (c : Option PgComparison) (coll : Collation) (o : Operand F) (e : Expression F)
      → translate_other x v c coll o ≡ some e
      → (c' : PgComparison) × (c ≡ some c') × (translate_other x v (some c') coll o ≡ some e)
  unfolding translate_other
  translate_swapped v none coll o e h = no_some e h
  translate_swapped v (some c') coll o e h = (c', refl, h)

  -- Constant against column.
  translate_right_sound :
      (c : PgComparison) (coll : Collation) (l r : Operand F) (v : Var) (a b : Datum F)
      (e : Expression F)
      → ReadsRow x row
      → SafeOperand x l
      → SafeOperand x r
      → as_scan_column x r ≡ some v
      → value_of x row l ≡ some a
      → value_of x row r ≡ some b
      → pg_compare x row c coll a b ≡ true
      → translate_other x v (commute_comparison c) coll (strip_relabel l) ≡ some e
      → matches x row e ≡ true
  translate_right_sound c coll l r v a b e reads safe sr scan va vb h t =
      let (c', swap, t') = translate_swapped v (commute_comparison c) coll (strip_relabel l) e t in
      let (d, column, vd, ok, at, made) = translate_other_inversion x row v c' coll l e safe t' in
      let same : a ≡ d = some-injective (sym va ∙ vd) in
      translate_comparison-commuted column c c' coll b d e swap
        (column-ShownIn r v column b reads sr scan at vb) ok
        (subst (λ d. pg_compare x row c coll d b ≡ true) same h) made

  translate_op_sound :
      (c : PgComparison) (coll : Collation) (l r : Operand F) (a b : Datum F) (e : Expression F)
      → ReadsRow x row
      → SafeOperand x l
      → SafeOperand x r
      → value_of x row l ≡ some a
      → value_of x row r ≡ some b
      → pg_compare x row c coll a b ≡ true
      → translate_op x c coll l r ≡ some e
      → matches x row e ≡ true
  unfolding translate_op
  translate_op_sound c coll l r a b e reads sl sr va vb h t =
      elim (Option-cases (as_scan_column x l)) [
        | inr (v, scan) ↦
            translate_left_sound c coll l r v a b e reads sl sr scan va vb h
              (rw (scan, translate_op) at t)
        | inl left_none ↦ (elim (Option-cases (as_scan_column x r)) [
          | inr (v, scan) ↦
              translate_right_sound c coll l r v a b e reads sl sr scan va vb h
                (rw (scan) at (rw (left_none, translate_op) at t))
          | inl right_none ↦ no_some e (rw (right_none) at (rw (left_none, translate_op) at t))
        ])
      ]

  -- An operator that is classified.
  pub classified_sound :
      (made : Option PgComparison) (opno : ℕ) (coll : Collation) (l r : Operand F)
      (e : Expression F)
      → ReadsRow x row
      → SafeOperand x l
      → SafeOperand x r
      → on_both x row (apply_classified x row made opno coll) (value_of x row l) (value_of x row r)
        ≡ true
      → translate_classified x made coll l r ≡ some e
      → matches x row e ≡ true
  classified_sound none opno coll l r e reads sl sr h t = no_some e t
  classified_sound (some c) opno coll l r e reads sl sr h t =
      let (a, b, va, vb, says_so) = on_both_inversion x row (pg_compare x row c coll) _ _ h in
      translate_op_sound c coll l r a b e reads sl sr va vb says_so t
