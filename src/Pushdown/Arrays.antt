-- ===== src/Pushdown/Arrays.antt =====
-- `TranslateScalarArrayOp` of src/fdw/qual_pushdown.cc keeps each row for which the clause is true.
use pgiceberg.Common.{
  ℕ, ◌≡◌, refl, sym, subst, Bool, true, false, List, [], ◌∷◌, Option, none, some, Bool-cases,
  Option-cases, inl, inr, some-injective, All,
}
use pgiceberg.Convert.{Datum}
use pgiceberg.Pushdown.Comparison.{PgComparison, eq_to, not_eq, Collation}
use pgiceberg.Pushdown.Constants.{LiteralUse, equality_member, exact}
use pgiceberg.Pushdown.Meaning.{
  Row, pg_compare, apply_operator, apply_classified, value_of, array_says, array_op_says, matches,
}
use pgiceberg.Pushdown.Walk.{
  Var, Operand, constant, array_const, Planner, ColumnTarget, Expression, strip_relabel,
  as_scan_column, is_forbidden, resolve_column, literals_of, list_of, translate_elements, list_kind,
  translate_array, classified,
}
use pgiceberg.Pushdown.Compared.{no_some, ShownIn}
use pgiceberg.Pushdown.Elements.{
  any_literal_sound, all_literals_sound, in_list_sound, not_in_list_sound,
}
use pgiceberg.Pushdown.Clauses.{classify_operator-operator_meaning, column-ShownIn}
use pgiceberg.Pushdown.Operands.{IsSafeElement, SafeOperand, SafeOperand-strip_relabel, ReadsRow}

-- The comparison, and the use of the literals, of IN and of NOT IN.
abbrev compared_by : Bool → PgComparison
compared_by true = eq_to
compared_by false = not_eq

abbrev used_as : Bool → LiteralUse
used_as true = equality_member
used_as false = exact

list_kind_inversion :
    (use_or is_in : Bool) (c : Option PgComparison)
    → list_kind use_or c ≡ some is_in
    → (use_or ≡ is_in) × (c ≡ some (compared_by is_in))
unfolding list_kind
list_kind_inversion true is_in (some eq_to) h =
    (some-injective h, subst (λ b. some eq_to ≡ some (compared_by b)) (some-injective h) refl)
list_kind_inversion false is_in (some not_eq) h =
    (some-injective h, subst (λ b. some not_eq ≡ some (compared_by b)) (some-injective h) refl)
list_kind_inversion use_or is_in other h = no_some is_in h

module _ {F V : Type 0} (x : Planner F) (row : Row F V) where
  translate_elements_inversion :
      (is_in : Bool) (coll : Collation) (column : ColumnTarget) (elements : List (Option (Datum F)))
      (e : Expression F)
      → translate_elements x is_in coll column elements ≡ some e
      → (is_forbidden column coll (compared_by is_in) ≡ false)
        × (list_of x is_in column.field_name (literals_of x column (used_as is_in) elements)
            ≡ some e)
  unfolding translate_elements
  translate_elements_inversion true coll column elements e t =
      elim (Bool-cases (is_forbidden column coll eq_to)) [
        | inl f ↦ no_some e (rw (f, translate_elements) at t)
        | inr f ↦ (f, rw (f, translate_elements) at t)
      ]
  translate_elements_inversion false coll column elements e t =
      elim (Bool-cases (is_forbidden column coll not_eq)) [
        | inl f ↦ no_some e (rw (f, translate_elements) at t)
        | inr f ↦ (f, rw (f, translate_elements) at t)
      ]

  -- The NULL of a column is in no list, and out of none but the empty one.
  array_says_value :
      (is_in : Bool) (f : Datum F → Datum F → Bool) (column : ColumnTarget)
      (elements : List (Option (Datum F))) (value : Option (Datum F)) (e : Expression F)
      → array_says x row is_in f elements value ≡ true
      → list_of x is_in column.field_name (literals_of x column (used_as is_in) elements) ≡ some e
      → (a : Datum F) × (value ≡ some a)
  unfolding array_says literals_of
  array_says_value is_in f column elements (some a) e h t = (a, refl)
  array_says_value true f column elements none e h t = absurd (cc)
  array_says_value false f column [] none e h t = no_some e t
  array_says_value false f column (first ∷ elements) none e h t = absurd (cc)

  elements_sound :
      (is_in : Bool) (coll : Collation) (column : ColumnTarget) (elements : List (Option (Datum F)))
      (a : Datum F) (e : Expression F)
      → ShownIn x row column.field_type a (row.cell column.field_name)
      → All IsSafeElement elements
      → is_forbidden column coll (compared_by is_in) ≡ false
      → array_says x row is_in (pg_compare x row (compared_by is_in) coll) elements (some a) ≡ true
      → list_of x is_in column.field_name (literals_of x column (used_as is_in) elements) ≡ some e
      → matches x row e ≡ true
  unfolding array_says
  elements_sound true coll column elements a e agree safe allowed h t =
      let (v, at, shows) = agree in
      in_list_sound x row column.field_name v _ e
        (λ literals made.
          any_literal_sound x row column coll a v shows elements literals allowed safe made h)
        at t
  elements_sound false coll column elements a e agree safe allowed h t =
      let (v, at, shows) = agree in
      not_in_list_sound x row column.field_name v _ e
        (λ literals made.
          all_literals_sound x row column coll a v shows elements literals allowed safe made h)
        at t

  -- The parts of a clause that is translated: a column and an array of constants.
  translate_array_inversion :
      (kind : Option Bool) (coll : Collation) (scan : Option Var) (o : Operand F) (e : Expression F)
      → translate_array x kind coll scan o ≡ some e
      → (is_in : Bool) × (v : Var) × (elements : List (Option (Datum F))) × (column : ColumnTarget)
        × (kind ≡ some is_in)
        × (scan ≡ some v)
        × (o ≡ constant (array_const elements))
        × (resolve_column x v.varattno ≡ some column)
        × (translate_elements x is_in coll column elements ≡ some e)
  unfolding translate_array
  translate_array_inversion (some is_in) coll (some v) (constant (array_const elements)) e t =
      elim (Option-cases (resolve_column x v.varattno)) [
        | inl at ↦ no_some e (rw (at, translate_array) at t)
        | inr (column, at) ↦
            (is_in, v, elements, column, refl, refl, refl, at, rw (at, translate_array) at t)
      ]
  translate_array_inversion kind coll scan o e t = no_some e t

  -- What the clause says, once its operator is known.
  says_of_array :
      (is_in use_or otherwise : Bool) (c : Option PgComparison) (opno : ℕ) (coll : Collation)
      (left o : Operand F) (elements : List (Option (Datum F)))
      → use_or ≡ is_in
      → c ≡ some (compared_by is_in)
      → o ≡ constant (array_const elements)
      → array_op_says x row use_or (apply_classified x row c opno coll) left o otherwise ≡ true
      → array_says x row is_in
          (pg_compare x row (compared_by is_in) coll)
          elements
          (value_of x row left)
        ≡ true
  says_of_array is_in use_or otherwise c opno coll left o elements same comparison array h =
      rw (same, comparison, array) at h

  pub translate_array_sound :
      (use_or otherwise : Bool) (opno : ℕ) (coll : Collation) (l r : Operand F) (e : Expression F)
      → ReadsRow x row
      → SafeOperand x l
      → SafeOperand x r
      → array_op_says x row use_or (apply_operator x row opno coll) l (strip_relabel r) otherwise
        ≡ true
      → translate_array x
          (list_kind use_or (classified x opno))
          coll
          (as_scan_column x l)
          (strip_relabel r)
        ≡ some e
      → matches x row e ≡ true
  unfolding apply_operator SafeOperand
  translate_array_sound use_or otherwise opno coll l r e reads sl safe h t =
      let (is_in, v, elements, column, kind, scan, array, at, made) =
        translate_array_inversion (list_kind use_or (classified x opno)) coll (as_scan_column x l)
          (strip_relabel r) e t in
      let (same, comparison) = list_kind_inversion use_or is_in (classified x opno) kind in
      let (allowed, made') = translate_elements_inversion is_in coll column elements e made in
      let said =
        says_of_array is_in use_or otherwise (classified x opno) opno coll l (strip_relabel r)
          elements same comparison array
          (subst
            (λ m.
              array_op_says x row use_or (apply_classified x row m opno coll) l (strip_relabel r)
                otherwise
              ≡ true)
            (sym (classify_operator-operator_meaning (x.operator opno))) h) in
      let (a, value) = array_says_value is_in _ column elements (value_of x row l) e said made' in
      elements_sound is_in coll column elements a e
        (column-ShownIn x row l v column a reads sl scan at value)
        (subst (SafeOperand x) array (SafeOperand-strip_relabel x r safe)) allowed
        (rw (value) at said) made'
