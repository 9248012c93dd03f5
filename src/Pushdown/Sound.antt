-- ===== src/Pushdown/Sound.antt =====
-- `TranslateQualsForPushdown` of src/fdw/qual_pushdown.cc loses no row that the WHERE clause keeps.
use pgiceberg.Common.{
  ℕ, ◌≡◌, refl, sym, subst, Bool, true, false, ◌&&◌, List, [], ◌∷◌, Option, none, some, Bool-cases,
  Option-cases, inl, inr, some-injective, All, arith,
}
use pgiceberg.Pushdown.Comparison.{Collation}
use pgiceberg.Pushdown.Meaning.{
  Row, apply_classified, value_of, on_both, apply_operator, says, matches, keeps, reads_row,
}
use pgiceberg.Pushdown.Walk.{
  Operand, variable, Clause, op_expr, scalar_array_op, null_test, var_clause, not_expr,
  boolean_test, other_clause, is_true, is_false, other_test, Planner, Expression, and_also,
  translate_null_test, translate_op_expr, translate_scalar_array_op, classified, translate_clause,
  if_built, combined, translate_quals, translate_quals_for_pushdown,
}
use pgiceberg.Pushdown.Compared.{no_some}
use pgiceberg.Pushdown.Operands.{SafeOperand, SafeClause, ReadsRow}
use pgiceberg.Pushdown.Clauses.{classify_operator-operator_meaning, classified_sound}
use pgiceberg.Pushdown.Arrays.{translate_array_sound}
use pgiceberg.Pushdown.Truths.{translate_boolean_column_sound, translate_null_test_sound}

module _ {F V : Type 0} (x : Planner F) (row : Row F V) where
  op_expr_sound :
      (opno : ℕ) (coll : Collation) (args : List (Operand F)) (e : Expression F)
      → ReadsRow x row
      → All (SafeOperand x) args
      → says x row (op_expr opno coll args) ≡ true
      → translate_op_expr x opno coll args ≡ some e
      → matches x row e ≡ true
  unfolding says translate_op_expr apply_operator
  op_expr_sound opno coll (l ∷ r ∷ []) e reads (sl, (sr, s)) h t =
      classified_sound x row (classified x opno) opno coll l r e reads sl sr
        (subst
          (λ m.
            on_both x row (apply_classified x row m opno coll) (value_of x row l) (value_of x row r)
            ≡ true)
          (sym (classify_operator-operator_meaning (x.operator opno))) h)
        t
  op_expr_sound opno coll args e reads safe h t = no_some e t

  array_op_sound :
      (opno : ℕ) (use_or : Bool) (coll : Collation) (args : List (Operand F)) (e : Expression F)
      → ReadsRow x row
      → All (SafeOperand x) args
      → says x row (scalar_array_op opno use_or coll args) ≡ true
      → translate_scalar_array_op x opno use_or coll args ≡ some e
      → matches x row e ≡ true
  unfolding says translate_scalar_array_op
  array_op_sound opno use_or coll (l ∷ r ∷ []) e reads (sl, (sr, s)) h t =
      translate_array_sound x row use_or _ opno coll l r e reads sl sr h t
  array_op_sound opno use_or coll args e reads safe h t = no_some e t

  -- A row for which a clause is true is one for which the predicate made of it is.
  translate_clause_sound :
      (clause : Clause F) (e : Expression F)
      → ReadsRow x row
      → SafeClause x clause
      → says x row clause ≡ true
      → translate_clause x clause ≡ some e
      → matches x row e ≡ true
  unfolding says translate_clause translate_null_test SafeClause
  translate_clause_sound (op_expr opno coll args) e reads safe h t =
      op_expr_sound opno coll args e reads safe h t
  translate_clause_sound (scalar_array_op opno use_or coll args) e reads safe h t =
      array_op_sound opno use_or coll args e reads safe h t
  translate_clause_sound (null_test test true arg) e reads safe h t = no_some e t
  translate_clause_sound (null_test test false arg) e reads safe h t =
      translate_null_test_sound x row test arg e reads h t
  translate_clause_sound (var_clause v) e reads safe h t =
      translate_boolean_column_sound x row true (variable v) e reads h t
  translate_clause_sound (not_expr (arg ∷ [])) e reads safe h t =
      translate_boolean_column_sound x row false arg e reads h t
  translate_clause_sound (not_expr args) e reads safe h t = no_some e t
  translate_clause_sound (boolean_test is_true arg) e reads safe h t =
      translate_boolean_column_sound x row true arg e reads h t
  translate_clause_sound (boolean_test is_false arg) e reads safe h t =
      translate_boolean_column_sound x row false arg e reads h t
  translate_clause_sound (boolean_test other_test arg) e reads safe h t = no_some e t
  translate_clause_sound (other_clause n) e reads safe h t = no_some e t

  if_built_inversion :
      (made : Option (Expression F)) (e : Expression F) → if_built x made ≡ some e → made ≡ some e
  if_built_inversion none e h = no_some e h
  if_built_inversion (some made) e h = elim (Bool-cases (x.builds made)) [
    | inl t ↦ rw (t) at h
    | inr f ↦ no_some e (rw (f) at h)
  ]

  and_inversion : (a b : Bool) → (a && b) ≡ true → (a ≡ true) × (b ≡ true)
  and_inversion a b h = ground arith

  and_intro : (a b : Bool) → a ≡ true → b ≡ true → (a && b) ≡ true
  and_intro a b h k = ground arith

  combined_sound :
      (filter : Option (Expression F)) (e next : Expression F)
      → reads_row x row filter ≡ true
      → matches x row e ≡ true
      → combined x filter e ≡ some next
      → matches x row next ≡ true
  unfolding matches
  combined_sound none e next h k t = subst (λ e. matches x row e ≡ true) (some-injective t) k
  combined_sound (some filter) e next h k t = elim (Bool-cases (x.builds (and_also filter e))) [
    | inl b ↦ subst (λ e. matches x row e ≡ true) (some-injective (rw (b) at t)) (and_intro _ _ h k)
    | inr b ↦ no_some next (rw (b) at t)
  ]

  translate_quals_sound :
      (filter : Option (Expression F)) (clauses : List (Clause F))
      → ReadsRow x row
      → All (SafeClause x) clauses
      → reads_row x row filter ≡ true
      → keeps x row clauses ≡ true
      → reads_row x row (translate_quals x filter clauses) ≡ true
  unfolding translate_quals keeps
  translate_quals_sound filter [] reads safe h k = h
  translate_quals_sound filter (clause ∷ clauses) reads (s, safe) h k =
      let (said, kept) = and_inversion _ _ k in
      elim (Option-cases (if_built x (translate_clause x clause))) [
        | inl e ↦
            rw (e, reads_row, translate_quals)
              (translate_quals_sound filter clauses reads safe h kept)
        | inr (translated, e) ↦
            let sound =
              translate_clause_sound clause translated reads s said
                (if_built_inversion _ translated e) in
            rw (e, reads_row, translate_quals)
              (elim (Option-cases (combined x filter translated)) [
                | inl c ↦ rw (c, reads_row) refl
                | inr (next, c) ↦
                    rw (c, reads_row)
                      (translate_quals_sound (some next) clauses reads safe
                        (combined_sound filter translated next h sound c) kept)
              ])
      ]

  -- The scan with the filter that is pushed down reads each row that the WHERE clause keeps, whatever the
  -- clauses are and whichever of them are pushed down, under these conditions: each column that is
  -- resolved shows what its cell holds; the columns of the scan that are operands of operators have
  -- no type of a float, a decimal, a UUID or a timestamp of nanoseconds; and the timestamps among the
  -- constants are numbers of microseconds since 1970 in 64 bits.
  pub translate_quals_for_pushdown-keeps :
      (clauses : List (Clause F))
      → ReadsRow x row
      → All (SafeClause x) clauses
      → keeps x row clauses ≡ true
      → reads_row x row (translate_quals_for_pushdown x clauses) ≡ true
  unfolding translate_quals_for_pushdown
  translate_quals_for_pushdown-keeps clauses reads safe h =
      translate_quals_sound none clauses reads safe refl h
