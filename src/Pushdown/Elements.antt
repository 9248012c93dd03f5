-- ===== src/Pushdown/Elements.antt =====
-- The literals of the elements in `TranslateScalarArrayOp` of src/fdw/qual_pushdown.cc.
use pgiceberg.Common.{
  ◌≡◌, refl, sym, subst, Bool, true, false, ◌||◌, List, [], ◌∷◌, Option, none, some, Bool-cases,
  inl, inr, some-injective, All, arith,
}
use pgiceberg.Common.Bytes.{Bytes}
use pgiceberg.Convert.{Datum}
use pgiceberg.Pushdown.Comparison.{PgComparison, eq_to, not_eq, Collation}
use pgiceberg.Pushdown.Constants.{Literal, LiteralUse, equality_member, exact}
use pgiceberg.Pushdown.Renders.{IsSafe}
use pgiceberg.Pushdown.Keys.{is_like}
use pgiceberg.Pushdown.Meaning.{
  datum_key, Row, pg_compare, all_hold, any_holds, literal_holds, all_literals, any_literal,
  matches,
}
use pgiceberg.Pushdown.Walk.{
  Planner, ColumnTarget, Expression, is_forbidden, literal_of, literals_of, add_literal, list_of,
}
use pgiceberg.Pushdown.Compared.{no_some, Shows, pg_keys_hold-plain, literal_holds-keys}
use pgiceberg.Pushdown.Operands.{IsSafeElement}

or_right : (a b : Bool) → b ≡ true → (a || b) ≡ true
or_right a b h = ground arith

add_literal_inversion :
    {F : Type 0}
    → (x : Planner F) (made : Option (Literal F)) (rest : Option (List (Literal F)))
      (literals : List (Literal F))
    → add_literal x made rest ≡ some literals
    → (first : Literal F) × (others : List (Literal F)) × (made ≡ some first)
      × (rest ≡ some others)
      × (literals ≡ first ∷ others)
add_literal_inversion x none rest literals h = no_some literals h
add_literal_inversion x (some first) none literals h = no_some literals h
add_literal_inversion x (some first) (some others) literals h =
    (first, others, refl, refl, sym (some-injective h))

module _ {F V : Type 0} (x : Planner F) (row : Row F V) where
  -- The literal of an element for which the comparison is true.
  element_sound :
      (column : ColumnTarget) (c : PgComparison) (use_of : LiteralUse) (coll : Collation)
      (a d : Datum F) (v : V) (literal : Literal F)
      → is_like c ≡ false
      → is_forbidden column coll c ≡ false
      → Shows x row column.field_type a v
      → IsSafe d
      → literal_of x d column use_of ≡ some literal
      → pg_compare x row c coll a d ≡ true
      → literal_holds x row c v literal ≡ true
  unfolding pg_compare
  element_sound column c use_of coll a d v literal plain allowed (k, kind, ha, shown) safe made h =
      literal_holds-keys x row column c use_of a d v literal _ (k, kind, ha, shown) safe made
        (pg_keys_hold-plain x row _ c coll column k (datum_key a) (datum_key d) plain allowed kind
          ha h)

  module _ (column : ColumnTarget) (coll : Collation) (a : Datum F) (v : V)
      (shows : Shows x row column.field_type a v) where
    pub any_literal_sound :
        (elements : List (Option (Datum F))) (literals : List (Literal F))
        → is_forbidden column coll eq_to ≡ false
        → All IsSafeElement elements
        → literals_of x column equality_member elements ≡ some literals
        → any_holds x row (pg_compare x row eq_to coll a) elements ≡ true
        → any_literal x row (literal_holds x row eq_to v) literals ≡ true
    unfolding literals_of any_holds any_literal
    any_literal_sound [] literals allowed safe made h = absurd (cc)
    any_literal_sound (none ∷ elements) literals allowed (s, safe) made h =
        any_literal_sound elements literals allowed safe made h
    any_literal_sound (some d ∷ elements) literals allowed (s, safe) made h =
        let (first, others, made_first, made_others, is) =
          add_literal_inversion x _ _ literals made in
        rw (is) (elim (Bool-cases (pg_compare x row eq_to coll a d)) [
          | inl t ↦
              rw
                (element_sound column eq_to equality_member coll a d v first refl allowed shows s
                  made_first t)
                refl
          | inr f ↦
              or_right _ _
                (any_literal_sound elements others allowed safe made_others (rw (f) at h))
        ])

    pub all_literals_sound :
        (elements : List (Option (Datum F))) (literals : List (Literal F))
        → is_forbidden column coll not_eq ≡ false
        → All IsSafeElement elements
        → literals_of x column exact elements ≡ some literals
        → all_hold x row (pg_compare x row not_eq coll a) elements ≡ true
        → all_literals x row (literal_holds x row not_eq v) literals ≡ true
    unfolding literals_of all_hold all_literals
    all_literals_sound [] literals allowed safe made h =
        subst (λ ls. all_literals x row (literal_holds x row not_eq v) ls ≡ true)
          (some-injective made) refl
    all_literals_sound (none ∷ elements) literals allowed (s, safe) made h = absurd (cc)
    all_literals_sound (some d ∷ elements) literals allowed (s, safe) made h =
        let (first, others, made_first, made_others, is) =
          add_literal_inversion x _ _ literals made in
        rw (is) (elim (Bool-cases (pg_compare x row not_eq coll a d)) [
          | inl t ↦
              rw
                (
                  element_sound column not_eq exact coll a d v first refl allowed shows s made_first
                      t,
                  all_literals_sound elements others allowed safe made_others (rw (t) at h),
                )
                refl
          | inr f ↦ absurd (cc)
        ])

  pub in_list_sound :
      (name : Bytes) (v : V) (made : Option (List (Literal F))) (e : Expression F)
      → ((literals : List (Literal F))
          → made ≡ some literals
          → any_literal x row (literal_holds x row eq_to v) literals ≡ true)
      → row.cell name ≡ some v
      → list_of x true name made ≡ some e
      → matches x row e ≡ true
  unfolding matches
  in_list_sound name v none e h at t = no_some e t
  in_list_sound name v (some []) e h at t = no_some e t
  in_list_sound name v (some (literal ∷ literals)) e h at t =
      subst (λ e. matches x row e ≡ true) (some-injective t) (rw (at) (h (literal ∷ literals) refl))

  pub not_in_list_sound :
      (name : Bytes) (v : V) (made : Option (List (Literal F))) (e : Expression F)
      → ((literals : List (Literal F))
          → made ≡ some literals
          → all_literals x row (literal_holds x row not_eq v) literals ≡ true)
      → row.cell name ≡ some v
      → list_of x false name made ≡ some e
      → matches x row e ≡ true
  unfolding matches
  not_in_list_sound name v none e h at t = no_some e t
  not_in_list_sound name v (some []) e h at t = no_some e t
  not_in_list_sound name v (some (literal ∷ literals)) e h at t =
      subst (λ e. matches x row e ≡ true) (some-injective t) (rw (at) (h (literal ∷ literals) refl))
