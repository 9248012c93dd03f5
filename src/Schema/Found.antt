-- ===== src/Schema/Found.antt =====
-- Columns whose field ids differ, as `BindSchema` of src/common/schema_binding.cc wants them, are found by their ids.
use pgiceberg.Common.{
  Option-cases, none_not_some, some-injective, ◌≡◌, refl, sym, ap, subst, ◌∙◌, Bool, true, false,
  List, [], ◌∷◌, ◌++◌, none, some, Any, any_of, Bool-cases, inl, inr,
}
use pgiceberg.Common.Int.{ℤ, eq_ℤ, eq_ℤ_iff}
use pgiceberg.Status.{err_not_ok, ok}
use pgiceberg.Schema.Columns.{LocalColumn, is_field_id}
use pgiceberg.Schema.Binding.{has_field_id, find_by_field_id, check_field_ids}

abbrev pub In : LocalColumn → List LocalColumn → Type 0
In column columns = Any (λ other. column ≡ other) columns

any_of-append_false :
    {A : Type 0} (p : A → Bool) (xs : List A) (x : A)
    → any_of p (xs ++ (x ∷ [])) ≡ false
    → (any_of p xs ≡ false) × (p x ≡ false)
any_of-append_false p [] x h = elim (Bool-cases (p x)) [
  | inl e ↦ let differ : true ≡ false = rw (e) at h in absurd (cc)
  | inr e ↦ (refl, e)
]
any_of-append_false p (y ∷ xs) x h = elim (Bool-cases (p y)) [
  | inl e ↦ let differ : true ≡ false = rw (e) at h in absurd (cc)
  | inr e ↦ let (a, b) = any_of-append_false p xs x (rw (e) at h) in (rw (e) a, b)
]

same_id : (id : ℤ) → eq_ℤ id id ≡ true
same_id id = (eq_ℤ_iff id id).1 refl

-- What is found by an id in columns whose ids differ, and differ from those seen before.
abbrev pub FoundById : List LocalColumn → List LocalColumn → LocalColumn → ℤ → Type 0
FoundById seen columns column id =
    (find_by_field_id id columns ≡ some column)
    × (any_of (λ other. has_field_id other id) seen ≡ false)

-- The same for a list with one column more before it.
FoundById-after :
    (seen columns : List LocalColumn) (first column : LocalColumn) (id : ℤ)
    → FoundById (seen ++ (first ∷ [])) columns column id
    → FoundById seen (first ∷ columns) column id
unfolding find_by_field_id
FoundById-after seen columns first column id (found, fresh) =
    let (before, other) = any_of-append_false (λ c. has_field_id c id) seen first fresh in
    (rw (other, find_by_field_id) found, before)

check_field_ids-step :
    (seen columns : List LocalColumn) (first : LocalColumn) (other : ℤ)
    → first.field_id ≡ some other
    → check_field_ids seen (first ∷ columns) ≡ ok tt
    → (any_of (λ c. has_field_id c other) seen ≡ false)
      × (check_field_ids (seen ++ (first ∷ [])) columns ≡ ok tt)
unfolding check_field_ids
check_field_ids-step seen columns first other e h =
    elim (Bool-cases (any_of (λ c. has_field_id c other) seen)) [
      | inl t ↦ absurd (err_not_ok _ _ (rw (t) at (rw (e, check_field_ids) at h)))
      | inr f ↦ (f, rw (f) at (rw (e, check_field_ids) at h))
    ]

check_field_ids-skip :
    (seen columns : List LocalColumn) (first : LocalColumn)
    → first.field_id ≡ none
    → check_field_ids seen (first ∷ columns) ≡ ok tt
    → check_field_ids seen columns ≡ ok tt
unfolding check_field_ids
check_field_ids-skip seen columns first e h = rw (e, check_field_ids) at h

FoundById-past :
    (seen columns : List LocalColumn) (first column : LocalColumn) (id : ℤ)
    → first.field_id ≡ none
    → FoundById seen columns column id
    → FoundById seen (first ∷ columns) column id
unfolding find_by_field_id
FoundById-past seen columns first column id e (found, fresh) =
    let has : has_field_id first id ≡ false = ap (λ o. is_field_id o id) e in
    (rw (has, find_by_field_id) found, fresh)

FoundById-here :
    (seen columns : List LocalColumn) (column : LocalColumn) (id : ℤ)
    → column.field_id ≡ some id
    → any_of (λ c. has_field_id c id) seen ≡ false
    → FoundById seen (column ∷ columns) column id
unfolding find_by_field_id
FoundById-here seen columns column id e fresh =
    let has : has_field_id column id ≡ true = ap (λ o. is_field_id o id) e ∙ same_id id in
    (rw (has, find_by_field_id) refl, fresh)

-- A column with an id is found by it.
pub check_field_ids-FoundById :
    (seen columns : List LocalColumn) (column : LocalColumn) (id : ℤ)
    → check_field_ids seen columns ≡ ok tt
    → In column columns
    → column.field_id ≡ some id
    → FoundById seen columns column id
check_field_ids-FoundById seen [] column id h among e = absurd (among)
check_field_ids-FoundById seen (first ∷ columns) column id h (inl same) e =
    elim (Option-cases first.field_id) [
      | inl none_id ↦ absurd (none_not_some _ (sym none_id ∙ ap (λ c. c.field_id) (sym same) ∙ e))
      | inr (other, some_id) ↦
          let (fresh, _) = check_field_ids-step seen columns first other some_id h in
          let equal : other ≡ id =
            some-injective (sym some_id ∙ ap (λ c. c.field_id) (sym same) ∙ e) in
          subst (λ c. FoundById seen (c ∷ columns) column id) same
            (FoundById-here seen columns column id e
              (subst (λ i. any_of (λ c. has_field_id c i) seen ≡ false) equal fresh))
    ]
check_field_ids-FoundById seen (first ∷ columns) column id h (inr later) e =
    elim (Option-cases first.field_id) [
      | inl none_id ↦ FoundById-past seen columns first column id none_id (
          check_field_ids-FoundById seen columns column id
            (check_field_ids-skip seen columns first none_id h) later e)
      | inr (other, some_id) ↦
          let (_, rest) = check_field_ids-step seen columns first other some_id h in
          FoundById-after seen columns first column id
            (check_field_ids-FoundById (seen ++ (first ∷ [])) columns column id rest later e)
    ]
