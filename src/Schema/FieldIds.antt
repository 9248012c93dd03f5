-- ===== src/Schema/FieldIds.antt =====
-- The field ids that `InsertColumnBindings` of src/common/schema_binding.cc gives to the columns of a table.
use pgiceberg.Common.{
  ℕ, suc, ◌≤◌, ◌≡◌, refl, sym, ap, ◌∙◌, Bool, true, false, List, [], ◌∷◌, ◌++◌, some, All, any_of,
  ◌==◌, arith, Bool-cases, inl, inr, if◌then◌else◌,
}
use pgiceberg.Common.Int.{ℤ, pos}
use pgiceberg.Status.{ok}
use pgiceberg.Schema.Columns.{
  LocalColumn, RelationAttribute, find_field_id, local_column, columns_of,
}
use pgiceberg.Schema.Bindings.{BindingRow, put_field_id, put_field_ids}
use pgiceberg.Schema.Binding.{has_field_id, check_field_ids}

abbrev pub row : ℕ → ℤ → BindingRow
row attnum id = record { attnum = some attnum; field_id = some id }

-- The columns of a relation, where that at place k of those not dropped has the field id k.
unfoldable pub numbered_columns : ℕ → List RelationAttribute → List LocalColumn
numbered_columns n [] = []
numbered_columns n (attr ∷ attrs) =
    if attr.is_dropped
    then numbered_columns n attrs
    else record {
      attnum = attr.attnum;
      name = attr.name;
      pg_type = attr.pg_type;
      typmod = attr.typmod;
      not_null = attr.not_null;
      field_id = some (pos (suc n));
    }
      ∷ numbered_columns (suc n) attrs

unfoldable pub rows_from : ℕ → List RelationAttribute → List BindingRow
rows_from n [] = []
rows_from n (attr ∷ attrs) =
    if attr.is_dropped
    then rows_from n attrs
    else row attr.attnum (pos (suc n)) ∷ rows_from (suc n) attrs

unfoldable pub ids_from : List (ℕ × ℤ) → ℕ → List RelationAttribute → List (ℕ × ℤ)
ids_from acc n [] = acc
ids_from acc n (attr ∷ attrs) =
    if attr.is_dropped
    then ids_from acc n attrs
    else ids_from ((attr.attnum, pos (suc n)) ∷ acc) (suc n) attrs

-- The attribute numbers of a relation differ.
unfoldable pub HasDistinctAttnums : List RelationAttribute → Type 0
HasDistinctAttnums [] = Unit {0}
HasDistinctAttnums (attr ∷ attrs) =
    All (λ other. (other.attnum == attr.attnum) ≡ false) attrs × HasDistinctAttnums attrs

pub put_field_ids-rows_from :
    (acc : List (ℕ × ℤ)) (n : ℕ) (attrs : List RelationAttribute)
    → put_field_ids acc (rows_from n attrs) ≡ ok (ids_from acc n attrs)
unfolding put_field_ids put_field_id rows_from ids_from
put_field_ids-rows_from acc n [] = refl
put_field_ids-rows_from acc n (attr ∷ attrs) = elim (Bool-cases attr.is_dropped) [
  | inl e ↦ rw (e, rows_from, ids_from) (put_field_ids-rows_from acc n attrs)
  | inr e ↦
      rw (e, rows_from, ids_from)
        (put_field_ids-rows_from ((attr.attnum, pos (suc n)) ∷ acc) (suc n) attrs)
]

find_field_id-ids_from :
    (attnum : ℕ) (acc : List (ℕ × ℤ)) (n : ℕ) (attrs : List RelationAttribute)
    → All (λ other. (other.attnum == attnum) ≡ false) attrs
    → find_field_id attnum (ids_from acc n attrs) ≡ find_field_id attnum acc
unfolding find_field_id ids_from
find_field_id-ids_from attnum acc n [] h = refl
find_field_id-ids_from attnum acc n (attr ∷ attrs) (differs, h) =
    elim (Bool-cases attr.is_dropped) [
      | inl e ↦ rw (e, ids_from) (find_field_id-ids_from attnum acc n attrs h)
      | inr e ↦
          let skip : find_field_id attnum ((attr.attnum, pos (suc n)) ∷ acc)
              ≡ find_field_id attnum acc =
            rw (differs, find_field_id) refl in
          rw (e, ids_from)
            (find_field_id-ids_from attnum ((attr.attnum, pos (suc n)) ∷ acc) (suc n) attrs h
              ∙ skip)
    ]

same_number : (n : ℕ) → (n == n) ≡ true
same_number n = ground arith

-- A step of each function on an attribute that is dropped, or not.
module _ (attr : RelationAttribute) (attrs : List RelationAttribute) where
  ids_from-dropped :
      (acc : List (ℕ × ℤ)) (n : ℕ)
      → attr.is_dropped ≡ true
      → ids_from acc n (attr ∷ attrs) ≡ ids_from acc n attrs
  unfolding ids_from
  ids_from-dropped acc n e = rw (e, ids_from) refl

  ids_from-kept :
      (acc : List (ℕ × ℤ)) (n : ℕ)
      → attr.is_dropped ≡ false
      → ids_from acc n (attr ∷ attrs) ≡ ids_from ((attr.attnum, pos (suc n)) ∷ acc) (suc n) attrs
  unfolding ids_from
  ids_from-kept acc n e = rw (e, ids_from) refl

  columns_of-dropped :
      (ids : List (ℕ × ℤ))
      → attr.is_dropped ≡ true
      → columns_of false ids (attr ∷ attrs) ≡ columns_of false ids attrs
  unfolding columns_of
  columns_of-dropped ids e = rw (e, columns_of) refl

  columns_of-kept :
      (ids : List (ℕ × ℤ)) (n : ℕ)
      → attr.is_dropped ≡ false
      → find_field_id attr.attnum ids ≡ some (pos (suc n))
      → columns_of false ids attrs ≡ numbered_columns (suc n) attrs
      → columns_of false ids (attr ∷ attrs) ≡ numbered_columns n (attr ∷ attrs)
  unfolding columns_of numbered_columns local_column
  columns_of-kept ids n e found rest = rw (e, found, rest) refl

  numbered_columns-dropped :
      (n : ℕ)
      → attr.is_dropped ≡ true
      → numbered_columns n (attr ∷ attrs) ≡ numbered_columns n attrs
  unfolding numbered_columns
  numbered_columns-dropped n e = rw (e, numbered_columns) refl

pub columns_of-ids_from :
    (acc : List (ℕ × ℤ)) (n : ℕ) (attrs : List RelationAttribute)
    → HasDistinctAttnums attrs
    → columns_of false (ids_from acc n attrs) attrs ≡ numbered_columns n attrs
unfolding columns_of numbered_columns find_field_id HasDistinctAttnums
columns_of-ids_from acc n [] h = refl
columns_of-ids_from acc n (attr ∷ attrs) (differ, h) = elim (Bool-cases attr.is_dropped) [
  | inl e ↦
      ap (λ ids. columns_of false ids (attr ∷ attrs)) (ids_from-dropped attr attrs acc n e)
      ∙ columns_of-dropped attr attrs _ e
      ∙ columns_of-ids_from acc n attrs h
      ∙ sym (numbered_columns-dropped attr attrs n e)
  | inr e ↦
      let later : List (ℕ × ℤ) = (attr.attnum, pos (suc n)) ∷ acc in
      let head : find_field_id attr.attnum later ≡ some (pos (suc n)) =
        rw (same_number attr.attnum, find_field_id) refl in
      let found = find_field_id-ids_from attr.attnum later (suc n) attrs differ ∙ head in
      ap (λ ids. columns_of false ids (attr ∷ attrs)) (ids_from-kept attr attrs acc n e)
      ∙ columns_of-kept attr attrs _ n e found (columns_of-ids_from later (suc n) attrs h)
]

-- No column has a field id above `n`.
abbrev BelowAll : ℕ → List LocalColumn → Type 0
BelowAll n seen = (m : ℕ) → n ≤ m → any_of (λ other. has_field_id other (pos (suc m))) seen ≡ false

any_of-append :
    {A : Type 0} (p : A → Bool) (xs : List A) (x : A)
    → any_of p xs ≡ false
    → p x ≡ false
    → any_of p (xs ++ (x ∷ [])) ≡ false
any_of-append p [] x h e = rw (e) refl
any_of-append p (y ∷ xs) x h e = elim (Bool-cases (p y)) [
  | inl t ↦ let differ : true ≡ false = rw (t) at h in absurd (cc)
  | inr f ↦ rw (f) (any_of-append p xs x (rw (f) at h) e)
]

pub check_field_ids-numbered_columns :
    (seen : List LocalColumn) (n : ℕ) (attrs : List RelationAttribute)
    → BelowAll n seen
    → check_field_ids seen (numbered_columns n attrs) ≡ ok tt
unfolding check_field_ids numbered_columns
check_field_ids-numbered_columns seen n [] below = refl
check_field_ids-numbered_columns seen n (attr ∷ attrs) below = elim (Bool-cases attr.is_dropped) [
  | inl e ↦ rw (e, numbered_columns) (check_field_ids-numbered_columns seen n attrs below)
  | inr e ↦
      let new : any_of (λ other. has_field_id other (pos (suc n))) seen ≡ false =
        below n (omega arith) in
      rw (e, numbered_columns)
        (rw (new, check_field_ids)
          (check_field_ids-numbered_columns _ (suc n) attrs (λ m le.
            any_of-append (λ other. has_field_id other (pos (suc m))) seen _
              (below m (omega (arith, le))) (ground (arith, le)))))
]
