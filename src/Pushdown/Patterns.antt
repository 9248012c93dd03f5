-- ===== src/Pushdown/Patterns.antt =====
-- The LIKE half of `TranslateComparison` of src/fdw/qual_pushdown.cc, and the comparison as a whole.
use pgiceberg.Common.{
  ℕ, ◌≡◌, refl, sym, subst, ◌∙◌, Bool, true, false, not, ap, Option, none, some, Bool-cases, inl,
  inr, some-injective, arith,
}
use pgiceberg.Common.Bytes.{Bytes}
use pgiceberg.Logical.Mirror.{c_str}
use pgiceberg.Schema.{string}
use pgiceberg.Schema.Types.{is_type}
use pgiceberg.Convert.{Datum, text_datum, varchar_datum}
use pgiceberg.Pushdown.Comparison.{PgComparison, like, not_like, Collation}
use pgiceberg.Pushdown.Like.{starts_with_prefix, starts_with_prefix-like}
use pgiceberg.Pushdown.Keys.{HasKind, is_like, family_code_small}
use pgiceberg.Pushdown.Renders.{IsSafe}
use pgiceberg.Pushdown.Meaning.{
  Key, family_code, ordinal, characters, octets, opaque, datum_key, in_iceberg, Row, compares_bytes,
  text_holds, pg_keys_hold, pg_compare, prefix_holds, matches,
}
use pgiceberg.Pushdown.Walk.{
  Planner, ColumnTarget, Expression, pattern_of, starts_with_of, translate_like, translate_allowed,
  is_forbidden, translate_comparison,
}
use pgiceberg.Pushdown.Compared.{
  no_some, allowed_text, kind_string, ShownIn, pg_keys_hold-plain, translate_plain_sound,
  translate_allowed-plain, translate_comparison_inversion,
}

-- LIKE, or NOT LIKE.
abbrev like_if : Bool → PgComparison
like_if true = like
like_if false = not_like

characters_of_kind : (a : Key) → HasKind 6 a → (s : Bytes) × (a ≡ characters s)
characters_of_kind (characters s) h = (s, refl)
characters_of_kind (octets s) h =
    let e : ◌≡◌ {A = ℕ} 7 6 = some-injective h in absurd (omega (arith, e))
characters_of_kind opaque h = no_some 6 h
characters_of_kind (ordinal f n) h =
    let e : family_code f ≡ 6 = some-injective h in
    let small = family_code_small f in absurd (omega (arith, e, small))

module _ {F V : Type 0} (x : Planner F) (row : Row F V) where
  text_holds-prefix :
      (o expected : Bool) (coll : Collation) (s t prefix : Bytes)
      → starts_with_prefix t ≡ some prefix
      → compares_bytes coll (like_if expected) ≡ true
      → text_holds x row (like_if expected) coll s t o ≡ true
      → prefix_holds x row expected (characters s) prefix ≡ true
  unfolding text_holds
  text_holds-prefix o true coll s t prefix p bytes h =
      sym (starts_with_prefix-like t prefix s p) ∙ (rw (bytes, text_holds) at h)
  text_holds-prefix o false coll s t prefix p bytes h =
      sym (ap not (starts_with_prefix-like t prefix s p)) ∙ (rw (bytes, text_holds) at h)

  -- The pattern of a constant text is pushed down as a prefix.
  pattern_of-prefix :
      (o expected : Bool) (coll : Collation) (s prefix : Bytes) (d : Datum F)
      → pattern_of x d ≡ some prefix
      → compares_bytes coll (like_if expected) ≡ true
      → pg_keys_hold x row o (like_if expected) coll (characters s) (datum_key d) ≡ true
      → prefix_holds x row expected (characters s) prefix ≡ true
  unfolding pg_keys_hold datum_key
  pattern_of-prefix o expected coll s prefix (text_datum t) p bytes h =
      text_holds-prefix o expected coll s (c_str t) prefix p bytes h
  pattern_of-prefix o expected coll s prefix (varchar_datum t) p bytes h =
      text_holds-prefix o expected coll s (c_str t) prefix p bytes h
  pattern_of-prefix o expected coll s prefix other p bytes h = no_some prefix p

  starts_with_of_sound :
      (expected : Bool) (name : Bytes) (v : V) (e : Expression F) (made : Option Bytes)
      → starts_with_of x expected name made ≡ some e
      → ((prefix : Bytes)
          → made ≡ some prefix
          → prefix_holds x row expected (row.value_key v) prefix ≡ true)
      → row.cell name ≡ some v
      → matches x row e ≡ true
  unfolding matches
  starts_with_of_sound expected name v e none t h at = no_some e t
  starts_with_of_sound true name v e (some p) t h at =
      subst (λ e. matches x row e ≡ true) (some-injective t) (rw (at) (h p refl))
  starts_with_of_sound false name v e (some p) t h at =
      subst (λ e. matches x row e ≡ true) (some-injective t) (rw (at) (h p refl))

  -- LIKE with a pattern that is pushed down.
  translate_like_sound :
      (expected : Bool) (column : ColumnTarget) (coll : Collation) (a d : Datum F)
      (e : Expression F)
      → is_forbidden column coll (like_if expected) ≡ false
      → ShownIn x row column.field_type a (row.cell column.field_name)
      → pg_compare x row (like_if expected) coll a d ≡ true
      → translate_like x expected column d ≡ some e
      → matches x row e ≡ true
  unfolding translate_like pg_compare in_iceberg
  translate_like_sound expected column coll a d e allowed agree h t =
      elim (Bool-cases (is_type column.field_type.type_id string)) [
        | inr f ↦ no_some e (rw (f, translate_like) at t)
        | inl f ↦
            let (v, at, (k, kind, ha, shown)) = agree in
            let six : k ≡ 6 = kind_string column.field_type.type_id k f kind in
            let bytes = allowed_text column coll (like_if expected) allowed (kind ∙ ap some six) in
            let (s, key) =
              characters_of_kind (datum_key a) (subst (λ k. HasKind k (datum_key a)) six ha) in
            starts_with_of_sound expected column.field_name v e _ (rw (f, translate_like) at t)
              (λ prefix made.
                rw (shown, key)
                  (pattern_of-prefix _ expected coll s prefix d made bytes
                    (rw (key, pg_compare) at h)))
              at
      ]

  plain_sound :
      (column : ColumnTarget) (c : PgComparison) (coll : Collation) (a d : Datum F)
      (e : Expression F)
      → is_like c ≡ false
      → is_forbidden column coll c ≡ false
      → ShownIn x row column.field_type a (row.cell column.field_name)
      → IsSafe d
      → pg_compare x row c coll a d ≡ true
      → translate_allowed x c column d ≡ some e
      → matches x row e ≡ true
  unfolding pg_compare
  plain_sound column c coll a d e plain allowed agree safe h t =
      let (use_of, made) = translate_allowed-plain x row column c d e plain t in
      let (v, at, (k, kind, ha, shown)) = agree in
      translate_plain_sound x row column c use_of a d _ e agree safe
        (pg_keys_hold-plain x row _ c coll column k (datum_key a) (datum_key d) plain allowed kind
          ha h)
        made

  allowed_sound :
      (column : ColumnTarget) (c : PgComparison) (coll : Collation) (a d : Datum F)
      (e : Expression F)
      → is_forbidden column coll c ≡ false
      → ShownIn x row column.field_type a (row.cell column.field_name)
      → IsSafe d
      → pg_compare x row c coll a d ≡ true
      → translate_allowed x c column d ≡ some e
      → matches x row e ≡ true
  unfolding translate_allowed
  allowed_sound column like coll a d e allowed agree safe h t =
      translate_like_sound true column coll a d e allowed agree h t
  allowed_sound column not_like coll a d e allowed agree safe h t =
      translate_like_sound false column coll a d e allowed agree h t
  allowed_sound column c coll a d e allowed agree safe h t =
      plain_sound column c coll a d e refl allowed agree safe h t

  -- A row for which PostgreSQL's comparison with the constant is true is one for which the predicate is.
  pub translate_comparison_sound :
      (column : ColumnTarget) (c : PgComparison) (coll : Collation) (a d : Datum F)
      (e : Expression F)
      → ShownIn x row column.field_type a (row.cell column.field_name)
      → IsSafe d
      → pg_compare x row c coll a d ≡ true
      → translate_comparison x column c coll d ≡ some e
      → matches x row e ≡ true
  translate_comparison_sound column c coll a d e agree safe h t =
      let (allowed, made) = translate_comparison_inversion x row column c coll d e t in
      allowed_sound column c coll a d e allowed agree safe h made
