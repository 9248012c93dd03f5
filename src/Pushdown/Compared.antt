-- ===== src/Pushdown/Compared.antt =====
-- `TranslateComparison` of src/fdw/qual_pushdown.cc keeps each row for which the comparison is true.
use pgiceberg.Common.{
  ℕ, ◌≡◌, refl, sym, subst, ◌∙◌, Bool, true, false, Option, none, some, Bool-cases, inl, inr, arith,
  none_not_some, some-injective,
}
use pgiceberg.Common.Bytes.{Bytes}
use pgiceberg.Schema.{
  TypeId, boolean, int, long, date, time, timestamp, timestamp_tz, string, binary, IcebergType,
}
use pgiceberg.Schema.Types.{is_type}
use pgiceberg.Convert.{Datum}
use pgiceberg.Pushdown.Comparison.{
  PgComparison, eq_to, not_eq, lt, lt_eq, gt, gt_eq, like, not_like, Collation,
  collation_allows_string_pushdown,
}
use pgiceberg.Pushdown.Constants.{Literal, LiteralUse, equality_member, exact}
use pgiceberg.Pushdown.Keys.{kind_of_type, HasKind, is_like, keys_hold-in_iceberg}
use pgiceberg.Pushdown.Renders.{IsSafe, literal_for_const-Renders}
use pgiceberg.Pushdown.Meaning.{
  Key, characters, datum_key, in_iceberg, keys_hold, Row, compares_bytes, text_holds, pg_keys_hold,
  literal_holds, matches,
}
use pgiceberg.Pushdown.Walk.{
  Planner, ColumnTarget, Expression, literal_of, comparison_of, translate_plain, translate_allowed,
  is_forbidden, translate_comparison,
}

pub no_some : {A B : Type 0} (a : A) → ◌≡◌ {A = Option A} none (some a) → B
no_some a h = absurd (none_not_some a h)

string_kind : (t : TypeId) → kind_of_type t ≡ some 6 → is_type t string ≡ true
unfolding kind_of_type
string_kind string h = refl
string_kind boolean h = let e : ◌≡◌ {A = ℕ} 0 6 = some-injective h in absurd (omega (arith, e))
string_kind int h = let e : ◌≡◌ {A = ℕ} 1 6 = some-injective h in absurd (omega (arith, e))
string_kind long h = let e : ◌≡◌ {A = ℕ} 1 6 = some-injective h in absurd (omega (arith, e))
string_kind date h = let e : ◌≡◌ {A = ℕ} 2 6 = some-injective h in absurd (omega (arith, e))
string_kind time h = let e : ◌≡◌ {A = ℕ} 3 6 = some-injective h in absurd (omega (arith, e))
string_kind timestamp h = let e : ◌≡◌ {A = ℕ} 4 6 = some-injective h in absurd (omega (arith, e))
string_kind timestamp_tz h = let e : ◌≡◌ {A = ℕ} 5 6 = some-injective h in absurd (omega (arith, e))
string_kind binary h = let e : ◌≡◌ {A = ℕ} 7 6 = some-injective h in absurd (omega (arith, e))
string_kind other h = no_some 6 h

pub kind_string : (t : TypeId) (k : ℕ) → is_type t string ≡ true → kind_of_type t ≡ some k → k ≡ 6
unfolding kind_of_type
kind_string string k h e = sym (some-injective e)
kind_string other k h e = absurd (cc)

-- A type whose values are compared by their keys.
abbrev pub IsKinded : IcebergType → Type 0
IsKinded type = (k : ℕ) × (kind_of_type type.type_id ≡ some k)

-- The source is not more generous than PostgreSQL's comparison of text.
pub collation_allows_string_pushdown-compares_bytes :
    (coll : Collation) (c : PgComparison)
    → collation_allows_string_pushdown coll c ≡ true
    → compares_bytes coll c ≡ true
unfolding collation_allows_string_pushdown compares_bytes
collation_allows_string_pushdown-compares_bytes coll lt h = h
collation_allows_string_pushdown-compares_bytes coll lt_eq h = h
collation_allows_string_pushdown-compares_bytes coll gt h = h
collation_allows_string_pushdown-compares_bytes coll gt_eq h = h
collation_allows_string_pushdown-compares_bytes coll eq_to h = h
collation_allows_string_pushdown-compares_bytes coll not_eq h = h
collation_allows_string_pushdown-compares_bytes coll like h = h
collation_allows_string_pushdown-compares_bytes coll not_like h = h

-- A text column that is not forbidden is compared by bytes.
pub allowed_text :
    (column : ColumnTarget) (coll : Collation) (c : PgComparison)
    → is_forbidden column coll c ≡ false
    → kind_of_type column.field_type.type_id ≡ some 6
    → compares_bytes coll c ≡ true
allowed_text column coll c h k =
    let text : is_type column.field_type.type_id string ≡ true =
      string_kind column.field_type.type_id k in
    collation_allows_string_pushdown-compares_bytes coll c (ground (arith, text, h))

module _ {F V : Type 0} (x : Planner F) (row : Row F V) where
  -- A cell holds what the column shows, of a type that has a kind.
  abbrev pub Shows : IcebergType → Datum F → V → Type 0
  Shows type d v =
      (k : ℕ) × (kind_of_type type.type_id ≡ some k)
      × HasKind k (datum_key d)
      × (row.value_key v ≡ in_iceberg (datum_key d))

  -- The same wherever the type has one: not for a float, a decimal, a UUID or a timestamp of nanoseconds,
  -- where all that is asked is that NULL is shown as NULL.
  abbrev pub Agrees : IcebergType → Option (Datum F) → Option V → Type 0
  Agrees type none none = Unit {0}
  Agrees type none (some v) = ⊥
  Agrees type (some d) none = ⊥
  Agrees type (some d) (some v) =
      (k : ℕ)
      → kind_of_type type.type_id ≡ some k
      → HasKind k (datum_key d) × (row.value_key v ≡ in_iceberg (datum_key d))

  abbrev pub ShownIn : IcebergType → Datum F → Option V → Type 0
  ShownIn type d cell = (v : V) × (cell ≡ some v) × Shows type d v

  -- A cell that agrees with a value is there.
  pub Agrees-some :
      (type : IcebergType) (a : Datum F) (cell : Option V)
      → IsKinded type
      → Agrees type (some a) cell
      → ShownIn type a cell
  Agrees-some type a none (k, kind) agree = absurd (agree)
  Agrees-some type a (some v) (k, kind) agree =
      let (ha, shown) = agree k kind in (v, refl, (k, kind, ha, shown))

  pub text_holds-plain :
      (o : Bool) (c : PgComparison) (coll : Collation) (s t : Bytes)
      → is_like c ≡ false
      → compares_bytes coll c ≡ true
      → text_holds x row c coll s t o ≡ keys_hold o c (characters s) (characters t)
  unfolding text_holds keys_hold
  text_holds-plain o eq_to coll s t plain allowed = rw (allowed) refl
  text_holds-plain o not_eq coll s t plain allowed = rw (allowed) refl
  text_holds-plain o lt coll s t plain allowed = rw (allowed) refl
  text_holds-plain o lt_eq coll s t plain allowed = rw (allowed) refl
  text_holds-plain o gt coll s t plain allowed = rw (allowed) refl
  text_holds-plain o gt_eq coll s t plain allowed = rw (allowed) refl
  text_holds-plain o like coll s t plain allowed = absurd (cc)
  text_holds-plain o not_like coll s t plain allowed = absurd (cc)

  -- What PostgreSQL says of two keys of the kind of a column that is not forbidden.
  pub pg_keys_hold-plain :
      (o : Bool) (c : PgComparison) (coll : Collation) (column : ColumnTarget) (k : ℕ) (a b : Key)
      → is_like c ≡ false
      → is_forbidden column coll c ≡ false
      → kind_of_type column.field_type.type_id ≡ some k
      → HasKind k a
      → pg_keys_hold x row o c coll a b ≡ true
      → keys_hold o c a b ≡ true
  unfolding pg_keys_hold
  pg_keys_hold-plain o c coll column k (characters s) (characters t) plain allowed kind ha h =
      let ok = allowed_text column coll c allowed (kind ∙ sym ha) in
      sym (text_holds-plain o c coll s t plain ok) ∙ h
  pg_keys_hold-plain o c coll column k (characters s) other plain allowed kind ha h = h
  pg_keys_hold-plain o c coll column k other b plain allowed kind ha h = h

  pub literal_holds-keys :
      (column : ColumnTarget) (c : PgComparison) (use_of : LiteralUse) (a d : Datum F) (v : V)
      (literal : Literal F) (o : Bool)
      → Shows column.field_type a v
      → IsSafe d
      → literal_of x d column use_of ≡ some literal
      → keys_hold o c (datum_key a) (datum_key d) ≡ true
      → literal_holds x row c v literal ≡ true
  unfolding literal_holds
  literal_holds-keys column c use_of a d v literal o (k, kind, ha, shown) safe made h =
      let (hd, rendered) =
        literal_for_const-Renders x.library x.uuid_from_bytes d column.field_type use_of k literal
          kind safe made in
      rw (shown, rendered)
        (keys_hold-in_iceberg o (row.other_literal c v literal) c k (datum_key a) (datum_key d) ha
          hd h)

  comparison_of_sound :
      (column : ColumnTarget) (c : PgComparison) (use_of : LiteralUse) (a d : Datum F) (o : Bool)
      (e : Expression F) (v : V) (made : Option (Literal F))
      → row.cell column.field_name ≡ some v
      → literal_of x d column use_of ≡ made
      → Shows column.field_type a v
      → IsSafe d
      → keys_hold o c (datum_key a) (datum_key d) ≡ true
      → comparison_of x c column.field_name made ≡ some e
      → matches x row e ≡ true
  unfolding matches
  comparison_of_sound column c use_of a d o e v none at m agree safe h t = no_some e t
  comparison_of_sound column c use_of a d o e v (some literal) at m agree safe h t =
      subst (λ e. matches x row e ≡ true) (some-injective t)
        (rw (at) (literal_holds-keys column c use_of a d v literal o agree safe m h))

  -- A comparison other than LIKE.
  pub translate_plain_sound :
      (column : ColumnTarget) (c : PgComparison) (use_of : LiteralUse) (a d : Datum F) (o : Bool)
      (e : Expression F)
      → ShownIn column.field_type a (row.cell column.field_name)
      → IsSafe d
      → keys_hold o c (datum_key a) (datum_key d) ≡ true
      → translate_plain x c use_of column d ≡ some e
      → matches x row e ≡ true
  unfolding translate_plain
  translate_plain_sound column c use_of a d o e (v, at, shows) safe h t =
      comparison_of_sound column c use_of a d o e v _ at refl shows safe h t

  -- Which literal is made for a comparison other than LIKE.
  pub translate_allowed-plain :
      (column : ColumnTarget) (c : PgComparison) (d : Datum F) (e : Expression F)
      → is_like c ≡ false
      → translate_allowed x c column d ≡ some e
      → (use_of : LiteralUse) × (translate_plain x c use_of column d ≡ some e)
  unfolding translate_allowed
  translate_allowed-plain column eq_to d e plain t = (equality_member, t)
  translate_allowed-plain column not_eq d e plain t = (exact, t)
  translate_allowed-plain column lt d e plain t = (exact, t)
  translate_allowed-plain column lt_eq d e plain t = (exact, t)
  translate_allowed-plain column gt d e plain t = (exact, t)
  translate_allowed-plain column gt_eq d e plain t = (exact, t)
  translate_allowed-plain column like d e plain t = absurd (cc)
  translate_allowed-plain column not_like d e plain t = absurd (cc)

  pub translate_comparison_inversion :
      (column : ColumnTarget) (c : PgComparison) (coll : Collation) (d : Datum F) (e : Expression F)
      → translate_comparison x column c coll d ≡ some e
      → (is_forbidden column coll c ≡ false) × (translate_allowed x c column d ≡ some e)
  unfolding translate_comparison
  translate_comparison_inversion column c coll d e t =
      elim (Bool-cases (is_forbidden column coll c)) [
        | inl f ↦ no_some e (rw (f, translate_comparison) at t)
        | inr f ↦ (f, rw (f, translate_comparison) at t)
      ]
