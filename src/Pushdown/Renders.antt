-- ===== src/Pushdown/Renders.antt =====
-- The literals of src/fdw/qual_pushdown.cc have the keys of their constants, counted from 1970.
use pgiceberg.Common.{
  ℕ, ◌≡◌, sym, ap, ◌∙◌, Bool, true, false, Option, some, Bool-cases, inl, inr, arith, none_not_some,
  some-injective,
}
use pgiceberg.Common.Bytes.{Bytes}
use pgiceberg.Common.Int.{ℤ, pos, ◌+ℤ◌, InSigned, in_signed, int64_min, int32_min}
use pgiceberg.Logical.Mirror.{c_str}
use pgiceberg.Schema.{
  TypeId, boolean, int, long, float, double, decimal, date, time, timestamp, timestamp_tz,
  timestamp_ns, timestamp_tz_ns, string, uuid, binary, IcebergType,
}
use pgiceberg.Convert.{
  Datum, bool_datum, int2_datum, int4_datum, int8_datum, float4_datum, float8_datum, numeric_datum,
  text_datum, varchar_datum, bpchar_datum, bytea_datum, uuid_datum, date_datum, time_datum,
  timestamp_datum, timestamptz_datum, other_datum, Library,
}
use pgiceberg.Pushdown.Constants.{
  Literal, date_literal, LiteralUse, date_not_finite, boolean_for, integer_for, long_for,
  string_for, date_for, time_for, of_timestamp, timestamp_for, timestamptz_for, binary_for,
  real_for, double_for, decimal_for, uuid_for, literal_for_const,
}
use pgiceberg.Pushdown.Timestamp.{is_not_finite, timestamp_literal, timestamp_literal-exact}
use pgiceberg.Pushdown.Meaning.{
  truths, integers, dates, times, timestamps, timestamps_tz, ordinal, characters, octets, truth_key,
  datum_key, literal_key, in_iceberg,
}
use pgiceberg.Pushdown.Keys.{kind_of_type, HasKind}

-- A timestamp whose number of microseconds since 1970 is an `int64_t`.
abbrev pub InEpoch : ℤ → Type 0
InEpoch t = InSigned int64_min (t +ℤ pos 946684800000000)

abbrev pub IsSafe : {F : Type 0} → Datum F → Type 0
IsSafe (timestamp_datum t) = InEpoch t
IsSafe (timestamptz_datum t) = InEpoch t
IsSafe other = Unit {0}

add_nothing : (n : ℤ) → n +ℤ pos 0 ≡ n
unfolding ◌+ℤ◌
add_nothing n = ground arith

-- A literal for a column of a kind: it has the key of the constant, counted from 1970.
abbrev pub Renders : {F : Type 0} → ℕ → Datum F → Literal F → Type 0
Renders k d literal = HasKind k (datum_key d) × (literal_key literal ≡ in_iceberg (datum_key d))

module _ {F : Type 0} (l : Library F) (u : Bytes → Option Bytes) where
  integer-Renders :
      (t : TypeId) (k : ℕ) (n : ℤ) (literal : Literal F)
      → kind_of_type t ≡ some k
      → integer_for l u n t ≡ some literal
      → (some 1 ≡ some k) × (literal_key literal ≡ ordinal integers (n +ℤ pos 0))
  unfolding integer_for kind_of_type literal_key
  integer-Renders int k n literal h e =
      (h, ap literal_key (sym (some-injective e)) ∙ ap (ordinal integers) (sym (add_nothing n)))
  integer-Renders long k n literal h e =
      (h, ap literal_key (sym (some-injective e)) ∙ ap (ordinal integers) (sym (add_nothing n)))
  integer-Renders double k n literal h e = absurd (none_not_some k h)
  integer-Renders other k n literal h e = absurd (none_not_some literal e)

  long-Renders :
      (t : TypeId) (k : ℕ) (n : ℤ) (literal : Literal F)
      → kind_of_type t ≡ some k
      → long_for n t ≡ some literal
      → (some 1 ≡ some k) × (literal_key literal ≡ ordinal integers (n +ℤ pos 0))
  unfolding long_for kind_of_type literal_key
  long-Renders int k n literal h e =
      (h, ap literal_key (sym (some-injective e)) ∙ ap (ordinal integers) (sym (add_nothing n)))
  long-Renders long k n literal h e =
      (h, ap literal_key (sym (some-injective e)) ∙ ap (ordinal integers) (sym (add_nothing n)))
  long-Renders other k n literal h e = absurd (none_not_some literal e)

  boolean-Renders :
      (t : TypeId) (k : ℕ) (b : Bool) (literal : Literal F)
      → kind_of_type t ≡ some k
      → boolean_for b t ≡ some literal
      → (some 0 ≡ some k) × (literal_key literal ≡ ordinal truths (truth_key b +ℤ pos 0))
  unfolding boolean_for kind_of_type literal_key
  boolean-Renders boolean k b literal h e = (
    h,
    ap literal_key (sym (some-injective e)) ∙ ap (ordinal truths) (sym (add_nothing (truth_key b))),
  )
  boolean-Renders other k b literal h e = absurd (none_not_some literal e)

  string-Renders :
      (t : TypeId) (k : ℕ) (s : Bytes) (literal : Literal F)
      → kind_of_type t ≡ some k
      → string_for s t ≡ some literal
      → (some 6 ≡ some k) × (literal_key literal ≡ characters (c_str s))
  unfolding string_for kind_of_type literal_key
  string-Renders string k s literal h e = (h, ap literal_key (sym (some-injective e)))
  string-Renders other k s literal h e = absurd (none_not_some literal e)

  binary-Renders :
      (t : TypeId) (k : ℕ) (s : Bytes) (literal : Literal F)
      → kind_of_type t ≡ some k
      → binary_for s t ≡ some literal
      → (some 7 ≡ some k) × (literal_key literal ≡ octets s)
  unfolding binary_for kind_of_type literal_key
  binary-Renders binary k s literal h e = (h, ap literal_key (sym (some-injective e)))
  binary-Renders other k s literal h e = absurd (none_not_some literal e)

  time-Renders :
      (t : TypeId) (k : ℕ) (n : ℤ) (literal : Literal F)
      → kind_of_type t ≡ some k
      → time_for n t ≡ some literal
      → (some 3 ≡ some k) × (literal_key literal ≡ ordinal times (n +ℤ pos 0))
  unfolding time_for kind_of_type literal_key
  time-Renders time k n literal h e =
      (h, ap literal_key (sym (some-injective e)) ∙ ap (ordinal times) (sym (add_nothing n)))
  time-Renders other k n literal h e = absurd (none_not_some literal e)

  date_for-date :
      (d : ℤ) (literal : Literal F)
      → date_for d date ≡ some literal
      → date_literal (d +ℤ pos 10957) ≡ literal
  unfolding date_for
  date_for-date d literal e = elim (Bool-cases (date_not_finite d)) [
    | inl t ↦ absurd (none_not_some literal (rw (t, date_for) at e))
    | inr f ↦ (elim (Bool-cases (in_signed int32_min (d +ℤ pos 10957))) [
      | inl t ↦ some-injective (rw (t) at (rw (f, date_for) at e))
      | inr g ↦ absurd (none_not_some literal (rw (g) at (rw (f, date_for) at e)))
    ])
  ]

  date-Renders :
      (t : TypeId) (k : ℕ) (d : ℤ) (literal : Literal F)
      → kind_of_type t ≡ some k
      → date_for d t ≡ some literal
      → (some 2 ≡ some k) × (literal_key literal ≡ ordinal dates (d +ℤ pos 10957))
  unfolding kind_of_type literal_key
  date-Renders date k d literal h e = (h, ap literal_key (sym (date_for-date d literal e)))
  date-Renders other k d literal h e = unfold date_for in absurd (none_not_some literal e)

  -- A finite timestamp within the range of its literal.
  timestamp_literal-some :
      (with_timezone : Bool) (t : ℤ) (literal : Literal F)
      → InEpoch t
      → of_timestamp (timestamp_literal with_timezone false t) ≡ some literal
      → of_timestamp (some (with_timezone, t +ℤ pos 946684800000000)) ≡ some literal
  unfolding timestamp_literal
  timestamp_literal-some with_timezone t literal safe e = elim (Bool-cases (is_not_finite t)) [
    | inl f ↦ absurd (none_not_some literal (rw (f, timestamp_literal) at e))
    | inr f ↦ rw (timestamp_literal-exact with_timezone t f safe) at e
  ]

  timestamp-Renders :
      (t : TypeId) (k : ℕ) (n : ℤ) (literal : Literal F)
      → kind_of_type t ≡ some k
      → InEpoch n
      → timestamp_for n t ≡ some literal
      → (some 4 ≡ some k) × (literal_key literal ≡ ordinal timestamps (n +ℤ pos 946684800000000))
  unfolding timestamp_for kind_of_type literal_key
  timestamp-Renders timestamp k n literal h safe e =
      (h, ap literal_key (sym (some-injective (timestamp_literal-some false n literal safe e))))
  timestamp-Renders timestamp_ns k n literal h safe e = absurd (none_not_some k h)
  timestamp-Renders other k n literal h safe e = absurd (none_not_some literal e)

  timestamptz-Renders :
      (t : TypeId) (k : ℕ) (n : ℤ) (literal : Literal F)
      → kind_of_type t ≡ some k
      → InEpoch n
      → timestamptz_for n t ≡ some literal
      → (some 5 ≡ some k) × (literal_key literal ≡ ordinal timestamps_tz (n +ℤ pos 946684800000000))
  unfolding timestamptz_for kind_of_type literal_key
  timestamptz-Renders timestamp_tz k n literal h safe e =
      (h, ap literal_key (sym (some-injective (timestamp_literal-some true n literal safe e))))
  timestamptz-Renders timestamp_tz_ns k n literal h safe e = absurd (none_not_some k h)
  timestamptz-Renders other k n literal h safe e = absurd (none_not_some literal e)

  -- Data that are opaque have no literal for a column of a kind.
  real-none :
      (t : TypeId) (k : ℕ) (f : F) (literal : Literal F)
      → kind_of_type t ≡ some k
      → ¬ (real_for l u f t ≡ some literal)
  unfolding real_for kind_of_type
  real-none float k f literal h e = none_not_some k h
  real-none double k f literal h e = none_not_some k h
  real-none other k f literal h e = none_not_some literal e

  double-none :
      (t : TypeId) (k : ℕ) (use_of : LiteralUse) (f : F) (literal : Literal F)
      → kind_of_type t ≡ some k
      → ¬ (double_for l u use_of f t ≡ some literal)
  unfolding double_for kind_of_type
  double-none float k use_of f literal h e = none_not_some k h
  double-none double k use_of f literal h e = none_not_some k h
  double-none other k use_of f literal h e = none_not_some literal e

  decimal-none :
      (t : TypeId) (k : ℕ) (s : Bytes) (type : IcebergType) (literal : Literal F)
      → kind_of_type t ≡ some k
      → ¬ (decimal_for s type t ≡ some literal)
  unfolding decimal_for kind_of_type
  decimal-none decimal k s type literal h e = none_not_some k h
  decimal-none other k s type literal h e = none_not_some literal e

  uuid-none :
      (t : TypeId) (k : ℕ) (s : Bytes) (literal : Literal F)
      → kind_of_type t ≡ some k
      → ¬ (uuid_for l u s t ≡ some literal)
  unfolding uuid_for kind_of_type
  uuid-none uuid k s literal h e = none_not_some k h
  uuid-none other k s literal h e = none_not_some literal e

  pub literal_for_const-Renders :
      (d : Datum F) (type : IcebergType) (use_of : LiteralUse) (k : ℕ) (literal : Literal F)
      → kind_of_type type.type_id ≡ some k
      → IsSafe d
      → literal_for_const l u d type use_of ≡ some literal
      → Renders k d literal
  unfolding literal_for_const datum_key in_iceberg
  literal_for_const-Renders (bool_datum b) type use_of k literal h safe e =
      boolean-Renders type.type_id k b literal h e
  literal_for_const-Renders (int2_datum n) type use_of k literal h safe e =
      integer-Renders type.type_id k n literal h e
  literal_for_const-Renders (int4_datum n) type use_of k literal h safe e =
      integer-Renders type.type_id k n literal h e
  literal_for_const-Renders (int8_datum n) type use_of k literal h safe e =
      long-Renders type.type_id k n literal h e
  literal_for_const-Renders (float4_datum f) type use_of k literal h safe e =
      absurd (real-none type.type_id k f literal h e)
  literal_for_const-Renders (float8_datum f) type use_of k literal h safe e =
      absurd (double-none type.type_id k use_of f literal h e)
  literal_for_const-Renders (numeric_datum s) type use_of k literal h safe e =
      absurd (decimal-none type.type_id k s type literal h e)
  literal_for_const-Renders (text_datum s) type use_of k literal h safe e =
      string-Renders type.type_id k s literal h e
  literal_for_const-Renders (varchar_datum s) type use_of k literal h safe e =
      string-Renders type.type_id k s literal h e
  literal_for_const-Renders (bpchar_datum s) type use_of k literal h safe e =
      absurd (none_not_some literal e)
  literal_for_const-Renders (bytea_datum s) type use_of k literal h safe e =
      binary-Renders type.type_id k s literal h e
  literal_for_const-Renders (uuid_datum s) type use_of k literal h safe e =
      absurd (uuid-none type.type_id k s literal h e)
  literal_for_const-Renders (date_datum d) type use_of k literal h safe e =
      date-Renders type.type_id k d literal h e
  literal_for_const-Renders (time_datum t) type use_of k literal h safe e =
      time-Renders type.type_id k t literal h e
  literal_for_const-Renders (timestamp_datum t) type use_of k literal h safe e =
      timestamp-Renders type.type_id k t literal h safe e
  literal_for_const-Renders (timestamptz_datum t) type use_of k literal h safe e =
      timestamptz-Renders type.type_id k t literal h safe e
  literal_for_const-Renders (other_datum oid) type use_of k literal h safe e =
      absurd (none_not_some literal e)
