-- ===== src/Pushdown/Meaning/Values.antt =====
-- What the values of src/fdw/qual_pushdown.cc are compared by, in PostgreSQL and in Iceberg.
use pgiceberg.Common.{
  ℕ, Bool, true, false, ◌&&◌, ◌||◌, not, [], ◌∷◌, Option, none, some, ltb, ◌==◌, if◌then◌else◌,
}
use pgiceberg.Common.Bytes.{Bytes, eqb}
use pgiceberg.Common.Int.{ℤ, pos, ◌+ℤ◌}
use pgiceberg.Logical.Mirror.{c_str}
use pgiceberg.Convert.{
  Datum, bool_datum, int2_datum, int4_datum, int8_datum, text_datum, varchar_datum, bytea_datum,
  date_datum, time_datum, timestamp_datum, timestamptz_datum,
}
use pgiceberg.Pushdown.Comparison.{
  PgComparison, eq_to, not_eq, lt, lt_eq, gt, gt_eq, like, not_like, holds,
}
use pgiceberg.Pushdown.Constants.{
  Literal, boolean_literal, int_literal, long_literal, date_literal, time_literal, timestamp_micros,
  timestamp_tz_micros, string_literal, binary_literal,
}

-- What a value is compared by. Floats, numerics, UUIDs and texts padded with
-- blanks are `opaque` here.
pub data Family : Type 0 where
  truths integers dates times timestamps timestamps_tz : Family

pub data Key : Type 0 where
  ordinal : Family → ℤ → Key
  characters octets : Bytes → Key
  opaque : Key

abbrev pub family_code : Family → ℕ
family_code truths = 0
family_code integers = 1
family_code dates = 2
family_code times = 3
family_code timestamps = 4
family_code timestamps_tz = 5

abbrev pub truth_key : Bool → ℤ
truth_key true = pos 1
truth_key false = pos 0

unfoldable pub datum_key : {F : Type 0} → Datum F → Key
datum_key (bool_datum b) = ordinal truths (truth_key b)
datum_key (int2_datum n) = ordinal integers n
datum_key (int4_datum n) = ordinal integers n
datum_key (int8_datum n) = ordinal integers n
datum_key (text_datum s) = characters (c_str s)
datum_key (varchar_datum s) = characters (c_str s)
datum_key (bytea_datum s) = octets s
datum_key (date_datum d) = ordinal dates d
datum_key (time_datum t) = ordinal times t
datum_key (timestamp_datum t) = ordinal timestamps t
datum_key (timestamptz_datum t) = ordinal timestamps_tz t
datum_key other = opaque

unfoldable pub literal_key : {F : Type 0} → Literal F → Key
literal_key (boolean_literal b) = ordinal truths (truth_key b)
literal_key (int_literal n) = ordinal integers n
literal_key (long_literal n) = ordinal integers n
literal_key (date_literal d) = ordinal dates d
literal_key (time_literal t) = ordinal times t
literal_key (timestamp_micros t) = ordinal timestamps t
literal_key (timestamp_tz_micros t) = ordinal timestamps_tz t
literal_key (string_literal s) = characters s
literal_key (binary_literal s) = octets s
literal_key other = opaque

-- PostgreSQL counts days and microseconds from 2000, Iceberg from 1970.
abbrev pub epoch_of : Family → ℕ
epoch_of dates = 10957
epoch_of timestamps = 946684800000000
epoch_of timestamps_tz = 946684800000000
epoch_of other = 0

unfoldable pub in_iceberg : Key → Key
in_iceberg (ordinal f n) = ordinal f (n +ℤ pos (epoch_of f))
in_iceberg (characters s) = characters s
in_iceberg (octets s) = octets s
in_iceberg opaque = opaque

unfoldable pub byte_lt : Bytes → Bytes → Bool
byte_lt [] [] = false
byte_lt [] (y ∷ ys) = true
byte_lt (x ∷ xs) [] = false
byte_lt (x ∷ xs) (y ∷ ys) = ltb x y || (x == y && byte_lt xs ys)

unfoldable pub bytes_hold : PgComparison → Bytes → Bytes → Bool
bytes_hold eq_to s t = eqb s t
bytes_hold not_eq s t = not (eqb s t)
bytes_hold lt s t = byte_lt s t
bytes_hold lt_eq s t = not (byte_lt t s)
bytes_hold gt s t = byte_lt t s
bytes_hold gt_eq s t = not (byte_lt s t)
bytes_hold like s t = false
bytes_hold not_like s t = false

abbrev pub is_some_true : Option Bool → Bool
is_some_true none = false
is_some_true (some b) = b

unfoldable pub integers_hold : PgComparison → ℤ → ℤ → Bool
integers_hold c m n = is_some_true (holds c m n)

-- Keys of one kind are compared; `otherwise` is the answer for others.
unfoldable pub keys_hold : Bool → PgComparison → Key → Key → Bool
keys_hold otherwise c (ordinal f m) (ordinal g n) =
    if family_code f == family_code g then integers_hold c m n else otherwise
keys_hold otherwise c (characters s) (characters t) = bytes_hold c s t
keys_hold otherwise c (octets s) (octets t) = bytes_hold c s t
keys_hold otherwise c other another = otherwise
