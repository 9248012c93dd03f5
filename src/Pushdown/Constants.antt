-- ===== src/Pushdown/Constants.antt =====
-- `LiteralForConst` of src/fdw/qual_pushdown.cc.
use pgiceberg.Common.{ℕ, ◌-◌, ◌^◌, Bool, true, false, ◌||◌, not, Option, none, some, if◌then◌else◌}
use pgiceberg.Common.Bytes.{Bytes}
use pgiceberg.Common.Int.{ℤ, pos, negsuc, pos_part, ◌+ℤ◌, eq_ℤ, in_signed, int32_min}
use pgiceberg.Logical.Mirror.{c_str}
use pgiceberg.Schema.{
  TypeId, boolean, int, long, float, double, decimal, date, time, timestamp, timestamp_tz,
  timestamp_ns, timestamp_tz_ns, string, uuid, binary, IcebergType,
}
use pgiceberg.Convert.{
  Datum, bool_datum, int2_datum, int4_datum, int8_datum, float4_datum, float8_datum, numeric_datum,
  text_datum, varchar_datum, bytea_datum, uuid_datum, date_datum, time_datum, timestamp_datum,
  timestamptz_datum, Library,
}
use pgiceberg.Pushdown.Literal.{decimal_literal_from_numeric}
use pgiceberg.Pushdown.Timestamp.{timestamp_literal}

-- `iceberg::Literal`: what the source makes. A decimal has a sign, digits, a precision and a scale.
pub data Literal (F : Type 0) : Type 0 where
  boolean_literal : Bool → Literal F
  int_literal long_literal date_literal time_literal : ℤ → Literal F
  timestamp_micros timestamp_tz_micros : ℤ → Literal F
  float_literal double_literal : F → Literal F
  decimal_literal : Bool → ℕ → ℤ → ℤ → Literal F
  string_literal uuid_literal binary_literal : Bytes → Literal F

pub data LiteralUse : Type 0 where
  equality_member exact : LiteralUse

-- `DATE_NOT_FINITE`: the least and the greatest value.
abbrev pub date_not_finite : ℤ → Bool
date_not_finite d = eq_ℤ d (negsuc (2 ^ 31 - 1)) || eq_ℤ d (pos (2 ^ 31 - 1))

module _ {F : Type 0} where
  unfoldable pub boolean_for : Bool → TypeId → Option (Literal F)
  boolean_for b boolean = some (boolean_literal b)
  boolean_for b other = none

  unfoldable pub long_for : ℤ → TypeId → Option (Literal F)
  long_for n long = some (long_literal n)
  long_for n int = some (long_literal n)
  long_for n other = none

  abbrev pub decimal_of : IcebergType → Option (Bool × ℕ) → Option (Literal F)
  decimal_of target none = none
  decimal_of target (some (negative, unscaled)) =
      some (decimal_literal negative unscaled target.precision target.scale)

  unfoldable pub decimal_for : Bytes → IcebergType → TypeId → Option (Literal F)
  decimal_for repr target decimal =
      decimal_of target (decimal_literal_from_numeric repr (pos_part target.scale))
  decimal_for repr target other = none

  unfoldable pub string_for : Bytes → TypeId → Option (Literal F)
  string_for s string = some (string_literal (c_str s))
  string_for s other = none

  unfoldable pub date_for : ℤ → TypeId → Option (Literal F)
  date_for d date =
      if date_not_finite d
      then none
      else if not (in_signed int32_min (d +ℤ pos 10957))
      then none
      else some (date_literal (d +ℤ pos 10957))
  date_for d other = none

  unfoldable pub time_for : ℤ → TypeId → Option (Literal F)
  time_for t time = some (time_literal t)
  time_for t other = none

  abbrev pub of_timestamp : Option (Bool × ℤ) → Option (Literal F)
  of_timestamp none = none
  of_timestamp (some (true, micros)) = some (timestamp_tz_micros micros)
  of_timestamp (some (false, micros)) = some (timestamp_micros micros)

  unfoldable pub timestamp_for : ℤ → TypeId → Option (Literal F)
  timestamp_for t timestamp = of_timestamp (timestamp_literal false false t)
  timestamp_for t timestamp_ns = of_timestamp (timestamp_literal false true t)
  timestamp_for t other = none

  unfoldable pub timestamptz_for : ℤ → TypeId → Option (Literal F)
  timestamptz_for t timestamp_tz = of_timestamp (timestamp_literal true false t)
  timestamptz_for t timestamp_tz_ns = of_timestamp (timestamp_literal true true t)
  timestamptz_for t other = none

  unfoldable pub binary_for : Bytes → TypeId → Option (Literal F)
  binary_for s binary = some (binary_literal s)
  binary_for s other = none

module _ {F : Type 0} (l : Library F) (uuid_from_bytes : Bytes → Option Bytes) where
  unfoldable pub integer_for : ℤ → TypeId → Option (Literal F)
  integer_for n int = some (int_literal n)
  integer_for n long = some (long_literal n)
  integer_for n double = some (double_literal (l.of_int n))
  integer_for n other = none

  unfoldable pub real_for : F → TypeId → Option (Literal F)
  real_for f float = if l.is_nan f then none else some (float_literal f)
  real_for f double = if l.is_nan f then none else some (double_literal f)
  real_for f other = none

  -- A narrowed literal may serve for an equality only.
  abbrev pub if_member : LiteralUse → Literal F → Option (Literal F)
  if_member equality_member literal = some literal
  if_member exact literal = none

  unfoldable pub double_for : LiteralUse → F → TypeId → Option (Literal F)
  double_for use_of f double = if l.is_nan f then none else some (double_literal f)
  double_for use_of f float = if l.is_nan f then none else if_member use_of (double_literal f)
  double_for use_of f other = none

  abbrev pub uuid_of : Option Bytes → Option (Literal F)
  uuid_of none = none
  uuid_of (some u) = some (uuid_literal u)

  unfoldable pub uuid_for : Bytes → TypeId → Option (Literal F)
  uuid_for s uuid = uuid_of (uuid_from_bytes s)
  uuid_for s other = none

  -- `LiteralForConst`; the datum has its type.
  unfoldable pub literal_for_const : Datum F → IcebergType → LiteralUse → Option (Literal F)
  literal_for_const (bool_datum b) target use_of = boolean_for b target.type_id
  literal_for_const (int2_datum n) target use_of = integer_for n target.type_id
  literal_for_const (int4_datum n) target use_of = integer_for n target.type_id
  literal_for_const (int8_datum n) target use_of = long_for n target.type_id
  literal_for_const (float4_datum f) target use_of = real_for f target.type_id
  literal_for_const (float8_datum f) target use_of = double_for use_of f target.type_id
  literal_for_const (numeric_datum s) target use_of = decimal_for s target target.type_id
  literal_for_const (text_datum s) target use_of = string_for s target.type_id
  literal_for_const (varchar_datum s) target use_of = string_for s target.type_id
  literal_for_const (date_datum d) target use_of = date_for d target.type_id
  literal_for_const (time_datum t) target use_of = time_for t target.type_id
  literal_for_const (timestamp_datum t) target use_of = timestamp_for t target.type_id
  literal_for_const (timestamptz_datum t) target use_of = timestamptz_for t target.type_id
  literal_for_const (uuid_datum s) target use_of = uuid_for s target.type_id
  literal_for_const (bytea_datum s) target use_of = binary_for s target.type_id
  literal_for_const other target use_of = none
