-- ===== src/Convert/Read.antt =====
-- `ConvertValue` of src/common/datum_convert.cc: a cell of an Arrow array as a value of a PostgreSQL column.
use pgiceberg.Common.{
  ℕ, ◌^◌, ◌-◌, Bool, true, false, ◌&&◌, [], ◌++◌, Option, none, some, ltb, ◌==◌, length,
  if◌then◌else◌,
}
use pgiceberg.Common.Bytes.{Bytes, text}
use pgiceberg.Common.Int.{ℤ, pos, in_signed, int32_min}
use pgiceberg.Status.{
  Result, ok, err, make_error, and_then, numeric_value_out_of_range, invalid_parameter_value,
  feature_not_supported,
}
use pgiceberg.Logical.Mirror.{c_str}
use pgiceberg.Schema.{
  PgType, bool_oid, int2_oid, int4_oid, int8_oid, float4_oid, float8_oid, numeric_oid, bytea_oid,
  uuid_oid, date_oid, time_oid, timestamp_oid, timestamptz_oid, text_oid, varchar_oid, bpchar_oid,
  invalid_oid, other_oid,
}
use pgiceberg.Convert.{
  nano, ArrowValue, bool, int8, int16, int32, int64, date32, uint8, uint16, uint32, uint64, float,
  double, string, large_string, binary, large_binary, fixed_size_binary, decimal, time32, time64,
  timestamp, extension, Datum, bool_datum, int2_datum, int4_datum, int8_datum, float4_datum,
  float8_datum, numeric_datum, text_datum, varchar_datum, bpchar_datum, bytea_datum, uuid_datum,
  date_datum, time_datum, timestamp_datum, timestamptz_datum, Library,
}
use pgiceberg.Convert.Units.{scale_to_micros, drop_epoch, drop_epoch_days}

module _ {F : Type 0} where
  unfoldable pub is_nanosecond_temporal_array : ArrowValue F → Bool
  is_nanosecond_temporal_array (timestamp nano t) = true
  is_nanosecond_temporal_array (time64 nano t) = true
  is_nanosecond_temporal_array other = false

  unfoldable pub integer_value : ArrowValue F → Result (Option ℤ)
  integer_value (int8 n) = ok (some n)
  integer_value (int16 n) = ok (some n)
  integer_value (int32 n) = ok (some n)
  integer_value (int64 n) = ok (some n)
  integer_value (uint8 n) = ok (some (pos n))
  integer_value (uint16 n) = ok (some (pos n))
  integer_value (uint32 n) = ok (some (pos n))
  integer_value (uint64 n) =
      if ltb (2 ^ 63 - 1) n
      then err (
          make_error numeric_value_out_of_range
            (text "Arrow unsigned integer value is out of range for PostgreSQL bigint") [])
      else ok (some (pos n))
  integer_value other = ok none

  unfoldable pub string_value : ArrowValue F → Option Bytes
  string_value (string s) = some s
  string_value (large_string s) = some s
  string_value other = none

  unfoldable pub binary_value : ArrowValue F → Option Bytes
  binary_value (binary s) = some s
  binary_value (large_binary s) = some s
  binary_value (fixed_size_binary s) = some s
  binary_value (extension storage) = binary_value storage
  binary_value other = none

  unfoldable pub time_micros : ArrowValue F → Option ℤ
  time_micros (time32 unit t) = some (scale_to_micros t unit)
  time_micros (time64 unit t) = some (scale_to_micros t unit)
  time_micros other = none

  unfoldable pub timestamp_micros : ArrowValue F → Option ℤ
  timestamp_micros (timestamp unit t) = some (drop_epoch (scale_to_micros t unit))
  timestamp_micros other = none

  unfoldable pub boolean_value : ArrowValue F → Option Bool
  boolean_value (bool b) = some b
  boolean_value other = none

  unfoldable pub date_value : ArrowValue F → Option ℤ
  date_value (date32 d) = some (drop_epoch_days d)
  date_value other = none

-- `CheckedIntegerCast` to a type whose least value is -m.
unfoldable pub checked_integer_cast : ℕ → Bytes → ℤ → Result ℤ
checked_integer_cast m type_name value =
    if in_signed m value
    then ok value
    else err (
        make_error numeric_value_out_of_range
          (text "Arrow integer value is out of range for PostgreSQL " ++ type_name) [])

unfoldable pub uuid_get_datum : {F : Type 0} → Bytes → Result (Datum F)
uuid_get_datum value =
    if length value == 16
    then ok (uuid_datum value)
    else err (
        make_error invalid_parameter_value (text "Arrow fixed-size binary UUID must be 16 bytes")
          [])

module _ {F : Type 0} (l : Library F) where
  unfoldable pub floating_value : ArrowValue F → Result (Option F)
  floating_value (float f) = ok (some f)
  floating_value (double f) = ok (some f)
  floating_value (uint64 n) = ok (some (l.of_int (pos n)))
  floating_value other =
      and_then (integer_value other) (λ v. ok (elim v [ none ↦ none | some n ↦ some (l.of_int n) ]))

  unfoldable pub decimal_value : ArrowValue F → Option Bytes
  decimal_value (decimal unscaled scale) = some (l.format_decimal unscaled scale)
  decimal_value other = none

  abbrev pub unsupported_conversion : Bytes → Result (Datum F)
  unsupported_conversion type_name = err (
      make_error feature_not_supported
        (text "unsupported pgiceberg column conversion from Arrow type " ++ type_name) [])

  -- A case of the switch: the value, if the array has one for it.
  abbrev pub of_value : {A : Type 0} → Bytes → (A → Result (Datum F)) → Option A → Result (Datum F)
  of_value name f none = unsupported_conversion name
  of_value name f (some a) = f a

  -- The switch over `pg_type`; `name` is what `ToString` gives for the type of the array.
  unfoldable pub convert_switch : Bytes → ArrowValue F → PgType → Result (Datum F)
  convert_switch name value int2_oid = and_then (integer_value value) (
      of_value name
        λ n. and_then (checked_integer_cast (2 ^ 15) (text "smallint") n) (λ c. ok (int2_datum c)))
  convert_switch name value int4_oid = and_then (integer_value value) (
      of_value name
        λ n. and_then (checked_integer_cast int32_min (text "integer") n) (λ c. ok (int4_datum c)))
  convert_switch name value int8_oid =
      and_then (integer_value value) (of_value name λ n. ok (int8_datum n))
  convert_switch name value float4_oid =
      and_then (floating_value value) (of_value name λ f. ok (float4_datum (l.narrow f)))
  convert_switch name value float8_oid =
      and_then (floating_value value) (of_value name λ f. ok (float8_datum f))
  convert_switch name value numeric_oid =
      of_value name (λ s. ok (numeric_datum (l.numeric_in s))) (decimal_value value)
  convert_switch name value text_oid =
      of_value name (λ s. ok (text_datum (c_str s))) (string_value value)
  convert_switch name value varchar_oid =
      of_value name (λ s. ok (varchar_datum (c_str s))) (string_value value)
  convert_switch name value bpchar_oid =
      of_value name (λ s. ok (bpchar_datum (c_str s))) (string_value value)
  convert_switch name value bytea_oid = of_value name (λ s. ok (bytea_datum s)) (binary_value value)
  convert_switch name value uuid_oid = of_value name uuid_get_datum (binary_value value)
  convert_switch name value bool_oid = of_value name (λ b. ok (bool_datum b)) (boolean_value value)
  convert_switch name value date_oid = of_value name (λ d. ok (date_datum d)) (date_value value)
  convert_switch name value time_oid = of_value name (λ t. ok (time_datum t)) (time_micros value)
  convert_switch name value timestamp_oid =
      of_value name (λ t. ok (timestamp_datum t)) (timestamp_micros value)
  convert_switch name value timestamptz_oid =
      of_value name (λ t. ok (timestamptz_datum t)) (timestamp_micros value)
  convert_switch name value invalid_oid = unsupported_conversion name
  convert_switch name value other_oid = unsupported_conversion name

  -- A cell that is not NULL. `on_loss_is_error` is `pgiceberg.timestamp_ns_on_loss = 'error'`.
  unfoldable pub convert_some : Bool → Bytes → ArrowValue F → PgType → Result (Datum F)
  convert_some on_loss_is_error name value pg_type =
      if on_loss_is_error && is_nanosecond_temporal_array value
      then err (
          make_error feature_not_supported
            (text
              "Iceberg nanosecond timestamp cannot be read into PostgreSQL without losing precision")
            (text
              "Set pgiceberg.timestamp_ns_on_loss = 'truncate' to narrow values to microsecond precision."))
      else convert_switch name value pg_type

  -- `ConvertValue`; a NULL is `none`.
  unfoldable pub convert_value :
      Bool → Bytes → Option (ArrowValue F) → PgType → Result (Option (Datum F))
  convert_value on_loss_is_error name none pg_type = ok none
  convert_value on_loss_is_error name (some value) pg_type =
      and_then (convert_some on_loss_is_error name value pg_type) (λ d. ok (some d))
