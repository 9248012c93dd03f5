-- ===== src/Convert/Write.antt =====
-- `ScalarFromDatum` and `DatumEquals` of src/common/datum_convert.cc: values of PostgreSQL for Arrow, and
-- compared.
use pgiceberg.Common.{ℕ, Bool, not, [], ◌++◌, Option, none, some, ◌==◌, length, if◌then◌else◌}
use pgiceberg.Common.Bytes.{Bytes, text, eqb}
use pgiceberg.Common.Int.{ℤ, eq_ℤ}
use pgiceberg.Status.{
  Expected, ArrowError, Result, ok, err, make_error, and_then, from_arrow_result,
  numeric_value_out_of_range, string_data_length_mismatch, feature_not_supported,
}
use pgiceberg.Logical.Mirror.{c_str}
use pgiceberg.Schema.{
  PgType, bool_oid, int2_oid, int4_oid, int8_oid, float4_oid, float8_oid, numeric_oid, bytea_oid,
  uuid_oid, date_oid, time_oid, timestamp_oid, timestamptz_oid, text_oid, varchar_oid, bpchar_oid,
}
use pgiceberg.Convert.{
  ArrowType, bool_type, int8_type, int16_type, int32_type, int64_type, uint8_type, uint16_type,
  uint32_type, uint64_type, float_type, double_type, string_type, large_string_type, binary_type,
  large_binary_type, date32_type, other_type, decimal128_type, fixed_size_binary_type, time32_type,
  time64_type, timestamp_type, ArrowValue, bool, int16, int32, int64, date32, float, double, string,
  binary, large_binary, fixed_size_binary, decimal, time32, time64, timestamp, Datum, bool_datum,
  int2_datum, int4_datum, int8_datum, float4_datum, float8_datum, numeric_datum, text_datum,
  varchar_datum, bpchar_datum, bytea_datum, uuid_datum, date_datum, time_datum, timestamp_datum,
  timestamptz_datum, other_datum, Library,
}
use pgiceberg.Convert.Units.{wrap16, wrap32, scale_from_micros, add_epoch, add_epoch_days}

-- The type of a datum.
unfoldable pub pg_type_of : {F : Type 0} → Datum F → PgType
pg_type_of (bool_datum b) = bool_oid
pg_type_of (int2_datum n) = int2_oid
pg_type_of (int4_datum n) = int4_oid
pg_type_of (int8_datum n) = int8_oid
pg_type_of (float4_datum f) = float4_oid
pg_type_of (float8_datum f) = float8_oid
pg_type_of (numeric_datum s) = numeric_oid
pg_type_of (text_datum s) = text_oid
pg_type_of (varchar_datum s) = varchar_oid
pg_type_of (bpchar_datum s) = bpchar_oid
pg_type_of (bytea_datum s) = bytea_oid
pg_type_of (uuid_datum s) = uuid_oid
pg_type_of (date_datum d) = date_oid
pg_type_of (time_datum t) = time_oid
pg_type_of (timestamp_datum t) = timestamp_oid
pg_type_of (timestamptz_datum t) = timestamptz_oid
pg_type_of (other_datum oid) = oid

module _ {F : Type 0} (l : Library F) where
  -- `DatumGetBool` and the like.
  unfoldable pub get_bool : Datum F → Bool
  get_bool (bool_datum b) = b
  get_bool other = l.misread_bool other

  -- The integer in a datum, which `DatumGetInt16`, `DatumGetInt32` and `DatumGetInt64` cut to size.
  unfoldable pub get_int : Datum F → ℤ
  get_int (int2_datum n) = n
  get_int (int4_datum n) = n
  get_int (int8_datum n) = n
  get_int (date_datum n) = n
  get_int (time_datum n) = n
  get_int (timestamp_datum n) = n
  get_int (timestamptz_datum n) = n
  get_int other = l.misread_int other

  unfoldable pub get_float4 : Datum F → F
  get_float4 (float4_datum f) = f
  get_float4 other = l.misread_float other

  unfoldable pub get_float8 : Datum F → F
  get_float8 (float8_datum f) = f
  get_float8 other = l.misread_float other

  -- `TextDatumGetCString`
  unfoldable pub get_text : Datum F → Bytes
  get_text (text_datum s) = c_str s
  get_text (varchar_datum s) = c_str s
  get_text (bpchar_datum s) = c_str s
  get_text other = l.misread_text other

  unfoldable pub unsupported_insert : Datum F → ArrowType → Result (ArrowValue F)
  unsupported_insert datum type = err (
      make_error feature_not_supported
        (text "unsupported pgiceberg INSERT conversion from PostgreSQL type "
          ++ (l.oid_text (pg_type_of datum) ++ (text " to Arrow type " ++ l.shown type)))
        [])

  unfoldable pub check_precision : ℤ → ℤ → ℤ → Result (ArrowValue F)
  check_precision precision scale unscaled =
      if not (l.fits_in_precision unscaled precision)
      then err (
          make_error numeric_value_out_of_range
            (text "PostgreSQL numeric value is out of range for Arrow decimal") [])
      else ok (decimal unscaled scale)

  unfoldable pub rescaled : ℤ → ℤ × ℤ → Result ℤ
  rescaled target (unscaled, scale) =
      if eq_ℤ scale target
      then ok unscaled
      else from_arrow_result (l.rescale_decimal unscaled scale target)
          (text "rescale PostgreSQL numeric to Arrow decimal")

  unfoldable pub decimal_scalar : ℤ → ℤ → Bytes → Result (ArrowValue F)
  decimal_scalar precision scale numeric_string =
      and_then
        (from_arrow_result (l.decimal_of_text numeric_string)
          (text "convert PostgreSQL numeric to Arrow decimal"))
        λ parsed. and_then (rescaled scale parsed) (check_precision precision scale)

  -- The bytes of a `bytea` or a `uuid`.
  unfoldable pub binary_bytes : Datum F → Option Bytes
  binary_bytes (bytea_datum s) = some s
  binary_bytes (uuid_datum s) = some s
  binary_bytes other = none

  unfoldable pub fixed_scalar : ℕ → Bytes → Result (ArrowValue F)
  fixed_scalar width value =
      if length value == width
      then ok (fixed_size_binary value)
      else err (
          make_error string_data_length_mismatch
            (text "PostgreSQL binary value length does not match Arrow fixed-size binary") [])

  abbrev pub of_bytes :
      Datum F → ArrowType → (Bytes → Result (ArrowValue F)) → Option Bytes → Result (ArrowValue F)
  of_bytes datum type f none = unsupported_insert datum type
  of_bytes datum type f (some s) = f s

  abbrev pub of_numeric : Datum F → ArrowType → ℤ → ℤ → Result (ArrowValue F)
  of_numeric (numeric_datum s) type precision scale = decimal_scalar precision scale s
  of_numeric other type precision scale = unsupported_insert other type

  abbrev pub unsupported_type : ArrowType → Result (ArrowValue F)
  unsupported_type type = err (
      make_error feature_not_supported
        (text "unsupported pgiceberg INSERT Arrow type " ++ l.shown type) [])

  -- `ScalarFromDatum`. A large string makes a `StringScalar` too.
  unfoldable pub scalar_from_datum : Datum F → ArrowType → Result (ArrowValue F)
  scalar_from_datum datum bool_type = ok (bool (get_bool datum))
  scalar_from_datum datum int16_type = ok (int16 (wrap16 (get_int datum)))
  scalar_from_datum datum int32_type = ok (int32 (wrap32 (get_int datum)))
  scalar_from_datum datum date32_type = ok (date32 (add_epoch_days (wrap32 (get_int datum))))
  scalar_from_datum datum int64_type = ok (int64 (get_int datum))
  scalar_from_datum datum (decimal128_type precision scale) =
      of_numeric datum (decimal128_type precision scale) precision scale
  scalar_from_datum datum float_type = ok (float (get_float4 datum))
  scalar_from_datum datum double_type = ok (double (get_float8 datum))
  scalar_from_datum datum binary_type =
      of_bytes datum binary_type (λ s. ok (binary s)) (binary_bytes datum)
  scalar_from_datum datum large_binary_type =
      of_bytes datum large_binary_type (λ s. ok (large_binary s)) (binary_bytes datum)
  scalar_from_datum datum (fixed_size_binary_type width) =
      of_bytes datum (fixed_size_binary_type width) (fixed_scalar width) (binary_bytes datum)
  scalar_from_datum datum string_type = ok (string (get_text datum))
  scalar_from_datum datum large_string_type = ok (string (get_text datum))
  scalar_from_datum datum (time32_type unit) =
      ok (time32 unit (wrap32 (scale_from_micros (get_int datum) unit)))
  scalar_from_datum datum (time64_type unit) =
      ok (time64 unit (scale_from_micros (get_int datum) unit))
  scalar_from_datum datum (timestamp_type unit) =
      ok (timestamp unit (scale_from_micros (add_epoch (get_int datum)) unit))
  scalar_from_datum datum int8_type = unsupported_type int8_type
  scalar_from_datum datum uint8_type = unsupported_type uint8_type
  scalar_from_datum datum uint16_type = unsupported_type uint16_type
  scalar_from_datum datum uint32_type = unsupported_type uint32_type
  scalar_from_datum datum uint64_type = unsupported_type uint64_type
  scalar_from_datum datum other_type = unsupported_type other_type

  -- `AppendDatum` to a builder of Arrow; a NULL is `none`.
  unfoldable pub append_datum :
      {B : Type 0}
      → (B → Expected ArrowError B)
      → (B → ArrowValue F → Expected ArrowError B)
      → B
      → Option (Datum F)
      → ArrowType
      → Result B
  append_datum append_null append_scalar builder none type =
      from_arrow_result (append_null builder) (text "append Arrow NULL")
  append_datum append_null append_scalar builder (some value) type =
      and_then (scalar_from_datum value type)
        λ scalar. from_arrow_result (append_scalar builder scalar) (text "append Arrow scalar")

  abbrev pub unsupported_identity : Result Bool
  unsupported_identity =
      err (make_error feature_not_supported (text "unsupported pgiceberg row identity type") [])

  -- `DatumEquals` on two data of one type.
  unfoldable pub datum_equals : Datum F → Datum F → Result Bool
  datum_equals (numeric_datum a) (numeric_datum b) = ok (l.numeric_eq a b)
  datum_equals (bytea_datum a) (bytea_datum b) = ok (eqb a b)
  datum_equals (uuid_datum a) (uuid_datum b) = ok (eqb a b)
  datum_equals left right = elim (pg_type_of left) [
    | bool_oid ↦ ok (if get_bool left then get_bool right else not (get_bool right))
    | int2_oid ↦ ok (eq_ℤ (wrap16 (get_int left)) (wrap16 (get_int right)))
    | int4_oid ↦ ok (eq_ℤ (wrap32 (get_int left)) (wrap32 (get_int right)))
    | int8_oid ↦ ok (eq_ℤ (get_int left) (get_int right))
    | float4_oid ↦ ok (l.float_eq (get_float4 left) (get_float4 right))
    | float8_oid ↦ ok (l.float_eq (get_float8 left) (get_float8 right))
    | date_oid ↦ ok (eq_ℤ (wrap32 (get_int left)) (wrap32 (get_int right)))
    | time_oid ↦ ok (eq_ℤ (get_int left) (get_int right))
    | timestamp_oid ↦ ok (eq_ℤ (get_int left) (get_int right))
    | timestamptz_oid ↦ ok (eq_ℤ (get_int left) (get_int right))
    | text_oid ↦ ok (eqb (get_text left) (get_text right))
    | varchar_oid ↦ ok (eqb (get_text left) (get_text right))
    | bpchar_oid ↦ ok (eqb (get_text left) (get_text right))
    | other ↦ unsupported_identity
  ]
