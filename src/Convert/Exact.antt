-- ===== src/Convert/Exact.antt =====
-- What src/common/datum_convert.cc writes and reads again.
use pgiceberg.Common.{ℕ, ◌^◌, ◌≡◌, refl, Bool, true, false, some, ◌==◌, arith, length}
use pgiceberg.Common.Bytes.{Bytes}
use pgiceberg.Common.Int.{ℤ, pos, negsuc, InSigned, in_signed, int32_min, int64_min}
use pgiceberg.Status.{ok}
use pgiceberg.Logical.Mirror.{c_str}
use pgiceberg.Convert.{
  micro, nano, ArrowType, bool_type, int32_type, int64_type, float_type, double_type, string_type,
  binary_type, date32_type, fixed_size_binary_type, time64_type, timestamp_type, ArrowValue, bool,
  int32, int64, date32, float, double, string, binary, fixed_size_binary, time64, timestamp, Datum,
  bool_datum, int2_datum, int4_datum, int8_datum, float4_datum, float8_datum, text_datum,
  varchar_datum, bytea_datum, uuid_datum, date_datum, time_datum, timestamp_datum,
  timestamptz_datum, Library,
}
use pgiceberg.Convert.Units.{
  wrap32, times, add_epoch, add_epoch_days, scale_to_micros, scale_from_micros, wrap32_lem,
  wrap64_lem, drop_epoch-add_epoch, drop_epoch_days-add_epoch_days, floor_div-times,
}
use pgiceberg.Convert.Read.{
  integer_value, string_value, binary_value, time_micros, timestamp_micros, boolean_value,
  date_value, checked_integer_cast, uuid_get_datum, floating_value, is_nanosecond_temporal_array,
  convert_switch, convert_some, convert_value,
}
use pgiceberg.Convert.Write.{
  pg_type_of, get_bool, get_int, get_float4, get_float8, get_text, binary_bytes, fixed_scalar,
  scalar_from_datum,
}

in_signed-InSigned : (m : ℕ) (n : ℤ) → InSigned m n → in_signed m n ≡ true
in_signed-InSigned m (pos n) h = ground arith
in_signed-InSigned m (negsuc n) h = ground arith

module _ {F : Type 0} (l : Library F) where
  -- The values and the types of columns that have room for them.
  pub data Stores : Datum F → ArrowType → Type 0 where
    bool_bool : (b : Bool) → Stores (bool_datum b) bool_type
    int2_int32 : (n : ℤ) → InSigned (2 ^ 15) n → Stores (int2_datum n) int32_type
    int4_int32 : (n : ℤ) → InSigned int32_min n → Stores (int4_datum n) int32_type
    int4_int64 : (n : ℤ) → InSigned int32_min n → Stores (int4_datum n) int64_type
    int8_int64 : (n : ℤ) → Stores (int8_datum n) int64_type
    float4_float : (f : F) → l.narrow f ≡ f → Stores (float4_datum f) float_type
    float8_double : (f : F) → Stores (float8_datum f) double_type
    text_string : (s : Bytes) → c_str s ≡ s → Stores (text_datum s) string_type
    varchar_string : (s : Bytes) → c_str s ≡ s → Stores (varchar_datum s) string_type
    bytea_binary : (s : Bytes) → Stores (bytea_datum s) binary_type
    bytea_fixed : (s : Bytes) → Stores (bytea_datum s) (fixed_size_binary_type (length s))
    uuid_fixed : (s : Bytes) → length s ≡ 16 → Stores (uuid_datum s) (fixed_size_binary_type 16)
    date_date32 : (d : ℤ) → InSigned int32_min d → Stores (date_datum d) date32_type
    time_micros64 : (t : ℤ) → Stores (time_datum t) (time64_type micro)
    timestamp_micros64 :
        (t : ℤ) → InSigned int64_min t → Stores (timestamp_datum t) (timestamp_type micro)
    timestamptz_micros64 :
        (t : ℤ) → InSigned int64_min t → Stores (timestamptz_datum t) (timestamp_type micro)
    timestamp_nanos :
        (t : ℤ)
        → InSigned int64_min t
        → InSigned int64_min (times (add_epoch t) 1000)
        → Stores (timestamp_datum t) (timestamp_type nano)

  -- A value that a column has room for is written, and reading the cell gives the value back, infinite
  -- dates and timestamps included. Nanoseconds are read with `truncate`.
  pub convert_value-scalar_from_datum :
      (name : Bytes) (datum : Datum F) (type : ArrowType)
      → Stores datum type
      → (value : ArrowValue F) × (scalar_from_datum l datum type ≡ ok value)
        × (convert_value l false name (some value) (pg_type_of datum) ≡ ok (some datum))
  unfolding scalar_from_datum convert_value convert_some convert_switch pg_type_of get_bool get_int
      get_float4 get_float8 get_text binary_bytes fixed_scalar integer_value string_value
      binary_value time_micros timestamp_micros boolean_value date_value checked_integer_cast
      uuid_get_datum floating_value is_nanosecond_temporal_array scale_to_micros scale_from_micros
  convert_value-scalar_from_datum name _ _ (bool_bool b) = (bool b, refl, refl)
  convert_value-scalar_from_datum name _ _ (int2_int32 n h) =
      let wide : wrap32 n ≡ n = wrap32_lem n (omega (arith, h)) in
      (int32 n, rw (wide) refl, rw (in_signed-InSigned (2 ^ 15) n h) refl)
  convert_value-scalar_from_datum name _ _ (int4_int32 n h) =
      (int32 n, rw (wrap32_lem n h) refl, rw (in_signed-InSigned int32_min n h) refl)
  convert_value-scalar_from_datum name _ _ (int4_int64 n h) =
      (int64 n, refl, rw (in_signed-InSigned int32_min n h) refl)
  convert_value-scalar_from_datum name _ _ (int8_int64 n) = (int64 n, refl, refl)
  convert_value-scalar_from_datum name _ _ (float4_float f h) = (float f, refl, rw (h) refl)
  convert_value-scalar_from_datum name _ _ (float8_double f) = (double f, refl, refl)
  convert_value-scalar_from_datum name _ _ (text_string s h) = (string s, rw (h) refl, rw (h) refl)
  convert_value-scalar_from_datum name _ _ (varchar_string s h) =
      (string s, rw (h) refl, rw (h) refl)
  convert_value-scalar_from_datum name _ _ (bytea_binary s) = (binary s, refl, refl)
  convert_value-scalar_from_datum name _ _ (bytea_fixed s) =
      let same : (length s == length s) ≡ true = ground arith in
      (fixed_size_binary s, rw (same) refl, refl)
  convert_value-scalar_from_datum name _ _ (uuid_fixed s h) =
      (fixed_size_binary s, rw (h) refl, rw (h) refl)
  convert_value-scalar_from_datum name _ _ (date_date32 d h) = (
    date32 (add_epoch_days d),
    rw (wrap32_lem d h) refl,
    rw (drop_epoch_days-add_epoch_days d h) refl,
  )
  convert_value-scalar_from_datum name _ _ (time_micros64 t) = (time64 micro t, refl, refl)
  convert_value-scalar_from_datum name _ _ (timestamp_micros64 t h) =
      (timestamp micro (add_epoch t), refl, rw (drop_epoch-add_epoch t h) refl)
  convert_value-scalar_from_datum name _ _ (timestamptz_micros64 t h) =
      (timestamp micro (add_epoch t), refl, rw (drop_epoch-add_epoch t h) refl)
  convert_value-scalar_from_datum name _ _ (timestamp_nanos t h k) = (
    timestamp nano (times (add_epoch t) 1000),
    rw (wrap64_lem (times (add_epoch t) 1000) k) refl,
    rw (floor_div-times (add_epoch t)) (rw (drop_epoch-add_epoch t h) refl),
  )
