-- ===== src/Tests/Convert.antt =====
-- Runs of src/common/datum_convert.cc.
use pgiceberg.Common.{◌<◌, ℕ, ◌≡◌, refl, ◌==◌, [], some, true, false, arith}
use pgiceberg.Common.Bytes.{text, eqb}
use pgiceberg.Common.Int.{◌+ℤ◌, pos, negsuc, pos_part}
use pgiceberg.Status.{ok}
use pgiceberg.Schema.{int8_oid, timestamp_oid}
use pgiceberg.Convert.{
  nano, timestamp_type, ArrowValue, uint64, int8_datum, timestamp_datum, Library,
}
use pgiceberg.Convert.Units.{wrap64, times}
use pgiceberg.Convert.Read.{
  integer_value, checked_integer_cast, is_nanosecond_temporal_array, convert_switch, convert_some,
  convert_value,
}
use pgiceberg.Convert.Write.{pg_type_of, scalar_from_datum}
use pgiceberg.Convert.Exact.{timestamp_nanos, convert_value-scalar_from_datum}
use pgiceberg.Convert.Units.{scale_to_micros, times, scale_to_micros_floor}
use pgiceberg.Convert.Typed.{IsOf, convert_value-IsOf}

-- Floats are integers here.
abbrev pub integers_only : Library ℕ
integers_only = record {
  of_int = λ n. pos_part n;
  narrow = λ f. f;
  is_nan = λ f. false;
  float_eq = λ f g. f == g;
  shown = λ type. [];
  oid_text = λ type. [];
  format_decimal = λ n scale. [];
  decimal_of_text = λ s. ok (pos 0, pos 0);
  rescale_decimal = λ n a b. ok n;
  fits_in_precision = λ n precision. true;
  numeric_in = λ s. s;
  numeric_eq = eqb;
  misread_bool = λ d. false;
  misread_int = λ d. pos 0;
  misread_float = λ d. 0;
  misread_text = λ d. [];
}

convert_value-scalar_from_datum_example :
    (written : ArrowValue ℕ) × (scalar_from_datum integers_only
        (timestamp_datum (negsuc 4))
        (timestamp_type nano)
      ≡ ok written)
    × (convert_value integers_only false (text "t") (some written) timestamp_oid
        ≡ ok (some (timestamp_datum (negsuc 4))))
unfolding pg_type_of
convert_value-scalar_from_datum_example =
    convert_value-scalar_from_datum integers_only (text "t") (timestamp_datum (negsuc 4))
      (timestamp_type nano)
      (timestamp_nanos (negsuc 4) (omega arith) (unfold times wrap64 ◌+ℤ◌ in omega arith))

small :
    convert_value integers_only true (text "n") (some (uint64 7)) int8_oid
    ≡ ok (some (int8_datum (pos 7)))
unfolding convert_value convert_some convert_switch is_nanosecond_temporal_array integer_value
    checked_integer_cast
small = refl

convert_value-IsOf_example : IsOf {F = ℕ} int8_oid (int8_datum (pos 7))
convert_value-IsOf_example =
    convert_value-IsOf integers_only true (text "n") (uint64 7) int8_oid (int8_datum (pos 7))
      (omega arith) small

-- 1500 nanoseconds before 1970 are read as two microseconds before.
scale_to_micros_floor_example :
    (rest : ℕ) × (rest < 1000)
    × (negsuc 1499 ≡ times (scale_to_micros (negsuc 1499) nano) 1000 +ℤ pos rest)
scale_to_micros_floor_example = scale_to_micros_floor (negsuc 1499)
