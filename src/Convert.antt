-- ===== src/Convert.antt =====
-- src/common/datum_convert.cc: values between Arrow and PostgreSQL.
pub mod Units
pub mod Read
pub mod Write
pub mod Exact
pub mod Ranges
pub mod Typed
use pgiceberg.Common.{ℕ, Bool, List}
use pgiceberg.Common.Bytes.{Bytes}
use pgiceberg.Common.Int.{ℤ}
use pgiceberg.Status.{Expected, ArrowError}
use pgiceberg.Schema.{PgType}

-- `arrow::TimeUnit`
pub data TimeUnit : Type 0 where
  second milli micro nano : TimeUnit

-- `arrow::DataType`: the types that the source names, and the others.
pub data ArrowType : Type 0 where
  bool_type int8_type int16_type int32_type int64_type uint8_type uint16_type : ArrowType
  uint32_type uint64_type float_type double_type string_type large_string_type : ArrowType
  binary_type large_binary_type date32_type other_type : ArrowType
  decimal128_type : ℤ → ℤ → ArrowType
  fixed_size_binary_type : ℕ → ArrowType
  time32_type time64_type timestamp_type : TimeUnit → ArrowType

-- A cell of an array, of its type, that is not NULL. A decimal has its digits and its scale, at each of
-- the four widths; `extension` has the cell of the storage.
pub data ArrowValue (F : Type 0) : Type 0 where
  bool : Bool → ArrowValue F
  int8 int16 int32 int64 date32 : ℤ → ArrowValue F
  uint8 uint16 uint32 uint64 : ℕ → ArrowValue F
  float double : F → ArrowValue F
  string large_string binary large_binary fixed_size_binary : Bytes → ArrowValue F
  decimal : ℤ → ℤ → ArrowValue F
  time32 time64 timestamp : TimeUnit → ℤ → ArrowValue F
  extension : ArrowValue F → ArrowValue F
  other_value : ArrowType → ArrowValue F

-- A `Datum` with its type. A numeric is the text that `numeric_out` prints.
pub data Datum (F : Type 0) : Type 0 where
  bool_datum : Bool → Datum F
  int2_datum int4_datum int8_datum : ℤ → Datum F
  float4_datum float8_datum : F → Datum F
  numeric_datum text_datum varchar_datum bpchar_datum bytea_datum uuid_datum : Bytes → Datum F
  date_datum time_datum timestamp_datum timestamptz_datum : ℤ → Datum F
  other_datum : PgType → Datum F

-- What is called in C++, Arrow and PostgreSQL. Floats of both widths have the type `F`. A `misread` is what
-- a `DatumGet` gives on a datum of another type than its own.
pub record Library (F : Type 0) : Type 0 where
  pub of_int : ℤ → F
  pub narrow : F → F
  pub is_nan : F → Bool
  pub float_eq : F → F → Bool
  pub shown : ArrowType → Bytes
  pub oid_text : PgType → Bytes
  pub format_decimal : ℤ → ℤ → Bytes
  pub decimal_of_text : Bytes → Expected ArrowError (ℤ × ℤ)
  pub rescale_decimal : ℤ → ℤ → ℤ → Expected ArrowError ℤ
  pub fits_in_precision : ℤ → ℤ → Bool
  pub numeric_in : Bytes → Bytes
  pub numeric_eq : Bytes → Bytes → Bool
  pub misread_bool : Datum F → Bool
  pub misread_int : Datum F → ℤ
  pub misread_float : Datum F → F
  pub misread_text : Datum F → Bytes
