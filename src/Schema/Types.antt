-- ===== src/Schema/Types.antt =====
-- `DecodeNumericTypmod`, `PostgresTypeToIcebergType` and `IcebergTypeToSql` of src/common/type_mapping.cc, and the
-- relations on types at the top of src/common/schema_binding.cc.
use pgiceberg.Common.{
  ℕ, ◌-◌, ◌/◌, ◌%◌, ◌^◌, Bool, true, false, ◌||◌, [], ◌++◌, Option, none, some, ltb, ◌==◌,
  if◌then◌else◌,
}
use pgiceberg.Common.Bytes.{Bytes, text}
use pgiceberg.Common.Decimal.{print_int}
use pgiceberg.Common.Int.{ℤ, pos, negsuc}
use pgiceberg.Status.{
  Result, ok, err, make_error, invalid_parameter_value, feature_not_supported, and_then,
}
use pgiceberg.Schema.{
  TypeId, boolean, int, long, float, double, decimal, date, time, timestamp, timestamp_tz,
  timestamp_ns, timestamp_tz_ns, string, uuid, fixed, binary, struct, list, map, unknown, variant,
  geometry, geography, IcebergType, PgType, bool_oid, int2_oid, int4_oid, int8_oid, float4_oid,
  float8_oid, numeric_oid, bytea_oid, uuid_oid, date_oid, time_oid, timestamp_oid, timestamptz_oid,
  text_oid, varchar_oid, bpchar_oid, invalid_oid, other_oid,
}

-- The place of a type in the enumeration.
abbrev pub type_code : TypeId → ℕ
type_code boolean = 0
type_code int = 1
type_code long = 2
type_code float = 3
type_code double = 4
type_code decimal = 5
type_code date = 6
type_code time = 7
type_code timestamp = 8
type_code timestamp_tz = 9
type_code timestamp_ns = 10
type_code timestamp_tz_ns = 11
type_code string = 12
type_code uuid = 13
type_code fixed = 14
type_code binary = 15
type_code struct = 16
type_code list = 17
type_code map = 18
type_code unknown = 19
type_code variant = 20
type_code geometry = 21
type_code geography = 22

abbrev pub is_type : TypeId → TypeId → Bool
is_type a b = type_code a == type_code b

abbrev pub max_iceberg_decimal_precision : ℕ
max_iceberg_decimal_precision = 38

-- `static_cast<int16_t>` of a number of 16 bits.
abbrev pub int16_of : ℕ → ℤ
int16_of n = if ltb n (2 ^ 15) then pos n else negsuc (2 ^ 16 - 1 - n)

abbrev pub is_negative : ℤ → Bool
is_negative (pos n) = false
is_negative (negsuc n) = true

-- The precision and the scale of a typmod that is not below `VARHDRSZ`, without that.
unfoldable pub check_numeric : ℕ → ℤ → Result (ℤ × ℤ)
check_numeric precision scale =
    if precision == 0 || ltb max_iceberg_decimal_precision precision
    then err (
        make_error invalid_parameter_value
          (text "PostgreSQL numeric precision is not supported for Iceberg decimal: "
            ++ print_int (pos precision))
          [])
    else if is_negative scale
    then err (
        make_error invalid_parameter_value
          (text "PostgreSQL numeric negative scale is not supported for Iceberg decimal: "
            ++ print_int scale)
          [])
    else ok (pos precision, scale)

unfoldable pub decode_payload : ℕ → Result (ℤ × ℤ)
decode_payload payload = check_numeric (payload / 2 ^ 16 % 2 ^ 16) (int16_of (payload % 2 ^ 16))

-- `VARHDRSZ` is 4.
unfoldable pub decode_numeric_typmod : ℤ → Result (ℤ × ℤ)
decode_numeric_typmod (negsuc n) = ok (pos 38, pos 0)
decode_numeric_typmod (pos n) = if ltb n 4 then ok (pos 38, pos 0) else decode_payload (n - 4)

abbrev pub simple_type : TypeId → IcebergType
simple_type id = record { type_id = id; precision = pos 0; scale = pos 0; shown = [] }

abbrev pub decimal_type : ℤ × ℤ → IcebergType
decimal_type (precision, scale) = record {
  type_id = decimal;
  precision = precision;
  scale = scale;
  shown = [];
}

abbrev pub no_mapping : {A : Type 0} → Bytes → Result A
no_mapping name = err (
    make_error feature_not_supported
      (text "PostgreSQL type " ++ (name ++ text " is not supported for Iceberg schema mapping")) [])

-- `PostgresTypeToIcebergType`; `name` is what `format_type_be` answers.
unfoldable pub postgres_type_to_iceberg_type : Bytes → PgType → ℤ → Result IcebergType
postgres_type_to_iceberg_type name bool_oid typmod = ok (simple_type boolean)
postgres_type_to_iceberg_type name int2_oid typmod = ok (simple_type int)
postgres_type_to_iceberg_type name int4_oid typmod = ok (simple_type int)
postgres_type_to_iceberg_type name int8_oid typmod = ok (simple_type long)
postgres_type_to_iceberg_type name float4_oid typmod = ok (simple_type float)
postgres_type_to_iceberg_type name float8_oid typmod = ok (simple_type double)
postgres_type_to_iceberg_type name numeric_oid typmod =
    and_then (decode_numeric_typmod typmod) (λ d. ok (decimal_type d))
postgres_type_to_iceberg_type name bytea_oid typmod = ok (simple_type binary)
postgres_type_to_iceberg_type name uuid_oid typmod = ok (simple_type uuid)
postgres_type_to_iceberg_type name date_oid typmod = ok (simple_type date)
postgres_type_to_iceberg_type name time_oid typmod = ok (simple_type time)
postgres_type_to_iceberg_type name timestamp_oid typmod = ok (simple_type timestamp)
postgres_type_to_iceberg_type name timestamptz_oid typmod = ok (simple_type timestamp_tz)
postgres_type_to_iceberg_type name text_oid typmod = ok (simple_type string)
postgres_type_to_iceberg_type name varchar_oid typmod = ok (simple_type string)
postgres_type_to_iceberg_type name bpchar_oid typmod = ok (simple_type string)
postgres_type_to_iceberg_type name invalid_oid typmod = no_mapping name
postgres_type_to_iceberg_type name other_oid typmod = no_mapping name

abbrev pub decimal_sql : IcebergType → Bytes
decimal_sql type =
    text "numeric("
    ++ (print_int type.precision ++ (text ", " ++ (print_int type.scale ++ text ")")))

unfoldable pub sql_of_type_id : IcebergType → TypeId → Option Bytes
sql_of_type_id type boolean = some (text "boolean")
sql_of_type_id type int = some (text "integer")
sql_of_type_id type long = some (text "bigint")
sql_of_type_id type float = some (text "real")
sql_of_type_id type double = some (text "double precision")
sql_of_type_id type decimal = some (decimal_sql type)
sql_of_type_id type string = some (text "text")
sql_of_type_id type uuid = some (text "uuid")
sql_of_type_id type date = some (text "date")
sql_of_type_id type time = some (text "time")
sql_of_type_id type timestamp = some (text "timestamp")
sql_of_type_id type timestamp_ns = some (text "timestamp")
sql_of_type_id type timestamp_tz = some (text "timestamptz")
sql_of_type_id type timestamp_tz_ns = some (text "timestamptz")
sql_of_type_id type binary = some (text "bytea")
sql_of_type_id type fixed = some (text "bytea")
sql_of_type_id type struct = none
sql_of_type_id type list = none
sql_of_type_id type map = none
sql_of_type_id type unknown = none
sql_of_type_id type variant = none
sql_of_type_id type geometry = none
sql_of_type_id type geography = none

unfoldable pub iceberg_type_to_sql : IcebergType → Result Bytes
iceberg_type_to_sql type = elim (sql_of_type_id type type.type_id) [
  | some sql ↦ ok sql
  | none ↦ err (
      make_error feature_not_supported
        (text "Iceberg type "
          ++ (type.shown ++ text " is not supported for PostgreSQL foreign table schema mapping"))
        (text
          "Exclude the column from the import, or map it manually with a supported PostgreSQL type."))
]
