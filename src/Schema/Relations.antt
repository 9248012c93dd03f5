-- ===== src/Schema/Relations.antt =====
-- The relations on types at the top of src/common/schema_binding.cc, `IcebergTypeReadableAs` and
-- `PostgresTypeWritableAs`.
use pgiceberg.Common.{Bool, true, false, ◌&&◌, ◌||◌, not, Option, none, some, if◌then◌else◌}
use pgiceberg.Common.Int.{eq_ℤ}
use pgiceberg.Schema.{
  TypeId, boolean, int, long, float, double, decimal, date, time, timestamp, timestamp_tz,
  timestamp_ns, timestamp_tz_ns, string, uuid, fixed, binary, IcebergType, PgType, bool_oid,
  int2_oid, int4_oid, int8_oid, float4_oid, float8_oid, numeric_oid, bytea_oid, uuid_oid, date_oid,
  time_oid, timestamp_oid, timestamptz_oid, text_oid, varchar_oid, bpchar_oid, invalid_oid,
  other_oid,
}
use pgiceberg.Schema.Types.{is_type}

-- `CanonicalTypeIdImpl`
unfoldable pub canonical_type_id : TypeId → TypeId
canonical_type_id timestamp_ns = timestamp
canonical_type_id timestamp_tz_ns = timestamp_tz
canonical_type_id other = other

unfoldable pub types_match : IcebergType → IcebergType → Bool
types_match iceberg_type postgres_mapped =
    if not
      (is_type (canonical_type_id iceberg_type.type_id) (canonical_type_id postgres_mapped.type_id))
    then false
    else if is_type iceberg_type.type_id decimal && is_type postgres_mapped.type_id decimal
    then eq_ℤ iceberg_type.precision postgres_mapped.precision
      && eq_ℤ iceberg_type.scale postgres_mapped.scale
    else true

unfoldable pub is_widening_promotion : TypeId → TypeId → Bool
is_widening_promotion from to =
    if is_type from to
    then true
    else if is_type from int && is_type to long
    then true
    else if is_type from float && is_type to double
    then true
    else is_type (canonical_type_id from) (canonical_type_id to)

unfoldable pub postgres_mapped_type_id : PgType → Option TypeId
postgres_mapped_type_id bool_oid = some boolean
postgres_mapped_type_id int2_oid = some int
postgres_mapped_type_id int4_oid = some int
postgres_mapped_type_id int8_oid = some long
postgres_mapped_type_id float4_oid = some float
postgres_mapped_type_id float8_oid = some double
postgres_mapped_type_id numeric_oid = some decimal
postgres_mapped_type_id bytea_oid = some binary
postgres_mapped_type_id uuid_oid = some uuid
postgres_mapped_type_id date_oid = some date
postgres_mapped_type_id time_oid = some time
postgres_mapped_type_id timestamp_oid = some timestamp
postgres_mapped_type_id timestamptz_oid = some timestamp_tz
postgres_mapped_type_id text_oid = some string
postgres_mapped_type_id varchar_oid = some string
postgres_mapped_type_id bpchar_oid = some string
postgres_mapped_type_id invalid_oid = none
postgres_mapped_type_id other_oid = none

unfoldable pub pg_type_of_id : TypeId → PgType
pg_type_of_id boolean = bool_oid
pg_type_of_id int = int4_oid
pg_type_of_id long = int8_oid
pg_type_of_id float = float4_oid
pg_type_of_id double = float8_oid
pg_type_of_id decimal = numeric_oid
pg_type_of_id string = text_oid
pg_type_of_id uuid = uuid_oid
pg_type_of_id date = date_oid
pg_type_of_id time = time_oid
pg_type_of_id timestamp = timestamp_oid
pg_type_of_id timestamp_tz = timestamptz_oid
pg_type_of_id binary = bytea_oid
pg_type_of_id fixed = bytea_oid
pg_type_of_id other = invalid_oid

abbrev pub iceberg_type_to_pg_oid : IcebergType → PgType
iceberg_type_to_pg_oid type = pg_type_of_id (canonical_type_id type.type_id)

abbrev pub readable_types : TypeId → TypeId → Bool
readable_types remote local =
    if is_type remote decimal && is_type local decimal
    then true
    else if is_type remote fixed && is_type local binary
    then true
    else is_widening_promotion remote local
      || is_type remote local
      || (is_type local long && is_type remote int)
      || (is_type local double && is_type remote float)

unfoldable pub iceberg_type_readable_as : IcebergType → PgType → Bool
iceberg_type_readable_as type pg_type = elim (postgres_mapped_type_id pg_type) [
  | none ↦ false
  | some local ↦ readable_types (canonical_type_id type.type_id) local
]

abbrev pub writable_types : TypeId → TypeId → Bool
writable_types local remote =
    if is_type remote decimal && is_type local decimal
    then true
    else if is_type remote fixed && is_type local binary
    then true
    else is_widening_promotion local remote

unfoldable pub postgres_type_writable_as : PgType → IcebergType → Bool
postgres_type_writable_as pg_type type = elim (postgres_mapped_type_id pg_type) [
  | none ↦ false
  | some local ↦ writable_types local (canonical_type_id type.type_id)
]
