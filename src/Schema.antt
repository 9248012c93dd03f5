-- ===== src/Schema.antt =====
-- src/common/type_mapping.cc, src/common/schema_binding.cc and the refresh of src/functions/schema.cc:
-- PostgreSQL's types and those of Iceberg, and the columns of a local table against the fields of an
-- Iceberg table.
pub mod Types
pub mod Numeric
pub mod Relations
pub mod Columns
pub mod Binding
pub mod Bindings
pub mod Diff
pub mod Checks
pub mod Json
pub mod InSync
pub mod Compatible
pub mod FieldIds
pub mod Inserted
pub mod Projection
pub mod Refresh
pub mod Found
pub mod Refreshed
pub mod Stale
pub mod Matched
pub mod Synced
use pgiceberg.Common.{ℕ, Bool, List, Option}
use pgiceberg.Common.Bytes.{Bytes}
use pgiceberg.Common.Int.{ℤ}

-- `iceberg::TypeId`
pub data TypeId : Type 0 where
  boolean int long float double decimal date time timestamp timestamp_tz timestamp_ns : TypeId
  timestamp_tz_ns string uuid fixed binary struct list map unknown variant geometry : TypeId
  geography : TypeId

-- `iceberg::Type`: the precision and the scale are those of a decimal, and `shown` is `ToString`.
pub record IcebergType : Type 0 where
  pub type_id : TypeId
  pub precision : ℤ
  pub scale : ℤ
  pub shown : Bytes

-- The OIDs of the types that the source names, and the others.
pub data PgType : Type 0 where
  bool_oid int2_oid int4_oid int8_oid float4_oid float8_oid numeric_oid bytea_oid uuid_oid : PgType
  date_oid time_oid timestamp_oid timestamptz_oid text_oid varchar_oid bpchar_oid : PgType
  invalid_oid other_oid : PgType
