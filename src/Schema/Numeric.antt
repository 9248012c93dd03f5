-- ===== src/Schema/Numeric.antt =====
-- Which local types match an Iceberg type: src/common/type_mapping.cc and src/common/schema_binding.cc.
use pgiceberg.Common.{
  ℕ, ◌+◌, ◌*◌, ◌-◌, ◌/◌, ◌%◌, ◌^◌, ◌≤◌, ◌<◌, ◌≡◌, refl, subst, true, false, some, ltb, ◌==◌, arith,
  Bool-cases, inl, inr,
}
use pgiceberg.Common.Bytes.{Bytes}
use pgiceberg.Common.Int.{ℤ, pos}
use pgiceberg.Status.{Result, ok, ok_injective, and_then_inversion}
use pgiceberg.Schema.{
  TypeId, IcebergType, PgType, bool_oid, int2_oid, int4_oid, int8_oid, float4_oid, float8_oid,
  numeric_oid, bytea_oid, uuid_oid, date_oid, time_oid, timestamp_oid, timestamptz_oid, text_oid,
  varchar_oid, bpchar_oid, invalid_oid, other_oid,
}
use pgiceberg.Schema.Types.{
  is_type, check_numeric, decode_payload, decode_numeric_typmod, decimal_type,
  postgres_type_to_iceberg_type,
}
use pgiceberg.Schema.Relations.{
  canonical_type_id, types_match, is_widening_promotion, postgres_mapped_type_id, readable_types,
  writable_types, iceberg_type_readable_as, postgres_type_writable_as,
}

-- The typmod of a numeric gives back its precision and what its low sixteen bits hold, if the
-- precision is one of Iceberg's and the scale does not have the highest of those bits.
pub decode_numeric_typmod-typmod :
    (precision scale : ℕ)
    → 0 < precision
    → precision ≤ 38
    → scale < 2 ^ 15
    → decode_numeric_typmod (pos (precision * 2 ^ 16 + scale + 4)) ≡ ok (pos precision, pos scale)
unfolding decode_numeric_typmod decode_payload check_numeric
decode_numeric_typmod-typmod precision scale h h' l =
    let large : ltb (precision * 2 ^ 16 + scale + 4) 4 ≡ false = ground arith in
    let high : (precision * 2 ^ 16 + scale + 4 - 4) / 2 ^ 16 % 2 ^ 16 ≡ precision = omega arith in
    let low : (precision * 2 ^ 16 + scale + 4 - 4) % 2 ^ 16 ≡ scale = omega arith in
    let some_precision : (precision == 0) ≡ false = ground arith in
    let small : ltb 38 precision ≡ false = ground arith in
    let plain : ltb scale (2 ^ 15) ≡ true = ground arith in
    rw (large) (rw (high, low) (rw (some_precision, small, plain) refl))

-- The type of a mapped column is that of `PostgresMappedTypeId`, and it is its own canonical type.
abbrev Mapped : PgType → IcebergType → Type 0
Mapped pg_type mapped =
    (postgres_mapped_type_id pg_type ≡ some mapped.type_id)
    × (canonical_type_id mapped.type_id ≡ mapped.type_id)

simple-Mapped :
    (pg_type : PgType) (t mapped : IcebergType)
    → ◌≡◌ {A = Result IcebergType} (ok t) (ok mapped)
    → Mapped pg_type t
    → Mapped pg_type mapped
simple-Mapped pg_type t mapped h m = subst (Mapped pg_type) (ok_injective h) m

pub postgres_type_to_iceberg_type-Mapped :
    (name : Bytes) (pg_type : PgType) (typmod : ℤ) (mapped : IcebergType)
    → postgres_type_to_iceberg_type name pg_type typmod ≡ ok mapped
    → Mapped pg_type mapped
unfolding postgres_type_to_iceberg_type postgres_mapped_type_id canonical_type_id
postgres_type_to_iceberg_type-Mapped name bool_oid typmod mapped h =
    simple-Mapped bool_oid _ mapped h (refl, refl)
postgres_type_to_iceberg_type-Mapped name int2_oid typmod mapped h =
    simple-Mapped int2_oid _ mapped h (refl, refl)
postgres_type_to_iceberg_type-Mapped name int4_oid typmod mapped h =
    simple-Mapped int4_oid _ mapped h (refl, refl)
postgres_type_to_iceberg_type-Mapped name int8_oid typmod mapped h =
    simple-Mapped int8_oid _ mapped h (refl, refl)
postgres_type_to_iceberg_type-Mapped name float4_oid typmod mapped h =
    simple-Mapped float4_oid _ mapped h (refl, refl)
postgres_type_to_iceberg_type-Mapped name float8_oid typmod mapped h =
    simple-Mapped float8_oid _ mapped h (refl, refl)
postgres_type_to_iceberg_type-Mapped name numeric_oid typmod mapped h =
    let (d, _, e) =
      and_then_inversion (decode_numeric_typmod typmod) (λ d. ok (decimal_type d)) mapped h in
    simple-Mapped numeric_oid (decimal_type d) mapped e (refl, refl)
postgres_type_to_iceberg_type-Mapped name bytea_oid typmod mapped h =
    simple-Mapped bytea_oid _ mapped h (refl, refl)
postgres_type_to_iceberg_type-Mapped name uuid_oid typmod mapped h =
    simple-Mapped uuid_oid _ mapped h (refl, refl)
postgres_type_to_iceberg_type-Mapped name date_oid typmod mapped h =
    simple-Mapped date_oid _ mapped h (refl, refl)
postgres_type_to_iceberg_type-Mapped name time_oid typmod mapped h =
    simple-Mapped time_oid _ mapped h (refl, refl)
postgres_type_to_iceberg_type-Mapped name timestamp_oid typmod mapped h =
    simple-Mapped timestamp_oid _ mapped h (refl, refl)
postgres_type_to_iceberg_type-Mapped name timestamptz_oid typmod mapped h =
    simple-Mapped timestamptz_oid _ mapped h (refl, refl)
postgres_type_to_iceberg_type-Mapped name text_oid typmod mapped h =
    simple-Mapped text_oid _ mapped h (refl, refl)
postgres_type_to_iceberg_type-Mapped name varchar_oid typmod mapped h =
    simple-Mapped varchar_oid _ mapped h (refl, refl)
postgres_type_to_iceberg_type-Mapped name bpchar_oid typmod mapped h =
    simple-Mapped bpchar_oid _ mapped h (refl, refl)
postgres_type_to_iceberg_type-Mapped name invalid_oid typmod mapped h = absurd (cc)
postgres_type_to_iceberg_type-Mapped name other_oid typmod mapped h = absurd (cc)

false_not_true : ¬ (false ≡ true)
false_not_true h = absurd (cc)

same_type-readable :
    (remote local : TypeId) → is_type remote local ≡ true → readable_types remote local ≡ true
unfolding is_widening_promotion
same_type-readable remote local h = ground (arith, h)

same_type-writable :
    (remote local : TypeId) → is_type remote local ≡ true → writable_types local remote ≡ true
unfolding is_widening_promotion
same_type-writable remote local h =
    let swapped : is_type local remote ≡ true = ground (arith, h) in ground (arith, swapped)

types_match-same :
    (a b : IcebergType)
    → types_match a b ≡ true
    → is_type (canonical_type_id a.type_id) (canonical_type_id b.type_id) ≡ true
unfolding types_match
types_match-same a b h =
    elim (Bool-cases (is_type (canonical_type_id a.type_id) (canonical_type_id b.type_id))) [
      | inl e ↦ e
      | inr e ↦ absurd (false_not_true (rw (e, types_match) at h))
    ]

-- A column whose mapped type matches an Iceberg type can be read from it and written to it.
pub types_match-compatible :
    (name : Bytes) (pg_type : PgType) (typmod : ℤ) (mapped type : IcebergType)
    → postgres_type_to_iceberg_type name pg_type typmod ≡ ok mapped
    → types_match type mapped ≡ true
    → (iceberg_type_readable_as type pg_type ≡ true)
      × (postgres_type_writable_as pg_type type ≡ true)
unfolding iceberg_type_readable_as postgres_type_writable_as
types_match-compatible name pg_type typmod mapped type h m =
    let (id, canonical) = postgres_type_to_iceberg_type-Mapped name pg_type typmod mapped h in
    let same : is_type (canonical_type_id type.type_id) mapped.type_id ≡ true =
      subst (λ c. is_type (canonical_type_id type.type_id) c ≡ true) canonical
        (types_match-same type mapped m) in
    rw (id, iceberg_type_readable_as, postgres_type_writable_as)
      (same_type-readable _ _ same, same_type-writable _ _ same)
