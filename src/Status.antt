-- ===== src/Status.antt =====
-- src/common/status.h: error values, and the results that carry them.
use pgiceberg.Common.{◌≡◌, refl, ap, Bool, true, false, [], ◌++◌, is_empty, if◌then◌else◌}
use pgiceberg.Common.Bytes.{Bytes, text}

-- `std::expected`.
pub data Expected {ℓ κ} (E : Type ℓ) (A : Type κ) : Type (ℓ ⊔ κ) where
  ok : A → Expected E A
  err : E → Expected E A

-- The `ERRCODE_*` values that the extension raises.
pub data SqlState : Type 0 where
  internal_error invalid_parameter_value io_error data_exception : SqlState
  feature_not_supported object_not_in_prerequisite_state undefined_object : SqlState
  duplicate_object numeric_value_out_of_range string_data_length_mismatch fdw_error
        fdw_invalid_attribute_value null_value_not_allowed :
      SqlState
  fdw_inconsistent_descriptor_information : SqlState

pub record PgError : Type 0 where
  pub sqlerrcode : SqlState
  pub message : Bytes
  pub hint : Bytes

abbrev pub Result {ℓ} : Type ℓ → Type ℓ
Result A = Expected PgError A

abbrev pub Status : Type 0
Status = Result (Unit {0})

unfoldable pub make_error : SqlState → Bytes → Bytes → PgError
make_error code message hint = record { sqlerrcode = code; message = message; hint = hint }

unfoldable pub with_context : Bytes → Bytes → Bytes
with_context context message = if is_empty context then message else context ++ text ": " ++ message

-- `iceberg::ErrorKind`: the values that the source names, and the others.
pub data ErrorKind : Type 0 where
  already_exists invalid invalid_argument invalid_arrow_data invalid_expression : ErrorKind
  invalid_manifest invalid_manifest_list invalid_schema validation_failed : ErrorKind
  no_such_namespace no_such_table no_such_view no_such_warehouse not_found : ErrorKind
  not_implemented not_supported iceberg_io_error commit_state_unknown other_kind : ErrorKind

pub record IcebergError : Type 0 where
  pub kind : ErrorKind
  pub message : Bytes

abbrev pub IcebergResult {ℓ} : Type ℓ → Type ℓ
IcebergResult A = Expected IcebergError A

unfoldable pub sql_state_for_iceberg_error : ErrorKind → SqlState
sql_state_for_iceberg_error already_exists = duplicate_object
sql_state_for_iceberg_error invalid = invalid_parameter_value
sql_state_for_iceberg_error invalid_argument = invalid_parameter_value
sql_state_for_iceberg_error invalid_arrow_data = invalid_parameter_value
sql_state_for_iceberg_error invalid_expression = invalid_parameter_value
sql_state_for_iceberg_error invalid_manifest = invalid_parameter_value
sql_state_for_iceberg_error invalid_manifest_list = invalid_parameter_value
sql_state_for_iceberg_error invalid_schema = invalid_parameter_value
sql_state_for_iceberg_error validation_failed = invalid_parameter_value
sql_state_for_iceberg_error no_such_namespace = undefined_object
sql_state_for_iceberg_error no_such_table = undefined_object
sql_state_for_iceberg_error no_such_view = undefined_object
sql_state_for_iceberg_error no_such_warehouse = undefined_object
sql_state_for_iceberg_error not_found = undefined_object
sql_state_for_iceberg_error not_implemented = feature_not_supported
sql_state_for_iceberg_error not_supported = feature_not_supported
sql_state_for_iceberg_error iceberg_io_error = io_error
sql_state_for_iceberg_error commit_state_unknown = fdw_error
sql_state_for_iceberg_error other_kind = fdw_error

unfoldable pub make_pg_error : IcebergError → Bytes → PgError
make_pg_error error context =
    make_error (sql_state_for_iceberg_error error.kind) (with_context context error.message) []

-- `FromIcebergResult`, and `FromIcebergStatus` at the unit type.
unfoldable pub from_iceberg_result {ℓ} : {A : Type ℓ} → IcebergResult A → Bytes → Result A
from_iceberg_result (ok a) context = ok a
from_iceberg_result (err e) context = err (make_pg_error e context)

-- `PGICEBERG_ASSIGN_OR_RETURN` and `PGICEBERG_RETURN_NOT_OK` on a value with no state.
abbrev pub and_then {ℓ κ μ} :
    {E : Type ℓ} {A : Type κ} {B : Type μ} → Expected E A → (A → Expected E B) → Expected E B
and_then (ok a) f = f a
and_then (err e) f = err e

abbrev pub is_ok {ℓ κ} : {E : Type ℓ} {A : Type κ} → Expected E A → Bool
is_ok (ok a) = true
is_ok (err e) = false

ok_or {ℓ} : {E A : Type ℓ} → A → Expected E A → A
ok_or a (ok b) = b
ok_or a (err e) = a

pub ok_injective : {E A : Type 0} {a b : A} → ◌≡◌ {A = Expected E A} (ok a) (ok b) → a ≡ b
unfolding ok_or
ok_injective {a = a} h = ap (ok_or a) h

pub and_then_inversion {ℓ κ μ} :
    {E : Type ℓ} {A : Type κ} {B : Type μ} (m : Expected E A) (f : A → Expected E B) (b : B)
    → and_then m f ≡ ok b
    → (a : A) × (m ≡ ok a) × (f a ≡ ok b)
and_then_inversion (ok a) f b h = (a, refl, h)
and_then_inversion (err e) f b h = let differ : false ≡ true = ap is_ok h in absurd (cc)

pub err_not_ok : {A : Type 0} (e : PgError) (a : A) → ¬ (◌≡◌ {A = Result A} (err e) (ok a))
err_not_ok e a h = let differ : false ≡ true = ap is_ok h in absurd (cc)

-- `arrow::StatusCode`: the values that the source names, and the others.
pub data ArrowCode : Type 0 where
  arrow_invalid arrow_io_error arrow_not_implemented other_code : ArrowCode

unfoldable pub sql_state_for_arrow_status : ArrowCode → SqlState
sql_state_for_arrow_status arrow_invalid = invalid_parameter_value
sql_state_for_arrow_status arrow_io_error = io_error
sql_state_for_arrow_status arrow_not_implemented = feature_not_supported
sql_state_for_arrow_status other_code = fdw_error

-- `arrow::Status` of a failure: its code, and its `ToString`.
abbrev pub ArrowError : Type 0
ArrowError = ArrowCode × Bytes

unfoldable pub make_arrow_pg_error : ArrowError → Bytes → PgError
make_arrow_pg_error (code, message) context =
    make_error (sql_state_for_arrow_status code) (with_context context message) []

-- `FromArrowResult`, and `FromArrowStatus` at the unit type.
unfoldable pub from_arrow_result {ℓ} : {A : Type ℓ} → Expected ArrowError A → Bytes → Result A
from_arrow_result (ok a) context = ok a
from_arrow_result (err e) context = err (make_arrow_pg_error e context)
