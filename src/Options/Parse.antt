-- ===== src/Options/Parse.antt =====
-- src/engine/options.cc: checking option values, and reading a foreign table's options into `Options`.
use pgiceberg.Common.{
  ◌≡◌, refl, sym, ◌∙◌, ap, ◌↔◌, none, none_not_some, some-injective, Bool, ◌||◌, List, [], ◌∷◌,
  ◌++◌, Option, some, is_empty, any_of, if◌then◌else◌,
}
use pgiceberg.Common.Bytes.{Bytes, text, eqb}
use pgiceberg.Common.Numerals.{IsNumeral, from_chars_iff}
use pgiceberg.Common.FromChars.{from_chars}
use pgiceberg.Common.Int.{ℤ, int64_min}
use pgiceberg.Status.{
  Result, Status, err_not_ok, ok_injective, ok, err, make_error, and_then,
  fdw_invalid_attribute_value, feature_not_supported,
}

unfoldable pub valid_options : List Bytes
valid_options =
    text "catalog"
    ∷ text "catalog_type"
    ∷ text "catalog_uri"
    ∷ text "warehouse"
    ∷ text "namespace"
    ∷ text "table"
    ∷ text "snapshot_id"
    ∷ text "catalog_name"
    ∷ []

unfoldable pub is_valid_option : Bytes → Bool
unfolding valid_options
is_valid_option name = any_of (λ candidate. eqb name candidate) valid_options

unfoldable append_options : Bytes → List Bytes → Bytes
append_options result [] = result
append_options result (candidate ∷ rest) =
    append_options (if is_empty result then candidate else result ++ text ", " ++ candidate) rest

unfoldable pub valid_options_text : Bytes
unfolding valid_options append_options
valid_options_text = append_options [] valid_options

-- `rest_enabled` is the build's PGICEBERG_ENABLE_REST_CATALOG.
unfoldable pub valid_catalog_types : Bool → Bytes
valid_catalog_types rest_enabled =
    if rest_enabled then text "sql, sqlite, rest" else text "sql, sqlite"

unfoldable pub validate_catalog_type : Bool → Bytes → Status
validate_catalog_type rest_enabled value =
    if eqb value (text "sql") || eqb value (text "sqlite")
    then ok tt
    else if eqb value (text "rest")
    then (if rest_enabled
        then ok tt
        else err (
            make_error feature_not_supported (text "pgiceberg REST catalog support is not enabled")
              (text
                "Rebuild pgiceberg with -DPGICEBERG_ENABLE_REST_CATALOG=ON to use catalog_type 'rest'.")))
    else err (
        make_error fdw_invalid_attribute_value
          (text "invalid pgiceberg catalog_type \"" ++ value ++ text "\"")
          (text "Valid catalog_type values are: " ++ valid_catalog_types rest_enabled ++ text "."))

unfoldable snapshot_id_of_scan : Bytes → Option (ℤ × Bytes) → Result ℤ
snapshot_id_of_scan value (some (snapshot_id, [])) = ok snapshot_id
snapshot_id_of_scan value _ = err (
    make_error fdw_invalid_attribute_value
      (text "invalid pgiceberg snapshot_id \"" ++ value ++ text "\"")
      (text "snapshot_id must be a signed 64-bit integer."))

unfoldable pub parse_snapshot_id_option : Bytes → Result ℤ
unfolding snapshot_id_of_scan
parse_snapshot_id_option value =
    if is_empty value
    then err (
        make_error fdw_invalid_attribute_value (text "pgiceberg option \"snapshot_id\" is empty")
          (text "Provide a signed 64-bit Iceberg snapshot id."))
    else snapshot_id_of_scan value (from_chars int64_min value)

unfoldable pub validate_snapshot_id_option : Bytes → Status
validate_snapshot_id_option value = and_then (parse_snapshot_id_option value) λ _. ok tt

snapshot_id_of_scan_iff :
    (value : Bytes) (o : Option (ℤ × Bytes)) (a : ℤ)
    → (snapshot_id_of_scan value o ≡ ok a) ↔ (o ≡ some (a, []))
unfolding snapshot_id_of_scan
snapshot_id_of_scan_iff value none a =
    (λ h. absurd (err_not_ok _ _ h), λ h. absurd (none_not_some _ h))
snapshot_id_of_scan_iff value (some (b, [])) a =
    (λ h. ap (λ c. some (c, [])) (ok_injective h), λ h. ap (λ p. ok p.0) (some-injective h))
snapshot_id_of_scan_iff value (some (b, c ∷ cs)) a = (
  λ h. absurd (err_not_ok _ _ h),
  λ h. let rest : c ∷ cs ≡ [] = ap (λ p. p.1) (some-injective h) in absurd (cc),
)

from_chars_empty : from_chars int64_min [] ≡ none
unfolding from_chars
from_chars_empty = refl

-- The option snapshot_id is accepted as an integer exactly if its whole text is digits, one or more,
-- behind a minus sign or not, that stand for that integer, and it is one of 64 bits.
pub parse_snapshot_id_option_iff :
    (value : Bytes) (a : ℤ) → (parse_snapshot_id_option value ≡ ok a) ↔ IsNumeral int64_min value a
unfolding parse_snapshot_id_option
parse_snapshot_id_option_iff [] a = (
  λ h. absurd (err_not_ok _ _ h),
  λ numeral.
      absurd (none_not_some _ (sym from_chars_empty ∙ (from_chars_iff int64_min [] a).1 numeral)),
)
parse_snapshot_id_option_iff (c ∷ cs) a =
    let (read, readable) = from_chars_iff int64_min (c ∷ cs) a in
    let (scanned, accepted) = snapshot_id_of_scan_iff (c ∷ cs) (from_chars int64_min (c ∷ cs)) a in
    (λ h. read (scanned h), λ numeral. accepted (readable numeral))
