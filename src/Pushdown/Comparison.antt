-- ===== src/Pushdown/Comparison.antt =====
-- The comparison operators of src/fdw/qual_pushdown.cc.
use pgiceberg.Common.{◌≡◌, Bool, ◌&&◌, not, Option, none, some, arith, if◌then◌else◌}
use pgiceberg.Common.Bytes.{Bytes, text, eqb}
use pgiceberg.Common.Int.{ℤ, ltb_ℤ, leb_ℤ, eq_ℤ}

pub data PgComparison : Type 0 where
  eq_to not_eq lt lt_eq gt gt_eq like not_like : PgComparison

unfoldable pub commute_comparison : PgComparison → Option PgComparison
commute_comparison eq_to = some eq_to
commute_comparison not_eq = some not_eq
commute_comparison lt = some gt
commute_comparison lt_eq = some gt_eq
commute_comparison gt = some lt
commute_comparison gt_eq = some lt_eq
commute_comparison like = none
commute_comparison not_like = none

-- The operator that the system cache holds: whether it is in `pg_catalog`, and its name.
unfoldable pub comparison_of_name : Bytes → Option PgComparison
comparison_of_name name =
    if eqb name (text "=")
    then some eq_to
    else if eqb name (text "<>")
    then some not_eq
    else if eqb name (text "<")
    then some lt
    else if eqb name (text "<=")
    then some lt_eq
    else if eqb name (text ">")
    then some gt
    else if eqb name (text ">=")
    then some gt_eq
    else if eqb name (text "~~")
    then some like
    else if eqb name (text "!~~")
    then some not_like
    else none

unfoldable pub classify_operator : Option (Bool × Bytes) → Option PgComparison
classify_operator none = none
classify_operator (some (in_pg_catalog, name)) =
    if in_pg_catalog then comparison_of_name name else none

-- A collation: whether it is C, whether it is valid, and whether it is deterministic.
pub record Collation : Type 0 where
  pub is_c : Bool
  pub is_valid : Bool
  pub is_deterministic : Bool

unfoldable pub collation_allows_string_pushdown : Collation → PgComparison → Bool
collation_allows_string_pushdown c lt = c.is_c
collation_allows_string_pushdown c lt_eq = c.is_c
collation_allows_string_pushdown c gt = c.is_c
collation_allows_string_pushdown c gt_eq = c.is_c
collation_allows_string_pushdown c eq_to = c.is_valid && c.is_deterministic
collation_allows_string_pushdown c not_eq = c.is_valid && c.is_deterministic
collation_allows_string_pushdown c like = c.is_valid && c.is_deterministic
collation_allows_string_pushdown c not_like = c.is_valid && c.is_deterministic

-- What a comparison says of two integers; `LIKE` says nothing of them.
abbrev pub holds : PgComparison → ℤ → ℤ → Option Bool
holds eq_to a b = some (eq_ℤ a b)
holds not_eq a b = some (not (eq_ℤ a b))
holds lt a b = some (ltb_ℤ a b)
holds lt_eq a b = some (leb_ℤ a b)
holds gt a b = some (ltb_ℤ b a)
holds gt_eq a b = some (leb_ℤ b a)
holds like a b = none
holds not_like a b = none

eq_ℤ_sym : (a b : ℤ) → eq_ℤ a b ≡ eq_ℤ b a
eq_ℤ_sym a b = ground arith

-- A comparison that has been commuted says of the swapped operands what the first says of them, for
-- every operator that can be commuted.
pub commute_comparison-holds :
    (c d : PgComparison) (a b : ℤ) → commute_comparison c ≡ some d → holds d b a ≡ holds c a b
unfolding commute_comparison
commute_comparison-holds eq_to d a b h = ground (arith, eq_ℤ_sym a b)
commute_comparison-holds not_eq d a b h = ground (arith, eq_ℤ_sym a b)
commute_comparison-holds lt d a b h = ground arith
commute_comparison-holds lt_eq d a b h = ground arith
commute_comparison-holds gt d a b h = ground arith
commute_comparison-holds gt_eq d a b h = ground arith
commute_comparison-holds like d a b h = absurd (cc)
commute_comparison-holds not_like d a b h = absurd (cc)
