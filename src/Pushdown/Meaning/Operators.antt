-- ===== src/Pushdown/Meaning/Operators.antt =====
-- PostgreSQL's operators of text and numbers, and when it compares text by bytes, as its documentation
-- describes them.
use pgiceberg.Common.{Bool, true, false, ◌&&◌, List, [], ◌∷◌, Option, none, some, if◌then◌else◌}
use pgiceberg.Common.Bytes.{Bytes, text, eqb}
use pgiceberg.Pushdown.Comparison.{
  PgComparison, eq_to, not_eq, lt, lt_eq, gt, gt_eq, like, not_like, Collation,
}

-- The operators of pg_catalog that compare.
abbrev pub operator_table : List (Bytes × PgComparison)
operator_table =
    (text "=", eq_to)
    ∷ (text "<>", not_eq)
    ∷ (text "<", lt)
    ∷ (text "<=", lt_eq)
    ∷ (text ">", gt)
    ∷ (text ">=", gt_eq)
    ∷ (text "~~", like)
    ∷ (text "!~~", not_like)
    ∷ []

unfoldable pub listed : Bytes → List (Bytes × PgComparison) → Option PgComparison
listed name [] = none
listed name ((known, c) ∷ operators) =
    let rest = listed name operators in if eqb name known then some c else rest

-- What an operator means: whether it is in pg_catalog, and its name. Nothing is known of another one.
unfoldable pub operator_meaning : Option (Bool × Bytes) → Option PgComparison
operator_meaning (some (true, name)) = listed name operator_table
operator_meaning (some (false, name)) = none
operator_meaning none = none

abbrev pub is_ordering : PgComparison → Bool
is_ordering lt = true
is_ordering lt_eq = true
is_ordering gt = true
is_ordering gt_eq = true
is_ordering c = false

-- Text is ordered by bytes under the collation C. It is equal by bytes, and LIKE looks at bytes, under a
-- deterministic collation; under none at all the comparison is an error.
unfoldable pub compares_bytes : Collation → PgComparison → Bool
compares_bytes coll c =
    if is_ordering c then coll.is_c else (coll.is_valid && coll.is_deterministic)
