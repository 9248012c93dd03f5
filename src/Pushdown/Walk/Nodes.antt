-- ===== src/Pushdown/Walk/Nodes.antt =====
-- The nodes that src/fdw/qual_pushdown.cc walks over, what it makes of them, and `StripRelabel`,
-- `AsScanColumn` and `ResolveColumn`.
use pgiceberg.Common.{ℕ, Bool, ◌&&◌, List, Option, none, some, ◌==◌, if◌then◌else◌}
use pgiceberg.Common.Bytes.{Bytes}
use pgiceberg.Common.Int.{ℤ, pos, ltb_ℤ}
use pgiceberg.Status.{IcebergResult, ok, err}
use pgiceberg.Schema.{IcebergType, PgType}
use pgiceberg.Schema.Columns.{field_id_from_option_list}
use pgiceberg.Convert.{Datum, Library}
use pgiceberg.Pushdown.Comparison.{PgComparison, Collation}
use pgiceberg.Pushdown.Constants.{Literal}

-- `Var`
pub record Var : Type 0 where
  pub varno : ℕ
  pub varattno : ℤ
  pub varlevelsup : ℕ
  pub vartype : PgType

-- `Const`
pub data Const (F : Type 0) : Type 0 where
  null_const : Const F
  scalar_const : Datum F → Const F
  array_const : List (Option (Datum F)) → Const F

-- A node that is an operand; any node that the source does not look into is `other_operand`.
pub data Operand (F : Type 0) : Type 0 where
  relabel : Operand F → Operand F
  variable : Var → Operand F
  constant : Const F → Operand F
  other_operand : ℕ → Operand F

pub data BoolTest : Type 0 where
  is_true is_false other_test : BoolTest

-- A node that is a clause. `op_expr` has the operator's OID, `scalar_array_op` also `useOr`, `null_test`
-- whether it is `IS NULL` and `argisrow`.
pub data Clause (F : Type 0) : Type 0 where
  op_expr : ℕ → Collation → List (Operand F) → Clause F
  scalar_array_op : ℕ → Bool → Collation → List (Operand F) → Clause F
  null_test : Bool → Bool → Operand F → Clause F
  var_clause : Var → Clause F
  not_expr : List (Operand F) → Clause F
  boolean_test : BoolTest → Operand F → Clause F
  other_clause : ℕ → Clause F

-- `iceberg::Expression`: what the source makes.
pub data Expression (F : Type 0) : Type 0 where
  comparison : PgComparison → Bytes → Literal F → Expression F
  starts_with not_starts_with : Bytes → Bytes → Expression F
  in_list not_in_list : Bytes → List (Literal F) → Expression F
  is_null not_null : Bytes → Expression F
  and_also : Expression F → Expression F → Expression F

pub record ColumnTarget : Type 0 where
  pub field_name : Bytes
  pub field_type : IcebergType

-- `iceberg::SchemaField`, with a type that may be missing.
pub record Field : Type 0 where
  pub name : Bytes
  pub type : Option IcebergType

-- What PostgreSQL's catalogs and the Iceberg schema answer for the scan of `varno`; `builds` is whether an
-- expression is made without an exception.
pub record Planner (F : Type 0) : Type 0 where
  pub varno : ℕ
  pub operator : ℕ → Option (Bool × Bytes)
  pub attribute_name : ℤ → Option Bytes
  pub column_options : ℤ → List (Bytes × Bytes)
  pub find_field_by_id : ℤ → IcebergResult (Option Field)
  pub find_field_by_name : Bytes → IcebergResult (Option Field)
  pub is_primitive : IcebergType → Bool
  pub builds : Expression F → Bool
  pub library : Library F
  pub uuid_from_bytes : Bytes → Option Bytes

unfoldable pub strip_relabel : {F : Type 0} → Operand F → Operand F
strip_relabel (relabel o) = strip_relabel o
strip_relabel (variable v) = variable v
strip_relabel (constant c) = constant c
strip_relabel (other_operand n) = other_operand n

module _ {F : Type 0} (x : Planner F) where
  abbrev pub is_scan_column : Var → Bool
  is_scan_column v = v.varno == x.varno && (v.varlevelsup == 0 && ltb_ℤ (pos 0) v.varattno)

  abbrev pub scan_column_of : Operand F → Option Var
  scan_column_of (variable v) = if is_scan_column v then some v else none
  scan_column_of other = none

  -- `AsScanColumn`
  abbrev pub as_scan_column : Operand F → Option Var
  as_scan_column o = scan_column_of (strip_relabel o)

  abbrev pub target_of : (Bytes → Bytes) → IcebergResult (Option Field) → Option ColumnTarget
  target_of name (err e) = none
  target_of name (ok none) = none
  target_of name (ok (some field)) = elim field.type [
    | none ↦ none
    | some type ↦
        (if x.is_primitive type
          then some (record { field_name = name field.name; field_type = type })
          else none)
  ]

  unfoldable pub resolve_column : ℤ → Option ColumnTarget
  resolve_column varattno = elim (x.attribute_name varattno) [
    | none ↦ none
    | some attribute_name ↦ (elim (field_id_from_option_list (x.column_options varattno)) [
      | some id ↦ target_of (λ name. name) (x.find_field_by_id id)
      | none ↦ target_of (λ name. attribute_name) (x.find_field_by_name attribute_name)
    ])
  ]
