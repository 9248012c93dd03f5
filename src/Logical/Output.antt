-- ===== src/Logical/Output.antt =====
-- The output plugin at the end of src/logical/logical.cc: what it writes for a change.
use pgiceberg.Common.{
  ℕ, ◌^◌, Bool, true, false, List, [], ◌∷◌, ◌++◌, Option, none, some, leb, length, if◌then◌else◌,
}
use pgiceberg.Common.Bytes.{Bytes, text, eqb}
use pgiceberg.Common.Decimal.{print_nat}
use pgiceberg.Status.{Result, PgError, ok, err, and_then}

-- One attribute of a tuple: `value` is the text that its output function gives, `none` for NULL.
pub record Attribute : Type 0 where
  pub attnum : ℕ
  pub is_dropped : Bool
  pub value : Option Bytes

pub record Source : Type 0 where
  pub namespace_name : Option Bytes
  pub relid : ℕ

-- The actions of a reorder buffer that the plugin writes, and all others.
pub data ChangeAction : Type 0 where
  insert update delete other_action : ChangeAction

unfoldable pub skips_relation : Source → Bool
skips_relation source = elim source.namespace_name [
  | none ↦ false
  | some name ↦ eqb name (text "pgiceberg")
]

-- A column without the tab in front of it, and the text that follows it.
abbrev pub column_text : ℕ → ℕ → Bytes → Bytes → Bytes
column_text attnum marker shown rest =
    print_nat attnum ++ (9 ∷ marker ∷ 9 ∷ (print_nat (length shown) ++ (58 ∷ (shown ++ rest))))

abbrev pub null_column : Attribute → Bytes → Bytes
null_column a rest = print_nat a.attnum ++ (9 ∷ 110 ∷ 9 ∷ 48 ∷ 58 ∷ rest)

abbrev pub value_column : Attribute → Bytes → Bytes → Bytes
value_column a shown rest = column_text a.attnum 118 shown rest

-- The error for a text of 2^31 bytes or more.
abbrev pub max_text : ℕ
max_text = 2 ^ 31

-- A record with no more than the action and the relation.
abbrev pub short_record : ℕ → Source → Bytes
short_record action source = action ∷ 9 ∷ print_nat source.relid

module _ (too_large : PgError) where
  -- A column followed by what `rest` gives.
  unfoldable pub output_column : Attribute → Result Bytes → Result Bytes
  output_column a rest = elim a.is_dropped [
    | true ↦ and_then rest (λ r. ok (null_column a r))
    | false ↦ (elim a.value [
      | none ↦ and_then rest (λ r. ok (null_column a r))
      | some shown ↦
          if leb max_text (length shown)
          then err too_large
          else and_then rest (λ r. ok (value_column a shown r))
    ])
  ]

  unfoldable pub output_columns : List Attribute → Result Bytes
  output_columns [] = ok []
  output_columns (a ∷ rest) =
      and_then (output_column a (output_columns rest)) (λ columns. ok (9 ∷ columns))

  unfoldable pub output_insert : Source → List Attribute → Result Bytes
  output_insert source tuple = and_then (output_columns tuple) λ columns.
      ok (73 ∷ 9 ∷ (print_nat source.relid ++ (9 ∷ (print_nat (length tuple) ++ columns))))

  abbrev pub written : Result Bytes → Result (Option Bytes)
  written (ok record_text) = ok (some record_text)
  written (err e) = err e

  -- `PgIcebergOutputChange`: `none` if nothing is written.
  unfoldable pub output_change : ChangeAction → Source → List Attribute → Result (Option Bytes)
  output_change other_action source tuple = ok none
  output_change insert source tuple =
      if skips_relation source then ok none else written (output_insert source tuple)
  output_change update source tuple =
      if skips_relation source then ok none else ok (some (short_record 85 source))
  output_change delete source tuple =
      if skips_relation source then ok none else ok (some (short_record 68 source))

unfoldable pub output_truncate : List Source → List Bytes
output_truncate [] = []
output_truncate (source ∷ rest) =
    let below = output_truncate rest in
    if skips_relation source then below else (84 ∷ 9 ∷ print_nat source.relid) ∷ below
