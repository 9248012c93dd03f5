-- ===== src/Schema/Refreshed.antt =====
-- What `RefreshForeignTable` of src/functions/schema.cc runs on a table with no changes.
use pgiceberg.Common.{◌≡◌, refl, ap, ◌∙◌, List, [], ◌∷◌, ◌++◌, All}
use pgiceberg.Common.Bytes.{Bytes, text}
use pgiceberg.Common.Decimal.{print_int}
use pgiceberg.Status.{Result, ok, err}
use pgiceberg.Exec.{Exec, pure, continue, ◌>>=◌, ◌>>◌}
use pgiceberg.Schema.{PgType}
use pgiceberg.Schema.Binding.{BoundField, SchemaBinding}
use pgiceberg.Schema.Diff.{diff_schema}
use pgiceberg.Schema.InSync.{InSync, diff_schema-InSync}
use pgiceberg.Schema.Refresh.{
  Session, for_each, execute_sql, alter_type, column_name_after_rename, set_field_id,
  refresh_foreign_table,
}

continue-pure : {W : Type 0} (r : Result (Unit {0}) × W) → continue r.0 (λ _. pure tt) r.1 ≡ r
continue-pure (ok tt, w) = refl
continue-pure (err e, w) = refl

for_each_same :
    {W A : Type 0} (f g : A → Exec W (Unit {0})) (P : A → Type 0)
    → ((a : A) → P a → f a ≡ g a)
    → (rest : List A) → All P rest
    → for_each f rest ≡ for_each g rest
unfolding for_each
for_each_same f g P same [] h = refl
for_each_same f g P same (a ∷ rest) (p, h) = λ i. (same a p i >> for_each_same f g P same rest h i)

for_each_nothing :
    {W A : Type 0} (rest : List A) (w : W) → for_each (λ a. pure {S = W} tt) rest w ≡ (ok tt, w)
unfolding for_each ◌>>=◌
for_each_nothing [] w = refl
for_each_nothing (a ∷ rest) w = for_each_nothing rest w

module _ {W : Type 0} (x : Session W) (qualified : Bytes) {Literal : Type 0} where
  -- The statement that sets the option of a column to the id that it has.
  abbrev pub set_statement : BoundField Literal → Exec W (Unit {0})
  set_statement field = execute_sql x (
      (text "ALTER FOREIGN TABLE " ++ qualified)
      ++ (text " ALTER COLUMN " ++ x.quote_identifier field.local_name)
      ++ (text " OPTIONS ("
          ++ (text "SET "
              ++ (text "field_id" ++ (text " '" ++ (print_int field.field_id ++ text "')"))))))

  alter_type-InSync :
      (field : BoundField Literal) → InSync field → alter_type x qualified field ≡ pure tt
  unfolding alter_type
  alter_type-InSync field (bound, _, same_type, _, _) = rw (bound, same_type) refl

  set_field_id-InSync :
      (field : BoundField Literal)
      → InSync field
      → set_field_id x qualified field ≡ set_statement field
  unfolding set_field_id column_name_after_rename
  set_field_id-InSync field (bound, _, _, same_name, has_id) = rw (bound, same_name, has_id) refl

  -- On a binding for which `DiffSchema` reports nothing, the refresh runs nothing but one statement for
  -- each field, which sets the option field_id of its column to the id of the field.
  pub refresh_foreign_table-InSync :
      (format_type : PgType → Bytes) (binding : SchemaBinding Literal) (w : W)
      → diff_schema format_type binding ≡ []
      → refresh_foreign_table x qualified (diff_schema format_type binding) binding w
        ≡ for_each set_statement binding.fields w
  unfolding refresh_foreign_table for_each ◌>>=◌
  refresh_foreign_table-InSync format_type binding w same =
      let (synced, _) = (diff_schema-InSync format_type binding).0 same in
      let types : for_each (alter_type x qualified) binding.fields w ≡ (ok tt, w) =
        ap (λ run. run w)
          (for_each_same (alter_type x qualified) (λ a. pure tt) InSync alter_type-InSync
            binding.fields synced)
        ∙ for_each_nothing binding.fields w in
      let ids : for_each (set_field_id x qualified) binding.fields w
          ≡ for_each set_statement binding.fields w =
        ap (λ run. run w)
          (for_each_same (set_field_id x qualified) set_statement InSync set_field_id-InSync
            binding.fields synced) in
      rw (same, for_each)
        (rw (types) (continue-pure (for_each (set_field_id x qualified) binding.fields w) ∙ ids))
