-- ===== src/Options.antt =====
-- src/engine/options.h, src/engine/options.cc and `CatalogOptions` of src/common/catalog.h: the
-- options that name an Iceberg table.
pub mod Parse
pub mod Apply
use pgiceberg.Common.{[], Option, none, some, is_empty, if◌then◌else◌}
use pgiceberg.Common.Bytes.{Bytes, text}
use pgiceberg.Common.Int.{ℤ}
use pgiceberg.Status.{Result, Status, ok, err, make_error, and_then, feature_not_supported}

pub record Options : Type 0 where
  pub catalog : Bytes
  pub catalog_type : Bytes
  pub catalog_uri : Bytes
  pub warehouse : Bytes
  pub catalog_name : Bytes
  pub name_space : Bytes
  pub table : Bytes
  pub snapshot_id : Option ℤ

pub record CatalogOptions : Type 0 where
  pub catalog_type : Bytes
  pub catalog_uri : Bytes
  pub warehouse : Bytes
  pub catalog_name : Bytes
  pub name_space : Bytes
  pub table : Bytes

-- A default-constructed `Options`.
unfoldable pub default_options : Options
default_options = record {
  catalog = [];
  catalog_type = text "sql";
  catalog_uri = [];
  warehouse = [];
  catalog_name = text "pgiceberg";
  name_space = text "default";
  table = [];
  snapshot_id = none;
}

unfoldable pub ensure_writable_options : Options → Status
ensure_writable_options options = elim options.snapshot_id [
  | some _ ↦ err (
      make_error feature_not_supported
        (text "pgiceberg DML is not supported when foreign table option \"snapshot_id\" is set")
        (text
          "Drop snapshot_id to read the current table snapshot before INSERT, UPDATE, or DELETE."))
  | none ↦ ok tt
]

-- `load` stands for `LoadCatalogOptions`, which reads the catalog's row through SPI.
unfoldable pub to_catalog_options :
    (Bytes → Result CatalogOptions) → Options → Result CatalogOptions
to_catalog_options load options =
    and_then
      (if is_empty options.catalog
        then ok (record {
          catalog_type = options.catalog_type;
          catalog_uri = options.catalog_uri;
          warehouse = options.warehouse;
          catalog_name = options.catalog_name;
          name_space = options.name_space;
          table = options.table;
        })
        else load options.catalog)
      λ c. ok (record c { name_space = options.name_space; table = options.table })
