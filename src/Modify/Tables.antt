-- ===== src/Modify/Tables.antt =====
-- The tables of a recovery record: putting one in loses no other.
use pgiceberg.Common.{
  true, ◌≡◌, refl, inl, inr, List, [], ◌∷◌, arith, Any, All, Bool-cases, if◌then◌else◌,
}
use pgiceberg.Common.Bytes.{eqb_iff}
use pgiceberg.Options.{Options}
use pgiceberg.Recovery.{CommitRecoveryTable}
use pgiceberg.Modify.{PendingTableChange, Backend}
use pgiceberg.Modify.Recovered.{
  same_recovery_table, upsert_table, upsert_recovery_table, recovery_table_for,
}
use pgiceberg.Modify.Commit.{has_work, upsert_table_change, register_tables}

-- The seven texts by which a table is known.
pub record SameTable (a b : Options) : Type 0 where
  pub catalog : a.catalog ≡ b.catalog
  pub catalog_type : a.catalog_type ≡ b.catalog_type
  pub catalog_uri : a.catalog_uri ≡ b.catalog_uri
  pub warehouse : a.warehouse ≡ b.warehouse
  pub catalog_name : a.catalog_name ≡ b.catalog_name
  pub name_space : a.name_space ≡ b.name_space
  pub table : a.table ≡ b.table

same_recovery_table_sound : (a b : Options) → same_recovery_table a b ≡ true → SameTable a b
unfolding same_recovery_table
same_recovery_table_sound a b h = record {
  catalog = (eqb_iff _ _).0 (ground arith);
  catalog_type = (eqb_iff _ _).0 (ground arith);
  catalog_uri = (eqb_iff _ _).0 (ground arith);
  warehouse = (eqb_iff _ _).0 (ground arith);
  catalog_name = (eqb_iff _ _).0 (ground arith);
  name_space = (eqb_iff _ _).0 (ground arith);
  table = (eqb_iff _ _).0 (ground arith);
}

SameTable-refl : (a : Options) → SameTable a a
SameTable-refl a = record {
  catalog = refl;
  catalog_type = refl;
  catalog_uri = refl;
  warehouse = refl;
  catalog_name = refl;
  name_space = refl;
  table = refl;
}

SameTable-join : (a b c : Options) → SameTable a b → SameTable a c → SameTable b c
SameTable-join a b c p q = record {
  catalog = cc (p.catalog, q.catalog);
  catalog_type = cc (p.catalog_type, q.catalog_type);
  catalog_uri = cc (p.catalog_uri, q.catalog_uri);
  warehouse = cc (p.warehouse, q.warehouse);
  catalog_name = cc (p.catalog_name, q.catalog_name);
  name_space = cc (p.name_space, q.name_space);
  table = cc (p.table, q.table);
}

abbrev pub HasTable : Options → List CommitRecoveryTable → Type 0
HasTable options ts = Any (λ t. SameTable t.options options) ts

upsert_table-has :
    (ts : List CommitRecoveryTable) (t : CommitRecoveryTable)
    → HasTable t.options (upsert_table ts t)
unfolding upsert_table
upsert_table-has [] t = inl (SameTable-refl t.options)
upsert_table-has (x ∷ ts) t = elim (Bool-cases (same_recovery_table x.options t.options)) [
  | inl e ↦ rw (e, upsert_table) (inl (SameTable-refl t.options))
  | inr e ↦ rw (e, upsert_table) (inr (upsert_table-has ts t))
]

pub upsert_table-keeps :
    (options : Options) (ts : List CommitRecoveryTable) (t : CommitRecoveryTable)
    → HasTable options ts
    → HasTable options (upsert_table ts t)
unfolding upsert_table
upsert_table-keeps options [] t h = absurd h
upsert_table-keeps options (x ∷ ts) t (inl same) =
    elim (Bool-cases (same_recovery_table x.options t.options)) [
      | inl e ↦
          rw (e, upsert_table)
            (inl
              (SameTable-join x.options t.options options (same_recovery_table_sound _ _ e) same))
      | inr e ↦ rw (e, upsert_table) (inl same)
    ]
upsert_table-keeps options (x ∷ ts) t (inr below) =
    elim (Bool-cases (same_recovery_table x.options t.options)) [
      | inl e ↦ rw (e, upsert_table) (inr below)
      | inr e ↦ rw (e, upsert_table) (inr (upsert_table-keeps options ts t below))
    ]

module _ {Table Transaction : Type 0} where
  abbrev pub Registered : Options → Backend Table Transaction → Type 0
  Registered options b = HasTable options b.recovery.tables

  pub upsert_table_change-keeps :
      (options : Options) (t : PendingTableChange Table Transaction) (b : Backend Table Transaction)
      → Registered options b
      → Registered options (upsert_table_change t b)
  unfolding upsert_table_change upsert_recovery_table recovery_table_for
  upsert_table_change-keeps options t b h =
      upsert_table-keeps options b.recovery.tables (recovery_table_for t) h

  upsert_table_change-has :
      (t : PendingTableChange Table Transaction) (b : Backend Table Transaction)
      → Registered t.options (upsert_table_change t b)
  unfolding upsert_table_change upsert_recovery_table recovery_table_for
  upsert_table_change-has t b = upsert_table-has b.recovery.tables (recovery_table_for t)

  register_tables-keeps :
      (options : Options) (ts : List (PendingTableChange Table Transaction))
      (b : Backend Table Transaction)
      → Registered options b
      → Registered options (register_tables ts b)
  unfolding register_tables
  register_tables-keeps options [] b h = h
  register_tables-keeps options (t ∷ ts) b h = elim (Bool-cases (has_work t)) [
    | inl e ↦
        rw (e, register_tables)
          (register_tables-keeps options ts _ (upsert_table_change-keeps options t b h))
    | inr e ↦ rw (e, register_tables) (register_tables-keeps options ts b h)
  ]

  -- After the first loop every table with work is in the record.
  pub register_tables-Registered :
      (ts : List (PendingTableChange Table Transaction)) (b : Backend Table Transaction)
      → All (λ t. has_work t ≡ true → Registered t.options (register_tables ts b)) ts
  unfolding register_tables
  register_tables-Registered [] b = tt
  register_tables-Registered (t ∷ ts) b = (
    λ work.
        rw (work, register_tables)
          (register_tables-keeps t.options ts _ (upsert_table_change-has t b)),
    register_tables-Registered ts (if has_work t then upsert_table_change t b else b),
  )

  pub register_tables-frame :
      (ts : List (PendingTableChange Table Transaction)) (b : Backend Table Transaction)
      → ((register_tables ts b).history ≡ b.history)
        × ((register_tables ts b).commit_id ≡ b.commit_id)
        × ((register_tables ts b).pending ≡ b.pending)
  unfolding register_tables upsert_table_change
  register_tables-frame [] b = (refl, refl, refl)
  register_tables-frame (t ∷ ts) b = elim (Bool-cases (has_work t)) [
    | inl e ↦ rw (e, register_tables) (register_tables-frame ts (upsert_table_change t b))
    | inr e ↦ rw (e, register_tables) (register_tables-frame ts b)
  ]
