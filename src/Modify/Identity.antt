-- ===== src/Modify/Identity.antt =====
-- The identity of a transaction and of a pending table: `GenerateCommitId`, `EnsureXactCommitId`,
-- `CurrentXactProperties` and `PendingTableKey` of src/engine/modify_state.cc.
use pgiceberg.Common.{
  ℕ, zero, suc, ◌+◌, ◌/◌, ◌%◌, true, false, List, [], ◌∷◌, ◌++◌, none, some, ltb, length, is_empty,
  if◌then◌else◌,
}
use pgiceberg.Common.Bytes.{Bytes, text}
use pgiceberg.Common.Decimal.{print_nat}
use pgiceberg.Options.{Options}
use pgiceberg.Outside.{Outside, History, Properties}
use pgiceberg.Recovery.{state_preparing}
use pgiceberg.Recovery.Ownership.{xact_commit_id_property}
use pgiceberg.Modify.{Backend, empty_record}

abbrev pub xact_postgres_xid_property : Bytes
xact_postgres_xid_property = text "pgiceberg.xact.postgres-xid"

-- `std::hex`: lower-case digits.
abbrev pub hex_digit : ℕ → ℕ
hex_digit d = if ltb d 10 then 48 + d else 87 + d

-- A byte in two places, as `std::setw(2)` and `std::setfill('0')` write it.
unfoldable pub hex_byte : ℕ → Bytes
hex_byte byte = hex_digit (byte / 16 % 16) ∷ hex_digit (byte % 16) ∷ []

unfoldable pub hex_bytes : List ℕ → Bytes
hex_bytes [] = []
hex_bytes (b ∷ bs) = hex_byte b ++ hex_bytes bs

unfoldable pub hex_fuel : ℕ → ℕ → Bytes → Bytes
hex_fuel zero n rest = rest
hex_fuel (suc fuel) n rest = elim (ltb n 16) [
  | true ↦ hex_digit n ∷ rest
  | false ↦ hex_fuel fuel (n / 16) (hex_digit (n % 16) ∷ rest)
]

-- A number of at most 64 bits.
unfoldable pub hex_nat : ℕ → Bytes
unfolding hex_fuel
hex_nat n = hex_fuel 16 n []

-- `std::to_string(part.size())`, a colon and the part.
unfoldable pub key_part : Bytes → Bytes
key_part part = print_nat (length part) ++ 58 ∷ part

unfoldable pub pending_table_key : Options → Bytes
pending_table_key o =
    key_part o.catalog
    ++ (key_part o.catalog_type
        ++ (key_part o.catalog_uri
            ++ (key_part o.warehouse
                ++ (key_part o.catalog_name ++ (key_part o.name_space ++ key_part o.table)))))

module _ {Table Transaction : Type 0} (o : Outside Table Transaction) where
  unfoldable pub generate_commit_id : History → Bytes
  generate_commit_id h = elim (o.strong_random h) [
    | some bytes ↦ hex_bytes bytes
    | none ↦ hex_nat o.top_transaction_id ++ hex_nat o.process_id ++ hex_nat (o.current_timestamp h)
  ]

  unfoldable pub postgres_xid_text : Bytes
  postgres_xid_text = print_nat o.top_full_transaction_id

  unfoldable pub ensure_xact_commit_id : Backend Table Transaction → Backend Table Transaction
  ensure_xact_commit_id b =
      if is_empty b.commit_id
      then (let id = generate_commit_id b.history in
          record b {
            commit_id = id;
            recovery = record b.recovery {
              commit_id = id;
              postgres_xid = postgres_xid_text;
              state = state_preparing;
              created_at_unix_micros = o.now_micros b.history;
            };
          })
      else b

  unfoldable pub xact_properties : Bytes → Properties
  xact_properties commit_id =
      (xact_commit_id_property, commit_id) ∷ (xact_postgres_xid_property, postgres_xid_text) ∷ []

module _ {Table Transaction : Type 0} where
  unfoldable pub reset_xact_commit_state : Backend Table Transaction → Backend Table Transaction
  reset_xact_commit_state b = record b { commit_id = []; recovery = empty_record }
