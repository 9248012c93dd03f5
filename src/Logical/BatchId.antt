-- ===== src/Logical/BatchId.antt =====
-- `LogicalBatchId` of src/logical/logical.cc: the name of a batch of changes of a slot.
use pgiceberg.Common.{
  ℕ, zero, suc, ◌+◌, ◌/◌, ◌%◌, ◌^◌, List, [], ◌∷◌, ◌++◌, ltb, length, if◌then◌else◌,
}
use pgiceberg.Common.Bytes.{Bytes, text}
use pgiceberg.Common.Decimal.{print_nat}
use pgiceberg.Status.{Result, ok, and_then}
use pgiceberg.Logical.Slot.{SlotChange}

-- The low byte of `n` last, and the bytes above it in front, `k` bytes in all.
unfoldable pub big_endian : ℕ → ℕ → Bytes → Bytes
big_endian zero n rest = rest
big_endian (suc k) n rest = big_endian k (n / 256) (n % 256 ∷ rest)

-- `update`: what it gives to the hash, and what follows.
unfoldable pub hashed_value : Bytes → Bytes → Bytes
hashed_value value rest = big_endian 8 (length value % 2 ^ 64) (value ++ rest)

unfoldable pub hashed_rows : List SlotChange → Bytes
hashed_rows [] = []
hashed_rows ((lsn, change) ∷ rows) = hashed_value lsn (hashed_value change (hashed_rows rows))

unfoldable pub hashed_batch : Bytes → List SlotChange → Bytes
hashed_batch slot_name rows = hashed_value slot_name (hashed_rows rows)

unfoldable pub hex_digit : ℕ → ℕ
hex_digit n = if ltb n 10 then 48 + n else 87 + n

unfoldable pub hex_text : Bytes → Bytes
hex_text [] = []
hex_text (b ∷ bytes) = hex_digit (b / 16) ∷ hex_digit (b % 16) ∷ hex_text bytes

abbrev pub batch_id_text : List SlotChange → Bytes → Bytes
batch_id_text rows digest = text "v1:" ++ (print_nat (length rows) ++ (58 ∷ hex_text digest))

unfoldable pub logical_batch_id : (Bytes → Result Bytes) → Bytes → List SlotChange → Result Bytes
logical_batch_id sha256 slot_name rows =
    and_then (sha256 (hashed_batch slot_name rows)) λ digest. ok (batch_id_text rows digest)
