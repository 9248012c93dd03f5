-- ===== src/Logical/Batch.antt =====
-- What `ProcessMirror` and `DrainNonSourceSlotChanges` of src/logical/logical.cc make of the changes of
-- a slot.
use pgiceberg.Common.{ℕ, Bool, true, false, ◌||◌, not, List, [], ◌∷◌, ◌++◌, ◌==◌, if◌then◌else◌}
use pgiceberg.Common.Bytes.{Bytes}
use pgiceberg.Status.{Result, ok, and_then}
use pgiceberg.Logical.{DecodedChange}
use pgiceberg.Logical.Slot.{SlotChange}

-- What the loop over the changes of a batch has collected.
pub record Batch : Type 0 where
  pub inserts : List DecodedChange
  pub last_lsn : Bytes
  pub saw_unsupported : Bool

abbrev pub is_unsupported : ℕ → Bool
is_unsupported action = action == 85 || action == 68 || action == 84

-- Another change of the batch: those of other relations are passed over.
unfoldable pub collect_change : ℕ → Bytes → DecodedChange → Batch → Batch
collect_change source_relid lsn change batch =
    let seen = record batch { last_lsn = lsn } in
    if not (change.relid == source_relid)
    then seen
    else if change.action == 73
    then record seen { inserts = batch.inserts ++ (change ∷ []) }
    else if is_unsupported change.action
    then record seen { saw_unsupported = true }
    else seen

abbrev pub empty_batch : Batch
empty_batch = record { inserts = []; last_lsn = []; saw_unsupported = false }

module _ (parse : Bytes → Result DecodedChange) where
  unfoldable pub collect_batch : ℕ → List SlotChange → Batch → Result Batch
  collect_batch source_relid [] batch = ok batch
  collect_batch source_relid ((lsn, change_text) ∷ rows) batch =
      and_then (parse change_text)
        λ change. collect_batch source_relid rows (collect_change source_relid lsn change batch)

  -- The loop of `DrainNonSourceSlotChanges` over the peeked changes: whether one is of the source.
  unfoldable pub has_source_change : ℕ → List SlotChange → Result Bool
  has_source_change source_relid [] = ok false
  has_source_change source_relid ((lsn, change_text) ∷ rows) =
      and_then (parse change_text) λ change.
        let rest = has_source_change source_relid rows in
        if change.relid == source_relid then ok true else rest
