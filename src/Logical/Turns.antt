-- ===== src/Logical/Turns.antt =====
-- A turn of `ProcessMirror` of src/logical/logical.cc on the changes that it peeked.
use pgiceberg.Common.{
  ℕ, zero, suc, ◌≡◌, refl, sym, ap, subst, ◌∙◌, false, List, [], ◌∷◌, length, take, is_empty,
  if◌then◌else◌, ◌⊎◌, inl, inr,
}
use pgiceberg.Common.Bytes.{Bytes}
use pgiceberg.Status.{ok}
use pgiceberg.Exec.{Exec, ◌>>◌, pure, bind_inversion, read_inversion}
use pgiceberg.Logical.Slot.{Mirror, SlotChange, World, External}
use pgiceberg.Logical.BatchId.{logical_batch_id}
use pgiceberg.Logical.Batch.{Batch, empty_batch, collect_batch}
use pgiceberg.Logical.Mirror.{
  decode, append_new_batch, consume_batch, stop_unsupported, process_rows,
}
use pgiceberg.Logical.Consumed.{source_inserts, collect_batch-inserts}
use pgiceberg.Logical.Appended.{
  HasLsns, collect_batch-last_lsn, Appended, append_new_batch-Appended,
}
use pgiceberg.Logical.Left.{Left, consume_batch-Left, Left-Drained, stop_unsupported-Drained}

pub HasLsns-take : (n : ℕ) (rows : List SlotChange) → HasLsns rows → HasLsns (take n rows)
HasLsns-take zero rows h = tt
HasLsns-take (suc n) [] h = tt
HasLsns-take (suc n) (row ∷ rows) (l, ls) = (l, HasLsns-take n rows ls)

-- The changes that `PeekSlotChanges` returns.
abbrev pub peeked : {S Datum : Type 0} → External S Datum → Mirror → World S → List SlotChange
peeked x mirror w = take (x.changes_upto mirror.batch_size w.slot) w.slot

module _ {S Datum : Type 0} (x : External S Datum) where
  -- What follows the append of a batch of `ProcessMirror`.
  abbrev after_append : Mirror → Batch → Bytes → ℕ → Exec (World S) (Unit {0})
  after_append mirror batch batch_id count =
      consume_batch x mirror batch batch_id count >> stop_unsupported x mirror batch

  after_append-Left :
      (mirror : Mirror) (batch : Batch) (batch_id : Bytes) (n : ℕ) (row : SlotChange)
      (rows : List SlotChange) (w w' : World S)
      → row ∷ rows ≡ take n w.slot
      → is_empty batch.last_lsn ≡ false
      → after_append mirror batch batch_id (length (row ∷ rows)) w ≡ (ok tt, w')
      → Left x mirror (row ∷ rows) w w'
  after_append-Left mirror batch batch_id n row rows w w' t l h =
      let (_, w₁, e, h₁) = bind_inversion _ _ w w' tt h in
      let (rest, drained) = stop_unsupported-Drained x mirror batch w₁ w' h₁ in
      Left-Drained x mirror (row ∷ rows) rest w w₁ w'
        (consume_batch-Left x mirror batch batch_id n row rows w w₁ t l e) drained

  -- The parts of a turn on a peeked batch that succeeded.
  abbrev Parts : Mirror → SlotChange → List SlotChange → World S → World S → Type 0
  Parts mirror row rows w w' =
      (batch_id : Bytes) × (batch : Batch) × (v : World S) × (logical_batch_id x.sha256
          mirror.slot_name (row ∷ rows)
        ≡ ok batch_id)
      × (collect_batch (decode x) mirror.source_relid (row ∷ rows) empty_batch ≡ ok batch)
      × (append_new_batch x batch batch_id w ≡ (ok tt, v))
      × (after_append mirror batch batch_id (length (row ∷ rows)) v ≡ (ok tt, w'))

  process_rows-Parts :
      (mirror : Mirror) (row : SlotChange) (rows : List SlotChange) (w w' : World S)
      → process_rows x mirror (row ∷ rows) w ≡ (ok tt, w')
      → Parts mirror row rows w w'
  unfolding process_rows
  process_rows-Parts mirror row rows w w' h =
      let (batch_id, w₁, e, h₁) = bind_inversion _ _ w w' tt h in
      let (named, same) =
        read_inversion (λ v. logical_batch_id x.sha256 mirror.slot_name (row ∷ rows)) batch_id w w₁
          e in
      let (batch, w₂, e₂, h₂) = bind_inversion _ _ w₁ w' tt h₁ in
      let (collected, same₂) =
        read_inversion (λ v. collect_batch (decode x) mirror.source_relid (row ∷ rows) empty_batch)
          batch w₁ w₂ e₂ in
      let (_, v, e₃, h₃) = bind_inversion _ _ w₂ w' tt h₂ in
      (
        batch_id,
        batch,
        v,
        named,
        collected,
        subst (λ u. append_new_batch x batch batch_id u ≡ (ok tt, v)) (sym (same ∙ same₂)) e₃,
        h₃,
      )

  -- What a turn on peeked changes does: the engine is given the inserts into the source among them, under
  -- the name of the batch, and they leave the slot.
  abbrev pub Turn : Mirror → List SlotChange → World S → World S → Type 0
  Turn mirror rows w w' =
      (v : World S) × Left x mirror rows v w'
      × (((rows ≡ []) × (w ≡ v))
          ⊎ ((batch_id : Bytes) × (logical_batch_id x.sha256 mirror.slot_name rows ≡ ok batch_id)
              × Appended x batch_id (source_inserts (decode x) mirror.source_relid rows) w v))

  pub process_rows-Turn :
      (mirror : Mirror) (n : ℕ) (rows : List SlotChange) (w w' : World S)
      → rows ≡ take n w.slot
      → HasLsns rows
      → (if is_empty rows then pure tt else process_rows x mirror rows) w ≡ (ok tt, w')
      → Turn mirror rows w w'
  process_rows-Turn mirror n [] w w' t l h =
      subst (Turn mirror [] w) (ap (λ r. r.1) h)
        (w, unfold source_inserts in ([], refl, refl, refl), inl (refl, refl))
  process_rows-Turn mirror n (row ∷ rows) w w' t l h =
      let (batch_id, batch, v, named, collected, appended, left) =
        process_rows-Parts mirror row rows w w' h in
      let added = append_new_batch-Appended x batch batch_id w v appended in
      let inserts : batch.inserts ≡ source_inserts (decode x) mirror.source_relid (row ∷ rows) =
        collect_batch-inserts (decode x) mirror.source_relid (row ∷ rows) empty_batch batch
          collected in
      (
        v,
        after_append-Left mirror batch batch_id n row rows v w'
            (t ∙ ap (take n) (sym (ap (λ u. u.slot) added.1)))
            (collect_batch-last_lsn (decode x) mirror.source_relid row rows empty_batch batch l
              collected)
            left,
        inr (batch_id, named, subst (λ xs. Appended x batch_id xs w v) inserts added),
      )
