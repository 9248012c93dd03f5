-- ===== src/Logical/Appended.antt =====
-- What the steps of `ProcessMirror` in src/logical/logical.cc do to the slot and to the target when they
-- succeed.
use pgiceberg.Common.{
  ℕ, ◌≡◌, refl, sym, ap, subst, ◌∙◌, Bool, true, false, List, [], ◌∷◌, Option, none, some, arith,
  is_empty, All, ◌⊎◌, ◌↔◌, inl, inr,
}
use pgiceberg.Common.Bytes.{Bytes, eqb_iff}
use pgiceberg.Status.{Result, ok, and_then, and_then_inversion}
use pgiceberg.Exec.{Exec, ◌>>◌, bind_inversion, read_inversion}
use pgiceberg.Logical.{DecodedChange}
use pgiceberg.Logical.Slot.{SlotChange, World, Row, External}
use pgiceberg.Logical.Batch.{Batch, collect_batch, collect_change}
use pgiceberg.Logical.Mirror.{
  on_target, slots_from_decoded_rows, append_decoded_rows, is_logical_batch_committed,
  is_this_batch, append_new_batch, append_if_new, append_inserts, logical_batch_id_property,
  commit_properties_for,
}

-- Every change has an LSN.
abbrev pub HasLsns : List SlotChange → Type 0
HasLsns rows = All (λ row. is_empty row.0 ≡ false) rows

collect_change-last_lsn :
    (source_relid : ℕ) (lsn : Bytes) (change : DecodedChange) (batch : Batch)
    → (collect_change source_relid lsn change batch).last_lsn ≡ lsn
unfolding collect_change
collect_change-last_lsn source_relid lsn change batch = ground arith

pub collect_batch-last_lsn :
    (parse : Bytes → Result DecodedChange) (source_relid : ℕ) (row : SlotChange)
    (rows : List SlotChange) (batch batch' : Batch)
    → HasLsns (row ∷ rows)
    → collect_batch parse source_relid (row ∷ rows) batch ≡ ok batch'
    → is_empty batch'.last_lsn ≡ false
unfolding collect_batch
collect_batch-last_lsn parse source_relid (lsn, t) [] batch batch' (l, _) h =
    let (change, e, h') = and_then_inversion (parse t) _ batch' h in
    let same : collect_change source_relid lsn change batch ≡ batch' = cc in
    subst (λ b. is_empty b.last_lsn ≡ false) same
      (rw (collect_change-last_lsn source_relid lsn change batch) l)
collect_batch-last_lsn parse source_relid (lsn, t) (row ∷ rows) batch batch' (_, ls) h =
    let (change, e, h') = and_then_inversion (parse t) _ batch' h in
    collect_batch-last_lsn parse source_relid row rows _ batch' ls h'

module _ {S Datum : Type 0} (x : External S Datum) where
  -- Whether the table has the name of the batch.
  abbrev pub HasName : Bytes → S → Type 0
  HasName batch_id s = x.read_table_property s logical_batch_id_property ≡ ok (some batch_id)

  -- What the engine was given for a batch. There was nothing to append; or the table had the name of
  -- the batch; or it had not, and one call got a row for each insert, with the name as a property, and
  -- one flush followed it.
  abbrev pub Delivered : Bytes → List DecodedChange → S → S → Type 0
  Delivered batch_id inserts s s' =
      ((is_empty inserts ≡ true) × (s ≡ s'))
      ⊎ ((HasName batch_id s × (s ≡ s'))
          ⊎ ((¬ HasName batch_id s)
              × ((rows : List (Row Datum)) × (lsn : Bytes) × (s₁ : S) × (slots_from_decoded_rows x
                      inserts
                    ≡ ok rows)
                  × (x.append_slots rows (commit_properties_for batch_id lsn) s ≡ (ok tt, s₁))
                  × (x.flush_pending_modify_changes s₁ ≡ (ok tt, s')))))

  -- A call of the engine that succeeds changes the target only.
  on_target-ok :
      (m : Exec S (Unit {0})) (w w' : World S)
      → on_target x m w ≡ (ok tt, w')
      → (m w.target ≡ (ok tt, w'.target)) × (w' ≡ record w { target = w'.target })
  on_target-ok m w w' h =
      let target : (m w.target).1 ≡ w'.target = ap (λ r. r.1.target) h in
      (
        ap (λ r. (r.0, r.1.target)) h,
        sym (ap (λ r. r.1) h) ∙ ap (λ s. record w { target = s }) target,
      )

  -- The engine was given the batch, and nothing else has changed.
  abbrev pub Appended : Bytes → List DecodedChange → World S → World S → Type 0
  Appended batch_id inserts w w' =
      Delivered batch_id inserts w.target w'.target × (w' ≡ record w { target = w'.target })

  append_decoded_rows-ok :
      (inserts : List DecodedChange) (batch_id lsn : Bytes) (w w' : World S)
      → is_empty inserts ≡ false
      → append_decoded_rows x inserts batch_id lsn w ≡ (ok tt, w')
      → (rows : List (Row Datum)) × (slots_from_decoded_rows x inserts ≡ ok rows)
        × (x.append_slots rows (commit_properties_for batch_id lsn) w.target ≡ (ok tt, w'.target))
        × (w' ≡ record w { target = w'.target })
  unfolding append_decoded_rows
  append_decoded_rows-ok [] batch_id lsn w w' n h = absurd (cc)
  append_decoded_rows-ok (c ∷ cs) batch_id lsn w w' n h =
      let (rows, w₁, e, h₁) = bind_inversion _ _ w w' tt h in
      let (filled, same) = read_inversion (λ v. slots_from_decoded_rows x (c ∷ cs)) rows w w₁ e in
      let (appended, kept) =
        on_target-ok (x.append_slots rows (commit_properties_for batch_id lsn)) w w' (
          subst
            (λ v.
              on_target x (x.append_slots rows (commit_properties_for batch_id lsn)) v
              ≡ (ok tt, w'))
            (sym same) h₁) in
      (rows, filled, appended, kept)

  same_but_target :
      (w v : World S) (s : S)
      → v ≡ record w { target = v.target }
      → record v { target = s } ≡ record w { target = s }
  same_but_target w v s h = ap {A = World S} {B = World S} (λ u. record u { target = s }) h

  -- A batch that is appended now.
  flushed-Appended :
      (inserts : List DecodedChange) (batch_id lsn : Bytes) (w w' : World S)
      → ¬ HasName batch_id w.target
      → is_empty inserts ≡ false
      → (append_decoded_rows x inserts batch_id lsn >> on_target x x.flush_pending_modify_changes) w
        ≡ (ok tt, w')
      → Appended batch_id inserts w w'
  flushed-Appended inserts batch_id lsn w w' fresh n h =
      let (_, w₁, e, h₁) = bind_inversion _ _ w w' tt h in
      let (rows, filled, added, kept) = append_decoded_rows-ok inserts batch_id lsn w w₁ n e in
      let (flushed, kept') = on_target-ok x.flush_pending_modify_changes w₁ w' h₁ in
      (
        inr (inr (fresh, (rows, lsn, w₁.target, filled, added, flushed))),
        kept' ∙ same_but_target w w₁ w'.target kept,
      )

  is_this_batch-HasName :
      (batch_id : Bytes) (already : Bool) (w : World S) (last : Option Bytes)
      → x.read_table_property w.target logical_batch_id_property ≡ ok last
      → is_this_batch last batch_id ≡ already
      → HasName batch_id w.target ↔ (already ≡ true)
  is_this_batch-HasName batch_id already w none e h = (λ b. absurd (cc), λ t. absurd (cc))
  is_this_batch-HasName batch_id already w (some other) e h = (
    λ b. let same : other ≡ batch_id = cc in sym h ∙ (eqb_iff other batch_id).1 same,
    λ t.
        let same : other ≡ batch_id = (eqb_iff other batch_id).0 (h ∙ t) in
        e ∙ ap (λ i. ok (some i)) same,
  )

  -- What `IsLogicalBatchCommitted` answers is whether the table has the name.
  committed-HasName :
      (batch_id : Bytes) (already : Bool) (w w' : World S)
      → is_logical_batch_committed x batch_id w ≡ (ok already, w')
      → (w ≡ w') × (HasName batch_id w.target ↔ (already ≡ true))
  unfolding is_logical_batch_committed
  committed-HasName batch_id already w w' h =
      let (e, same) =
        read_inversion
          (λ v.
            and_then (x.read_table_property v.target logical_batch_id_property)
              λ last. ok (is_this_batch last batch_id))
          already w w' h in
      let (last, e₁, e₂) = and_then_inversion _ _ already e in
      (same, is_this_batch-HasName batch_id already w last e₁ (cc))

  append_if_new-Appended :
      (batch : Batch) (batch_id : Bytes) (already : Bool) (w w' : World S)
      → HasName batch_id w.target ↔ (already ≡ true)
      → is_empty batch.inserts ≡ false
      → append_if_new x batch batch_id already w ≡ (ok tt, w')
      → Appended batch_id batch.inserts w w'
  append_if_new-Appended batch batch_id true w w' has n h =
      let same : w ≡ w' = ap (λ r. r.1) h in
      subst (λ v. Appended batch_id batch.inserts w v) same (inr (inl (has.1 refl, refl)), refl)
  append_if_new-Appended batch batch_id false w w' has n h =
      flushed-Appended batch.inserts batch_id batch.last_lsn w w'
        (λ b. let wrong : false ≡ true = has.0 b in absurd (cc)) n h

  append_inserts-Appended :
      (batch : Batch) (batch_id : Bytes) (empty : Bool) (w w' : World S)
      → is_empty batch.inserts ≡ empty
      → append_inserts x batch batch_id empty w ≡ (ok tt, w')
      → Appended batch_id batch.inserts w w'
  append_inserts-Appended batch batch_id true w w' e h =
      let same : w ≡ w' = ap (λ r. r.1) h in
      subst (λ v. Appended batch_id batch.inserts w v) same (inl (e, refl), refl)
  append_inserts-Appended batch batch_id false w w' e h =
      let (already, w₁, q, h₁) = bind_inversion _ _ w w' tt h in
      let (same, has) = committed-HasName batch_id already w w₁ q in
      append_if_new-Appended batch batch_id already w w' has e
        (subst (λ v. append_if_new x batch batch_id already v ≡ (ok tt, w')) (sym same) h₁)

  pub append_new_batch-Appended :
      (batch : Batch) (batch_id : Bytes) (w w' : World S)
      → append_new_batch x batch batch_id w ≡ (ok tt, w')
      → Appended batch_id batch.inserts w w'
  unfolding append_new_batch
  append_new_batch-Appended batch batch_id w w' h =
      append_inserts-Appended batch batch_id (is_empty batch.inserts) w w' refl h
