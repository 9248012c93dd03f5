-- ===== src/Logical/Delivered.antt =====
-- `ProcessMirror` of src/logical/logical.cc: what the engine is given for the changes that leave the slot.
use pgiceberg.Common.{
  ◌≡◌, sym, ap, subst, ◌∙◌, List, [], ◌++◌, is_empty, if◌then◌else◌, ◌⊎◌, inl, inr,
}
use pgiceberg.Common.Bytes.{Bytes}
use pgiceberg.Status.{ok}
use pgiceberg.Exec.{pure, bind_inversion}
use pgiceberg.Logical.Slot.{Mirror, SlotChange, World, External}
use pgiceberg.Logical.BatchId.{logical_batch_id}
use pgiceberg.Logical.Mirror.{decode, process_rows, process_mirror}
use pgiceberg.Logical.Consumed.{peek_slot_changes-ok, source_inserts}
use pgiceberg.Logical.Appended.{HasLsns, Delivered}
use pgiceberg.Logical.Turns.{HasLsns-take, peeked, Turn, process_rows-Turn}

module _ {S Datum : Type 0} (x : External S Datum) where
  -- The changes that were peeked have left the front of the slot, and more behind them, none of which is
  -- an insert into the source. If none were peeked, the engine got nothing; else it got the inserts
  -- into the source among them, as `Delivered` says.
  abbrev pub Copied : Mirror → World S → World S → Type 0
  Copied mirror w w' =
      (more : List SlotChange) × (w.slot ≡ peeked x mirror w ++ (more ++ w'.slot))
      × (source_inserts (decode x) mirror.source_relid more ≡ [])
      × (((peeked x mirror w ≡ []) × (w.target ≡ w'.target))
          ⊎ ((batch_id : Bytes) × (logical_batch_id x.sha256 mirror.slot_name (peeked x mirror w)
                ≡ ok batch_id)
              × Delivered x batch_id
                  (source_inserts (decode x) mirror.source_relid (peeked x mirror w)) w.target
                  w'.target))

  Turn-Copied :
      (mirror : Mirror) (w w' : World S)
      → Turn x mirror (peeked x mirror w) w w'
      → Copied mirror w w'
  Turn-Copied mirror w w' (v, (more, f, n, t), inl (none_peeked, same)) =
      (more, ap (λ u. u.slot) same ∙ f, n, inl (none_peeked, ap (λ u. u.target) same ∙ sym t))
  Turn-Copied mirror w w' (v, (more, f, n, t), inr (batch_id, named, (given, kept))) = (
    more,
    sym (ap (λ u. u.slot) kept) ∙ f,
    n,
    inr (
      batch_id,
      named,
      subst
          (Delivered x batch_id (source_inserts (decode x) mirror.source_relid (peeked x mirror w))
            w.target)
          (sym t) given,
    ),
  )

  -- After a turn of `ProcessMirror` that succeeds, the changes that it peeked have left the slot, and of
  -- those that left it behind them none is an insert into the source. The engine was given one row for
  -- each insert into the source among the peeked changes, in their order, in one call with the name of
  -- the batch and one flush; it was given nothing if there are no such inserts or the table had that
  -- name. Every change has an LSN.
  pub process_mirror-Copied :
      (mirror : Mirror) (w w' : World S)
      → HasLsns w.slot
      → process_mirror x mirror w ≡ (ok tt, w')
      → Copied mirror w w'
  unfolding process_mirror
  process_mirror-Copied mirror w w' lsns h =
      let (rows, w₁, e, h₁) = bind_inversion _ _ w w' tt h in
      let (same, taken) = peek_slot_changes-ok x mirror w w₁ rows e in
      Turn-Copied mirror w w' (
        subst (λ ys. Turn x mirror ys w w') taken
          (process_rows-Turn x mirror (x.changes_upto mirror.batch_size w.slot) rows w w' taken
            (subst HasLsns (sym taken) (HasLsns-take _ w.slot lsns))
            (subst
              (λ v. (if is_empty rows then pure tt else process_rows x mirror rows) v ≡ (ok tt, w'))
              (sym same) h₁)))
