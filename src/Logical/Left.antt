-- ===== src/Logical/Left.antt =====
-- How the slot of src/logical/logical.cc is left by the steps of `ProcessMirror` behind the append.
use pgiceberg.Common.{
  ℕ, suc, ◌≡◌, refl, sym, ap, subst, ◌∙◌, Bool, true, false, List, [], ◌∷◌, ◌++◌, length, drop,
  take, is_empty, if◌then◌else◌,
}
use pgiceberg.Common.Bytes.{Bytes, text}
use pgiceberg.Status.{ok}
use pgiceberg.Exec.{◌>>◌, pure, bind_inversion}
use pgiceberg.Logical.Slot.{
  Mirror, SlotChange, World, External, update_mirror_progress, disable_mirror,
}
use pgiceberg.Logical.Batch.{Batch}
use pgiceberg.Logical.Mirror.{
  decode, consume_batch, stop_unsupported, drain_non_source_slot_changes,
}
use pgiceberg.Logical.Consumed.{drop_prefix, advance_slot_by_count-ok, source_inserts}
use pgiceberg.Logical.Drain.{
  Drained, Drained-empty, Drained-append, drain_non_source_slot_changes-Drained,
}

module _ {S Datum : Type 0} (x : External S Datum) where
  -- The slot and the target are those of another world.
  abbrev SameSlot : World S → World S → Type 0
  SameSlot w w' = (w.slot ≡ w'.slot) × (w.target ≡ w'.target)

  SameSlot-Drained :
      (mirror : Mirror) (rows : List SlotChange) (w v w' : World S)
      → SameSlot w v
      → Drained x mirror rows v w'
      → Drained x mirror rows w w'
  SameSlot-Drained mirror rows w v w' (s, t) (f, n, k) = (s ∙ f, n, k ∙ sym t)

  update_mirror_progress-SameSlot :
      (lsn batch_id : Bytes) (w w' : World S)
      → update_mirror_progress x lsn batch_id w ≡ (ok tt, w')
      → SameSlot w w'
  unfolding update_mirror_progress
  update_mirror_progress-SameSlot lsn batch_id w w' h =
      let (_, w₁, e, h₁) = bind_inversion _ _ w w' tt h in
      (
        ap (λ r. r.1.slot) e ∙ ap (λ r. r.1.slot) h₁,
        ap (λ r. r.1.target) e ∙ ap (λ r. r.1.target) h₁,
      )

  disable_mirror-SameSlot :
      (message : Bytes) (w w' : World S) → disable_mirror x message w ≡ (ok tt, w') → SameSlot w w'
  unfolding disable_mirror
  disable_mirror-SameSlot message w w' h =
      let (_, w₁, e, h₁) = bind_inversion _ _ w w' tt h in
      (
        ap (λ r. r.1.slot) e ∙ ap (λ r. r.1.slot) h₁,
        ap (λ r. r.1.target) e ∙ ap (λ r. r.1.target) h₁,
      )

  pub stop_unsupported-Drained :
      (mirror : Mirror) (batch : Batch) (w w' : World S)
      → stop_unsupported x mirror batch w ≡ (ok tt, w')
      → (rows : List SlotChange) × Drained x mirror rows w w'
  unfolding stop_unsupported
  stop_unsupported-Drained mirror batch w w' h = step batch.saw_unsupported h
    where
      step :
          (b : Bool)
          → (if b
                then (do
                  disable_mirror x
                      (text "pgiceberg logical mirrors currently support only INSERT changes")
                  drain_non_source_slot_changes x mirror)
                else pure tt)
              w
            ≡ (ok tt, w')
          → (rows : List SlotChange) × Drained x mirror rows w w'
      step false h =
          subst (λ v. (rows : List SlotChange) × Drained x mirror rows w v) (ap (λ r. r.1) h)
            ([], Drained-empty x mirror w)
      step true h =
          let (_, w₁, e, h₁) = bind_inversion _ _ w w' tt h in
          let (rows, drained) = drain_non_source_slot_changes-Drained x mirror w₁ w' h₁ in
          (rows, SameSlot-Drained mirror rows w w₁ w' (disable_mirror-SameSlot _ w w₁ e) drained)

  -- The batch leaves the slot, and some changes behind it with no insert of the source.
  abbrev pub Left : Mirror → List SlotChange → World S → World S → Type 0
  Left mirror rows w w' =
      (more : List SlotChange) × (w.slot ≡ rows ++ (more ++ w'.slot))
      × (source_inserts (decode x) mirror.source_relid more ≡ [])
      × (w'.target ≡ w.target)

  pub consume_batch-Left :
      (mirror : Mirror) (batch : Batch) (batch_id : Bytes) (n : ℕ) (row : SlotChange)
      (rows : List SlotChange) (w w' : World S)
      → row ∷ rows ≡ take n w.slot
      → is_empty batch.last_lsn ≡ false
      → consume_batch x mirror batch batch_id (length (row ∷ rows)) w ≡ (ok tt, w')
      → Left mirror (row ∷ rows) w w'
  unfolding consume_batch
  consume_batch-Left mirror batch batch_id n row rows w w' t l h =
      let (_, w₁, e, h₁) = bind_inversion _ _ w w' tt (rw (l, consume_batch) at h) in
      let (_, w₂, e₂, h₂) = bind_inversion _ _ w₁ w' tt h₁ in
      let gone : w₁ ≡ record w { slot = drop (suc (length rows)) w.slot } =
        advance_slot_by_count-ok x (length rows) w w₁ e in
      let front : w.slot ≡ (row ∷ rows) ++ drop (suc (length rows)) w.slot =
        subst (λ ys. w.slot ≡ ys ++ drop (length ys) w.slot) (sym t) (drop_prefix n w.slot) in
      let (s, k) = update_mirror_progress-SameSlot _ _ w₁ w₂ e₂ in
      let (more, (f, m, g)) = drain_non_source_slot_changes-Drained x mirror w₂ w' h₂ in
      (
        more,
        front ∙ ap (λ ys. (row ∷ rows) ++ ys) (sym (ap (λ v. v.slot) gone) ∙ (s ∙ f)),
        m,
        g ∙ (sym k ∙ ap (λ v. v.target) gone),
      )

  pub Left-Drained :
      (mirror : Mirror) (rows rest : List SlotChange) (w v w' : World S)
      → Left mirror rows w v
      → Drained x mirror rest v w'
      → Left mirror rows w w'
  Left-Drained mirror rows rest w v w' (more, f, n, t) d =
      let (f', n', t') =
        Drained-append x mirror more rest (record v { slot = more ++ v.slot }) v w' (refl, n, refl)
          d in
      (more ++ rest, f ∙ ap (λ ys. rows ++ ys) f', n', t' ∙ t)
