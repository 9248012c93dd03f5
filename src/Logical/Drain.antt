-- ===== src/Logical/Drain.antt =====
-- `DrainNonSourceSlotChanges` of src/logical/logical.cc ends, and drops no change of the source.
use mathlib.Core.List.{append_assoc}
use pgiceberg.Common.{
  ℕ, zero, suc, ◌+◌, ◌<◌, ◌≤◌, ◌≡◌, refl, sym, ap, subst, ◌∙◌, Bool, true, false, List, [], ◌∷◌,
  ◌++◌, Option, some, arith, length, drop, take, is_empty, if◌then◌else◌, length-append,
}
use pgiceberg.Status.{Result, Status, ok, err}
use pgiceberg.Exec.{Exec, ◌>>=◌, ◌>>◌, pure, read, bind_inversion, answer_injective}
use pgiceberg.Logical.Slot.{Mirror, SlotChange, World, External, advance_slot_by_count}
use pgiceberg.Logical.Batch.{has_source_change}
use pgiceberg.Logical.Mirror.{
  decode, drain_round, drain_on, drain_rounds, drain_non_source_slot_changes,
}
use pgiceberg.Logical.Consumed.{
  drop_prefix, peek_slot_changes-ok, advance_slot_by_count-ok, source_inserts,
  source_inserts-append, source_inserts-has_source_change,
}

module _ {S Datum : Type 0} (x : External S Datum) where
  -- Some changes with no insert of the mirror's source have been taken from the front of the slot,
  -- and the target is as it was.
  abbrev pub Drained : Mirror → List SlotChange → World S → World S → Type 0
  Drained mirror rows w w' =
      (w.slot ≡ rows ++ w'.slot)
      × (source_inserts (decode x) mirror.source_relid rows ≡ [])
      × (w'.target ≡ w.target)

  pub Drained-empty : (mirror : Mirror) (w : World S) → Drained mirror [] w w
  Drained-empty mirror w = unfold source_inserts in (refl, refl, refl)

  pub Drained-append :
      (mirror : Mirror) (rows rows' : List SlotChange) (w v w' : World S)
      → Drained mirror rows w v
      → Drained mirror rows' v w'
      → Drained mirror (rows ++ rows') w w'
  Drained-append mirror rows rows' w v w' (f, s, t) (f', s', t') = (
    f ∙ (ap (λ ys. rows ++ ys) f' ∙ sym (append_assoc rows rows' w'.slot)),
    source_inserts-append (decode x) mirror.source_relid rows rows' ∙ rw (s, s') refl,
    t' ∙ t,
  )

  last_world :
      {v w' : World S}
      → ◌≡◌ {A = Option (Status × World S)} (some (ok tt, v)) (some (ok tt, w'))
      → v ≡ w'
  last_world h = cc

  -- A round that is the last one changes nothing, and one that goes on drains the slot.
  abbrev Round : Mirror → Bool → World S → World S → Type 0
  Round mirror false w w' = w ≡ w'
  Round mirror true w w' = (rows : List SlotChange) × (1 ≤ length rows) × Drained mirror rows w w'

  advanced-Drained :
      (mirror : Mirror) (n : ℕ) (rows : List SlotChange) (w w' : World S)
      → rows ≡ take n w.slot
      → has_source_change (decode x) mirror.source_relid rows ≡ ok false
      → w' ≡ record w { slot = drop (length rows) w.slot }
      → Drained mirror rows w w'
  advanced-Drained mirror n rows w w' t s e =
      let front : w.slot ≡ rows ++ drop (length rows) w.slot =
        subst (λ ys. w.slot ≡ ys ++ drop (length ys) w.slot) (sym t) (drop_prefix n w.slot) in
      (
        front ∙ ap (λ v. rows ++ v.slot) (sym e),
        source_inserts-has_source_change (decode x) mirror.source_relid rows s,
        ap (λ v. v.target) e,
      )

  -- The rest of a round, once it is known whether the source has a change.
  abbrev round_end : ℕ → Bool → Exec (World S) Bool
  round_end count found = if found then pure false else do advance_slot_by_count x count; pure true

  round_end-Round :
      (mirror : Mirror) (n : ℕ) (row : SlotChange) (rows : List SlotChange) (found b : Bool)
      (w w' : World S)
      → row ∷ rows ≡ take n w.slot
      → has_source_change (decode x) mirror.source_relid (row ∷ rows) ≡ ok found
      → round_end (length (row ∷ rows)) found w ≡ (ok b, w')
      → Round mirror b w w'
  round_end-Round mirror n row rows true b w w' t s h =
      let (stop, same) = answer_injective false b w w' h in
      subst (λ b. Round mirror b w w') stop same
  round_end-Round mirror n row rows false b w w' t s h =
      let (_, w₁, e, h₁) = bind_inversion _ _ w w' b h in
      let (go, same) = answer_injective true b w₁ w' h₁ in
      subst (λ b. Round mirror b w w') go
        (
          row ∷ rows,
          omega arith,
          advanced-Drained mirror n (row ∷ rows) w w' t s
              (sym same ∙ advance_slot_by_count-ok x (length rows) w w₁ e),
        )

  abbrev after_peek : Mirror → List SlotChange → Exec (World S) Bool
  after_peek mirror rows = if is_empty rows then pure false else do
    found ← read (λ w. has_source_change (decode x) mirror.source_relid rows)
    round_end (length rows) found

  after_peek-Round :
      (mirror : Mirror) (n : ℕ) (rows : List SlotChange) (b : Bool) (w w' : World S)
      → rows ≡ take n w.slot
      → after_peek mirror rows w ≡ (ok b, w')
      → Round mirror b w w'
  after_peek-Round mirror n [] b w w' t h =
      let (stop, same) = answer_injective false b w w' h in
      subst (λ b. Round mirror b w w') stop same
  after_peek-Round mirror n (row ∷ rows) b w w' t h =
      let (found, w₁, e, h₁) = bind_inversion _ _ w w' b h in
      let found_so : has_source_change (decode x) mirror.source_relid (row ∷ rows) ≡ ok found =
        ap (λ r. r.0) e in
      let same : w ≡ w₁ = ap (λ r. r.1) e in
      round_end-Round mirror n row rows found b w w' t found_so
        (subst (λ v. round_end (length (row ∷ rows)) found v ≡ (ok b, w')) (sym same) h₁)

  drain_round-Round :
      (mirror : Mirror) (b : Bool) (w w' : World S)
      → drain_round x mirror w ≡ (ok b, w')
      → Round mirror b w w'
  unfolding drain_round
  drain_round-Round mirror b w w' h =
      let (rows, w₁, e, h₁) = bind_inversion _ _ w w' b h in
      let (same, taken) = peek_slot_changes-ok x mirror w w₁ rows e in
      after_peek-Round mirror (x.changes_upto mirror.batch_size w.slot) rows b w w' taken
        (subst (λ v. after_peek mirror rows v ≡ (ok b, w')) (sym same) h₁)

  -- The slot is shorter after a round that goes on.
  drain_round-shorter :
      (mirror : Mirror) (w w' : World S)
      → drain_round x mirror w ≡ (ok true, w')
      → length w'.slot < length w.slot
  drain_round-shorter mirror w w' h =
      let (rows, l, (front, _, _)) = drain_round-Round mirror true w w' h in
      let sizes : length w.slot ≡ length rows + length w'.slot =
        ap length front ∙ length-append rows w'.slot in
      omega arith

  -- The loop of `DrainNonSourceSlotChanges` ends on a slot that nothing is added to while it runs: it
  -- returns within one round for each change in the slot and one more.
  pub drain_rounds-enough :
      (fuel : ℕ) (mirror : Mirror) (w : World S)
      → length w.slot < fuel
      → (result : Status × World S) × (drain_rounds x fuel mirror w ≡ some result)
  unfolding drain_rounds
  drain_rounds-enough zero mirror w h = absurd (omega arith)
  drain_rounds-enough (suc fuel) mirror w h =
      after (drain_rounds-enough fuel mirror) (drain_round x mirror w) refl
    where
      after :
          ((v : World S)
            → length v.slot < fuel
            → (result : Status × World S) × (drain_rounds x fuel mirror v ≡ some result))
          → (r : Result Bool × World S) → drain_round x mirror w ≡ r
          → (result : Status × World S) × (drain_on x (drain_rounds x fuel mirror) r ≡ some result)
      after rest (err e, v) q = ((err e, v), refl)
      after rest (ok false, v) q = ((ok tt, v), refl)
      after rest (ok true, v) q =
          let shorter : length v.slot < length w.slot = drain_round-shorter mirror w v q in
          rest v (omega arith)

  drain_rounds-Drained :
      (fuel : ℕ) (mirror : Mirror) (w w' : World S)
      → drain_rounds x fuel mirror w ≡ some (ok tt, w')
      → (rows : List SlotChange) × Drained mirror rows w w'
  unfolding drain_rounds
  drain_rounds-Drained zero mirror w w' h = absurd (cc)
  drain_rounds-Drained (suc fuel) mirror w w' h =
      after (λ v. drain_rounds-Drained fuel mirror v w') (drain_round x mirror w) refl h
    where
      after :
          ((v : World S)
            → drain_rounds x fuel mirror v ≡ some (ok tt, w')
            → (rows : List SlotChange) × Drained mirror rows v w')
          → (r : Result Bool × World S) → drain_round x mirror w ≡ r
          → drain_on x (drain_rounds x fuel mirror) r ≡ some (ok tt, w')
          → (rows : List SlotChange) × Drained mirror rows w w'
      after rest (err e, v) q g = absurd (cc)
      after rest (ok false, v) q g =
          let same : w ≡ v = drain_round-Round mirror false w v q in
          let end : v ≡ w' = last_world g in
          subst (λ u. (rows : List SlotChange) × Drained mirror rows w u) (same ∙ end)
            ([], Drained-empty mirror w)
      after rest (ok true, v) q g =
          let (rows, _, first) = drain_round-Round mirror true w v q in
          let (rows', later) = rest v g in
          (rows ++ rows', Drained-append mirror rows rows' w v w' first later)

  -- `DrainNonSourceSlotChanges` that succeeds has taken changes from the front of the slot, with no
  -- insert of the source among them, and has left the target.
  pub drain_non_source_slot_changes-Drained :
      (mirror : Mirror) (w w' : World S)
      → drain_non_source_slot_changes x mirror w ≡ (ok tt, w')
      → (rows : List SlotChange) × Drained mirror rows w w'
  unfolding drain_non_source_slot_changes
  drain_non_source_slot_changes-Drained mirror w w' h =
      let (result, e) = drain_rounds-enough (suc (length w.slot)) mirror w (omega arith) in
      drain_rounds-Drained (suc (length w.slot)) mirror w w'
        (e ∙ ap some (rw (e, drain_non_source_slot_changes) at h))
