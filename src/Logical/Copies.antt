-- ===== src/Logical/Copies.antt =====
-- `BackfillSourceTable` of src/logical/logical.cc gives the engine every row of the source.
use mathlib.Core.Path.{subst₂}
use mathlib.Core.List.{append_assoc, append-nil}
use pgiceberg.Common.{
  ℕ, zero, suc, ◌≡◌, refl, sym, ap, ◌∙◌, Bool, true, false, List, [], ◌∷◌, ◌++◌, leb, length,
  if◌then◌else◌, Bool-cases, inl, inr,
}
use pgiceberg.Common.Bytes.{Bytes}
use pgiceberg.Common.Int.{ℤ, pos, negsuc}
use pgiceberg.Status.{Status, ok}
use pgiceberg.Exec.{Exec, bind_inversion, answer_injective}
use pgiceberg.Outside.{Properties}
use pgiceberg.Logical.Slot.{Row}
use pgiceberg.Logical.Backfill.{
  flush, backfill_rows, backfill_source_table, backfill_properties, positive_batch_size,
  check_isolation,
}

positive :
    (batch_size : ℤ) (batch : ℕ)
    → positive_batch_size batch_size ≡ ok batch
    → (n : ℕ) × (batch_size ≡ pos (suc n))
unfolding positive_batch_size
positive (pos (suc n)) batch h = (n, refl)
positive (pos zero) batch h = absurd (cc)
positive (negsuc n) batch h = absurd (cc)

isolated :
    (uses_xact_snapshot : Bool)
    → check_isolation uses_xact_snapshot ≡ ok tt
    → uses_xact_snapshot ≡ false
unfolding check_isolation
isolated true h = absurd (cc)
isolated false h = refl

module _ {S Datum : Type 0} (append_slots : List (Row Datum) → Properties → Exec S (Unit {0}))
    (queued : S → List (Row Datum))
    (queues : (rows : List (Row Datum)) (properties : Properties) (s s' : S)
      → append_slots rows properties s ≡ (ok tt, s')
      → queued s' ≡ queued s ++ rows) where
  flush-queued :
      (rows : List (Row Datum)) (properties : Properties) (s s' : S)
      → flush append_slots rows properties s ≡ (ok tt, s')
      → queued s' ≡ queued s ++ rows
  unfolding flush
  flush-queued [] properties s s' h =
      ap queued (sym (ap (λ r. r.1) h)) ∙ sym (append-nil (queued s))
  flush-queued (row ∷ rows) properties s s' h = queues (row ∷ rows) properties s s' h

  backfill_rows-queued :
      (batch_size : ℕ) (properties : Properties) (batch rows : List (Row Datum)) (s s' : S)
      → backfill_rows append_slots batch_size properties batch rows s ≡ (ok tt, s')
      → queued s' ≡ queued s ++ (batch ++ rows)
  unfolding backfill_rows
  backfill_rows-queued batch_size properties batch [] s s' h =
      flush-queued batch properties s s' h ∙ ap (λ xs. queued s ++ xs) (sym (append-nil batch))
  backfill_rows-queued batch_size properties batch (row ∷ rows) s s' h =
      elim (Bool-cases (leb batch_size (length (batch ++ (row ∷ []))))) [
        | inl full ↦
            (let (_, t, e, h₁) = bind_inversion _ _ s s' tt (rw (full, backfill_rows) at h) in
              backfill_rows-queued batch_size properties [] rows t s' h₁
              ∙ (ap (λ xs. xs ++ rows) (flush-queued (batch ++ (row ∷ [])) properties s t e)
                  ∙ (append_assoc (queued s) (batch ++ (row ∷ [])) rows
                      ∙ ap (λ xs. queued s ++ xs) (append_assoc batch (row ∷ []) rows))))
        | inr more ↦
            backfill_rows-queued batch_size properties (batch ++ (row ∷ [])) rows s s'
              (rw (more, backfill_rows) at h)
            ∙ ap (λ xs. queued s ++ xs) (append_assoc batch (row ∷ []) rows)
      ]

  -- A backfill that succeeds has given the engine every row that the scan returned, in order and once,
  -- whatever the size of a batch; it returns their number, and it ran with a batch size above zero, not
  -- on a transaction's snapshot, and on an empty target if that was asked.
  pub backfill_source_table-queued :
      (uses_xact_snapshot : Bool) (empty_target : Status) (rows : List (Row Datum))
      (source_relid : ℕ) (batch_size : ℤ) (source_lsn : Bytes) (require_empty_target : Bool)
      (s s' : S) (count : ℕ)
      → backfill_source_table append_slots uses_xact_snapshot empty_target rows source_relid
          batch_size source_lsn require_empty_target s
        ≡ (ok count, s')
      → (queued s' ≡ queued s ++ rows)
        × (count ≡ length rows)
        × ((n : ℕ) × (batch_size ≡ pos (suc n)))
        × (uses_xact_snapshot ≡ false)
        × ((if require_empty_target then empty_target else ok tt) ≡ ok tt)
  unfolding backfill_source_table
  backfill_source_table-queued uses_xact_snapshot empty_target rows source_relid batch_size
        source_lsn require_empty_target s s' count h =
      let (batch, s₁, e₁, h₁) = bind_inversion _ _ s s' count h in
      let (_, s₂, e₂, h₂) = bind_inversion _ _ s₁ s' count h₁ in
      let (_, s₃, e₃, h₃) = bind_inversion _ _ s₂ s' count h₂ in
      let (_, s₄, e₄, h₄) = bind_inversion _ _ s₃ s' count h₃ in
      let (counted, end) = answer_injective (length rows) count s₄ s' h₄ in
      let start : s ≡ s₃ = ap (λ r. r.1) e₁ ∙ (ap (λ r. r.1) e₂ ∙ ap (λ r. r.1) e₃) in
      (
        subst₂ (λ u v. queued v ≡ queued u ++ rows) (sym start) end
            (backfill_rows-queued batch (backfill_properties source_relid source_lsn) [] rows s₃ s₄
              e₄),
        sym counted,
        positive batch_size batch (ap (λ r. r.0) e₁),
        isolated uses_xact_snapshot (ap (λ r. r.0) e₂),
        ap (λ r. r.0) e₃,
      )
