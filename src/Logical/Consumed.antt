-- ===== src/Logical/Consumed.antt =====
-- What the two calls of a slot in src/logical/logical.cc take from it when they succeed.
use mathlib.Core.List.{append_assoc, append-nil}
use pgiceberg.Common.{
  ℕ, zero, suc, ◌≡◌, refl, sym, ap, subst, ◌∙◌, Bool, true, false, List, [], ◌∷◌, ◌++◌, arith, ◌==◌,
  length, take, drop, if◌then◌else◌, Bool-cases, inl, inr,
}
use pgiceberg.Common.Bytes.{Bytes}
use pgiceberg.Status.{Result, ok, err, and_then_inversion}
use pgiceberg.Exec.{bind_inversion, answer_injective, check_inversion}
use pgiceberg.Logical.{DecodedChange}
use pgiceberg.Logical.Batch.{
  Batch, is_unsupported, collect_batch, collect_change, has_source_change,
}
use pgiceberg.Logical.Slot.{
  Mirror, SlotChange, World, External, run_spi, check_count, peek_slot_changes, consume_changes,
  advance_slot_by_count, SpiCall, peek_changes, get_changes,
}

take-drop : {A : Type 0} (n : ℕ) (xs : List A) → xs ≡ take n xs ++ drop n xs
take-drop zero xs = refl
take-drop (suc n) [] = refl
take-drop (suc n) (x ∷ xs) = ap (λ ys. x ∷ ys) (take-drop n xs)

-- A list is dropped up to the length of what was taken.
drop_taken : {A : Type 0} (n : ℕ) (xs : List A) → drop n xs ≡ drop (length (take n xs)) xs
drop_taken zero xs = refl
drop_taken (suc n) [] = refl
drop_taken (suc n) (x ∷ xs) = drop_taken n xs

pub drop_prefix :
    {A : Type 0} (n : ℕ) (xs : List A) → xs ≡ take n xs ++ drop (length (take n xs)) xs
drop_prefix n xs = take-drop n xs ∙ ap (λ ys. take n xs ++ ys) (drop_taken n xs)

module _ {S Datum : Type 0} (x : External S Datum) where
  -- A statement changes nothing by itself.
  run_spi-ok : (call : SpiCall) (w w' : World S) → run_spi x call w ≡ (ok tt, w') → w ≡ w'
  run_spi-ok call w w' h = ap (λ r. r.1) h

  pub peek_slot_changes-ok :
      (mirror : Mirror) (w w' : World S) (rows : List SlotChange)
      → peek_slot_changes x mirror w ≡ (ok rows, w')
      → (w ≡ w') × (rows ≡ take (x.changes_upto mirror.batch_size w.slot) w.slot)
  unfolding peek_slot_changes
  peek_slot_changes-ok mirror w w' rows h =
      let (_, w₁, e, h₁) = bind_inversion _ _ w w' rows h in
      let same : w ≡ w₁ = run_spi-ok peek_changes w w₁ e in
      let (taken, kept) = answer_injective _ rows w₁ w' h₁ in
      (
        same ∙ kept,
        subst (λ v. rows ≡ take (x.changes_upto mirror.batch_size v.slot) v.slot) (sym same)
            (sym taken),
      )

  check_count-ok :
      (count consumed : ℕ) (w w' : World S)
      → check_count x count consumed w ≡ (ok tt, w')
      → (consumed ≡ count) × (w ≡ w')
  check_count-ok count consumed w w' h =
      let (equal, kept) = check_inversion (consumed == count) _ w w' h in (ground arith, kept)

  consume_changes-ok :
      (limit : ℕ) (w w' : World S) (consumed : ℕ)
      → consume_changes x limit w ≡ (ok consumed, w')
      → (length (take (x.changes_upto limit w.slot) w.slot) ≡ consumed)
        × (record w { slot = drop (x.changes_upto limit w.slot) w.slot } ≡ w')
  unfolding consume_changes
  consume_changes-ok limit w w' consumed h = answer_injective _ consumed _ w' h

  pub advance_slot_by_count-ok :
      (count : ℕ) (w w' : World S)
      → advance_slot_by_count x (suc count) w ≡ (ok tt, w')
      → w' ≡ record w { slot = drop (suc count) w.slot }
  unfolding advance_slot_by_count
  advance_slot_by_count-ok count w w' h =
      let (_, w₁, e, h₁) = bind_inversion _ _ w w' tt h in
      let (consumed, w₂, e₂, h₂) = bind_inversion _ _ w₁ w' tt h₁ in
      let same : w ≡ w₁ = run_spi-ok get_changes w w₁ e in
      let (number, left) = consume_changes-ok (suc count) w₁ w₂ consumed e₂ in
      let (equal, kept) = check_count-ok (suc count) consumed w₂ w' h₂ in
      let here : w' ≡ record w₁ { slot = drop (suc count) w₁.slot } =
        sym kept
        ∙ (sym left
            ∙ ap (λ s. record w₁ { slot = s })
                (drop_taken (x.changes_upto (suc count) w₁.slot) w₁.slot
                  ∙ ap (λ n. drop n w₁.slot) (number ∙ equal))) in
      subst (λ v. w' ≡ record v { slot = drop (suc count) v.slot }) (sym same) here

-- The changes of a slot that are inserts into `source_relid`, those that can be read.
abbrev pub source_insert : ℕ → Result DecodedChange → List DecodedChange
source_insert source_relid (ok change) =
    if change.relid == source_relid then (if change.action == 73 then change ∷ [] else []) else []
source_insert source_relid (err e) = []

if_found :
    (b : Bool) (r : Result Bool)
    → (if b then ok true else r) ≡ ok false
    → (b ≡ false) × (r ≡ ok false)
if_found false r h = (refl, h)
if_found true r h = absurd (cc)

collect_change-inserts :
    (source_relid : ℕ) (lsn : Bytes) (change : DecodedChange) (batch : Batch)
    → (collect_change source_relid lsn change batch).inserts
      ≡ batch.inserts ++ source_insert source_relid (ok change)
unfolding collect_change
collect_change-inserts source_relid lsn change batch =
    elim (Bool-cases (change.relid == source_relid)) [
      | inr other ↦ rw (other, collect_change) (sym (append-nil batch.inserts))
      | inl ours ↦ (elim (Bool-cases (change.action == 73)) [
        | inl insert ↦ rw (ours, insert, collect_change) refl
        | inr e ↦ (elim (Bool-cases (is_unsupported change.action)) [
          | inl u ↦ rw (ours, e, u, collect_change) (sym (append-nil batch.inserts))
          | inr u ↦ rw (ours, e, u, collect_change) (sym (append-nil batch.inserts))
        ])
      ])
    ]

module _ (parse : Bytes → Result DecodedChange) where
  unfoldable pub source_inserts : ℕ → List SlotChange → List DecodedChange
  source_inserts source_relid [] = []
  source_inserts source_relid ((lsn, change_text) ∷ rows) =
      source_insert source_relid (parse change_text) ++ source_inserts source_relid rows

  pub source_inserts-append :
      (source_relid : ℕ) (xs ys : List SlotChange)
      → source_inserts source_relid (xs ++ ys)
        ≡ source_inserts source_relid xs ++ source_inserts source_relid ys
  unfolding source_inserts
  source_inserts-append source_relid [] ys = refl
  source_inserts-append source_relid ((lsn, change_text) ∷ xs) ys =
      rw (source_inserts-append source_relid xs ys)
        (sym (append_assoc (source_insert source_relid (parse change_text)) _ _))

  -- Changes with none of the source have no insert of it.
  pub source_inserts-has_source_change :
      (source_relid : ℕ) (rows : List SlotChange)
      → has_source_change parse source_relid rows ≡ ok false
      → source_inserts source_relid rows ≡ []
  unfolding source_inserts has_source_change
  source_inserts-has_source_change source_relid [] h = refl
  source_inserts-has_source_change source_relid ((lsn, change_text) ∷ rows) h =
      let (change, e, h') = and_then_inversion (parse change_text) _ false h in
      let (other, none_left) = if_found (change.relid == source_relid) _ h' in
      rw (e) (rw (other) (source_inserts-has_source_change source_relid rows none_left))

  -- What `collect_batch` finds.
  pub collect_batch-inserts :
      (source_relid : ℕ) (rows : List SlotChange) (batch batch' : Batch)
      → collect_batch parse source_relid rows batch ≡ ok batch'
      → batch'.inserts ≡ batch.inserts ++ source_inserts source_relid rows
  unfolding source_inserts collect_batch
  collect_batch-inserts source_relid [] batch batch' h =
      let same : batch ≡ batch' = cc in
      ap (λ b. b.inserts) (sym same) ∙ sym (append-nil batch.inserts)
  collect_batch-inserts source_relid ((lsn, change_text) ∷ rows) batch batch' h =
      let (change, e, h') = and_then_inversion (parse change_text) _ batch' h in
      let ih = collect_batch-inserts source_relid rows _ batch' h' in
      rw (e) (
        ih
        ∙ (ap (λ xs. xs ++ source_inserts source_relid rows)
              (collect_change-inserts source_relid lsn change batch)
            ∙ append_assoc batch.inserts (source_insert source_relid (ok change)) _))
