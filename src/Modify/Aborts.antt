-- ===== src/Modify/Aborts.antt =====
-- What a rolled-back savepoint leaves in the queue.
use pgiceberg.Common.{
  ℕ, Bool, true, false, ◌≡◌, refl, sym, ap, ◌∙◌, not, List, [], ◌∷◌, arith, All, map, keep_if,
  any_of, is_empty, Bool-cases, inl, inr,
}
use pgiceberg.Common.Bytes.{Bytes}
use pgiceberg.Options.{Options}
use pgiceberg.Status.{Result, ok, err}
use pgiceberg.Outside.{Outside}
use pgiceberg.Modify.{PendingModifyChange, PendingTableChange, Backend}
use pgiceberg.Modify.Identity.{ensure_xact_commit_id, xact_properties, reset_xact_commit_state}
use pgiceberg.Modify.Queue.{rebuilt_transaction}
use pgiceberg.Modify.Callbacks.{
  belongs_to, strip, has_changes, Stripped, cleanup_aborted, after_rebuild, abort_sub_tables,
  after_abort_sub, reset_if_idle, sub_xact_callback, abort_sub,
}

module _ {ℓ} {A : Type ℓ} (p : A → Bool) where
  none_left : (xs : List A) → any_of p (keep_if (λ x. not (p x)) xs) ≡ false
  none_left [] = refl
  none_left (x ∷ xs) = elim (Bool-cases (p x)) [
    | inl e ↦ rw e (none_left xs)
    | inr e ↦ rw e (rw e (none_left xs))
  ]

module _ {Table Transaction : Type 0} (o : Outside Table Transaction) where
  -- All of an entry but its transaction.
  abbrev pub Shell : Type 0
  Shell = Bytes × Options × Table × List PendingModifyChange × Bool

  abbrev pub shell : PendingTableChange Table Transaction → Shell
  shell t = (t.key, t.options, t.base_table, t.changes, t.committed)

  -- The entry's transaction is its changes replayed, in order and with the properties of the commit,
  -- on a new transaction of its table.
  abbrev pub IsReplayed : Bytes → PendingTableChange Table Transaction → Type 0
  IsReplayed commit_id t = rebuilt_transaction o t (xact_properties o commit_id) ≡ ok t.transaction

  abbrev pub Cleared : ℕ → PendingTableChange Table Transaction → Type 0
  Cleared my_subid t = any_of (belongs_to my_subid) t.changes ≡ false

  -- An entry after the loop: no change of the subtransaction, and a replayed transaction if it has
  -- changes at all.
  abbrev Done : ℕ → Bytes → PendingTableChange Table Transaction → Type 0
  Done my_subid commit_id t = Cleared my_subid t × (has_changes t ≡ true → IsReplayed commit_id t)

  Loop :
      ℕ → Bytes → List (PendingTableChange Table Transaction) → Stripped Table Transaction → Type 0
  Loop my_subid commit_id ts (r, ts', b) =
      r ≡ ok tt
      → All (Done my_subid commit_id) ts' × (map shell ts' ≡ map (λ t. shell (strip my_subid t)) ts)

  strip-Cleared :
      (my_subid : ℕ) (t : PendingTableChange Table Transaction)
      → Cleared my_subid (strip my_subid t)
  unfolding strip
  strip-Cleared my_subid t = none_left (belongs_to my_subid) t.changes

  module _ (my_subid : ℕ) (commit_id : Bytes) where
    Loop-keep :
        (t : PendingTableChange Table Transaction)
        (ts : List (PendingTableChange Table Transaction)) (rest : Stripped Table Transaction)
        → has_changes (strip my_subid t) ≡ false
        → Loop my_subid commit_id ts rest
        → Loop my_subid commit_id (t ∷ ts) (rest.0, strip my_subid t ∷ rest.1, rest.2)
    unfolding Loop
    Loop-keep t ts rest e ih q =
        let (done, shells) = ih q in
        (
          ((strip-Cleared my_subid t, λ h. cc), done),
          ap (λ xs. shell (strip my_subid t) ∷ xs) shells,
        )

    Loop-rebuild :
        (t : PendingTableChange Table Transaction)
        (ts : List (PendingTableChange Table Transaction))
        (rest : Backend Table Transaction → Stripped Table Transaction) (r : Result Transaction)
        (b : Backend Table Transaction)
        → rebuilt_transaction o (strip my_subid t) (xact_properties o commit_id) ≡ r
        → Loop my_subid commit_id ts (rest b)
        → Loop my_subid commit_id (t ∷ ts) (after_rebuild o (strip my_subid t) ts rest r b)
    unfolding Loop after_rebuild rebuilt_transaction strip
    Loop-rebuild t ts rest (err e) b built ih q = absurd (cc)
    Loop-rebuild t ts rest (ok tx) b built ih q =
        let (done, shells) = ih q in
        (
          ((none_left (belongs_to my_subid) t.changes, λ _. built), done),
          ap (λ xs. shell (strip my_subid t) ∷ xs) shells,
        )

    ensured :
        (b : Backend Table Transaction)
        → is_empty commit_id ≡ false
        → b.commit_id ≡ commit_id
        → (ensure_xact_commit_id o b).commit_id ≡ commit_id
    unfolding ensure_xact_commit_id
    ensured b set is = ground arith

    abort_sub_tables-Loop :
        is_empty commit_id ≡ false
        → (ts : List (PendingTableChange Table Transaction)) (b : Backend Table Transaction)
        → b.commit_id ≡ commit_id
        → Loop my_subid commit_id ts (abort_sub_tables o my_subid ts b)
    unfolding abort_sub_tables cleanup_aborted
    abort_sub_tables-Loop set [] b is = unfold Loop in λ _. (tt, refl)
    abort_sub_tables-Loop set (t ∷ ts) b is =
        let kept = ensured (cleanup_aborted o my_subid t b) set is in
        elim (Bool-cases (has_changes (strip my_subid t))) [
          | inl e ↦
              rw (e, abort_sub_tables)
                (Loop-rebuild t ts _ _ _
                  (ap (λ id. rebuilt_transaction o (strip my_subid t) (xact_properties o id))
                    (sym kept))
                  (abort_sub_tables-Loop set ts _ kept))
          | inr e ↦
              rw (e, abort_sub_tables)
                (Loop-keep t ts _ e
                  (abort_sub_tables-Loop set ts (cleanup_aborted o my_subid t b) is))
        ]

  -- Erasing the entries without changes keeps what holds of the others.
  keep-Done :
      (my_subid : ℕ) (commit_id : Bytes) (ts : List (PendingTableChange Table Transaction))
      → All (Done my_subid commit_id) ts
      → All (λ t. Cleared my_subid t × IsReplayed commit_id t) (keep_if has_changes ts)
  keep-Done my_subid commit_id [] d = tt
  keep-Done my_subid commit_id (t ∷ ts) d = elim (Bool-cases (has_changes t)) [
    | inl e ↦ rw e ((d.0.0, d.0.1 e), keep-Done my_subid commit_id ts d.1)
    | inr e ↦ rw e (keep-Done my_subid commit_id ts d.1)
  ]

  abbrev pub shell_has_changes : Shell → Bool
  shell_has_changes s = not (is_empty s.3)

  shells-keep :
      (ts : List (PendingTableChange Table Transaction))
      → map shell (keep_if has_changes ts) ≡ keep_if shell_has_changes (map shell ts)
  shells-keep [] = refl
  shells-keep (t ∷ ts) = elim (Bool-cases (has_changes t)) [
    | inl e ↦ rw e (ap (λ xs. shell t ∷ xs) (shells-keep ts))
    | inr e ↦ rw e (shells-keep ts)
  ]

  pending-reset_if_idle : (b : Backend Table Transaction) → (reset_if_idle o b).pending ≡ b.pending
  unfolding reset_if_idle reset_xact_commit_state
  pending-reset_if_idle b = ground arith

  -- The queue after a rolled-back savepoint, as the statement below describes it.
  abbrev pub RolledBack : ℕ → Backend Table Transaction → Backend Table Transaction → Type 0
  RolledBack my_subid before now =
      All (λ t. Cleared my_subid t × IsReplayed before.commit_id t) now.pending
      × (map shell now.pending
          ≡ keep_if shell_has_changes (map (λ t. shell (strip my_subid t)) before.pending))

  after_abort_sub-RolledBack :
      (my_subid : ℕ) (before b : Backend Table Transaction) (s : Stripped Table Transaction)
      → Loop my_subid before.commit_id before.pending s
      → (after_abort_sub o s b).0 ≡ ok tt
      → RolledBack my_subid before (after_abort_sub o s b).1
  unfolding after_abort_sub Loop
  after_abort_sub-RolledBack my_subid before b (err e, ts, c) loop q = cc
  after_abort_sub-RolledBack my_subid before b (ok u, ts, c) loop q =
      let (done, shells) = loop refl in
      rw (pending-reset_if_idle (record c { pending = keep_if has_changes ts })) (
        keep-Done my_subid before.commit_id ts done,
        shells-keep ts ∙ ap (keep_if shell_has_changes) shells,
      )

  -- After the rollback of a savepoint is handled without an error: no change of the savepoint is
  -- left; the entries are those that still have changes, in order, with their other changes in order
  -- and their tables as before; and each entry's Iceberg transaction is exactly its remaining changes
  -- replayed on a new transaction of its table, whatever it was before. The backend has a commit id.
  pub abort_sub-RolledBack :
      (my_subid parent_subid : ℕ) (b : Backend Table Transaction)
      → is_empty b.commit_id ≡ false
      → (sub_xact_callback o abort_sub my_subid parent_subid b).0 ≡ ok tt
      → RolledBack my_subid b (sub_xact_callback o abort_sub my_subid parent_subid b).1
  unfolding sub_xact_callback
  abort_sub-RolledBack my_subid parent_subid b set q =
      after_abort_sub-RolledBack my_subid b b (abort_sub_tables o my_subid b.pending b)
        (abort_sub_tables-Loop my_subid b.commit_id set b.pending b refl) q
