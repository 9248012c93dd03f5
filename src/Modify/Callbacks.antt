-- ===== src/Modify/Callbacks.antt =====
-- The transaction and subtransaction callbacks of src/engine/modify_state.cc.
use pgiceberg.Common.{
  ℕ, Bool, true, false, ◌||◌, not, List, [], ◌∷◌, is_empty, any_of, keep_if, ◌==◌, if◌then◌else◌,
  map,
}
use pgiceberg.Common.Bytes.{text}
use pgiceberg.Status.{Status, Result, ok, err, make_error, feature_not_supported}
use pgiceberg.Exec.{Exec}
use pgiceberg.Outside.{Outside}
use pgiceberg.Recovery.Rollback.{may_be_published}
use pgiceberg.Modify.{PendingModifyChange, PendingTableChange, Backend}
use pgiceberg.Modify.Identity.{ensure_xact_commit_id, xact_properties, reset_xact_commit_state}
use pgiceberg.Modify.Recovered.{forget_current_recovery_log, abort_pending_modify_changes}
use pgiceberg.Modify.Queue.{
  cleanup_data_files, paths_of, clear_pending_table_changes, rebuilt_transaction,
}
use pgiceberg.Modify.Commit.{commit_pending_modify_changes}

-- PostgreSQL's `XactEvent`; `other_event` stands for those that the callback ignores.
pub data XactEvent : Type 0 where
  pre_commit commit parallel_commit pre_prepare abort parallel_abort other_event : XactEvent

pub data SubXactEvent : Type 0 where
  commit_sub abort_sub other_sub_event : SubXactEvent

-- A committed subtransaction's changes become its parent's.
unfoldable pub promote : ℕ → ℕ → PendingModifyChange → PendingModifyChange
promote my_subid parent_subid c =
    if c.subtransaction_id == my_subid then record c { subtransaction_id = parent_subid } else c

abbrev pub belongs_to : ℕ → PendingModifyChange → Bool
belongs_to my_subid c = c.subtransaction_id == my_subid

abbrev pub survives : ℕ → PendingModifyChange → Bool
survives my_subid c = not (belongs_to my_subid c)

module _ {Table Transaction : Type 0} where
  unfoldable pub promote_table :
      ℕ → ℕ → PendingTableChange Table Transaction → PendingTableChange Table Transaction
  promote_table my_subid parent_subid t = record t {
    changes = map (promote my_subid parent_subid) t.changes;
  }

  -- The entry without the aborted changes.
  unfoldable pub strip :
      ℕ → PendingTableChange Table Transaction → PendingTableChange Table Transaction
  strip my_subid t = record t { changes = keep_if (survives my_subid) t.changes }

  abbrev pub has_changes : PendingTableChange Table Transaction → Bool
  has_changes t = not (is_empty t.changes)

-- What the loop over the tables leaves.
abbrev pub Stripped : Type 0 → Type 0 → Type 0
Stripped Table Transaction =
    Status × List (PendingTableChange Table Transaction) × Backend Table Transaction

module _ {Table Transaction : Type 0} (o : Outside Table Transaction) where
  unfoldable pub xact_callback : XactEvent → Exec (Backend Table Transaction) (Unit {0})
  xact_callback pre_commit b = commit_pending_modify_changes o b
  xact_callback commit b = (ok tt, forget_current_recovery_log o b)
  xact_callback parallel_commit b = (ok tt, forget_current_recovery_log o b)
  xact_callback pre_prepare b =
      if not (is_empty b.pending) || not (is_empty b.commit_id)
      then (
        err (
            make_error feature_not_supported
              (text "pgiceberg DML does not support prepared transactions") []),
        b,
      )
      else (ok tt, b)
  xact_callback abort b =
      (ok tt, clear_pending_table_changes true (abort_pending_modify_changes o b))
  xact_callback parallel_abort b =
      (ok tt, clear_pending_table_changes true (abort_pending_modify_changes o b))
  xact_callback other_event b = (ok tt, b)

  -- The deletion of the aborted files of one table.
  unfoldable pub cleanup_aborted :
      ℕ
      → PendingTableChange Table Transaction
      → Backend Table Transaction
      → Backend Table Transaction
  cleanup_aborted my_subid t b = record b {
    history = cleanup_data_files (paths_of (keep_if (belongs_to my_subid) t.changes)) b.history;
  }

  -- The later tables, once this one's transaction is rebuilt; a failure leaves them as they are.
  unfoldable pub after_rebuild :
      PendingTableChange Table Transaction
      → List (PendingTableChange Table Transaction)
      → (Backend Table Transaction → Stripped Table Transaction)
      → Result Transaction
      → Backend Table Transaction
      → Stripped Table Transaction
  after_rebuild t ts rest (ok tx) b =
      let (r, ts', b') = rest b in (r, record t { transaction = tx } ∷ ts', b')
  after_rebuild t ts rest (err e) b = (err e, t ∷ ts, b)

  unfoldable pub abort_sub_tables :
      ℕ
      → List (PendingTableChange Table Transaction)
      → Backend Table Transaction
      → Stripped Table Transaction
  abort_sub_tables my_subid [] b = (ok tt, [], b)
  abort_sub_tables my_subid (t ∷ ts) b =
      let t' = strip my_subid t in
      let b₁ = cleanup_aborted my_subid t b in
      elim (has_changes t') [
        | false ↦ (let (r, ts', b') = abort_sub_tables my_subid ts b₁ in (r, t' ∷ ts', b'))
        | true ↦
            (let b₂ = ensure_xact_commit_id o b₁ in
              after_rebuild t' ts (abort_sub_tables my_subid ts)
                (rebuilt_transaction o t' (xact_properties o b₂.commit_id)) b₂)
      ]

  -- An idle transaction has no identifier, unless something was published.
  unfoldable pub reset_if_idle : Backend Table Transaction → Backend Table Transaction
  reset_if_idle b =
      if is_empty b.pending
      then (if any_of may_be_published b.recovery.tables then b else reset_xact_commit_state b)
      else b

  unfoldable pub after_abort_sub :
      Stripped Table Transaction → Exec (Backend Table Transaction) (Unit {0})
  after_abort_sub (err e, ts, b) _ = (err e, record b { pending = ts })
  after_abort_sub (ok _, ts, b) _ =
      (ok tt, reset_if_idle (record b { pending = keep_if has_changes ts }))

  unfoldable pub sub_xact_callback :
      SubXactEvent → ℕ → ℕ → Exec (Backend Table Transaction) (Unit {0})
  sub_xact_callback commit_sub my_subid parent_subid b =
      (ok tt, record b { pending = map (promote_table my_subid parent_subid) b.pending })
  sub_xact_callback abort_sub my_subid parent_subid b =
      after_abort_sub (abort_sub_tables my_subid b.pending b) b
  sub_xact_callback other_sub_event my_subid parent_subid b = (ok tt, b)
