-- ===== src/Modify/Commit.antt =====
-- `CommitPendingModifyChanges` of src/engine/modify_state.cc: at PRE_COMMIT the pending tables are
-- published in turn, behind the recovery log.
use pgiceberg.Common.{
  Bool, true, false, ◌&&◌, not, List, [], ◌∷◌, Option, is_empty, any_of, if◌then◌else◌,
}
use pgiceberg.Common.Bytes.{text}
use pgiceberg.Common.Int.{ℤ}
use pgiceberg.Status.{
  Status, Result, IcebergError, IcebergResult, ErrorKind, commit_state_unknown, ok, err,
  make_pg_error,
}
use pgiceberg.Exec.{Exec}
use pgiceberg.Outside.{Outside, done, refused, unknown, publish}
use pgiceberg.Recovery.{state_needs_repair}
use pgiceberg.Recovery.Ownership.{current_snapshot_id}
use pgiceberg.Modify.{PendingTableChange, Backend}
use pgiceberg.Modify.Identity.{ensure_xact_commit_id}
use pgiceberg.Modify.Recovered.{
  recovery_table_for, upsert_recovery_table, persist_current_recovery_log,
}
use pgiceberg.Modify.Queue.{clear_pending_table_changes}

abbrev pub is_unknown_kind : ErrorKind → Bool
is_unknown_kind commit_state_unknown = true
is_unknown_kind _ = false

module _ {Table Transaction : Type 0} where
  -- `!table_change.committed && !table_change.changes.empty()`
  abbrev pub has_work : PendingTableChange Table Transaction → Bool
  has_work t = not t.committed && not (is_empty t.changes)

  unfoldable pub upsert_table_change :
      PendingTableChange Table Transaction → Backend Table Transaction → Backend Table Transaction
  upsert_table_change t b = record b {
    recovery = upsert_recovery_table b.recovery (recovery_table_for t);
  }

  -- The first loop: every table with work is put into the record.
  unfoldable pub register_tables :
      List (PendingTableChange Table Transaction)
      → Backend Table Transaction
      → Backend Table Transaction
  register_tables [] b = b
  register_tables (t ∷ ts) b =
      register_tables ts (if has_work t then upsert_table_change t b else b)

-- What a round of the second loop leaves: its status, the table's entry and the backend.
abbrev pub Round : Type 0 → Type 0 → Type 0
Round Table Transaction = Status × PendingTableChange Table Transaction × Backend Table Transaction

-- What the second loop leaves.
abbrev pub Rounds : Type 0 → Type 0 → Type 0
Rounds Table Transaction =
    Status × List (PendingTableChange Table Transaction) × Backend Table Transaction

module _ {Table Transaction : Type 0} (o : Outside Table Transaction) where
  unfoldable pub commit_failed :
      PendingTableChange Table Transaction
      → IcebergError
      → Backend Table Transaction
      → Round Table Transaction
  commit_failed t e b =
      let unknown_state = is_unknown_kind e.kind in
      let t' = record t {
        commit_state_unknown = if unknown_state then true else t.commit_state_unknown;
      } in
      let b₁ = record b {
        history = publish t.options (if unknown_state then unknown else refused) ∷ b.history;
      } in
      let b₂ = upsert_table_change t' b₁ in
      let b₃ = record b₂ { recovery = record b₂.recovery { state = state_needs_repair } } in
      (
        err (make_pg_error e (text "commit pending Iceberg transaction")),
        t',
        (persist_current_recovery_log o b₃).1,
      )

  -- The table is published as `table`; `id` is what `CurrentSnapshotId` answers.
  unfoldable pub commit_done :
      PendingTableChange Table Transaction
      → Table
      → Result (Option ℤ)
      → Backend Table Transaction
      → Round Table Transaction
  commit_done t table (err e) b = (err e, record t { base_table = table }, b)
  commit_done t table (ok id) b =
      let t' = record t {
        base_table = table;
        committed_snapshot_id = id;
        changes = [];
        committed = true;
      } in
      let (r, b') = persist_current_recovery_log o (upsert_table_change t' b) in (r, t', b')

  unfoldable pub commit_one_by :
      PendingTableChange Table Transaction
      → IcebergResult Table
      → Backend Table Transaction
      → Round Table Transaction
  commit_one_by t (err e) b = commit_failed t e b
  commit_one_by t (ok table) b =
      commit_done t table (current_snapshot_id o table)
        (record b { history = publish t.options done ∷ b.history })

  unfoldable pub commit_one :
      PendingTableChange Table Transaction → Backend Table Transaction → Round Table Transaction
  commit_one t b = commit_one_by t (o.commit_transaction b.history t.transaction) b

  -- The second loop: the first failure ends it and leaves the later entries as they are.
  unfoldable pub after_round :
      List (PendingTableChange Table Transaction)
      → (Backend Table Transaction → Rounds Table Transaction)
      → Status
      → PendingTableChange Table Transaction
      → Backend Table Transaction
      → Rounds Table Transaction
  after_round ts rest (ok _) t b = let (r, ts', b') = rest b in (r, t ∷ ts', b')
  after_round ts rest (err e) t b = (err e, t ∷ ts, b)

  unfoldable pub commit_tables :
      List (PendingTableChange Table Transaction)
      → Backend Table Transaction
      → Rounds Table Transaction
  commit_tables [] b = (ok tt, [], b)
  commit_tables (t ∷ ts) b = elim (has_work t) [
    | false ↦ (let (r, ts', b') = commit_tables ts b in (r, t ∷ ts', b'))
    | true ↦ (let (r, t', b') = commit_one t b in after_round ts (commit_tables ts) r t' b')
  ]

  unfoldable pub after_tables :
      Rounds Table Transaction → Exec (Backend Table Transaction) (Unit {0})
  after_tables (ok _, ts, b) _ =
      (ok tt, clear_pending_table_changes false (record b { pending = ts }))
  after_tables (err e, ts, b) _ = (err e, record b { pending = ts })

  unfoldable pub commit_registered : Status → Exec (Backend Table Transaction) (Unit {0})
  commit_registered (err e) b = (err e, b)
  commit_registered (ok _) b = after_tables (commit_tables b.pending b) b

  -- `CommitPendingModifyChanges`, with the log written before the first table is published.
  unfoldable pub commit_pending_modify_changes : Exec (Backend Table Transaction) (Unit {0})
  commit_pending_modify_changes b =
      if any_of has_work b.pending
      then (let b₁ = ensure_xact_commit_id o b in
          let (r, b₂) = persist_current_recovery_log o (register_tables b₁.pending b₁) in
          commit_registered r b₂)
      else (ok tt, b)
