-- ===== src/Modify/Queue.antt =====
-- The queue of pending changes: `FindPendingTableChange` to `QueuePendingModifyChange` of
-- src/engine/modify_state.cc.
use pgiceberg.Common.{
  Bool, false, ◌&&◌, not, List, [], ◌∷◌, ◌++◌, Option, none, some, is_empty, if◌then◌else◌,
}
use pgiceberg.Common.Bytes.{Bytes, text, eqb}
use pgiceberg.Status.{Status, Result, ok, err, and_then, from_iceberg_result}
use pgiceberg.Options.{Options, to_catalog_options}
use pgiceberg.Exec.{Exec, continue}
use pgiceberg.Outside.{Outside, History, Properties, delete_files}
use pgiceberg.Recovery.Ownership.{current_snapshot_id}
use pgiceberg.Modify.{Change, PendingModifyChange, PendingTableChange, Backend}
use pgiceberg.Modify.Apply.{new_data_file_paths, apply}
use pgiceberg.Modify.Identity.{ensure_xact_commit_id, xact_properties, pending_table_key}

-- `CleanupDataFiles`: no call when there is nothing to delete, and a failure is a warning.
unfoldable pub cleanup_data_files : List Bytes → History → History
cleanup_data_files paths h = if is_empty paths then h else delete_files paths ∷ h

-- The paths of a list of changes, in order.
unfoldable pub paths_of : List PendingModifyChange → List Bytes
paths_of [] = []
paths_of (c ∷ cs) = new_data_file_paths c.change ++ paths_of cs

module _ {Table Transaction : Type 0} where
  unfoldable pub find_pending :
      Bytes
      → List (PendingTableChange Table Transaction)
      → Option (PendingTableChange Table Transaction)
  find_pending key [] = none
  find_pending key (t ∷ ts) =
      if eqb t.key key && not t.committed then some t else find_pending key ts

  -- `*it = t` at the place that `find_pending` finds.
  unfoldable pub update_pending :
      Bytes
      → PendingTableChange Table Transaction
      → List (PendingTableChange Table Transaction)
      → List (PendingTableChange Table Transaction)
  update_pending key u [] = []
  update_pending key u (t ∷ ts) =
      let rest = update_pending key u ts in
      if eqb t.key key && not t.committed then u ∷ ts else t ∷ rest

  -- The paths that are deleted when the queue is discarded: not those of a table that was published,
  -- or may have been.
  unfoldable pub unpublished_paths : PendingTableChange Table Transaction → List Bytes
  unpublished_paths t =
      if not t.committed && not t.commit_state_unknown then paths_of t.changes else []

  unfoldable pub cleanup_tables : List (PendingTableChange Table Transaction) → History → History
  cleanup_tables [] h = h
  cleanup_tables (t ∷ ts) h = cleanup_tables ts (cleanup_data_files (unpublished_paths t) h)

  unfoldable pub clear_pending_table_changes :
      Bool → Backend Table Transaction → Backend Table Transaction
  clear_pending_table_changes cleanup b =
      if cleanup
      then record b { pending = []; history = cleanup_tables b.pending b.history }
      else record b { pending = [] }

module _ {Table Transaction : Type 0} (o : Outside Table Transaction) where
  -- The changes applied in order to a transaction; the first failure ends it.
  unfoldable pub replay : List PendingModifyChange → Properties → Exec Transaction (Unit {0})
  replay [] ps tx = (ok tt, tx)
  replay (c ∷ cs) ps tx =
      let (r, tx') = apply o c.change ps tx in continue r (λ _. replay cs ps) tx'

  -- `RebuildPendingTransaction`, once the transaction's properties are known.
  unfoldable pub rebuilt_transaction :
      PendingTableChange Table Transaction → Properties → Result Transaction
  rebuilt_transaction t ps =
      and_then
        (from_iceberg_result (o.new_transaction t.base_table) (text "create Iceberg transaction"))
        λ fresh. let (r, tx) = replay t.changes ps fresh in and_then r (λ _. ok tx)

  -- A new table's entry in the queue.
  unfoldable pub new_pending_table : Options → Table → Result (PendingTableChange Table Transaction)
  new_pending_table options table =
      and_then (to_catalog_options o.load_catalog_options options) λ c.
        and_then (from_iceberg_result (o.new_transaction table) (text "create Iceberg transaction"))
          λ tx. and_then (current_snapshot_id o table) λ id. ok (record {
            key = pending_table_key options;
            options = record options {
              catalog_type = c.catalog_type;
              catalog_uri = c.catalog_uri;
              warehouse = c.warehouse;
              catalog_name = c.catalog_name;
              name_space = c.name_space;
              table = c.table;
            };
            base_table = table;
            transaction = tx;
            changes = [];
            base_snapshot_id = id;
            committed_snapshot_id = none;
            committed = false;
            commit_state_unknown = false;
          })

  -- `EnsurePendingTableChange`: after it the queue has an open entry for the key.
  unfoldable pub ensure_pending_table_change :
      Options → Table → Exec (Backend Table Transaction) (Unit {0})
  ensure_pending_table_change options table b =
      elim (find_pending (pending_table_key options) b.pending) [
        | some t ↦ (ok tt, b)
        | none ↦ (elim (new_pending_table options table) [
          | err e ↦ (err e, b)
          | ok t ↦ (ok tt, ensure_xact_commit_id o (record b { pending = b.pending ++ t ∷ [] }))
        ])
      ]

  -- `QueuePendingModifyChange` on the entry, by how applying the change ended.
  unfoldable pub settle_change :
      PendingTableChange Table Transaction
      → PendingModifyChange
      → Status
      → Transaction
      → Backend Table Transaction
      → Status × PendingTableChange Table Transaction × Backend Table Transaction
  settle_change t c (ok _) tx b =
      (ok tt, record t { changes = t.changes ++ c ∷ []; transaction = tx }, b)
  settle_change t c (err e) tx b = (
    err e,
    record t { transaction = tx },
    record b { history = cleanup_data_files (new_data_file_paths c.change) b.history },
  )

  unfoldable pub queue_change :
      PendingTableChange Table Transaction
      → Change
      → Backend Table Transaction
      → Status × PendingTableChange Table Transaction × Backend Table Transaction
  queue_change t change b =
      let c : PendingModifyChange = record {
        subtransaction_id = o.current_subtransaction b.history;
        change = change;
      } in
      let b' = ensure_xact_commit_id o b in
      let (r, tx) = apply o change (xact_properties o b'.commit_id) t.transaction in
      settle_change t c r tx b'

  -- `QueuePendingModifyChange(**EnsurePendingTableChange(options, table), change)`; if there is no
  -- entry, the files that the change wrote are deleted.
  unfoldable pub queue_pending_modify_change :
      Options → Table → Change → Exec (Backend Table Transaction) (Unit {0})
  queue_pending_modify_change options table change b =
      let (r, b') = ensure_pending_table_change options table b in
      elim r [
        | err e ↦ (
          err e,
          record b' { history = cleanup_data_files (new_data_file_paths change) b'.history },
        )
        | ok _ ↦ (elim (find_pending (pending_table_key options) b'.pending) [
          | none ↦ (ok tt, b')
          | some t ↦
              (let (status, t', b'') = queue_change t change b' in
                (
                  status,
                  record b'' {
                    pending = update_pending (pending_table_key options) t' b''.pending;
                  },
                ))
        ])
      ]
