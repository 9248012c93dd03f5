-- ===== src/Modify/States.antt =====
-- What the state of a recovery record says of its tables.
use pgiceberg.Common.{
  ◌≡◌, ◌≢◌, ◌↔◌, refl, Bool, true, false, ◌&&◌, ◌||◌, arith, any_of, is_empty, if◌then◌else◌,
}
use pgiceberg.Common.Bytes.{Bytes, text, eqb, eqb_iff}
use pgiceberg.Status.{IcebergError}
use pgiceberg.Outside.{Outside}
use pgiceberg.Recovery.{
  CommitRecoveryTable, CommitRecoveryRecord, state_preparing, state_iceberg_partial,
  state_iceberg_complete, state_needs_repair,
}
use pgiceberg.Modify.{PendingTableChange, Backend, on_history}
use pgiceberg.Modify.Recovered.{
  is_committed, is_unknown, recovery_state_for, current_record, persist_current_recovery_log,
}
use pgiceberg.Modify.Commit.{commit_failed, upsert_table_change}

-- Neither published nor in doubt.
abbrev pub is_open : CommitRecoveryTable → Bool
is_open t = if is_committed t then false else if is_unknown t then false else true

-- In doubt, and not known to be published.
abbrev pub in_doubt : CommitRecoveryTable → Bool
in_doubt t = if is_committed t then false else is_unknown t

state_of : Bool → Bool → Bool → Bytes
state_of committed unknown pending =
    if unknown || (committed && pending)
    then state_iceberg_partial
    else if committed
    then state_iceberg_complete
    else state_preparing

distinct : (a b : Bytes) → eqb a b ≡ false → a ≢ b
distinct a b e q = let same : eqb a b ≡ true = (eqb_iff a b).1 q in cc

partial_not_complete : state_iceberg_partial ≢ state_iceberg_complete
partial_not_complete =
    distinct _ _ (unfold state_iceberg_partial state_iceberg_complete text eqb in refl)

preparing_not_complete : state_preparing ≢ state_iceberg_complete
preparing_not_complete =
    distinct _ _ (unfold state_preparing state_iceberg_complete text eqb in refl)

preparing_not_partial : state_preparing ≢ state_iceberg_partial
preparing_not_partial = distinct _ _ (unfold state_preparing state_iceberg_partial text eqb in refl)

state_of_iff :
    (committed unknown pending : Bool)
    → ((state_of committed unknown pending ≡ state_iceberg_complete)
        ↔ ((unknown ≡ false) × (pending ≡ false) × (committed ≡ true)))
      × ((state_of committed unknown pending ≡ state_preparing)
          ↔ ((unknown ≡ false) × (committed ≡ false)))
unfolding state_of
state_of_iff committed unknown pending =
    ground (arith, partial_not_complete, preparing_not_complete, preparing_not_partial)

-- The state of a record is `iceberg_complete` exactly when some table is published and every other
-- one is too, and `preparing` exactly when no table is published or in doubt.
pub recovery_state_for_iff :
    (r : CommitRecoveryRecord)
    → ((recovery_state_for r ≡ state_iceberg_complete) ↔ (
        (any_of in_doubt r.tables ≡ false)
        × (any_of is_open r.tables ≡ false)
        × (any_of is_committed r.tables ≡ true)))
      × ((recovery_state_for r ≡ state_preparing)
          ↔ ((any_of in_doubt r.tables ≡ false) × (any_of is_committed r.tables ≡ false)))
unfolding recovery_state_for state_of
recovery_state_for_iff r =
    state_of_iff (any_of is_committed r.tables) (any_of in_doubt r.tables) (any_of is_open r.tables)

not_needs_repair :
    (committed unknown pending : Bool) → state_of committed unknown pending ≢ state_needs_repair
unfolding state_of
not_needs_repair committed unknown pending = ground (
  arith,
  distinct state_iceberg_partial state_needs_repair
      (unfold state_iceberg_partial state_needs_repair text eqb in refl),
  distinct state_iceberg_complete state_needs_repair
      (unfold state_iceberg_complete state_needs_repair text eqb in refl),
  distinct state_preparing state_needs_repair
      (unfold state_preparing state_needs_repair text eqb in refl),
)

recovery_state_for-not_needs_repair :
    (r : CommitRecoveryRecord) → recovery_state_for r ≢ state_needs_repair
unfolding recovery_state_for state_of
recovery_state_for-not_needs_repair r =
    not_needs_repair (any_of is_committed r.tables) (any_of in_doubt r.tables)
      (any_of is_open r.tables)

module _ {Table Transaction : Type 0} (o : Outside Table Transaction) where
  persist-not_needs_repair :
      (b : Backend Table Transaction)
      → is_empty b.commit_id ≡ false
      → (persist_current_recovery_log o b).1.recovery.state ≢ state_needs_repair
  unfolding persist_current_recovery_log on_history current_record
  persist-not_needs_repair b set =
      rw (set, persist_current_recovery_log) (recovery_state_for-not_needs_repair b.recovery)

  -- After a table's commit has failed, the record that was written does not have the state
  -- `needs_repair`, whatever the failure: the state set for it is computed anew before the write. The
  -- backend has a commit id.
  pub commit_failed-not_needs_repair :
      (t : PendingTableChange Table Transaction) (e : IcebergError) (b : Backend Table Transaction)
      → is_empty b.commit_id ≡ false
      → (commit_failed o t e b).2.recovery.state ≢ state_needs_repair
  unfolding commit_failed upsert_table_change
  commit_failed-not_needs_repair t e b set = persist-not_needs_repair _ set
