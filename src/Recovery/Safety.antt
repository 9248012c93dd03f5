-- ===== src/Recovery/Safety.antt =====
-- What rolling back and repairing may touch: only the transaction's own snapshots, and the log only
-- at the end.
use mathlib.Core.List.{reverse}
use pgiceberg.Common.{
  ◌≡◌, refl, inl, inr, Bool, true, List, [], ◌∷◌, Option, none, some, Any, Any-reverse, Bool-cases,
}
use pgiceberg.Common.Bytes.{Bytes}
use pgiceberg.Common.Int.{ℤ}
use pgiceberg.Status.{Status, ok}
use pgiceberg.Options.{Options}
use pgiceberg.Outside.{
  Outside, Event, History, log_write, log_remove, publish, delete_files, rollback,
}
use pgiceberg.Outside.Growth.{Grown, same, grow, Grown-trans, Grown-map, Grows-bind-at}
use pgiceberg.Recovery.{CommitRecoveryTable, CommitRecoveryRecord}
use pgiceberg.Recovery.Ownership.{
  SnapshotOwnership, ours, base, missing, foreign, is_id, inspect_snapshot_ownership,
}
use pgiceberg.Recovery.Rollback.{
  may_be_published, commit_rollback, rollback_unless_current, rollback_iceberg_snapshot,
  rollback_to_snapshot, rollback_table_to_base, rollback_if_ours, best_effort_one, best_effort_loop,
  best_effort_rollback_committed_tables, first_error,
}

module _ {Table Transaction : Type 0} (o : Outside Table Transaction) where
  -- The event rolls table `t` back to its base, and the inspection right before it found the table's
  -- current snapshot to be that of the commit.
  abbrev pub RollsBackOwn : Bytes → CommitRecoveryTable → Event → History → Type 0
  RollsBackOwn commit_id t (rollback options id b) h =
      (options ≡ t.options)
      × (t.base_snapshot_id ≡ some id)
      × (inspect_snapshot_ownership o t commit_id h ≡ ok ours)
  RollsBackOwn commit_id t (log_write _ _ _) h = ⊥
  RollsBackOwn commit_id t (log_remove _ _) h = ⊥
  RollsBackOwn commit_id t (publish _ _) h = ⊥
  RollsBackOwn commit_id t (delete_files _) h = ⊥

  commit_rollback-Grown :
      (P : Event → History → Type 0) (options : Options) (table : Table) (id : ℤ) (h : History)
      → ((b : Bool) → P (rollback options id b) h)
      → Grown P h (commit_rollback o options table id h).1
  unfolding commit_rollback
  commit_rollback-Grown P options table id h p = grow _ same (p _)

  rollback_unless_current-Grown :
      (P : Event → History → Type 0) (options : Options) (table : Table) (id : ℤ)
      (current : Option ℤ) (h : History)
      → ((b : Bool) → P (rollback options id b) h)
      → Grown P h (rollback_unless_current o options table id current h).1
  unfolding rollback_unless_current
  rollback_unless_current-Grown P options table id current h p =
      elim (Bool-cases (is_id current id)) [
        | inl e ↦ rw (e, rollback_unless_current) same
        | inr e ↦
            rw (e, rollback_unless_current)
              (Grows-bind-at _ _ h same (λ _ _. commit_rollback-Grown P options table id h p))
      ]

  rollback_iceberg_snapshot-Grown :
      (P : Event → History → Type 0) (options : Options) (id : ℤ) (h : History)
      → ((b : Bool) → P (rollback options id b) h)
      → Grown P h (rollback_iceberg_snapshot o options id h).1
  unfolding rollback_iceberg_snapshot
  rollback_iceberg_snapshot-Grown P options id h p = Grows-bind-at _ _ h same λ c _.
      Grows-bind-at _ _ h same λ table _.
        Grows-bind-at _ _ h same
          λ current _. rollback_unless_current-Grown P options table id current h p

  rollback_to_snapshot-Grown :
      (commit_id : Bytes) (t : CommitRecoveryTable) (target : Option ℤ) (h : History)
      → t.base_snapshot_id ≡ target
      → inspect_snapshot_ownership o t commit_id h ≡ ok ours
      → Grown (RollsBackOwn commit_id t) h (rollback_to_snapshot o t target h).1
  unfolding rollback_to_snapshot
  rollback_to_snapshot-Grown commit_id t none h e found = same
  rollback_to_snapshot-Grown commit_id t (some id) h e found =
      rollback_iceberg_snapshot-Grown (RollsBackOwn commit_id t) t.options id h
        (λ b. (refl, e, found))

  pub rollback_table_to_base-Grown :
      (commit_id : Bytes) (t : CommitRecoveryTable) (h : History)
      → inspect_snapshot_ownership o t commit_id h ≡ ok ours
      → Grown (RollsBackOwn commit_id t) h (rollback_table_to_base o t h).1
  unfolding rollback_table_to_base
  rollback_table_to_base-Grown commit_id t h found =
      rollback_to_snapshot-Grown commit_id t t.base_snapshot_id h refl found

  rollback_if_ours-Grown :
      (commit_id : Bytes) (t : CommitRecoveryTable) (w : SnapshotOwnership) (h : History)
      → inspect_snapshot_ownership o t commit_id h ≡ ok w
      → Grown (RollsBackOwn commit_id t) h (rollback_if_ours o t w h).1
  unfolding rollback_if_ours
  rollback_if_ours-Grown commit_id t ours h found = rollback_table_to_base-Grown commit_id t h found
  rollback_if_ours-Grown commit_id t base h found = same
  rollback_if_ours-Grown commit_id t missing h found = same
  rollback_if_ours-Grown commit_id t foreign h found = same

  abbrev pub RollsBackPublished : Bytes → CommitRecoveryTable → Event → History → Type 0
  RollsBackPublished commit_id t e h = (may_be_published t ≡ true) × RollsBackOwn commit_id t e h

  best_effort_one-Grown :
      (commit_id : Bytes) (t : CommitRecoveryTable) (h : History)
      → Grown (RollsBackPublished commit_id t) h (best_effort_one o commit_id t h).1
  unfolding best_effort_one
  best_effort_one-Grown commit_id t h = elim (Bool-cases (may_be_published t)) [
    | inl e ↦
        rw (e, best_effort_one)
          (Grows-bind-at _ _ h same (λ w found.
            Grown-map (λ ev g r. (e, r)) (rollback_if_ours-Grown commit_id t w h found)))
    | inr e ↦ rw (e, best_effort_one) same
  ]

  best_effort_loop-Grown :
      (commit_id : Bytes) (ts : List CommitRecoveryTable) (first : Status) (h : History)
      → Grown
          (λ e g. Any (λ t. RollsBackPublished commit_id t e g) ts)
          h
          (best_effort_loop o commit_id ts first h).1
  unfolding best_effort_loop
  best_effort_loop-Grown commit_id [] first h = same
  best_effort_loop-Grown commit_id (t ∷ ts) first h =
      let (status, h') = best_effort_one o commit_id t h in
      Grown-trans (Grown-map (λ e g r. inl r) (best_effort_one-Grown commit_id t h)) (
        Grown-map (λ e g r. inr r)
          (best_effort_loop-Grown commit_id ts (first_error first status) h'))

  -- After an abort, everything that the best-effort rollback does outside is to roll back tables of
  -- the record whose state says that they were or may have been published, each to the base recorded
  -- for it, and only where the inspection right before it found the table's current snapshot to be the
  -- one of this commit.
  pub best_effort_rollback-own :
      (r : CommitRecoveryRecord) (h : History)
      → Grown
          (λ e g. Any (λ t. RollsBackPublished r.commit_id t e g) r.tables)
          h
          (best_effort_rollback_committed_tables o r h).1
  unfolding best_effort_rollback_committed_tables
  best_effort_rollback-own r h =
      Grown-map (λ e g. Any-reverse (λ t. RollsBackPublished r.commit_id t e g) r.tables)
        (best_effort_loop-Grown r.commit_id (reverse r.tables) (ok tt) h)
