-- ===== src/Modify/WriteAhead.antt =====
-- `CommitPendingModifyChanges`: nothing is published but behind a log that names it.
use pgiceberg.Common.{
  ℕ, ◌≡◌, refl, sym, subst, ◌∙◌, true, false, List, [], ◌∷◌, some, arith, Bool-cases, inl, inr,
  is_empty, any_of, length,
}
use pgiceberg.Common.Bytes.{Bytes}
use pgiceberg.Outside.{Outside}
use pgiceberg.Outside.Growth.{Grown, same, Grown-start}
use pgiceberg.Recovery.Log.{is_safe_commit_id}
use pgiceberg.Modify.{Backend}
use pgiceberg.Modify.Identity.{ensure_xact_commit_id}
use pgiceberg.Modify.Keys.{generate_commit_id-safe}
use pgiceberg.Modify.Recovered.{persist_current_recovery_log}
use pgiceberg.Modify.Commit.{
  has_work, register_tables, commit_registered, commit_pending_modify_changes,
}
use pgiceberg.Modify.Tables.{HasTable, register_tables-Registered, register_tables-frame}
use pgiceberg.Modify.Logged.{BehindLog, persist-Grown, persist-frame, persist-Ready}
use pgiceberg.Modify.Rounds.{Waiting, Waiting-map, commit_registered-Grown}

module _ {Table Transaction : Type 0} (o : Outside Table Transaction) where
  safe-not_empty : (id : Bytes) → is_safe_commit_id id ≡ true → is_empty id ≡ false
  unfolding is_safe_commit_id
  safe-not_empty [] h = absurd (cc)
  safe-not_empty (c ∷ cs) h = refl

  ensured-set :
      (b : Backend Table Transaction)
      → ((bytes : List ℕ) → o.strong_random b.history ≡ some bytes → length bytes ≡ 16)
      → is_empty (ensure_xact_commit_id o b).commit_id ≡ false
  unfolding ensure_xact_commit_id
  ensured-set b sixteen = elim (Bool-cases (is_empty b.commit_id)) [
    | inl e ↦
        rw (e, ensure_xact_commit_id)
          (safe-not_empty _ (generate_commit_id-safe o b.history sixteen))
    | inr e ↦ rw (e, ensure_xact_commit_id) e
  ]

  ensured-history :
      (b : Backend Table Transaction) → (ensure_xact_commit_id o b).history ≡ b.history
  unfolding ensure_xact_commit_id
  ensured-history b = ground arith

  -- The commit of the pending changes, from a backend that has its commit id.
  from_ensured :
      (b : Backend Table Transaction)
      → is_empty b.commit_id ≡ false
      → Grown
          (BehindLog o b.commit_id)
          b.history
          (commit_registered o
            (persist_current_recovery_log o (register_tables b.pending b)).0
            (persist_current_recovery_log o (register_tables b.pending b)).1).1.history
  from_ensured b set =
      let r = register_tables b.pending b in
      let (h_same, id_same, pending_same) = register_tables-frame b.pending b in
      let (p_id, p_pending, p_tables) = persist-frame o r in
      let id = b.commit_id in
      commit_registered-Grown o id set b.history (persist_current_recovery_log o r).0
        (persist_current_recovery_log o r).1 (Grown-start h_same (persist-Grown o id r))
        λ q. (
          persist-Ready o id r (cc (set, id_same)) id_same q,
          subst (λ ts. Waiting o id ts (persist_current_recovery_log o r).1)
              (sym (p_pending ∙ pending_same))
              (Waiting-map o id b.pending r (persist_current_recovery_log o r).1
                (λ options. subst (HasTable options) (sym p_tables))
                (register_tables-Registered b.pending b)),
        )

  -- All that the commit at PRE_COMMIT does outside is to write logs and to publish tables, and each
  -- table is published, or tried, right after a successful write of this commit's log to the path
  -- that belongs to it, with the table in it. Random bytes come sixteen at a time, if they come.
  pub commit-BehindLog :
      (b : Backend Table Transaction)
      → ((bytes : List ℕ) → o.strong_random b.history ≡ some bytes → length bytes ≡ 16)
      → Grown
          (BehindLog o (ensure_xact_commit_id o b).commit_id)
          b.history
          (commit_pending_modify_changes o b).1.history
  unfolding commit_pending_modify_changes
  commit-BehindLog b sixteen = elim (Bool-cases (any_of has_work b.pending)) [
    | inl e ↦
        rw (e, commit_pending_modify_changes)
          (Grown-start (ensured-history b)
            (from_ensured (ensure_xact_commit_id o b) (ensured-set b sixteen)))
    | inr e ↦ rw (e, commit_pending_modify_changes) same
  ]
