-- ===== src/Modify/Rounds.antt =====
-- The rounds of `CommitPendingModifyChanges`, each of which finds its table in the log just written.
use pgiceberg.Common.{
  ◌≡◌, refl, sym, subst, true, false, List, [], ◌∷◌, Option, All, Bool-cases, inl, inr, is_empty,
}
use pgiceberg.Common.Bytes.{Bytes}
use pgiceberg.Common.Int.{ℤ}
use pgiceberg.Options.{Options}
use pgiceberg.Status.{Result, Status, IcebergResult, IcebergError, ok, err}
use pgiceberg.Outside.{Outside, History}
use pgiceberg.Outside.Growth.{Grown, same, grow, Grown-trans}
use pgiceberg.Recovery.Ownership.{current_snapshot_id}
use pgiceberg.Modify.{PendingTableChange, Backend}
use pgiceberg.Modify.Queue.{clear_pending_table_changes}
use pgiceberg.Modify.Commit.{
  has_work, upsert_table_change, Round, Rounds, commit_failed, commit_done, commit_one_by,
  commit_one, after_round, commit_tables, after_tables, commit_registered,
}
use pgiceberg.Modify.Tables.{HasTable, Registered, upsert_table_change-keeps}
use pgiceberg.Modify.Logged.{
  BehindLog, LoggedFor, Ready, persist-Grown, persist-frame, persist-Ready,
}

module _ {Table Transaction : Type 0} (o : Outside Table Transaction) (id : Bytes) where
  publish-BehindLog :
      (options : Options) (b : Backend Table Transaction)
      → Ready o id b
      → Registered options b
      → LoggedFor o id options b.history
  publish-BehindLog options b ready registered =
      (b.recovery, ready.on_top, ready.record_id, registered)

  module _ (set : is_empty id ≡ false) (t : PendingTableChange Table Transaction)
      (b : Backend Table Transaction) (ready : Ready o id b)
      (registered : Registered t.options b) where
    commit_failed-Grown :
        (e : IcebergError) → Grown (BehindLog o id) b.history (commit_failed o t e b).2.history
    unfolding commit_failed upsert_table_change
    commit_failed-Grown e =
        Grown-trans (grow _ same (publish-BehindLog t.options b ready registered))
          (persist-Grown o id _)

    commit_done-Grown :
        (table : Table) (x : Result (Option ℤ)) (b₁ : Backend Table Transaction)
        → Grown (BehindLog o id) b.history b₁.history
        → Grown (BehindLog o id) b.history (commit_done o t table x b₁).2.history
    unfolding commit_done upsert_table_change
    commit_done-Grown table (err e) b₁ g = g
    commit_done-Grown table (ok x) b₁ g = Grown-trans g (persist-Grown o id _)

    commit_one_by-Grown :
        (x : IcebergResult Table)
        → Grown (BehindLog o id) b.history (commit_one_by o t x b).2.history
    unfolding commit_one_by
    commit_one_by-Grown (err e) = commit_failed-Grown e
    commit_one_by-Grown (ok table) =
        commit_done-Grown table (current_snapshot_id o table) _
          (grow _ same (publish-BehindLog t.options b ready registered))

    -- A round that succeeds leaves the backend ready for the next one.
    abbrev Onward : Round Table Transaction → Type 0
    Onward x =
        x.0 ≡ ok tt
        → Ready o id x.2 × ((options : Options) → Registered options b → Registered options x.2)

    commit_done-Onward :
        (table : Table) (x : Result (Option ℤ)) (b₁ : Backend Table Transaction)
        → b₁.commit_id ≡ id
        → ((options : Options) → Registered options b → Registered options b₁)
        → Onward (commit_done o t table x b₁)
    unfolding commit_done upsert_table_change
    commit_done-Onward table (err e) b₁ is keeps q = absurd (cc)
    commit_done-Onward table (ok x) b₁ is keeps q =
        let t' = record t {
          base_table = table;
          committed_snapshot_id = x;
          changes = [];
          committed = true;
        } in
        let b₂ = upsert_table_change t' b₁ in
        (
          persist-Ready o id b₂ (cc (set, is)) is q,
          λ options h.
              subst (HasTable options) (sym (persist-frame o b₂).2)
                (upsert_table_change-keeps options t' b₁ (keeps options h)),
        )

    commit_one_by-Onward : (x : IcebergResult Table) → Onward (commit_one_by o t x b)
    unfolding commit_one_by commit_failed
    commit_one_by-Onward (err e) q = absurd (cc)
    commit_one_by-Onward (ok table) q =
        commit_done-Onward table (current_snapshot_id o table) _ ready.backend_id (λ options h. h) q

  -- The tables that are still to be published are in the record.
  abbrev pub Waiting :
      List (PendingTableChange Table Transaction) → Backend Table Transaction → Type 0
  Waiting ts b = All (λ t. has_work t ≡ true → Registered t.options b) ts

  pub Waiting-map :
      (ts : List (PendingTableChange Table Transaction)) (b c : Backend Table Transaction)
      → ((options : Options) → Registered options b → Registered options c)
      → Waiting ts b
      → Waiting ts c
  Waiting-map [] b c keeps w = tt
  Waiting-map (t ∷ ts) b c keeps w =
      (λ work. keeps t.options (w.0 work), Waiting-map ts b c keeps w.1)

  after_round-Grown :
      (start : History) (ts : List (PendingTableChange Table Transaction))
      (rest : Backend Table Transaction → Rounds Table Transaction) (x : Round Table Transaction)
      → Grown (BehindLog o id) start x.2.history
      → (x.0 ≡ ok tt → Grown (BehindLog o id) x.2.history (rest x.2).2.history)
      → Grown (BehindLog o id) start (after_round o ts rest x.0 x.1 x.2).2.history
  unfolding after_round
  after_round-Grown start ts rest (ok _, t, b) g next = Grown-trans g (next refl)
  after_round-Grown start ts rest (err e, t, b) g next = g

  commit_tables-Grown :
      is_empty id ≡ false
      → (ts : List (PendingTableChange Table Transaction)) (b : Backend Table Transaction)
      → Ready o id b
      → Waiting ts b
      → Grown (BehindLog o id) b.history (commit_tables o ts b).2.history
  unfolding commit_tables commit_one
  commit_tables-Grown set [] b ready w = same
  commit_tables-Grown set (t ∷ ts) b ready w = elim (Bool-cases (has_work t)) [
    | inl e ↦
        let x = commit_one_by o t (o.commit_transaction b.history t.transaction) b in
        rw (e, commit_tables)
          (after_round-Grown b.history ts (commit_tables o ts) x
            (commit_one_by-Grown set t b ready (w.0 e) _)
            λ q.
              let (ready', keeps) = commit_one_by-Onward set t b ready (w.0 e) _ q in
              commit_tables-Grown set ts x.2 ready' (Waiting-map ts b x.2 keeps w.1))
    | inr e ↦ rw (e, commit_tables) (commit_tables-Grown set ts b ready w.1)
  ]

  after_tables-history :
      (x : Rounds Table Transaction) (b : Backend Table Transaction)
      → (after_tables o x b).1.history ≡ x.2.history
  unfolding after_tables clear_pending_table_changes
  after_tables-history (ok _, ts, c) b = refl
  after_tables-history (err e, ts, c) b = refl

  pub commit_registered-Grown :
      is_empty id ≡ false
      → (start : History) (x : Status) (b : Backend Table Transaction)
      → Grown (BehindLog o id) start b.history
      → (x ≡ ok tt → Ready o id b × Waiting b.pending b)
      → Grown (BehindLog o id) start (commit_registered o x b).1.history
  unfolding commit_registered
  commit_registered-Grown set start (err e) b g ready = g
  commit_registered-Grown set start (ok _) b g ready =
      let (r, w) = ready refl in
      subst (Grown (BehindLog o id) start)
        (sym (after_tables-history (commit_tables o b.pending b) b))
        (Grown-trans g (commit_tables-Grown set b.pending b r w))
