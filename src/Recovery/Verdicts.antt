-- ===== src/Recovery/Verdicts.antt =====
-- What the verdicts of reconciliation mean.
use pgiceberg.Common.{
  ◌≡◌, refl, ◌≢◌, ◌∙◌, ap, ◌↔◌, ◌⊎◌, inl, inr, Bool, true, false, ◌||◌, not, List, [], ◌∷◌, Option,
  none, some, arith, any_of, if◌then◌else◌,
}
use pgiceberg.Common.Bytes.{Bytes, text, eqb, eqb_exclusive, eqb_iff}
use pgiceberg.Status.{ok, from_iceberg_result}
use pgiceberg.Outside.{Outside, Snapshot}
use pgiceberg.Recovery.{CommitRecoveryTable}
use pgiceberg.Recovery.Ownership.{
  SnapshotOwnership, ours, base, missing, foreign, ownership_of, is_id, snapshot_has_commit_id,
  inspect_loaded, current_snapshot_id, table_verdict, was_superseded, iceberg_published,
  not_published, missing_snapshot, already_rolled_back, superseded, diverged, Flags, raise_flag,
  raise_flags, verdict_of_flags, no_flags, overall_verdict, verdict_stale_intent,
  verdict_iceberg_partial, verdict_iceberg_orphan, verdict_needs_operator,
}

-- The classes of a table's verdict.
abbrev pub is_published : Bytes → Bool
is_published v = eqb v iceberg_published

abbrev pub is_pending : Bytes → Bool
is_pending v = eqb v not_published

abbrev pub is_rolled_back : Bytes → Bool
is_rolled_back v = eqb v already_rolled_back

abbrev pub is_unresolved : Bytes → Bool
is_unresolved v = not (is_published v || (is_pending v || is_rolled_back v))

abbrev flags_of : Flags → List Bytes → Flags
flags_of f vs = record {
  any_published = f.any_published || any_of is_published vs;
  any_pending = f.any_pending || any_of is_pending vs;
  any_rolled_back = f.any_rolled_back || any_of is_rolled_back vs;
  any_unresolved = f.any_unresolved || any_of is_unresolved vs;
}

published_not_pending : (v : Bytes) → is_published v ≡ true → is_pending v ≡ false
published_not_pending v = eqb_exclusive v iceberg_published not_published (unfold text eqb in refl)

published_not_rolled_back : (v : Bytes) → is_published v ≡ true → is_rolled_back v ≡ false
published_not_rolled_back v =
    eqb_exclusive v iceberg_published already_rolled_back (unfold text eqb in refl)

pending_not_rolled_back : (v : Bytes) → is_pending v ≡ true → is_rolled_back v ≡ false
pending_not_rolled_back v =
    eqb_exclusive v not_published already_rolled_back (unfold text eqb in refl)

raise_flags-flags_of : (f : Flags) (vs : List Bytes) → raise_flags f vs ≡ flags_of f vs
unfolding raise_flags raise_flag
raise_flags-flags_of f [] = ground arith
raise_flags-flags_of f (v ∷ vs) =
    raise_flags-flags_of (raise_flag f v) vs
    ∙ ground
        (arith, published_not_pending v, published_not_rolled_back v, pending_not_rolled_back v)

overall_verdict-classes :
    (vs : List Bytes) → overall_verdict vs ≡ verdict_of_flags (flags_of no_flags vs)
unfolding overall_verdict
overall_verdict-classes vs = ap verdict_of_flags (raise_flags-flags_of no_flags vs)

abbrev pub NoneOf : (Bytes → Bool) → List Bytes → Type 0
NoneOf p vs = any_of p vs ≡ false

-- The four verdicts on a record are four texts.
same_text : (a b : Bytes) → eqb a b ≡ false → a ≡ b → ⊥
same_text a b d e = cc (d, (eqb_iff a b).1 e)

stale_intent_iff :
    (f : Flags)
    → (verdict_of_flags f ≡ verdict_stale_intent) ↔ (
        (f.any_unresolved ≡ false)
        × (f.any_published ≡ false)
        × ((f.any_rolled_back || f.any_pending) ≡ true))
unfolding verdict_of_flags
stale_intent_iff f = ground (
  arith,
  same_text verdict_needs_operator verdict_stale_intent (unfold text eqb in refl),
  same_text verdict_iceberg_partial verdict_stale_intent (unfold text eqb in refl),
  same_text verdict_iceberg_orphan verdict_stale_intent (unfold text eqb in refl),
)

orphan_iff :
    (f : Flags)
    → (verdict_of_flags f ≡ verdict_iceberg_orphan)
      ↔ ((f.any_unresolved ≡ false) × (f.any_published ≡ true) × (f.any_pending ≡ false))
unfolding verdict_of_flags
orphan_iff f = ground (
  arith,
  same_text verdict_needs_operator verdict_iceberg_orphan (unfold text eqb in refl),
  same_text verdict_iceberg_partial verdict_iceberg_orphan (unfold text eqb in refl),
  same_text verdict_stale_intent verdict_iceberg_orphan (unfold text eqb in refl),
)

partial_iff :
    (f : Flags)
    → (verdict_of_flags f ≡ verdict_iceberg_partial)
      ↔ ((f.any_unresolved ≡ false) × (f.any_published ≡ true) × (f.any_pending ≡ true))
unfolding verdict_of_flags
partial_iff f = ground (
  arith,
  same_text verdict_needs_operator verdict_iceberg_partial (unfold text eqb in refl),
  same_text verdict_iceberg_orphan verdict_iceberg_partial (unfold text eqb in refl),
  same_text verdict_stale_intent verdict_iceberg_partial (unfold text eqb in refl),
)

some_class_iff :
    (vs : List Bytes)
    → any_of is_unresolved vs ≡ false
    → any_of is_published vs ≡ false
    → ((any_of is_rolled_back vs || any_of is_pending vs) ≡ true) ↔ (vs ≢ [])
some_class_iff [] u p = (λ e. cc, λ ne. absurd (ne refl))
some_class_iff (v ∷ vs) u p = (λ e. λ q. cc, λ ne. ground arith)

-- What each verdict on a record says of the verdicts on its tables. It is `stale_intent` exactly when
-- there is a table and every table is unpublished or rolled back; `iceberg_orphan` exactly when some
-- table is published and all others are too or are rolled back; `iceberg_partial` exactly when every
-- table is resolved and one is published and one is not.
pub overall_verdict_iff :
    (vs : List Bytes)
    → ((overall_verdict vs ≡ verdict_stale_intent)
        ↔ ((vs ≢ []) × NoneOf is_unresolved vs × NoneOf is_published vs))
      × ((overall_verdict vs ≡ verdict_iceberg_orphan)
          ↔ (NoneOf is_unresolved vs × (any_of is_published vs ≡ true) × NoneOf is_pending vs))
      × ((overall_verdict vs ≡ verdict_iceberg_partial) ↔ (
          NoneOf is_unresolved vs
          × (any_of is_published vs ≡ true)
          × (any_of is_pending vs ≡ true)))
overall_verdict_iff vs = rw (overall_verdict-classes vs) (
    let stale = stale_intent_iff (flags_of no_flags vs) in
    (
      (
        λ e. let (u, p, c) = stale.0 e in ((some_class_iff vs u p).0 c, u, p),
        λ (ne, u, p). stale.1 (u, p, (some_class_iff vs u p).1 ne),
      ),
      orphan_iff (flags_of no_flags vs),
      partial_iff (flags_of no_flags vs),
    ))

-- What reconciliation says of a table, by what repair finds when it inspects the table.
abbrev pub VerdictFor : SnapshotOwnership → Bytes → Type 0
VerdictFor ours v = v ≡ iceberg_published
VerdictFor base v = v ≡ already_rolled_back
VerdictFor missing v = (v ≡ not_published) ⊎ (v ≡ missing_snapshot)
VerdictFor foreign v = (v ≡ superseded) ⊎ (v ≡ diverged)

ladder :
    (a b c d : Bool)
    → VerdictFor (if a then ours else if b then ours else if c then base else foreign) (
        if a
        then iceberg_published
        else if b
        then iceberg_published
        else if c
        then already_rolled_back
        else if d
        then superseded
        else diverged)
ladder true b c d = refl
ladder false true c d = refl
ladder false false true d = refl
ladder false false false true = inl refl
ladder false false false false = inr refl

module _ {Table Transaction : Type 0} (o : Outside Table Transaction) where
  verdict_of_snapshot :
      (t : CommitRecoveryTable) (table : Table) (commit_id : Bytes) (s : Option Snapshot)
      → o.current_snapshot table ≡ s
      → o.latest_snapshot table ≡ ok s
      → (w : SnapshotOwnership) × (inspect_loaded o t commit_id table ≡ ok w)
        × VerdictFor w (table_verdict o t table commit_id)
  unfolding inspect_loaded current_snapshot_id table_verdict ownership_of from_iceberg_result
  verdict_of_snapshot t table commit_id none c l = (missing, ground arith, ground arith)
  verdict_of_snapshot t table commit_id (some s) c l = (
    ownership_of t commit_id s.snapshot_id (some s),
    ground arith,
    rw (c, table_verdict)
        (ladder (is_id t.committed_snapshot_id s.snapshot_id) (snapshot_has_commit_id s commit_id)
          (is_id t.base_snapshot_id s.snapshot_id) (was_superseded o t table s.snapshot_id)),
  )

  -- Where the library's latest snapshot is the table's current one, the verdict of reconciliation on
  -- a table is the one that belongs to the ownership that repair finds: published exactly for our
  -- snapshot, rolled back for the base, superseded or diverged for a foreign snapshot.
  pub inspect-table_verdict :
      (t : CommitRecoveryTable) (table : Table) (commit_id : Bytes)
      → o.latest_snapshot table ≡ ok (o.current_snapshot table)
      → (w : SnapshotOwnership) × (inspect_loaded o t commit_id table ≡ ok w)
        × VerdictFor w (table_verdict o t table commit_id)
  inspect-table_verdict t table commit_id agree =
      verdict_of_snapshot t table commit_id (o.current_snapshot table) refl agree
